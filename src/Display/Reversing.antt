-- ===== src/Display/Reversing.antt =====
-- `RevRect` of libucimf/display/fblinear16.cpp and fblinear24.cpp, by words, against the reversing of
-- each byte.
use ucimf.Prelude.{
  ℕ, zero, suc, ◌+◌, ◌-◌, ◌*◌, ◌/◌, ◌%◌, ◌^◌, ◌<◌, false, Option, none, some, ◌≡◌, refl, sym, ap,
  ◌∙◌, arith, ◌==◌, if◌then◌else◌, List, [], ◌∷◌, ◌++◌, Bytes, if_true, if_false, Bool-cases, inl,
  inr,
}
use native.Mathlib.Nat.{zero-mul, pow-suc}
use ucimf.Prelude.Int.{pos_part}
use ucimf.Display.{Area, on_screen}
use ucimf.Display.Areas.{width, height}
use ucimf.Display.Packed.{
  Memory, bytes_of, write_bytes, value, rev_word, rev_words, longs, sizes16, sizes24, rev_lines,
  rev_rect16, rev_rect24,
}

-- Reversing byte by byte.
abbrev pub rev_bytes : ℕ → ℕ → Memory → Memory
rev_bytes a zero m = m
rev_bytes a (suc n) m = rev_bytes (a + 1) n (write_bytes a ((255 - m a) ∷ []) m)

abbrev pub IsMemory : Memory → Type 0
IsMemory m = (i : ℕ) → m i < 256

abbrev reversed : ℕ → ℕ → Memory → Bytes
reversed a zero m = []
reversed a (suc n) m = (255 - m a) ∷ reversed (a + 1) n m

written : (a b : ℕ) (m : Memory) → b < 256 → IsMemory m → IsMemory (write_bytes a (b ∷ []) m)
unfolding write_bytes
written a b m h ok i = elim (Bool-cases (i == a)) [
  | inl e ↦ rw (if_true b (m i) e) h
  | inr e ↦ rw (if_false b (m i) e) (ok i)
]

rev_bytes-IsMemory : (a n : ℕ) (m : Memory) → IsMemory m → IsMemory (rev_bytes a n m)
rev_bytes-IsMemory a zero m ok = ok
rev_bytes-IsMemory a (suc n) m ok =
    rev_bytes-IsMemory (a + 1) n _ (written a (255 - m a) m (omega arith) ok)

reversed_past :
    (a b n x : ℕ) (m : Memory) → a < b → reversed b n (write_bytes a (x ∷ []) m) ≡ reversed b n m
unfolding write_bytes
reversed_past a b zero x m h = refl
reversed_past a b (suc n) x m h =
    let other : (b == a) ≡ false = ground arith in
    ap (λ v. (255 - v) ∷ reversed (b + 1) n (write_bytes a (x ∷ []) m)) (if_false x (m b) other)
    ∙ ap (λ r. (255 - m b) ∷ r) (reversed_past a (b + 1) n x m (omega arith))

rev_bytes-write_bytes : (a n : ℕ) (m : Memory) → rev_bytes a n m ≡ write_bytes a (reversed a n m) m
unfolding write_bytes
rev_bytes-write_bytes a zero m = refl
rev_bytes-write_bytes a (suc n) m =
    let m1 = write_bytes a ((255 - m a) ∷ []) m in
    rev_bytes-write_bytes (a + 1) n m1
    ∙ ap (λ r. write_bytes (a + 1) r m1) (reversed_past a (a + 1) n (255 - m a) m (omega arith))

value_bound : (a n : ℕ) (m : Memory) → IsMemory m → value a n m < 256 ^ n
value_bound a zero m ok = omega arith
value_bound a (suc n) m ok =
    let rest = value_bound (a + 1) n m ok in
    let here = ok a in rw (pow-suc 256 n) (omega (arith, rest, here))

split_word :
    (x v q p : ℕ)
    → x < 256
    → v < p
    → q ≡ p * 256
    → ((q - 1 - (x + 256 * v)) % 256 ≡ 255 - x) × ((q - 1 - (x + 256 * v)) / 256 ≡ p - 1 - v)
split_word x v q p h k e = (omega arith, omega arith)

bytes_of-reversed :
    (a n : ℕ) (m : Memory) → IsMemory m → bytes_of n (256 ^ n - 1 - value a n m) ≡ reversed a n m
bytes_of-reversed a zero m ok = refl
bytes_of-reversed a (suc n) m ok =
    let (low, high) =
      split_word (m a) (value (a + 1) n m) (256 ^ suc n) (256 ^ n) (ok a)
        (value_bound (a + 1) n m ok) (pow-suc 256 n) in
    ap (λ v. v ∷ bytes_of n ((256 ^ suc n - 1 - value a (suc n) m) / 256)) low
    ∙ ap (λ v. (255 - m a) ∷ bytes_of n v) high
    ∙ ap (λ r. (255 - m a) ∷ r) (bytes_of-reversed (a + 1) n m ok)

rev_word-rev_bytes : (a n : ℕ) (m : Memory) → IsMemory m → rev_word a n m ≡ rev_bytes a n m
unfolding rev_word
rev_word-rev_bytes a n m ok =
    ap (λ b. write_bytes a b m) (bytes_of-reversed a n m ok) ∙ sym (rev_bytes-write_bytes a n m)

rev_bytes_add :
    (a n k : ℕ) (m : Memory) → rev_bytes a (n + k) m ≡ rev_bytes (a + n) k (rev_bytes a n m)
rev_bytes_add a zero k m =
    let none_first : 0 + k ≡ k = omega arith in
    let here : a ≡ a + 0 = omega arith in
    ap (λ n. rev_bytes a n m) none_first ∙ ap (λ b. rev_bytes b k m) here
rev_bytes_add a (suc n) k m =
    let m1 = write_bytes a ((255 - m a) ∷ []) m in
    let more : suc n + k ≡ suc (n + k) = omega arith in
    ap (λ j. rev_bytes a j m) more
    ∙ rev_bytes_add (a + 1) n k m1
    ∙ ap (λ b. rev_bytes b k (rev_bytes (a + 1) n m1)) (omega arith)

abbrev sum : List ℕ → ℕ
sum [] = 0
sum (n ∷ ns) = n + sum ns

rev_words-rev_bytes :
    (a : ℕ) (ns : List ℕ) (m : Memory) → IsMemory m → rev_words a ns m ≡ rev_bytes a (sum ns) m
unfolding rev_words
rev_words-rev_bytes a [] m ok = refl
rev_words-rev_bytes a (n ∷ ns) m ok =
    ap (rev_words (a + n) ns) (rev_word-rev_bytes a n m ok)
    ∙ rev_words-rev_bytes (a + n) ns (rev_bytes a n m) (rev_bytes-IsMemory a n m ok)
    ∙ sym (rev_bytes_add a n (sum ns) m)

sum-append : (xs ys : List ℕ) → sum (xs ++ ys) ≡ sum xs + sum ys
sum-append [] ys = omega arith
sum-append (x ∷ xs) ys = omega (arith, sum-append xs ys)

sum-longs : (n : ℕ) → sum (longs n) ≡ n * 4
unfolding longs
sum-longs zero = omega arith
sum-longs (suc n) = omega (arith, sum-longs n)

sum-odd : (n : ℕ) (xs : List ℕ) → n < 2 → sum (if n == 1 then xs else []) ≡ n * sum xs
sum-odd zero xs h = sym (zero-mul (sum xs))
sum-odd (suc zero) xs h = omega arith
sum-odd (suc (suc n)) xs h = absurd (omega arith)

sum-sizes16 : (w : ℕ) → sum (sizes16 w) ≡ w * 2
sum-sizes16 w =
    let odd = sum-odd (w % 2) (2 ∷ []) (omega arith) in
    sum-append (longs (w / 2)) _ ∙ omega (arith, sum-longs (w / 2), odd)

sum-sizes24 : (w : ℕ) → sum (sizes24 w) ≡ w * 3
sum-sizes24 w =
    let two : List ℕ = if w / 2 % 2 == 1 then 4 ∷ 2 ∷ [] else [] in
    let pair = sum-odd (w / 2 % 2) (4 ∷ 2 ∷ []) (omega arith) in
    let odd = sum-odd (w % 2) (2 ∷ 1 ∷ []) (omega arith) in
    sum-append (longs (w / 4 * 3) ++ two) _
    ∙ omega (arith, sum-append (longs (w / 4 * 3)) two, sum-longs (w / 4 * 3), pair, odd)

-- Lines reversed byte by byte.
abbrev pub rev_lines_by_bytes : ℕ → ℕ → ℕ → ℕ → Memory → Memory
rev_lines_by_bytes next_line n dest zero m = m
rev_lines_by_bytes next_line n dest (suc h) m =
    rev_lines_by_bytes next_line n (dest + next_line) h (rev_bytes dest n m)

rev_lines_lem :
    (next_line n dest h : ℕ) (sizes : List ℕ) (m : Memory)
    → sum sizes ≡ n
    → IsMemory m
    → rev_lines next_line sizes dest h m ≡ rev_lines_by_bytes next_line n dest h m
unfolding rev_lines
rev_lines_lem next_line n dest zero sizes m e ok = refl
rev_lines_lem next_line n dest (suc h) sizes m e ok =
    ap (rev_lines next_line sizes (dest + next_line) h)
      (rev_words-rev_bytes dest sizes m ok ∙ ap (λ k. rev_bytes dest k m) e)
    ∙ rev_lines_lem next_line n (dest + next_line) h sizes (rev_bytes dest n m) e
        (rev_bytes-IsMemory dest n m ok)

-- `RevRect` byte by byte, for pixels of `size` bytes.
abbrev pub rev_by_bytes : ℕ → ℕ → ℕ → ℕ → Area → Memory → Option Memory
rev_by_bytes xres yres next_line size a m =
    if on_screen xres yres a
    then some (
        rev_lines_by_bytes next_line (width a * size)
          (next_line * pos_part a.y1 + pos_part a.x1 * size) (height a) m)
    else none

-- Reversing an area by words does to the memory what reversing each of its bytes does, with 16 and
-- with 24 bits to a pixel; for a memory whose bytes are below 256.
pub rev_rect-rev_by_bytes :
    (xres yres next_line : ℕ) (a : Area) (m : Memory)
    → IsMemory m
    → (rev_rect16 xres yres next_line a m ≡ rev_by_bytes xres yres next_line 2 a m)
      × (rev_rect24 xres yres next_line a m ≡ rev_by_bytes xres yres next_line 3 a m)
unfolding rev_rect16 rev_rect24
rev_rect-rev_by_bytes xres yres next_line a m ok = (
  ap (λ t. if on_screen xres yres a then some t else none)
      (rev_lines_lem next_line (width a * 2) _ (height a) (sizes16 (width a)) m
        (sum-sizes16 (width a)) ok),
  ap (λ t. if on_screen xres yres a then some t else none)
      (rev_lines_lem next_line (width a * 3) _ (height a) (sizes24 (width a)) m
        (sum-sizes24 (width a)) ok),
)
