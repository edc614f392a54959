-- ===== src/OpenVanilla/Decimal.antt =====
-- Decimal numbers as `std::stringstream` writes an int and `atoi` reads one, for the dictionary of
-- ucimf-openvanilla/src/openvanilla.cpp.
use ucimf.Prelude.{
  ℕ, zero, suc, ◌+◌, ◌-◌, ◌*◌, ◌/◌, ◌%◌, ◌<◌, Bool, true, false, ◌&&◌, ◌||◌, ◌≡◌, refl, sym, ap,
  ◌∙◌, arith, ltb, leb, ◌==◌, if◌then◌else◌, [], ◌∷◌, ◌++◌, Bytes, drop_while, Bool-cases, inl, inr,
  Passes, Passes-append, positive-is_char, is_char, if_true, if_false,
}
use ucimf.Prelude.Int.{ℤ, pos, negsuc}

-- The digits of a number, by as many steps as the fuel allows; the number itself is enough.
unfoldable pub digits : ℕ → ℕ → Bytes
digits zero n = []
digits (suc k) n =
    let rest = digits k (n / 10) in if ltb n 10 then (48 + n) ∷ [] else rest ++ (48 + n % 10) ∷ []

unfoldable pub show_nat : ℕ → Bytes
show_nat n = digits (suc n) n

unfoldable pub show_int : ℤ → Bytes
show_int (pos n) = show_nat n
show_int (negsuc n) = b'-' ∷ show_nat (suc n)

abbrev pub is_digit : ℕ → Bool
is_digit c = leb 48 c && leb c 57

-- `isspace` in the C locale.
abbrev pub is_white : ℕ → Bool
is_white c = c == 32 || (leb 9 c && leb c 13)

unfoldable pub read_digits : ℕ → Bytes → ℕ
read_digits n [] = n
read_digits n (c ∷ cs) = if is_digit c then read_digits (n * 10 + (c - 48)) cs else n

abbrev pub negative : ℕ → ℤ
negative zero = pos 0
negative (suc n) = negsuc n

unfoldable pub read_signed : Bytes → ℤ
read_signed [] = pos 0
read_signed (c ∷ cs) =
    if c == b'-'
    then negative (read_digits 0 cs)
    else if c == b'+'
    then pos (read_digits 0 cs)
    else pos (read_digits 0 (c ∷ cs))

-- `atoi`, on a number that fits an int.
unfoldable pub atoi : Bytes → ℤ
atoi s = read_signed (drop_while is_white s)

abbrev AllDigits : Bytes → Type 0
AllDigits = Passes is_digit

read_digits-append :
    (n : ℕ) (xs : Bytes) (d : ℕ)
    → AllDigits xs
    → d < 10
    → read_digits n (xs ++ (48 + d) ∷ []) ≡ read_digits n xs * 10 + d
unfolding read_digits
read_digits-append n [] d h k = ground arith
read_digits-append n (x ∷ xs) d (h, hs) k =
    if_true _ _ h
    ∙ read_digits-append (n * 10 + (x - 48)) xs d hs k
    ∙ ap (λ (m : ℕ). m * 10 + d) (sym (if_true _ _ h))

one_digit : (d : ℕ) → d < 10 → AllDigits ((48 + d) ∷ [])
one_digit d h = (ground arith, tt)

digits_lem : (k n : ℕ) → n < k → AllDigits (digits k n) × (read_digits 0 (digits k n) ≡ n)
unfolding digits
digits_lem zero n h = absurd (omega arith)
digits_lem (suc k) n h = elim (Bool-cases (ltb n 10)) [
  | inl small ↦ rw small (one_digit n (ground arith), unfold read_digits in (ground arith))
  | inr large ↦
      let (ds, back) = digits_lem k (n / 10) (ground arith) in
      rw large (
        Passes-append is_digit (digits k (n / 10)) _ ds (one_digit (n % 10) (omega arith)),
        read_digits-append 0 (digits k (n / 10)) (n % 10) ds (omega arith) ∙ omega (arith, back),
      )
]

append_start : (c : ℕ) (r xs ys : Bytes) → xs ≡ c ∷ r → xs ++ ys ≡ c ∷ (r ++ ys)
append_start c r xs ys e = rw e refl

digits_start :
    (k n : ℕ) → n < k → (c : ℕ) × (r : Bytes) × (digits k n ≡ c ∷ r) × (is_digit c ≡ true)
unfolding digits
digits_start zero n h = absurd (omega arith)
digits_start (suc k) n h = elim (Bool-cases (ltb n 10)) [
  | inl small ↦ (48 + n, [], if_true _ _ small, ground arith)
  | inr large ↦
      let (c, r, e, d) = digits_start k (n / 10) (ground arith) in
      (c, r ++ (48 + n % 10) ∷ [], if_false _ _ large ∙ append_start c r _ _ e, d)
]

read_signed_digit :
    (c : ℕ) (r : Bytes) → is_digit c ≡ true → atoi (c ∷ r) ≡ pos (read_digits 0 (c ∷ r))
unfolding atoi drop_while read_signed
read_signed_digit c r d =
    let black : is_white c ≡ false = ground arith in
    let unsigned : (c == b'-') ≡ false = ground arith in
    let no_plus : (c == b'+') ≡ false = ground arith in
    ap read_signed (if_false _ _ black) ∙ if_false _ _ unsigned ∙ if_false _ _ no_plus

atoi-minus : (s : Bytes) → atoi (b'-' ∷ s) ≡ negative (read_digits 0 s)
unfolding atoi drop_while read_signed
atoi-minus s = refl

-- `atoi` reads back every int that the stream has written.
pub atoi-show_int : (v : ℤ) → atoi (show_int v) ≡ v
unfolding show_int show_nat
atoi-show_int (pos n) =
    let (c, r, e, d) = digits_start (suc n) n (omega arith) in
    let (_, back) = digits_lem (suc n) n (omega arith) in
    ap atoi e
    ∙ read_signed_digit c r d
    ∙ ap (λ (s : Bytes). pos (read_digits 0 s)) (sym e)
    ∙ ap pos back
atoi-show_int (negsuc n) =
    let (_, back) = digits_lem (suc (suc n)) (suc n) (omega arith) in
    atoi-minus (digits (suc (suc n)) (suc n)) ∙ ap negative back

AllDigits-chars : (s : Bytes) → AllDigits s → Passes is_char s
AllDigits-chars [] h = tt
AllDigits-chars (c ∷ s) (h, hs) = (positive-is_char c (ground arith), AllDigits-chars s hs)

-- A number is written without a zero byte.
pub show_int_chars : (v : ℤ) → Passes is_char (show_int v)
unfolding show_int show_nat
show_int_chars (pos n) = AllDigits-chars _ (digits_lem (suc n) n (omega arith)).0
show_int_chars (negsuc n) =
    (refl, AllDigits-chars _ (digits_lem (suc (suc n)) (suc n) (omega arith)).0)
