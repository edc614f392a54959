-- ===== src/Display/Filling.antt =====
-- Filling by words against filling pixel by pixel, in the drivers of Display/Packed.
use ucimf.Prelude.{
  ℕ, zero, suc, ◌+◌, ◌*◌, ◌/◌, ◌^◌, ◌<◌, Bool, true, ◌&&◌, Option, none, some, ◌≡◌, refl, ap, ◌∙◌,
  arith, ltb, if◌then◌else◌, List, [], ◌∷◌, ◌++◌, ◌>>=◌, Bytes, length, get_elem?, bind_inv,
  some_inj,
}
use ucimf.Prelude.Int.{ℤ, pos, negsuc, pos_part}
use ucimf.Display.{Area, on_screen}
use ucimf.Display.Areas.{width, height}
use ucimf.Display.Packed.{
  red16, green16, blue16, Memory, bytes_of, write_bytes, repeat, color_of, cfb16, cfb15, cfb24,
  fill_row16, fill_row24, fill_lines, fill_by, fill_rect16, fill_rect15, fill_rect24,
}
use ucimf.Display.Words.{fill_row16_lem, fill_row24_lem}

pub write_bytes-append :
    (a b : ℕ) (xs ys : Bytes) (m : Memory)
    → a + length xs ≡ b
    → write_bytes a (xs ++ ys) m ≡ write_bytes b ys (write_bytes a xs m)
unfolding write_bytes
write_bytes-append a b [] ys m e = ap (λ n. write_bytes n ys m) (omega arith)
write_bytes-append a b (x ∷ xs) ys m e = write_bytes-append (a + 1) b xs ys _ (omega arith)

pub length-bytes_of : (n v : ℕ) → length (bytes_of n v) ≡ n
length-bytes_of zero v = refl
length-bytes_of (suc n) v = ap suc (length-bytes_of n (v / 256))

-- Filling pixel by pixel: the reference that the loops are compared with.
abbrev pub simple_row : ℕ → ℕ → ℕ → ℕ → Memory → Memory
simple_row size v a zero m = m
simple_row size v a (suc w) m = simple_row size v (a + size) w (write_bytes a (bytes_of size v) m)

abbrev pub simple_lines : ℕ → ℕ → ℕ → ℕ → ℕ → ℕ → Memory → Memory
simple_lines size next_line v w dest zero m = m
simple_lines size next_line v w dest (suc h) m =
    simple_lines size next_line v w (dest + next_line) h (simple_row size v dest w m)

write_bytes-repeat :
    (size v a w : ℕ) (m : Memory)
    → write_bytes a (repeat w (bytes_of size v)) m ≡ simple_row size v a w m
unfolding repeat write_bytes
write_bytes-repeat size v a zero m = refl
write_bytes-repeat size v a (suc w) m =
    write_bytes-append a (a + size) (bytes_of size v) (repeat w (bytes_of size v)) m
      (ap (λ n. a + n) (length-bytes_of size v))
    ∙ write_bytes-repeat size v (a + size) w (write_bytes a (bytes_of size v) m)

pub fill_lines-simple :
    (size next_line v w dest h : ℕ) (row : Bytes) (m : Memory)
    → row ≡ repeat w (bytes_of size v)
    → fill_lines next_line row dest h m ≡ simple_lines size next_line v w dest h m
unfolding fill_lines
fill_lines-simple size next_line v w dest zero row m e = refl
fill_lines-simple size next_line v w dest (suc h) row m e =
    ap (λ r. fill_lines next_line row (dest + next_line) h (write_bytes dest r m)) e
    ∙ ap (fill_lines next_line row (dest + next_line) h) (write_bytes-repeat size v dest w m)
    ∙ fill_lines-simple size next_line v w (dest + next_line) h row (simple_row size v dest w m) e

all_small : List ℕ → Bool
all_small [] = true
all_small (x ∷ xs) = ltb x 65536 && all_small xs

small : (l : List ℕ) (i r : ℕ) → all_small l ≡ true → get_elem? l i ≡ some r → r < 65536
unfolding all_small
small [] i r h e = absurd (ground arith)
small (x ∷ l) zero r h e = ground arith
small (x ∷ l) (suc i) r h e = small l i r (ground arith) e

color_bound :
    (f : ℕ → ℕ → ℕ → ℕ) (n : ℕ) (c : ℤ) (v : ℕ)
    → ((r g b : ℕ) → r < 65536 → g < 65536 → b < 65536 → f r g b < n)
    → color_of f c ≡ some v
    → v < n
unfolding all_small
color_bound f n (negsuc i) v h e = absurd (ground arith)
color_bound f n (pos i) v h e =
    let (r, at_r, e) = bind_inv (get_elem? red16 i) _ e in
    let (g, at_g, e) = bind_inv (get_elem? green16 i) _ e in
    let (b, at_b, e) = bind_inv (get_elem? blue16 i) _ e in
    let lt =
      h r g b (small red16 i r refl at_r) (small green16 i g refl at_g)
        (small blue16 i b refl at_b) in
    rw⁻¹ (some_inj e) lt

module _ (xres yres next_line : ℕ) where
  -- `FillRect`, pixel by pixel.
  abbrev pub simple_fill : ℕ → (ℤ → Option ℕ) → Area → ℤ → Memory → Option Memory
  simple_fill size table a color m =
      if on_screen xres yres a
      then table color >>= (λ v. some (
          simple_lines size next_line v (width a) (next_line * pos_part a.y1 + pos_part a.x1 * size)
            (height a) m))
      else none

  fill_by-simple :
      (size n : ℕ) (table : ℤ → Option ℕ) (row : ℕ → ℕ → Bytes) (a : Area) (color : ℤ) (m : Memory)
      → ((v w : ℕ) → v < n → row v w ≡ repeat w (bytes_of size v))
      → ((v : ℕ) → table color ≡ some v → v < n)
      → fill_by xres yres next_line size table row a color m ≡ simple_fill size table a color m
  fill_by-simple size n table row a color m same bound =
      ap (λ o. if on_screen xres yres a then o else none) (filled (table color) refl)
    where
      filled :
          (o : Option ℕ)
          → table color ≡ o
          → (o >>= λ v. some (
              fill_lines next_line
                (row v (width a))
                (next_line * pos_part a.y1 + pos_part a.x1 * size)
                (height a)
                m))
            ≡ (o >>= λ v. some (
                simple_lines size next_line v
                  (width a)
                  (next_line * pos_part a.y1 + pos_part a.x1 * size)
                  (height a)
                  m))
      filled none e = refl
      filled (some v) e = ap some (
          fill_lines-simple size next_line v (width a) _ (height a) _ m
            (same v (width a) (bound v e)))

  -- Filling by words, two pixels or four at a time, does to the memory what filling pixel by pixel
  -- does, each pixel from its lowest byte on: for every area, colour and width of a line, with 16,
  -- 15 and 24 bits to a pixel; where one of them fails the other does too.
  pub fill_rect-simple :
      (a : Area) (color : ℤ) (m : Memory)
      → (fill_rect16 xres yres next_line a color m ≡ simple_fill 2 cfb16 a color m)
        × (fill_rect15 xres yres next_line a color m ≡ simple_fill 2 cfb15 a color m)
        × (fill_rect24 xres yres next_line a color m ≡ simple_fill 3 cfb24 a color m)
  unfolding fill_rect16 fill_rect15 fill_rect24 cfb16 cfb15 cfb24
  fill_rect-simple a color m = (
    fill_by-simple 2 (2 ^ 16) cfb16 fill_row16 a color m fill_row16_lem
        (λ v. color_bound _ _ color v (λ r g b h k l. omega arith)),
    fill_by-simple 2 (2 ^ 16) cfb15 fill_row16 a color m fill_row16_lem
        (λ v. color_bound _ _ color v (λ r g b h k l. omega arith)),
    fill_by-simple 3 (2 ^ 24) cfb24 fill_row24 a color m fill_row24_lem
        (λ v. color_bound _ _ color v (λ r g b h k l. omega arith)),
  )
