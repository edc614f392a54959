-- ===== src/Display/Vga/Geometry.antt =====
-- Where the lines of an area lie in the planes of libucimf/display/fbvgaplanes.cpp.
use native.Mathlib.Decide.{dec_lt}
use ucimf.Prelude.{
  ℕ, zero, suc, ◌+◌, ◌*◌, ◌/◌, ◌%◌, ◌≤◌, ◌<◌, true, ◌&&◌, ◌||◌, ◌≡◌, ap, ◌∙◌, ◌==◌, arith,
}
use ucimf.Prelude.Int.{pos_part, -ℤ_parts}
use ucimf.Display.{Area, on_screen}
use ucimf.Display.Areas.{width, in_area}
use ucimf.Display.Vga.Runs.{in_lines, Again}
use ucimf.Display.Vga.Columns.{run_of_line}

-- The byte of a pixel.
abbrev pub byte_at : ℕ → ℕ → ℕ → ℕ
byte_at next_line x y = next_line * y + x / 8

below_line : (n y z : ℕ) → y < z → n * y + n ≤ n * z
below_line n y z h = grind arith

-- Lines are as far apart as they are long.
in_row :
    (n x1 w y1 x y : ℕ)
    → x1 + w ≤ 8 * n
    → x < 8 * n
    → run_of_line x1 w (byte_at n x1 y1) (byte_at n x y) (x % 8) ≡ in_area x1 y1 w 1 x y
unfolding run_of_line
in_row n x1 w y1 x y h k = elim (dec_lt y y1) [
  | yes lt ↦ let far = below_line n y y1 lt in ground arith
  | no le ↦ elim (dec_lt y1 y) [
    | yes lt ↦ let far = below_line n y1 y lt in ground arith
    | no ge ↦
        let e : y ≡ y1 = omega arith in let f : n * y ≡ n * y1 = ap (λ z. n * z) e in ground arith
  ]
]

pub one_pixel :
    (n x y i j : ℕ)
    → x < 8 * n
    → i < 8 * n
    → (byte_at n i j == byte_at n x y && i % 8 == x % 8) ≡ (i == x && j == y)
one_pixel n x y i j p q = elim (dec_lt y j) [
  | yes lt ↦ let far = below_line n y j lt in ground arith
  | no le ↦ elim (dec_lt j y) [
    | yes lt ↦ let far = below_line n j y lt in ground arith
    | no ge ↦
        let e : y ≡ j = omega arith in let f : n * y ≡ n * j = ap (λ z. n * z) e in ground arith
  ]
]

mul-next : (n y x : ℕ) → n * y + x + n ≡ n * suc y + x
mul-next n y x = grind arith

area_next :
    (x1 y1 w h x y : ℕ)
    → (in_area x1 y1 w 1 x y || in_area x1 (suc y1) w h x y) ≡ in_area x1 y1 w (suc h) x y
area_next x1 y1 w h x y = ground arith

pub in_rows :
    (n x1 w y1 h x y : ℕ)
    → x1 + w ≤ 8 * n
    → x < 8 * n
    → in_lines (run_of_line x1 w) n (byte_at n x1 y1) h (byte_at n x y) (x % 8)
      ≡ in_area x1 y1 w h x y
unfolding in_lines
in_rows n x1 w y1 zero x y p q = ground arith
in_rows n x1 w y1 (suc h) x y p q =
    ap (λ r. r || in_lines (run_of_line x1 w) n (byte_at n x1 y1 + n) h (byte_at n x y) (x % 8))
      (in_row n x1 w y1 x y p q)
    ∙ ap (λ d. in_area x1 y1 w 1 x y || in_lines (run_of_line x1 w) n d h (byte_at n x y) (x % 8))
        (mul-next n y1 (x1 / 8))
    ∙ ap (λ r. in_area x1 y1 w 1 x y || r) (in_rows n x1 w (suc y1) h x y p q)
    ∙ area_next x1 y1 w h x y

-- The pixels of later lines come later.
in_lines_late :
    (n x1 w dest h b k : ℕ)
    → in_lines (run_of_line x1 w) n dest h b k ≡ true
    → 8 * dest + x1 % 8 ≤ 8 * b + k
unfolding in_lines run_of_line
in_lines_late n x1 w dest zero b k e = absurd (ground arith)
in_lines_late n x1 w dest (suc h) b k e = ground (arith, in_lines_late n x1 w (dest + n) h b k)

-- No pixel is drawn with two lines.
pub lines_apart :
    (g : ℕ → ℕ) (n x1 w : ℕ)
    → x1 + w ≤ 8 * n
    → (dest h : ℕ) → Again g (run_of_line x1 w dest) (in_lines (run_of_line x1 w) n (dest + n) h)
unfolding run_of_line
lines_apart g n x1 w fits dest h b k v lt p q =
    let late = in_lines_late n x1 w (dest + n) h b k q in absurd (ground arith)

-- An area of the screen fits the lines.
pub fits_line :
    (xres yres n : ℕ) (a : Area)
    → xres ≤ 8 * n
    → on_screen xres yres a ≡ true
    → pos_part a.x1 + width a ≤ 8 * n
unfolding on_screen
fits_line xres yres n a h on = ground (arith, -ℤ_parts a.x2 a.x1)
