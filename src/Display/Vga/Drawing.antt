-- ===== src/Display/Vga/Drawing.antt =====
-- The drawing of libucimf/display/fbvgaplanes.cpp on the screen.
use ucimf.Prelude.{
  ℕ, ◌-◌, ◌*◌, ◌/◌, ◌%◌, ◌^◌, ◌≤◌, ◌<◌, true, ◌&&◌, ◌≡◌, refl, ap, ◌∙◌, ◌==◌, if◌then◌else◌,
  if_true, arith, some,
}
use ucimf.Prelude.Int.{ℤ, pos_part}
use ucimf.Display.{Area, on_screen}
use ucimf.Display.Areas.{width, height, inside}
use ucimf.Display.Vga.{
  Card, IsCard, byte_of, set_color, set_default_mode, rev_lines, fill_rect, rev_rect, put_pixel,
  draw_byte,
}
use ucimf.Display.Vga.Registers.{
  IsDefault, set_default_mode-IsDefault, pixel-set_default_mode, set_color-Draws, pixel-set_color,
  inverting, inverting-Draws, pixel-inverting,
}
use ucimf.Display.Vga.Masks.{bit-point}
use ucimf.Display.Vga.Runs.{Pixels, in_lines, Maps, Draws, draw_byte-Maps}
use ucimf.Display.Vga.Rows.{each_line-Maps, rev_row-Maps}
use ucimf.Display.Vga.Columns.{run_of_line, fill_columns-Maps}
use ucimf.Display.Vga.Geometry.{byte_at, one_pixel, in_rows, lines_apart, fits_line}

module _ {S : Type 0} (c : Card S) where
  -- The colour of a pixel of the screen.
  abbrev pub pixel_at : ℕ → S → ℕ → ℕ → ℕ
  pixel_at next_line s x y = c.pixel s (byte_at next_line x y) (x % 8)

  abbrev pub lines_of : ℕ → Area → Pixels
  lines_of next_line a =
      in_lines (run_of_line (pos_part a.x1) (width a)) next_line
        (byte_at next_line (pos_part a.x1) (pos_part a.y1)) (height a)

  module _ (laws : IsCard c) where
    module _ (xres yres next_line : ℕ) (fits : xres ≤ 8 * next_line) where
      -- Drawing the runs of the lines of an area changes the area.
      pub drawn :
          (g : ℕ → ℕ) (a : Area) (s r t u : S)
          → on_screen xres yres a ≡ true
          → ((b k : ℕ) → c.pixel r b k ≡ c.pixel s b k)
          → Maps c g r t (lines_of next_line a)
          → ((b k : ℕ) → c.pixel u b k ≡ c.pixel t b k)
          → (x y : ℕ) → x < 8 * next_line
          → pixel_at next_line u x y
            ≡ (if inside a x y then g (pixel_at next_line s x y) else pixel_at next_line s x y)
      drawn g a s r t u on before m after x y lt =
          let b = byte_at next_line x y in
          let k = x % 8 in
          after b k
          ∙ m.drawn b k (omega arith)
          ∙ ap (λ v. if lines_of next_line a b k then g v else v) (before b k)
          ∙ ap (λ p. if p then g (c.pixel s b k) else c.pixel s b k)
              (in_rows next_line (pos_part a.x1) (width a) (pos_part a.y1) (height a) x y
                (fits_line xres yres next_line a fits on) lt)

      -- On an area of the screen `FillRect` succeeds: every pixel of the area takes the colour,
      -- every other pixel of the lines keeps its own, also in the bytes that the area shares.
      pub fill_rect-planes :
          (a : Area) (color : ℤ) (s : S)
          → on_screen xres yres a ≡ true
          → (t : S) × (fill_rect c xres yres next_line a color s ≡ some t)
            × ((x y : ℕ)
                → x < 8 * next_line
                → pixel_at next_line t x y
                  ≡ (if inside a x y then byte_of color % 16 else pixel_at next_line s x y))
      unfolding fill_rect
      fill_rect-planes a color s on =
          let r = set_color c color (set_default_mode c s) in
          let m =
            fill_columns-Maps c laws _ (λ v w. refl) next_line a r
              (set_color-Draws c laws color _ (set_default_mode-IsDefault c laws s)) in
          (
            _,
            if_true _ _ on,
            drawn _ a s r _ _ on
                (λ b k. pixel-set_color c laws color _ b k ∙ pixel-set_default_mode c laws s b k) m
                (λ b k. refl),
          )

      rev_lines-Maps :
          (g : ℕ → ℕ) (a : Area) (s : S)
          → on_screen xres yres a ≡ true
          → Draws c g s
          → Maps c g s (rev_lines c next_line a s) (lines_of next_line a)
      unfolding rev_lines run_of_line
      rev_lines-Maps g a s on d =
          each_line-Maps c laws g _ (run_of_line (pos_part a.x1) (width a)) next_line
            (rev_row-Maps c g laws (pos_part a.x1) (width a))
            (lines_apart g next_line (pos_part a.x1) (width a)
              (fits_line xres yres next_line a fits on))
            (byte_at next_line (pos_part a.x1) (pos_part a.y1)) (height a) s d

      -- On an area of the screen `RevRect` succeeds: it inverts the four bits of every pixel of the
      -- area, changes no other pixel of the lines, and leaves the registers in the default mode.
      pub rev_rect-planes :
          (a : Area) (s : S)
          → on_screen xres yres a ≡ true
          → (t : S) × (rev_rect c xres yres next_line a s ≡ some t)
            × IsDefault c t
            × ((x y : ℕ)
                → x < 8 * next_line
                → pixel_at next_line t x y ≡ (
                    if inside a x y
                    then 15 - pixel_at next_line s x y
                    else pixel_at next_line s x y))
      unfolding rev_rect inverting
      rev_rect-planes a s on =
          let m = rev_lines-Maps _ a (inverting c laws s) on (inverting-Draws c laws s) in
          (
            _,
            if_true _ _ on,
            set_default_mode-IsDefault c laws _,
            drawn _ a s _ _ _ on (pixel-inverting c laws s) m (pixel-set_default_mode c laws _),
          )

    -- The byte that `PutPixel` writes.
    pub draw_point :
        (g : ℕ → ℕ) (next_line x y : ℕ) (s : S)
        → Draws c g s
        → x < 8 * next_line
        → (i j : ℕ) → i < 8 * next_line
        → pixel_at next_line (draw_byte c (128 / 2 ^ (x % 8)) (byte_at next_line x y) s) i j
          ≡ (if i == x && j == y then g (pixel_at next_line s i j) else pixel_at next_line s i j)
    draw_point g next_line x y s d h i j k =
        let b = byte_at next_line i j in
        let m = draw_byte-Maps c laws g (128 / 2 ^ (x % 8)) (byte_at next_line x y) s d in
        m.drawn b (i % 8) (omega arith)
        ∙ ap (λ p. if p then g (c.pixel s b (i % 8)) else c.pixel s b (i % 8))
            (ap (λ p. b == byte_at next_line x y && p)
                (bit-point (x % 8) (i % 8) (omega arith) (omega arith))
              ∙ one_pixel next_line x y i j h k)

    -- `PutPixel` gives the pixel the colour, and every other pixel of the lines keeps its own.
    put_pixel-planes :
        (next_line x y : ℕ) (color : ℤ) (s : S)
        → x < 8 * next_line
        → (i j : ℕ) → i < 8 * next_line
        → pixel_at next_line (put_pixel c next_line x y color s) i j
          ≡ (if i == x && j == y then byte_of color % 16 else pixel_at next_line s i j)
    unfolding put_pixel
    put_pixel-planes next_line x y color s h i j k =
        let b = byte_at next_line i j in
        draw_point _ next_line x y _
          (set_color-Draws c laws color _ (set_default_mode-IsDefault c laws s)) h i j k
        ∙ ap (λ v. if i == x && j == y then byte_of color % 16 else v)
            (pixel-set_color c laws color _ b (i % 8) ∙ pixel-set_default_mode c laws s b (i % 8))
