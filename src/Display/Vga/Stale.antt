-- ===== src/Display/Vga/Stale.antt =====
-- The drawing of libucimf/display/vgadev.cpp, and the colour that its `PutPixel` remembers.
use ucimf.Prelude.{
  ℕ, ◌*◌, ◌/◌, ◌%◌, ◌^◌, ◌≤◌, ◌<◌, true, ◌&&◌, ◌≡◌, refl, ap, ◌∙◌, ◌==◌, if◌then◌else◌, if_true,
  arith, some,
}
use ucimf.Prelude.Int.{ℤ, eqb_ℤ, eqb_ℤ_refl}
use ucimf.Display.{Area, on_screen}
use ucimf.Display.Areas.{inside}
use ucimf.Display.Vga
use ucimf.Display.Vga.{Card, IsCard, byte_of, draw_byte, fill_columns}
use ucimf.Display.Vga.Dev.{
  Dev, set_bit_mask, set_oper, set_write_mode, set_color, set_default_mode, choose_color, put_pixel,
  fill_rect,
}
use ucimf.Display.Vga.Runs.{Draws, Draws-same}
use ucimf.Display.Vga.Columns.{fill_columns-Maps}
use ucimf.Display.Vga.Geometry.{byte_at}
use ucimf.Display.Vga.Registers.{IsDefault, register-set, set_color-Draws, pixel-set_color}
use ucimf.Display.Vga.Drawing.{pixel_at, drawn, draw_point}

module _ {S : Type 0} (c : Card S) (laws : IsCard c) where
  -- `SetDefaultMode` sets a register that the card has not, number 9, and not the bit mask: the mode
  -- is the default one just when the bit mask had all bits set before.
  set_default_mode-bit_mask :
      (s : S)
      → (c.register (set_default_mode c s) 8 ≡ c.register s 8)
        × (c.register s 8 ≡ 255 → IsDefault c (set_default_mode c s))
  unfolding set_default_mode set_bit_mask set_oper set_write_mode
  set_default_mode-bit_mask s =
      let kept : c.register (set_default_mode c s) 8 ≡ c.register s 8 =
        register-set c laws 9 255 _ 8 ∙ register-set c laws 3 0 _ 8 ∙ register-set c laws 5 3 s 8 in
      (
        kept,
        λ full. record {
          mode =
              register-set c laws 9 255 _ 5
              ∙ register-set c laws 3 0 _ 5
              ∙ register-set c laws 5 3 s 5;
          op = register-set c laws 9 255 _ 3 ∙ register-set c laws 3 0 _ 3;
          mask = kept ∙ full;
        },
      )

  same_color : (color : ℤ) (s : S) → set_color c color s ≡ Vga.set_color c color s
  unfolding set_color Vga.set_color
  same_color color s = refl

  choose_color_same : (e : Dev S) (color : ℤ) → e.prev_color ≡ color → choose_color c color e ≡ e
  unfolding choose_color
  choose_color_same e color same = if_true _ _ (ap (λ p. eqb_ℤ p color) same ∙ eqb_ℤ_refl color)

  module _ (xres yres next_line : ℕ) (fits : xres ≤ 8 * next_line) where
    -- What `FillRect` leaves: the picture, the registers set for drawing in the colour, and what
    -- `PutPixel` remembers.
    filled :
        (a : Area) (color : ℤ) (d : Dev S)
        → on_screen xres yres a ≡ true
        → IsDefault c d.state
        → (e : Dev S) × (fill_rect c xres yres next_line a color d ≡ some e)
          × Draws c (λ _. byte_of color % 16) e.state
          × (e.prev_color ≡ d.prev_color)
          × ((x y : ℕ)
              → x < 8 * next_line
              → pixel_at c next_line e.state x y
                ≡ (if inside a x y then byte_of color % 16 else pixel_at c next_line d.state x y))
    unfolding fill_rect
    filled a color d on ready =
        let r = set_color c color d.state in
        let draws : Draws c (λ _. byte_of color % 16) r =
          rw (same_color color d.state) (set_color-Draws c laws color d.state ready) in
        let m = fill_columns-Maps c laws _ (λ v w. refl) next_line a r draws in
        (
          _,
          if_true _ _ on,
          Draws-same c m.same draws,
          refl,
          drawn c laws xres yres next_line fits _ a d.state r _ _ on
              (λ b k.
                ap (λ s. c.pixel s b k) (same_color color d.state)
                ∙ pixel-set_color c laws color d.state b k)
              m (λ b k. refl),
        )

    -- With the registers in the default mode, on an area of the screen, `FillRect` succeeds: every
    -- pixel of the area takes the colour and every other pixel of the lines keeps its own. But
    -- `PutPixel` does not learn of the colour: where it was called with a colour before, the next
    -- call with that colour draws the pixel in the colour of `FillRect`.
    pub fill_rect-put_pixel :
        (a : Area) (color : ℤ) (d : Dev S)
        → on_screen xres yres a ≡ true
        → IsDefault c d.state
        → (e : Dev S) × (fill_rect c xres yres next_line a color d ≡ some e)
          × ((x y : ℕ)
              → x < 8 * next_line
              → pixel_at c next_line e.state x y
                ≡ (if inside a x y then byte_of color % 16 else pixel_at c next_line d.state x y))
          × ((x y : ℕ)
              → x < 8 * next_line
              → pixel_at c next_line (put_pixel c next_line x y d.prev_color e).state x y
                ≡ byte_of color % 16)
    unfolding put_pixel
    fill_rect-put_pixel a color d on ready =
        let (e, done, draws, prev, picture) = filled a color d on ready in
        (e, done, picture, λ x y lt. stale x y e lt draws prev)
      where
        stale :
            (x y : ℕ) (e : Dev S)
            → x < 8 * next_line
            → Draws c (λ _. byte_of color % 16) e.state
            → e.prev_color ≡ d.prev_color
            → pixel_at c next_line (put_pixel c next_line x y d.prev_color e).state x y
              ≡ byte_of color % 16
        stale x y e lt draws prev =
            ap
              (λ (r : Dev S).
                pixel_at c next_line
                  (draw_byte c (128 / 2 ^ (x % 8)) (byte_at next_line x y) r.state) x y)
              (choose_color_same e d.prev_color prev)
            ∙ draw_point c laws _ next_line x y e.state draws lt x y lt
            ∙ if_true {b = x == x && y == y} _ _ (ground arith)
