-- ===== src/Display/LineDrawing.antt =====
-- `DrawLine` and `DrawRect` of libucimf/display/graphdev.cpp, over the `PutPixel` of a driver. `none` is
-- a failed assertion, or what `PutPixel` has for one.
use ucimf.Prelude.{
  ℕ, zero, suc, ◌+◌, ◌*◌, Bool, not, ◌&&◌, ◌||◌, Option, none, if◌then◌else◌, ◌>>=◌,
}
use ucimf.Prelude.Int.{ℤ, pos, negsuc, pos_part, neg_part, ◌+ℤ◌, ◌-ℤ◌, ltb_ℤ, eqb_ℤ}
use ucimf.Display.{Area}

-- The pixel lies on the screen, as the drivers and `DrawLine` assert.
abbrev pub on_pixel : ℕ → ℕ → ℤ → ℤ → Bool
on_pixel xres yres x y =
    not (ltb_ℤ x (pos 0)) && ltb_ℤ x (pos xres) && not (ltb_ℤ y (pos 0)) && ltb_ℤ y (pos yres)

abbrev abs : ℤ → ℕ
abs a = pos_part a + neg_part a

abbrev sign : ℤ → ℤ
sign a = if ltb_ℤ a (pos 0) then negsuc 0 else pos 1

module _ {Screen : Type 0} (xres yres : ℕ) (put_pixel : ℤ → ℤ → ℤ → Screen → Option Screen) where
  -- The two loops of `DrawLine`, by the steps that are left along the longer side.
  unfoldable pub flat_steps : ℕ → ℤ → ℤ → ℤ → ℤ → ℤ → ℤ → ℤ → ℤ → Screen → Option Screen
  flat_steps zero x y d ax ay sx sy color s = put_pixel x y color s
  flat_steps (suc n) x y d ax ay sx sy color s =
      let turn = ltb_ℤ (pos 0) d || eqb_ℤ d (pos 0) && eqb_ℤ sx (pos 1) in
      put_pixel x y color s
      >>= flat_steps n (x +ℤ sx) (if turn then y +ℤ sy else y) ((if turn then d -ℤ ax else d) +ℤ ay)
          ax ay sx sy color

  unfoldable pub steep_steps : ℕ → ℤ → ℤ → ℤ → ℤ → ℤ → ℤ → ℤ → ℤ → Screen → Option Screen
  steep_steps zero x y d ax ay sx sy color s = put_pixel x y color s
  steep_steps (suc n) x y d ax ay sx sy color s =
      let turn = ltb_ℤ (pos 0) d || eqb_ℤ d (pos 0) && eqb_ℤ sy (pos 1) in
      put_pixel x y color s
      >>= steep_steps n (if turn then x +ℤ sx else x) (y +ℤ sy)
          ((if turn then d -ℤ ay else d) +ℤ ax) ax ay sx sy color

  -- `DrawLine`; the halves of the doubled distances are the distances.
  unfoldable pub draw_line : ℤ → ℤ → ℤ → ℤ → ℤ → Screen → Option Screen
  draw_line x1 y1 x2 y2 color s =
      let dx = x2 -ℤ x1 in
      let dy = y2 -ℤ y1 in
      let ax = pos (2 * abs dx) in
      let ay = pos (2 * abs dy) in
      if on_pixel xres yres x1 y1 && on_pixel xres yres x2 y2
      then if ltb_ℤ ay ax
        then flat_steps (abs dx) x1 y1 (ay -ℤ pos (abs dx)) ax ay (sign dx) (sign dy) color s
        else steep_steps (abs dy) x1 y1 (ax -ℤ pos (abs dy)) ax ay (sign dx) (sign dy) color s
      else none

  unfoldable pub draw_rect : Area → ℤ → Screen → Option Screen
  draw_rect a color s =
      if on_pixel xres yres a.x1 a.y1 && on_pixel xres yres a.x2 a.y2
      then draw_line a.x1 a.y1 a.x2 a.y1 color s
        >>= draw_line a.x1 a.y1 a.x1 a.y2 color
        >>= draw_line a.x1 a.y2 a.x2 a.y2 color
        >>= draw_line a.x2 a.y1 a.x2 a.y2 color
      else none
