-- ===== src/Widget/Layout.antt =====
-- The size that a widget gets when it is drawn for measuring.
use ucimf.Prelude.{
  Bool, true, false, not, ◌&&◌, some, ◌≡◌, refl, sym, ap, ◌∙◌, arith, List, [], ◌∷◌, ◌>>=◌, if_true,
  bind_some,
}
use ucimf.Prelude.Int.{ℤ, pos, ◌+ℤ◌, ◌≤ℤ◌, max_ℤ, int_laws}
use ucimf.Display.{GraphDev}
use ucimf.Window.{WindowId, Window, Shift, Desktop, put}
use ucimf.Window.Buffers.{same_refl, put-put}
use ucimf.Window.Resize.{set_pseudo, set_flag, wh_hidden, placed, IsHidden}
use ucimf.Window.Measure.{resized, measure-resized, max_x, max_y}
use ucimf.Widget.{Shape, x_max, y_max, draw, draw_all}
use ucimf.Widget.Lines.{Text, le-max_left, le-max_right}
use ucimf.Widget.Panel.{status_shapes, framed_shapes}

-- The corner that drawing a shape at a place measures.
abbrev pub corners : List (ℤ × ℤ × Shape) → List (ℤ × ℤ)
corners [] = []
corners ((x, y, sp) ∷ l) = (x +ℤ x_max sp, y +ℤ y_max sp) ∷ corners l

needs_reset : (b : Bool) → b ≡ false → (not b && true) ≡ true
needs_reset b h = ground arith

module _ {Screen Saved : Type 0} (dev : GraphDev Screen Saved) (i : WindowId) (s : Shift) where
  draw_all-resized :
      (l : List (ℤ × ℤ × Shape)) (w h : ℤ) (d : Desktop Screen Saved)
      → IsHidden d i s
      → (d.win i).pseudo ≡ true
      → draw_all dev i l (resized s i w h d)
        ≡ some (resized s i (max_x w (corners l)) (max_y h (corners l)) d)
  unfolding draw_all draw
  draw_all-resized [] w h d hid ps = refl
  draw_all-resized ((x, y, sp) ∷ l) w h d hid ps =
      let is : (resized s i w h d).win i ≡ placed s w h d (d.win i) = if_true _ _ (same_refl i) in
      bind_some (draw_all dev i l) (
        if_true _ _ (ap (λ (v : Window Saved). v.pseudo) is ∙ ps)
        ∙ measure-resized dev i (x +ℤ x_max sp) (y +ℤ y_max sp) w h s d hid)
      ∙ draw_all-resized l (max_ℤ w (x +ℤ x_max sp)) (max_ℤ h (y +ℤ y_max sp)) d hid ps

  set_flag-resized :
      (w h : ℤ) (d : Desktop Screen Saved)
      → set_flag i true (resized s i w h d) ≡ resized s i w h (set_flag i true d)
  set_flag-resized w h d =
      let p : Window Saved = placed s w h d (d.win i) in
      let q : Window Saved = record (d.win i) { pseudo = true } in
      let is_p : (resized s i w h d).win i ≡ p = if_true _ _ (same_refl i) in
      let is_q : (set_flag i true d).win i ≡ q = if_true _ _ (same_refl i) in
      ap (λ (v : Window Saved). put (resized s i w h d) i (record v { pseudo = true })) is_p
      ∙ put-put d i p _
      ∙ sym (
          ap (λ (v : Window Saved). put (set_flag i true d) i (placed s w h d v)) is_q
          ∙ put-put d i q _)

  -- The measuring pass of a rendering, on a hidden window that was last drawn for real: whatever
  -- size it had, it ends with the smallest size that holds every shape, in the place for that size.
  pub measuring_pass :
      (l : List (ℤ × ℤ × Shape)) (d : Desktop Screen Saved)
      → IsHidden d i s
      → (d.win i).pseudo ≡ false
      → (set_pseudo dev i true d >>= draw_all dev i l)
        ≡ some (
            resized s i (max_x (pos 0) (corners l)) (max_y (pos 0) (corners l)) (set_flag i true d))
  unfolding set_pseudo
  measuring_pass l d hid ps =
      let flagged = set_flag i true d in
      let is : flagged.win i ≡ record (d.win i) { pseudo = true } = if_true _ _ (same_refl i) in
      let hid' : IsHidden flagged i s = record {
        hidden = ap (λ (v : Window Saved). v.visible) is ∙ hid.hidden;
        is_managed = ap (λ (v : Window Saved). v.managed) is ∙ hid.is_managed;
        known = hid.known;
      } in
      bind_some (draw_all dev i l) (
        if_true _ _ (needs_reset (d.win i).pseudo ps)
        ∙ bind_some _ (wh_hidden dev i (pos 0) (pos 0) s d hid)
        ∙ ap some (set_flag-resized (pos 0) (pos 0) d))
      ∙ draw_all-resized l (pos 0) (pos 0) flagged hid' (ap (λ (v : Window Saved). v.pseudo) is)

max_ℤ_le : (a b : ℤ) → a ≤ℤ b → max_ℤ a b ≡ b
max_ℤ_le a b h = ground arith

max_ℤ_ge : (a b : ℤ) → b ≤ℤ a → max_ℤ a b ≡ a
max_ℤ_ge a b h = ground arith

size_high :
    (m x y : ℤ)
    → x ≤ℤ m
    → y ≤ℤ m
    → pos 0 ≤ℤ x
    → max_ℤ
        (max_ℤ
          (max_ℤ
            (max_ℤ (max_ℤ (pos 0) (pos 0 +ℤ (m +ℤ pos 3))) (pos 0 +ℤ (m +ℤ pos 3)))
            (pos 0 +ℤ (m +ℤ pos 3)))
          (pos 3 +ℤ x))
        (pos 3 +ℤ y)
      ≡ m +ℤ pos 3
size_high m x y hx hy c =
    let high = pos 0 +ℤ (m +ℤ pos 3) in
    rw
      (
        max_ℤ_le (pos 0) high (omega int_laws),
        max_ℤ_ge high high (omega int_laws),
        max_ℤ_ge high high (omega int_laws),
        max_ℤ_ge high (pos 3 +ℤ x) (omega int_laws),
        max_ℤ_ge high (pos 3 +ℤ y) (omega int_laws),
      )
      (omega int_laws)

-- The size of the status bar: both texts side by side with 6 pixels, and the higher one with 3.
status_size :
    (border_color : ℤ) (t t2 : Text)
    → pos 0 ≤ℤ t.width
    → pos 0 ≤ℤ t2.width
    → pos 0 ≤ℤ t.height
    → pos 0 ≤ℤ t2.height
    → (max_x (pos 0) (corners (status_shapes border_color t t2)) ≡ t.width +ℤ t2.width +ℤ pos 6)
      × (max_y (pos 0) (corners (status_shapes border_color t t2))
          ≡ max_ℤ t.height t2.height +ℤ pos 3)
unfolding status_shapes
status_size bc t t2 a b c e =
    let wide = pos 0 +ℤ (t.width +ℤ t2.width +ℤ pos 6) in
    let m = max_ℤ t.height t2.height in
    let high = pos 0 +ℤ (m +ℤ pos 3) in
    let hl : t.height ≤ℤ m = le-max_left t.height t2.height in
    let hr : t2.height ≤ℤ m = le-max_right t.height t2.height in
    (
      rw
          (
            max_ℤ_le (pos 0) wide (omega int_laws),
            max_ℤ_ge wide (pos 0 +ℤ (t.width +ℤ pos 3)) (omega int_laws),
            max_ℤ_ge wide (pos 3 +ℤ t.width +ℤ (t2.width +ℤ pos 3)) (omega int_laws),
            max_ℤ_ge wide (pos 3 +ℤ t.width) (omega int_laws),
            max_ℤ_ge wide (pos 3 +ℤ t.width +ℤ pos 3 +ℤ t2.width) (omega int_laws),
          )
          (omega int_laws),
      size_high m t.height t2.height hl hr c,
    )

-- The size of the preedit bar and of the list of choices: the text with the border once.
framed_size :
    (border_color border : ℤ) (t : Text)
    → pos 0 ≤ℤ border
    → pos 0 ≤ℤ t.width
    → pos 0 ≤ℤ t.height
    → (max_x (pos 0) (corners (framed_shapes border_color border t)) ≡ t.width +ℤ border)
      × (max_y (pos 0) (corners (framed_shapes border_color border t)) ≡ t.height +ℤ border)
unfolding framed_shapes
framed_size bc border t b w h = (
  rw
      (
        max_ℤ_le (pos 0) (pos 0 +ℤ (t.width +ℤ border)) (omega int_laws),
        max_ℤ_ge (pos 0 +ℤ (t.width +ℤ border)) (pos 0 +ℤ (t.width +ℤ border)) (omega int_laws),
        max_ℤ_ge (pos 0 +ℤ (t.width +ℤ border)) (border +ℤ t.width) (omega int_laws),
      )
      (omega int_laws),
  rw
      (
        max_ℤ_le (pos 0) (pos 0 +ℤ (t.height +ℤ border)) (omega int_laws),
        max_ℤ_ge (pos 0 +ℤ (t.height +ℤ border)) (pos 0 +ℤ (t.height +ℤ border)) (omega int_laws),
        max_ℤ_ge (pos 0 +ℤ (t.height +ℤ border)) (border +ℤ t.height) (omega int_laws),
      )
      (omega int_laws),
)
