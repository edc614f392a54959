-- ===== src/Cwm/Move.antt =====
-- `Window::xy`: moving a window that may be visible.
use ucimf.Prelude.{
  Bool, true, false, Option, none, some, ◌≡◌, refl, sym, ap, ◌∙◌, if_true, bind_some,
}
use ucimf.Prelude.Int.{ℤ, ◌+ℤ◌, ◌-ℤ◌, int_laws}
use ucimf.Display.{Area, GraphDev, on_screen, IsGraphDev, SameSize}
use ucimf.Window.{WindowId, Window, Desktop, area, put, show_again, xy}
use ucimf.Window.Buffers.{same_refl, put_self, put-put, BufferFits, changed}
use ucimf.Cwm.Focus.{IsDrawable, IsOpen, SameArea, turn}

size_moved : (x y w : ℤ) → x +ℤ w -ℤ x ≡ y +ℤ w -ℤ y
size_moved x y w = omega int_laws

module _ {Screen Saved : Type 0} {dev : GraphDev Screen Saved} {Fits : Area → Saved → Type 0}
    (laws : IsGraphDev dev Fits) where
  abbrev pub moved : ℤ → ℤ → Window Saved → Window Saved
  moved x y w = record w { pos_x = x; pos_y = y }

  BufferFits-size :
      (a c : Area) (o : Option Saved) → BufferFits laws a o → SameSize a c → BufferFits laws c o
  BufferFits-size a c none f s = tt
  BufferFits-size a c (some b) f s = laws.fits_size a c b f s

  moved-IsDrawable :
      (x y : ℤ) (w : Window Saved)
      → IsDrawable laws w
      → on_screen dev.xres dev.yres (area (moved x y w)) ≡ true
      → IsDrawable laws (moved x y w)
  moved-IsDrawable x y w ok on =
      let same_size : SameSize (area w) (area (moved x y w)) =
        (size_moved w.pos_x x w.width, size_moved w.pos_y y w.height) in
      record {
        on = on;
        fg_fits = BufferFits-size (area w) (area (moved x y w)) w.buf_fg ok.fg_fits same_size;
        bg_fits = BufferFits-size (area w) (area (moved x y w)) w.buf_bg ok.bg_fits same_size;
      }

  -- The same size.
  abbrev pub SameExtent : Window Saved → Window Saved → Type 0
  SameExtent v w = (v.width ≡ w.width) × (v.height ≡ w.height)

  show_again_lem :
      (was : Bool) (i : WindowId) (d : Desktop Screen Saved) (w : Window Saved)
      → d.win i ≡ w
      → d.opened ≡ true
      → IsDrawable laws w
      → w.visible ≡ false
      → (v : Window Saved) × (t : Screen) × (show_again dev was i d ≡ some (changed laws d i v t))
        × IsDrawable laws v
        × (v.visible ≡ was)
        × SameArea laws v w
  show_again_lem true i d w is h ok hid =
      let (v, t, turned, ok', seen, same_area) = turn laws true i d h (rw is ok) in
      (v, t, turned, ok', seen, rw (← is) same_area)
  show_again_lem false i d w is h ok hid = (
    d.win i,
    d.screen,
    ap some (sym (put_self d i)),
    rw is ok,
    rw is hid,
    rw is (refl, refl, refl, refl),
  )

  -- A window that can be drawn, and whose new place lies on the screen, moves there: it stays as
  -- visible, of the same size, and can be drawn; every other window stays as it was.
  pub xy_lem :
      (i : WindowId) (x y : ℤ) (d : Desktop Screen Saved)
      → IsOpen laws d
      → on_screen dev.xres dev.yres (area (moved x y (d.win i))) ≡ true
      → (v : Window Saved) × (t : Screen) × (xy dev i x y d ≡ some (changed laws d i v t))
        × IsDrawable laws v
        × (v.visible ≡ (d.win i).visible)
        × SameExtent v (d.win i)
  unfolding xy
  xy_lem i x y d ok on =
      let (w1, t1, hidden, ok1, gone, (_, _, ew, eh)) =
        turn laws false i d ok.opened (ok.drawable i) in
      let e1 = changed laws d i w1 t1 in
      let is1 : e1.win i ≡ w1 = if_true _ _ (same_refl i) in
      let w2 = moved x y w1 in
      let on2 : on_screen dev.xres dev.yres (area w2) ≡ true = rw (ew, eh) on in
      let e2 = put e1 i w2 in
      let (w3, t3, shown, ok3, seen, (_, _, fw, fh)) =
        show_again_lem (d.win i).visible i e2 w2 (if_true _ _ (same_refl i)) ok.opened
          (moved-IsDrawable x y w1 ok1 on2) gone in
      (
        w3,
        t3,
        bind_some _ hidden
            ∙ ap (λ (w : Window Saved). show_again dev (d.win i).visible i (put e1 i (moved x y w)))
                is1
            ∙ shown
            ∙ ap some (
                put-put (record e1 { screen = t3 }) i w2 w3
                ∙ put-put (record d { screen = t3 }) i w1 w3),
        ok3,
        seen,
        (fw ∙ ew, fh ∙ eh),
      )
