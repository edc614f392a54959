-- ===== src/Widget.antt =====
-- libucimf/src/shape.cpp, the drawing part of libucimf/src/graphport.cpp and libucimf/src/widget.cpp:
-- rectangles and texts, and how a widget renders the shapes that it is made of.
pub mod Lines
pub mod Layout
pub mod Panel
pub mod Colors
pub mod Calls
use ucimf.Prelude.{
  ℕ, ◌+◌, ◌*◌, ◌/◌, Bool, true, false, not, Option, none, some, ltb, if◌then◌else◌, List, [], ◌∷◌,
  ◌++◌, ◌>>=◌, length,
}
use ucimf.Prelude.Int.{ℤ, pos, ◌+ℤ◌, ◌-ℤ◌, ltb_ℤ, max_ℤ}
use ucimf.Ustring.{Ustring}
use ucimf.Display.{Area, GraphDev}
use ucimf.Window.{WindowId, Window, Desktop, put, push_bg_buf, push_fg_buf, pop_bg_buf, show, hide}
use ucimf.Window.Resize.{measure, set_pseudo}
use Lines.{Text}

-- `Rect` with its size, colour and filling, and `Text`.
pub data Shape : Type 0 where
  rect : ℤ → ℤ → ℤ → Bool → Shape
  text : Text → Shape

abbrev pub x_max : Shape → ℤ
x_max (rect w h c filled) = w
x_max (text t) = t.width

abbrev pub y_max : Shape → ℤ
y_max (rect w h c filled) = h
y_max (text t) = t.height

module _ {Screen Saved : Type 0} (dev : GraphDev Screen Saved) where
  -- The drawing calls of `GraphPort`: relative to `x_tmp`, `y_tmp`, and void with no device.
  abbrev port_area : ℤ → ℤ → ℤ → ℤ → Window Saved → Area
  port_area x y w h v = record {
    x1 = x +ℤ v.x_tmp;
    y1 = y +ℤ v.y_tmp;
    x2 = x +ℤ v.x_tmp +ℤ w;
    y2 = y +ℤ v.y_tmp +ℤ h;
  }

  unfoldable pub on_device :
      (Screen → Option Screen) → Desktop Screen Saved → Option (Desktop Screen Saved)
  on_device f d =
      if not d.opened then some d else f d.screen >>= λ s. some (record d { screen = s })

  unfoldable pub put_pixel :
      WindowId → ℤ → ℤ → ℤ → Desktop Screen Saved → Option (Desktop Screen Saved)
  put_pixel i x y color d =
      on_device (dev.put_pixel (x +ℤ (d.win i).x_tmp) (y +ℤ (d.win i).y_tmp) color) d

  unfoldable pub fill_rect :
      WindowId → ℤ → ℤ → ℤ → ℤ → ℤ → Desktop Screen Saved → Option (Desktop Screen Saved)
  fill_rect i x y w h color d = on_device (dev.fill_rect (port_area x y w h (d.win i)) color) d

  unfoldable pub draw_rect :
      WindowId → ℤ → ℤ → ℤ → ℤ → ℤ → Desktop Screen Saved → Option (Desktop Screen Saved)
  draw_rect i x y w h color d = on_device (dev.draw_rect (port_area x y w h (d.win i)) color) d

  unfoldable pub rev_rect :
      WindowId → ℤ → ℤ → ℤ → ℤ → Desktop Screen Saved → Option (Desktop Screen Saved)
  rev_rect i x y w h d = on_device (dev.rev_rect (port_area x y w h (d.win i))) d

  -- The next x is told relative to the port, as x is.
  unfoldable pub out_char :
      WindowId → ℤ → ℤ → ℤ → ℤ → ℕ → Desktop Screen Saved → Option (Desktop Screen Saved × ℤ)
  out_char i x y fg bg charcode d =
      let v = d.win i in
      if not d.opened
      then some (d, x +ℤ v.x_tmp -ℤ v.x_tmp)
      else dev.out_char (x +ℤ v.x_tmp) (y +ℤ v.y_tmp) fg bg charcode d.screen >>= λ r.
          some (record d { screen = r.0 }, r.1 -ℤ v.x_tmp)

  unfoldable pub draw_line :
      WindowId → Text → ℤ → ℤ → Ustring → Desktop Screen Saved → Option (Desktop Screen Saved)
  draw_line i t x y [] d = some d
  draw_line i t x y (c ∷ cs) d =
      out_char i x y t.color_fg t.color_bg c d >>= λ r. draw_line i t r.1 y cs r.0

  -- The line `n` stands at `n * font_h`, which the loop here adds up.
  unfoldable pub draw_lines :
      WindowId → Text → ℤ → List Ustring → Desktop Screen Saved → Option (Desktop Screen Saved)
  draw_lines i t y [] d = some d
  draw_lines i t y (l ∷ ls) d =
      draw_line i t (pos 0) y l d >>= draw_lines i t (y +ℤ (pos t.font_height -ℤ pos 1)) ls

  -- `Rect::draw` and `Text::draw`.
  unfoldable pub draw_shape :
      Shape → WindowId → Desktop Screen Saved → Option (Desktop Screen Saved)
  draw_shape (rect w h color filled) i d =
      if filled
      then fill_rect i (pos 0) (pos 0) w h color d
      else draw_rect i (pos 0) (pos 0) w h color d
  draw_shape (text t) i d = draw_lines i t (pos 0) t.lines d

  abbrev set_xy : WindowId → ℤ → ℤ → Desktop Screen Saved → Desktop Screen Saved
  set_xy i x y d = put d i (record (d.win i) { x_tmp = x; y_tmp = y })

  -- `GraphPort::draw`; the port of a window has its window.
  unfoldable pub draw :
      WindowId → ℤ → ℤ → Shape → Desktop Screen Saved → Option (Desktop Screen Saved)
  draw i x y sp d =
      if (d.win i).pseudo
      then measure dev i (x +ℤ x_max sp) (y +ℤ y_max sp) d
      else draw_shape sp i (set_xy i ((d.win i).pos_x +ℤ x) ((d.win i).pos_y +ℤ y) d)

  unfoldable pub draw_all :
      WindowId → List (ℤ × ℤ × Shape) → Desktop Screen Saved → Option (Desktop Screen Saved)
  draw_all i [] d = some d
  draw_all i ((x, y, sp) ∷ l) d = draw i x y sp d >>= draw_all i l

  -- `Widget::render`, for a widget whose `draw` draws the given shapes.
  unfoldable pub render :
      WindowId → List (ℤ × ℤ × Shape) → Desktop Screen Saved → Option (Desktop Screen Saved)
  render i shapes d =
      hide dev i d
      >>= set_pseudo dev i true
      >>= draw_all i shapes
      >>= push_bg_buf dev i
      >>= set_pseudo dev i false
      >>= draw_all i shapes
      >>= push_fg_buf dev i
      >>= pop_bg_buf dev i
      >>= λ e. if (d.win i).visible then show dev i e else some e
