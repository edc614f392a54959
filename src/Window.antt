-- ===== src/Window.antt =====
-- libucimf/src/window.cpp and libucimf/src/graphport.cpp. Every window owns its port, and the port
-- points back at it, so a window's record holds the port's fields. The three widgets are the only
-- windows. `none` is a failed assertion of the device, or the use of a null pointer.
pub mod Buffers
pub mod Visible
pub mod Resize
pub mod Measure
use ucimf.Prelude.{
  ℕ, Bool, true, false, Option, none, some, ◌||◌, not, if◌then◌else◌, List, [], ◌∷◌, ◌>>=◌,
}
use ucimf.Prelude.Int.{ℤ, pos, ◌+ℤ◌, ◌-ℤ◌, ltb_ℤ, eqb_ℤ}
use ucimf.Display.{Area, GraphDev}

pub data WindowId : Type 0 where
  status preedit lookup_choice : WindowId

abbrev pub same : WindowId → WindowId → Bool
same status status = true
same preedit preedit = true
same lookup_choice lookup_choice = true
same _ _ = false

pub record Window (Saved : Type 0) : Type 0 where
  pub visible : Bool
  pub pos_x : ℤ
  pub pos_y : ℤ
  pub width : ℤ
  pub height : ℤ
  pub managed : Bool
  pub x_tmp : ℤ
  pub y_tmp : ℤ
  pub pseudo : Bool
  pub buf_bg : Option Saved
  pub buf_fg : Option Saved

-- The constructors `Window::Window` and `GraphPort::GraphPort`.
abbrev pub new_window : {Saved : Type 0} → Window Saved
new_window = record {
  visible = false;
  pos_x = pos 0;
  pos_y = pos 0;
  width = pos 0;
  height = pos 0;
  managed = false;
  x_tmp = pos 0;
  y_tmp = pos 0;
  pseudo = true;
  buf_bg = none;
  buf_fg = none;
}

-- The gaps that a shift object keeps; its class is named by the constructor.
pub data Shift : Type 0 where
  status_shift preedit_shift lookup_choice_shift : ℤ → ℤ → Shift

-- The whole of what the windows share: the screen, whether a device was opened, the windows, and
-- the fields of the window manager `Cwm`, whose map is listed in the order of its iteration.
pub record Desktop (Screen Saved : Type 0) : Type 0 where
  pub screen : Screen
  pub opened : Bool
  pub win : WindowId → Window Saved
  pub xres : ℤ
  pub yres : ℤ
  pub cursor_x : ℤ
  pub cursor_y : ℤ
  pub focus : Bool
  pub cwmmap : List (WindowId × Shift)

abbrev pub area : {Saved : Type 0} → Window Saved → Area
area w = record { x1 = w.pos_x; y1 = w.pos_y; x2 = w.pos_x +ℤ w.width; y2 = w.pos_y +ℤ w.height }

-- `cwmmap[i]`, if it is there.
abbrev pub shift_of : WindowId → List (WindowId × Shift) → Option Shift
shift_of i [] = none
shift_of i ((j, s) ∷ m) = if same j i then some s else shift_of i m

module _ {Screen Saved : Type 0} where
  -- The window `i` becomes `w`.
  abbrev pub put : Desktop Screen Saved → WindowId → Window Saved → Desktop Screen Saved
  put d i w = record d { win = λ j. if same i j then w else d.win j }

  -- `drop_bg_buf` and `drop_fg_buf`: what was saved is forgotten.
  unfoldable pub drop_bg_buf : WindowId → Desktop Screen Saved → Desktop Screen Saved
  drop_bg_buf i d = put d i (record (d.win i) { buf_bg = none })

  unfoldable pub drop_fg_buf : WindowId → Desktop Screen Saved → Desktop Screen Saved
  drop_fg_buf i d = put d i (record (d.win i) { buf_fg = none })

module _ {Screen Saved : Type 0} (dev : GraphDev Screen Saved) where
  -- The constructor `Cwm::Cwm`, which asks the device for its size if there is one.
  abbrev pub new_desktop : Screen → Bool → Desktop Screen Saved
  new_desktop screen opened = record {
    screen = screen;
    opened = opened;
    win = λ i. new_window;
    xres = if opened then pos dev.xres else pos 0;
    yres = if opened then pos dev.yres else pos 0;
    cursor_x = pos 0;
    cursor_y = pos 0;
    focus = false;
    cwmmap = [];
  }

  unfoldable pub push_bg_buf : WindowId → Desktop Screen Saved → Option (Desktop Screen Saved)
  push_bg_buf i d =
      let w = record (d.win i) { buf_bg = none } in
      if not d.opened
      then some (put d i w)
      else dev.save_rect (area w) d.screen >>= λ b. some (put d i (record w { buf_bg = some b }))

  unfoldable pub push_fg_buf : WindowId → Desktop Screen Saved → Option (Desktop Screen Saved)
  push_fg_buf i d =
      let w = record (d.win i) { buf_fg = none } in
      if not d.opened
      then some (put d i w)
      else dev.save_rect (area w) d.screen >>= λ b. some (put d i (record w { buf_fg = some b }))

  -- `RstrRect` releases the buffer that it restores.
  unfoldable pub restore :
      Option Saved → WindowId → Window Saved → Desktop Screen Saved → Option (Desktop Screen Saved)
  restore none i released d = some d
  restore (some b) i released d =
      if not d.opened
      then some d
      else dev.rstr_rect (area (d.win i)) b d.screen >>= λ s.
          some (put (record d { screen = s }) i released)

  unfoldable pub pop_bg_buf : WindowId → Desktop Screen Saved → Option (Desktop Screen Saved)
  pop_bg_buf i d = restore (d.win i).buf_bg i (record (d.win i) { buf_bg = none }) d

  unfoldable pub pop_fg_buf : WindowId → Desktop Screen Saved → Option (Desktop Screen Saved)
  pop_fg_buf i d = restore (d.win i).buf_fg i (record (d.win i) { buf_fg = none }) d

  unfoldable pub show : WindowId → Desktop Screen Saved → Option (Desktop Screen Saved)
  show i d =
      if (d.win i).visible
      then some d
      else push_bg_buf i (put d i (record (d.win i) { visible = true })) >>= pop_fg_buf i

  unfoldable pub hide : WindowId → Desktop Screen Saved → Option (Desktop Screen Saved)
  hide i d =
      if (d.win i).visible
      then push_fg_buf i (put d i (record (d.win i) { visible = false })) >>= pop_bg_buf i
      else some d

  abbrev pub show_again : Bool → WindowId → Desktop Screen Saved → Option (Desktop Screen Saved)
  show_again was_visible i d = if was_visible then show i d else some d

  -- `Window::xy`
  unfoldable pub xy : WindowId → ℤ → ℤ → Desktop Screen Saved → Option (Desktop Screen Saved)
  xy i x y d = hide i d >>= λ e.
      show_again (d.win i).visible i (put e i (record (e.win i) { pos_x = x; pos_y = y }))
