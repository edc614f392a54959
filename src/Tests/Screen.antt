-- ===== src/Tests/Screen.antt =====
-- Tests for the windows, the window manager, the driver and the widgets.
use ucimf.Prelude.{ℕ, true, false, List, [], ◌∷◌, Option, some, ◌≡◌, ◌↔◌, ◌⊎◌, refl, ◌>>=◌}
use ucimf.Prelude.Int.{ℤ, pos, ◌+ℤ◌, ◌-ℤ◌, ◌≤ℤ◌, int_laws}
use ucimf.Display.{GraphDev, IsGraphDev, on_screen}
use ucimf.Display.Packed.{Memory}
use ucimf.Display.Linear32.{fb_linear32}
use ucimf.Display.Saving32.{FitsArea32, linear32-IsGraphDev}
use ucimf.Window.{
  status, preedit, lookup_choice, Window, new_window, status_shift, preedit_shift,
  lookup_choice_shift, Desktop, area, show, hide,
}
use ucimf.Window.Visible.{hide-show}
use ucimf.Window.Resize.{set_pseudo, set_flag, IsHidden}
use ucimf.Window.Measure.{resized, max_x, max_y}
use ucimf.Cwm.{place_x, place_y, set_focus, set_position}
use ucimf.Cwm.Place.{place_y_bounds, FitsBelow, FitsAbove, IsPlaced}
use ucimf.Cwm.Position.{HaveRoom, set_position-IsReady}
use ucimf.Cwm.Focus.{IsReady, set_focus-IsReady}
use ucimf.Widget.{Shape, rect, draw_all}
use ucimf.Widget.Lines.{Font, Text, new_text}
use ucimf.Widget.Layout.{corners, measuring_pass}

abbrev pub no_char : ℤ → ℤ → ℤ → ℤ → ℕ → Memory → Option (Memory × ℤ)
no_char x y fg bg c s = some (s, x +ℤ pos 8)

abbrev pub device : GraphDev Memory (List ℕ)
device = fb_linear32 64 48 256 no_char

pub device_laws : IsGraphDev device FitsArea32
device_laws = linear32-IsGraphDev 64 48 256 no_char

linear32-IsGraphDev_example : IsGraphDev (fb_linear32 64 48 256 no_char) FitsArea32
linear32-IsGraphDev_example = linear32-IsGraphDev 64 48 256 no_char

-- A hidden window of 4 by 3 pixels at (8, 8).
abbrev small : Window (List ℕ)
small = record new_window {
  managed = true;
  pseudo = false;
  pos_x = pos 8;
  pos_y = pos 8;
  width = pos 3;
  height = pos 2;
}

abbrev pub desktop : Desktop Memory (List ℕ)
desktop = record {
  screen = λ i. i;
  opened = true;
  win = λ i. small;
  xres = pos 64;
  yres = pos 48;
  cursor_x = pos 5;
  cursor_y = pos 4;
  focus = false;
  cwmmap =
      (status, status_shift (pos 0) (pos 4))
      ∷ (preedit, preedit_shift (pos 0) (pos 8))
      ∷ (lookup_choice, lookup_choice_shift (pos 0) (pos 12))
      ∷ [];
}

small_on : on_screen 64 48 (area small) ≡ true
unfolding on_screen ◌+ℤ◌
small_on = refl

hide-show_example :
    (e : Desktop Memory (List ℕ)) × ((show device preedit desktop >>= hide device preedit) ≡ some e)
    × (e.screen ≡ desktop.screen)
    × ((e.win preedit).visible ≡ false)
hide-show_example = hide-show device_laws preedit desktop refl refl small_on tt

pub desktop-IsReady : IsReady device_laws desktop
desktop-IsReady = record {
  is_open = record {
    opened = refl;
    drawable = λ i. record { on = small_on; fg_fits = tt; bg_fits = tt };
  };
  known = refl;
  in_step = (refl, (refl, (refl, tt)));
}

set_focus-IsReady_example :
    (e : Desktop Memory (List ℕ)) × (set_focus device true desktop ≡ some e)
    × IsReady device_laws e
    × (e.focus ≡ true)
    × (e.cwmmap ≡ desktop.cwmmap)
set_focus-IsReady_example = set_focus-IsReady device_laws true desktop desktop-IsReady

-- At (20, 10) there is room for the three windows.
room : HaveRoom device_laws (record desktop { cursor_x = pos 20; cursor_y = pos 10 }) desktop.cwmmap
unfolding on_screen place_x place_y ◌+ℤ◌ ◌-ℤ◌
room = (refl, (refl, (refl, tt)))

set_position-IsReady_example :
    (e : Desktop Memory (List ℕ)) × (set_position device (pos 20) (pos 10) desktop ≡ some e)
    × IsReady device_laws e
    × (e.focus ≡ false)
    × (e.cwmmap ≡ desktop.cwmmap)
    × (e.cursor_x ≡ pos 20)
    × (e.cursor_y ≡ pos 10)
set_position-IsReady_example =
    set_position-IsReady device_laws (pos 20) (pos 10) desktop desktop-IsReady room

preedit-IsHidden : IsHidden desktop preedit (preedit_shift (pos 0) (pos 8))
preedit-IsHidden = record { hidden = refl; is_managed = refl; known = refl }

abbrev shapes : List (ℤ × ℤ × Shape)
shapes = (pos 0, pos 0, rect (pos 20) (pos 10) (pos 1) true) ∷ []

measuring_pass_example :
    (set_pseudo device preedit true desktop >>= draw_all device preedit shapes)
    ≡ some (
        resized
          (preedit_shift (pos 0) (pos 8))
          preedit
          (max_x (pos 0) (corners shapes))
          (max_y (pos 0) (corners shapes))
          (set_flag preedit true desktop))
measuring_pass_example =
    measuring_pass device preedit (preedit_shift (pos 0) (pos 8)) shapes desktop preedit-IsHidden
      refl

place_y_bounds_example :
    IsPlaced (pos 440) (pos 30) (pos 480) (pos 24) (place_y (pos 440) (pos 30) (pos 480) (pos 24))
    × (place_y (pos 440) (pos 30) (pos 480) (pos 24) +ℤ pos 30 ≤ℤ pos 480 -ℤ pos 16)
    × ((pos 0 ≤ℤ place_y (pos 440) (pos 30) (pos 480) (pos 24))
        ↔ (FitsBelow (pos 440) (pos 30) (pos 480) (pos 24) ⊎ FitsAbove (pos 440) (pos 30) (pos 24)))
place_y_bounds_example =
    place_y_bounds (pos 440) (pos 30) (pos 480) (pos 24) (omega int_laws) (omega int_laws)
      (omega int_laws)

abbrev pub font : Font
font = record { width = 16; height = 16; glyph = λ c. some (record { width = 8; left = pos 1 }) }

abbrev wide : Text
wide = record (new_text font) { width = pos 40; height = pos 16 }

abbrev narrow : Text
narrow = record (new_text font) { width = pos 10; height = pos 32 }
