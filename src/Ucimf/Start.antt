-- ===== src/Ucimf/Start.antt =====
-- `ucimf_init` of libucimf/src/ucimf.cpp, without its signal handlers and its log. The files and the
-- environment, and the height of the font that `createInstance` makes for some settings, are
-- parameters; `none` is an exception that nothing catches, a call through a null pointer, or a read
-- past an array.
use ucimf.Prelude.{ℕ, ◌+◌, ◌*◌, false, Option, none, some, List, [], ◌∷◌, ◌>>=◌, Bytes, get_elem?}
use ucimf.Prelude.Int.{pos}
use ucimf.Display.{GraphDev}
use ucimf.Window.{
  WindowId, status, preedit, lookup_choice, Shift, status_shift, preedit_shift, lookup_choice_shift,
  Desktop,
}
use ucimf.Cwm.{attach_window, set_focus}
use ucimf.Ucimf.{Ucimf}
use ucimf.Ucimf.Modules.{Loader, scan_imf}
use ucimf.Options.{Opts, System, Start, started, init, get_option}
use ucimf.OpenVanilla.Decimal.{atoi}
use ucimf.Fonts.Setup.{Settings, default_settings, set_info}
use ucimf.Widget.Panel.{Panel}
use ucimf.Widget.Colors.{new_panel}

-- `Options::getInstance`, whose exceptions nothing catches.
abbrev pub options_of : Start → Option Opts
options_of (started m) = some m
options_of _ = none

-- The settings that `Font::setInfo` gets.
abbrev font_name : Bytes
font_name = b'f' ∷ b'o' ∷ b'n' ∷ b't' ∷ b'-' ∷ b'n' ∷ b'a' ∷ b'm' ∷ b'e' ∷ []

abbrev font_size : Bytes
font_size = b'f' ∷ b'o' ∷ b'n' ∷ b't' ∷ b'-' ∷ b's' ∷ b'i' ∷ b'z' ∷ b'e' ∷ []

abbrev pub font_settings : Opts → Settings
font_settings m =
    set_info (get_option m font_name) (atoi (get_option m font_size)) (pos 0) default_settings

-- The shifts of the three windows, by the font's height.
abbrev pub shift_for : ℕ → WindowId → Shift
shift_for font_height status = status_shift (pos 0) (pos (font_height + 8))
shift_for font_height preedit = preedit_shift (pos 0) (pos ((font_height + 8) * 2))
shift_for font_height lookup_choice = lookup_choice_shift (pos 0) (pos ((font_height + 8) * 3))

module _ {Screen Saved : Type 0} (dev : GraphDev Screen Saved) (address : WindowId → ℕ) where
  -- The three calls of `attachWindow`.
  unfoldable pub attach_all : ℕ → Desktop Screen Saved → Desktop Screen Saved
  attach_all font_height d = attach_window dev address status (shift_for font_height status) (
      attach_window dev address preedit (shift_for font_height preedit)
        (attach_window dev address lookup_choice (shift_for font_height lookup_choice) d))

  -- `imf = imfs[current_imf]`, which is read past the array where no module was loaded.
  unfoldable pub take_current :
      {M : Type 0} → Ucimf (Panel Screen Saved) M → Option (Ucimf (Panel Screen Saved) M)
  take_current v = get_elem? v.imfs v.current_imf >>= λ i. some (record v { imf = some i })

  -- From the attaching of the windows on.
  unfoldable pub start_modules :
      {M : Type 0}
      → Loader
      → Option (List Bytes)
      → ℕ
      → Ucimf (Panel Screen Saved) M
      → Option (Ucimf (Panel Screen Saved) M)
  start_modules l dir font_height u =
      set_focus dev false (attach_all font_height u.panel.desk)
      >>= (λ d.
          scan_imf l dir
            (record u { prev_focus = false; imf = none; panel = record u.panel { desk = d } }))
      >>= take_current

  -- The options are read, the font is made as they tell, and then the widgets with their colours.
  unfoldable pub ucimf_init :
      {M : Type 0}
      → System
      → (Settings → Option ℕ)
      → Loader
      → Option (List Bytes)
      → Ucimf (Panel Screen Saved) M
      → Option (Ucimf (Panel Screen Saved) M)
  ucimf_init sys font l dir u = options_of (init sys) >>= λ m.
      font (font_settings m) >>= λ font_height.
      start_modules l dir font_height (record u { panel = new_panel m u.panel.desk })
