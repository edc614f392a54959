-- ===== src/Tests/Front.antt =====
-- Tests for the entry points of libucimf/src/ucimf.cpp.
use ucimf.Prelude.{
  ℕ, ◌+◌, true, false, List, [], ◌∷◌, none, some, ◌≡◌, Option, ◌==◌, refl, Bytes, if◌then◌else◌,
}
use ucimf.Prelude.Int.{pos}
use ucimf.Display.Packed.{Memory}
use ucimf.Cwm.Focus.{IsReady}
use ucimf.Ustring.{Iconv}
use ucimf.Widget.Panel.{Panel, Colors}
use ucimf.Ucimf.{Front, Imf, Ucimf}
use ucimf.Ucimf.Modules.{Loader, has_so, scan_dir, no_symbols, scan_dir_unloadable}
use ucimf.Ucimf.Focus.{IsFront, IsRefresh}
use ucimf.Ucimf.Panels.{panel_front, panel_front-IsFront}
use ucimf.Options.{Opts, System, started, init, parse_file}
use ucimf.Fonts.Setup.{Settings}
use ucimf.Fbterm.{active, deactive, Server, run}
use ucimf.Fbterm.Sessions.{active-deactive}
use ucimf.Tests.Keyboard.{kernel, idle}
use ucimf.Tests.Screen.{device, device_laws, desktop, desktop-IsReady, font}

abbrev State : Type 0
State = Panel Memory (List ℕ)

abbrev iconv : Iconv
iconv n encoding chars = 0xfeff ∷ chars

abbrev plain : Colors
plain = record { fg_color = pos 0; bg_color = pos 7; border_color = pos 7 }

abbrev panel : State
panel = record {
  desk = desktop;
  status_colors = plain;
  imf_name = [];
  im_name = [];
  lang_name = [];
  preedit_colors = plain;
  buf = [];
  lookup_colors = plain;
  bufs = [];
}

abbrev front : Front State
front = panel_front device font iconv

IsReadyPanel : State → Type 0
IsReadyPanel p = IsReady device_laws p.desk

front_laws : IsFront front IsReadyPanel
unfolding IsReadyPanel
front_laws = panel_front-IsFront device_laws font iconv

-- Modules that count their calls, and send back what they get.
abbrev modules : Imf State ℕ
modules = record {
  refresh = λ i r. some (r.0, r.1 + 1);
  switch_im = λ i r. some (r.0, r.1 + 1);
  switch_im_reverse = λ i r. some (r.0, r.1 + 1);
  process_input = λ i input r. some ((r.0, r.1 + 1), some input);
}

modules-IsRefresh : IsRefresh front modules IsReadyPanel
modules-IsRefresh = record { refresh_total = λ i p m ready. (p, m + 1, refl, ready, refl) }

abbrev start : Ucimf State ℕ
start = record {
  panel = panel;
  modules = 0;
  prev_focus = true;
  imf = some 5;
  imfs = 5 ∷ 6 ∷ 7 ∷ [];
  current_imf = 0;
  keyboard = idle;
}

panel-IsReady : IsReadyPanel panel
unfolding IsReadyPanel
panel-IsReady = desktop-IsReady

-- A loader that knows the file a.so only.
abbrev loader : Loader
loader = record {
  open_module =
      λ name. elim name [ [] ↦ none | c ∷ cs ↦ if c == b'a' then some (some 3, some 4) else none ];
  create = λ f. some 9;
}

abbrev so : ℕ → Bytes
so c = c ∷ b'.' ∷ b's' ∷ b'o' ∷ []

scan_dir_unloadable_example :
    (scan_dir loader (so b'a' ∷ so b'b' ∷ []) no_symbols []
      ≡ scan_dir loader [] (record { create_imf = some 3; destroy_imf = some 4 }) (9 ∷ 9 ∷ []))
    × (scan_dir loader (so b'b' ∷ []) no_symbols [] ≡ none)
scan_dir_unloadable_example =
    scan_dir_unloadable loader (so b'a') (so b'b') [] 3 (some 4) 9 no_symbols []
      (unfold has_so in refl) (unfold has_so in refl) refl refl refl

-- A home with a configuration of one line, and a font of 16 pixels under any settings.
abbrev config : Bytes
config = b'x' ∷ b'=' ∷ b'1' ∷ []

abbrev sys : System
sys = record {
  home = none;
  readable = λ name. true;
  contents = λ name. some config;
  ucimf_conf = [];
}

abbrev options : Opts
options = (parse_file config []).0

begun : init sys ≡ started options
unfolding init
begun = refl

abbrev any_font : Settings → Option ℕ
any_font s = some 16

active-deactive_example :
    (t u : Server State ℕ) × (run front modules kernel
        (active ∷ [])
        (record { ucimf = start; first_show = true })
      ≡ some (t, []))
    × (front.get_focus t.ucimf.panel ≡ true)
    × (run front modules kernel
          (active ∷ deactive ∷ [])
          (record { ucimf = start; first_show = true })
        ≡ some (u, []))
    × (front.get_focus u.ucimf.panel ≡ false)
    × IsReadyPanel u.ucimf.panel
active-deactive_example =
    active-deactive front modules kernel IsReadyPanel front_laws modules-IsRefresh
      (record { ucimf = start; first_show = true }) panel-IsReady
