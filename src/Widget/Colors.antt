-- ===== src/Widget/Colors.antt =====
-- The colours of the three widgets of libucimf/src/widget.cpp: what their constructors read of the
-- options, and the methods that set one.
use ucimf.Prelude.{
  ◌≡◌, refl, ap, ◌∙◌, none, some, [], ◌∷◌, ◌++◌, Bytes, drop_while, c_str, c_str_whole,
}
use ucimf.Prelude.Int.{ℤ, pos}
use ucimf.Options.{Opts, find, nothing, get_option}
use ucimf.OpenVanilla.Decimal.{
  atoi, show_int, atoi-show_int, show_int_chars, read_signed, read_digits,
}
use ucimf.Window.{Desktop}
use ucimf.Widget.Panel.{Colors, Panel}

abbrev pub bg_color_name : Bytes
bg_color_name = b'_' ∷ b'B' ∷ b'G' ∷ b'_' ∷ b'C' ∷ b'O' ∷ b'L' ∷ b'O' ∷ b'R' ∷ []

abbrev pub fg_color_name : Bytes
fg_color_name = b'_' ∷ b'F' ∷ b'G' ∷ b'_' ∷ b'C' ∷ b'O' ∷ b'L' ∷ b'O' ∷ b'R' ∷ []

abbrev pub border_color_name : Bytes
border_color_name =
    b'_' ∷ b'B' ∷ b'O' ∷ b'R' ∷ b'D' ∷ b'E' ∷ b'R' ∷ b'_' ∷ b'C' ∷ b'O' ∷ b'L' ∷ b'O' ∷ b'R' ∷ []

-- The colours of the widget whose options begin with `name`.
unfoldable pub colors_of : Opts → Bytes → Colors
colors_of m name = record {
  fg_color = atoi (get_option m (name ++ fg_color_name));
  bg_color = atoi (get_option m (name ++ bg_color_name));
  border_color = atoi (get_option m (name ++ border_color_name));
}

abbrev pub status_name : Bytes
status_name = b'S' ∷ b'T' ∷ b'A' ∷ b'T' ∷ b'U' ∷ b'S' ∷ []

abbrev pub preedit_name : Bytes
preedit_name = b'P' ∷ b'R' ∷ b'E' ∷ b'E' ∷ b'D' ∷ b'I' ∷ b'T' ∷ []

abbrev pub lookup_choice_name : Bytes
lookup_choice_name =
    b'L' ∷ b'O' ∷ b'O' ∷ b'K' ∷ b'U' ∷ b'P' ∷ b'C' ∷ b'H' ∷ b'O' ∷ b'I' ∷ b'C' ∷ b'E' ∷ []

abbrev pub status_colors_of : Opts → Colors
status_colors_of m = colors_of m status_name

abbrev pub preedit_colors_of : Opts → Colors
preedit_colors_of m = colors_of m preedit_name

abbrev pub lookup_colors_of : Opts → Colors
lookup_colors_of m = colors_of m lookup_choice_name

module _ {Screen Saved : Type 0} where
  -- The three singletons as their constructors leave them.
  unfoldable pub new_panel : Opts → Desktop Screen Saved → Panel Screen Saved
  new_panel m d = record {
    desk = d;
    status_colors = status_colors_of m;
    imf_name = [];
    im_name = [];
    lang_name = [];
    preedit_colors = preedit_colors_of m;
    buf = [];
    lookup_colors = lookup_colors_of m;
    bufs = [];
  }

  abbrev pub set_status_fg : ℤ → Panel Screen Saved → Panel Screen Saved
  set_status_fg fg p = record p { status_colors = record p.status_colors { fg_color = fg } }

  abbrev pub set_status_bg : ℤ → Panel Screen Saved → Panel Screen Saved
  set_status_bg bg p = record p { status_colors = record p.status_colors { bg_color = bg } }

  abbrev pub set_status_border : ℤ → Panel Screen Saved → Panel Screen Saved
  set_status_border border p = record p {
    status_colors = record p.status_colors { border_color = border };
  }

  abbrev pub set_preedit_fg : ℤ → Panel Screen Saved → Panel Screen Saved
  set_preedit_fg fg p = record p { preedit_colors = record p.preedit_colors { fg_color = fg } }

  abbrev pub set_preedit_bg : ℤ → Panel Screen Saved → Panel Screen Saved
  set_preedit_bg bg p = record p { preedit_colors = record p.preedit_colors { bg_color = bg } }

  abbrev pub set_preedit_border : ℤ → Panel Screen Saved → Panel Screen Saved
  set_preedit_border border p = record p {
    preedit_colors = record p.preedit_colors { border_color = border };
  }

  abbrev pub set_lookup_fg : ℤ → Panel Screen Saved → Panel Screen Saved
  set_lookup_fg fg p = record p { lookup_colors = record p.lookup_colors { fg_color = fg } }

  abbrev pub set_lookup_bg : ℤ → Panel Screen Saved → Panel Screen Saved
  set_lookup_bg bg p = record p { lookup_colors = record p.lookup_colors { bg_color = bg } }

  abbrev pub set_lookup_border : ℤ → Panel Screen Saved → Panel Screen Saved
  set_lookup_border border p = record p {
    lookup_colors = record p.lookup_colors { border_color = border };
  }

atoi-nothing : atoi nothing ≡ pos 0
unfolding atoi read_signed read_digits drop_while
atoi-nothing = refl

-- An option that no line of the configuration gives is read as the colour 0, black.
atoi-get_option_absent : (m : Opts) (k : Bytes) → find k m ≡ none → atoi (get_option m k) ≡ pos 0
unfolding get_option
atoi-get_option_absent m k e =
    ap (λ v. atoi (elim v [ none ↦ nothing | some w ↦ c_str w ])) e ∙ atoi-nothing

-- One that is written as a number is read as that number.
atoi-get_option :
    (m : Opts) (k : Bytes) (c : ℤ) → find k m ≡ some (show_int c) → atoi (get_option m k) ≡ c
unfolding get_option
atoi-get_option m k c e =
    ap (λ v. atoi (elim v [ none ↦ nothing | some w ↦ c_str w ])) e
    ∙ ap atoi (c_str_whole (show_int c) (show_int_chars c))
    ∙ atoi-show_int c

-- A widget whose three options are written as numbers has these colours.
colors_of_lem :
    (m : Opts) (name : Bytes) (c : Colors)
    → find (name ++ fg_color_name) m ≡ some (show_int c.fg_color)
    → find (name ++ bg_color_name) m ≡ some (show_int c.bg_color)
    → find (name ++ border_color_name) m ≡ some (show_int c.border_color)
    → colors_of m name ≡ c
unfolding colors_of
colors_of_lem m name c fg bg border = λ i. record {
  fg_color = atoi-get_option m (name ++ fg_color_name) c.fg_color fg i;
  bg_color = atoi-get_option m (name ++ bg_color_name) c.bg_color bg i;
  border_color = atoi-get_option m (name ++ border_color_name) c.border_color border i;
}
