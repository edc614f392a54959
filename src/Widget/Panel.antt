-- ===== src/Widget/Panel.antt =====
-- `Status`, `Preedit` and `LookupChoice` of libucimf/src/widget.cpp: what they hold, what they
-- draw, and their methods.
use ucimf.Prelude.{true, false, Option, some, List, [], ◌∷◌, ◌++◌, ◌>>=◌, Bytes}
use ucimf.Prelude.Int.{ℤ, pos, ◌+ℤ◌, max_ℤ}
use ucimf.Ustring.{Ustring, Iconv, of_chars, plus}
use ucimf.Display.{GraphDev}
use ucimf.Window.{status, preedit, lookup_choice, Desktop}
use ucimf.Widget.{Shape, rect, text, render}
use ucimf.Widget.Lines.{Font, Text, new_text, append, append_next}

pub record Colors : Type 0 where
  pub fg_color : ℤ
  pub bg_color : ℤ
  pub border_color : ℤ

-- The fields of the three singletons, and the desktop that they draw on.
pub record Panel (Screen Saved : Type 0) : Type 0 where
  pub desk : Desktop Screen Saved
  pub status_colors : Colors
  pub imf_name : Ustring
  pub im_name : Ustring
  pub lang_name : Ustring
  pub preedit_colors : Colors
  pub buf : Ustring
  pub lookup_colors : Colors
  pub bufs : List Ustring

abbrev pub utf_8 : Bytes
utf_8 = b'U' ∷ b'T' ∷ b'F' ∷ b'-' ∷ b'8' ∷ []

abbrev pub colored : Colors → Text → Text
colored c t = record t { color_bg = c.bg_color; color_fg = c.fg_color }

-- `Status::draw`, with the texts `t` and `t2`.
unfoldable pub status_shapes : ℤ → Text → Text → List (ℤ × ℤ × Shape)
status_shapes border_color t t2 =
    let border = pos 3 in
    let high = max_ℤ t.height t2.height +ℤ border in
    (pos 0, pos 0, rect (t.width +ℤ t2.width +ℤ pos 6) high (pos 0) true)
    ∷ (pos 0, pos 0, rect (t.width +ℤ border) high border_color false)
    ∷ (border +ℤ t.width, pos 0, rect (t2.width +ℤ border) high border_color false)
    ∷ (border, border, text t)
    ∷ (border +ℤ t.width +ℤ border, border, text t2)
    ∷ []

-- `Preedit::draw` and `LookupChoice::draw`, with the border and the text `t`.
unfoldable pub framed_shapes : ℤ → ℤ → Text → List (ℤ × ℤ × Shape)
framed_shapes border_color border t =
    (pos 0, pos 0, rect (t.width +ℤ border) (t.height +ℤ border) (pos 0) true)
    ∷ (pos 0, pos 0, rect (t.width +ℤ border) (t.height +ℤ border) border_color false)
    ∷ (border, border, text t)
    ∷ []

-- `t.append_next` on every string.
abbrev pub append_all : Font → List Ustring → Text → Text
append_all f [] t = t
append_all f (u ∷ us) t = append_all f us (append_next f u t)

-- The border of a widget that holds something, and of one that does not.
abbrev pub border_of : {A : Type 0} → List A → ℤ
border_of [] = pos 0
border_of (c ∷ cs) = pos 3

abbrev pub preedit_text : Font → Ustring → Text
preedit_text f [] = new_text f
preedit_text f (c ∷ cs) = append f (c ∷ cs) (new_text f)

-- `LookupChoice::append`: on the last string, or as the first.
unfoldable pub choice_append : List Ustring → Ustring → List Ustring
choice_append [] input = input ∷ []
choice_append (u ∷ []) input = plus u input ∷ []
choice_append (u ∷ v ∷ us) input = u ∷ choice_append (v ∷ us) input

module _ {Screen Saved : Type 0} where
  unfoldable pub status_drawing : Font → Panel Screen Saved → List (ℤ × ℤ × Shape)
  status_drawing f p =
      status_shapes p.status_colors.border_color
        (colored p.status_colors (append f p.imf_name (new_text f)))
        (colored p.status_colors (append f p.im_name (new_text f)))

  unfoldable pub preedit_drawing : Font → Panel Screen Saved → List (ℤ × ℤ × Shape)
  preedit_drawing f p =
      framed_shapes p.preedit_colors.border_color (border_of p.buf)
        (colored p.preedit_colors (preedit_text f p.buf))

  unfoldable pub lookup_drawing : Font → Panel Screen Saved → List (ℤ × ℤ × Shape)
  lookup_drawing f p =
      framed_shapes p.lookup_colors.border_color (border_of p.bufs)
        (colored p.lookup_colors (append_all f p.bufs (new_text f)))

module _ {Screen Saved : Type 0} (dev : GraphDev Screen Saved) (font : Font) (iconv : Iconv) where
  on_desk :
      (Desktop Screen Saved → Option (Desktop Screen Saved))
      → Panel Screen Saved
      → Option (Panel Screen Saved)
  on_desk f p = f p.desk >>= λ d. some (record p { desk = d })

  unfoldable pub render_status : Panel Screen Saved → Option (Panel Screen Saved)
  unfolding on_desk
  render_status p = on_desk (render dev status (status_drawing font p)) p

  unfoldable pub render_preedit : Panel Screen Saved → Option (Panel Screen Saved)
  unfolding on_desk
  render_preedit p = on_desk (render dev preedit (preedit_drawing font p)) p

  unfoldable pub render_lookup : Panel Screen Saved → Option (Panel Screen Saved)
  unfolding on_desk
  render_lookup p = on_desk (render dev lookup_choice (lookup_drawing font p)) p

  unfoldable pub set_imf_status :
      Bytes → Bytes → Bytes → Panel Screen Saved → Option (Panel Screen Saved)
  set_imf_status imf im lang p = render_status (record p {
    imf_name = of_chars iconv utf_8 imf;
    im_name = of_chars iconv utf_8 im;
    lang_name = of_chars iconv utf_8 lang;
  })

  unfoldable pub set_imf_name : Bytes → Panel Screen Saved → Panel Screen Saved
  set_imf_name s p = record p { imf_name = of_chars iconv utf_8 s }

  unfoldable pub set_im_name : Bytes → Panel Screen Saved → Panel Screen Saved
  set_im_name s p = record p { im_name = of_chars iconv utf_8 s }

  unfoldable pub set_lang_name : Bytes → Panel Screen Saved → Panel Screen Saved
  set_lang_name s p = record p { lang_name = of_chars iconv utf_8 s }

  unfoldable pub clear_status : Panel Screen Saved → Option (Panel Screen Saved)
  clear_status p = set_imf_status [] [] [] p

  unfoldable pub preedit_append : Bytes → Bytes → Panel Screen Saved → Panel Screen Saved
  preedit_append s encoding p = record p { buf = plus p.buf (of_chars iconv encoding s) }

  unfoldable pub clear_preedit : Panel Screen Saved → Option (Panel Screen Saved)
  clear_preedit p = render_preedit (record p { buf = [] })

  unfoldable pub lookup_append : Bytes → Bytes → Panel Screen Saved → Panel Screen Saved
  lookup_append s encoding p = record p { bufs = choice_append p.bufs (of_chars iconv encoding s) }

  unfoldable pub lookup_append_next : Bytes → Bytes → Panel Screen Saved → Panel Screen Saved
  lookup_append_next s encoding p = record p { bufs = p.bufs ++ of_chars iconv encoding s ∷ [] }

  unfoldable pub clear_lookup : Panel Screen Saved → Option (Panel Screen Saved)
  clear_lookup p = render_lookup (record p { bufs = [] })
