-- ===== src/Ucimf/Panels.antt =====
-- The window manager and the widgets as the entry points of libucimf/src/ucimf.cpp call them.
use ucimf.Prelude.{Option, some, ◌>>=◌, bind_some}
use ucimf.Display.{Area, GraphDev, IsGraphDev}
use ucimf.Window.{Desktop}
use ucimf.Cwm.{set_position, set_focus}
use ucimf.Cwm.Focus.{IsReady, set_focus-IsReady}
use ucimf.Ustring.{Iconv}
use ucimf.Widget.Lines.{Font}
use ucimf.Widget.Panel.{Panel, clear_preedit, clear_lookup, clear_status}
use ucimf.Ucimf.{Front}
use ucimf.Ucimf.Focus.{IsFront}

module _ {Screen Saved : Type 0} (dev : GraphDev Screen Saved) where
  abbrev with_desk :
      (Desktop Screen Saved → Option (Desktop Screen Saved))
      → Panel Screen Saved
      → Option (Panel Screen Saved)
  with_desk f p = f p.desk >>= λ d. some (record p { desk = d })

  abbrev pub panel_front : Font → Iconv → Front (Panel Screen Saved)
  panel_front font iconv = record {
    get_focus = λ p. p.desk.focus;
    set_focus = λ focus. with_desk (set_focus dev focus);
    set_position = λ x y. with_desk (set_position dev x y);
    clear_preedit = clear_preedit dev font iconv;
    clear_lookup = clear_lookup dev font iconv;
    clear_status = clear_status dev font iconv;
  }

-- The window manager keeps what the entry points rely on: over any device that keeps its laws,
-- and from panels whose windows can be drawn and are visible exactly while there is the focus,
-- setting the focus succeeds, sets it, and leaves such panels.
pub panel_front-IsFront :
    {Screen Saved : Type 0} {dev : GraphDev Screen Saved} {Fits : Area → Saved → Type 0}
    (laws : IsGraphDev dev Fits) (font : Font) (iconv : Iconv)
    → IsFront (panel_front dev font iconv) (λ p. IsReady laws p.desk)
panel_front-IsFront laws font iconv = record {
  set_focus_total = λ b p ready.
      let (d, done, ready', is, _) = set_focus-IsReady laws b p.desk ready in
      (record p { desk = d }, bind_some _ done, ready', is);
}
