-- ===== src/Widget/Calls.antt =====
-- What the input method modules call of the three widgets of libucimf/src/widget.cpp; the strings
-- are in UTF-8, as the methods without an encoding have it.
use ucimf.Prelude.{Option, Bytes}
use ucimf.Ustring.{Iconv}
use ucimf.Display.{GraphDev}
use ucimf.Widget.Lines.{Font}
use ucimf.Widget.Panel.{
  Panel, utf_8, render_preedit, render_lookup, preedit_append, clear_preedit, lookup_append,
  lookup_append_next, clear_lookup, set_imf_status,
}

pub record Widgets (P : Type 0) : Type 0 where
  pub preedit_append : Bytes → P → P
  pub preedit_clear : P → Option P
  pub preedit_render : P → Option P
  pub lookup_append : Bytes → P → P
  pub lookup_append_next : Bytes → P → P
  pub lookup_clear : P → Option P
  pub lookup_render : P → Option P
  pub set_imf_status : Bytes → Bytes → Bytes → P → Option P

abbrev pub panel_widgets :
    {Screen Saved : Type 0} → GraphDev Screen Saved → Font → Iconv → Widgets (Panel Screen Saved)
panel_widgets dev font iconv = record {
  preedit_append = λ s. preedit_append dev font iconv s utf_8;
  preedit_clear = clear_preedit dev font iconv;
  preedit_render = render_preedit dev font iconv;
  lookup_append = λ s. lookup_append dev font iconv s utf_8;
  lookup_append_next = λ s. lookup_append_next dev font iconv s utf_8;
  lookup_clear = clear_lookup dev font iconv;
  lookup_render = render_lookup dev font iconv;
  set_imf_status = set_imf_status dev font iconv;
}
