-- ===== src/Widget/Lines.antt =====
-- `Text` of libucimf/src/shape.cpp: lines of characters and the space that they take.
use ucimf.Prelude.{
  ℕ, ◌*◌, ◌/◌, Option, none, some, ◌≡◌, refl, ap, arith, ltb, if◌then◌else◌, List, [], ◌∷◌, ◌++◌,
  length, All,
}
use ucimf.Prelude.Int.{ℤ, pos, ◌+ℤ◌, ◌≤ℤ◌, ltb_ℤ, max_ℤ}
use ucimf.Ustring.{Ustring, plus}

pub record Glyph : Type 0 where
  pub width : ℕ
  pub left : ℤ

-- What the code asks of the font of libucimf/font/font.cpp, which FreeType renders.
pub record Font : Type 0 where
  pub width : ℕ
  pub height : ℕ
  pub glyph : ℕ → Option Glyph

pub record Text : Type 0 where
  pub width : ℤ
  pub height : ℤ
  pub font_width : ℕ
  pub font_height : ℕ
  pub color_fg : ℤ
  pub color_bg : ℤ
  pub lines : List Ustring

unfoldable pub new_text : Font → Text
new_text f = record {
  width = pos 0;
  height = pos 0;
  font_width = f.width;
  font_height = f.height;
  color_fg = pos 0;
  color_bg = pos 0;
  lines = [];
}

-- How far one character moves the pen.
unfoldable pub advance : Font → ℕ → ℤ
advance f c = elim (f.glyph c) [
  | none ↦ pos f.width
  | some g ↦ pos (if ltb (f.width / 2) g.width then g.width else f.width / 2) +ℤ g.left
]

-- The loop that adds up `new_length`.
unfoldable pub add_length : Font → ℤ → Ustring → ℤ
add_length f n [] = n
add_length f n (c ∷ cs) = add_length f (n +ℤ advance f c) cs

abbrev pub line_length : Font → Ustring → ℤ
line_length f l = add_length f (pos 0) l

-- The last line taken off, with `ustr` behind it put on again; the new last line.
unfoldable pub extend_last : List Ustring → Ustring → List Ustring
extend_last [] ustr = plus [] ustr ∷ []
extend_last (l ∷ []) ustr = plus l ustr ∷ []
extend_last (l ∷ m ∷ ls) ustr = l ∷ extend_last (m ∷ ls) ustr

unfoldable pub new_last : List Ustring → Ustring → Ustring
new_last [] ustr = plus [] ustr
new_last (l ∷ []) ustr = plus l ustr
new_last (l ∷ m ∷ ls) ustr = new_last (m ∷ ls) ustr

-- The end that both methods share: the height by the lines, the width at least the new line's.
abbrev resize : Text → List Ustring → ℤ → Text
resize t ls new_length = record t {
  lines = ls;
  height = pos (t.font_height * length ls);
  width = if ltb_ℤ t.width new_length then new_length else t.width;
}

unfoldable pub append : Font → Ustring → Text → Text
append f ustr t = resize t (extend_last t.lines ustr) (line_length f (new_last t.lines ustr))

unfoldable pub append_next : Font → Ustring → Text → Text
append_next f ustr t = resize t (t.lines ++ ustr ∷ []) (line_length f ustr)

-- Every line fits the text's width, and the height is that of the lines.
pub record IsLaidOut (f : Font) (t : Text) : Type 0 where
  pub fits : All (λ l. line_length f l ≤ℤ t.width) t.lines
  pub high : t.height ≡ pos (t.font_height * length t.lines)

All-weaken :
    (f : Font) (v w : ℤ) (ls : List Ustring)
    → v ≤ℤ w
    → All (λ l. line_length f l ≤ℤ v) ls
    → All (λ l. line_length f l ≤ℤ w) ls
All-weaken f v w [] h a = tt
All-weaken f v w (l ∷ ls) h a = (omega arith, All-weaken f v w ls h a.1)

All-extend_last :
    (f : Font) (w : ℤ) (ls : List Ustring) (u : Ustring)
    → All (λ l. line_length f l ≤ℤ w) ls
    → line_length f (new_last ls u) ≤ℤ w
    → All (λ l. line_length f l ≤ℤ w) (extend_last ls u)
unfolding extend_last new_last
All-extend_last f w [] u a h = (h, tt)
All-extend_last f w (l ∷ []) u a h = (h, tt)
All-extend_last f w (l ∷ m ∷ ls) u a h = (a.0, All-extend_last f w (m ∷ ls) u a.1 h)

All-snoc :
    (f : Font) (w : ℤ) (ls : List Ustring) (u : Ustring)
    → All (λ l. line_length f l ≤ℤ w) ls
    → line_length f u ≤ℤ w
    → All (λ l. line_length f l ≤ℤ w) (ls ++ u ∷ [])
All-snoc f w [] u a h = (h, tt)
All-snoc f w (l ∷ ls) u a h = (a.0, All-snoc f w ls u a.1 h)

pub le-max_left : (a b : ℤ) → a ≤ℤ max_ℤ a b
le-max_left a b = ground arith

pub le-max_right : (a b : ℤ) → b ≤ℤ max_ℤ a b
le-max_right a b = ground arith

-- The edits of a text.
pub data Edit : Type 0 where
  append_to_last append_line : Ustring → Edit

abbrev pub edit : Font → Edit → Text → Text
edit f (append_to_last u) = append f u
edit f (append_line u) = append_next f u

abbrev pub edit_all : Font → List Edit → Text → Text
edit_all f [] t = t
edit_all f (e ∷ es) t = edit_all f es (edit f e t)

edit-IsLaidOut : (f : Font) (e : Edit) (t : Text) → IsLaidOut f t → IsLaidOut f (edit f e t)
unfolding append append_next
edit-IsLaidOut f (append_to_last u) t h =
    let n = line_length f (new_last t.lines u) in
    record {
      fits =
          All-extend_last f (max_ℤ t.width n) t.lines u
            (All-weaken f t.width (max_ℤ t.width n) t.lines (le-max_left t.width n) h.fits)
            (le-max_right t.width n);
      high = refl;
    }
edit-IsLaidOut f (append_line u) t h =
    let n = line_length f u in
    record {
      fits =
          All-snoc f (max_ℤ t.width n) t.lines u
            (All-weaken f t.width (max_ℤ t.width n) t.lines (le-max_left t.width n) h.fits)
            (le-max_right t.width n);
      high = refl;
    }

edit_all-keep :
    (f : Font) (es : List Edit) (t : Text) → IsLaidOut f t → IsLaidOut f (edit_all f es t)
edit_all-keep f [] t h = h
edit_all-keep f (e ∷ es) t h = edit_all-keep f es (edit f e t) (edit-IsLaidOut f e t h)

-- After any appending to a new text, no line is longer than its width, as appending counts the
-- characters, and its height is the font's for each line.
edit_all-IsLaidOut : (f : Font) (es : List Edit) → IsLaidOut f (edit_all f es (new_text f))
unfolding new_text
edit_all-IsLaidOut f es =
    edit_all-keep f es (new_text f) (record { fits = tt; high = ap pos (omega arith) })
