-- ===== src/Display/SavingWords.antt =====
-- Saving and restoring areas of the screen by words of two bytes, for the drivers of
-- libucimf/display/fblinear16.cpp and fblinear32.cpp.
use ucimf.Prelude.{
  bind_inv, some_inj, ℕ, true, Option, none, some, ◌≡◌, inl, inr, sym, ap, ◌∙◌, Bytes, length,
  if_true, if_false, bind_some, Bool-cases, if◌then◌else◌, ◌>>=◌,
}
use ucimf.Display.{Area, GraphDev, on_screen, SameSize, IsGraphDev}
use ucimf.Display.Areas.{height}
use ucimf.Display.Packed.{Memory}
use ucimf.Display.Linear16.{save_lines16, rstr_lines16}
use ucimf.Display.Words16.{
  bytes_of_lines, length-save_lines16, rstr_lines16_total, merge_lines, rstr_lines16-save_lines16,
  merge_lines_back, merge_lines_self,
}

-- A buffer of the size that `SaveRect` allocates for the area.
abbrev pub FitsWords : (Area → ℕ) → Area → Bytes → Type 0
FitsWords words a b = length b ≡ bytes_of_lines (words a) (height a)

-- Saving and restoring an area whose lines begin at `from` and have the words that `words` tells.
module _ (xres yres next_line : ℕ) (from words : Area → ℕ) where
  abbrev pub save_by : Area → Memory → Option Bytes
  save_by a m =
      if on_screen xres yres a
      then some (save_lines16 next_line (from a) (words a) (height a) m)
      else none

  abbrev pub rstr_by : Area → Bytes → Memory → Option Memory
  rstr_by a b m =
      if on_screen xres yres a
      then rstr_lines16 next_line (from a) (words a) (height a) b m >>= (λ r. some r.1)
      else none

module _ (xres yres next_line : ℕ) (from words : Area → ℕ)
    (same_words : (a c : Area) → SameSize a c → words a ≡ words c) where
  abbrev save : Area → Memory → Option Bytes
  save = save_by xres yres next_line from words

  abbrev rstr : Area → Bytes → Memory → Option Memory
  rstr = rstr_by xres yres next_line from words

  -- A saved area and what it is restored to, in the terms of the merged memory.
  rstr_by-save_by :
      (a : Area) (s t : Memory) (b : Bytes)
      → save a s ≡ some b
      → rstr a b t ≡ some (merge_lines next_line (from a) (words a) (height a) s t)
  rstr_by-save_by a s t b e = elim (Bool-cases (on_screen xres yres a)) [
    | inl on ↦
        let saved : save_lines16 next_line (from a) (words a) (height a) s ≡ b =
          some_inj (sym (if_true _ _ on) ∙ e) in
        rw (← saved) (
          if_true _ _ on
          ∙ bind_some _ (rstr_lines16-save_lines16 next_line (from a) (words a) (height a) s t))
    | inr off ↦ let no : none ≡ some b = sym (if_false _ _ off) ∙ e in cc
  ]

  saved_fits :
      (a c : Area) (s : Memory) (b : Bytes) → save a s ≡ some b → SameSize a c → FitsWords words c b
  saved_fits a c s b e (w, h) = elim (Bool-cases (on_screen xres yres a)) [
    | inl on ↦
        let saved : save_lines16 next_line (from a) (words a) (height a) s ≡ b =
          some_inj (sym (if_true _ _ on) ∙ e) in
        rw (← saved, ← same_words a c (w, h), ← h)
          (length-save_lines16 next_line (from a) (words a) (height a) s)
    | inr off ↦ let no : none ≡ some b = sym (if_false _ _ off) ∙ e in cc
  ]

  restored :
      (a : Area) (s : Memory) (b : Bytes)
      → on_screen xres yres a ≡ true
      → FitsWords words a b
      → (t : Memory) × (rstr a b s ≡ some t)
  restored a s b on fit =
      let (c, t, rows) = rstr_lines16_total next_line (from a) (words a) (height a) b s fit in
      (t, if_true _ _ on ∙ bind_some _ rows)

  back :
      (a : Area) (s t : Memory) (c : Bytes)
      → rstr a c s ≡ some t
      → merge_lines next_line (from a) (words a) (height a) s t ≡ s
  back a s t c e = elim (Bool-cases (on_screen xres yres a)) [
    | inl on ↦
        let ((left, u), rows, is) =
          bind_inv (rstr_lines16 next_line (from a) (words a) (height a) c s) (λ r. some r.1)
            (sym (if_true _ _ on) ∙ e) in
        let same : u ≡ t = some_inj is in
        ap (merge_lines next_line (from a) (words a) (height a) s) (sym same)
        ∙ merge_lines_back next_line (from a) (words a) (height a) c left s u rows
    | inr off ↦ let no : none ≡ some t = sym (if_false _ _ off) ∙ e in cc
  ]

  module _ (dev : GraphDev Memory Bytes) (on_x : dev.xres ≡ xres) (on_y : dev.yres ≡ yres)
      (saves : (a : Area) (s : Memory) → dev.save_rect a s ≡ save a s)
      (restores : (a : Area) (b : Bytes) (s : Memory) → dev.rstr_rect a b s ≡ rstr a b s) where
    same_screen : (a : Area) → on_screen dev.xres dev.yres a ≡ true → on_screen xres yres a ≡ true
    same_screen a on =
        ap (λ x. on_screen x yres a) (sym on_x) ∙ ap (λ y. on_screen dev.xres y a) (sym on_y) ∙ on

    -- A device that saves and restores so keeps what is asked of a device.
    pub words-IsGraphDev : IsGraphDev dev (FitsWords words)
    words-IsGraphDev = record {
      save_total = λ a s on. (_, saves a s ∙ if_true _ _ (same_screen a on));
      save_fits = λ a c s b e. saved_fits a c s b (sym (saves a s) ∙ e);
      fits_size = λ a c b f (w, h). rw (← same_words a c (w, h), ← h) f;
      rstr_total =
          λ a s b on f. let (t, e) = restored a s b (same_screen a on) f in (t, restores a b s ∙ e);
      rstr_saved = λ a s t b c saved done.
          restores a b t
          ∙ rstr_by-save_by a s t b (sym (saves a s) ∙ saved)
          ∙ ap some (back a s t c (sym (restores a c s) ∙ done));
      rstr_unchanged = λ a s b saved.
          restores a b s
          ∙ rstr_by-save_by a s s b (sym (saves a s) ∙ saved)
          ∙ ap some (merge_lines_self next_line (from a) (words a) (height a) s);
    }
