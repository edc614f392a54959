-- ===== src/Fonts/OutChar.antt =====
-- `GraphDev::OutChar` of libucimf/display/graphdev.cpp: it draws a glyph, pixel by pixel, and gives
-- the place of the next one. `none` is a failed assertion, or a read past the glyph.
use ucimf.Prelude.{
  ℕ, zero, suc, ◌+◌, ◌*◌, ◌/◌, Bool, not, ◌&&◌, ◌||◌, Option, none, some, ◌≡◌, refl, sym, ap, ◌∙◌,
  arith, ltb, ◌==◌, if◌then◌else◌, ◌>>=◌, get_elem?, bind_inv, some_inj, if_true, if_false,
  Bool-cases, inl, inr,
}
use ucimf.Prelude.Int.{ℤ, pos, negsuc, pos_part, ◌+ℤ◌, ◌≤ℤ◌, ltb_ℤ, int_laws}
use ucimf.Widget.Lines.{Font, advance}
use ucimf.Fonts.{Glyph}

-- The size of the font and of the screen, and `PutPixel`.
pub record Pen (Screen : Type 0) : Type 0 where
  pub font_width : ℕ
  pub font_height : ℕ
  pub xres : ℕ
  pub yres : ℕ
  pub put_pixel : ℤ → ℤ → ℤ → Screen → Option Screen

module _ {Screen : Type 0} (d : Pen Screen) where
  -- The inner loop, from the column `xi` on.
  unfoldable pub draw_row : Glyph → ℤ → ℤ → ℤ → ℕ → ℕ → ℕ → Screen → Option Screen
  draw_row g x y fg yi xi zero s = some s
  draw_row g x y fg yi xi (suc n) s =
      let put = d.put_pixel (x +ℤ pos xi) (y +ℤ g.top +ℤ pos yi) fg s in
      get_elem? g.pixmap (yi * pos_part g.pitch + xi)
      >>= (λ v. if v == 0 then some s else put)
      >>= draw_row g x y fg yi (xi + 1) n

  unfoldable pub draw_rows : Glyph → ℤ → ℤ → ℤ → ℕ → ℕ → Screen → Option Screen
  draw_rows g x y fg yi zero s = some s
  draw_rows g x y fg yi (suc n) s =
      draw_row g x y fg yi 0 (pos_part g.pitch) s >>= draw_rows g x y fg (yi + 1) n

  -- `delta`, by a comparison without signs.
  abbrev pub delta : Glyph → ℤ
  delta g =
      if ltb_ℤ g.pitch (pos 0) || ltb_ℤ (pos (d.font_width / 2)) g.pitch
      then g.pitch
      else pos (d.font_width / 2)

  abbrev pub has_room : ℤ → ℤ → Bool
  has_room x y =
      not (ltb_ℤ x (pos 0))
      && not (ltb_ℤ (pos d.xres) (x +ℤ pos d.font_width))
      && not (ltb_ℤ y (pos 0))
      && not (ltb_ℤ (pos d.yres) (y +ℤ pos d.font_height))

  unfoldable pub draw_char : Option Glyph → ℤ → ℤ → ℤ → Screen → Option (Screen × ℤ)
  draw_char none x y fg s = some (s, x +ℤ pos d.font_width)
  draw_char (some g) x y fg s =
      draw_rows g x y fg 0 (pos_part g.height) s >>= λ t. some (t, x +ℤ delta g +ℤ g.left)

  -- `OutChar`, with the glyph that the font gives for the character.
  unfoldable pub out_char : Option Glyph → ℤ → ℤ → ℤ → Screen → Option (Screen × ℤ)
  out_char glyph x y fg s = if has_room x y then draw_char glyph x y fg s else none

  -- Where the pen goes, by the glyph.
  abbrev pub pen_step : Option Glyph → ℤ
  pen_step none = pos d.font_width
  pen_step (some g) = delta g +ℤ g.left

-- What `Text::append` measures the glyph by: the width of its metrics, which is not negative.
abbrev pub IsMeasured : Font → (ℕ → Option Glyph) → Type 0
IsMeasured f glyphs =
    (c : ℕ)
    → f.glyph c ≡ elim (glyphs c) [
      | none ↦ none
      | some g ↦ some (record { width = pos_part g.width; left = g.left })
    ]

-- The glyph is not negative in size, and its bitmap is not narrower than its metrics.
abbrev pub IsDrawn : Option Glyph → Type 0
IsDrawn none = Unit
IsDrawn (some g) = (pos 0 ≤ℤ g.width) × (g.width ≤ℤ g.pitch)

abbrev pub IsExact : Option Glyph → Type 0
IsExact none = Unit
IsExact (some g) = (pos 0 ≤ℤ g.width) × (g.width ≡ g.pitch)

wider :
    (h : ℕ) (w p : ℤ)
    → pos 0 ≤ℤ w
    → w ≤ℤ p
    → pos (if ltb h (pos_part w) then pos_part w else h)
      ≤ℤ (if ltb_ℤ p (pos 0) || ltb_ℤ (pos h) p then p else pos h)
wider h w p a b = ground arith

as_wide :
    (h : ℕ) (w : ℤ)
    → pos 0 ≤ℤ w
    → pos (if ltb h (pos_part w) then pos_part w else h)
      ≡ (if ltb_ℤ w (pos 0) || ltb_ℤ (pos h) w then w else pos h)
as_wide h (pos n) a = ground arith
as_wide h (negsuc n) a = absurd (omega arith)

add_le : (x l a b : ℤ) → a ≤ℤ b → (x +ℤ (a +ℤ l)) ≤ℤ (x +ℤ (b +ℤ l))
add_le x l a b h = omega int_laws

moved :
    {Screen : Type 0} (d : Pen Screen) (o : Option Glyph) (x y fg : ℤ) (s : Screen) (r : Screen × ℤ)
    → out_char d o x y fg s ≡ some r
    → r.1 ≡ x +ℤ pen_step d o
unfolding out_char draw_char
moved {Screen} d o x y fg s r e = elim (Bool-cases (has_room d x y)) [
  | inl h ↦ drawn o (sym (if_true _ _ h) ∙ e)
  | inr h ↦ absurd (none_some (sym (if_false _ _ h) ∙ e))
]
  where
    none_some : none ≡ some r → ⊥
    none_some e = cc

    drawn : (o : Option Glyph) → draw_char d o x y fg s ≡ some r → r.1 ≡ x +ℤ pen_step d o
    drawn none e = ap (λ (q : Screen × ℤ). q.1) (sym (some_inj e))
    drawn (some g) e =
        let (t, _, is) =
          bind_inv (draw_rows d g x y fg 0 (pos_part g.height) s)
            (λ t. some (t, x +ℤ delta d g +ℤ g.left)) e in
        ap (λ (q : Screen × ℤ). q.1) (sym (some_inj is)) ∙ omega int_laws

-- The pen goes at least as far as the character was measured, where its bitmap is not narrower than
-- its metrics, and exactly as far where both are of one width.
pub out_char-advance :
    {Screen : Type 0} (d : Pen Screen) (f : Font) (glyphs : ℕ → Option Glyph) (c : ℕ) (x y fg : ℤ)
    (s : Screen) (r : Screen × ℤ)
    → IsMeasured f glyphs
    → f.width ≡ d.font_width
    → out_char d (glyphs c) x y fg s ≡ some r
    → (IsDrawn (glyphs c) → (x +ℤ advance f c) ≤ℤ r.1)
      × (IsExact (glyphs c) → r.1 ≡ x +ℤ advance f c)
unfolding out_char draw_char advance
out_char-advance d f glyphs c x y fg s r m w e = by_glyph (glyphs c) refl
  where
    by_glyph :
        (o : Option Glyph)
        → glyphs c ≡ o
        → (IsDrawn o → (x +ℤ advance f c) ≤ℤ r.1) × (IsExact o → r.1 ≡ x +ℤ advance f c)
    by_glyph none k =
        let at = moved d none x y fg s r (ap (λ o. out_char d o x y fg s) (sym k) ∙ e) in
        let far : advance f c ≡ pos d.font_width = rw (m c, k, w, advance) refl in
        (λ _. rw (at, far) (omega arith), λ _. rw (at, far) refl)
    by_glyph (some g) k =
        let at = moved d (some g) x y fg s r (ap (λ o. out_char d o x y fg s) (sym k) ∙ e) in
        let half = d.font_width / 2 in
        let far : advance f c
            ≡ pos (if ltb half (pos_part g.width) then pos_part g.width else half) +ℤ g.left =
          rw (m c, k, w, advance) refl in
        (
          λ h. rw (at, far) (add_le x g.left _ _ (wider half g.width g.pitch h.0 h.1)),
          λ h. rw (at, far, ← h.1) (ap (λ a. x +ℤ (a +ℤ g.left)) (sym (as_wide half g.width h.0))),
        )
