-- ===== src/Fonts/Requests.antt =====
-- Requests of glyphs, in libucimf/font/font.cpp.
use ucimf.Prelude.{
  bind_inv, some_inj, ℕ, ◌/◌, ◌<◌, true, Option, none, some, ◌≡◌, inl, inr, sym, ap, ◌∙◌, arith,
  leb, List, [], ◌∷◌, ◌>>=◌, bind_some, if_true, if_false, Bool-cases,
}
use ucimf.Fonts.{FreeType, Glyph, Fonts, init_page, load_glyph, get_glyph, get_glyphs, new_fonts}
use ucimf.Fonts.Cache.{
  fresh_glyph, CellState, IsCache, new_fonts-IsCache, init_page-IsCache, load_glyph_lem,
}

module _ (lib : FreeType) (font_height : ℕ) where
  far_glyph :
      (u : ℕ) (t : Fonts) (r : Option Glyph)
      → leb 65536 u ≡ true
      → fresh_glyph lib font_height u ≡ some r
      → get_glyph lib font_height u t ≡ some (t, r)
  unfolding get_glyph fresh_glyph
  far_glyph u t r e f = if_true _ _ e ∙ ap (λ r. some (t, r)) (some_inj (sym (if_true _ _ e) ∙ f))

  cached_glyph :
      (u : ℕ) (t : Fonts) (r : Option Glyph)
      → IsCache lib font_height t
      → fresh_glyph lib font_height u ≡ some r
      → u < 65536
      → (c : Option (Option Glyph)) → CellState lib font_height u c
      → (v : Fonts) × ((c >>= λ cell. elim cell [
        | some g ↦ some (t, some g)
        | none ↦ load_glyph lib font_height u t
      ])
          ≡ some (v, r))
        × IsCache lib font_height v
  cached_glyph u t r ok f h none is = absurd is
  cached_glyph u t r ok f h (some none) is = load_glyph_lem lib font_height u t r ok f h
  cached_glyph u t r ok f h (some (some g)) is =
      (t, ap (λ r. some (t, r)) (some_inj (sym is ∙ f)), ok)

  near_glyph :
      (u : ℕ) (t : Fonts) (r : Option Glyph)
      → IsCache lib font_height t
      → u < 65536
      → fresh_glyph lib font_height u ≡ some r
      → (v : Fonts) × (get_glyph lib font_height u t ≡ some (v, r)) × IsCache lib font_height v
  unfolding get_glyph
  near_glyph u t r ok h f =
      let (ok', used) = init_page-IsCache lib font_height (u / 256) t ok in
      let t' = init_page lib font_height (u / 256) t in
      let (v, e, ok'') = cached_glyph u t' r ok' f h (t'.cache u) (ok'.cells u h used) in
      (v, if_false {b = leb 65536 u} _ _ (ground arith) ∙ e, ok'')

  get_glyph_lem :
      (u : ℕ) (t : Fonts) (r : Option Glyph)
      → IsCache lib font_height t
      → fresh_glyph lib font_height u ≡ some r
      → (v : Fonts) × (get_glyph lib font_height u t ≡ some (v, r)) × IsCache lib font_height v
  get_glyph_lem u t r ok f = elim (Bool-cases (leb 65536 u)) [
    | inl e ↦ (t, far_glyph u t r e f, ok)
    | inr e ↦ near_glyph u t r ok (ground arith) f
  ]

  -- The glyphs that are made afresh.
  abbrev pub fresh_glyphs : List ℕ → Option (List (Option Glyph))
  fresh_glyphs [] = some []
  fresh_glyphs (u ∷ us) =
      fresh_glyph lib font_height u >>= λ r. fresh_glyphs us >>= λ rs. some (r ∷ rs)

  get_glyphs_lem :
      (us : List ℕ) (t : Fonts) (rs : List (Option Glyph))
      → IsCache lib font_height t
      → fresh_glyphs us ≡ some rs
      → (v : Fonts) × (get_glyphs lib font_height us t ≡ some (v, rs)) × IsCache lib font_height v
  unfolding get_glyphs
  get_glyphs_lem [] t rs ok e = (t, ap (λ rs. some (t, rs)) (some_inj e), ok)
  get_glyphs_lem (u ∷ us) t rs ok e =
      let (r, f, e') = bind_inv _ _ e in
      let (rs', g, e'') = bind_inv _ _ e' in
      let (v, now, ok') = get_glyph_lem u t r ok f in
      let (x, later, ok'') = get_glyphs_lem us v rs' ok' g in
      (x, bind_some _ now ∙ bind_some _ later ∙ ap (λ rs. some (x, rs)) (some_inj e''), ok'')

  -- A font that was just made answers any sequence of requests with the glyphs that are made afresh,
  -- code point by code point, whatever stood in the memory of its arrays; if each glyph, or none, can
  -- be made.
  pub get_glyphs-new_fonts :
      (flags : ℕ → ℕ) (cache : ℕ → Option (Option Glyph)) (us : List ℕ) (rs : List (Option Glyph))
      → fresh_glyphs us ≡ some rs
      → (v : Fonts) × (get_glyphs lib font_height us (new_fonts lib flags cache) ≡ some (v, rs))
  get_glyphs-new_fonts flags cache us rs e =
      let (v, done, _) =
        get_glyphs_lem us (new_fonts lib flags cache) rs
          (new_fonts-IsCache lib font_height flags cache) e in
      (v, done)
