-- ===== src/Fonts/Cache.antt =====
-- The glyph cache of libucimf/font/font.cpp against the glyphs that are made without it.
use ucimf.Prelude.{
  ℕ, zero, suc, ◌+◌, ◌/◌, ◌<◌, Bool, true, false, Option, none, some, ◌≡◌, ◌≢◌, inl, inr, refl, sym,
  ◌∙◌, arith, leb, ◌==◌, if◌then◌else◌, ◌>>=◌, bind_some, if_true, if_false, Bool-cases, ==_iff,
  Option-cases,
}
use ucimf.Fonts.{
  FreeType, Glyph, Face, closed, failed, opened, Fonts, set_at, flags_for, open_font, first_font,
  font_index, render, init_page, draw_glyph, load_glyph, new_fonts,
}

module _ (lib : FreeType) (font_height : ℕ) where
  abbrev from_font : ℕ → ℕ → Option (Option Glyph)
  from_font i unicode =
      let index = lib.char_index i unicode in
      let drawn = render lib font_height i index (flags_for lib i) >>= λ g. some (some g) in
      if lib.new_face i then if index == 0 then some none else drawn else some none

  -- The glyph of a code point, made afresh from the first font that has it.
  unfoldable pub fresh_glyph : ℕ → Option (Option Glyph)
  fresh_glyph unicode =
      if leb 65536 unicode
      then some none
      else elim (font_index lib unicode) [ none ↦ some none | some i ↦ from_font i unicode ]

  -- What a font's face is, once it is used.
  abbrev FaceState : ℕ → Face → ℕ → Type 0
  FaceState i closed flags = Unit
  FaceState i failed flags = lib.new_face i ≡ false
  FaceState i opened flags = (lib.new_face i ≡ true) × (flags ≡ flags_for lib i)

  abbrev pub CellState : ℕ → Option (Option Glyph) → Type 0
  CellState u none = ⊥
  CellState u (some none) = Unit
  CellState u (some (some g)) = fresh_glyph u ≡ some (some g)

  -- The pages in use are set, every cached glyph is the one that is made afresh, and the faces are
  -- as they were opened.
  pub record IsCache (t : Fonts) : Type 0 where
    pub cells : (u : ℕ) → u < 65536 → t.cache_inited (u / 256) ≡ true → CellState u (t.cache u)
    pub faces_ok : (i : ℕ) → FaceState i (t.faces i) (t.flags i)

  opened_at :
      (i j : ℕ) (t : Fonts)
      → lib.new_face i ≡ true
      → FaceState j (t.faces j) (t.flags j)
      → FaceState j (set_at i opened t.faces j) (set_at i (flags_for lib i) t.flags j)
  opened_at i j t h ok = elim (Bool-cases (j == i)) [
    | inl e ↦ rw e (rw ((==_iff j i).0 e) (h, refl))
    | inr e ↦ rw e ok
  ]

  failed_at :
      (i j : ℕ) (t : Fonts)
      → lib.new_face i ≡ false
      → FaceState j (t.faces j) (t.flags j)
      → FaceState j (set_at i failed t.faces j) (t.flags j)
  failed_at i j t h ok = elim (Bool-cases (j == i)) [
    | inl e ↦ rw e (rw ((==_iff j i).0 e) h)
    | inr e ↦ rw e ok
  ]

  pub open_font-IsCache : (i : ℕ) (t : Fonts) → IsCache t → IsCache (open_font lib i t)
  unfolding open_font
  open_font-IsCache i t ok = decided (leb lib.nfont i) (lib.new_face i) refl
    where
      decided :
          (b c : Bool)
          → lib.new_face i ≡ c
          → IsCache (
              if b
              then t
              else if c
              then record t {
                faces = set_at i opened t.faces;
                flags = set_at i (flags_for lib i) t.flags;
              }
              else record t { faces = set_at i failed t.faces })
      decided true c e = ok
      decided false true e = record {
        cells = ok.cells;
        faces_ok = λ j. opened_at i j t e (ok.faces_ok j);
      }
      decided false false e = record {
        cells = ok.cells;
        faces_ok = λ j. failed_at i j t e (ok.faces_ok j);
      }

  pub new_fonts-IsCache :
      (flags : ℕ → ℕ) (cache : ℕ → Option (Option Glyph)) → IsCache (new_fonts lib flags cache)
  unfolding new_fonts
  new_fonts-IsCache flags cache =
      open_font-IsCache 0 _ (record { cells = λ u h e. absurd (ground arith); faces_ok = λ i. tt })

  cleared_cell :
      (page u : ℕ) (t : Fonts)
      → IsCache t
      → u < 65536
      → set_at page true t.cache_inited (u / 256) ≡ true
      → CellState u (if u / 256 == page then some none else t.cache u)
  cleared_cell page u t ok h e = elim (Bool-cases (u / 256 == page)) [
    | inl d ↦ rw d tt
    | inr d ↦ rw d (ok.cells u h (sym (if_false _ _ d) ∙ e))
  ]

  pub init_page-IsCache :
      (page : ℕ) (t : Fonts)
      → IsCache t
      → IsCache (init_page lib font_height page t)
        × ((init_page lib font_height page t).cache_inited page ≡ true)
  unfolding init_page
  init_page-IsCache page t ok = decided (t.cache_inited page) refl
    where
      decided :
          (b : Bool)
          → t.cache_inited page ≡ b
          → let r = if b then t else record t {
            cache_inited = set_at page true t.cache_inited;
            cache = λ v. if v / 256 == page then some none else t.cache v;
          } in
            IsCache r × (r.cache_inited page ≡ true)
      decided true e = (ok, e)
      decided false e = (
        record { cells = λ u h d. cleared_cell page u t ok h d; faces_ok = ok.faces_ok },
        if_true _ _ ((==_iff page page).1 refl),
      )

  abbrev store : ℕ → Option Glyph → Fonts → Fonts
  store u none t = t
  store u (some g) t = record t { cache = set_at u (some (some g)) t.cache }

  store-IsCache :
      (u : ℕ) (r : Option Glyph) (t : Fonts)
      → fresh_glyph u ≡ some r
      → IsCache t
      → IsCache (store u r t)
  store-IsCache u none t f ok = ok
  store-IsCache u (some g) t f ok = record {
    cells = λ v h e. elim (Bool-cases (v == u)) [
      | inl d ↦ rw d (rw ((==_iff v u).0 d) f)
      | inr d ↦ rw d (ok.cells v h e)
    ];
    faces_ok = ok.faces_ok;
  }

  abbrev answer : ℕ → Fonts → Option Glyph → Option (Fonts × Option Glyph)
  answer u t r = some (store u r t, r)

  draw_glyph-from_font :
      (i u : ℕ) (t : Fonts)
      → FaceState i (t.faces i) (t.flags i)
      → t.faces i ≢ closed
      → draw_glyph lib font_height i u t ≡ (from_font i u >>= answer u t)
  unfolding draw_glyph
  draw_glyph-from_font i u t ok n = by_face (t.faces i) refl ok
    where
      by_face :
          (c : Face)
          → t.faces i ≡ c
          → FaceState i c (t.flags i)
          → draw_glyph lib font_height i u t ≡ (from_font i u >>= answer u t)
      by_face closed e ok = absurd (n e)
      by_face failed e ok = rw (e, ok, draw_glyph) refl
      by_face opened e (new, is) =
          rw (e, new, is, draw_glyph)
            (elim (Bool-cases (lib.char_index i u == 0)) [
              | inl d ↦ rw d refl
              | inr d ↦
                  rw d
                    (elim (Option-cases
                      (render lib font_height i (lib.char_index i u) (flags_for lib i))) [
                        | inl none_drawn ↦ rw none_drawn refl
                        | inr (g, drawn) ↦ rw drawn refl
                      ])
            ])

  -- From a font on: the cache is right, and the face is no longer closed.
  load_from :
      (i u : ℕ) (t : Fonts) (r : Option Glyph)
      → IsCache t
      → t.faces i ≢ closed
      → from_font i u ≡ some r
      → fresh_glyph u ≡ some r
      → (v : Fonts) × (draw_glyph lib font_height i u t ≡ some (v, r)) × IsCache v
  load_from i u t r ok n e f = (
    store u r t,
    draw_glyph-from_font i u t (ok.faces_ok i) n ∙ bind_some _ e,
    store-IsCache u r t f ok,
  )

  open_font_open : (i : ℕ) (t : Fonts) → i < lib.nfont → (open_font lib i t).faces i ≢ closed
  unfolding open_font
  open_font_open i t h = ground (arith, ==_iff i i)

  first_font_inside : (n i u j : ℕ) → first_font lib n i u ≡ some j → j < i + n
  first_font_inside zero i u j e = ground arith
  first_font_inside (suc n) i u j e = ground (arith, first_font_inside n (i + 1) u j)

  font_index_inside : (u j : ℕ) → font_index lib u ≡ some j → j < lib.nfont
  unfolding font_index
  font_index_inside u j e = ground (arith, first_font_inside lib.nfont 0 u j)

  pub load_glyph_lem :
      (u : ℕ) (t : Fonts) (r : Option Glyph)
      → IsCache t
      → fresh_glyph u ≡ some r
      → u < 65536
      → (v : Fonts) × (load_glyph lib font_height u t ≡ some (v, r)) × IsCache v
  unfolding load_glyph fresh_glyph
  load_glyph_lem u t r ok f h =
      by_index (font_index lib u) refl (sym (if_false {b = leb 65536 u} _ _ (ground arith)) ∙ f)
    where
      by_index :
          (o : Option ℕ)
          → font_index lib u ≡ o
          → elim o [ none ↦ some none | some i ↦ from_font i u ] ≡ some r
          → (v : Fonts) × (load_glyph lib font_height u t ≡ some (v, r)) × IsCache v
      by_index none e d = (t, rw (e, load_glyph) cc, ok)
      by_index (some i) e d = by_face (t.faces i) refl
        where
          by_face :
              (c : Face)
              → t.faces i ≡ c
              → (v : Fonts) × (load_glyph lib font_height u t ≡ some (v, r)) × IsCache v
          by_face closed k =
              let (v, drawn, ok') =
                load_from i u (open_font lib i t) r (open_font-IsCache i t ok)
                  (open_font_open i t (font_index_inside u i e)) d f in
              (v, rw (e, k, load_glyph) drawn, ok')
          by_face failed k =
              let (v, drawn, ok') = load_from i u t r ok (λ is. ground arith) d f in
              (v, rw (e, k, load_glyph) drawn, ok')
          by_face opened k =
              let (v, drawn, ok') = load_from i u t r ok (λ is. ground arith) d f in
              (v, rw (e, k, load_glyph) drawn, ok')
