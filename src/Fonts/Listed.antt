-- ===== src/Fonts/Listed.antt =====
-- The fonts that `createInstance` of libucimf/font/font.cpp lists, and the size that `Font::Font` takes.
use ucimf.Prelude.{
  ℕ, ◌/◌, ◌≤◌, Bool, true, false, ◌||◌, Option, none, some, List, [], ◌∷◌, ◌++◌, ◌≡◌, refl, ◌∙◌,
  arith, get_elem?, All, Bool-cases, inl, inr, some_inj,
}
use ucimf.Fonts.Setup.{has_same, add_font, add_fonts, create_instance, FixedSize, subs}

module _ {A : Type 0} (same_family : A → A → Bool) where
  -- No font of the list has the family of an earlier one.
  abbrev pub IsDistinct : List A → Type 0
  IsDistinct [] = Unit {0}
  IsDistinct (x ∷ xs) = All (λ y. same_family x y ≡ false) xs × IsDistinct xs

  -- The families of the fonts that could be prepared are in the list.
  abbrev pub Covers : List A → List (Option A) → Type 0
  Covers l [] = Unit {0}
  Covers l (none ∷ fs) = Covers l fs
  Covers l (some f ∷ fs) = (has_same same_family f l ≡ true) × Covers l fs

  apart :
      (f : A) (x : A) (xs : List A)
      → (same_family x f || has_same same_family f xs) ≡ false
      → (same_family x f ≡ false) × (has_same same_family f xs ≡ false)
  apart f x xs e = ground arith

  All-snoc : (P : A → Type 0) (xs : List A) (f : A) → All P xs → P f → All P (xs ++ f ∷ [])
  All-snoc P [] f h p = (p, tt)
  All-snoc P (x ∷ xs) f h p = (h.0, All-snoc P xs f h.1 p)

  add-IsDistinct :
      (l : List A) (f : A)
      → has_same same_family f l ≡ false
      → IsDistinct l
      → IsDistinct (l ++ f ∷ [])
  unfolding has_same
  add-IsDistinct [] f e d = (tt, tt)
  add-IsDistinct (x ∷ xs) f e d =
      let (here, later) = apart f x xs e in
      (All-snoc _ xs f d.0 here, add-IsDistinct xs f later d.1)

  add_font-IsDistinct :
      (o : Option A) (l : List A) → IsDistinct l → IsDistinct (add_font same_family o l)
  unfolding add_font
  add_font-IsDistinct none l d = d
  add_font-IsDistinct (some f) l d = elim (Bool-cases (has_same same_family f l)) [
    | inl old ↦ rw old d
    | inr new ↦ rw new (add-IsDistinct l f new d)
  ]

  add_fonts-IsDistinct :
      (fs : List (Option A)) (l : List A) → IsDistinct l → IsDistinct (add_fonts same_family fs l)
  unfolding add_fonts
  add_fonts-IsDistinct [] l d = d
  add_fonts-IsDistinct (f ∷ fs) l d =
      add_fonts-IsDistinct fs (add_font same_family f l) (add_font-IsDistinct f l d)

  has_same-append :
      (f : A) (xs ys : List A)
      → has_same same_family f xs ≡ true
      → has_same same_family f (xs ++ ys) ≡ true
  unfolding has_same
  has_same-append f [] ys e = absurd (ground arith)
  has_same-append f (x ∷ xs) ys e = ground (arith, has_same-append f xs ys)

  has_same-end :
      (f : A) (xs : List A) → same_family f f ≡ true → has_same same_family f (xs ++ f ∷ []) ≡ true
  unfolding has_same
  has_same-end f [] e = ground arith
  has_same-end f (x ∷ xs) e = ground (arith, has_same-end f xs e)

  module _ (reflexive : (f : A) → same_family f f ≡ true) where
    add_font-keeps :
        (o : Option A) (g : A) (l : List A)
        → has_same same_family g l ≡ true
        → has_same same_family g (add_font same_family o l) ≡ true
    unfolding add_font
    add_font-keeps none g l e = e
    add_font-keeps (some f) g l e = elim (Bool-cases (has_same same_family f l)) [
      | inl old ↦ rw old e
      | inr new ↦ rw new (has_same-append g l (f ∷ []) e)
    ]

    add_fonts-keeps :
        (fs : List (Option A)) (g : A) (l : List A)
        → has_same same_family g l ≡ true
        → has_same same_family g (add_fonts same_family fs l) ≡ true
    unfolding add_fonts
    add_fonts-keeps [] g l e = e
    add_fonts-keeps (f ∷ fs) g l e =
        add_fonts-keeps fs g (add_font same_family f l) (add_font-keeps f g l e)

    added : (f : A) (l : List A) → has_same same_family f (add_font same_family (some f) l) ≡ true
    unfolding add_font
    added f l = elim (Bool-cases (has_same same_family f l)) [
      | inl old ↦ rw old old
      | inr new ↦ rw new (has_same-end f l (reflexive f))
    ]

    add_fonts-Covers : (fs : List (Option A)) (l : List A) → Covers (add_fonts same_family fs l) fs
    unfolding add_fonts
    add_fonts-Covers [] l = tt
    add_fonts-Covers (none ∷ fs) l = add_fonts-Covers fs (add_font same_family none l)
    add_fonts-Covers (some f ∷ fs) l = (
      add_fonts-keeps fs f (add_font same_family (some f) l) (added f l),
      add_fonts-Covers fs (add_font same_family (some f) l),
    )

    -- Where `createInstance` makes a font, no two fonts of its list are of one family, and the
    -- family of every font that could be prepared is in the list; if a family is its own.
    pub create_instance_lem :
        (fs : List (Option A)) (l : List A)
        → create_instance same_family (some fs) ≡ some l
        → IsDistinct l × Covers l fs
    unfolding create_instance
    create_instance_lem fs l e = listed (add_fonts same_family fs []) refl e
      where
        listed :
            (r : List A)
            → add_fonts same_family fs [] ≡ r
            → (elim r [ [] ↦ none | x ∷ xs ↦ some (x ∷ xs) ]) ≡ some l
            → IsDistinct l × Covers l fs
        listed [] same e = cc
        listed (x ∷ xs) same e =
            let is : add_fonts same_family fs [] ≡ l = same ∙ some_inj e in
            rw (← is) (add_fonts-IsDistinct fs [] tt, add_fonts-Covers fs [])

-- How far a size is from the one that was asked for.
abbrev pub distance : ℕ → FixedSize → ℕ
distance d s = subs (s.size / 64) d

-- The place that the loop ends with, for the sizes that it has seen and the rest.
abbrev pub IsNearest : ℕ → List FixedSize → ℕ → Type 0
IsNearest d l i =
    (s : FixedSize) × (get_elem? l i ≡ some s) × All (λ t. distance d s ≤ distance d t) l
