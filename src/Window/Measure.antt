-- ===== src/Window/Measure.antt =====
-- Measuring: how a hidden window grows to hold what is drawn on it.
use ucimf.Prelude.{
  Bool, true, false, ◌||◌, Option, some, ◌≡◌, refl, sym, ap, ◌∙◌, arith, List, [], ◌∷◌, ◌>>=◌,
  if_true, if_false, bind_some, Bool-cases, inl, inr,
}
use ucimf.Prelude.Int.{ℤ, ltb_ℤ, max_ℤ}
use ucimf.Display.{GraphDev}
use ucimf.Window.{WindowId, Window, Shift, Desktop, put}
use ucimf.Window.Buffers.{same_refl, put-put, put_self}
use ucimf.Window.Resize.{measure, placed, IsHidden, wh_hidden}

module _ {Screen Saved : Type 0} where
  -- A hidden window stands where its shift wants a window of its size.
  pub record IsPlaced (d : Desktop Screen Saved) (i : WindowId) (s : Shift) : Type 0 where
    pub is_hidden : IsHidden d i s
    pub in_place : d.win i ≡ placed s (d.win i).width (d.win i).height d (d.win i)

  -- The window `i` of the given size, in its place.
  abbrev pub resized : Shift → WindowId → ℤ → ℤ → Desktop Screen Saved → Desktop Screen Saved
  resized s i width height d = put d i (placed s width height d (d.win i))

  pub resized-IsPlaced :
      (s : Shift) (i : WindowId) (width height : ℤ) (d : Desktop Screen Saved)
      → IsHidden d i s
      → IsPlaced (resized s i width height d) i s
  resized-IsPlaced s i width height d h =
      let is : (resized s i width height d).win i ≡ placed s width height d (d.win i) =
        if_true _ _ (same_refl i) in
      record {
        is_hidden = record {
          hidden = ap (λ (w : Window Saved). w.visible) is ∙ h.hidden;
          is_managed = ap (λ (w : Window Saved). w.managed) is ∙ h.is_managed;
          known = h.known;
        };
        in_place = rw is refl;
      }

  resized-resized :
      (s : Shift) (i : WindowId) (v w x y : ℤ) (d : Desktop Screen Saved)
      → resized s i x y (resized s i v w d) ≡ resized s i x y d
  resized-resized s i v w x y d =
      let is : (resized s i v w d).win i ≡ placed s v w d (d.win i) = if_true _ _ (same_refl i) in
      ap (λ (u : Window Saved). put (resized s i v w d) i (placed s x y d u)) is ∙ put-put d i _ _

-- The largest of a width and of the corners' first coordinates, and so for heights.
abbrev pub max_x : ℤ → List (ℤ × ℤ) → ℤ
max_x w [] = w
max_x w ((x, y) ∷ l) = max_x (max_ℤ w x) l

abbrev pub max_y : ℤ → List (ℤ × ℤ) → ℤ
max_y h [] = h
max_y h ((x, y) ∷ l) = max_y (max_ℤ h y) l

module _ {Screen Saved : Type 0} (dev : GraphDev Screen Saved) where
  measure_grows :
      (i : WindowId) (mx my : ℤ) (s : Shift) (d : Desktop Screen Saved)
      → IsHidden d i s
      → (ltb_ℤ (d.win i).width mx || ltb_ℤ (d.win i).height my) ≡ true
      → measure dev i mx my d
        ≡ some (resized s i (max_ℤ (d.win i).width mx) (max_ℤ (d.win i).height my) d)
  unfolding measure
  measure_grows i mx my s d h larger = if_true _ _ larger ∙ wh_hidden dev i _ _ s d h

  max_ℤ_stays : (a b : ℤ) → ltb_ℤ a b ≡ false → max_ℤ a b ≡ a
  max_ℤ_stays a b h = if_false _ _ h

  or_false : (a b : Bool) → (a || b) ≡ false → (a ≡ false) × (b ≡ false)
  or_false a b h = ground arith

  measure_stays :
      (i : WindowId) (mx my : ℤ) (s : Shift) (d : Desktop Screen Saved)
      → IsPlaced d i s
      → (ltb_ℤ (d.win i).width mx || ltb_ℤ (d.win i).height my) ≡ false
      → measure dev i mx my d
        ≡ some (resized s i (max_ℤ (d.win i).width mx) (max_ℤ (d.win i).height my) d)
  unfolding measure
  measure_stays i mx my s d h smaller =
      let (x, y) = or_false _ _ smaller in
      let ex = max_ℤ_stays (d.win i).width mx x in
      let ey = max_ℤ_stays (d.win i).height my y in
      if_false _ _ smaller
      ∙ ap some (sym (put_self d i) ∙ ap (put d i) h.in_place)
      ∙ ap (λ (m : ℤ). some (resized s i m (d.win i).height d)) (sym ex)
      ∙ ap (λ (m : ℤ). some (resized s i (max_ℤ (d.win i).width mx) m d)) (sym ey)

  -- Measuring a corner makes a hidden window that is in its place just large enough for it, each
  -- extent being the larger of the old one and the corner's, and puts it in its place again.
  pub measure_lem :
      (i : WindowId) (mx my : ℤ) (s : Shift) (d : Desktop Screen Saved)
      → IsPlaced d i s
      → measure dev i mx my d
        ≡ some (resized s i (max_ℤ (d.win i).width mx) (max_ℤ (d.win i).height my) d)
  measure_lem i mx my s d h =
      elim (Bool-cases (ltb_ℤ (d.win i).width mx || ltb_ℤ (d.win i).height my)) [
        | inl larger ↦ measure_grows i mx my s d h.is_hidden larger
        | inr smaller ↦ measure_stays i mx my s d h smaller
      ]

  -- The corners that one drawing measures, in their order.
  abbrev pub measure_all :
      WindowId → List (ℤ × ℤ) → Desktop Screen Saved → Option (Desktop Screen Saved)
  measure_all i [] d = some d
  measure_all i ((x, y) ∷ l) d = measure dev i x y d >>= measure_all i l

  pub measure-resized :
      (i : WindowId) (x y w h : ℤ) (s : Shift) (d : Desktop Screen Saved)
      → IsHidden d i s
      → measure dev i x y (resized s i w h d) ≡ some (resized s i (max_ℤ w x) (max_ℤ h y) d)
  measure-resized i x y w h s d hid =
      let e = resized s i w h d in
      let is : e.win i ≡ placed s w h d (d.win i) = if_true _ _ (same_refl i) in
      measure_lem i x y s e (resized-IsPlaced s i w h d hid)
      ∙ ap (λ (u : Window Saved). some (resized s i (max_ℤ u.width x) (max_ℤ u.height y) e)) is
      ∙ ap some (resized-resized s i w h _ _ d)

  pub measure_all_lem :
      (i : WindowId) (l : List (ℤ × ℤ)) (w h : ℤ) (s : Shift) (d : Desktop Screen Saved)
      → IsHidden d i s
      → measure_all i l (resized s i w h d) ≡ some (resized s i (max_x w l) (max_y h l) d)
  measure_all_lem i [] w h s d hid = refl
  measure_all_lem i ((x, y) ∷ l) w h s d hid =
      bind_some (measure_all i l) (measure-resized i x y w h s d hid)
      ∙ measure_all_lem i l (max_ℤ w x) (max_ℤ h y) s d hid
