-- ===== src/Cwm/Position.antt =====
-- `Cwm::set_position`: moving all windows that the manager knows.
use ucimf.Prelude.{
  Bool, true, false, not, ◌||◌, some, ◌≡◌, refl, ap, ◌∙◌, inl, inr, arith, List, [], ◌∷◌, if_true,
  if_false, bind_some, Bool-cases,
}
use ucimf.Prelude.Int.{ℤ, ◌+ℤ◌, eqb_ℤ}
use ucimf.Display.{Area, GraphDev, on_screen, IsGraphDev}
use ucimf.Window.{
  WindowId, same, Window, Shift, status_shift, preedit_shift, lookup_choice_shift, Desktop,
}
use ucimf.Window.Buffers.{same_eq, changed}
use ucimf.Window.Resize.{gap_x, gap_y}
use ucimf.Cwm.{place_x, place_y, move_window, update_shift, update_all, set_position}
use ucimf.Cwm.Focus.{IsDrawable, IsOpen, IsReady, AllVisible, changed-IsOpen}
use ucimf.Cwm.Move.{SameExtent, xy_lem}

same_cursor : (x y a b : ℤ) → (not (eqb_ℤ x a) || not (eqb_ℤ y b)) ≡ false → (a ≡ x) × (b ≡ y)
same_cursor x y a b h = ground arith

module _ {Screen Saved : Type 0} {dev : GraphDev Screen Saved} {Fits : Area → Saved → Type 0}
    (laws : IsGraphDev dev Fits) where
  -- The area in which a shift wants a window of the given size.
  abbrev pub wanted : Shift → ℤ → ℤ → Desktop Screen Saved → Area
  wanted s width height d =
      let x = place_x d.cursor_x width d.xres (gap_x s) in
      let y = place_y d.cursor_y height d.yres (gap_y s) in
      record { x1 = x; y1 = y; x2 = x +ℤ width; y2 = y +ℤ height }

  -- The windows of a list have room on the screen, each where its shift wants it.
  abbrev pub HaveRoom : Desktop Screen Saved → List (WindowId × Shift) → Type 0
  HaveRoom d [] = Unit
  HaveRoom d ((i, s) ∷ m) =
      (on_screen dev.xres dev.yres (wanted s (d.win i).width (d.win i).height d) ≡ true)
      × HaveRoom d m

  extent-changed :
      (d : Desktop Screen Saved) (i j : WindowId) (w : Window Saved) (t : Screen)
      → SameExtent laws w (d.win i)
      → SameExtent laws ((changed laws d i w t).win j) (d.win j)
  extent-changed d i j w t (ew, eh) = elim (Bool-cases (same i j)) [
    | inl e ↦ rw (e, ← same_eq i j e) (ew, eh)
    | inr e ↦ rw e (refl, refl)
  ]

  HaveRoom-changed :
      (d : Desktop Screen Saved) (i : WindowId) (w : Window Saved) (t : Screen)
      (m : List (WindowId × Shift))
      → SameExtent laws w (d.win i)
      → HaveRoom d m
      → HaveRoom (changed laws d i w t) m
  HaveRoom-changed d i w t [] same_extent room = tt
  HaveRoom-changed d i w t ((j, s) ∷ m) same_extent (fits, room) =
      let (ew, eh) = extent-changed d i j w t same_extent in
      (
        ap
              (λ (v : ℤ).
                on_screen dev.xres dev.yres (wanted s v ((changed laws d i w t).win j).height d))
              ew
            ∙ ap (λ (h : ℤ). on_screen dev.xres dev.yres (wanted s (d.win j).width h d)) eh
            ∙ fits,
        HaveRoom-changed d i w t m same_extent room,
      )

  update_shift_lem :
      (s : Shift) (i : WindowId) (d : Desktop Screen Saved)
      → IsOpen laws d
      → on_screen dev.xres dev.yres (wanted s (d.win i).width (d.win i).height d) ≡ true
      → (v : Window Saved) × (t : Screen) × (update_shift dev s i d ≡ some (changed laws d i v t))
        × IsDrawable laws v
        × (v.visible ≡ (d.win i).visible)
        × SameExtent laws v (d.win i)
  unfolding update_shift move_window
  update_shift_lem (status_shift gx gy) i d ok on = xy_lem laws i _ _ d ok on
  update_shift_lem (preedit_shift gx gy) i d ok on = xy_lem laws i _ _ d ok on
  update_shift_lem (lookup_choice_shift gx gy) i d ok on = xy_lem laws i _ _ d ok on

  AllVisible-changed :
      (focus : Bool) (d : Desktop Screen Saved) (i : WindowId) (w : Window Saved) (t : Screen)
      (m : List (WindowId × Shift))
      → w.visible ≡ (d.win i).visible
      → AllVisible laws focus d m
      → AllVisible laws focus (changed laws d i w t) m
  AllVisible-changed focus d i w t [] seen all = tt
  AllVisible-changed focus d i w t ((j, s) ∷ m) seen (v, all) = (
    elim (Bool-cases (same i j)) [
      | inl e ↦ rw e (seen ∙ ap (λ (k : WindowId). (d.win k).visible) (same_eq i j e) ∙ v)
      | inr e ↦ rw e v
    ],
    AllVisible-changed focus d i w t m seen all,
  )

  update_all_lem :
      (m all : List (WindowId × Shift)) (focus : Bool) (d : Desktop Screen Saved)
      → IsOpen laws d
      → HaveRoom d m
      → AllVisible laws focus d all
      → (e : Desktop Screen Saved) × (update_all dev m d ≡ some e)
        × IsOpen laws e
        × AllVisible laws focus e all
        × (e.focus ≡ d.focus)
        × (e.cwmmap ≡ d.cwmmap)
        × (e.cursor_x ≡ d.cursor_x)
        × (e.cursor_y ≡ d.cursor_y)
  unfolding update_all
  update_all_lem [] all focus d ok room seen = (d, refl, ok, seen, refl, refl, refl, refl)
  update_all_lem ((i, s) ∷ m) all focus d ok (fits, room) seen =
      let (w, t, done, ok', same_view, same_extent) = update_shift_lem s i d ok fits in
      let c = changed laws d i w t in
      let (e, rest, is_open, visible, same_focus, same_map, ex, ey) =
        update_all_lem m all focus c (changed-IsOpen laws d i w t ok ok')
          (HaveRoom-changed d i w t m same_extent room)
          (AllVisible-changed focus d i w t all same_view seen) in
      (e, bind_some _ done ∙ rest, is_open, visible, same_focus, same_map, ex, ey)

  AllVisible-cursor :
      (focus : Bool) (x y : ℤ) (d : Desktop Screen Saved) (m : List (WindowId × Shift))
      → AllVisible laws focus d m
      → AllVisible laws focus (record d { cursor_x = x; cursor_y = y }) m
  AllVisible-cursor focus x y d [] seen = tt
  AllVisible-cursor focus x y d ((i, s) ∷ m) (v, seen) = (v, AllVisible-cursor focus x y d m seen)

  -- From a ready desktop, a new position of the text cursor at which every managed window has room
  -- on the screen where its shift wants it, `set_position` succeeds, with no assertion failing: it
  -- leaves a ready desktop with the same focus and the same map, and sets the cursor.
  pub set_position-IsReady :
      (x y : ℤ) (d : Desktop Screen Saved)
      → IsReady laws d
      → HaveRoom (record d { cursor_x = x; cursor_y = y }) d.cwmmap
      → (e : Desktop Screen Saved) × (set_position dev x y d ≡ some e)
        × IsReady laws e
        × (e.focus ≡ d.focus)
        × (e.cwmmap ≡ d.cwmmap)
        × (e.cursor_x ≡ x)
        × (e.cursor_y ≡ y)
  unfolding set_position
  set_position-IsReady x y d ok room =
      elim (Bool-cases (not (eqb_ℤ x d.cursor_x) || not (eqb_ℤ y d.cursor_y))) [
        | inl new ↦
            let start = record d { cursor_x = x; cursor_y = y } in
            let (e, done, is_open, seen, same_focus, same_map, ex, ey) =
              update_all_lem d.cwmmap d.cwmmap d.focus start
                (record { opened = ok.is_open.opened; drawable = ok.is_open.drawable }) room
                (AllVisible-cursor d.focus x y d d.cwmmap ok.in_step) in
            (
              e,
              if_true _ _ new ∙ done,
              record {
                is_open = is_open;
                known = rw same_map ok.known;
                in_step = rw (same_map, same_focus) seen;
              },
              same_focus,
              same_map,
              ex,
              ey,
            )
        | inr old ↦
            let (ex, ey) = same_cursor x y d.cursor_x d.cursor_y old in
            (d, if_false _ _ old, ok, refl, refl, ex, ey)
      ]
