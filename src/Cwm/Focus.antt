-- ===== src/Cwm/Focus.antt =====
-- `Cwm::set_focus`: showing and hiding all windows together.
use ucimf.Prelude.{
  Bool, true, false, not, ◌&&◌, some, ◌≡◌, refl, sym, ap, ◌∙◌, inl, inr, arith, List, [], ◌∷◌,
  if◌then◌else◌, if_true, if_false, bind_some, Bool-cases,
}
use ucimf.Display.{Area, GraphDev, on_screen, IsGraphDev}
use ucimf.Window.{WindowId, same, Window, Shift, Desktop, area, show, hide}
use ucimf.Window.Buffers.{same_refl, put_self, BufferFits, changed}
use ucimf.Window.Visible.{show_lem, hide_lem}
use ucimf.Cwm.{is_empty, differ, show_all, set_focus}

module _ {Screen Saved : Type 0} {dev : GraphDev Screen Saved} {Fits : Area → Saved → Type 0}
    (laws : IsGraphDev dev Fits) where
  -- A window that lies on the screen, and whose saved contents fit it.
  pub record IsDrawable (w : Window Saved) : Type 0 where
    pub on : on_screen dev.xres dev.yres (area w) ≡ true
    pub fg_fits : BufferFits laws (area w) w.buf_fg
    pub bg_fits : BufferFits laws (area w) w.buf_bg

  -- The same place and size.
  abbrev pub SameArea : Window Saved → Window Saved → Type 0
  SameArea v w =
      (v.pos_x ≡ w.pos_x) × (v.pos_y ≡ w.pos_y) × (v.width ≡ w.width) × (v.height ≡ w.height)

  -- Shown, or hidden, a drawable window stays drawable, in its place.
  pub turn :
      (focus : Bool) (i : WindowId) (d : Desktop Screen Saved)
      → d.opened ≡ true
      → IsDrawable (d.win i)
      → (w : Window Saved) × (t : Screen) × ((if focus then show dev i d else hide dev i d)
          ≡ some (changed laws d i w t))
        × IsDrawable w
        × (w.visible ≡ focus)
        × SameArea w (d.win i)
  unfolding show hide
  turn true i d h ok = elim (Bool-cases (d.win i).visible) [
    | inl v ↦ (
      d.win i,
      d.screen,
      if_true _ _ v ∙ ap some (sym (put_self d i)),
      ok,
      v,
      (refl, refl, refl, refl),
    )
    | inr v ↦
        let (b, t, saved, _, shown) = show_lem laws i d h v ok.on ok.fg_fits in
        (
          _,
          t,
          shown,
          record {
            on = ok.on;
            fg_fits = tt;
            bg_fits =
                laws.save_fits (area (d.win i)) (area (d.win i)) d.screen b saved (refl, refl);
          },
          refl,
          (refl, refl, refl, refl),
        )
  ]
  turn false i d h ok = elim (Bool-cases (d.win i).visible) [
    | inl v ↦
        let (b, t, saved, _, hidden) = hide_lem laws i d h v ok.on ok.bg_fits in
        (
          _,
          t,
          hidden,
          record {
            on = ok.on;
            fg_fits =
                laws.save_fits (area (d.win i)) (area (d.win i)) d.screen b saved (refl, refl);
            bg_fits = tt;
          },
          refl,
          (refl, refl, refl, refl),
        )
    | inr v ↦ (
      d.win i,
      d.screen,
      if_false _ _ v ∙ ap some (sym (put_self d i)),
      ok,
      v,
      (refl, refl, refl, refl),
    )
  ]

  -- Every window can be drawn, and there is a device.
  pub record IsOpen (d : Desktop Screen Saved) : Type 0 where
    pub opened : d.opened ≡ true
    pub drawable : (i : WindowId) → IsDrawable (d.win i)

  pub changed-IsOpen :
      (d : Desktop Screen Saved) (i : WindowId) (w : Window Saved) (t : Screen)
      → IsOpen d
      → IsDrawable w
      → IsOpen (changed laws d i w t)
  changed-IsOpen d i w t ok new = record { opened = ok.opened; drawable = each }
    where
      each : (j : WindowId) → IsDrawable ((changed laws d i w t).win j)
      each j = elim (Bool-cases (same i j)) [ inl e ↦ rw e new | inr e ↦ rw e (ok.drawable j) ]

  changed_visible :
      (d : Desktop Screen Saved) (i j : WindowId) (w : Window Saved) (t : Screen) (focus : Bool)
      → w.visible ≡ focus
      → (d.win j).visible ≡ focus
      → ((changed laws d i w t).win j).visible ≡ focus
  changed_visible d i j w t focus new old = elim (Bool-cases (same i j)) [
    | inl e ↦ rw e new
    | inr e ↦ rw e old
  ]

  -- The windows of a list have the given visibility.
  abbrev pub AllVisible : Bool → Desktop Screen Saved → List (WindowId × Shift) → Type 0
  AllVisible focus d [] = Unit
  AllVisible focus d ((i, s) ∷ m) = ((d.win i).visible ≡ focus) × AllVisible focus d m

  show_all_lem :
      (focus : Bool) (m : List (WindowId × Shift)) (d : Desktop Screen Saved)
      → IsOpen d
      → (e : Desktop Screen Saved) × (show_all dev focus m d ≡ some e)
        × IsOpen e
        × (e.focus ≡ d.focus)
        × (e.cwmmap ≡ d.cwmmap)
        × ((j : WindowId) → (d.win j).visible ≡ focus → (e.win j).visible ≡ focus)
        × AllVisible focus e m
  unfolding show_all
  show_all_lem focus [] d ok = (d, refl, ok, refl, refl, (λ j h. h), tt)
  show_all_lem focus ((i, s) ∷ m) d ok =
      let (w, t, turned, new, seen, _) = turn focus i d ok.opened (ok.drawable i) in
      let c = changed laws d i w t in
      let (e, rest, ok', same_focus, same_map, kept, all) =
        show_all_lem focus m c (changed-IsOpen d i w t ok new) in
      (
        e,
        bind_some _ turned ∙ rest,
        ok',
        same_focus,
        same_map,
        (λ j h. kept j (changed_visible d i j w t focus seen h)),
        (kept i (ap (λ (v : Window Saved). v.visible) (if_true _ _ (same_refl i)) ∙ seen), all),
      )

  -- The windows that the manager knows, and there is one, are visible exactly while it has the
  -- focus.
  pub record IsReady (d : Desktop Screen Saved) : Type 0 where
    pub is_open : IsOpen d
    pub known : is_empty d.cwmmap ≡ false
    pub in_step : AllVisible d.focus d d.cwmmap

  not_differ : (a b : Bool) → (differ a b && true) ≡ false → b ≡ a
  not_differ a b h = ground arith

  -- From a desktop with a device, where every window lies on the screen, what is saved of the
  -- windows and below them fits, and the windows that the manager knows are visible exactly while
  -- it has the focus, `set_focus` succeeds, sets the focus, and leaves such a desktop: so the
  -- windows that the manager knows are then all visible, or all hidden, as the focus says.
  pub set_focus-IsReady :
      (focus : Bool) (d : Desktop Screen Saved)
      → IsReady d
      → (e : Desktop Screen Saved) × (set_focus dev focus d ≡ some e)
        × IsReady e
        × (e.focus ≡ focus)
        × (e.cwmmap ≡ d.cwmmap)
  unfolding set_focus
  set_focus-IsReady focus d ok = elim (Bool-cases (differ focus d.focus)) [
    | inl new ↦
        let start = record d { focus = focus } in
        let (e, done, is_open, same_focus, same_map, _, all) =
          show_all_lem focus d.cwmmap start
            (record { opened = ok.is_open.opened; drawable = ok.is_open.drawable }) in
        let acts : (differ focus d.focus && not (is_empty d.cwmmap)) ≡ true =
          rw (new, ok.known) refl in
        (
          e,
          if_true _ _ acts ∙ done,
          record {
            is_open = is_open;
            known = rw same_map ok.known;
            in_step = rw (same_map, same_focus) all;
          },
          same_focus,
          same_map,
        )
    | inr old ↦
        let rests : (differ focus d.focus && not (is_empty d.cwmmap)) ≡ false = rw old refl in
        (d, if_false _ _ rests, ok, not_differ focus d.focus (rw old refl), refl)
  ]
