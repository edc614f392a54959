-- ===== src/Window/Resize.antt =====
-- `Window::wh`, `Window::measure` and `GraphPort::setPseudo`, which call the window manager.
use ucimf.Prelude.{
  Bool, true, false, not, ◌&&◌, ◌||◌, Option, none, some, ◌≡◌, if◌then◌else◌, ◌>>=◌, ap, ◌∙◌,
  if_true, if_false, bind_some,
}
use ucimf.Prelude.Int.{ℤ, pos, ltb_ℤ}
use ucimf.Display.{GraphDev}
use ucimf.Window.{
  WindowId, Window, Shift, status_shift, preedit_shift, lookup_choice_shift, Desktop, put, shift_of,
  hide, show_again, xy,
}
use ucimf.Window.Buffers.{same_refl, put-put}
use ucimf.Cwm.{place_x, place_y, move_window, update_shift, update}

module _ {Screen Saved : Type 0} where
  abbrev pub set_flag : WindowId → Bool → Desktop Screen Saved → Desktop Screen Saved
  set_flag i flag d = put d i (record (d.win i) { pseudo = flag })

module _ {Screen Saved : Type 0} (dev : GraphDev Screen Saved) where
  -- `wm->update(this)`, where the window has a manager.
  abbrev notify : WindowId → Desktop Screen Saved → Option (Desktop Screen Saved)
  notify i d = if (d.win i).managed then update dev i d else some d

  unfoldable pub wh : WindowId → ℤ → ℤ → Desktop Screen Saved → Option (Desktop Screen Saved)
  wh i width height d =
      hide dev i d
      >>= (λ e. notify i (put e i (record (e.win i) { width = width; height = height })))
      >>= show_again dev (d.win i).visible i

  unfoldable pub measure : WindowId → ℤ → ℤ → Desktop Screen Saved → Option (Desktop Screen Saved)
  measure i max_x max_y d =
      let w = d.win i in
      if ltb_ℤ w.width max_x || ltb_ℤ w.height max_y
      then wh i (if ltb_ℤ w.width max_x then max_x else w.width)
          (if ltb_ℤ w.height max_y then max_y else w.height) d
      else some d

  unfoldable pub set_pseudo : WindowId → Bool → Desktop Screen Saved → Option (Desktop Screen Saved)
  set_pseudo i flag d =
      if not (d.win i).pseudo && flag
      then wh i (pos 0) (pos 0) d >>= (λ e. some (set_flag i flag e))
      else some (set_flag i flag d)

-- The gaps of a shift.
abbrev pub gap_x : Shift → ℤ
gap_x (status_shift x y) = x
gap_x (preedit_shift x y) = x
gap_x (lookup_choice_shift x y) = x

abbrev pub gap_y : Shift → ℤ
gap_y (status_shift x y) = y
gap_y (preedit_shift x y) = y
gap_y (lookup_choice_shift x y) = y

module _ {Screen Saved : Type 0} where
  -- The window, of the given size, where the shift puts it.
  abbrev pub placed : Shift → ℤ → ℤ → Desktop Screen Saved → Window Saved → Window Saved
  placed s width height d w = record w {
    width = width;
    height = height;
    pos_x = place_x d.cursor_x width d.xres (gap_x s);
    pos_y = place_y d.cursor_y height d.yres (gap_y s);
  }

  -- A hidden window that the manager knows by this shift.
  pub record IsHidden (d : Desktop Screen Saved) (i : WindowId) (s : Shift) : Type 0 where
    pub hidden : (d.win i).visible ≡ false
    pub is_managed : (d.win i).managed ≡ true
    pub known : shift_of i d.cwmmap ≡ some s

module _ {Screen Saved : Type 0} (dev : GraphDev Screen Saved) where
  xy_hidden :
      (i : WindowId) (x y : ℤ) (d : Desktop Screen Saved) (w : Window Saved)
      → d.win i ≡ w
      → w.visible ≡ false
      → xy dev i x y d ≡ some (put d i (record w { pos_x = x; pos_y = y }))
  unfolding xy hide
  xy_hidden i x y d w is v = rw (← is) (
      let v' : (d.win i).visible ≡ false = rw (← is) at v in
      bind_some _ (if_false _ _ v') ∙ if_false _ _ v')

  update_shift_hidden :
      (s : Shift) (i : WindowId) (d : Desktop Screen Saved) (w : Window Saved)
      → d.win i ≡ w
      → w.visible ≡ false
      → update_shift dev s i d ≡ some (put d i (placed s w.width w.height d w))
  unfolding update_shift move_window
  update_shift_hidden (status_shift gx gy) i d w is v = rw is (xy_hidden i _ _ d w is v)
  update_shift_hidden (preedit_shift gx gy) i d w is v = rw is (xy_hidden i _ _ d w is v)
  update_shift_hidden (lookup_choice_shift gx gy) i d w is v = rw is (xy_hidden i _ _ d w is v)

  -- A hidden window that is given a size takes it, and is put where its shift wants a window of
  -- that size; nothing else changes, and no device is needed.
  pub wh_hidden :
      (i : WindowId) (width height : ℤ) (s : Shift) (d : Desktop Screen Saved)
      → IsHidden d i s
      → wh dev i width height d ≡ some (put d i (placed s width height d (d.win i)))
  unfolding wh hide update
  wh_hidden i width height s d h =
      let w : Window Saved = record (d.win i) { width = width; height = height } in
      let is : (put d i w).win i ≡ w = if_true _ _ (same_refl i) in
      let moved = update_shift_hidden s i (put d i w) w is h.hidden in
      let updated : update dev i (put d i w)
          ≡ some (put (put d i w) i (placed s width height d w)) =
        ap (λ o. elim o [ none ↦ none | some t ↦ update_shift dev t i (put d i w) ]) h.known
        ∙ moved in
      let told : notify dev i (put d i w) ≡ some (put (put d i w) i (placed s width height d w)) =
        if_true _ _ (ap (λ (v : Window Saved). v.managed) is ∙ h.is_managed) ∙ updated in
      bind_some _ (bind_some _ (if_false _ _ h.hidden) ∙ told)
      ∙ if_false _ _ h.hidden
      ∙ ap some (put-put d i w _)
