-- ===== src/Cwm.antt =====
-- libucimf/src/cwm.cpp: the window manager, which keeps the windows near the text cursor. The order
-- in which its map is walked, by address, is that of the parameter `address`.
pub mod Place
pub mod Focus
pub mod Move
pub mod Position
use ucimf.Prelude.{
  ℕ, Bool, true, false, not, ◌&&◌, ◌||◌, Option, none, some, ltb, if◌then◌else◌, List, [], ◌∷◌,
  ◌>>=◌,
}
use ucimf.Prelude.Int.{ℤ, pos, ◌+ℤ◌, ◌-ℤ◌, ltb_ℤ, eqb_ℤ}
use ucimf.Display.{GraphDev}
use ucimf.Window.{
  WindowId, same, Window, Shift, status_shift, preedit_shift, lookup_choice_shift, Desktop, put,
  shift_of, show, hide, xy,
}

abbrev pub neg : ℤ → ℤ
neg a = pos 0 -ℤ a

-- One coordinate of the horizontal rule: the cursor, the window's extent, the screen's, the gap.
unfoldable pub place_x : ℤ → ℤ → ℤ → ℤ → ℤ
place_x x width xres gap =
    let over = x +ℤ width -ℤ (xres -ℤ pos 16) in
    x +ℤ (if ltb_ℤ (pos 0) (over +ℤ gap) then neg over else gap)

-- The vertical rule: below the cursor, or above it where there is no room below.
unfoldable pub place_y : ℤ → ℤ → ℤ → ℤ → ℤ
place_y y height yres gap =
    let over = y +ℤ height -ℤ (yres -ℤ pos 16) in
    y +ℤ (if ltb_ℤ (pos 0) (over +ℤ gap) then neg gap -ℤ height else gap)

abbrev pub is_empty : List (WindowId × Shift) → Bool
is_empty [] = true
is_empty (e ∷ m) = false

abbrev pub differ : Bool → Bool → Bool
differ true b = not b
differ false b = b

-- `cwmmap[w] = s`, at its place in the order of the addresses.
unfoldable pub insert_shift :
    (WindowId → ℕ) → WindowId → Shift → List (WindowId × Shift) → List (WindowId × Shift)
insert_shift address i s [] = (i, s) ∷ []
insert_shift address i s ((j, t) ∷ m) =
    if same i j
    then (i, s) ∷ m
    else if ltb (address i) (address j)
    then (i, s) ∷ (j, t) ∷ m
    else (j, t) ∷ insert_shift address i s m

module _ {Screen Saved : Type 0} (dev : GraphDev Screen Saved) where
  -- The body that the three classes' `update` share.
  unfoldable pub move_window :
      ℤ → ℤ → WindowId → Desktop Screen Saved → Option (Desktop Screen Saved)
  move_window x_gap y_gap i d =
      xy dev i (place_x d.cursor_x (d.win i).width d.xres x_gap)
        (place_y d.cursor_y (d.win i).height d.yres y_gap) d

  -- `Shift::update`, by the object's class.
  unfoldable pub update_shift :
      Shift → WindowId → Desktop Screen Saved → Option (Desktop Screen Saved)
  update_shift (status_shift x_gap y_gap) i d = move_window x_gap y_gap i d
  update_shift (preedit_shift x_gap y_gap) i d = move_window x_gap y_gap i d
  update_shift (lookup_choice_shift x_gap y_gap) i d = move_window x_gap y_gap i d

  -- `Cwm::update`; a window that is not in the map gets a null shift, which is then used.
  unfoldable pub update : WindowId → Desktop Screen Saved → Option (Desktop Screen Saved)
  update i d = elim (shift_of i d.cwmmap) [ none ↦ none | some s ↦ update_shift s i d ]

  unfoldable pub update_all :
      List (WindowId × Shift) → Desktop Screen Saved → Option (Desktop Screen Saved)
  update_all [] d = some d
  update_all ((i, s) ∷ m) d = update_shift s i d >>= update_all m

  unfoldable pub set_position : ℤ → ℤ → Desktop Screen Saved → Option (Desktop Screen Saved)
  set_position x y d =
      if not (eqb_ℤ x d.cursor_x) || not (eqb_ℤ y d.cursor_y)
      then update_all d.cwmmap (record d { cursor_x = x; cursor_y = y })
      else some d

  unfoldable pub show_all :
      Bool → List (WindowId × Shift) → Desktop Screen Saved → Option (Desktop Screen Saved)
  show_all focus [] d = some d
  show_all focus ((i, s) ∷ m) d =
      (if focus then show dev i d else hide dev i d) >>= show_all focus m

  unfoldable pub set_focus : Bool → Desktop Screen Saved → Option (Desktop Screen Saved)
  set_focus focus d =
      if differ focus d.focus && not (is_empty d.cwmmap)
      then show_all focus d.cwmmap (record d { focus = focus })
      else some d

  unfoldable pub attach_window :
      (WindowId → ℕ) → WindowId → Shift → Desktop Screen Saved → Desktop Screen Saved
  attach_window address i s d =
      let w = record (d.win i) { managed = true } in
      record (put d i w) { cwmmap = insert_shift address i s d.cwmmap }
