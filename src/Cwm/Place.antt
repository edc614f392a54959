-- ===== src/Cwm/Place.antt =====
-- Where the window manager puts a window.
use ucimf.Prelude.{ℕ, true, false, ◌≡◌, ◌↔◌, ◌⊎◌, inl, inr, arith, Bool-cases}
use ucimf.Prelude.Int.{ℤ, pos, ◌+ℤ◌, ◌-ℤ◌, ◌≤ℤ◌, ltb_ℤ, int_laws, +ℤ_parts, eq_of_parts}
use ucimf.Display.{Area, on_screen}
use ucimf.Cwm.{place_x, place_y}

ltb_ℤ-true : (a b : ℤ) → ltb_ℤ a b ≡ true → a +ℤ pos 1 ≤ℤ b
ltb_ℤ-true a b h = ground (arith, +ℤ_parts a (pos 1))

ltb_ℤ-false : (a b : ℤ) → ltb_ℤ a b ≡ false → b ≤ℤ a
ltb_ℤ-false a b h = ground arith

-- The right edge of a placed window stays 16 pixels inside the screen, for every cursor, width,
-- screen and gap; and its left edge is on the screen, if the cursor and the gap are not negative
-- and the window fits between those edges.
place_x_bounds :
    (x width xres gap : ℤ)
    → (place_x x width xres gap +ℤ width ≤ℤ xres -ℤ pos 16)
      × (pos 0 ≤ℤ x → pos 0 ≤ℤ gap → width ≤ℤ xres -ℤ pos 16 → pos 0 ≤ℤ place_x x width xres gap)
unfolding place_x
place_x_bounds x width xres gap =
    elim (Bool-cases (ltb_ℤ (pos 0) (x +ℤ width -ℤ (xres -ℤ pos 16) +ℤ gap))) [
      | inl over ↦ rw over (omega int_laws, λ hx hg hw. omega int_laws)
      | inr fits ↦ rw fits (
        (let h = ltb_ℤ-false (pos 0) (x +ℤ width -ℤ (xres -ℤ pos 16) +ℤ gap) fits in
            omega int_laws),
        λ hx hg hw. omega int_laws,
      )
    ]

-- Room for the window below the cursor, or above it.
abbrev pub FitsBelow : ℤ → ℤ → ℤ → ℤ → Type 0
FitsBelow y height yres gap = y +ℤ gap +ℤ height ≤ℤ yres -ℤ pos 16

abbrev pub FitsAbove : ℤ → ℤ → ℤ → Type 0
FitsAbove y height gap = gap +ℤ height ≤ℤ y

-- Below the cursor if it fits there, or else above.
abbrev pub IsPlaced : ℤ → ℤ → ℤ → ℤ → ℤ → Type 0
IsPlaced y height yres gap top =
    (FitsBelow y height yres gap × (top ≡ y +ℤ gap))
    ⊎ (¬ FitsBelow y height yres gap × (top ≡ y -ℤ gap -ℤ height))

-- A window that fits below the cursor, 16 pixels inside the screen, is put there at the gap, and
-- any other is put at the gap above the cursor. So its bottom is 16 pixels inside the screen, and
-- its top is on the screen exactly if there is room below or above; for a cursor that is not
-- negative and 16 pixels inside the screen, and a gap that is not negative.
pub place_y_bounds :
    (y height yres gap : ℤ)
    → pos 0 ≤ℤ y
    → y ≤ℤ yres -ℤ pos 16
    → pos 0 ≤ℤ gap
    → IsPlaced y height yres gap (place_y y height yres gap)
      × (place_y y height yres gap +ℤ height ≤ℤ yres -ℤ pos 16)
      × ((pos 0 ≤ℤ place_y y height yres gap)
          ↔ (FitsBelow y height yres gap ⊎ FitsAbove y height gap))
unfolding place_y
place_y_bounds y height yres gap hy hb hg =
    elim (Bool-cases (ltb_ℤ (pos 0) (y +ℤ height -ℤ (yres -ℤ pos 16) +ℤ gap))) [
      | inl over ↦
          let o = ltb_ℤ-true (pos 0) (y +ℤ height -ℤ (yres -ℤ pos 16) +ℤ gap) over in
          rw over (
            inr ((λ h. omega int_laws), eq_of_parts _ _ (omega int_laws)),
            omega int_laws,
            (
              (λ h. inr (omega int_laws)),
              elim [ inl below ↦ absurd (omega int_laws) | inr above ↦ omega int_laws ],
            ),
          )
      | inr fits ↦
          let f = ltb_ℤ-false (pos 0) (y +ℤ height -ℤ (yres -ℤ pos 16) +ℤ gap) fits in
          rw fits (
            inl (omega int_laws, eq_of_parts _ _ (omega int_laws)),
            omega int_laws,
            ((λ h. inl (omega int_laws)), λ h. omega int_laws),
          )
    ]

on_screen_iff :
    (xres yres : ℕ) (a : Area)
    → (on_screen xres yres a ≡ true) ↔ (
        (pos 0 ≤ℤ a.x1)
        × (pos 0 ≤ℤ a.y1)
        × (a.x2 +ℤ pos 1 ≤ℤ pos xres)
        × (a.y2 +ℤ pos 1 ≤ℤ pos yres)
        × (a.x1 ≤ℤ a.x2)
        × (a.y1 ≤ℤ a.y2))
unfolding on_screen
on_screen_iff xres yres a = (
  (λ h. ground (arith, +ℤ_parts a.x2 (pos 1), +ℤ_parts a.y2 (pos 1))),
  λ h. ground (arith, +ℤ_parts a.x2 (pos 1), +ℤ_parts a.y2 (pos 1)),
)
