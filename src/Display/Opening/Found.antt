-- ===== src/Display/Opening/Found.antt =====
-- The device that `TryOpen` of libucimf/display/fbdev.cpp finds.
use ucimf.Prelude.{
  ℕ, zero, suc, ◌+◌, ◌≤◌, ◌<◌, Bool, true, false, ◌||◌, ◌≡◌, refl, ap, ◌∙◌, ◌⊎◌, inl, inr, ◌==◌,
  ==_iff, if◌then◌else◌, arith, Option, none, some, Bool-cases,
}
use ucimf.Prelude.Int.{ℤ}
use ucimf.Display.Opening.{
  OpenRc, failure, Kernel, Statics, fb, in_fb, is_open, find_device, use_device, try_open,
}

-- One of the two names of a device can be opened, and the file that it is opened to.
abbrev pub can_open : Kernel → ℕ → Bool
can_open k i = is_open (k.open_file (fb i)) || is_open (k.open_file (in_fb i))

abbrev pub file_of : Kernel → ℕ → ℤ
file_of k i = if is_open (k.open_file (fb i)) then k.open_file (fb i) else k.open_file (in_fb i)

-- The first device of a range that can be opened.
abbrev pub IsFirst : Kernel → ℕ → ℕ → ℕ → Type 0
IsFirst k from to i =
    (from ≤ i)
    × (i < to)
    × (can_open k i ≡ true)
    × ((j : ℕ) → from ≤ j → j < i → can_open k j ≡ false)

abbrev pub AllClosed : Kernel → ℕ → ℕ → Type 0
AllClosed k from to = (j : ℕ) → from ≤ j → j < to → can_open k j ≡ false

Found : Kernel → ℕ → ℕ → Option (ℕ × ℤ) → Type 0
Found k from to r =
    ((r ≡ none) × AllClosed k from to)
    ⊎ ((i : ℕ) × (r ≡ some (i, file_of k i)) × IsFirst k from to i)

-- A device that cannot be opened comes before the range.
Found-before :
    (k : Kernel) (n from : ℕ) (r : Option (ℕ × ℤ))
    → can_open k from ≡ false
    → Found k (from + 1) (from + 1 + n) r
    → Found k from (from + suc n) r
unfolding Found
Found-before k n from r e (inl (h, closed)) = inl (h, λ j p q. at_or_after j p q)
  where
    at_or_after : (j : ℕ) → from ≤ j → j < from + suc n → can_open k j ≡ false
    at_or_after j p q = elim (Bool-cases (j == from)) [
      | inl same ↦ ap (can_open k) ((==_iff j from).0 same) ∙ e
      | inr other ↦ closed j (ground arith) (omega arith)
    ]
Found-before k n from r e (inr (i, h, (a, b, o, closed))) =
    inr (i, h, (omega arith, omega arith, o, at_or_after))
  where
    at_or_after : (j : ℕ) → from ≤ j → j < i → can_open k j ≡ false
    at_or_after j p q = elim (Bool-cases (j == from)) [
      | inl same ↦ ap (can_open k) ((==_iff j from).0 same) ∙ e
      | inr other ↦ closed j (ground arith) q
    ]

find_device-Found :
    (k : Kernel) (n from : ℕ) (last : ℤ) → Found k from (from + n) (find_device k n from last).0
unfolding find_device Found
find_device-Found k zero from last = inl (refl, λ j p q. absurd (omega arith))
find_device-Found k (suc n) from last = elim (Bool-cases (can_open k from)) [
  | inl e ↦ inr (from, ground arith, (omega arith, omega arith, e, λ j p q. absurd (omega arith)))
  | inr e ↦
      let second = k.open_file (in_fb from) in
      let moved : (find_device k (suc n) from last).0 ≡ (find_device k n (from + 1) second).0 =
        ground arith in
      rw moved (Found-before k n from _ e (find_device-Found k n (from + 1) second))
]

-- What `TryOpen` does with the device that it finds.
pub try_open-cases :
    (k : Kernel) (s : Statics)
    → (AllClosed k 0 32 × ((t : Statics) × (try_open k s ≡ some (failure, t))))
      ⊎ ((i : ℕ) × IsFirst k 0 32 i
          × (try_open k s
              ≡ use_device k (k.screen_info (file_of k i)) (record s { fd = file_of k i })))
unfolding try_open Found
try_open-cases k s = elim (find_device-Found k 32 0 s.fd) [
  | inl (e, closed) ↦ inl (closed, (_, ap chosen e))
  | inr (i, e, first) ↦ inr (i, first, ap chosen e)
]
  where
    chosen : Option (ℕ × ℤ) → Option (OpenRc × Statics)
    chosen r = elim r [
      | none ↦ some (failure, record s { fd = (find_device k 32 0 s.fd).1 })
      | some (i, fd) ↦ use_device k (k.screen_info fd) (record s { fd = fd })
    ]
