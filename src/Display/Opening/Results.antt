-- ===== src/Display/Opening/Results.antt =====
-- The results of `TryOpen` of libucimf/display/fbdev.cpp.
use native.Mathlib.Decide.{dec_lt}
use ucimf.Prelude.{
  ℕ, ◌/◌, ◌<◌, true, false, ◌≡◌, refl, sym, ap, ◌∙◌, ◌↔◌, inl, inr, ◌==◌, if◌then◌else◌, if_true,
  if_false, arith, Option, none, some, Bool-cases, some_inj,
}
use ucimf.Display.Opening.{
  OpenRc, normal, unsupport, failure, Driver, planes_of_vga, Kernel, Statics, ScreenInfo,
  driver_for, line_of, construct, set_screen, try_open,
}
use ucimf.Display.Opening.Found.{IsFirst, AllClosed, file_of, try_open-cases}
use ucimf.Display.Opening.Outcomes.{left_out, divided, taken, use_device-Outcome, use_device-vga}

two_results :
    (a b : OpenRc) (u v : Statics) (r : Option (OpenRc × Statics))
    → r ≡ some (a, u)
    → r ≡ some (b, v)
    → a ≡ b
two_results a b u v r e f = ap (λ (p : OpenRc × Statics). p.0) (some_inj (sym e ∙ f))

no_result :
    (a : OpenRc) (u : Statics) (r : Option (OpenRc × Statics)) → r ≡ some (a, u) → r ≡ none → ⊥
no_result a u r e f =
    let g : ◌≡◌ {A = Option (OpenRc × Statics)} (some (a, u)) none = sym e ∙ f in cc

-- `TryOpen` fails just when none of the 64 names of the 32 devices can be opened.
try_open-failure :
    (k : Kernel) (s : Statics)
    → ((t : Statics) × (try_open k s ≡ some (failure, t))) ↔ AllClosed k 0 32
try_open-failure k s = (closed, failed)
  where
    closed : ((t : Statics) × (try_open k s ≡ some (failure, t))) → AllClosed k 0 32
    closed (t, e) = elim (try_open-cases k s) [
      | inl (all, _) ↦ all
      | inr (i, first, f) ↦
          let device = k.screen_info (file_of k i) in
          elim (use_device-Outcome k device (record s { fd = file_of k i })) [
            | left_out _ g ↦ let same = two_results failure unsupport _ _ _ e (f ∙ g) in absurd (cc)
            | divided _ _ _ g ↦ absurd (no_result failure _ _ e (f ∙ g))
            | taken d u _ _ g ↦ let same = two_results failure normal _ _ _ e (f ∙ g) in absurd (cc)
          ]
    ]

    failed : AllClosed k 0 32 → (t : Statics) × (try_open k s ≡ some (failure, t))
    failed all = elim (try_open-cases k s) [
      | inl (_, r) ↦ r
      | inr (i, (_, lt, can, _), _) ↦
          let no_way : true ≡ false = sym can ∙ all i (omega arith) lt in absurd (cc)
    ]

first_unique : (k : Kernel) (n i j : ℕ) → IsFirst k 0 n i → IsFirst k 0 n j → i ≡ j
first_unique k n i j (_, _, open_i, below_i) (_, _, open_j, below_j) = elim (dec_lt i j) [
  | yes lt ↦ let no_way : true ≡ false = sym open_i ∙ below_j i (omega arith) lt in absurd (cc)
  | no ge ↦ elim (dec_lt j i) [
    | yes lt ↦ let no_way : true ≡ false = sym open_j ∙ below_i j (omega arith) lt in absurd (cc)
    | no le ↦ omega arith
  ]
]

-- `TryOpen` divides by zero just when it is built with USING_VGA and the first device that can be
-- opened has VGA planes with less than eight bits to a pixel.
try_open-none :
    (k : Kernel) (s : Statics)
    → (try_open k s ≡ none) ↔ (
        (k.using_vga ≡ true)
        × (i : ℕ) × IsFirst k 0 32 i
        × ((k.screen_info (file_of k i)).type_ ≡ planes_of_vga)
        × ((k.screen_info (file_of k i)).bits_per_pixel < 8))
try_open-none k s = (cause, crash)
  where
    cause :
        try_open k s ≡ none
        → (k.using_vga ≡ true)
          × (i : ℕ) × IsFirst k 0 32 i
          × ((k.screen_info (file_of k i)).type_ ≡ planes_of_vga)
          × ((k.screen_info (file_of k i)).bits_per_pixel < 8)
    cause e = elim (try_open-cases k s) [
      | inl (_, (t, f)) ↦ absurd (no_result failure t _ f e)
      | inr (i, first, f) ↦
          let device = k.screen_info (file_of k i) in
          elim (use_device-Outcome k device (record s { fd = file_of k i })) [
            | left_out _ g ↦ absurd (no_result unsupport _ _ (f ∙ g) e)
            | divided built vga small g ↦ (built, i, first, vga, small)
            | taken d u _ _ g ↦ absurd (no_result normal _ _ (f ∙ g) e)
          ]
    ]

    crash :
        ((k.using_vga ≡ true)
          × (i : ℕ) × IsFirst k 0 32 i
          × ((k.screen_info (file_of k i)).type_ ≡ planes_of_vga)
          × ((k.screen_info (file_of k i)).bits_per_pixel < 8))
        → try_open k s ≡ none
    crash (built, i, first, vga, small) = elim (try_open-cases k s) [
      | inl (all, _) ↦
          let (_, lt, can, _) = first in
          let no_way : true ≡ false = sym can ∙ all i (omega arith) lt in absurd (cc)
      | inr (j, other, f) ↦
          let same = first_unique k 32 i j first other in
          f
          ∙ use_device-vga k (k.screen_info (file_of k j)) (record s { fd = file_of k j }) built
              (rw (← same) vga) (rw (← same) small)
    ]

-- `TryOpen` fails just when none of the 64 names of the 32 devices can be opened, and it divides by
-- zero just when it is built with USING_VGA and the first device that can be opened has VGA planes
-- with less than eight bits to a pixel.
pub try_open-errors :
    (k : Kernel) (s : Statics)
    → (((t : Statics) × (try_open k s ≡ some (failure, t))) ↔ AllClosed k 0 32)
      × ((try_open k s ≡ none) ↔ (
          (k.using_vga ≡ true)
          × (i : ℕ) × IsFirst k 0 32 i
          × ((k.screen_info (file_of k i)).type_ ≡ planes_of_vga)
          × ((k.screen_info (file_of k i)).bits_per_pixel < 8)))
try_open-errors k s = (try_open-failure k s, try_open-none k s)

-- The variables behind an opening, for the screen and the driver.
pub record IsOpened (k : Kernel) (i : ScreenInfo) (s : Statics) (d : Driver) (t : Statics)
    : Type 0 where
  pub driver : t.graph_dev ≡ some d
  pub width : t.xres ≡ i.line_length / (i.bits_per_pixel / 8)
  pub height : t.yres ≡ i.yres
  pub mapping : t.mapped ≡ k.can_map t.fd t.buf_len
  pub line : t.next_line ≡ (
      if t.mapped
      then (if s.next_line == 0 then line_of d s.xres else s.next_line)
      else i.line_length)

set_screen-IsOpened :
    (k : Kernel) (i : ScreenInfo) (s : Statics) (d : Driver) (t : Statics)
    → set_screen k i (construct d s) ≡ some t
    → IsOpened k i s d t × (t.fd ≡ s.fd)
unfolding set_screen construct
set_screen-IsOpened k i s d t e = elim (Bool-cases (i.bits_per_pixel / 8 == 0)) [
  | inl crash ↦ let no_way : none ≡ some t = sym (if_true _ _ crash) ∙ e in absurd (cc)
  | inr size ↦
      let same = some_inj (sym (if_false _ _ size) ∙ e) in
      rw (← same)
        (record { driver = refl; width = refl; height = refl; mapping = refl; line = refl }, refl)
]

-- Where `TryOpen` returns NORMAL, the first device that can be opened has a driver for its type and
-- its bits per pixel, and the width and the height are those of the device. The driver is
-- constructed before the width is known: the length of a line is the one that it computes of the
-- width of before, or what it was if that was not 0, unless the mapping fails; only then it is the
-- length of a line of the device.
pub try_open-normal :
    (k : Kernel) (s t : Statics)
    → try_open k s ≡ some (normal, t)
    → (i : ℕ) × (d : Driver) × IsFirst k 0 32 i
      × (driver_for k.using_vga (k.screen_info (file_of k i)).type_ (k.screen_info (file_of k i))
          ≡ some d)
      × (t.fd ≡ file_of k i)
      × IsOpened k (k.screen_info (file_of k i)) (record s { fd = file_of k i }) d t
try_open-normal k s t e = elim (try_open-cases k s) [
  | inl (_, (u, f)) ↦ let same = two_results normal failure _ _ _ e f in absurd (cc)
  | inr (i, first, f) ↦
      let device = k.screen_info (file_of k i) in
      elim (use_device-Outcome k device (record s { fd = file_of k i })) [
        | left_out _ g ↦ let same = two_results normal unsupport _ _ _ e (f ∙ g) in absurd (cc)
        | divided _ _ _ g ↦ absurd (no_result normal _ _ e (f ∙ g))
        | taken d u chosen done g ↦
            let same : t ≡ u = ap (λ (p : OpenRc × Statics). p.1) (some_inj (sym e ∙ f ∙ g)) in
            let (is, file) = set_screen-IsOpened k device _ d u done in
            (i, d, first, chosen, ap (λ (v : Statics). v.fd) same ∙ file, rw same is)
      ]
]
