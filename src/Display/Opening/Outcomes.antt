-- ===== src/Display/Opening/Outcomes.antt =====
-- The results of `LinearSet` and `TryOpen` of libucimf/display/fbdev.cpp, by what it does with a device.
use ucimf.Prelude.{
  ℕ, ◌/◌, ◌<◌, Bool, true, ◌≡◌, refl, ap, ◌∙◌, inl, inr, ◌==◌, if_true, arith, Option, none, some,
  ◌>>=◌, Option-cases, bind_some,
}
use ucimf.Display.Opening.{
  OpenRc, normal, unsupport, Driver, vga_planes, FbType, planes_of_vga, packed_pixels, Kernel,
  Statics, ScreenInfo, linear_set, driver_for, construct, set_screen, use_device,
}

-- Only VGA planes have a driver with less than a byte to a pixel.
driver_small :
    (b : Bool) (i : ScreenInfo) (d : Driver)
    → driver_for b i.type_ i ≡ some d
    → i.bits_per_pixel / 8 ≡ 0
    → (b ≡ true) × (i.type_ ≡ planes_of_vga)
unfolding driver_for linear_set
driver_small b i d e h = small i.type_ e
  where
    small : (f : FbType) → driver_for b f i ≡ some d → (b ≡ true) × (f ≡ planes_of_vga)
    small packed_pixels e = absurd (ground arith)
    small FbType.planes e = absurd (ground arith)
    small FbType.interleaved_planes e = absurd (ground arith)
    small FbType.text e = absurd (ground arith)
    small planes_of_vga e = (ground arith, refl)
    small FbType.unknown e = absurd (ground arith)

set_screen-none :
    (k : Kernel) (i : ScreenInfo) (s : Statics) → set_screen k i s ≡ none → i.bits_per_pixel / 8 ≡ 0
unfolding set_screen
set_screen-none k i s e = ground arith

-- What becomes of a device that was found.
pub data Outcome (k : Kernel) (i : ScreenInfo) (s : Statics) (r : Option (OpenRc × Statics))
    : Type 0 where
  left_out : driver_for k.using_vga i.type_ i ≡ none → r ≡ some (unsupport, s) → Outcome k i s r
  divided :
      k.using_vga ≡ true
      → i.type_ ≡ planes_of_vga
      → i.bits_per_pixel < 8
      → r ≡ none
      → Outcome k i s r
  taken :
      (d : Driver) (t : Statics)
      → driver_for k.using_vga i.type_ i ≡ some d
      → set_screen k i (construct d s) ≡ some t
      → r ≡ some (normal, t)
      → Outcome k i s r

-- The screen is set for the driver that was chosen.
pub use_device-driver :
    (k : Kernel) (i : ScreenInfo) (s : Statics) (d : Driver)
    → driver_for k.using_vga i.type_ i ≡ some d
    → use_device k i s ≡ (set_screen k i (construct d s) >>= λ t. some (normal, t))
unfolding use_device
use_device-driver k i s d e = ap chosen e
  where
    chosen : Option Driver → Option (OpenRc × Statics)
    chosen o = elim o [
      | none ↦ some (unsupport, s)
      | some d ↦ set_screen k i (construct d s) >>= λ t. some (normal, t)
    ]

use_device-none :
    (k : Kernel) (i : ScreenInfo) (s : Statics)
    → driver_for k.using_vga i.type_ i ≡ none
    → use_device k i s ≡ some (unsupport, s)
unfolding use_device
use_device-none k i s e = ap chosen e
  where
    chosen : Option Driver → Option (OpenRc × Statics)
    chosen o = elim o [
      | none ↦ some (unsupport, s)
      | some d ↦ set_screen k i (construct d s) >>= λ t. some (normal, t)
    ]

pub use_device-Outcome :
    (k : Kernel) (i : ScreenInfo) (s : Statics) → Outcome k i s (use_device k i s)
use_device-Outcome k i s = elim (Option-cases (driver_for k.using_vga i.type_ i)) [
  | inl e ↦ left_out e (use_device-none k i s e)
  | inr (d, e) ↦ elim (Option-cases (set_screen k i (construct d s))) [
    | inl no_size ↦
        let h = set_screen-none k i (construct d s) no_size in
        let (built, vga) = driver_small k.using_vga i d e h in
        divided built vga (omega arith)
          (use_device-driver k i s d e ∙ ap (λ o. o >>= λ t. some (normal, t)) no_size)
    | inr (t, done) ↦ taken d t e done (use_device-driver k i s d e ∙ bind_some _ done)
  ]
]

pub use_device-vga :
    (k : Kernel) (i : ScreenInfo) (s : Statics)
    → k.using_vga ≡ true
    → i.type_ ≡ planes_of_vga
    → i.bits_per_pixel < 8
    → use_device k i s ≡ none
unfolding set_screen driver_for
use_device-vga k i s b e h =
    use_device-driver k i s vga_planes (ap (λ f. driver_for k.using_vga f i) e ∙ if_true _ _ b)
    ∙ ap (λ o. o >>= λ t. some (normal, t)) (if_true _ _ (no_size (i.bits_per_pixel) h))
  where
    no_size : (n : ℕ) → n < 8 → (n / 8 == 0) ≡ true
    no_size n h = ground arith
