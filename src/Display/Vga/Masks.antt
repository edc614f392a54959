-- ===== src/Display/Vga/Masks.antt =====
-- The masks of libucimf/display/fbvgaplanes.cpp: which pixels of a byte they select.
use native.Mathlib.Decide.{dec_lt}
use ucimf.Prelude.{
  ℕ, ◌+◌, ◌-◌, ◌^◌, ◌/◌, ◌≤◌, ◌<◌, Bool, true, false, ◌&&◌, ◌≡◌, refl, ◌∙◌, ap, ltb, leb, ◌==◌,
  arith, all_below, all_below_sound,
}
use ucimf.Display.Vga.{bit, left_mask, right_mask}

abbrev same : Bool → Bool → Bool
same true b = b
same false true = false
same false false = true

same_eq : (a b : Bool) → same a b ≡ true → a ≡ b
same_eq true true e = refl
same_eq true false e = cc
same_eq false true e = cc
same_eq false false e = refl

left_table :
    all_below 8 (λ n.
      all_below 8
        (λ w. all_below 8 (λ k. same (bit (left_mask n w) k) (leb (8 - n) k && ltb k (8 - n + w)))))
    ≡ true
unfolding all_below left_mask
left_table = refl

right_table : all_below 8 (λ n. all_below 8 (λ k. same (bit (right_mask n) k) (ltb k n))) ≡ true
unfolding all_below right_mask
right_table = refl

whole_table : all_below 8 (λ k. bit 255 k) ≡ true
unfolding all_below
whole_table = refl

point_table : all_below 8 (λ n. all_below 8 (λ k. same (bit (128 / 2 ^ n) k) (k == n))) ≡ true
unfolding all_below
point_table = refl

left_small :
    (n w k : ℕ)
    → n < 8
    → w < 8
    → k < 8
    → bit (left_mask n w) k ≡ (leb (8 - n) k && ltb k (8 - n + w))
left_small n w k hn hw hk =
    same_eq _ _
      (all_below_sound 8 _ k (all_below_sound 8 _ w (all_below_sound 8 _ n left_table hn) hw) hk)

-- A width past the first byte gives the mask of the width that fills it.
left_mask_wide : (n w : ℕ) → n < 8 → 8 ≤ w → left_mask n w ≡ left_mask n 7
unfolding left_mask
left_mask_wide n w h k = ground arith

pub bit-left_mask :
    (n w k : ℕ) → n < 8 → k < 8 → bit (left_mask n w) k ≡ (leb (8 - n) k && ltb k (8 - n + w))
bit-left_mask n w k hn hk = elim (dec_lt w 8) [
  | yes small ↦ left_small n w k hn small hk
  | no wide ↦
      ap (λ m. bit m k) (left_mask_wide n w hn (omega arith))
      ∙ left_small n 7 k hn (omega arith) hk
      ∙ ground arith
]

pub bit-right_mask : (n k : ℕ) → n < 8 → k < 8 → bit (right_mask n) k ≡ ltb k n
bit-right_mask n k hn hk =
    same_eq _ _ (all_below_sound 8 _ k (all_below_sound 8 _ n right_table hn) hk)

pub bit-whole : (k : ℕ) → k < 8 → bit 255 k ≡ true
bit-whole k h = all_below_sound 8 _ k whole_table h

pub bit-point : (n k : ℕ) → n < 8 → k < 8 → bit (128 / 2 ^ n) k ≡ (k == n)
bit-point n k hn hk = same_eq _ _ (all_below_sound 8 _ k (all_below_sound 8 _ n point_table hn) hk)
