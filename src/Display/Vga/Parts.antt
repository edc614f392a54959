-- ===== src/Display/Vga/Parts.antt =====
-- The three parts of a line in libucimf/display/fbvgaplanes.cpp: the first byte, the whole bytes and the
-- last one make up the run of its pixels.
use native.Mathlib.Decide.{dec_lt}
use ucimf.Prelude.{
  ℕ, ◌+◌, ◌-◌, ◌*◌, ◌%◌, ◌≤◌, ◌<◌, true, false, ◌&&◌, ◌||◌, ◌≡◌, sym, ap, ◌∙◌, ◌⊎◌, inl, inr, ltb,
  leb, ◌==◌, if◌then◌else◌, arith, Bool-cases,
}
use ucimf.Display.Vga.{left, right, mid_bytes, left_mask, right_mask}
use ucimf.Display.Vga.Masks.{bit-left_mask, bit-right_mask}
use ucimf.Display.Vga.Runs.{Pixels, in_byte, in_bytes}

-- A run of pixels in the order of the memory.
abbrev pub in_run : ℕ → ℕ → Pixels
in_run from n b k = leb from (8 * b + k) && ltb (8 * b + k) (from + n)

-- The pixels of the three parts of a line.
abbrev pub in_left : ℕ → ℕ → ℕ → Pixels
in_left x1 w dest = in_byte (left_mask (left x1) w) dest

abbrev pub past_left : ℕ → ℕ → ℕ
past_left x1 dest = if left x1 == 0 then dest else dest + 1

abbrev pub in_right : ℕ → ℕ → ℕ → Pixels
in_right x1 w dest = in_byte (right_mask (right x1 w)) dest

left_part :
    (x1 w dest b k : ℕ)
    → k < 8
    → in_left x1 w dest b k ≡ (b == dest && (leb (8 - left x1) k && ltb k (8 - left x1 + w)))
left_part x1 w dest b k lt =
    ap (λ r. b == dest && r) (bit-left_mask (left x1) w k (ground arith) lt)

right_part :
    (x1 w dest b k : ℕ) → k < 8 → in_right x1 w dest b k ≡ (b == dest && ltb k (right x1 w))
right_part x1 w dest b k lt =
    ap (λ r. b == dest && r) (bit-right_mask (right x1 w) k (ground arith) lt)

-- The split of a width into the three parts.
IsSplit : ℕ → ℕ → ℕ → ℕ → Type 0
IsSplit l r m w = ((w ≤ l) × (r ≡ 0) × (m ≡ 0)) ⊎ ((l < w) × (r < 8) × (w ≡ l + 8 * m + r))

split : (x1 w : ℕ) → IsSplit (left x1) (right x1 w) (mid_bytes x1 w) w
unfolding IsSplit
split x1 w = elim (dec_lt (left x1) w) [
  | yes h ↦ inr (h, ground arith, ground arith)
  | no h ↦ inl (ground arith, ground arith, ground arith)
]

-- The pixels that the first byte leaves out, and those that it holds.
IsFirst : ℕ → ℕ → Type 0
IsFirst q l = ((l ≡ 0) × (q ≡ 0)) ⊎ ((l + q ≡ 8) × (0 < q) × (0 < l))

first : (x1 : ℕ) → IsFirst (x1 % 8) (left x1)
unfolding IsFirst
first x1 = elim (dec_lt 0 (x1 % 8)) [
  | yes h ↦ inr (ground arith, h, ground arith)
  | no h ↦ inl (ground arith, ground arith)
]

-- Together they are the run of the line.
line_run :
    (q l r m w dest b k : ℕ)
    → k < 8
    → IsFirst q l
    → IsSplit l r m w
    → (((b == dest && (leb (8 - l) k && ltb k (8 - l + w)))
          || in_bytes m (if l == 0 then dest else dest + 1) b k)
        || (b == (if l == 0 then dest else dest + 1) + m && ltb k r))
      ≡ in_run (8 * dest + q) w b k
unfolding IsSplit IsFirst
line_run q l r m w dest b k lt (inl (s, t)) (inl (h, e, f)) = ground arith
line_run q l r m w dest b k lt (inl (s, t)) (inr (h, e, f)) = ground arith
line_run q l r m w dest b k lt (inr (s, t, u)) (inl (h, e, f)) = ground arith
line_run q l r m w dest b k lt (inr (s, t, u)) (inr (h, e, f)) = ground arith

pub parts :
    (x1 w dest b k : ℕ)
    → k < 8
    → ((in_left x1 w dest b k || in_bytes (mid_bytes x1 w) (past_left x1 dest) b k)
        || in_right x1 w (past_left x1 dest + mid_bytes x1 w) b k)
      ≡ in_run (8 * dest + x1 % 8) w b k
parts x1 w dest b k lt =
    ap
      (λ p.
        (p || in_bytes (mid_bytes x1 w) (past_left x1 dest) b k)
        || in_right x1 w (past_left x1 dest + mid_bytes x1 w) b k)
      (left_part x1 w dest b k lt)
    ∙ ap
        (λ p.
          ((b == dest && (leb (8 - left x1) k && ltb k (8 - left x1 + w)))
            || in_bytes (mid_bytes x1 w) (past_left x1 dest) b k)
          || p)
        (right_part x1 w (past_left x1 dest + mid_bytes x1 w) b k lt)
    ∙ line_run (x1 % 8) (left x1) (right x1 w) (mid_bytes x1 w) w dest b k lt (first x1)
        (split x1 w)

-- A part that is left out selects no pixel.
pub no_left : (x1 w dest b k : ℕ) → left x1 ≡ 0 → k < 8 → in_left x1 w dest b k ≡ false
no_left x1 w dest b k e lt = left_part x1 w dest b k lt ∙ ground arith

pub no_right : (x1 w dest b k : ℕ) → right x1 w ≡ 0 → k < 8 → in_right x1 w dest b k ≡ false
no_right x1 w dest b k e lt = right_part x1 w dest b k lt ∙ ground arith

pub below_past : (x1 w dest b k : ℕ) → k < 8 → in_left x1 w dest b k ≡ true → b < past_left x1 dest
below_past x1 w dest b k lt h = elim (dec_lt 0 (left x1)) [
  | yes p ↦ ground arith
  | no p ↦ let none : true ≡ false = sym h ∙ no_left x1 w dest b k (ground arith) lt in cc
]

pub at_least : (n dest b : ℕ) → in_bytes n dest b 0 ≡ true → (dest ≤ b) × (b < dest + n)
at_least n dest b h = ground arith

pub at_last : (mask dest b k : ℕ) → in_byte mask dest b k ≡ true → b ≡ dest
at_last mask dest b k h = ground arith

pub before_last :
    (x1 w dest b k : ℕ)
    → k < 8
    → (in_left x1 w dest b k || in_bytes (mid_bytes x1 w) (past_left x1 dest) b k) ≡ true
    → b < past_left x1 dest + mid_bytes x1 w
before_last x1 w dest b k lt h = elim (Bool-cases (in_left x1 w dest b k)) [
  | inl p ↦ omega (arith, below_past x1 w dest b k lt p)
  | inr p ↦
      (at_least (mid_bytes x1 w) (past_left x1 dest) b
        (sym (ap (λ r. r || in_bytes (mid_bytes x1 w) (past_left x1 dest) b k) p) ∙ h)).1
]
