-- ===== src/OpenVanilla/BothWays.antt =====
-- The two conversions of ucimf-openvanilla/src/openvanilla.cpp against each other.
use Prim.Native.Nat.{bit_or}
use ucimf.Prelude.{
  ℕ, ◌*◌, ◌/◌, ◌%◌, ◌≤◌, ◌<◌, true, false, ◌||◌, some, ◌≡◌, inl, inr, refl, ap, ◌∙◌, arith, ltb,
  leb, List, [], ◌∷◌, ◌++◌, ◌>>=◌, Bytes, length, All, Bool-cases, if_true, if_false, bind_some,
  Passes, is_char, length-append, positive-is_char, Passes-append, c_str_whole,
}
use ucimf.Keyboard.Utf8.{or_lead2, or_lead3, or_tail}
use ucimf.OpenVanilla.Convert.{single_step}
use ucimf.OpenVanilla.Utf16.{
  unit_to_utf8, is_single, units_to_utf8, capacity, utf16_to_utf8, is_lead2, is_lead3, unit1, unit2,
  unit3, utf8_to_units, utf8_to_utf16,
}

-- A unit that is no high surrogate and not zero.
abbrev pub IsUnit : ℕ → Type 0
IsUnit u = (1 ≤ u) × (u < 0x10000) × (is_single u ≡ true)

one_byte :
    (a : ℕ) (s : Bytes) (us : List ℕ)
    → a < 0x80
    → utf8_to_units s ≡ some us
    → utf8_to_units (a ∷ s) ≡ some (a ∷ us)
unfolding utf8_to_units
one_byte a [] us h e =
    let nothing_left : [] ≡ us = cc in
    let plain : (is_lead2 a || is_lead3 a) ≡ false = ground arith in
    let low : unit1 a ≡ a = ground arith in
    if_false _ _ plain
    ∙ ap (λ (u : ℕ). some (u ∷ [])) low
    ∙ ap (λ (t : List ℕ). some (a ∷ t)) nothing_left
one_byte a (b ∷ []) us h e =
    let plain2 : is_lead2 a ≡ false = ground arith in
    let plain3 : is_lead3 a ≡ false = ground arith in
    let low : unit1 a ≡ a = ground arith in
    if_false _ _ plain2 ∙ if_false _ _ plain3 ∙ bind_some _ e ∙ ap (λ (u : ℕ). some (u ∷ us)) low
one_byte a (b ∷ c ∷ s) us h e =
    let plain2 : is_lead2 a ≡ false = ground arith in
    let plain3 : is_lead3 a ≡ false = ground arith in
    let low : unit1 a ≡ a = ground arith in
    if_false _ _ plain2 ∙ if_false _ _ plain3 ∙ bind_some _ e ∙ ap (λ (u : ℕ). some (u ∷ us)) low

two_bytes :
    (a b : ℕ) (s : Bytes) (us : List ℕ)
    → is_lead2 a ≡ true
    → utf8_to_units s ≡ some us
    → utf8_to_units (a ∷ b ∷ s) ≡ some (unit2 a b ∷ us)
unfolding utf8_to_units
two_bytes a b [] us h e =
    let nothing_left : [] ≡ us = cc in
    if_true _ _ h ∙ ap (λ (t : List ℕ). some (unit2 a b ∷ t)) nothing_left
two_bytes a b (c ∷ s) us h e = if_true _ _ h ∙ bind_some _ e

three_bytes :
    (a b c : ℕ) (s : Bytes) (us : List ℕ)
    → is_lead3 a ≡ true
    → utf8_to_units s ≡ some us
    → utf8_to_units (a ∷ b ∷ c ∷ s) ≡ some (unit3 a b c ∷ us)
unfolding utf8_to_units
three_bytes a b c s us h e =
    let other : is_lead2 a ≡ false = ground arith in
    if_false _ _ other ∙ if_true _ _ h ∙ bind_some _ e

unit2_back : (u : ℕ) → u < 0x800 → unit2 (bit_or 0xc0 (u / 64)) (bit_or 0x80 (u % 64)) ≡ u
unit2_back u h = omega (arith, or_lead2 (u / 64) (omega arith), or_tail u)

unit3_back :
    (u : ℕ)
    → u < 0x10000
    → unit3 (bit_or 0xe0 (u / 4096)) (bit_or 0x80 (u / 64 % 64)) (bit_or 0x80 (u % 64)) ≡ u
unit3_back u h = omega (arith, or_lead3 (u / 4096) (omega arith), or_tail (u / 64), or_tail u)

unit_back :
    (u : ℕ) (s : Bytes) (us : List ℕ)
    → IsUnit u
    → utf8_to_units s ≡ some us
    → utf8_to_units (unit_to_utf8 u ++ s) ≡ some (u ∷ us)
unfolding unit_to_utf8
unit_back u s us (low, high, single) e = elim (Bool-cases (ltb u 0x80)) [
  | inl one ↦ rw one (one_byte u s us (ground arith) e)
  | inr more ↦ elim (Bool-cases (ltb u 0x800)) [
    | inl two ↦
        let lt : u < 0x800 = ground arith in
        let lead : is_lead2 (bit_or 0xc0 (u / 64)) ≡ true =
          ground (arith, or_lead2 (u / 64) (omega arith)) in
        rw (more, two) (two_bytes _ _ s us lead e ∙ ap (λ (v : ℕ). some (v ∷ us)) (unit2_back u lt))
    | inr three ↦
        let lead : is_lead3 (bit_or 0xe0 (u / 4096)) ≡ true =
          ground (arith, or_lead3 (u / 4096) (omega arith)) in
        rw (more, three)
          (three_bytes _ _ _ s us lead e ∙ ap (λ (v : ℕ). some (v ∷ us)) (unit3_back u high))
  ]
]

tail_char : (x : ℕ) → is_char (bit_or 0x80 (x % 64)) ≡ true
tail_char x = positive-is_char _ (omega (arith, or_tail x))

unit_chars : (u : ℕ) → IsUnit u → Passes is_char (unit_to_utf8 u)
unfolding unit_to_utf8
unit_chars u (low, high, single) = elim (Bool-cases (ltb u 0x80)) [
  | inl one ↦ rw one (positive-is_char u low, tt)
  | inr more ↦ elim (Bool-cases (ltb u 0x800)) [
    | inl two ↦
        let lead : 1 ≤ bit_or 0xc0 (u / 64) = ground (arith, or_lead2 (u / 64) (ground arith)) in
        rw (more, two) (positive-is_char _ lead, (tail_char u, tt))
    | inr three ↦
        let lead : 1 ≤ bit_or 0xe0 (u / 4096) = omega (arith, or_lead3 (u / 4096) (omega arith)) in
        rw (more, three) (positive-is_char _ lead, (tail_char (u / 64), (tail_char u, tt)))
  ]
]

length-unit_to_utf8 : (u : ℕ) → length (unit_to_utf8 u) ≤ 3
unfolding unit_to_utf8
length-unit_to_utf8 u = ground arith

length-unit_to_utf8_pos : (u : ℕ) → 1 ≤ length (unit_to_utf8 u)
unfolding unit_to_utf8
length-unit_to_utf8_pos u = ground arith

units_back :
    (us : List ℕ)
    → All IsUnit us
    → (b : Bytes) × (units_to_utf8 us ≡ some b)
      × (utf8_to_units b ≡ some us)
      × Passes is_char b
      × (length b ≤ 3 * length us)
      × (length us ≤ length b)
units_back [] h =
    ([], unfold units_to_utf8 in refl, unfold utf8_to_units in refl, tt, omega arith, omega arith)
units_back (u ∷ us) (h, hs) =
    let (b, there, back, chars, short, long) = units_back us hs in
    let sum = length-append (unit_to_utf8 u) b in
    let small = length-unit_to_utf8 u in
    let some_byte = length-unit_to_utf8_pos u in
    (
      unit_to_utf8 u ++ b,
      single_step u us b h.2 there,
      unit_back u b us h back,
      Passes-append is_char (unit_to_utf8 u) b (unit_chars u h) chars,
      omega arith,
      omega arith,
    )

-- Up to 341 UTF-16 units, none zero and none a high surrogate, are turned into UTF-8 and back into
-- the very same units, both conversions succeeding; a lone low surrogate too.
pub utf8_to_utf16-utf16_to_utf8 :
    (us : List ℕ) → All IsUnit us → length us ≤ 341 → (utf16_to_utf8 us >>= utf8_to_utf16) ≡ some us
unfolding utf16_to_utf8 utf8_to_utf16
utf8_to_utf16-utf16_to_utf8 us h room =
    let (b, there, back, chars, short, long) = units_back us h in
    let fits : ltb (length b) capacity ≡ true = ground arith in
    let fits_back : leb (length us) capacity ≡ true = ground arith in
    bind_some utf8_to_utf16 (bind_some _ there ∙ if_true _ _ fits)
    ∙ bind_some _ (ap utf8_to_units (c_str_whole b chars) ∙ back)
    ∙ if_true _ _ fits_back
