-- ===== src/OpenVanilla/Convert.antt =====
-- `UTF16ToUTF8` of ucimf-openvanilla/src/openvanilla.cpp against `to_utf8` of the library.
use mathlib.Core.List.{append-nil}
use ucimf.Prelude.{
  ℕ, ◌+◌, ◌-◌, ◌/◌, ◌%◌, ◌≤◌, ◌<◌, true, false, some, ◌≡◌, ◌≢◌, ◌⊎◌, inl, inr, refl, sym, ap, ◌∙◌,
  arith, ltb, if◌then◌else◌, List, [], ◌∷◌, ◌++◌, Bytes, length, All, Bool-cases, if_true, if_false,
  bind_some,
}
use ucimf.Keyboard.Utf8.{to_utf8}
use ucimf.OpenVanilla.Utf16.{
  unit_to_utf8, codepoint, pair_to_utf8, is_single, units_to_utf8, capacity, utf16_to_utf8,
}

-- A code point that both functions carry: no surrogate, and not 0xffff.
abbrev pub IsScalar : ℕ → Type 0
IsScalar c = (c < 0xd800) ⊎ ((0xe000 ≤ c) × (c < 0x110000) × (c ≢ 0xffff))

-- UTF-16, by its definition: one unit, or ten bits behind each of two marks.
abbrev pub encode_utf16 : ℕ → List ℕ
encode_utf16 c =
    if ltb c 0x10000
    then c ∷ []
    else (0xd800 + (c - 0x10000) / 1024) ∷ (0xdc00 + (c - 0x10000) % 1024) ∷ []

abbrev pub encode_utf16_all : List ℕ → List ℕ
encode_utf16_all [] = []
encode_utf16_all (c ∷ cs) = encode_utf16 c ++ encode_utf16_all cs

abbrev pub to_utf8_all : List ℕ → Bytes
to_utf8_all [] = []
to_utf8_all (c ∷ cs) = to_utf8 c ++ to_utf8_all cs

unit_to_utf8_lem : (c : ℕ) → IsScalar c → c < 0x10000 → unit_to_utf8 c ≡ to_utf8 c
unfolding unit_to_utf8 to_utf8
unit_to_utf8_lem c s h = ground arith

codepoint_lem :
    (c : ℕ)
    → 0x10000 ≤ c
    → c < 0x110000
    → codepoint (0xd800 + (c - 0x10000) / 1024) (0xdc00 + (c - 0x10000) % 1024) ≡ c
codepoint_lem c h k = omega arith

pair_to_utf8_lem : (c : ℕ) → 0x10000 ≤ c → c < 0x110000 → pair_to_utf8 c ≡ to_utf8 c
unfolding pair_to_utf8 to_utf8
pair_to_utf8_lem c h k = ground arith

pub single_step :
    (u : ℕ) (us : List ℕ) (r : Bytes)
    → is_single u ≡ true
    → units_to_utf8 us ≡ some r
    → units_to_utf8 (u ∷ us) ≡ some (unit_to_utf8 u ++ r)
unfolding units_to_utf8
single_step u [] r one rest =
    let nothing_left : [] ≡ r = cc in
    if_true _ _ one
    ∙ ap some (sym (append-nil (unit_to_utf8 u)))
    ∙ ap (λ (t : Bytes). some (unit_to_utf8 u ++ t)) nothing_left
single_step u (v ∷ us) r one rest = if_true _ _ one ∙ bind_some _ rest

double_step :
    (u v : ℕ) (us : List ℕ) (r : Bytes)
    → is_single u ≡ false
    → units_to_utf8 us ≡ some r
    → units_to_utf8 (u ∷ v ∷ us) ≡ some (pair_to_utf8 (codepoint u v) ++ r)
unfolding units_to_utf8
double_step u v us r two rest = if_false _ _ two ∙ bind_some _ rest

encode_utf16-short : (c : ℕ) → c < 0x10000 → encode_utf16 c ≡ c ∷ []
encode_utf16-short c h = ground arith

units_to_utf8_encoded :
    (cs : List ℕ) → All IsScalar cs → units_to_utf8 (encode_utf16_all cs) ≡ some (to_utf8_all cs)
units_to_utf8_encoded [] h = unfold units_to_utf8 in refl
units_to_utf8_encoded (c ∷ cs) (s, h) = elim (Bool-cases (ltb c 0x10000)) [
  | inl short ↦
      let lt : c < 0x10000 = ground arith in
      let one : is_single c ≡ true = ground arith in
      rw (short, ← unit_to_utf8_lem c s lt)
        (single_step c (encode_utf16_all cs) (to_utf8_all cs) one (units_to_utf8_encoded cs h))
  | inr long ↦
      let le : 0x10000 ≤ c = ground arith in
      let lt : c < 0x110000 = ground arith in
      let two : is_single (0xd800 + (c - 0x10000) / 1024) ≡ false = ground arith in
      rw (long, ← pair_to_utf8_lem c le lt)
        (double_step _ _ (encode_utf16_all cs) (to_utf8_all cs) two (units_to_utf8_encoded cs h)
          ∙ ap (λ (d : ℕ). some (pair_to_utf8 d ++ to_utf8_all cs)) (codepoint_lem c le lt))
]

-- Where the result has room, `UTF16ToUTF8` turns the UTF-16 of code points into exactly what the
-- library's `to_utf8` writes for them one after the other; for any code points below 0x110000 that
-- are no surrogates and not 0xffff, whose UTF-8 is shorter than 1024 bytes.
pub utf16_to_utf8-encode_utf16 :
    (cs : List ℕ)
    → All IsScalar cs
    → length (to_utf8_all cs) < capacity
    → utf16_to_utf8 (encode_utf16_all cs) ≡ some (to_utf8_all cs)
unfolding utf16_to_utf8
utf16_to_utf8-encode_utf16 cs h room =
    let fits : ltb (length (to_utf8_all cs)) capacity ≡ true = ground arith in
    bind_some _ (units_to_utf8_encoded cs h) ∙ if_true _ _ fits
