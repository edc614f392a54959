-- ===== src/OpenVanilla/Utf16.antt =====
-- `UTF16ToUTF8` and `UTF8ToUTF16` of ucimf-openvanilla/src/openvanilla.cpp. `none` is a read past
-- the input, or a write past the 1024 places of the result.
use Prim.Native.Nat.{bit_or}
use ucimf.Prelude.{
  ℕ, ◌+◌, ◌-◌, ◌*◌, ◌/◌, ◌%◌, ◌^◌, Bool, ◌||◌, Option, none, some, ltb, leb, ◌==◌, if◌then◌else◌,
  List, [], ◌∷◌, ◌++◌, ◌>>=◌, Bytes, length, c_str,
}

-- The bytes of a unit that is no high surrogate.
unfoldable pub unit_to_utf8 : ℕ → Bytes
unit_to_utf8 u =
    if ltb u 0x80
    then u ∷ []
    else if ltb u 0x800
    then bit_or 0xc0 (u / 64) ∷ bit_or 0x80 (u % 64) ∷ []
    else bit_or 0xe0 (u / 4096) ∷ bit_or 0x80 (u / 64 % 64) ∷ bit_or 0x80 (u % 64) ∷ []

-- `0x10000 - (0xd800 << 10) - 0xdc00` as an unsigned int, and the sum with it.
abbrev pub codepoint : ℕ → ℕ → ℕ
codepoint u v = (u * 1024 + v + (2 ^ 32 + 0x10000 - 0xd800 * 1024 - 0xdc00)) % 2 ^ 32

unfoldable pub pair_to_utf8 : ℕ → Bytes
pair_to_utf8 c =
    bit_or 0xf0 (c / 262144)
    ∷ bit_or 0x80 (c / 4096 % 64)
    ∷ bit_or 0x80 (c / 64 % 64)
    ∷ bit_or 0x80 (c % 64)
    ∷ []

-- The tests on the unit are `s[i] < 0x800` and `s[i] < 0xd800 || s[i] > 0xdbff`.
abbrev pub is_single : ℕ → Bool
is_single u = ltb u 0xd800 || ltb 0xdbff u

-- The loop; a high surrogate takes the next unit too, whatever it is.
unfoldable pub units_to_utf8 : List ℕ → Option Bytes
units_to_utf8 [] = some []
units_to_utf8 (u ∷ []) = if is_single u then some (unit_to_utf8 u) else none
units_to_utf8 (u ∷ v ∷ us) =
    let single = units_to_utf8 (v ∷ us) >>= (λ r. some (unit_to_utf8 u ++ r)) in
    let double = units_to_utf8 us >>= (λ r. some (pair_to_utf8 (codepoint u v) ++ r)) in
    if is_single u then single else double

abbrev pub capacity : ℕ
capacity = 1024

-- With the place for the last zero byte.
unfoldable pub utf16_to_utf8 : List ℕ → Option Bytes
utf16_to_utf8 s = units_to_utf8 s >>= λ b. if ltb (length b) capacity then some b else none

-- `& (bit7|bit6|bit5)` compared with 110, and four bits with 1110.
abbrev pub is_lead2 : ℕ → Bool
is_lead2 a = a / 32 == 6

abbrev pub is_lead3 : ℕ → Bool
is_lead3 a = a / 16 == 14

-- The fields do not overlap, so that `|` and `+=` add them.
abbrev pub unit2 : ℕ → ℕ → ℕ
unit2 a b = a / 4 % 8 * 256 + (a % 4 * 64 + b % 64)

abbrev pub unit3 : ℕ → ℕ → ℕ → ℕ
unit3 a b c = (a % 16 * 16 + b / 4 % 16) * 256 + (b % 4 * 64 + c % 64)

-- A signed char as an unsigned short.
abbrev pub unit1 : ℕ → ℕ
unit1 a = if ltb a 0x80 then a else 0xff00 + a

-- The loop over the string before its zero byte.
unfoldable pub utf8_to_units : Bytes → Option (List ℕ)
utf8_to_units [] = some []
utf8_to_units (a ∷ []) = if is_lead2 a || is_lead3 a then none else some (unit1 a ∷ [])
utf8_to_units (a ∷ b ∷ []) =
    let one = utf8_to_units (b ∷ []) >>= (λ r. some (unit1 a ∷ r)) in
    if is_lead2 a then some (unit2 a b ∷ []) else if is_lead3 a then none else one
utf8_to_units (a ∷ b ∷ c ∷ s) =
    let one = utf8_to_units (b ∷ c ∷ s) >>= (λ r. some (unit1 a ∷ r)) in
    let two = utf8_to_units (c ∷ s) >>= (λ r. some (unit2 a b ∷ r)) in
    let three = utf8_to_units s >>= (λ r. some (unit3 a b c ∷ r)) in
    if is_lead2 a then two else if is_lead3 a then three else one

unfoldable pub utf8_to_utf16 : Bytes → Option (List ℕ)
utf8_to_utf16 src =
    utf8_to_units (c_str src) >>= λ s. if leb (length s) capacity then some s else none
