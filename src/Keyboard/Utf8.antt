-- ===== src/Keyboard/Utf8.antt =====
-- `to_utf8` of libucimf/src/ucimf.cpp.
use Prim.Native.Nat.{bit_or}
use native.Mathlib.Decide.{dec_lt}
use ucimf.Prelude.{
  ℕ, zero, suc, ◌+◌, ◌-◌, ◌*◌, ◌/◌, ◌%◌, ◌≤◌, ◌<◌, Bool, true, ◌&&◌, [], ◌∷◌, ◌++◌, Option, none,
  some, ◌≡◌, ◌≢◌, ◌⊎◌, refl, arith, ltb, leb, ◌==◌, ==_iff, if◌then◌else◌, Bytes, All, length,
  all_below, all_below_sound,
}

-- The bytes that the function writes; `c >> k` is division by 2 ^ k, and `x & 0x3f` is `x % 64`.
unfoldable pub to_utf8 : ℕ → Bytes
to_utf8 c =
    if ltb c 0x80
    then c ∷ []
    else if ltb c 0x800
    then bit_or 0xc0 (c / 64) ∷ bit_or 0x80 (c % 64) ∷ []
    else if ltb c 0x10000
    then if leb 0xd800 c && ltb c 0xe000
      then []
      else if c == 0xffff
      then []
      else bit_or 0xe0 (c / 4096) ∷ bit_or 0x80 (c / 64 % 64) ∷ bit_or 0x80 (c % 64) ∷ []
    else if ltb c 0x200000
    then bit_or 0xf0 (c / 262144)
      ∷ bit_or 0x80 (c / 4096 % 64)
      ∷ bit_or 0x80 (c / 64 % 64)
      ∷ bit_or 0x80 (c % 64)
      ∷ []
    else []

or_table2 : all_below 32 (λ x. bit_or 0xc0 x == 0xc0 + x) ≡ true
unfolding all_below
or_table2 = refl

or_table3 : all_below 16 (λ x. bit_or 0xe0 x == 0xe0 + x) ≡ true
unfolding all_below
or_table3 = refl

or_table4 : all_below 8 (λ x. bit_or 0xf0 x == 0xf0 + x) ≡ true
unfolding all_below
or_table4 = refl

or_table_tail : all_below 64 (λ x. bit_or 0x80 x == 0x80 + x) ≡ true
unfolding all_below
or_table_tail = refl

pub or_lead2 : (x : ℕ) → x < 32 → bit_or 0xc0 x ≡ 0xc0 + x
or_lead2 x h = (==_iff _ _).0 (all_below_sound 32 _ x or_table2 h)

pub or_lead3 : (x : ℕ) → x < 16 → bit_or 0xe0 x ≡ 0xe0 + x
or_lead3 x h = (==_iff _ _).0 (all_below_sound 16 _ x or_table3 h)

pub or_lead4 : (x : ℕ) → x < 8 → bit_or 0xf0 x ≡ 0xf0 + x
or_lead4 x h = (==_iff _ _).0 (all_below_sound 8 _ x or_table4 h)

pub or_tail : (x : ℕ) → bit_or 0x80 (x % 64) ≡ 0x80 + x % 64
or_tail x = (==_iff _ _).0 (all_below_sound 64 _ (x % 64) or_table_tail (omega arith))

-- A code point that UTF-8 and this code can carry.
abbrev pub IsCarried : ℕ → Type 0
IsCarried c = (c < 0xd800) ⊎ ((0xe000 ≤ c) × (c < 0x200000) × (c ≢ 0xffff))

abbrev is_tail : ℕ → Bool
is_tail b = leb 0x80 b && ltb b 0xc0

-- An independent reading of UTF-8: the range of the first byte says how many tail bytes follow,
-- each gives six bits, and the rest of the input is handed back.
unfoldable pub read_tails : ℕ → ℕ → Bytes → Option (ℕ × Bytes)
read_tails zero acc r = some (acc, r)
read_tails (suc n) acc [] = none
read_tails (suc n) acc (b ∷ r) = if is_tail b then read_tails n (acc * 64 + (b - 0x80)) r else none

unfoldable pub decode_utf8 : Bytes → Option (ℕ × Bytes)
decode_utf8 [] = none
decode_utf8 (a ∷ r) =
    if ltb a 0x80
    then some (a, r)
    else if ltb a 0xc0
    then none
    else if ltb a 0xe0
    then read_tails 1 (a - 0xc0) r
    else if ltb a 0xf0
    then read_tails 2 (a - 0xe0) r
    else if ltb a 0xf8
    then read_tails 3 (a - 0xf0) r
    else none

decode_one : (c : ℕ) (rest : Bytes) → c < 0x80 → decode_utf8 (to_utf8 c ++ rest) ≡ some (c, rest)
unfolding decode_utf8 to_utf8
decode_one c rest h = ground arith

decode_two :
    (c : ℕ) (rest : Bytes) → 0x80 ≤ c → c < 0x800 → decode_utf8 (to_utf8 c ++ rest) ≡ some (c, rest)
unfolding decode_utf8 to_utf8 read_tails
decode_two c rest h k = ground (arith, or_lead2 (c / 64), or_tail c)

decode_three :
    (c : ℕ) (rest : Bytes)
    → 0x800 ≤ c
    → c < 0x10000
    → IsCarried c
    → decode_utf8 (to_utf8 c ++ rest) ≡ some (c, rest)
unfolding decode_utf8 to_utf8 read_tails
decode_three c rest h k i = ground (arith, or_lead3 (c / 4096), or_tail (c / 64), or_tail c)

decode_four :
    (c : ℕ) (rest : Bytes)
    → 0x10000 ≤ c
    → c < 0x200000
    → decode_utf8 (to_utf8 c ++ rest) ≡ some (c, rest)
unfolding decode_utf8 to_utf8 read_tails
decode_four c rest h k =
    ground (arith, or_lead4 (c / 262144), or_tail (c / 4096), or_tail (c / 64), or_tail c)

-- What is written for a code point is read back as that code point, with the bytes behind it left
-- over: for every code point below 0x200000 that is no surrogate and not 0xffff.
pub decode_utf8-to_utf8 :
    (c : ℕ) (rest : Bytes) → IsCarried c → decode_utf8 (to_utf8 c ++ rest) ≡ some (c, rest)
decode_utf8-to_utf8 c rest i = elim (dec_lt c 0x80) [
  | yes p ↦ decode_one c rest p
  | no p ↦ elim (dec_lt c 0x800) [
    | yes q ↦ decode_two c rest (omega arith) q
    | no q ↦ elim (dec_lt c 0x10000) [
      | yes r ↦ decode_three c rest (omega arith) r i
      | no r ↦ decode_four c rest (omega arith) (omega arith)
    ]
  ]
]

to_utf8_none : (c : ℕ) → ¬ IsCarried c → to_utf8 c ≡ []
unfolding to_utf8
to_utf8_none c n = ground arith

length-to_utf8 : (c : ℕ) → IsCarried c → (1 ≤ length (to_utf8 c)) × (length (to_utf8 c) ≤ 4)
unfolding to_utf8
length-to_utf8 c i = ground arith

to_utf8_bytes : (c : ℕ) → All (λ b. b < 256) (to_utf8 c)
unfolding to_utf8
to_utf8_bytes c = ground (
  arith,
  or_lead2 (c / 64),
  or_lead3 (c / 4096),
  or_lead4 (c / 262144),
  or_tail (c / 4096),
  or_tail (c / 64),
  or_tail c,
)

-- A code point that cannot be carried leaves no byte, one that can leaves one to four, and every
-- byte is below 256.
to_utf8_bounds :
    (c : ℕ)
    → (¬ IsCarried c → to_utf8 c ≡ [])
      × (IsCarried c → (1 ≤ length (to_utf8 c)) × (length (to_utf8 c) ≤ 4))
      × All (λ b. b < 256) (to_utf8 c)
to_utf8_bounds c = (to_utf8_none c, length-to_utf8 c, to_utf8_bytes c)
