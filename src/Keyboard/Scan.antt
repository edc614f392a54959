-- ===== src/Keyboard/Scan.antt =====
-- The loop of `ucimf_process_raw` in libucimf/src/ucimf.cpp over the codes read in medium raw mode,
-- against the kernel's encoding of key events.
use ucimf.Prelude.{
  ℕ, ◌+◌, ◌*◌, ◌/◌, ◌%◌, ◌≤◌, ◌<◌, Bool, true, false, not, ◌&&◌, List, [], ◌∷◌, ◌++◌, Option, some,
  ◌≡◌, refl, ◌∙◌, inl, inr, arith, Bool-cases, ltb, leb, ◌==◌, if◌then◌else◌, Bytes, All,
}
use mathlib.Core.List.{append-nil, append_assoc}

-- `b & 0x80`, and `b & 0x7f` is `b % 128`.
abbrev pub top_bit : ℕ → Bool
top_bit b = leb 128 (b % 256)

-- A key event: its keycode and whether the key goes down.
abbrev pub Event : Type 0
Event = ℕ × Bool

-- The test for a long code, `i + 2 < n` being the shape of the list.
abbrev pub is_long : ℕ → ℕ → ℕ → Bool
is_long a b c = (a % 128 == 0) && top_bit b && top_bit c

abbrev pub long_event : ℕ → ℕ → ℕ → Event
long_event a b c = (b % 128 * 128 + c % 128, not (top_bit a))

abbrev pub short_event : ℕ → Event
short_event a = (a % 128, not (top_bit a))

-- `kc` and `down` after the loop, from their values before it; `none` where no round has set them.
unfoldable pub scan : Option Event → Bytes → Option Event
scan last [] = last
scan last (a ∷ []) = some (short_event a)
scan last (a ∷ b ∷ []) = some (short_event b)
scan last (a ∷ b ∷ c ∷ r) =
    let after_long = scan (some (long_event a b c)) r in
    let after_short = scan (some (short_event a)) (b ∷ c ∷ r) in
    if is_long a b c then after_long else after_short

abbrev pub up_bit : Bool → ℕ
up_bit down = if down then 0 else 128

-- What the kernel sends for an event: one byte, or three for a keycode above 127.
abbrev pub encode : Event → Bytes
encode (kc, down) =
    if ltb kc 128
    then (kc + up_bit down) ∷ []
    else up_bit down ∷ (128 + kc / 128) ∷ (128 + kc % 128) ∷ []

abbrev pub encode_all : List Event → Bytes
encode_all [] = []
encode_all (e ∷ es) = encode e ++ encode_all es

abbrev pub IsEvent : Event → Type 0
IsEvent (kc, down) = (1 ≤ kc) × (kc < 16384)

short_event_lem : (kc : ℕ) (down : Bool) → kc < 128 → short_event (kc + up_bit down) ≡ (kc, down)
short_event_lem kc true h = ground arith
short_event_lem kc false h = ground arith

not-is_long :
    (kc b c : ℕ) (down : Bool) → 1 ≤ kc → kc < 128 → is_long (kc + up_bit down) b c ≡ false
not-is_long kc b c true h k = ground arith
not-is_long kc b c false h k = ground arith

is_long_lem :
    (kc : ℕ) (down : Bool)
    → kc < 16384
    → is_long (up_bit down) (128 + kc / 128) (128 + kc % 128) ≡ true
is_long_lem kc true h = ground arith
is_long_lem kc false h = ground arith

long_event_lem :
    (kc : ℕ) (down : Bool)
    → kc < 16384
    → long_event (up_bit down) (128 + kc / 128) (128 + kc % 128) ≡ (kc, down)
long_event_lem kc true h = ground arith
long_event_lem kc false h = ground arith

scan_short :
    (last : Option Event) (kc : ℕ) (down : Bool) (rest : Bytes)
    → 1 ≤ kc
    → kc < 128
    → scan last ((kc + up_bit down) ∷ rest) ≡ scan (some (kc, down)) rest
unfolding scan
scan_short last kc down [] h k = rw (short_event_lem kc down k)
scan_short last kc down (b ∷ []) h k = refl
scan_short last kc down (b ∷ c ∷ r) h k =
    rw (not-is_long kc b c down h k, short_event_lem kc down k)

scan_long :
    (last : Option Event) (kc : ℕ) (down : Bool) (rest : Bytes)
    → kc < 16384
    → scan last (up_bit down ∷ (128 + kc / 128) ∷ (128 + kc % 128) ∷ rest)
      ≡ scan (some (kc, down)) rest
unfolding scan
scan_long last kc down rest k = rw (is_long_lem kc down k, long_event_lem kc down k)

scan-encode :
    (last : Option Event) (e : Event) (rest : Bytes)
    → IsEvent e
    → scan last (encode e ++ rest) ≡ scan (some e) rest
scan-encode last (kc, down) rest (h, k) = elim (Bool-cases (ltb kc 128)) [
  | inl short ↦ rw short (scan_short last kc down rest h (ground arith))
  | inr long ↦ rw long (scan_long last kc down rest k)
]

-- Of the events that one read delivers, the loop keeps the last only: after the codes of any
-- events, each with a keycode from 1 to 16383, and of one more, its result is that one.
pub scan-encode_all :
    (last : Option Event) (es : List Event) (e : Event)
    → All IsEvent es
    → IsEvent e
    → scan last (encode_all es ++ encode e) ≡ some e
scan-encode_all last [] e h k =
    rw (← append-nil (encode e)) (scan-encode last e [] k ∙ unfold scan in refl)
scan-encode_all last (d ∷ es) e h k =
    rw (append_assoc (encode d) (encode_all es) (encode e))
      (scan-encode last d (encode_all es ++ encode e) h.0 ∙ scan-encode_all (some d) es e h.1 k)
