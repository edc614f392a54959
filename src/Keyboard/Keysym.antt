-- ===== src/Keyboard/Keysym.antt =====
-- `keycode_to_keysym` of libucimf/src/ucimf.cpp: the symbol of a key event, and what the event
-- does to the modifier counts and the locks.
use ucimf.Prelude.{
  ℕ, ◌+◌, ◌-◌, ◌%◌, Bool, true, false, not, ◌&&◌, ◌||◌, Option, none, some, ltb, leb, ◌==◌,
  if◌then◌else◌,
}
use ucimf.Keyboard.{
  ktyp, kval, kt_spec, kt_shift, kt_letter, k_hole, k_caps, k_num, k_capson, k_barenumlock,
  k_nosuchmap, kg_shift, kg_capsshift, nr_shift, nr_keys, Leds, Kernel, Keyboard, update, kb_table,
}

-- The two KDGKBENT calls: the second, with the shift bit flipped, is for letters under caps lock.
unfoldable pub find_entry : Kernel → Keyboard → ℕ → Option ℕ
find_entry k s keycode = elim (k.kb_entry (kb_table s.shift_state) keycode) [
  | none ↦ none
  | some v ↦
      if ktyp v == kt_letter && s.lock_state.caps
      then k.kb_entry (kb_table (update s.shift_state kg_shift (not (s.shift_state kg_shift))))
          keycode
      else some v
]

-- The lock that a KT_SPEC symbol sets or flips.
unfoldable pub toggle : Leds → ℕ → Leds
toggle l v =
    if v == kval k_num || v == kval k_barenumlock
    then record l { num = not l.num }
    else if v == kval k_caps
    then record l { caps = not l.caps }
    else if v == kval k_capson
    then record l { caps = true }
    else l

-- `case KT_SPEC`; K_NUM does nothing while the keypad is in application mode.
unfoldable pub spec_key : Keyboard → ℕ → Bool → Bool → Keyboard
spec_key s v down rep =
    if (v == k_num && not s.applic_keypad) || v == k_barenumlock || v == k_caps || v == k_capson
    then if down && not rep then record s { lock_state = toggle s.lock_state (kval v) } else s
    else s

-- The new count of a modifier, an unsigned char.
abbrev pub count : Bool → ℕ → ℕ
count down n = if down then (n + 1) % 256 else if ltb 0 n then n - 1 else n

-- The counting, and the bit of `shift_state` that follows the count.
unfoldable pub count_modifier : Keyboard → ℕ → Bool → Keyboard
count_modifier s value down = record s {
  shift_down = update s.shift_down value (count down (s.shift_down value));
  shift_state = update s.shift_state value (ltb 0 (count down (s.shift_down value)));
}

-- K_CAPSSHIFT counts as shift, and its press ends caps lock.
unfoldable pub shift_key : Keyboard → ℕ → Bool → Bool → Keyboard
shift_key s value down rep =
    if leb nr_shift value || rep
    then s
    else if value == kg_capsshift
    then count_modifier
        (if down && s.lock_state.caps
          then record s { lock_state = record s.lock_state { caps = false } }
          else s)
        kg_shift down
    else count_modifier s value down

-- The switch on the symbol's type.
unfoldable pub apply_key : Keyboard → ℕ → Bool → Bool → Keyboard
apply_key s v down rep =
    if ktyp v == kt_spec
    then spec_key s v down rep
    else if ktyp v == kt_shift
    then shift_key s (kval v) down rep
    else s

-- The part behind the table look-up.
unfoldable pub apply_entry : Keyboard → Option ℕ → Bool → Bool → Keyboard × ℕ
apply_entry s none down rep = (s, k_hole)
apply_entry s (some v) down rep =
    if v == k_hole || v == k_nosuchmap then (s, k_hole) else (apply_key s v down rep, v)

-- The new state and the symbol, for a keycode and whether the key goes down.
unfoldable pub keycode_to_keysym : Kernel → Keyboard → ℕ → Bool → Keyboard × ℕ
keycode_to_keysym k s keycode down =
    if leb nr_keys keycode
    then (s, k_hole)
    else let marked = record s { key_down = update s.key_down keycode down } in
      apply_entry marked (find_entry k marked keycode) down (down && s.key_down keycode)
