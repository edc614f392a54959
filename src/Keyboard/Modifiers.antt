-- ===== src/Keyboard/Modifiers.antt =====
-- The modifier counts and the bits that the keymap tables are chosen by.
use ucimf.Prelude.{
  ℕ, ◌<◌, Bool, true, false, ◌&&◌, List, [], ◌∷◌, Option, none, some, ◌≡◌, refl, arith, ltb,
  if◌then◌else◌,
}
use ucimf.Keyboard.{Kernel, Keyboard, update, init_keycode_state, keysym, kt_shift, kb_table, kval}
use ucimf.Keyboard.Keysym.{
  find_entry, spec_key, count_modifier, shift_key, apply_key, apply_entry, keycode_to_keysym,
}

-- A bit of `shift_state` is set exactly while its count is not 0, and every count fits a char.
pub record IsCounted (s : Keyboard) (v : ℕ) : Type 0 where
  pub agrees : s.shift_state v ≡ ltb 0 (s.shift_down v)
  pub fits : s.shift_down v < 256

count_modifier-IsCounted :
    (s : Keyboard) (value : ℕ) (down : Bool) (v : ℕ)
    → IsCounted s v
    → IsCounted (count_modifier s value down) v
unfolding count_modifier
count_modifier-IsCounted s value down v h = ground arith

apply_key-IsCounted :
    (s : Keyboard) (sym : ℕ) (down rep : Bool) (v : ℕ)
    → IsCounted s v
    → IsCounted (apply_key s sym down rep) v
unfolding apply_key spec_key shift_key
apply_key-IsCounted s sym down rep v h = ground (
  arith,
  count_modifier-IsCounted s (kval sym) down v,
  count_modifier-IsCounted s 0 down v,
  count_modifier-IsCounted (record s { lock_state = record s.lock_state { caps = false } }) 0 down
      v,
)

apply_entry-IsCounted :
    (s : Keyboard) (e : Option ℕ) (down rep : Bool) (v : ℕ)
    → IsCounted s v
    → IsCounted (apply_entry s e down rep).0 v
unfolding apply_entry
apply_entry-IsCounted s none down rep v h = h
apply_entry-IsCounted s (some sym) down rep v h =
    ground (arith, apply_key-IsCounted s sym down rep v h)

keycode_to_keysym-IsCounted :
    (k : Kernel) (s : Keyboard) (keycode : ℕ) (down : Bool) (v : ℕ)
    → IsCounted s v
    → IsCounted (keycode_to_keysym k s keycode down).0 v
unfolding keycode_to_keysym
keycode_to_keysym-IsCounted k s keycode down v h = ground (
  arith,
  apply_entry-IsCounted (record s { key_down = update s.key_down keycode down })
      (find_entry k (record s { key_down = update s.key_down keycode down }) keycode) down
      (down && s.key_down keycode) v,
)

-- A sequence of key events, each a keycode and whether the key goes down.
abbrev pub type_keys : Kernel → Keyboard → List (ℕ × Bool) → Keyboard
type_keys k s [] = s
type_keys k s ((keycode, down) ∷ es) = type_keys k (keycode_to_keysym k s keycode down).0 es

type_keys-keep :
    (k : Kernel) (s : Keyboard) (es : List (ℕ × Bool)) (v : ℕ)
    → IsCounted s v
    → IsCounted (type_keys k s es) v
type_keys-keep k s [] v h = h
type_keys-keep k s ((keycode, down) ∷ es) v h =
    type_keys-keep k (keycode_to_keysym k s keycode down).0 es v
      (keycode_to_keysym-IsCounted k s keycode down v h)

-- After the initialisation and any sequence of key events, under any keymap, a modifier's bit in
-- `shift_state` is set exactly while its count is not 0, and the count is below 256.
pub type_keys-IsCounted :
    (k : Kernel) (s : Keyboard) (es : List (ℕ × Bool)) (v : ℕ)
    → IsCounted (type_keys k (init_keycode_state k s) es) v
unfolding init_keycode_state
type_keys-IsCounted k s es v =
    type_keys-keep k (init_keycode_state k s) es v (record { agrees = refl; fits = omega arith })

-- In every table the key is the modifier `value`, and no caps shift.
pub record IsModifier (k : Kernel) (keycode value : ℕ) : Type 0 where
  pub in_range : keycode < 256
  pub value_range : value < 8
  pub mapped : (table : ℕ) → k.kb_entry table keycode ≡ some (keysym kt_shift value)

find_entry-IsModifier :
    (k : Kernel) (s : Keyboard) (keycode value : ℕ)
    → IsModifier k keycode value
    → find_entry k s keycode ≡ some (keysym kt_shift value)
unfolding find_entry
find_entry-IsModifier k s keycode value m = ground (arith, m.mapped (kb_table s.shift_state))

keycode_to_keysym-IsModifier :
    (k : Kernel) (s : Keyboard) (keycode value : ℕ) (down : Bool)
    → IsModifier k keycode value
    → keycode_to_keysym k s keycode down ≡ (
      (if down && s.key_down keycode
          then record s { key_down = update s.key_down keycode down }
          else count_modifier (record s { key_down = update s.key_down keycode down }) value down),
      keysym kt_shift value,
    )
unfolding keycode_to_keysym apply_entry apply_key shift_key
keycode_to_keysym-IsModifier k s keycode value down m = ground (
  arith,
  find_entry-IsModifier k (record s { key_down = update s.key_down keycode down }) keycode value m,
)

-- Pressing a modifier key that was up, and releasing it, leaves every modifier count, every bit of
-- `shift_state` and the locks as they were, and the bit is set in between: for a key that is the
-- same modifier in every table, whose count is below 255 and agrees with its bit.
pub press_release :
    (k : Kernel) (s : Keyboard) (keycode value v : ℕ)
    → IsModifier k keycode value
    → s.key_down keycode ≡ false
    → s.shift_down value < 255
    → IsCounted s value
    → let pressed = (keycode_to_keysym k s keycode true).0 in
      let released = (keycode_to_keysym k pressed keycode false).0 in
      (pressed.shift_state value ≡ true)
      × (released.shift_down v ≡ s.shift_down v)
      × (released.shift_state v ≡ s.shift_state v)
      × (released.lock_state ≡ s.lock_state)
unfolding count_modifier
press_release k s keycode value v m up room counted = ground (
  arith,
  keycode_to_keysym-IsModifier k s keycode value true m,
  keycode_to_keysym-IsModifier k (keycode_to_keysym k s keycode true).0 keycode value false m,
)

apply_entry_repeat :
    (s : Keyboard) (e : Option ℕ) → apply_entry s e true true ≡ (s, (apply_entry s e true true).1)
unfolding apply_entry apply_key spec_key shift_key
apply_entry_repeat s none = refl
apply_entry_repeat s (some v) = ground arith

-- An auto-repeated press, of a key that is already down, changes no modifier count, no bit of
-- `shift_state` and no lock, whatever the keymap.
repeat_keeps :
    (k : Kernel) (s : Keyboard) (keycode : ℕ)
    → s.key_down keycode ≡ true
    → let t = (keycode_to_keysym k s keycode true).0 in
      (t.shift_down ≡ s.shift_down)
      × (t.shift_state ≡ s.shift_state)
      × (t.lock_state ≡ s.lock_state)
unfolding keycode_to_keysym
repeat_keeps k s keycode h = ground (
  arith,
  apply_entry_repeat (record s { key_down = update s.key_down keycode true })
      (find_entry k (record s { key_down = update s.key_down keycode true }) keycode),
)
