-- ===== src/Keyboard/Locks.antt =====
-- The lock lights: what a press of a lock key does.
use ucimf.Prelude.{ℕ, ◌<◌, true, false, not, some, ◌≡◌, ◌⊎◌, ◌∙◌, arith, ◌==◌, if◌then◌else◌}
use ucimf.Keyboard.{Kernel, Keyboard, Leds, update, kb_table, k_caps, k_barenumlock}
use ucimf.Keyboard.Keysym.{find_entry, toggle, spec_key, apply_key, apply_entry, keycode_to_keysym}

-- In every table the key has the lock symbol `sym`.
pub record IsLock (k : Kernel) (keycode sym : ℕ) : Type 0 where
  pub in_range : keycode < 256
  pub lock_symbol : (sym ≡ k_caps) ⊎ (sym ≡ k_barenumlock)
  pub mapped : (table : ℕ) → k.kb_entry table keycode ≡ some sym

find_entry-IsLock :
    (k : Kernel) (s : Keyboard) (keycode sym : ℕ)
    → IsLock k keycode sym
    → find_entry k s keycode ≡ some sym
unfolding find_entry
find_entry-IsLock k s keycode sym m =
    ground (arith, m.mapped (kb_table s.shift_state), m.lock_symbol)

-- The light that the symbol stands for, flipped.
abbrev pub flipped : Leds → ℕ → Leds
flipped l sym =
    if sym == k_caps then record l { caps = not l.caps } else record l { num = not l.num }

lock_press :
    (k : Kernel) (s : Keyboard) (keycode sym : ℕ)
    → IsLock k keycode sym
    → s.key_down keycode ≡ false
    → ((keycode_to_keysym k s keycode true).0.lock_state ≡ flipped s.lock_state sym)
      × ((keycode_to_keysym k s keycode true).0.key_down keycode ≡ true)
unfolding keycode_to_keysym apply_entry apply_key spec_key toggle
lock_press k s keycode sym m up = ground (
  arith,
  find_entry-IsLock k (record s { key_down = update s.key_down keycode true }) keycode sym m,
)

lock_release :
    (k : Kernel) (s : Keyboard) (keycode sym : ℕ)
    → IsLock k keycode sym
    → ((keycode_to_keysym k s keycode false).0.lock_state ≡ s.lock_state)
      × ((keycode_to_keysym k s keycode false).0.key_down keycode ≡ false)
unfolding keycode_to_keysym apply_entry apply_key spec_key
lock_release k s keycode sym m = ground (
  arith,
  find_entry-IsLock k (record s { key_down = update s.key_down keycode false }) keycode sym m,
)

flipped_twice : (l : Leds) (sym : ℕ) → flipped (flipped l sym) sym ≡ l
flipped_twice l sym = ground arith

-- One press of a lock key that was up flips its light and no other; the release flips none; so two
-- presses with their releases leave the lights as they were.
lock_twice :
    (k : Kernel) (s : Keyboard) (keycode sym : ℕ)
    → IsLock k keycode sym
    → s.key_down keycode ≡ false
    → let s1 = (keycode_to_keysym k s keycode true).0 in
      let s2 = (keycode_to_keysym k s1 keycode false).0 in
      let s3 = (keycode_to_keysym k s2 keycode true).0 in
      (s1.lock_state ≡ flipped s.lock_state sym)
      × (s2.lock_state ≡ s1.lock_state)
      × (s3.lock_state ≡ s.lock_state)
lock_twice k s keycode sym m up =
    let s1 = (keycode_to_keysym k s keycode true).0 in
    let s2 = (keycode_to_keysym k s1 keycode false).0 in
    let p1 = lock_press k s keycode sym m up in
    let p2 = lock_release k s1 keycode sym m in
    let p3 = lock_press k s2 keycode sym m p2.1 in
    (p1.0, p2.0, p3.0 ∙ rw (p2.0, p1.0) (flipped_twice s.lock_state sym))
