-- ===== src/Tests/Keyboard.antt =====
-- Tests for the keyboard part of libucimf/src/ucimf.cpp.
use ucimf.Prelude.{
  ◌+◌, true, false, [], ◌∷◌, ◌++◌, none, some, ◌≡◌, ◌==◌, refl, arith, if◌then◌else◌,
}
use ucimf.Keyboard.{Kernel, Keyboard, keysym, kt_shift, kt_latin, k_caps, init_keycode_state}
use ucimf.Keyboard.Keysym.{keycode_to_keysym}
use ucimf.Keyboard.Utf8.{to_utf8, decode_utf8, decode_utf8-to_utf8}
use ucimf.Keyboard.Modifiers.{IsCounted, type_keys, type_keys-IsCounted, IsModifier, press_release}
use ucimf.Keyboard.Scan.{scan, encode, encode_all, scan-encode_all}

-- A shift key at 42, caps lock at 58, and letters.
abbrev pub kernel : Kernel
kernel = record {
  kb_entry = λ table kc.
      if kc == 42
      then some (keysym kt_shift 0)
      else if kc == 58
      then some k_caps
      else some (keysym kt_latin (kc + 67));
  func_string = λ n. [];
  meta_flag = 3;
  led_state = record { scroll = false; num = true; caps = false };
}

abbrev pub idle : Keyboard
idle = record {
  key_down = λ kc. kc == 30;
  shift_down = λ v. 0;
  shift_state = λ v. false;
  lock_state = record { scroll = false; num = true; caps = false };
  cr_with_lf = false;
  applic_keypad = false;
  cursor_esco = false;
  npadch = none;
}

decode_utf8-to_utf8_example : decode_utf8 (to_utf8 0x4e2d ++ 65 ∷ []) ≡ some (0x4e2d, 65 ∷ [])
decode_utf8-to_utf8_example = decode_utf8-to_utf8 0x4e2d (65 ∷ []) (omega arith)

type_keys-IsCounted_example :
    IsCounted
      (type_keys kernel
        (init_keycode_state kernel idle)
        ((42, true) ∷ (30, true) ∷ (42, false) ∷ []))
      0
type_keys-IsCounted_example =
    type_keys-IsCounted kernel idle ((42, true) ∷ (30, true) ∷ (42, false) ∷ []) 0

shift_at_42 : IsModifier kernel 42 0
shift_at_42 = record { in_range = omega arith; value_range = omega arith; mapped = λ table. refl }

press_release_example :
    let pressed = (keycode_to_keysym kernel idle 42 true).0 in
    let released = (keycode_to_keysym kernel pressed 42 false).0 in
    (pressed.shift_state 0 ≡ true)
    × (released.shift_down 2 ≡ idle.shift_down 2)
    × (released.shift_state 2 ≡ idle.shift_state 2)
    × (released.lock_state ≡ idle.lock_state)
press_release_example =
    press_release kernel idle 42 0 2 shift_at_42 refl (omega arith)
      (record { agrees = refl; fits = omega arith })

scan-encode_all_example :
    scan none (encode_all ((30, true) ∷ (200, true) ∷ []) ++ encode (30, false)) ≡ some (30, false)
scan-encode_all_example =
    scan-encode_all none ((30, true) ∷ (200, true) ∷ []) (30, false)
      ((omega arith, omega arith), ((omega arith, omega arith), tt)) (omega arith, omega arith)
