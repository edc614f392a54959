-- ===== src/Keyboard/Pad.antt =====
-- Typing a code point on the keypad with Alt held, and the keypad as cursor keys.
use ucimf.Prelude.{
  ℕ, ◌+◌, ◌*◌, ◌<◌, Bool, true, false, List, [], ◌∷◌, Option, none, some, ◌≡◌, refl, arith, ◌==◌,
  if◌then◌else◌, All,
}
use ucimf.Keyboard.{ktyp, kval, keysym, kt_pad, kt_ascii, kt_shift, Kernel, Keyboard}
use ucimf.Keyboard.Utf8.{to_utf8}
use ucimf.Keyboard.Term.{
  keypad_keysym_redirect, push_digit, add_digit, end_pad, symbol_string, keysym_to_term_string,
}

-- The symbol of a decimal digit key, or of a hexadecimal one.
abbrev pub digit_key : Bool → ℕ → ℕ
digit_key hex d = keysym kt_ascii (if hex then 10 + d else d)

abbrev pub base : Bool → ℕ
base hex = if hex then 16 else 10

abbrev pub IsDigit : Bool → ℕ → Type 0
IsDigit hex d = d < base hex

-- The state after the presses of digit keys.
abbrev pub press_digits : Kernel → Keyboard → Bool → List ℕ → Keyboard
press_digits k s hex [] = s
press_digits k s hex (d ∷ ds) =
    press_digits k (keysym_to_term_string k s (digit_key hex d) true).0 hex ds

-- The number that digits stand for, from the digits before them.
abbrev pub number : Bool → ℕ → List ℕ → ℕ
number hex n [] = n
number hex n (d ∷ ds) = number hex (n * base hex + d) ds

pub redirect_other :
    (s : Keyboard) (sym : ℕ) → (ktyp sym == kt_pad) ≡ false → keypad_keysym_redirect s sym ≡ sym
unfolding keypad_keysym_redirect
redirect_other s sym h = ground arith

term_string_ascii :
    (k : Kernel) (s : Keyboard) (sym : ℕ)
    → ktyp sym ≡ kt_ascii
    → keysym_to_term_string k s sym true ≡ (record s { npadch = add_digit s.npadch (kval sym) }, [])
unfolding keysym_to_term_string symbol_string
term_string_ascii k s sym h = rw (redirect_other s sym (rw h), h)

term_string_shift :
    (k : Kernel) (s : Keyboard) (sym : ℕ) (down : Bool)
    → ktyp sym ≡ kt_shift
    → keysym_to_term_string k s sym down ≡ end_pad s down s.npadch
unfolding keysym_to_term_string symbol_string
term_string_shift k s sym down h = rw (redirect_other s sym (rw h), h)

kval-digit_key :
    (hex : Bool) (d : ℕ) → IsDigit hex d → kval (digit_key hex d) ≡ (if hex then 10 + d else d)
kval-digit_key true d h = omega arith
kval-digit_key false d h = omega arith

ktyp-digit_key : (hex : Bool) (d : ℕ) → IsDigit hex d → ktyp (digit_key hex d) ≡ kt_ascii
ktyp-digit_key true d h = omega arith
ktyp-digit_key false d h = omega arith

add_digit_lem :
    (pad : Option ℕ) (hex : Bool) (d : ℕ)
    → IsDigit hex d
    → add_digit pad (if hex then 10 + d else d) ≡ push_digit pad (base hex) d
unfolding add_digit
add_digit_lem pad true d h = ground arith
add_digit_lem pad false d h = ground arith

press_digit :
    (k : Kernel) (s : Keyboard) (hex : Bool) (d : ℕ)
    → IsDigit hex d
    → (keysym_to_term_string k s (digit_key hex d) true).0
      ≡ record s { npadch = push_digit s.npadch (base hex) d }
press_digit k s hex d h = rw (
  term_string_ascii k s (digit_key hex d) (ktyp-digit_key hex d h),
  kval-digit_key hex d h,
  add_digit_lem s.npadch hex d h,
)

press_digits_on :
    (k : Kernel) (s : Keyboard) (hex : Bool) (n : ℕ) (ds : List ℕ)
    → All (IsDigit hex) ds
    → s.npadch ≡ some n
    → press_digits k s hex ds ≡ record s { npadch = some (number hex n ds) }
press_digits_on k s hex n [] h e = ground arith
press_digits_on k s hex n (d ∷ ds) h e =
    rw (press_digit k s hex d h.0, e)
      (press_digits_on k (record s { npadch = some (n * base hex + d) }) hex (n * base hex + d) ds
        h.1 refl)

-- Typing one or more decimal, or hexadecimal, digit keys and then releasing a modifier sends the
-- UTF-8 bytes of the number typed and forgets it, if no code was begun before.
type_code :
    (k : Kernel) (s : Keyboard) (hex : Bool) (d : ℕ) (ds : List ℕ) (modifier : ℕ)
    → All (IsDigit hex) (d ∷ ds)
    → s.npadch ≡ none
    → modifier < 256
    → keysym_to_term_string k (press_digits k s hex (d ∷ ds)) (keysym kt_shift modifier) false
      ≡ (s, to_utf8 (number hex d ds))
unfolding end_pad
type_code k s hex d ds modifier h e m = rw (
  press_digit k s hex d h.0,
  e,
  press_digits_on k (record s { npadch = some d }) hex d ds h.1 refl,
  term_string_shift k _ (keysym kt_shift modifier) false (omega arith),
)
