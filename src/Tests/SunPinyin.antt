-- ===== src/Tests/SunPinyin.antt =====
-- Tests for the module of ucimf-sunpinyin/src/sunpinyin.cpp.
use ucimf.Prelude.{ℕ, ◌+◌, true, [], ◌∷◌, ◌++◌, some, ◌≡◌, refl, arith, Bytes, length}
use ucimf.Prelude.Int.{pos}
use ucimf.Keyboard.{Kernel, keysym, kt_cur, kt_fn}
use ucimf.Keyboard.Term.{keysym_to_term_string}
use ucimf.OpenVanilla.Module.{key_code, ovk_right}
use ucimf.SunPinyin.{
  Handler, Wcstombs, VirtualKeys, KeyEvent, key_of, stdin_to_sunpinyin_keycode, commit,
}
use ucimf.SunPinyin.Keys.{csi_tilde, key_of-arrow, key_of-page}
use ucimf.Tests.Keyboard.{kernel, idle}
use ucimf.Tests.OpenVanilla.{bars}

abbrev keys : VirtualKeys
keys = record {
  enter = 10;
  escape = 27;
  space = 32;
  delete = 127;
  back_space = 8;
  up = 38;
  down = 40;
  left = 37;
  right = 39;
  page_up = 33;
  page_down = 34;
}

key_of-arrow_example :
    let buf = (keysym_to_term_string kernel idle (keysym kt_cur 2) true).1 in
    (key_of keys buf ≡ some (39, 0)) × (key_code buf ≡ some ovk_right)
key_of-arrow_example = key_of-arrow kernel idle keys 2 (omega arith)

-- The console with the usual strings of its page keys.
abbrev console : Kernel
console = record kernel { func_string = λ v. csi_tilde (29 + v) }

key_of-page_example :
    let up = (keysym_to_term_string console idle (keysym kt_fn 24) true).1 in
    let down = (keysym_to_term_string console idle (keysym kt_fn 25) true).1 in
    (key_of keys up ≡ some (33, 0))
    × (key_of keys down ≡ some (34, 0))
    × (key_code up ≡ some (pos 0))
    × (key_code down ≡ some (pos 0))
key_of-page_example = key_of-page console idle keys refl refl

-- A conversion of texts that are ASCII.
abbrev ascii : Wcstombs
ascii text = (text ++ 0 ∷ [], length text)

abbrev handler : Handler Bytes ℕ
handler = record { panel = []; prdt_len = 2; commit_buf = []; view = 0 }

-- A session that sends a text on the first key, and nothing on any later one.
abbrev sending : KeyEvent Bytes ℕ
sending code value h = elim h.view [
  | ℕ.zero ↦ commit bars ascii (78 ∷ 105 ∷ []) (record h { view = 1 })
  | ℕ.suc n ↦ some h
]

letter_key : key_of keys (97 ∷ []) ≡ some (97, 97)
unfolding key_of stdin_to_sunpinyin_keycode
letter_key = refl
