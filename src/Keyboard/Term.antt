-- ===== src/Keyboard/Term.antt =====
-- `keypad_keysym_redirect` and `keysym_to_term_string` of libucimf/src/ucimf.cpp: the bytes that a
-- terminal would send for a symbol. The static buffer is the list of the bytes written to it before
-- the closing 0; AC_START and AC_END are 0x80 and 0x97.
use Prim.Native.Nat.{bit_or}
use ucimf.Prelude.{
  ℕ, ◌+◌, ◌-◌, ◌*◌, Bool, not, ◌&&◌, ◌||◌, List, [], ◌∷◌, Option, none, some, ltb, leb, ◌==◌,
  if◌then◌else◌, Bytes, get_elem?, c_str,
}
use ucimf.Keyboard.{
  ktyp, kval, kt_latin, kt_fn, kt_spec, kt_pad, kt_cur, kt_shift, kt_meta, kt_ascii, kt_letter,
  k_enter, k_num, kg_shift, nr_pad, nr_ascii, Kernel, Keyboard,
}
use ucimf.Keyboard.Utf8.{to_utf8}

abbrev pub num_map : List ℕ
num_map =
    b'0' ∷ b'1' ∷ b'2' ∷ b'3' ∷ b'4' ∷ b'5' ∷ b'6' ∷ b'7' ∷ b'8' ∷ b'9' ∷ b'+' ∷ b'-' ∷ b'*' ∷ b'/'
    ∷ k_enter ∷ b',' ∷ b'.' ∷ b'?' ∷ b'(' ∷ b')' ∷ b'#' ∷ []

-- K_INSERT, K_SELECT, K_DOWN, K_PGDN, K_LEFT, K_P5, K_RIGHT, K_FIND, K_UP, K_PGUP, …, K_REMOVE twice.
abbrev pub fn_map : List ℕ
fn_map =
    0x115 ∷ 0x117 ∷ 0x600 ∷ 0x119 ∷ 0x601 ∷ 0x305 ∷ 0x602 ∷ 0x114 ∷ 0x603 ∷ 0x118 ∷ b'+' ∷ b'-'
    ∷ b'*' ∷ b'/' ∷ k_enter ∷ 0x116 ∷ 0x116 ∷ b'?' ∷ b'(' ∷ b')' ∷ b'#' ∷ []

abbrev pub app_map : Bytes
app_map =
    b'p' ∷ b'q' ∷ b'r' ∷ b's' ∷ b't' ∷ b'u' ∷ b'v' ∷ b'w' ∷ b'x' ∷ b'y' ∷ b'l' ∷ b'S' ∷ b'R' ∷ b'Q'
    ∷ b'M' ∷ b'n' ∷ b'n' ∷ b'm' ∷ b'P' ∷ b'Q' ∷ b'S' ∷ []

abbrev pub cur_chars : Bytes
cur_chars = b'B' ∷ b'D' ∷ b'C' ∷ b'A' ∷ []

-- An array read; the default stands for a read out of bounds, which the callers' tests exclude.
abbrev pub at : List ℕ → ℕ → ℕ
at xs i = elim (get_elem? xs i) [ none ↦ 0 | some v ↦ v ]

unfoldable pub keypad_keysym_redirect : Keyboard → ℕ → ℕ
keypad_keysym_redirect s sym =
    if s.applic_keypad || not (ktyp sym == kt_pad) || leb nr_pad (kval sym)
    then sym
    else if s.lock_state.num
    then at num_map (sym - 0x300)
    else at fn_map (sym - 0x300)

abbrev pub esc : ℕ
esc = 0x1b

abbrev pub lead : Bool → ℕ
lead b = if b then b'O' else b'['

-- `case KT_PAD`, on the symbol after the redirection.
unfoldable pub pad_string : Keyboard → ℕ → Bytes
pad_string s sym =
    if s.applic_keypad && not (ltb 0 (s.shift_down kg_shift))
    then if ltb (kval sym) nr_pad then esc ∷ b'O' ∷ at app_map (kval sym) ∷ [] else []
    else if sym == 0x305 && not s.lock_state.num
    then esc ∷ lead s.applic_keypad ∷ b'G' ∷ []
    else []

-- `case KT_SPEC`
unfoldable pub spec_string : Keyboard → ℕ → Bytes
spec_string s sym =
    if sym == k_enter
    then if s.cr_with_lf then b'\r' ∷ b'\n' ∷ [] else b'\r' ∷ []
    else if sym == k_num && s.applic_keypad
    then esc ∷ b'O' ∷ b'P' ∷ []
    else []

-- `case KT_ASCII`: one more digit of the code that is typed with Alt held.
abbrev pub push_digit : Option ℕ → ℕ → ℕ → Option ℕ
push_digit none base digit = some digit
push_digit (some n) base digit = some (n * base + digit)

unfoldable pub add_digit : Option ℕ → ℕ → Option ℕ
add_digit pad value =
    if not (ltb value nr_ascii)
    then pad
    else if leb 10 value
    then push_digit pad 16 (value - 10)
    else push_digit pad 10 value

-- `case KT_SHIFT`: a release ends the code.
unfoldable pub end_pad : Keyboard → Bool → Option ℕ → Keyboard × Bytes
end_pad s down none = (s, [])
end_pad s down (some n) = if down then (s, []) else (record s { npadch = none }, to_utf8 n)

-- The switch on the symbol's type.
unfoldable pub symbol_string : Kernel → Keyboard → ℕ → Bool → Keyboard × Bytes
symbol_string k s sym down =
    let t = ktyp sym in
    let value = kval sym in
    if t == kt_latin || t == kt_letter
    then (s, if ltb value 0x80 || ltb 0x97 value then to_utf8 value else [])
    else if t == kt_fn
    then (s, c_str (k.func_string value))
    else if t == kt_spec
    then (s, spec_string s sym)
    else if t == kt_pad
    then (s, pad_string s sym)
    else if t == kt_cur
    then (s, if ltb value 4 then esc ∷ lead s.cursor_esco ∷ at cur_chars value ∷ [] else [])
    else if t == kt_meta
    then (s, if k.meta_flag == 3 then bit_or 0x80 value ∷ [] else esc ∷ value ∷ [])
    else if t == kt_shift
    then end_pad s down s.npadch
    else if t == kt_ascii
    then (record s { npadch = add_digit s.npadch value }, [])
    else (s, [])

unfoldable pub keysym_to_term_string : Kernel → Keyboard → ℕ → Bool → Keyboard × Bytes
keysym_to_term_string k s sym down =
    if not (ktyp sym == kt_shift) && not down
    then (s, [])
    else symbol_string k s (keypad_keysym_redirect s sym) down
