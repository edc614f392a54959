-- ===== src/SunPinyin.antt =====
-- `UcimfWindowHandler` of ucimf-sunpinyin/src/sunpinyin.cpp, the module that runs SunPinyin: what
-- the session calls of it, and what the library calls of it. The session, the conversion of wide
-- strings and the codes of SunPinyin's keys are parameters; `none` is the use of memory that was
-- never set, or is not the program's.
use ucimf.Prelude.{
  ℕ, zero, suc, ◌+◌, ◌-◌, ◌*◌, ◌%◌, ◌^◌, Bool, true, false, not, ◌&&◌, Option, none, some, ltb, leb,
  ◌==◌, if◌then◌else◌, List, [], ◌∷◌, ◌++◌, ◌>>=◌, Bytes, length, is_char, c_str,
}
use ucimf.Widget.Calls.{Widgets}
use ucimf.Ucimf.{Imf}
use ucimf.OpenVanilla.Decimal.{show_nat}
pub mod Keys
pub mod Session

-- `prdt_len`, `commit_buf` and `view`; `panel` are the widgets.
pub record Handler (P V : Type 0) : Type 0 where
  pub panel : P
  pub prdt_len : ℕ
  pub commit_buf : Bytes
  pub view : V

-- `WCSTOMBS` into a buffer of 128 bytes: the bytes that the buffer then holds, and the number of
-- those that were written.
abbrev pub Wcstombs : Type 0
Wcstombs = List ℕ → Bytes × ℕ

abbrev pub ss_max_bytes : ℕ
ss_max_bytes = 128

-- A buffer read as a C string, which has to have its zero.
unfoldable pub terminated : Bytes → Option Bytes
terminated [] = none
terminated (c ∷ cs) =
    let rest = terminated cs >>= λ s. some (c ∷ s) in if is_char c then rest else some []

-- `ss[ n ] = 0`, read as a C string; the byte has to be one of the buffer's.
unfoldable pub end_at : Bytes → ℕ → Option Bytes
end_at [] n = none
end_at (c ∷ cs) zero = some []
end_at (c ∷ cs) (suc n) =
    let rest = end_at cs n >>= λ s. some (c ∷ s) in
    if is_char c then rest else if ltb n (length cs) then some [] else none

-- The codes of ime-core/imi_keys.h of SunPinyin.
pub record VirtualKeys : Type 0 where
  pub enter : ℕ
  pub escape : ℕ
  pub space : ℕ
  pub delete : ℕ
  pub back_space : ℕ
  pub up : ℕ
  pub down : ℕ
  pub left : ℕ
  pub right : ℕ
  pub page_up : ℕ
  pub page_down : ℕ

-- A char, which is signed, as an unsigned int.
abbrev pub unsigned_char : ℕ → ℕ
unsigned_char c = if ltb c 128 then c else 2 ^ 32 - 256 + c

module _ (vk : VirtualKeys) where
  unfoldable pub stdin_to_sunpinyin_keycode : ℕ → ℕ
  stdin_to_sunpinyin_keycode c =
      if c == 13
      then vk.enter
      else if c == 27
      then vk.escape
      else if c == 32
      then vk.space
      else if c == 126
      then vk.delete
      else if c == 127
      then vk.back_space
      else unsigned_char c

  abbrev cursor_code : ℕ → Option ℕ
  cursor_code c =
      if c == 65
      then some vk.up
      else if c == 66
      then some vk.down
      else if c == 67
      then some vk.right
      else if c == 68
      then some vk.left
      else none

  abbrev page_code : ℕ → Option ℕ
  page_code c = if c == 53 then some vk.page_up else if c == 54 then some vk.page_down else none

  abbrev without_char : Option ℕ → Option (ℕ × ℕ)
  without_char o = o >>= λ k. some (k, 0)

  -- `keycode` and `keychar`, as the branches on the input set them.
  unfoldable pub key_of : Bytes → Option (ℕ × ℕ)
  key_of (a ∷ []) = some (stdin_to_sunpinyin_keycode a, unsigned_char a)
  key_of (a ∷ b ∷ c ∷ []) = if a == 27 && b == 91 then without_char (cursor_code c) else some (0, 0)
  key_of (a ∷ b ∷ c ∷ d ∷ []) =
      if a == 27 && b == 91 && d == 126 then without_char (page_code c) else some (0, 0)
  key_of _ = some (0, 0)

  unfoldable pub passed : ℕ → Option Bytes
  passed keycode =
      if keycode == vk.back_space
      then some (0x7f ∷ [])
      else if keycode == vk.enter
      then some (0x0d ∷ [])
      else if keycode == vk.right
      then some (0x1b ∷ 0x5b ∷ 0x43 ∷ [])
      else if keycode == vk.left
      then some (0x1b ∷ 0x5b ∷ 0x44 ∷ [])
      else none

-- `keyvalue`
unfoldable pub key_value : ℕ → ℕ
key_value v = if ltb v 0x20 && ltb 0x7e v then 0 else v

abbrev sunpinyin : Bytes
sunpinyin = b'S' ∷ b'u' ∷ b'n' ∷ b'P' ∷ b'i' ∷ b'n' ∷ b'y' ∷ b'i' ∷ b'n' ∷ []

-- The line for the candidate at place `i`: a digit, the candidate and a space.
unfoldable pub candidate_line : Wcstombs → ℕ → List ℕ → Option Bytes
candidate_line wcstombs i text =
    let (ss, handled_bytes) = wcstombs text in
    end_at ss handled_bytes >>= λ s. some (show_nat ((i + 1) % 10) ++ s ++ b' ' ∷ [])

module _ {P V : Type 0} (w : Widgets P) where
  abbrev with_panel : (P → Option P) → Handler P V → Option (Handler P V)
  with_panel f h = f h.panel >>= λ p. some (record h { panel = p })

  module _ (wcstombs : Wcstombs) where
    unfoldable pub update_preedit : List ℕ → Handler P V → Option (Handler P V)
    update_preedit text h =
        let (ss, handled_bytes) = wcstombs text in
        with_panel w.preedit_clear (record h { prdt_len = handled_bytes })
        >>= (λ g. terminated ss >>= λ s. some (record g { panel = w.preedit_append s g.panel }))
        >>= with_panel w.preedit_render

    unfoldable pub append_candidates : ℕ → List (List ℕ) → Handler P V → Option (Handler P V)
    append_candidates i [] h = some h
    append_candidates i (text ∷ texts) h = candidate_line wcstombs i text >>= λ s.
        append_candidates (i + 1) texts (record h { panel = w.lookup_append_next s h.panel })

    unfoldable pub update_candidates : List (List ℕ) → Handler P V → Option (Handler P V)
    update_candidates texts h =
        with_panel w.lookup_clear h >>= append_candidates 0 texts >>= with_panel w.lookup_render

    unfoldable pub commit : List ℕ → Handler P V → Option (Handler P V)
    commit text h =
        let (ss, handled_bytes) = wcstombs text in
        end_at ss handled_bytes >>= λ s. some (record h { commit_buf = s })

  unfoldable pub refresh : Handler P V → Option (Handler P V)
  refresh h = with_panel (w.set_imf_status sunpinyin sunpinyin []) h

-- `onKeyEvent` of the session, which gets the code and the value of the key.
abbrev pub KeyEvent : Type 0 → Type 0 → Type 0
KeyEvent P V = ℕ → ℕ → Handler P V → Option (Handler P V)

module _ {P V : Type 0} (vk : VirtualKeys) (on_key_event : KeyEvent P V) where
  -- The text that was sent is the output, and is forgotten.
  abbrev take_commit : Handler P V → Handler P V × Bytes
  take_commit h = (record h { commit_buf = [] }, h.commit_buf)

  unfoldable pub to_view : ℕ × ℕ → Handler P V → Option (Handler P V × Bytes)
  to_view (keycode, keychar) h =
      on_key_event keycode (key_value keychar) h >>= λ g. some (take_commit g)

  unfoldable pub process_key : ℕ × ℕ → Handler P V → Option (Handler P V × Bytes)
  process_key (keycode, keychar) h =
      let sent = to_view (keycode, keychar) h in
      if h.prdt_len == 0
      then elim (passed vk keycode) [ none ↦ sent | some s ↦ some (h, s) ]
      else sent

  unfoldable pub process_input : Bytes → Handler P V → Option (Handler P V × Bytes)
  process_input buf h = key_of vk buf >>= λ k. process_key k h
