-- ===== src/OpenVanilla/Module.antt =====
-- `OVImf` of ucimf-openvanilla/src/ovimf.cpp. The input methods, the dynamic loader and the file
-- system are parameters. `none` is the use of a value that was never set.
use ucimf.Prelude.{
  ℕ, ◌+◌, ◌-◌, ◌&&◌, Option, none, some, ltb, leb, ◌==◌, if◌then◌else◌, List, [], ◌∷◌, ◌>>=◌, Bytes,
  length, get_elem?,
}
use ucimf.Prelude.Int.{ℤ, pos, negsuc, eqb_ℤ}
use ucimf.Widget.Calls.{Widgets}
use ucimf.Ucimf.{Imf}
use ucimf.OpenVanilla.Bridge.{
  KeyCode, new_key_code, set_code, Bridge, buffer_clear, buffer_is_empty, candidate_clear,
}

-- A pointer to characters: to some that are there, or to those of a string that was destroyed.
pub data Chars : Type 0 where
  alive : Bytes → Chars
  destroyed : Chars

-- `OVImfService::locale` returns the characters of its own local string.
abbrev pub locale : Chars
locale = destroyed

-- The methods of `OVInputMethod` and of its contexts, by the input method's handle.
pub record InputMethods (P C : Type 0) : Type 0 where
  pub initialize : ℕ → Bridge P C → Option (Bridge P C)
  pub start : ℕ → Bridge P C → Option (Bridge P C)
  pub localized_name : ℕ → Chars → Bridge P C → Option Bytes
  pub key_event : ℕ → KeyCode → Bridge P C → Option (Bridge P C)
  pub delete_context : ℕ → Bridge P C → Option (Bridge P C)

-- The members of `OVImf`; `cxt` is the input method whose context there is.
pub record OvImf (P C : Type 0) : Type 0 where
  pub bridge : Bridge P C
  pub mod_vector : List ℕ
  pub current_module : ℕ
  pub current_im_name : Bytes
  pub im : Option ℕ
  pub cxt : Option ℕ

-- ovkSpace, ovkReturn and so on, of OpenVanilla.h.
abbrev pub ovk_esc : ℤ
ovk_esc = pos 27

abbrev pub ovk_space : ℤ
ovk_space = pos 32

abbrev pub ovk_return : ℤ
ovk_return = pos 13

abbrev pub ovk_delete : ℤ
ovk_delete = pos 127

abbrev pub ovk_backspace : ℤ
ovk_backspace = pos 8

abbrev pub ovk_up : ℤ
ovk_up = pos 30

abbrev pub ovk_down : ℤ
ovk_down = pos 31

abbrev pub ovk_left : ℤ
ovk_left = pos 28

abbrev pub ovk_right : ℤ
ovk_right = pos 29

abbrev pub ovk_page_up : ℤ
ovk_page_up = pos 11

abbrev pub ovk_page_down : ℤ
ovk_page_down = pos 12

abbrev pub ovk_tab : ℤ
ovk_tab = pos 9

-- A char, which is signed, as an int.
abbrev pub signed_char : ℕ → ℤ
signed_char c = if ltb c 128 then pos c else negsuc (255 - c)

abbrev pub stdin_to_openvanila_keycode : ℕ → ℤ
stdin_to_openvanila_keycode c =
    if c == 9
    then ovk_tab
    else if c == 13
    then ovk_return
    else if c == 27
    then ovk_esc
    else if c == 32
    then ovk_space
    else if c == 126
    then ovk_delete
    else if c == 127
    then ovk_backspace
    else signed_char c

abbrev cursor_key : ℕ → Option ℤ
cursor_key c =
    if c == 65
    then some ovk_up
    else if c == 66
    then some ovk_down
    else if c == 67
    then some ovk_right
    else if c == 68
    then some ovk_left
    else none

-- Behind the last of the four bytes stands a zero, which is what `buf[4]` reads.
abbrev pub fifth : ℕ
fifth = 0

abbrev page_key : ℕ → Option ℤ
page_key c = if c == 53 then some ovk_page_up else if c == 54 then some ovk_page_down else none

-- `keycode`, as the branches on the input set it; the modifier is 0 wherever it is set.
unfoldable pub key_code : Bytes → Option ℤ
key_code (a ∷ []) = some (stdin_to_openvanila_keycode a)
key_code (a ∷ b ∷ c ∷ []) = if a == 27 && b == 91 then cursor_key c else some (pos 0)
key_code (a ∷ b ∷ c ∷ d ∷ []) =
    if a == 27 && b == 91 && fifth == 126 then page_key d else some (pos 0)
key_code _ = some (pos 0)

-- The keys that go through where nothing is being composed.
unfoldable pub passed_through : ℤ → Option Bytes
passed_through keycode =
    if eqb_ℤ keycode ovk_backspace
    then some (0x7f ∷ [])
    else if eqb_ℤ keycode ovk_return
    then some (0x0d ∷ [])
    else if eqb_ℤ keycode ovk_right
    then some (0x1b ∷ 0x5b ∷ 0x43 ∷ [])
    else if eqb_ℤ keycode ovk_left
    then some (0x1b ∷ 0x5b ∷ 0x44 ∷ [])
    else none

abbrev pub open_vanilla : Bytes
open_vanilla = b'O' ∷ b'p' ∷ b'e' ∷ b'n' ∷ b'V' ∷ b'a' ∷ b'n' ∷ b'i' ∷ b'l' ∷ b'l' ∷ b'a' ∷ []

-- The place after and before a place of a list of `n`, round the list.
abbrev pub next_place : ℕ → ℕ → ℕ
next_place n c = if leb n (c + 1) then 0 else c + 1

abbrev pub previous_place : ℕ → ℕ → ℕ
previous_place n c = if c == 0 then n - 1 else c - 1

module _ {P C : Type 0} (w : Widgets P) (ims : InputMethods P C) where
  unfoldable pub refresh : OvImf P C → Option (OvImf P C)
  refresh u = w.set_imf_status open_vanilla u.current_im_name [] u.bridge.panel >>= λ p.
      some (record u { bridge = record u.bridge { panel = p } })

  unfoldable pub on_bridge : (Bridge P C → Option (Bridge P C)) → OvImf P C → Option (OvImf P C)
  on_bridge f u = f u.bridge >>= λ b. some (record u { bridge = b })

  unfoldable pub named_of : ℕ → OvImf P C → Option (OvImf P C)
  named_of i u = ims.localized_name i locale u.bridge >>= λ name.
      some (record u { cxt = some i; current_im_name = name })

  -- What the constructor and the two switches do with a new input method.
  unfoldable pub begin_im : ℕ → OvImf P C → Option (OvImf P C)
  begin_im i u =
      on_bridge (ims.initialize i) u
      >>= on_bridge (ims.start i)
      >>= named_of i
      >>= refresh
      >>= on_bridge (buffer_clear w)
      >>= on_bridge (candidate_clear w)

  -- `delete cxt`
  unfoldable pub end_context : OvImf P C → Option (OvImf P C)
  end_context u = elim u.cxt [ none ↦ some u | some i ↦ on_bridge (ims.delete_context i) u ]

  -- The module at a place of `mod_vector` becomes the current one.
  unfoldable pub enter : ℕ → OvImf P C → Option (OvImf P C)
  enter c u = get_elem? u.mod_vector c >>= λ i.
      end_context (record u { current_module = c; im = some i }) >>= begin_im i

  unfoldable pub switch_im : OvImf P C → Option (OvImf P C)
  switch_im u = elim u.im [
    | none ↦ some u
    | some i ↦ enter (next_place (length u.mod_vector) u.current_module) u
  ]

  unfoldable pub switch_im_reverse : OvImf P C → Option (OvImf P C)
  switch_im_reverse u = elim u.im [
    | none ↦ some u
    | some i ↦ enter (previous_place (length u.mod_vector) u.current_module) u
  ]

  -- The text that was sent is the output, and is forgotten.
  abbrev pub take_commit : OvImf P C → OvImf P C × Bytes
  take_commit u = (record u { bridge = record u.bridge { commit_buf = [] } }, u.bridge.commit_buf)

  -- The context gets the key; there is none only where there is no input method.
  unfoldable pub to_context : ℤ → OvImf P C → Option (OvImf P C × Bytes)
  to_context keycode u = elim u.cxt [
    | none ↦ none
    | some i ↦ on_bridge (ims.key_event i (set_code keycode (new_key_code (pos 0)))) u >>= λ v.
        some (take_commit v)
  ]

  unfoldable pub process_key : ℤ → OvImf P C → Option (OvImf P C × Bytes)
  process_key keycode u =
      if buffer_is_empty w u.bridge
      then elim (passed_through keycode) [ none ↦ to_context keycode u | some s ↦ some (u, s) ]
      else to_context keycode u

  unfoldable pub process_input : Bytes → OvImf P C → Option (OvImf P C × Bytes)
  process_input buf u = elim u.im [
    | none ↦ some (u, [])
    | some i ↦ key_code buf >>= λ keycode. process_key keycode u
  ]

  abbrev in_module : (OvImf P C → Option (OvImf P C)) → P × OvImf P C → Option (P × OvImf P C)
  in_module f (p, u) =
      f (record u { bridge = record u.bridge { panel = p } }) >>= λ v. some (v.bridge.panel, v)

  -- The module, as the library calls it, under any handle.
  abbrev pub open_vanilla_imf : Imf P (OvImf P C)
  open_vanilla_imf = record {
    refresh = λ i. in_module refresh;
    switch_im = λ i. in_module switch_im;
    switch_im_reverse = λ i. in_module switch_im_reverse;
    process_input = λ i buf r.
        process_input buf (record r.1 { bridge = record r.1.bridge { panel = r.0 } })
        >>= (λ v. some ((v.0.bridge.panel, v.0), some v.1));
  }
