-- ===== src/Ucimf.antt =====
-- libucimf/src/ucimf.cpp, the entry points of the library. The windows are behind the interface
-- `Front`; the input method modules, which are loaded at run time, are parameters, and so is the room
-- in the caller's buffer. `none` is the end of the process, a read through a null pointer or past an
-- array, or a write past a buffer.
pub mod Modules
pub mod Focus
pub mod Keys
pub mod Panels
pub mod Start
use ucimf.Prelude.{
  ℕ, ◌+◌, Bool, true, false, not, ◌&&◌, ◌||◌, Option, none, some, ltb, leb, ◌==◌, if◌then◌else◌,
  List, [], ◌∷◌, ◌>>=◌, Bytes, length, get_elem?, c_str,
}
use ucimf.Prelude.Int.{ℤ}
use ucimf.Keyboard.{Kernel, Keyboard, kg_ctrl}
use ucimf.Keyboard.Keysym.{keycode_to_keysym}
use ucimf.Keyboard.Term.{keysym_to_term_string}
use ucimf.Keyboard.Scan.{scan}

-- What the entry points ask of the window manager and of the three widgets.
pub record Front (P : Type 0) : Type 0 where
  pub get_focus : P → Bool
  pub set_focus : Bool → P → Option P
  pub set_position : ℤ → ℤ → P → Option P
  pub clear_preedit : P → Option P
  pub clear_lookup : P → Option P
  pub clear_status : P → Option P

-- The virtual methods of the modules, by a module's handle, on the windows and on the modules' own
-- state. Each runs in `_TRAP`: what a crash or an exception has changed stays changed, and the
-- output of an input that was trapped is `none`.
pub record Imf (P M : Type 0) : Type 0 where
  pub refresh : ℕ → P × M → Option (P × M)
  pub switch_im : ℕ → P × M → Option (P × M)
  pub switch_im_reverse : ℕ → P × M → Option (P × M)
  pub process_input : ℕ → Bytes → P × M → Option ((P × M) × Option Bytes)

-- The global variables.
pub record Ucimf (P M : Type 0) : Type 0 where
  pub panel : P
  pub modules : M
  pub prev_focus : Bool
  pub imf : Option ℕ
  pub imfs : List ℕ
  pub current_imf : ℕ
  pub keyboard : Keyboard

-- The fourth byte of the code of F10, F11, F12 and the like: ESC [ 2 x ~.
abbrev pub function_key : Bytes → Option ℕ
function_key (a ∷ b ∷ c ∷ x ∷ e ∷ []) =
    if a == 27 && b == 91 && c == 50 && e == 126 then some x else none
function_key _ = none

-- The symbol and the string of a key, with what they do to the keyboard's state.
abbrev pub type_key : Kernel → ℕ → Bool → Keyboard → Keyboard × Bytes
type_key k kc down s =
    let r = keycode_to_keysym k s kc down in
    let t = keysym_to_term_string k r.0 r.1 down in (t.0, c_str t.1)

module _ {P M : Type 0} where
  unfoldable pub next_in : List ℕ → Ucimf P M → Option (Ucimf P M × Option ℕ)
  next_in [] u = some (u, none)
  next_in (i ∷ is) u =
      let next = if leb (length (i ∷ is)) (u.current_imf + 1) then 0 else u.current_imf + 1 in
      get_elem? (i ∷ is) next >>= λ m. some (record u { current_imf = next }, some m)

  -- `nextImf`, with the module that it returns.
  unfoldable pub next_imf : Ucimf P M → Option (Ucimf P M × Option ℕ)
  next_imf u = next_in u.imfs u

module _ {P M : Type 0} (front : Front P) (module_ops : Imf P M) where
  on_panel : (P → Option P) → Ucimf P M → Option (Ucimf P M)
  on_panel f u = f u.panel >>= λ p. some (record u { panel = p })

  -- A call in `_TRAP` of the module that is there.
  trapped : (ℕ → P × M → Option (P × M)) → Option ℕ → Ucimf P M → Option (Ucimf P M)
  trapped call none u = some u
  trapped call (some i) u =
      call i (u.panel, u.modules) >>= λ r. some (record u { panel = r.0; modules = r.1 })

  -- `if( focus && imf != 0 ) call else set_focus( true )`
  unfoldable pub call_or_focus :
      (ℕ → P × M → Option (P × M)) → Option ℕ → Ucimf P M → Option (Ucimf P M)
  unfolding on_panel trapped
  call_or_focus call none u = on_panel (front.set_focus true) u
  call_or_focus call (some i) u =
      if front.get_focus u.panel then trapped call (some i) u else on_panel (front.set_focus true) u

  -- What a function key does; `none` inside means that the key is not one of the three.
  unfoldable pub switch_key : ℕ → Ucimf P M → Option (Option (Ucimf P M))
  unfolding on_panel trapped
  switch_key x u =
      if x == 52
      then on_panel (front.set_focus (not (front.get_focus u.panel))) u
        >>= (λ v. trapped module_ops.refresh v.imf v)
        >>= (λ v. some (some v))
      else if front.get_focus u.panel && x == 51
      then call_or_focus module_ops.switch_im u.imf u >>= (λ v. some (some v))
      else if front.get_focus u.panel && x == 49
      then call_or_focus module_ops.switch_im_reverse u.imf u >>= (λ v. some (some v))
      else some none

  -- The buffer is emptied if the key was handled.
  abbrev pub handled : Ucimf P M → Bytes → Option (Ucimf P M) → Ucimf P M × Bytes
  handled u buf none = (u, buf)
  handled u buf (some v) = (v, [])

  unfoldable pub ucimf_switch : Bytes → Ucimf P M → Option (Ucimf P M × Bytes)
  ucimf_switch buf u = elim (function_key buf) [
    | none ↦ some (u, buf)
    | some x ↦ switch_key x u >>= λ r. some (handled u buf r)
  ]

  abbrev is_empty : Bytes → Bool
  is_empty [] = true
  is_empty (c ∷ cs) = false

  abbrev output_of : Option Bytes → Bytes
  output_of none = []
  output_of (some s) = s

  -- `output.copy( buf, string::npos )`, into a buffer with room for so many bytes.
  abbrev copied : ℕ → Bytes → Ucimf P M → Option (Ucimf P M × Bytes)
  copied room output u = if leb (length output) room then some (u, output) else none

  -- The module's `process_input`, with the bytes that replace the buffer.
  unfoldable pub feed : ℕ → ℕ → Bytes → Ucimf P M → Option (Ucimf P M × Bytes)
  feed room i input u = module_ops.process_input i input (u.panel, u.modules) >>= λ r.
      copied room (output_of r.1) (record u { panel = r.0.0; modules = r.0.1 })

  -- The module gets the input if it is there, the focus is on and there is any; else `other`.
  unfoldable pub feed_or : ℕ → Bytes → Bytes → Option ℕ → Ucimf P M → Option (Ucimf P M × Bytes)
  feed_or room other input none u = some (u, other)
  feed_or room other input (some i) u =
      if not (front.get_focus u.panel) || is_empty input
      then some (u, other)
      else feed room i input u

  unfoldable pub ucimf_process_stdin : ℕ → Bytes → Ucimf P M → Option (Ucimf P M × Bytes)
  ucimf_process_stdin room buf u = feed_or room buf buf u.imf u

  -- F9: the widgets are cleared, and the next module becomes the current one.
  unfoldable pub next_module : Ucimf P M → Option (Ucimf P M)
  unfolding on_panel trapped
  next_module u =
      on_panel front.clear_preedit u
      >>= on_panel front.clear_lookup
      >>= on_panel front.clear_status
      >>= next_imf
      >>= λ r. trapped module_ops.refresh r.1 (record r.0 { imf = r.1 })

  abbrev emptied : Ucimf P M → Option (Ucimf P M × Bytes)
  emptied u = some (u, [])

  -- The branches of `ucimf_process_raw` on the last key of the buffer.
  unfoldable pub raw_key : ℕ → ℕ → Bool → Bytes → Ucimf P M → Option (Ucimf P M × Bytes)
  raw_key room kc down str u =
      let ctrl = ltb 0 (u.keyboard.shift_down kg_ctrl) in
      if not down
      then some (u, [])
      else if kc == 57 && ctrl
      then some (u, [])
      else if kc == 42 && ctrl
      then call_or_focus module_ops.switch_im u.imf u >>= emptied
      else if kc == 54 && ctrl
      then call_or_focus module_ops.switch_im_reverse u.imf u >>= emptied
      else if kc == 67
      then next_module u >>= emptied
      else if kc == 29 || kc == 97
      then some (u, [])
      else feed_or room [] str u.imf u

  -- The string of the key is copied into 128 bytes.
  unfoldable pub ucimf_process_raw : ℕ → Kernel → Bytes → Ucimf P M → Option (Ucimf P M × Bytes)
  ucimf_process_raw room k buf u = scan none buf >>= λ e.
      let r = type_key k e.0 e.1 u.keyboard in
      if ltb (length r.1) 128 then raw_key room e.0 e.1 r.1 (record u { keyboard = r.0 }) else none

  unfoldable pub ucimf_cursor_position : ℤ → ℤ → Ucimf P M → Option (Ucimf P M)
  unfolding on_panel
  ucimf_cursor_position x y u = on_panel (front.set_position x y) u

  unfoldable pub ucimf_refresh_begin : Ucimf P M → Option (Ucimf P M)
  unfolding on_panel
  ucimf_refresh_begin u =
      on_panel (front.set_focus false) (record u { prev_focus = front.get_focus u.panel })

  unfoldable pub ucimf_refresh_end : Ucimf P M → Option (Ucimf P M)
  unfolding on_panel
  ucimf_refresh_end u = on_panel (front.set_focus u.prev_focus) u

  unfoldable pub ucimf_exit : Ucimf P M → Ucimf P M
  ucimf_exit u = record u { imf = none }
