-- ===== src/Fbterm.antt =====
-- patches/fbterm/fbterm_ucimf.cpp, the input method server that FbTerm starts: it passes the messages
-- of the terminal on to the library, and texts back. The messages come from FbTerm's own client code,
-- imapi.c: they are a list here.
pub mod Sessions
use ucimf.Prelude.{
  ℕ, zero, suc, ◌%◌, ◌^◌, Bool, true, Option, none, some, if◌then◌else◌, List, [], ◌∷◌, ◌++◌, ◌>>=◌,
  Bytes, length,
}
use ucimf.Prelude.Int.{pos}
use ucimf.Keyboard.{Kernel, init_keycode_state}
use ucimf.Ucimf.{Front, Imf, Ucimf, ucimf_switch, ucimf_process_raw, ucimf_cursor_position}

-- The callbacks that FbTerm's client code calls; keys come in a buffer with room for so many bytes.
pub data Message : Type 0 where
  active : Message
  deactive : Message
  send_key : Bytes → ℕ → Message
  cursor_position : ℕ → ℕ → Message

-- The library's variables and the server's own.
pub record Server (P M : Type 0) : Type 0 where
  pub ucimf : Ucimf P M
  pub first_show : Bool

abbrev pub raw_mode : Bool
raw_mode = true

-- ESC [ 2 4 ~
abbrev pub f12_code : Bytes
f12_code = 27 ∷ 91 ∷ 50 ∷ 52 ∷ 126 ∷ []

unfoldable pub take : ℕ → Bytes → Bytes
take zero s = []
take (suc n) [] = []
take (suc n) (c ∷ cs) = c ∷ take n cs

-- `put_im_text`, with the length as an unsigned short; nothing is sent if there is no text.
unfoldable pub put_text : Bytes → List Bytes
unfolding take
put_text [] = []
put_text (c ∷ cs) = take (length (c ∷ cs) % 2 ^ 16) (c ∷ cs) ∷ []

module _ {P M : Type 0} (front : Front P) (module_ops : Imf P M) (kernel : Kernel) where
  -- `ucimf_switch` with the code of F12.
  abbrev switch_f12_code : Ucimf P M → Server P M → Option (Server P M)
  switch_f12_code u s =
      ucimf_switch front module_ops f12_code u >>= λ r. some (record s { ucimf = r.0 })

  unfoldable pub im_active : Server P M → Option (Server P M)
  im_active s =
      switch_f12_code
        (if raw_mode
          then record s.ucimf { keyboard = init_keycode_state kernel s.ucimf.keyboard }
          else s.ucimf)
        s

  unfoldable pub im_deactive : Server P M → Option (Server P M)
  im_deactive s = switch_f12_code s.ucimf s >>= λ t. some (record t { first_show = true })

  unfoldable pub process_raw_key : Bytes → ℕ → Server P M → Option (Server P M × List Bytes)
  unfolding put_text
  process_raw_key [] room s = some (s, [])
  process_raw_key (c ∷ cs) room s =
      ucimf_process_raw front module_ops room kernel (c ∷ cs) s.ucimf >>= λ r.
      some (record s { ucimf = r.0 }, put_text r.1)

  unfoldable pub cursor_pos_changed : ℕ → ℕ → Server P M → Option (Server P M)
  cursor_pos_changed x y s = ucimf_cursor_position front module_ops (pos x) (pos y) s.ucimf >>= λ u.
      some (record s { ucimf = u })

  -- A message, and the texts that it sends back.
  unfoldable pub handle : Message → Server P M → Option (Server P M × List Bytes)
  unfolding im_active im_deactive process_raw_key cursor_pos_changed
  handle active s = im_active s >>= λ t. some (t, [])
  handle deactive s = im_deactive s >>= λ t. some (t, [])
  handle (send_key buf room) s = process_raw_key buf room s
  handle (cursor_position x y) s = cursor_pos_changed x y s >>= λ t. some (t, [])

  -- `while (check_im_message()) ;`
  unfoldable pub run : List Message → Server P M → Option (Server P M × List Bytes)
  unfolding handle
  run [] s = some (s, [])
  run (m ∷ ms) s = handle m s >>= λ r. run ms r.0 >>= λ q. some (q.0, r.1 ++ q.1)
