-- ===== src/OpenVanilla/Bridge.antt =====
-- The objects of ucimf-openvanilla/src/openvanilla.cpp that an input method of Open Vanilla calls:
-- the key codes, the buffer behind the preedit bar, and the list of candidates.
use ucimf.Prelude.{Bool, true, false, not, Option, some, [], ◌∷◌, ◌++◌, ◌>>=◌, Bytes, c_str}
use ucimf.Prelude.Int.{ℤ, pos, eqb_ℤ}
use ucimf.Options.{Opts}
use ucimf.Widget.Calls.{Widgets}

pub record KeyCode : Type 0 where
  pub chr : ℤ
  pub shift : ℤ
  pub capslock : ℤ
  pub ctrl : ℤ
  pub alt : ℤ

abbrev pub new_key_code : ℤ → KeyCode
new_key_code p = record { chr = p; shift = pos 0; capslock = pos 0; ctrl = pos 0; alt = pos 0 }

abbrev pub set_code : ℤ → KeyCode → KeyCode
set_code x k = record k { chr = x }

abbrev non_zero : ℤ → Bool
non_zero x = not (eqb_ℤ x (pos 0))

abbrev pub is_shift : KeyCode → Bool
is_shift k = non_zero k.shift

abbrev pub is_capslock : KeyCode → Bool
is_capslock k = non_zero k.capslock

abbrev pub is_ctrl : KeyCode → Bool
is_ctrl k = non_zero k.ctrl

-- `isAlt` and `isOpt`; `isNum` is always false.
abbrev pub is_alt : KeyCode → Bool
is_alt k = non_zero k.alt

-- What an input method can reach: the widgets, the text of the buffer, the flag of the candidates,
-- the text that is sent, the dictionary, and its own context.
pub record Bridge (P C : Type 0) : Type 0 where
  pub panel : P
  pub buf : Bytes
  pub onscreen : Bool
  pub commit_buf : Bytes
  pub dict : Opts
  pub context : C

module _ {P C : Type 0} (w : Widgets P) where
  with_panel : (P → Option P) → Bridge P C → Option (Bridge P C)
  with_panel f b = f b.panel >>= λ p. some (record b { panel = p })

  unfoldable pub buffer_clear : Bridge P C → Option (Bridge P C)
  unfolding with_panel
  buffer_clear b = with_panel w.preedit_clear b >>= λ c. some (record c { buf = [] })

  unfoldable pub buffer_append : Bytes → Bridge P C → Bridge P C
  buffer_append s b = record b {
    panel = w.preedit_append (c_str s) b.panel;
    buf = b.buf ++ c_str s;
  }

  -- `send`, by `OVImf::commitBuffer`, which keeps nothing of an earlier text.
  unfoldable pub buffer_send : Bridge P C → Option (Bridge P C)
  buffer_send b = buffer_clear (record b { commit_buf = b.buf })

  unfoldable pub buffer_update : Bridge P C → Option (Bridge P C)
  unfolding with_panel
  buffer_update b = with_panel w.preedit_render b

  abbrev pub buffer_is_empty : Bridge P C → Bool
  buffer_is_empty b = elim b.buf [ [] ↦ true | c ∷ cs ↦ false ]

  unfoldable pub candidate_clear : Bridge P C → Option (Bridge P C)
  unfolding with_panel
  candidate_clear b = with_panel w.lookup_clear b

  unfoldable pub candidate_append : Bytes → Bridge P C → Bridge P C
  candidate_append s b = record b { panel = w.lookup_append (c_str s) b.panel }

  unfoldable pub candidate_hide : Bridge P C → Option (Bridge P C)
  candidate_hide b = candidate_clear (record b { onscreen = false })

  unfoldable pub candidate_show : Bridge P C → Bridge P C
  candidate_show b = record b { onscreen = true }

  unfoldable pub candidate_update : Bridge P C → Option (Bridge P C)
  unfolding with_panel
  candidate_update b = with_panel w.lookup_render b
