-- ===== src/Ucimf/Keys.antt =====
-- `ucimf_process_raw` of libucimf/src/ucimf.cpp: from the codes of the keyboard to the input of a
-- module.
use ucimf.Prelude.{
  ℕ, false, none, some, ◌≡◌, refl, ◌∙◌, arith, List, [], ◌++◌, Bytes, All, bind_some, length, ◌<◌,
  ◌≤◌, ◌⊎◌, inl, inr, Bool-cases, if_true, if_false, ltb,
}
use ucimf.Keyboard.{Kernel}
use ucimf.Keyboard.Scan.{Event, encode, encode_all, IsEvent, scan-encode_all}
use ucimf.Ucimf.{Front, Imf, Ucimf, type_key, raw_key, ucimf_process_raw}

module _ {P M : Type 0} (front : Front P) (module_ops : Imf P M) where
  raw_key_up :
      (room kc : ℕ) (str : Bytes) (u : Ucimf P M)
      → raw_key front module_ops room kc false str u ≡ some (u, [])
  unfolding raw_key
  raw_key_up room kc str u = refl

  -- A read that ends with the release of a key sends nothing, calls no module, and changes only the
  -- keyboard's state, by that release alone, whatever keys the read began with; unless the string
  -- that the key has does not fit the 128 bytes that it is copied to.
  process_raw-release :
      (room : ℕ) (k : Kernel) (es : List Event) (kc : ℕ) (u : Ucimf P M)
      → All IsEvent es
      → IsEvent (kc, false)
      → ((length (type_key k kc false u.keyboard).1 < 128)
          × (ucimf_process_raw front module_ops room k (encode_all es ++ encode (kc, false)) u
              ≡ some (record u { keyboard = (type_key k kc false u.keyboard).0 }, [])))
        ⊎ ((128 ≤ length (type_key k kc false u.keyboard).1)
            × (ucimf_process_raw front module_ops room k (encode_all es ++ encode (kc, false)) u
                ≡ none))
  unfolding ucimf_process_raw
  process_raw-release room k es kc u h e =
      let typed = type_key k kc false u.keyboard in
      let read = scan-encode_all none es (kc, false) h e in
      elim (Bool-cases (ltb (length typed.1) 128)) [
        | inl fits ↦
            inl (ground arith, bind_some _ read ∙ if_true _ _ fits ∙ raw_key_up room kc typed.1 _)
        | inr long ↦ inr (ground arith, bind_some _ read ∙ if_false _ _ long)
      ]
