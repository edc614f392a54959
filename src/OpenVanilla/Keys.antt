-- ===== src/OpenVanilla/Keys.antt =====
-- What `OVImf::process_input` of ucimf-openvanilla/src/ovimf.cpp makes of the keys.
use ucimf.Prelude.{
  ℕ, true, false, none, some, ◌≡◌, refl, sym, ap, ◌∙◌, arith, [], ◌∷◌, ◌>>=◌, Bytes, bind_some,
  if_true,
}
use ucimf.Prelude.Int.{ℤ, pos, negsuc, eqb_ℤ}
use ucimf.Widget.Calls.{Widgets}
use ucimf.OpenVanilla.Module.{
  InputMethods, OvImf, key_code, passed_through, process_key, to_context, process_input,
}

-- A read of four bytes is the key code 0, whatever the bytes are.
four_bytes : (a b c d : ℕ) → key_code (a ∷ b ∷ c ∷ d ∷ []) ≡ some (pos 0)
unfolding key_code
four_bytes a b c d = ground arith

zero_byte : key_code (0 ∷ []) ≡ some (pos 0)
unfolding key_code
zero_byte = refl

eqb_pos : (a b : ℕ) → eqb_ℤ (pos a) (pos b) ≡ true → a ≡ b
eqb_pos a b e = ground arith

-- What goes through is a code of the key that was read.
passed_key : (k : ℤ) (out : Bytes) → passed_through k ≡ some out → key_code out ≡ some k
unfolding passed_through key_code
passed_key (negsuc n) out e = grind arith
passed_key (pos n) out e = grind arith

module _ {P C : Type 0} (w : Widgets P) (ims : InputMethods P C) where
  pub process_input-on :
      (buf : Bytes) (u : OvImf P C) (i : ℕ)
      → u.im ≡ some i
      → process_input w ims buf u ≡ (key_code buf >>= λ k. process_key w ims k u)
  unfolding process_input
  process_input-on buf u i e =
      rw (e, process_input)
        (ap (λ o. key_code buf >>= λ k. process_key w ims k (record u { im = o })) e)

  process_key-passed :
      (k : ℤ) (out : Bytes) (u : OvImf P C)
      → u.bridge.buf ≡ []
      → passed_through k ≡ some out
      → process_key w ims k u ≡ some (u, out)
  unfolding process_key
  process_key-passed k out u empty passed =
      if_true _ _ (ap (λ s. elim s [ [] ↦ true | c ∷ cs ↦ false ]) empty)
      ∙ ap (λ o. elim o [ none ↦ to_context w ims k u | some s ↦ some (u, s) ]) passed

  -- No page key, nor any other read of four bytes, reaches the input method as itself: each does
  -- what a zero byte does.
  process_input-four_bytes :
      (a b c d : ℕ) (u : OvImf P C)
      → process_input w ims (a ∷ b ∷ c ∷ d ∷ []) u ≡ process_input w ims (0 ∷ []) u
  unfolding process_input
  process_input-four_bytes a b c d u =
      ap (λ k. elim u.im [ none ↦ some (u, []) | some i ↦ k >>= λ k. process_key w ims k u ])
        (four_bytes a b c d ∙ sym zero_byte)

  -- Where nothing is being composed, Backspace, Return and the two arrows to the side come out as a
  -- code of the same key, and the input method is not asked.
  process_input-passed :
      (buf : Bytes) (k : ℤ) (out : Bytes) (u : OvImf P C) (i : ℕ)
      → u.im ≡ some i
      → u.bridge.buf ≡ []
      → key_code buf ≡ some k
      → passed_through k ≡ some out
      → (process_input w ims buf u ≡ some (u, out)) × (key_code out ≡ some k)
  process_input-passed buf k out u i im empty keyed passed = (
    process_input-on buf u i im ∙ bind_some _ keyed ∙ process_key-passed k out u empty passed,
    passed_key k out passed,
  )
