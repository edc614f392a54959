-- ===== src/OpenVanilla/Running.antt =====
-- What the calls of `OVImf` in ucimf-openvanilla/src/ovimf.cpp keep.
use ucimf.Prelude.{
  ℕ, Option, none, some, ◌≡◌, ◌⊎◌, inl, inr, refl, sym, ap, ◌∙◌, [], ◌>>=◌, Bytes, length,
  get_elem?, bind_inv, some_inj, Bool-cases, if_true, if_false,
}
use ucimf.Prelude.Int.{ℤ, pos}
use ucimf.Widget.Calls.{Widgets}
use ucimf.OpenVanilla.Bridge.{new_key_code, set_code, buffer_is_empty}
use ucimf.OpenVanilla.Module.{
  InputMethods, OvImf, refresh, on_bridge, next_place, previous_place, switch_im, switch_im_reverse,
  key_code, passed_through, take_commit, to_context, process_key, process_input,
}
use ucimf.OpenVanilla.Switch.{
  Stays, moved, on_bridge-AllStay, refresh-AllStay, Entered, enter-Entered, switch_im-enter,
  switch_im_reverse-enter,
}

-- The current input method is the one at the current place, and has its context; or there is none.
abbrev pub IsRunning : {P C : Type 0} → OvImf P C → Type 0
IsRunning u =
    (u.im ≡ none)
    ⊎ ((i : ℕ) × (u.im ≡ some i)
        × (u.cxt ≡ some i)
        × (get_elem? u.mod_vector u.current_module ≡ some i))

-- What a call leaves: the list, and a running module.
abbrev pub Runs : {P C : Type 0} → OvImf P C → OvImf P C → Type 0
Runs u v = (v.mod_vector ≡ u.mod_vector) × IsRunning v

module _ {P C : Type 0} where
  pub Stays-Runs : (u v : OvImf P C) → Stays u u.cxt v → IsRunning u → Runs u v
  Stays-Runs u v s (inl e) = (s.same_list, inl (s.same_im ∙ e))
  Stays-Runs u v s (inr (i, im, cxt, there)) = (
    s.same_list,
    inr (i, s.same_im ∙ im, s.has_context ∙ cxt, rw (s.same_list, s.same_place) there),
  )

  Entered-Runs :
      (w : Widgets P) (ims : InputMethods P C) (c : ℕ) (u v : OvImf P C)
      → Entered w ims c u v
      → Runs u v
  Entered-Runs w ims c u v (i, there, at, im, cxt, same) =
      (same, inr (i, im, cxt, rw (same, at) there))

module _ {P C : Type 0} (w : Widgets P) (ims : InputMethods P C) where
  pub refresh-Runs : (u v : OvImf P C) → refresh w ims u ≡ some v → IsRunning u → Runs u v
  refresh-Runs u v e = Stays-Runs u v (refresh-AllStay w ims u v e)

  no_switch :
      (u : OvImf P C)
      → u.im ≡ none
      → (switch_im w ims u ≡ some u) × (switch_im_reverse w ims u ≡ some u)
  unfolding switch_im switch_im_reverse
  no_switch u e =
      let same = ap (λ o. some (record u { im = o })) e in
      (rw (e, switch_im) same, rw (e, switch_im_reverse) same)

  unmoved : (u v : OvImf P C) → some u ≡ some v → IsRunning u → Runs u v
  unmoved u v e = Stays-Runs u v (moved u v u.bridge (some_inj e))

  pub switch_im-Runs : (u v : OvImf P C) → switch_im w ims u ≡ some v → IsRunning u → Runs u v
  switch_im-Runs u v e (inl none_yet) =
      unmoved u v (sym (no_switch u none_yet).0 ∙ e) (inl none_yet)
  switch_im-Runs u v e (inr (i, im, cxt, there)) = Entered-Runs w ims _ u v (
      enter-Entered w ims (next_place (length u.mod_vector) u.current_module) u v
        (sym (switch_im-enter w ims u i im) ∙ e))

  pub switch_im_reverse-Runs :
      (u v : OvImf P C) → switch_im_reverse w ims u ≡ some v → IsRunning u → Runs u v
  switch_im_reverse-Runs u v e (inl none_yet) =
      unmoved u v (sym (no_switch u none_yet).1 ∙ e) (inl none_yet)
  switch_im_reverse-Runs u v e (inr (i, im, cxt, there)) = Entered-Runs w ims _ u v (
      enter-Entered w ims (previous_place (length u.mod_vector) u.current_module) u v (
        sym (switch_im_reverse-enter w ims u i (length u.mod_vector) u.current_module im refl refl)
        ∙ e))

  abbrev answer : ℤ → ℕ → OvImf P C → Option (OvImf P C × Bytes)
  answer k i u = on_bridge w ims (ims.key_event i (set_code k (new_key_code (pos 0)))) u >>= λ v.
      some (take_commit w ims v)

  to_context-Stays :
      (k : ℤ) (u : OvImf P C) (r : OvImf P C × Bytes)
      → to_context w ims k u ≡ some r
      → Stays u u.cxt r.0
  unfolding to_context
  to_context-Stays k u r = by_context u.cxt
    where
      by_context :
          (o : Option ℕ)
          → (elim o [ none ↦ none | some i ↦ answer k i u ]) ≡ some r
          → Stays u u.cxt r.0
      by_context none e = let no : none ≡ some r = e in cc
      by_context (some i) e =
          let (v, gone, is) =
            bind_inv (on_bridge w ims (ims.key_event i (set_code k (new_key_code (pos 0)))) u)
              (λ v. some (take_commit w ims v)) e in
          let a = on_bridge-AllStay w ims _ u v gone in
          let same = ap (λ (x : OvImf P C × Bytes). x.0) (sym (some_inj is)) in
          record {
            same_list = ap (λ (x : OvImf P C). x.mod_vector) same ∙ a.same_list;
            same_place = ap (λ (x : OvImf P C). x.current_module) same ∙ a.same_place;
            same_im = ap (λ (x : OvImf P C). x.im) same ∙ a.same_im;
            has_context = ap (λ (x : OvImf P C). x.cxt) same ∙ a.has_context;
          }

  process_key-Stays :
      (k : ℤ) (u : OvImf P C) (r : OvImf P C × Bytes)
      → process_key w ims k u ≡ some r
      → Stays u u.cxt r.0
  unfolding process_key
  process_key-Stays k u r e = elim (Bool-cases (buffer_is_empty w u.bridge)) [
    | inl empty ↦ by_pass (passed_through k) (sym (if_true _ _ empty) ∙ e)
    | inr text ↦ to_context-Stays k u r (sym (if_false _ _ text) ∙ e)
  ]
    where
      by_pass :
          (o : Option Bytes)
          → (elim o [ none ↦ to_context w ims k u | some s ↦ some (u, s) ]) ≡ some r
          → Stays u u.cxt r.0
      by_pass none e = to_context-Stays k u r e
      by_pass (some s) e = moved u r.0 u.bridge (ap (λ (x : OvImf P C × Bytes). x.0) (some_inj e))

  pub process_input-Runs :
      (buf : Bytes) (u : OvImf P C) (r : OvImf P C × Bytes)
      → process_input w ims buf u ≡ some r
      → IsRunning u
      → Runs u r.0
  unfolding process_input
  process_input-Runs buf u r e running = Stays-Runs u r.0 (by_im u.im e) running
    where
      by_im :
          (o : Option ℕ)
          → (elim o [
            | none ↦ some (u, [])
            | some i ↦ key_code buf >>= λ keycode. process_key w ims keycode u
          ])
            ≡ some r
          → Stays u u.cxt r.0
      by_im none e = moved u r.0 u.bridge (ap (λ (x : OvImf P C × Bytes). x.0) (some_inj e))
      by_im (some i) e =
          let (k, _, rest) = bind_inv (key_code buf) (λ k. process_key w ims k u) e in
          process_key-Stays k u r rest
