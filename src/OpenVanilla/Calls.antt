-- ===== src/OpenVanilla/Calls.antt =====
-- Any sequence of calls of `OVImf` in ucimf-openvanilla/src/ovimf.cpp.
use ucimf.Prelude.{
  ℕ, Option, some, ◌≡◌, inl, inr, refl, ◌∙◌, List, [], ◌∷◌, ◌++◌, ◌>>=◌, Bytes, bind_inv, some_inj,
}
use ucimf.Widget.Calls.{Widgets}
use ucimf.OpenVanilla.Module.{
  InputMethods, OvImf, refresh, switch_im, switch_im_reverse, process_input,
}
use ucimf.OpenVanilla.Libraries.{
  Libraries, Places, load_modules, unstarted, begin_first, new_ov_imf,
}
use ucimf.OpenVanilla.Running.{
  IsRunning, Runs, refresh-Runs, switch_im-Runs, switch_im_reverse-Runs, process_input-Runs,
}
use ucimf.OpenVanilla.Switch.{begin_im-AllStay}

-- The calls that the library makes of the module.
pub data Call : Type 0 where
  shown : Call
  next : Call
  previous : Call
  input : Bytes → Call

module _ {P C : Type 0} (w : Widgets P) (ims : InputMethods P C) where
  unfoldable pub call : Call → OvImf P C → Option (OvImf P C × Bytes)
  call shown u = refresh w ims u >>= λ v. some (v, [])
  call next u = switch_im w ims u >>= λ v. some (v, [])
  call previous u = switch_im_reverse w ims u >>= λ v. some (v, [])
  call (input buf) u = process_input w ims buf u

  -- A sequence of calls, with all that they output.
  unfoldable pub calls : List Call → OvImf P C → Option (OvImf P C × Bytes)
  calls [] u = some (u, [])
  calls (c ∷ cs) u = call c u >>= λ r. calls cs r.0 >>= λ t. some (t.0, r.1 ++ t.1)

module _ {P C : Type 0} (w : Widgets P) (ims : InputMethods P C) where
  call-Runs :
      (c : Call) (u : OvImf P C) (r : OvImf P C × Bytes)
      → call w ims c u ≡ some r
      → IsRunning u
      → Runs u r.0
  unfolding call
  call-Runs shown u r e run =
      let (v, gone, is) = bind_inv (refresh w ims u) (λ v. some (v, [])) e in
      rw (← some_inj is) (refresh-Runs w ims u v gone run)
  call-Runs next u r e run =
      let (v, gone, is) = bind_inv (switch_im w ims u) (λ v. some (v, [])) e in
      rw (← some_inj is) (switch_im-Runs w ims u v gone run)
  call-Runs previous u r e run =
      let (v, gone, is) = bind_inv (switch_im_reverse w ims u) (λ v. some (v, [])) e in
      rw (← some_inj is) (switch_im_reverse-Runs w ims u v gone run)
  call-Runs (input buf) u r e run = process_input-Runs w ims buf u r e run

  calls-Runs :
      (cs : List Call) (u : OvImf P C) (r : OvImf P C × Bytes)
      → calls w ims cs u ≡ some r
      → IsRunning u
      → Runs u r.0
  unfolding calls
  calls-Runs [] u r e run = rw (← some_inj e) (refl, run)
  calls-Runs (c ∷ cs) u r e run =
      let (q, first, rest) =
        bind_inv (call w ims c u) (λ r. calls w ims cs r.0 >>= λ t. some (t.0, r.1 ++ t.1)) e in
      let (t, gone, is) = bind_inv (calls w ims cs q.0) (λ t. some (t.0, q.1 ++ t.1)) rest in
      let (same, run') = call-Runs c u q first run in
      let (same', run'') = calls-Runs cs q.0 t gone run' in rw (← some_inj is) (same' ∙ same, run'')

  begin_first-Runs :
      (mods : List ℕ) (p : P) (context : C) (u : OvImf P C)
      → begin_first w ims p context mods ≡ some u
      → (u.mod_vector ≡ mods) × IsRunning u
  begin_first-Runs [] p context u e = rw (← some_inj e) (refl, inl refl)
  begin_first-Runs (i ∷ is) p context u e =
      let s = begin_im-AllStay w ims i (unstarted w ims p context (i ∷ is) (some i)) u e in
      (s.same_list, inr (i, s.same_im, s.has_context, rw (s.same_list, s.same_place) refl))

  -- Whatever the widgets and the input methods do: from the constructor on, after every sequence of
  -- calls that returns, the list of modules is the one that was loaded, and the current input
  -- method is the one at the current place of the list and is the one whose context gets the keys,
  -- or there is no input method at all.
  pub calls-IsRunning :
      (l : Libraries) (e : Places) (fuel : ℕ) (names : Option (List Bytes)) (p : P) (context : C)
      (cs : List Call) (u : OvImf P C) (r : OvImf P C × Bytes)
      → new_ov_imf w ims l e fuel names p context ≡ some u
      → calls w ims cs u ≡ some r
      → (mods : List ℕ) × (load_modules l e fuel names ≡ some mods)
        × (r.0.mod_vector ≡ mods)
        × IsRunning r.0
  unfolding new_ov_imf
  calls-IsRunning l e fuel names p context cs u r made gone =
      let (q, _, rest) =
        bind_inv (w.lookup_clear p)
          (λ p. load_modules l e fuel names >>= λ mods. begin_first w ims p context mods) made in
      let (mods, loaded, begun) =
        bind_inv (load_modules l e fuel names) (λ mods. begin_first w ims q context mods) rest in
      let (same, run) = begin_first-Runs mods q context u begun in
      let (same', run') = calls-Runs cs u r gone run in (mods, loaded, same' ∙ same, run')
