-- ===== src/Ucimf/Focus.antt =====
-- Switching the input method on and off.
use ucimf.Prelude.{
  ℕ, Bool, false, not, Option, none, some, ◌≡◌, ◌≢◌, refl, ◌∙◌, arith, [], ◌∷◌, Bytes, bind_some,
}
use ucimf.Ucimf.{
  Front, Imf, Ucimf, function_key, on_panel, trapped, handled, switch_key, ucimf_switch,
  ucimf_refresh_begin, ucimf_refresh_end,
}

-- What the window manager promises of the panels that are ready to be shown and hidden.
pub record IsFront {P : Type 0} (front : Front P) (IsReady : P → Type 0) : Type 0 where
  pub set_focus_total :
      (b : Bool) (p : P)
      → IsReady p
      → (q : P) × (front.set_focus b p ≡ some q) × IsReady q × (front.get_focus q ≡ b)

-- A module's refresh, when it returns, leaves a ready panel ready and the focus as it is.
pub record IsRefresh {P M : Type 0} (front : Front P) (module_ops : Imf P M) (IsReady : P → Type 0)
    : Type 0 where
  pub refresh_total :
      (i : ℕ) (p : P) (m : M)
      → IsReady p
      → (q : P) × (n : M) × (module_ops.refresh i (p, m) ≡ some (q, n))
        × IsReady q
        × (front.get_focus q ≡ front.get_focus p)

-- The code of F12.
abbrev pub f12 : Bytes
f12 = 27 ∷ 91 ∷ 50 ∷ 52 ∷ 126 ∷ []

module _ {P M : Type 0} (front : Front P) (IsReady : P → Type 0) (laws : IsFront front IsReady)
    (module_ops : Imf P M) where
  -- Between the beginning and the end of a screen refresh the focus is off; after it the focus is
  -- what it was before, and both calls succeed, from a panel that is ready.
  refresh_begin_end :
      (u : Ucimf P M)
      → IsReady u.panel
      → (v w : Ucimf P M) × (ucimf_refresh_begin front module_ops u ≡ some v)
        × (front.get_focus v.panel ≡ false)
        × (ucimf_refresh_end front module_ops v ≡ some w)
        × (front.get_focus w.panel ≡ front.get_focus u.panel)
        × IsReady w.panel
  unfolding ucimf_refresh_begin ucimf_refresh_end on_panel
  refresh_begin_end u ready =
      let (p, off, ready', is_off) = laws.set_focus_total false u.panel ready in
      let (q, on, ready'', is_on) = laws.set_focus_total (front.get_focus u.panel) p ready' in
      let v = record u { prev_focus = front.get_focus u.panel; panel = p } in
      (v, record v { panel = q }, bind_some _ off, is_off, bind_some _ on, is_on, ready'')

  trapped_refresh :
      IsRefresh front module_ops IsReady
      → (o : Option ℕ) (u : Ucimf P M) → IsReady u.panel
      → (v : Ucimf P M) × (trapped front module_ops module_ops.refresh o u ≡ some v)
        × IsReady v.panel
        × (front.get_focus v.panel ≡ front.get_focus u.panel)
        × (v.imf ≡ u.imf)
  unfolding trapped
  trapped_refresh r none u ready = (u, refl, ready, refl, refl)
  trapped_refresh r (some i) u ready =
      let (q, n, done, ready', same_focus) = r.refresh_total i u.panel u.modules ready in
      (record u { panel = q; modules = n }, bind_some _ done, ready', same_focus, refl)

  -- F12 turns the focus over, and empties the buffer; with any module, from a ready panel, and if
  -- a module's refresh leaves the focus alone.
  pub switch_f12 :
      IsRefresh front module_ops IsReady
      → (u : Ucimf P M) → IsReady u.panel
      → (v : Ucimf P M) × (ucimf_switch front module_ops f12 u ≡ some (v, []))
        × (front.get_focus v.panel ≡ not (front.get_focus u.panel))
        × IsReady v.panel
  unfolding ucimf_switch switch_key on_panel
  switch_f12 r u ready =
      let (p, set, ready', is) =
        laws.set_focus_total (not (front.get_focus u.panel)) u.panel ready in
      let (v, called, ready'', kept, _) = trapped_refresh r u.imf (record u { panel = p }) ready' in
      (
        v,
        bind_some (λ r. some (handled front module_ops u f12 r))
            (bind_some (λ w. some (some w))
              (bind_some (λ w. trapped front module_ops module_ops.refresh w.imf w)
                  (bind_some _ set)
                ∙ called)),
        kept ∙ is,
        ready'',
      )

  switch_key_other :
      (x : ℕ) (u : Ucimf P M)
      → (x ≢ 52) × (x ≢ 51) × (x ≢ 49)
      → switch_key front module_ops x u ≡ some none
  unfolding switch_key
  switch_key_other x u h = ground arith

  -- Any other input than the codes of F10, F11 and F12 is handed through, with nothing changed.
  switch_other :
      (buf : Bytes) (u : Ucimf P M)
      → ((x : ℕ) → function_key buf ≡ some x → (x ≢ 52) × (x ≢ 51) × (x ≢ 49))
      → ucimf_switch front module_ops buf u ≡ some (u, buf)
  unfolding ucimf_switch
  switch_other buf u other = decided (function_key buf) refl
    where
      decided :
          (o : Option ℕ)
          → function_key buf ≡ o
          → ucimf_switch front module_ops buf u ≡ some (u, buf)
      decided none e = rw (e, ucimf_switch) refl
      decided (some x) e = rw (e, ucimf_switch) (bind_some _ (switch_key_other x u (other x e)))
