-- ===== src/Fbterm/Sessions.antt =====
-- Sessions of patches/fbterm/fbterm_ucimf.cpp: a switch on and off.
use ucimf.Prelude.{
  Bool, true, false, not, some, ◌≡◌, refl, ap, ◌∙◌, List, [], ◌∷◌, ◌++◌, Bytes, bind_some,
}
use ucimf.Keyboard.{Kernel, init_keycode_state}
use ucimf.Ucimf.{Front, Imf}
use ucimf.Ucimf.Focus.{IsFront, IsRefresh, switch_f12}
use ucimf.Fbterm.{Message, active, deactive, Server, im_active, im_deactive, handle, run}

module _ {P M : Type 0} (front : Front P) (module_ops : Imf P M) (kernel : Kernel)
    (IsReady : P → Type 0) where
  abbrev Ready : Server P M → Type 0
  Ready s = IsReady s.ucimf.panel

  module _ (laws : IsFront front IsReady) (refresh : IsRefresh front module_ops IsReady) where
    -- What a message does to the focus.
    abbrev Turns : Message → Server P M → Type 0
    Turns m s =
        (r : Server P M × List Bytes) × (handle front module_ops kernel m s ≡ some r)
        × (r.1 ≡ [])
        × (front.get_focus r.0.ucimf.panel ≡ not (front.get_focus s.ucimf.panel))
        × Ready r.0

    active-Turns : (s : Server P M) → Ready s → Turns active s
    unfolding handle im_active
    active-Turns s ready =
        let (v, e, turned, r) =
          switch_f12 front IsReady laws module_ops refresh
            (record s.ucimf { keyboard = init_keycode_state kernel s.ucimf.keyboard }) ready in
        (_, bind_some _ (bind_some _ e), refl, turned, r)

    deactive-Turns : (s : Server P M) → Ready s → Turns deactive s
    unfolding handle im_deactive
    deactive-Turns s ready =
        let (v, e, turned, r) = switch_f12 front IsReady laws module_ops refresh s.ucimf ready in
        (_, bind_some _ (bind_some _ (bind_some _ e)), refl, turned, r)

    twice_not : (b c d : Bool) → c ≡ not b → d ≡ not c → d ≡ b
    twice_not true c d e f = f ∙ ap not e
    twice_not false c d e f = f ∙ ap not e

    -- Switching the input method on and off again leaves the focus as it was, with any module or
    -- none, and sends nothing; in between the focus is the other one. Both messages are handled;
    -- from a ready panel, if the refresh of a module, when called on a ready panel, succeeds and
    -- leaves it ready and the focus alone.
    pub active-deactive :
        (s : Server P M)
        → Ready s
        → (t u : Server P M) × (run front module_ops kernel (active ∷ []) s ≡ some (t, []))
          × (front.get_focus t.ucimf.panel ≡ not (front.get_focus s.ucimf.panel))
          × (run front module_ops kernel (active ∷ deactive ∷ []) s ≡ some (u, []))
          × (front.get_focus u.ucimf.panel ≡ front.get_focus s.ucimf.panel)
          × IsReady u.ucimf.panel
    unfolding run
    active-deactive s ready =
        let ((t, texts), e, none_sent, on, ready') = active-Turns s ready in
        let ((u, texts'), e', none_sent', off, ready'') = deactive-Turns t ready' in
        (
          t,
          u,
          bind_some _ e ∙ ap (λ l. some (t, l ++ [])) none_sent,
          on,
          bind_some _ e
              ∙ bind_some _ (bind_some _ e')
              ∙ ap (λ l. some (u, l ++ (texts' ++ []))) none_sent
              ∙ ap (λ l. some (u, l ++ [])) none_sent',
          twice_not _ _ _ on off,
          ready'',
        )
