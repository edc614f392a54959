-- ===== src/OpenVanilla/Switch.antt =====
-- Switching between the input methods of Open Vanilla, in ucimf-openvanilla/src/ovimf.cpp.
use ucimf.Prelude.{
  ℕ, ◌<◌, Option, none, some, ◌≡◌, refl, sym, ap, ◌∙◌, arith, [], length, get_elem?,
  get_elem_inside, ◌>>=◌, bind_inv, some_inj,
}
use ucimf.Widget.Calls.{Widgets}
use ucimf.OpenVanilla.Bridge.{Bridge, buffer_clear, candidate_clear}
use ucimf.OpenVanilla.Module.{
  InputMethods, OvImf, open_vanilla, locale, refresh, begin_im, enter, on_bridge, named_of,
  end_context, next_place, previous_place, switch_im, switch_im_reverse,
}

pub next-previous_place :
    (n c : ℕ) → c < n → (previous_place n (next_place n c) ≡ c) × (next_place n c < n)
next-previous_place n c h = (ground arith, ground arith)

-- What the calls of the input methods leave: the list, the place and the input method, with a
-- context.
pub record Stays {P C : Type 0} (u : OvImf P C) (context : Option ℕ) (v : OvImf P C) : Type 0 where
  pub same_list : v.mod_vector ≡ u.mod_vector
  pub same_place : v.current_module ≡ u.current_module
  pub same_im : v.im ≡ u.im
  pub has_context : v.cxt ≡ context

module _ {P C : Type 0} where
  -- Wherever it returns, it leaves them.
  abbrev pub AllStay : OvImf P C → Option ℕ → Option (OvImf P C) → Type 0
  AllStay u context o = (v : OvImf P C) → o ≡ some v → Stays u context v

  pub Stays-trans : (u v w : OvImf P C) (c d : Option ℕ) → Stays u c v → Stays v d w → Stays u d w
  Stays-trans u v w c d a b = record {
    same_list = b.same_list ∙ a.same_list;
    same_place = b.same_place ∙ a.same_place;
    same_im = b.same_im ∙ a.same_im;
    has_context = b.has_context;
  }

  bind-AllStay :
      (u : OvImf P C) (c d : Option ℕ) (o : Option (OvImf P C)) (f : OvImf P C → Option (OvImf P C))
      → AllStay u c o
      → ((v : OvImf P C) → v.cxt ≡ c → AllStay v d (f v))
      → AllStay u d (o >>= f)
  bind-AllStay u c d o f first next w e =
      let (v, is, rest) = bind_inv o f e in
      let a = first v is in Stays-trans u v w c d a (next v a.has_context w rest)

  pub moved : (u v : OvImf P C) (b : Bridge P C) → record u { bridge = b } ≡ v → Stays u u.cxt v
  moved u v b e = record {
    same_list = ap (λ (x : OvImf P C). x.mod_vector) (sym e);
    same_place = ap (λ (x : OvImf P C). x.current_module) (sym e);
    same_im = ap (λ (x : OvImf P C). x.im) (sym e);
    has_context = ap (λ (x : OvImf P C). x.cxt) (sym e);
  }

  with_context : (u v : OvImf P C) (c : Option ℕ) → u.cxt ≡ c → Stays u u.cxt v → Stays u c v
  with_context u v c e a = record {
    same_list = a.same_list;
    same_place = a.same_place;
    same_im = a.same_im;
    has_context = a.has_context ∙ e;
  }

module _ {P C : Type 0} (w : Widgets P) (ims : InputMethods P C) where
  pub on_bridge-AllStay :
      (f : Bridge P C → Option (Bridge P C)) (u : OvImf P C) → AllStay u u.cxt (on_bridge w ims f u)
  unfolding on_bridge
  on_bridge-AllStay f u v e =
      let (b, _, is) = bind_inv (f u.bridge) (λ b. some (record u { bridge = b })) e in
      moved u v b (some_inj is)

  pub refresh-AllStay : (u : OvImf P C) → AllStay u u.cxt (refresh w ims u)
  unfolding refresh
  refresh-AllStay u v e =
      let (p, _, is) =
        bind_inv (w.set_imf_status open_vanilla u.current_im_name [] u.bridge.panel)
          (λ p. some (record u { bridge = record u.bridge { panel = p } })) e in
      moved u v (record u.bridge { panel = p }) (some_inj is)

  named_of-AllStay : (i : ℕ) (u : OvImf P C) → AllStay u (some i) (named_of w ims i u)
  unfolding named_of
  named_of-AllStay i u v e =
      let (name, _, is) =
        bind_inv (ims.localized_name i locale u.bridge)
          (λ name. some (record u { cxt = some i; current_im_name = name })) e in
      let same = sym (some_inj is) in
      record {
        same_list = ap (λ (x : OvImf P C). x.mod_vector) same;
        same_place = ap (λ (x : OvImf P C). x.current_module) same;
        same_im = ap (λ (x : OvImf P C). x.im) same;
        has_context = ap (λ (x : OvImf P C). x.cxt) same;
      }

  still :
      (f : Bridge P C → Option (Bridge P C)) (c : Option ℕ) (v : OvImf P C)
      → v.cxt ≡ c
      → AllStay v c (on_bridge w ims f v)
  still f c v e t d = with_context v t c e (on_bridge-AllStay f v t d)

  pub begin_im-AllStay : (i : ℕ) (u : OvImf P C) → AllStay u (some i) (begin_im w ims i u)
  unfolding begin_im
  begin_im-AllStay i u =
      bind-AllStay u (some i) (some i) _ (on_bridge w ims (candidate_clear w))
        (bind-AllStay u (some i) (some i) _ (on_bridge w ims (buffer_clear w))
          (bind-AllStay u (some i) (some i) _ (refresh w ims)
            (bind-AllStay u u.cxt (some i) _ (named_of w ims i)
              (bind-AllStay u u.cxt u.cxt (on_bridge w ims (ims.initialize i) u)
                (on_bridge w ims (ims.start i)) (on_bridge-AllStay (ims.initialize i) u)
                (still (ims.start i) u.cxt))
              (λ v e. named_of-AllStay i v))
            (λ v e t d. with_context v t (some i) e (refresh-AllStay v t d)))
          (still (buffer_clear w) (some i)))
        (still (candidate_clear w) (some i))

  end_context-AllStay : (u : OvImf P C) → AllStay u u.cxt (end_context w ims u)
  unfolding end_context
  end_context-AllStay u v = by_context u.cxt
    where
      by_context :
          (o : Option ℕ)
          → (elim o [ none ↦ some u | some i ↦ on_bridge w ims (ims.delete_context i) u ]) ≡ some v
          → Stays u u.cxt v
      by_context none e = moved u v u.bridge (some_inj e)
      by_context (some i) e = on_bridge-AllStay (ims.delete_context i) u v e

  -- The state after a switch to the module at a place.
  abbrev pub Entered : ℕ → OvImf P C → OvImf P C → Type 0
  Entered c u v =
      (i : ℕ) × (get_elem? u.mod_vector c ≡ some i)
      × (v.current_module ≡ c)
      × (v.im ≡ some i)
      × (v.cxt ≡ some i)
      × (v.mod_vector ≡ u.mod_vector)

  pub enter-Entered : (c : ℕ) (u v : OvImf P C) → enter w ims c u ≡ some v → Entered c u v
  unfolding enter
  enter-Entered c u v e =
      let (i, there, rest) =
        bind_inv (get_elem? u.mod_vector c)
          (λ i.
            end_context w ims (record u { current_module = c; im = some i }) >>= begin_im w ims i)
          e in
      let at = record u { current_module = c; im = some i } in
      let (t, ended, rest) = bind_inv (end_context w ims at) (begin_im w ims i) rest in
      let a =
        Stays-trans at t v at.cxt (some i) (end_context-AllStay at t ended)
          (begin_im-AllStay i t v rest) in
      (i, there, a.same_place, a.same_im, a.has_context, a.same_list)

  pub switch_im-enter :
      (u : OvImf P C) (i : ℕ)
      → u.im ≡ some i
      → switch_im w ims u ≡ enter w ims (next_place (length u.mod_vector) u.current_module) u
  unfolding switch_im enter
  switch_im-enter u i e = rw (e, switch_im) refl

  pub switch_im_reverse-enter :
      (u : OvImf P C) (i n c : ℕ)
      → u.im ≡ some i
      → length u.mod_vector ≡ n
      → u.current_module ≡ c
      → switch_im_reverse w ims u ≡ enter w ims (previous_place n c) u
  unfolding switch_im_reverse enter
  switch_im_reverse-enter u i n c e f g = rw (e, f, g, switch_im_reverse) refl

  -- A switch to the next input method that returns, and one back that returns, lead to the module,
  -- the input method and the list that were there before; from any place of any list of modules,
  -- whatever the widgets and the input methods do to the panel, the buffers and the dictionary.
  pub switch_im_reverse-switch_im :
      (u v t : OvImf P C) (i : ℕ)
      → u.im ≡ some i
      → get_elem? u.mod_vector u.current_module ≡ some i
      → switch_im w ims u ≡ some v
      → switch_im_reverse w ims v ≡ some t
      → (t.current_module ≡ u.current_module)
        × (t.im ≡ u.im)
        × (t.cxt ≡ u.im)
        × (t.mod_vector ≡ u.mod_vector)
  switch_im_reverse-switch_im u v t i is here on off =
      let n = length u.mod_vector in
      let inside : u.current_module < n = get_elem_inside u.mod_vector u.current_module i here in
      let (back, _) = next-previous_place n u.current_module inside in
      let (j, _, at, im, cxt, same) =
        enter-Entered (next_place n u.current_module) u v (sym (switch_im-enter u i is) ∙ on) in
      let (k, there, at', im', cxt', same') = enter-Entered u.current_module v t (
        ap (λ c. enter w ims c v) (sym back)
        ∙ sym (switch_im_reverse-enter v j n _ im (ap length same) at)
        ∙ off) in
      let first : ◌≡◌ {A = Option ℕ} (some k) (some i) =
        sym there ∙ ap (λ l. get_elem? l u.current_module) same ∙ here in
      (at', im' ∙ first ∙ sym is, cxt' ∙ first ∙ sym is, same' ∙ same)
