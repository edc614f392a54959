-- ===== src/Window/Buffers.antt =====
-- What a window's buffers hold, and how they are filled and put back.
use mathlib.Core.Path.{fun_ext}
use ucimf.Prelude.{
  true, Option, none, some, ◌≡◌, refl, sym, ap, ◌∙◌, inl, inr, arith, Bool-cases, if_not-true,
  bind_some,
}
use ucimf.Display.{Area, GraphDev, on_screen, IsGraphDev}
use ucimf.Window.{
  WindowId, status, preedit, lookup_choice, same, Window, Desktop, area, put, push_bg_buf,
  push_fg_buf, restore, pop_bg_buf, pop_fg_buf,
}

pub same_refl : (i : WindowId) → same i i ≡ true
same_refl status = refl
same_refl preedit = refl
same_refl lookup_choice = refl

pub same_eq : (i j : WindowId) → same i j ≡ true → i ≡ j
same_eq status status h = refl
same_eq preedit preedit h = refl
same_eq lookup_choice lookup_choice h = refl
same_eq _ _ h = cc

module _ {Screen Saved : Type 0} where
  pub put_self : (d : Desktop Screen Saved) (i : WindowId) → put d i (d.win i) ≡ d
  put_self d i = λ t. record d { win = fun_ext at_each t }
    where
      at_each : (j : WindowId) → (put d i (d.win i)).win j ≡ d.win j
      at_each j = elim (Bool-cases (same i j)) [ inl e ↦ rw (e, ← same_eq i j e) | inr e ↦ rw e ]

  pub put-put :
      (d : Desktop Screen Saved) (i : WindowId) (v w : Window Saved)
      → put (put d i v) i w ≡ put d i w
  put-put d i v w = λ t. record d { win = fun_ext at_each t }
    where
      at_each : (j : WindowId) → (put (put d i v) i w).win j ≡ (put d i w).win j
      at_each j = ground arith

module _ {Screen Saved : Type 0} {dev : GraphDev Screen Saved} {Fits : Area → Saved → Type 0}
    (laws : IsGraphDev dev Fits) where
  -- A buffer that is there fits the area.
  abbrev pub BufferFits : Area → Option Saved → Type 0
  BufferFits a none = Unit
  BufferFits a (some b) = Fits a b

  -- The screen after the restoring of a buffer that may be missing.
  abbrev pub Restores : Area → Option Saved → Screen → Screen → Type 0
  Restores a none s t = t ≡ s
  Restores a (some b) s t = dev.rstr_rect a b s ≡ some t

  pub restore_total :
      (a : Area) (o : Option Saved) (s : Screen)
      → on_screen dev.xres dev.yres a ≡ true
      → BufferFits a o
      → (t : Screen) × Restores a o s t
  restore_total a none s h f = (s, refl)
  restore_total a (some b) s h f = laws.rstr_total a s b h f

  -- The screen and the window `i`, and nothing else, are new.
  abbrev pub changed :
      Desktop Screen Saved → WindowId → Window Saved → Screen → Desktop Screen Saved
  changed d i w t = put (record d { screen = t }) i w

  module _ (i : WindowId) (d : Desktop Screen Saved) (w : Window Saved) (opened : d.opened ≡ true)
      (is : d.win i ≡ w) where
    pub push_bg_buf_lem :
        (b : Saved)
        → dev.save_rect (area w) d.screen ≡ some b
        → push_bg_buf dev i d ≡ some (put d i (record w { buf_bg = some b }))
    unfolding push_bg_buf
    push_bg_buf_lem b saved = rw (← is) (if_not-true _ _ opened ∙ bind_some _ (rw (← is) at saved))

    pub push_fg_buf_lem :
        (b : Saved)
        → dev.save_rect (area w) d.screen ≡ some b
        → push_fg_buf dev i d ≡ some (put d i (record w { buf_fg = some b }))
    unfolding push_fg_buf
    push_fg_buf_lem b saved = rw (← is) (if_not-true _ _ opened ∙ bind_some _ (rw (← is) at saved))

    restore_lem :
        (o : Option Saved) (v : Window Saved) (t : Screen)
        → Restores (area w) o d.screen t
        → (o ≡ none → v ≡ w)
        → restore dev o i v d ≡ some (changed d i v t)
    unfolding restore
    restore_lem none v t r same_w = ap some (sym unchanged)
      where
        unchanged : changed d i v t ≡ d
        unchanged = rw (r, same_w refl, ← is) (put_self d i)
    restore_lem (some b) v t r same_w = if_not-true _ _ opened ∙ bind_some _ (rw (← is) at r)

    pub pop_fg_buf_lem :
        (t : Screen)
        → Restores (area w) w.buf_fg d.screen t
        → pop_fg_buf dev i d ≡ some (changed d i (record w { buf_fg = none }) t)
    unfolding pop_fg_buf
    pop_fg_buf_lem t r = rw is (
        restore_lem w.buf_fg (record w { buf_fg = none }) t r
          (λ e n. record w { buf_fg = sym e n }))

    pub pop_bg_buf_lem :
        (t : Screen)
        → Restores (area w) w.buf_bg d.screen t
        → pop_bg_buf dev i d ≡ some (changed d i (record w { buf_bg = none }) t)
    unfolding pop_bg_buf
    pop_bg_buf_lem t r = rw is (
        restore_lem w.buf_bg (record w { buf_bg = none }) t r
          (λ e n. record w { buf_bg = sym e n }))
