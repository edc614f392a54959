-- ===== src/Window/Visible.antt =====
-- Showing and hiding a window, and what becomes of the screen below it.
use ucimf.Prelude.{
  true, false, Option, none, some, ◌≡◌, refl, ap, ◌∙◌, if_true, if_false, bind_some, ◌>>=◌,
}
use ucimf.Display.{Area, GraphDev, on_screen, IsGraphDev}
use ucimf.Window.{WindowId, Window, Desktop, area, put, pop_bg_buf, pop_fg_buf, show, hide}
use ucimf.Window.Buffers.{
  same_refl, put-put, BufferFits, Restores, changed, restore_total, push_bg_buf_lem,
  push_fg_buf_lem, pop_fg_buf_lem, pop_bg_buf_lem,
}

module _ {Screen Saved : Type 0} {dev : GraphDev Screen Saved} {Fits : Area → Saved → Type 0}
    (laws : IsGraphDev dev Fits) where
  -- A hidden window is shown: the screen below it is saved, and what was saved of the window is
  -- put there.
  pub show_lem :
      (i : WindowId) (d : Desktop Screen Saved)
      → d.opened ≡ true
      → (d.win i).visible ≡ false
      → on_screen dev.xres dev.yres (area (d.win i)) ≡ true
      → BufferFits laws (area (d.win i)) (d.win i).buf_fg
      → (b : Saved) × (t : Screen) × (dev.save_rect (area (d.win i)) d.screen ≡ some b)
        × Restores laws (area (d.win i)) (d.win i).buf_fg d.screen t
        × (show dev i d
            ≡ some (
                changed laws d i
                  (record (d.win i) { visible = true; buf_bg = some b; buf_fg = none })
                  t))
  unfolding show
  show_lem i d h v on fits =
      let w : Window Saved = record (d.win i) { visible = true } in
      let (b, saved) = laws.save_total (area (d.win i)) d.screen on in
      let (t, restored) = restore_total laws (area (d.win i)) (d.win i).buf_fg d.screen on fits in
      let w1 : Window Saved = record w { buf_bg = some b } in
      let pushed = push_bg_buf_lem laws i (put d i w) w h (if_true _ _ (same_refl i)) b saved in
      let popped =
        pop_fg_buf_lem laws i (put (put d i w) i w1) w1 h (if_true _ _ (same_refl i)) t restored in
      (
        b,
        t,
        saved,
        restored,
        if_false _ _ v
            ∙ bind_some (pop_fg_buf dev i) pushed
            ∙ popped
            ∙ ap some (
                put-put (record (put d i w) { screen = t }) i w1 _
                ∙ put-put (record d { screen = t }) i w _),
      )

  -- A visible window is hidden: what the screen shows of it is saved, and what was saved of the
  -- screen below it is put back.
  pub hide_lem :
      (i : WindowId) (d : Desktop Screen Saved)
      → d.opened ≡ true
      → (d.win i).visible ≡ true
      → on_screen dev.xres dev.yres (area (d.win i)) ≡ true
      → BufferFits laws (area (d.win i)) (d.win i).buf_bg
      → (b : Saved) × (t : Screen) × (dev.save_rect (area (d.win i)) d.screen ≡ some b)
        × Restores laws (area (d.win i)) (d.win i).buf_bg d.screen t
        × (hide dev i d
            ≡ some (
                changed laws d i
                  (record (d.win i) { visible = false; buf_fg = some b; buf_bg = none })
                  t))
  unfolding hide
  hide_lem i d h v on fits =
      let w : Window Saved = record (d.win i) { visible = false } in
      let (b, saved) = laws.save_total (area (d.win i)) d.screen on in
      let (t, restored) = restore_total laws (area (d.win i)) (d.win i).buf_bg d.screen on fits in
      let w1 : Window Saved = record w { buf_fg = some b } in
      let pushed = push_fg_buf_lem laws i (put d i w) w h (if_true _ _ (same_refl i)) b saved in
      let popped =
        pop_bg_buf_lem laws i (put (put d i w) i w1) w1 h (if_true _ _ (same_refl i)) t restored in
      (
        b,
        t,
        saved,
        restored,
        if_true _ _ v
            ∙ bind_some (pop_bg_buf dev i) pushed
            ∙ popped
            ∙ ap some (
                put-put (record (put d i w) { screen = t }) i w1 _
                ∙ put-put (record d { screen = t }) i w _),
      )

  Restores-saved :
      (a : Area) (o : Option Saved) (s t u : Screen) (b : Saved)
      → dev.save_rect a s ≡ some b
      → Restores laws a o s t
      → dev.rstr_rect a b t ≡ some u
      → u ≡ s
  Restores-saved a none s t u b saved r back =
      let same_screen : dev.rstr_rect a b s ≡ some u = rw r at back in
      let old : dev.rstr_rect a b s ≡ some s = laws.rstr_unchanged a s b saved in cc
  Restores-saved a (some c) s t u b saved r back =
      let old : dev.rstr_rect a b t ≡ some s = laws.rstr_saved a s t b c saved r in cc

  hide_at :
      (i : WindowId) (d : Desktop Screen Saved) (w : Window Saved)
      → d.win i ≡ w
      → d.opened ≡ true
      → w.visible ≡ true
      → on_screen dev.xres dev.yres (area w) ≡ true
      → BufferFits laws (area w) w.buf_bg
      → (b : Saved) × (t : Screen) × (dev.save_rect (area w) d.screen ≡ some b)
        × Restores laws (area w) w.buf_bg d.screen t
        × (hide dev i d
            ≡ some
                (changed laws d i (record w { visible = false; buf_fg = some b; buf_bg = none }) t))
  hide_at i d w is h v on fits =
      rw (← is) (hide_lem i d h (rw (← is) at v) (rw (← is) at on) (rw (← is) at fits))

  -- Showing a hidden window and hiding it again gives back the very screen that was there, whatever
  -- the window shows, and the window hidden; both steps succeed if the window lies on the screen and
  -- what was saved of it fits it.
  pub hide-show :
      (i : WindowId) (d : Desktop Screen Saved)
      → d.opened ≡ true
      → (d.win i).visible ≡ false
      → on_screen dev.xres dev.yres (area (d.win i)) ≡ true
      → BufferFits laws (area (d.win i)) (d.win i).buf_fg
      → (e : Desktop Screen Saved) × ((show dev i d >>= hide dev i) ≡ some e)
        × (e.screen ≡ d.screen)
        × ((e.win i).visible ≡ false)
  hide-show i d h v on fits =
      let (b, t, saved, restored, shown) = show_lem i d h v on fits in
      let w1 : Window Saved = record (d.win i) { visible = true; buf_bg = some b; buf_fg = none } in
      let hidden =
        hide_at i (changed laws d i w1 t) w1 (if_true _ _ (same_refl i)) h refl on
          (laws.save_fits (area (d.win i)) (area (d.win i)) d.screen b saved (refl, refl)) in
      (
        changed laws (changed laws d i w1 t) i
            (record w1 { visible = false; buf_fg = some hidden.0; buf_bg = none }) hidden.1,
        bind_some (hide dev i) shown ∙ hidden.4,
        Restores-saved (area (d.win i)) (d.win i).buf_fg d.screen t hidden.1 b saved restored
            hidden.3,
        ap (λ (w : Window Saved). w.visible) (if_true _ _ (same_refl i)),
      )
