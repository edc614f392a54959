-- ===== src/Display/Opening/Lines.antt =====
-- The length of a line that `TryOpen` of libucimf/display/fbdev.cpp leaves to the drivers.
use native.Mathlib.Nat.{zero-mul}
use ucimf.Prelude.{
  ℕ, ◌+◌, ◌*◌, true, ◌≡◌, refl, sym, ap, ◌∙◌, if_true, arith, Option, some, ◌>>=◌, Bytes,
}
use ucimf.Prelude.Int.{ℤ, pos_part, ◌-ℤ◌}
use ucimf.Display.{Area, on_screen}
use ucimf.Display.Areas.{width, height}
use ucimf.Display.Packed.{
  Memory, cfb15, cfb16, cfb24, fill_row16, fill_row24, fill_lines, fill_by, fill_rect15,
  fill_rect16, fill_rect24,
}
use ucimf.Display.Opening.{normal, Driver, Kernel, Statics, unopened, line_of, try_open}
use ucimf.Display.Opening.Results.{try_open-normal}

line_of-zero : (d : Driver) → line_of d 0 ≡ 0
unfolding line_of
line_of-zero Driver.linear8 = refl
line_of-zero Driver.linear15 = refl
line_of-zero Driver.linear16 = refl
line_of-zero Driver.linear24 = refl
line_of-zero Driver.linear32 = refl
line_of-zero Driver.vga_planes = refl

-- The first opening, with a mapping, leaves lines of length 0.
no_line :
    (k : Kernel) (t : Statics)
    → try_open k unopened ≡ some (normal, t)
    → t.mapped ≡ true
    → t.next_line ≡ 0
no_line k t e m =
    let (i, d, first, chosen, file, is) = try_open-normal k unopened t e in
    is.line ∙ if_true _ _ m ∙ line_of-zero d

-- Two areas of the same columns and of as many lines.
abbrev pub SameColumns : Area → Area → Type 0
SameColumns a b = (a.x1 ≡ b.x1) × (a.x2 ≡ b.x2) × (height a ≡ height b)

same_fill :
    (xres yres next_line size : ℕ) (table : ℤ → Option ℕ) (row : ℕ → ℕ → Bytes) (a b : Area)
    (color : ℤ) (m : Memory)
    → next_line ≡ 0
    → on_screen xres yres a ≡ true
    → on_screen xres yres b ≡ true
    → SameColumns a b
    → fill_by xres yres next_line size table row a color m
      ≡ fill_by xres yres next_line size table row b color m
same_fill xres yres next_line size table row a b color m e on_a on_b (l, r, h) =
    if_true _ _ on_a
    ∙ ap (λ (f : ℕ → Option Memory). table color >>= f)
        (ap (λ n. fill n (start a) (height a)) (λ i. pos_part (r i -ℤ l i) + 1)
          ∙ ap (λ n. fill (width b) n (height a)) same_start
          ∙ ap (fill (width b) (start b)) h)
    ∙ sym (if_true _ _ on_b)
  where
    fill : ℕ → ℕ → ℕ → ℕ → Option Memory
    fill w dest n v = some (fill_lines next_line (row v w) dest n m)

    start : Area → ℕ
    start c = next_line * pos_part c.y1 + pos_part c.x1 * size

    no_lines : (y z : ℕ) → next_line * y + z ≡ z
    no_lines y z = ap (λ n. n * y + z) e ∙ ap (λ n. n + z) (zero-mul y) ∙ omega arith

    same_start : start a ≡ start b
    same_start =
        no_lines (pos_part a.y1) (pos_part a.x1 * size)
        ∙ ap (λ x. pos_part x * size) l
        ∙ sym (no_lines (pos_part b.y1) (pos_part b.x1 * size))

-- After the first opening, with a mapping, all lines of the screen lie at the same address: for
-- areas of the screen that differ only in their height above, filling one with a colour does what
-- filling the other does, with 15, 16 and 24 bits to a pixel.
pub lines_coincide :
    (k : Kernel) (t : Statics)
    → try_open k unopened ≡ some (normal, t)
    → t.mapped ≡ true
    → (a b : Area) (color : ℤ) (m : Memory) → on_screen t.xres t.yres a ≡ true
    → on_screen t.xres t.yres b ≡ true
    → SameColumns a b
    → (fill_rect15 t.xres t.yres t.next_line a color m
        ≡ fill_rect15 t.xres t.yres t.next_line b color m)
      × (fill_rect16 t.xres t.yres t.next_line a color m
          ≡ fill_rect16 t.xres t.yres t.next_line b color m)
      × (fill_rect24 t.xres t.yres t.next_line a color m
          ≡ fill_rect24 t.xres t.yres t.next_line b color m)
unfolding fill_rect15 fill_rect16 fill_rect24
lines_coincide k t e mapped a b color m on_a on_b same =
    let zero_line = no_line k t e mapped in
    (
      same_fill t.xres t.yres t.next_line 2 cfb15 fill_row16 a b color m zero_line on_a on_b same,
      same_fill t.xres t.yres t.next_line 2 cfb16 fill_row16 a b color m zero_line on_a on_b same,
      same_fill t.xres t.yres t.next_line 3 cfb24 fill_row24 a b color m zero_line on_a on_b same,
    )
