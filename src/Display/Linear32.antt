-- ===== src/Display/Linear32.antt =====
-- libucimf/display/fblinear32.cpp, the driver of a frame buffer with four bytes to a pixel, on the
-- bytes of the frame buffer. `none` is a failed assertion, or a read past a buffer or a table.
use ucimf.Prelude.{
  ℕ, zero, suc, ◌+◌, ◌*◌, ◌/◌, Option, none, some, if◌then◌else◌, [], ◌∷◌, ◌>>=◌, Bytes,
}
use ucimf.Prelude.Int.{ℤ, pos_part}
use ucimf.Display.{Area, GraphDev, on_screen}
use ucimf.Display.Areas.{width, height}
use ucimf.Display.LineDrawing.{on_pixel, draw_rect}
use ucimf.Display.Packed.{
  Memory, bytes_of, write_bytes, repeat, color_of, fill_by, longs, rev_lines,
}

-- An entry of `cfb32`, as `InitColorMap` fills it.
unfoldable pub cfb32 : ℤ → Option ℕ
cfb32 = color_of λ r g b. r / 256 * 65536 + g / 256 * 256 + b / 256

unfoldable pub fill_row32 : ℕ → ℕ → Bytes
fill_row32 v w = repeat w (bytes_of 4 v)

-- `fb_writel( fb_readl(dest32++) , buf++ )`, before what the next lines save.
unfoldable pub save_longs : ℕ → ℕ → Memory → Bytes → Bytes
save_longs a zero m rest = rest
save_longs a (suc n) m rest = m a ∷ m (a + 1) ∷ m (a + 2) ∷ m (a + 3) ∷ save_longs (a + 4) n m rest

unfoldable pub save_lines32 : ℕ → ℕ → ℕ → ℕ → Memory → Bytes
save_lines32 next_line dest w zero m = []
save_lines32 next_line dest w (suc h) m =
    save_longs dest w m (save_lines32 next_line (dest + next_line) w h m)

-- `fb_writel( fb_readl(buf++), dest32++ )`, with what is left of the buffer.
unfoldable pub rstr_longs : ℕ → ℕ → Bytes → Memory → Option (Bytes × Memory)
rstr_longs a zero b m = some (b, m)
rstr_longs a (suc n) (s ∷ t ∷ u ∷ v ∷ b) m =
    rstr_longs (a + 4) n b (write_bytes a (s ∷ t ∷ u ∷ v ∷ []) m)
rstr_longs a (suc n) _ m = none

unfoldable pub rstr_lines32 : ℕ → ℕ → ℕ → ℕ → Bytes → Memory → Option (Bytes × Memory)
rstr_lines32 next_line dest w zero b m = some (b, m)
rstr_lines32 next_line dest w (suc h) b m =
    rstr_longs dest w b m >>= λ r. rstr_lines32 next_line (dest + next_line) w h r.0 r.1

module _ (xres yres next_line : ℕ) where
  abbrev pub first_byte32 : Area → ℕ
  first_byte32 a = next_line * pos_part a.y1 + pos_part a.x1 * 4

  unfoldable pub fill_rect32 : Area → ℤ → Memory → Option Memory
  fill_rect32 = fill_by xres yres next_line 4 cfb32 fill_row32

  unfoldable pub rev_rect32 : Area → Memory → Option Memory
  rev_rect32 a m =
      if on_screen xres yres a
      then some (rev_lines next_line (longs (width a)) (first_byte32 a) (height a) m)
      else none

  unfoldable pub save_rect32 : Area → Memory → Option Bytes
  save_rect32 a m =
      if on_screen xres yres a
      then some (save_lines32 next_line (first_byte32 a) (width a) (height a) m)
      else none

  unfoldable pub rstr_rect32 : Area → Bytes → Memory → Option Memory
  rstr_rect32 a b m =
      if on_screen xres yres a
      then rstr_lines32 next_line (first_byte32 a) (width a) (height a) b m >>= (λ r. some r.1)
      else none

  unfoldable pub put_pixel32 : ℤ → ℤ → ℤ → Memory → Option Memory
  put_pixel32 x y color m =
      if on_pixel xres yres x y
      then cfb32 color
        >>= (λ v. some (write_bytes (next_line * pos_part y + pos_part x * 4) (bytes_of 4 v) m))
      else none

  -- The driver; `out_char`, which draws the glyphs of the font library, is a parameter.
  abbrev pub fb_linear32 :
      (ℤ → ℤ → ℤ → ℤ → ℕ → Memory → Option (Memory × ℤ)) → GraphDev Memory Bytes
  fb_linear32 out_char = record {
    xres = xres;
    yres = yres;
    put_pixel = put_pixel32;
    fill_rect = fill_rect32;
    draw_rect = draw_rect xres yres put_pixel32;
    rev_rect = rev_rect32;
    out_char = out_char;
    save_rect = save_rect32;
    rstr_rect = rstr_rect32;
  }
