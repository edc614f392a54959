-- ===== src/Display/Linear16.antt =====
-- The rest of libucimf/display/fblinear16.cpp, which libucimf/display/fblinear15.cpp shares: saving,
-- restoring, single pixels, and the two drivers. `none` is a failed assertion, or a read past the
-- buffer.
use ucimf.Prelude.{ℕ, zero, suc, ◌+◌, ◌*◌, Option, none, some, if◌then◌else◌, [], ◌∷◌, ◌>>=◌, Bytes}
use ucimf.Prelude.Int.{ℤ, pos_part}
use ucimf.Display.{Area, GraphDev, on_screen}
use ucimf.Display.LineDrawing.{on_pixel, draw_rect}
use ucimf.Display.Areas.{width, height}
use ucimf.Display.Packed.{
  Memory, bytes_of, write_bytes, cfb16, cfb15, fill_rect16, fill_rect15, rev_rect16,
}

-- `fb_writew( fb_readw(dest16++) , buf++ )`, before what the next lines save.
unfoldable pub save_words : ℕ → ℕ → Memory → Bytes → Bytes
save_words a zero m rest = rest
save_words a (suc n) m rest = m a ∷ m (a + 1) ∷ save_words (a + 2) n m rest

unfoldable pub save_lines16 : ℕ → ℕ → ℕ → ℕ → Memory → Bytes
save_lines16 next_line dest w zero m = []
save_lines16 next_line dest w (suc h) m =
    save_words dest w m (save_lines16 next_line (dest + next_line) w h m)

-- `fb_writew( fb_readw(buf++), dest16++ )`, with what is left of the buffer.
unfoldable pub rstr_words : ℕ → ℕ → Bytes → Memory → Option (Bytes × Memory)
rstr_words a zero b m = some (b, m)
rstr_words a (suc n) [] m = none
rstr_words a (suc n) (u ∷ []) m = none
rstr_words a (suc n) (u ∷ v ∷ b) m = rstr_words (a + 2) n b (write_bytes a (u ∷ v ∷ []) m)

unfoldable pub rstr_lines16 : ℕ → ℕ → ℕ → ℕ → Bytes → Memory → Option (Bytes × Memory)
rstr_lines16 next_line dest w zero b m = some (b, m)
rstr_lines16 next_line dest w (suc h) b m =
    rstr_words dest w b m >>= λ r. rstr_lines16 next_line (dest + next_line) w h r.0 r.1

module _ (xres yres next_line : ℕ) where
  abbrev pub first_byte : Area → ℕ
  first_byte a = next_line * pos_part a.y1 + pos_part a.x1 * 2

  unfoldable pub save_rect16 : Area → Memory → Option Bytes
  save_rect16 a m =
      if on_screen xres yres a
      then some (save_lines16 next_line (first_byte a) (width a) (height a) m)
      else none

  unfoldable pub rstr_rect16 : Area → Bytes → Memory → Option Memory
  rstr_rect16 a b m =
      if on_screen xres yres a
      then rstr_lines16 next_line (first_byte a) (width a) (height a) b m >>= (λ r. some r.1)
      else none

  -- With the colour table of the driver.
  unfoldable pub put_pixel16 : (ℤ → Option ℕ) → ℤ → ℤ → ℤ → Memory → Option Memory
  put_pixel16 table x y color m =
      if on_pixel xres yres x y
      then table color
        >>= (λ v. some (write_bytes (next_line * pos_part y + pos_part x * 2) (bytes_of 2 v) m))
      else none

  -- The drivers; `out_char`, which draws the glyphs of the font library, is a parameter.
  abbrev pub fb_linear16 :
      (ℤ → ℤ → ℤ → ℤ → ℕ → Memory → Option (Memory × ℤ)) → GraphDev Memory Bytes
  fb_linear16 out_char = record {
    xres = xres;
    yres = yres;
    put_pixel = put_pixel16 cfb16;
    fill_rect = fill_rect16 xres yres next_line;
    draw_rect = draw_rect xres yres (put_pixel16 cfb16);
    rev_rect = rev_rect16 xres yres next_line;
    out_char = out_char;
    save_rect = save_rect16;
    rstr_rect = rstr_rect16;
  }

  abbrev pub fb_linear15 :
      (ℤ → ℤ → ℤ → ℤ → ℕ → Memory → Option (Memory × ℤ)) → GraphDev Memory Bytes
  fb_linear15 out_char = record (fb_linear16 out_char) {
    put_pixel = put_pixel16 cfb15;
    fill_rect = fill_rect15 xres yres next_line;
    draw_rect = draw_rect xres yres (put_pixel16 cfb15);
  }
