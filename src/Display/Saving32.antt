-- ===== src/Display/Saving32.antt =====
-- Saving and restoring areas of the screen, for libucimf/display/fblinear32.cpp.
use ucimf.Prelude.{ℕ, Option, none, some, ◌≡◌, refl, ap, if◌then◌else◌, ◌>>=◌, Bytes}
use ucimf.Prelude.Int.{ℤ}
use ucimf.Display.{Area, on_screen, IsGraphDev}
use ucimf.Display.Areas.{width, height}
use ucimf.Display.Packed.{Memory}
use ucimf.Display.Linear32.{first_byte32, save_rect32, rstr_rect32, fb_linear32}
use ucimf.Display.Longs.{twice, save_lines32-words, rstr_lines32-words}
use ucimf.Display.Saving16.{same_width}
use ucimf.Display.SavingWords.{FitsWords, words-IsGraphDev, save_by, rstr_by}

-- A buffer of the size that `SaveRect` allocates for the area.
abbrev pub FitsArea32 : Area → Bytes → Type 0
FitsArea32 = FitsWords (λ a. twice (width a))

module _ (xres yres next_line : ℕ) where
  saves32 :
      (a : Area) (m : Memory)
      → save_rect32 xres yres next_line a m
        ≡ save_by xres yres next_line (first_byte32 xres yres next_line) (λ a. twice (width a)) a m
  unfolding save_rect32
  saves32 a m =
      ap (λ b. if on_screen xres yres a then some b else none)
        (save_lines32-words next_line _ (width a) (height a) m)

  restores32 :
      (a : Area) (b : Bytes) (m : Memory)
      → rstr_rect32 xres yres next_line a b m
        ≡ rstr_by xres yres next_line
            (first_byte32 xres yres next_line)
            (λ a. twice (width a))
            a
            b
            m
  unfolding rstr_rect32
  restores32 a b m =
      ap (λ o. if on_screen xres yres a then o >>= (λ r. some r.1) else none)
        (rstr_lines32-words next_line _ (width a) (height a) b m)

  module _ (out_char : ℤ → ℤ → ℤ → ℤ → ℕ → Memory → Option (Memory × ℤ)) where
    -- The 32-bit frame buffer driver keeps the laws of a device, on the bytes of the frame buffer
    -- and for any length of a line, also 0: saving succeeds on every area of the screen, a buffer
    -- fits each area of the size that it was saved from, restoring succeeds with a buffer that
    -- fits, and restoring a saved area gives the old memory back, byte by byte, also after anything
    -- else was restored there.
    pub linear32-IsGraphDev : IsGraphDev (fb_linear32 xres yres next_line out_char) FitsArea32
    linear32-IsGraphDev =
        words-IsGraphDev xres yres next_line (first_byte32 xres yres next_line)
          (λ a. twice (width a)) (λ a c same. ap twice (same_width a c same))
          (fb_linear32 xres yres next_line out_char) refl refl (saves32) (restores32)
