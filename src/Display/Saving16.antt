-- ===== src/Display/Saving16.antt =====
-- Saving and restoring areas of the screen, for libucimf/display/fblinear16.cpp and
-- libucimf/display/fblinear15.cpp.
use ucimf.Prelude.{ℕ, Option, ◌≡◌, refl, ap, ◌+◌, Bytes}
use ucimf.Prelude.Int.{ℤ, pos_part}
use ucimf.Display.{Area, SameSize, IsGraphDev}
use ucimf.Display.Areas.{width}
use ucimf.Display.Packed.{Memory}
use ucimf.Display.Linear16.{first_byte, save_rect16, rstr_rect16, fb_linear16, fb_linear15}
use ucimf.Display.SavingWords.{FitsWords, words-IsGraphDev}

-- A buffer of the size that `SaveRect` allocates for the area.
abbrev pub FitsArea16 : Area → Bytes → Type 0
FitsArea16 = FitsWords width

pub same_width : (a c : Area) → SameSize a c → width a ≡ width c
same_width a c (w, h) = ap (λ d. pos_part d + 1) w

module _ (xres yres next_line : ℕ) where
  module _ (out_char : ℤ → ℤ → ℤ → ℤ → ℕ → Memory → Option (Memory × ℤ)) where
    -- The drivers with 16 and with 15 bits to a pixel keep what is asked of a device, on the bytes
    -- of the frame buffer and for any length of a line: saving succeeds on every area of the screen,
    -- a buffer fits each area of the size that it was saved from, restoring succeeds with a buffer
    -- that fits, and restoring a saved area gives the old memory back, byte by byte, also after
    -- anything else was restored there.
    pub linear16-IsGraphDev :
        IsGraphDev (fb_linear16 xres yres next_line out_char) FitsArea16
        × IsGraphDev (fb_linear15 xres yres next_line out_char) FitsArea16
    unfolding save_rect16 rstr_rect16
    linear16-IsGraphDev = (
      words-IsGraphDev xres yres next_line (first_byte xres yres next_line) width same_width
          (fb_linear16 xres yres next_line out_char) refl refl (λ a s. refl) (λ a b s. refl),
      words-IsGraphDev xres yres next_line (first_byte xres yres next_line) width same_width
          (fb_linear15 xres yres next_line out_char) refl refl (λ a s. refl) (λ a b s. refl),
    )
