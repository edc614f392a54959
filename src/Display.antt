-- ===== src/Display.antt =====
-- libucimf/display/graphdev.h: the drawing operations that windows and shapes call. The drivers
-- implement them; `none` is a failed `assert`, which ends the process.
pub mod Areas
pub mod LineDrawing
pub mod Packed
pub mod Words
pub mod Filling
pub mod Linear16
pub mod Linear8
pub mod Words16
pub mod SavingWords
pub mod Saving16
pub mod Linear32
pub mod Longs
pub mod Saving32
pub mod Filling32
pub mod Restoring
pub mod Reversing
pub mod Vga
pub mod Opening
use ucimf.Prelude.{ℕ, ◌&&◌, Bool, true, not, Option, some, ◌≡◌}
use ucimf.Prelude.Int.{ℤ, pos, ◌-ℤ◌, ltb_ℤ}

-- The corners that the calls pass; both belong to the area.
pub record Area : Type 0 where
  pub x1 : ℤ
  pub y1 : ℤ
  pub x2 : ℤ
  pub y2 : ℤ

pub record GraphDev (Screen Saved : Type 0) : Type 0 where
  pub xres : ℕ
  pub yres : ℕ
  pub put_pixel : ℤ → ℤ → ℤ → Screen → Option Screen
  pub fill_rect : Area → ℤ → Screen → Option Screen
  pub draw_rect : Area → ℤ → Screen → Option Screen
  pub rev_rect : Area → Screen → Option Screen
  pub out_char : ℤ → ℤ → ℤ → ℤ → ℕ → Screen → Option (Screen × ℤ)
  pub save_rect : Area → Screen → Option Saved
  pub rstr_rect : Area → Saved → Screen → Option Screen

-- The condition that the drivers assert of an area.
unfoldable pub on_screen : ℕ → ℕ → Area → Bool
on_screen xres yres a =
    not (ltb_ℤ a.x1 (pos 0))
    && not (ltb_ℤ a.y1 (pos 0))
    && ltb_ℤ a.x2 (pos xres)
    && ltb_ℤ a.y2 (pos yres)
    && not (ltb_ℤ a.x2 a.x1)
    && not (ltb_ℤ a.y2 a.y1)

abbrev pub SameSize : Area → Area → Type 0
SameSize a b = (a.x2 -ℤ a.x1 ≡ b.x2 -ℤ b.x1) × (a.y2 -ℤ a.y1 ≡ b.y2 -ℤ b.y1)

-- What saving and restoring an area promise: they succeed on an area of the screen, a buffer fits
-- the areas of the size it was saved from, and a saved area, restored over anything that was
-- restored there meanwhile or over nothing, gives the old screen back.
pub record IsGraphDev {Screen Saved : Type 0} (dev : GraphDev Screen Saved)
    (Fits : Area → Saved → Type 0) : Type 0 where
  pub save_total :
      (a : Area) (s : Screen)
      → on_screen dev.xres dev.yres a ≡ true
      → (b : Saved) × (dev.save_rect a s ≡ some b)
  pub save_fits :
      (a c : Area) (s : Screen) (b : Saved) → dev.save_rect a s ≡ some b → SameSize a c → Fits c b
  pub fits_size : (a c : Area) (b : Saved) → Fits a b → SameSize a c → Fits c b
  pub rstr_total :
      (a : Area) (s : Screen) (b : Saved)
      → on_screen dev.xres dev.yres a ≡ true
      → Fits a b
      → (t : Screen) × (dev.rstr_rect a b s ≡ some t)
  pub rstr_saved :
      (a : Area) (s t : Screen) (b c : Saved)
      → dev.save_rect a s ≡ some b
      → dev.rstr_rect a c s ≡ some t
      → dev.rstr_rect a b t ≡ some s
  pub rstr_unchanged :
      (a : Area) (s : Screen) (b : Saved)
      → dev.save_rect a s ≡ some b
      → dev.rstr_rect a b s ≡ some s
