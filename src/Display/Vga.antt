-- ===== src/Display/Vga.antt =====
-- libucimf/display/fbvgaplanes.cpp, the driver of a frame buffer of VGA planes, four bits to a pixel.
-- The card is a parameter: what its ports, its latches and its memory do is documented hardware.
-- `none` is a failed assertion. The barriers `rmb` and `wmb` order what is in order here.
mod Masks
pub mod Runs
pub mod Parts
pub mod Rows
pub mod Columns
pub mod Geometry
pub mod Registers
pub mod Drawing
pub mod Dev
pub mod Stale
use Prim.Native.Nat.{bit_and}
use ucimf.Prelude.{
  ℕ, zero, suc, ◌+◌, ◌-◌, ◌*◌, ◌/◌, ◌%◌, ◌^◌, ◌<◌, Bool, true, ◌&&◌, Option, none, some, ◌≡◌, ◌≢◌,
  ◌==◌, ltb, leb, if◌then◌else◌,
}
use ucimf.Prelude.Int.{ℤ, pos, negsuc, pos_part}
use ucimf.Display.{Area, on_screen}
use ucimf.Display.Areas.{width, height}

-- What the drivers do to the card, and what can be seen of it: the register that the address port
-- selected, the values of the graphics registers, and the colours of the eight pixels of the latches
-- and of each byte of the memory, the leftmost pixel first.
pub record Card (S : Type 0) : Type 0 where
  pub outb : ℕ → ℕ → S → S
  pub read : ℕ → S → S
  pub write : ℕ → ℕ → S → S
  pub selected : S → ℕ
  pub register : S → ℕ → ℕ
  pub latch : S → ℕ → ℕ
  pub pixel : S → ℕ → ℕ → ℕ

abbrev pub addr_reg : ℕ
addr_reg = 0x3ce

abbrev pub data_reg : ℕ
data_reg = 0x3cf

abbrev pub set_reset_index : ℕ
set_reset_index = 0

abbrev pub enable_set_reset_index : ℕ
enable_set_reset_index = 1

abbrev pub data_rotate_index : ℕ
data_rotate_index = 3

abbrev pub graphics_mode_index : ℕ
graphics_mode_index = 5

abbrev pub bit_mask_index : ℕ
bit_mask_index = 8

-- The bit of a byte that stands for a pixel.
abbrev pub bit : ℕ → ℕ → Bool
bit v k = v / 2 ^ (7 - k) % 2 == 1

-- The card is in write mode 3 with all bits of the bit mask set.
abbrev pub IsMasking : {S : Type 0} → Card S → S → Type 0
IsMasking c s = (c.register s graphics_mode_index ≡ 3) × (c.register s bit_mask_index ≡ 255)

-- The documented behaviour that the drivers rely on. A write in write mode 3 gives the pixels whose
-- bits are set in the byte the colour of the Set/Reset Register, or, with the operation XOR and all
-- four planes set there, inverts the latched ones; the other pixels of the byte become the latched.
pub record IsCard {S : Type 0} (c : Card S) : Type 0 where
  pub select_selected : (v : ℕ) (s : S) → c.selected (c.outb v addr_reg s) ≡ v
  pub select_register :
      (v : ℕ) (s : S) (j : ℕ) → c.register (c.outb v addr_reg s) j ≡ c.register s j
  pub set_register :
      (v : ℕ) (s : S) (j : ℕ)
      → c.register (c.outb v data_reg s) j ≡ (if j == c.selected s then v else c.register s j)
  pub outb_pixel : (v p : ℕ) (s : S) (b k : ℕ) → c.pixel (c.outb v p s) b k ≡ c.pixel s b k
  pub read_latch : (a : ℕ) (s : S) (k : ℕ) → c.latch (c.read a s) k ≡ c.pixel s a k
  pub read_register : (a : ℕ) (s : S) (j : ℕ) → c.register (c.read a s) j ≡ c.register s j
  pub read_pixel : (a : ℕ) (s : S) (b k : ℕ) → c.pixel (c.read a s) b k ≡ c.pixel s b k
  pub write_register : (a v : ℕ) (s : S) (j : ℕ) → c.register (c.write a v s) j ≡ c.register s j
  pub write_apart :
      (a v : ℕ) (s : S) (b k : ℕ) → b ≢ a → c.pixel (c.write a v s) b k ≡ c.pixel s b k
  pub write_color :
      (a v : ℕ) (s : S) (k : ℕ)
      → k < 8
      → IsMasking c s
      → c.register s data_rotate_index ≡ 0
      → c.pixel (c.write a v s) a k
        ≡ (if bit v k then c.register s set_reset_index % 16 else c.latch s k)
  pub write_inverted :
      (a v : ℕ) (s : S) (k : ℕ)
      → k < 8
      → IsMasking c s
      → c.register s data_rotate_index ≡ 0x18
      → c.register s set_reset_index % 16 ≡ 15
      → c.pixel (c.write a v s) a k ≡ (if bit v k then 15 - c.latch s k else c.latch s k)
  pub pixel_bound : (s : S) (b k : ℕ) → c.pixel s b k < 16

-- `outb` passes a byte.
abbrev pub byte_of : ℤ → ℕ
byte_of (pos n) = n % 256
byte_of (negsuc n) = 255 - n % 256

-- What `FillRect` and `RevRect` compute of the left column and the width: the pixels of a first and
-- of a last byte that are drawn in part, and the whole bytes between.
abbrev pub left : ℕ → ℕ
left x1 = let n = 8 - x1 % 8 in if n == 8 then 0 else n

abbrev pub right : ℕ → ℕ → ℕ
right x1 w = if leb w (left x1) then 0 else (x1 + w) % 8

abbrev pub mid_bytes : ℕ → ℕ → ℕ
mid_bytes x1 w = if leb w (left x1) then 0 else (w - left x1 - right x1 w) / 8

unfoldable pub left_mask : ℕ → ℕ → ℕ
left_mask n w =
    let mask = 255 / 2 ^ (8 - n) in if ltb w n then bit_and mask (255 * 2 ^ (n - w)) else mask

unfoldable pub right_mask : ℕ → ℕ
right_mask n = 255 * 2 ^ (8 - n) % 256

module _ {S : Type 0} (c : Card S) where
  unfoldable pub set_mode : ℕ → S → S
  set_mode mode s = c.outb mode data_reg (c.outb graphics_mode_index addr_reg s)

  unfoldable pub select_mask : S → S
  select_mask s = c.outb bit_mask_index addr_reg s

  unfoldable pub set_mask : ℕ → S → S
  set_mask mask s = c.outb mask data_reg s

  unfoldable pub set_op : ℕ → S → S
  set_op op s = c.outb op data_reg (c.outb data_rotate_index addr_reg s)

  unfoldable pub set_sr : ℕ → S → S
  set_sr sr s = c.outb sr data_reg (c.outb enable_set_reset_index addr_reg s)

  unfoldable pub set_color : ℤ → S → S
  set_color color s = c.outb (byte_of color) data_reg (c.outb set_reset_index addr_reg s)

  unfoldable pub set_default_mode : S → S
  unfolding set_mode set_op set_sr select_mask set_mask
  set_default_mode s = set_mask 255 (select_mask (set_sr 15 (set_op 0 (set_mode 3 s))))

  -- `fb_readb(dest); *dest = mask;`
  abbrev pub draw_byte : ℕ → ℕ → S → S
  draw_byte mask dest s = c.write dest mask (c.read dest s)

  -- `for (height = y2 - y1 + 1; height--; dest += mNextLine)`
  unfoldable pub each_line : (ℕ → S → S) → ℕ → ℕ → ℕ → S → S
  each_line f next_line dest zero s = s
  each_line f next_line dest (suc h) s = each_line f next_line (dest + next_line) h (f dest s)

  -- `memset(dest, 0xff, n)`
  unfoldable pub set_bytes : ℕ → ℕ → S → S
  set_bytes zero dest s = s
  set_bytes (suc n) dest s = set_bytes n (dest + 1) (c.write dest 255 s)

  -- The loop over whole bytes in `RevRect`.
  unfoldable pub draw_bytes : ℕ → ℕ → S → S
  draw_bytes zero dest s = s
  draw_bytes (suc n) dest s = draw_bytes n (dest + 1) (draw_byte 255 dest s)

  -- `FillRect` behind the setting of the colour: the first bytes of all lines, then the whole ones,
  -- then the last ones.
  unfoldable pub fill_columns : ℕ → Area → S → S
  unfolding each_line set_bytes left_mask right_mask
  fill_columns next_line a s =
      let x1 = pos_part a.x1 in
      let w = width a in
      let h = height a in
      let dest = next_line * pos_part a.y1 + x1 / 8 in
      let first =
        if left x1 == 0
        then s
        else each_line (draw_byte (left_mask (left x1) w)) next_line dest h s in
      let dest' = if left x1 == 0 then dest else dest + 1 in
      let mid = mid_bytes x1 w in
      let whole = if mid == 0 then first else each_line (set_bytes mid) next_line dest' h first in
      if right x1 w == 0
      then whole
      else each_line (draw_byte (right_mask (right x1 w))) next_line (dest' + mid) h whole

  -- The body of the loop of `RevRect`.
  unfoldable pub rev_row : ℕ → ℕ → ℕ → S → S
  unfolding draw_bytes left_mask right_mask
  rev_row x1 w dest s =
      let first = if left x1 == 0 then s else draw_byte (left_mask (left x1) w) dest s in
      let dest' = if left x1 == 0 then dest else dest + 1 in
      let mid = mid_bytes x1 w in
      let whole = draw_bytes mid dest' first in
      if right x1 w == 0 then whole else draw_byte (right_mask (right x1 w)) (dest' + mid) whole

  -- The loop of `RevRect`.
  unfoldable pub rev_lines : ℕ → Area → S → S
  unfolding each_line rev_row
  rev_lines next_line a s =
      let x1 = pos_part a.x1 in
      each_line (rev_row x1 (width a)) next_line (next_line * pos_part a.y1 + x1 / 8) (height a) s

  module _ (xres yres next_line : ℕ) where
    unfoldable pub fill_rect : Area → ℤ → S → Option S
    unfolding set_default_mode set_color fill_columns
    fill_rect a color s =
        if on_screen xres yres a
        then some (fill_columns next_line a (set_color color (set_default_mode s)))
        else none

    unfoldable pub rev_rect : Area → S → Option S
    unfolding set_mode set_op set_sr set_color select_mask set_mask rev_lines set_default_mode
    rev_rect a s =
        let inverting =
          set_mask 255
            (select_mask (set_color (pos 15) (set_sr 15 (set_op 0x18 (set_mode 3 s))))) in
        if on_screen xres yres a
        then some (set_default_mode (rev_lines next_line a inverting))
        else none

  -- `PutPixel`; no bounds are checked.
  unfoldable pub put_pixel : ℕ → ℕ → ℕ → ℤ → S → S
  unfolding set_default_mode set_color
  put_pixel next_line x y color s =
      draw_byte (128 / 2 ^ (x % 8)) (next_line * y + x / 8) (set_color color (set_default_mode s))
