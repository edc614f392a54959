-- ===== src/Display/Vga/Dev.antt =====
-- libucimf/display/vgadev.cpp, the driver of a VGA card without a frame buffer. `PutPixel` remembers
-- the colour that it set last. LRMI, /dev/mem and the mapping are parameters.
use ucimf.Prelude.{ℕ, ◌+◌, ◌*◌, ◌/◌, ◌%◌, ◌^◌, Bool, not, Option, some, none, if◌then◌else◌}
use ucimf.Prelude.Int.{ℤ, pos, eqb_ℤ}
use ucimf.Display.{Area, on_screen}
use ucimf.Display.Vga.{Card, addr_reg, data_reg, byte_of, draw_byte, fill_columns, rev_lines}

-- The card, and the static variable of `PutPixel`.
pub record Dev (S : Type 0) : Type 0 where
  pub state : S
  pub prev_color : ℤ

-- What the driver asks of the system: whether LRMI, the video interrupt, /dev/mem and the mapping
-- succeed, and what the interrupt does to the card.
pub record System (S : Type 0) : Type 0 where
  pub lrmi_init : Bool
  pub mode_set : ℕ → Bool
  pub set_video_mode : ℕ → S → S
  pub mem_opened : Bool
  pub mapped : Bool

-- The errors that `TryOpen` throws.
pub data OpenError : Type 0 where
  init_failed : OpenError
  no_video_mode : OpenError
  no_mem : OpenError
  no_mapping : OpenError

pub data Opening (S : Type 0) : Type 0 where
  opened : ℕ → ℕ → ℕ → ℕ → Dev S → Opening S
  thrown : OpenError → S → Opening S

module _ {S : Type 0} (c : Card S) where
  unfoldable pub set_bit_mask : ℕ → S → S
  set_bit_mask mask s = c.outb mask data_reg (c.outb 9 addr_reg s)

  unfoldable pub set_oper : ℕ → S → S
  set_oper op s = c.outb op data_reg (c.outb 3 addr_reg s)

  unfoldable pub set_write_mode : ℕ → S → S
  set_write_mode mode s = c.outb mode data_reg (c.outb 5 addr_reg s)

  unfoldable pub set_color : ℤ → S → S
  set_color color s = c.outb (byte_of color) data_reg (c.outb 0 addr_reg s)

  unfoldable pub set_default_mode : S → S
  unfolding set_write_mode set_oper set_bit_mask
  set_default_mode s = set_bit_mask 255 (set_oper 0 (set_write_mode 3 s))

  -- `TryOpen` and the constructor: the width, the height, the length of the buffer and that of a
  -- line, with the device; or an error, with the card as it is left.
  unfoldable pub try_open : System S → Dev S → Opening S
  unfolding set_default_mode
  try_open sys d =
      if not sys.lrmi_init
      then thrown init_failed d.state
      else if not (sys.mode_set 0x12)
      then thrown no_video_mode (sys.set_video_mode 0x12 d.state)
      else if not sys.mem_opened
      then thrown no_mem (sys.set_video_mode 0x12 d.state)
      else if not sys.mapped
      then thrown no_mapping (sys.set_video_mode 0x12 d.state)
      else opened 640 480 (640 * 480 / 8) (640 / 8)
          (record d { state = set_default_mode (sys.set_video_mode 0x12 d.state) })

  unfoldable pub switch_to_graph : System S → Dev S → Dev S
  unfolding set_default_mode
  switch_to_graph sys d = record d { state = set_default_mode (sys.set_video_mode 0x12 d.state) }

  unfoldable pub switch_to_text : System S → Dev S → Dev S
  switch_to_text sys d = record d { state = sys.set_video_mode 0x3 d.state }

  -- `if (prevColor != color)`
  unfoldable pub choose_color : ℤ → Dev S → Dev S
  unfolding set_color
  choose_color color d =
      if eqb_ℤ d.prev_color color
      then d
      else record { state = set_color color d.state; prev_color = color }

  unfoldable pub put_pixel : ℕ → ℕ → ℕ → ℤ → Dev S → Dev S
  unfolding choose_color
  put_pixel next_line x y color d =
      let d' = choose_color color d in
      record d' { state = draw_byte c (128 / 2 ^ (x % 8)) (next_line * y + x / 8) d'.state }

  module _ (xres yres next_line : ℕ) where
    unfoldable pub fill_rect : Area → ℤ → Dev S → Option (Dev S)
    unfolding set_color fill_columns
    fill_rect a color d =
        if on_screen xres yres a
        then some (record d { state = fill_columns c next_line a (set_color color d.state) })
        else none

    unfoldable pub rev_rect : Area → Dev S → Option (Dev S)
    unfolding set_write_mode set_oper set_color set_bit_mask set_default_mode rev_lines
    rev_rect a d =
        let inverting =
          set_bit_mask 255 (set_color (pos 15) (set_oper 0x18 (set_write_mode 3 d.state))) in
        if on_screen xres yres a
        then some (record d { state = set_default_mode (rev_lines c next_line a inverting) })
        else none
