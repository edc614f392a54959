-- ===== src/Display/Opening.antt =====
-- How a screen is opened: `TryOpen` of libucimf/display/fbdev.cpp as it is built for Linux, `Open`,
-- `Close` and `ClearScr` of libucimf/display/graphdev.cpp. The files, what the kernel tells of the
-- screen and the mapping are parameters. `none` is a division by zero.
pub mod Found
pub mod Outcomes
pub mod Results
pub mod Lines
use ucimf.Prelude.{
  ℕ, zero, suc, ◌+◌, ◌*◌, ◌/◌, Bool, not, Option, none, some, ◌==◌, if◌then◌else◌, ◌>>=◌,
}
use ucimf.Prelude.Int.{ℤ, pos, ◌-ℤ◌, ltb_ℤ}
use ucimf.Display.{Area, GraphDev}
use ucimf.Display.Vga.{Card}
use ucimf.Display.Vga.Dev
use ucimf.Display.Vga.Dev.{Dev, Opening, System}

pub data OpenRc : Type 0 where
  normal : OpenRc
  unsupport : OpenRc
  failure : OpenRc

-- The classes of the drivers.
pub data Driver : Type 0 where
  linear8 : Driver
  linear15 : Driver
  linear16 : Driver
  linear24 : Driver
  linear32 : Driver
  vga_planes : Driver

-- `/dev/fb%d` and `/dev/fb/%d`
pub data DevName : Type 0 where
  fb : ℕ → DevName
  in_fb : ℕ → DevName

pub data FbType : Type 0 where
  packed_pixels : FbType
  planes : FbType
  interleaved_planes : FbType
  text : FbType
  planes_of_vga : FbType
  unknown : FbType

-- What is read of `fb_fix_screeninfo` and `fb_var_screeninfo`.
pub record ScreenInfo : Type 0 where
  pub type_ : FbType
  pub line_length : ℕ
  pub smem_len : ℕ
  pub bits_per_pixel : ℕ
  pub green_length : ℕ
  pub yres : ℕ

-- The files and the kernel; and whether the library is built with USING_VGA, which no build file
-- defines.
pub record Kernel : Type 0 where
  pub using_vga : Bool
  pub open_file : DevName → ℤ
  pub screen_info : ℤ → ScreenInfo
  pub can_map : ℤ → ℕ → Bool

-- The static variables of `FBDev` and `GraphDev`.
pub record Statics : Type 0 where
  pub graph_dev : Option Driver
  pub fd : ℤ
  pub xres : ℕ
  pub yres : ℕ
  pub buf_len : ℕ
  pub next_line : ℕ
  pub mapped : Bool

-- Before anything was opened.
abbrev pub unopened : Statics
unopened = record {
  graph_dev = none;
  fd = ℤ.negsuc 0;
  xres = 0;
  yres = 0;
  buf_len = 0;
  next_line = 0;
  mapped = Bool.false;
}

abbrev pub is_open : ℤ → Bool
is_open fd = not (ltb_ℤ fd (pos 0))

-- The search for a device, with the rounds that are left: its number and the file, or the result of
-- the last call.
unfoldable pub find_device : Kernel → ℕ → ℕ → ℤ → Option (ℕ × ℤ) × ℤ
find_device k zero i last = (none, last)
find_device k (suc n) i last =
    let first = k.open_file (fb i) in
    let second = k.open_file (in_fb i) in
    let rest = find_device k n (i + 1) second in
    if is_open first
    then (some (i, first), first)
    else if is_open second
    then (some (i, second), second)
    else rest

-- `LinearSet`, and the switch over the type of the screen.
unfoldable pub linear_set : ScreenInfo → Option Driver
linear_set i =
    if i.bits_per_pixel == 8
    then some linear8
    else if i.bits_per_pixel == 15
    then some linear15
    else if i.bits_per_pixel == 16
    then some (if i.green_length == 5 then linear15 else linear16)
    else if i.bits_per_pixel == 24
    then some linear24
    else if i.bits_per_pixel == 32
    then some linear32
    else none

unfoldable pub driver_for : Bool → FbType → ScreenInfo → Option Driver
unfolding linear_set
driver_for using_vga packed_pixels i = linear_set i
driver_for using_vga planes i = none
driver_for using_vga interleaved_planes i = none
driver_for using_vga text i = none
driver_for using_vga planes_of_vga i = if using_vga then some vga_planes else none
driver_for using_vga unknown i = none

-- The length of a line that a constructor computes.
unfoldable pub line_of : Driver → ℕ → ℕ
line_of linear8 w = w
line_of linear15 w = w * 2
line_of linear16 w = w * 2
line_of linear24 w = w * 3
line_of linear32 w = w * 4
line_of vga_planes w = w / 8

-- The constructor of a driver: `mNextLine = mNextLine ? mNextLine : …`.
unfoldable pub construct : Driver → Statics → Statics
unfolding line_of
construct d s = record s {
  graph_dev = some d;
  next_line = if s.next_line == 0 then line_of d s.xres else s.next_line;
}

-- What follows the choice of the driver. The statement behind the test for a failed mapping is a
-- comment, so the next one hangs on it.
unfoldable pub set_screen : Kernel → ScreenInfo → Statics → Option Statics
set_screen k i s =
    let size = i.bits_per_pixel / 8 in
    let ok = k.can_map s.fd i.smem_len in
    if size == 0
    then none
    else some (record s {
      xres = i.line_length / size;
      yres = i.yres;
      buf_len = i.smem_len;
      mapped = ok;
      next_line = if ok then s.next_line else i.line_length;
    })

unfoldable pub use_device : Kernel → ScreenInfo → Statics → Option (OpenRc × Statics)
unfolding driver_for construct set_screen
use_device k i s = elim (driver_for k.using_vga i.type_ i) [
  | none ↦ some (unsupport, s)
  | some d ↦ set_screen k i (construct d s) >>= λ t. some (normal, t)
]

unfoldable pub try_open : Kernel → Statics → Option (OpenRc × Statics)
unfolding find_device use_device
try_open k s =
    let found = find_device k 32 0 s.fd in
    elim found.0 [
      | none ↦ some (failure, record s { fd = found.1 })
      | some (i, fd) ↦ use_device k (k.screen_info fd) (record s { fd = fd })
    ]

-- `GraphDev::Open`: the frame buffer, or else the VGA card, or nothing without USING_VGA.
pub data Screen (S : Type 0) : Type 0 where
  frame_buffer : Statics → Screen S
  vga_card : Statics → Opening S → Screen S
  no_screen : Statics → Screen S

module _ {S : Type 0} (c : Card S) where
  unfoldable pub open_screen : Kernel → System S → Dev S → Statics → Option (Screen S)
  unfolding try_open Dev.try_open
  open_screen k sys d s = try_open k s >>= λ r. elim r.0 [
    | normal ↦ some (frame_buffer r.1)
    | _ ↦ some (if k.using_vga then vga_card r.1 (Dev.try_open c sys d) else no_screen r.1)
  ]

module _ {Pixels Saved : Type 0} where
  unfoldable pub clear_scr : GraphDev Pixels Saved → Pixels → Option Pixels
  clear_scr dev s =
      dev.fill_rect
        (record { x1 = pos 0; y1 = pos 0; x2 = pos dev.xres -ℤ pos 1; y2 = pos dev.yres -ℤ pos 1 })
        (pos 0) s

  -- `Close`, on the screen; no device, nothing to clear.
  unfoldable pub close : Option (GraphDev Pixels Saved) → Pixels → Option Pixels
  unfolding clear_scr
  close none s = some s
  close (some dev) s = clear_scr dev s
