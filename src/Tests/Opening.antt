-- ===== src/Tests/Opening.antt =====
-- Tests for the opening of the screen.
use ucimf.Prelude.{ℕ, ◌<◌, true, false, ◌≡◌, ◌↔◌, refl, ◌==◌, if◌then◌else◌, Option, some, none}
use ucimf.Prelude.Int.{ℤ, pos, negsuc, ◌-ℤ◌, ◌+ℤ◌}
use ucimf.Display.{Area, on_screen, IsGraphDev}
use ucimf.Display.Packed.{Memory, fill_rect15, fill_rect16, fill_rect24}
use ucimf.Display.Linear16.{fb_linear16, fb_linear15}
use ucimf.Display.Saving16.{FitsArea16, linear16-IsGraphDev}
use ucimf.Display.Opening.{
  normal, failure, linear16, packed_pixels, planes_of_vga, DevName, fb, in_fb, Kernel, ScreenInfo,
  Statics, unopened, try_open,
}
use ucimf.Display.Opening.Found.{IsFirst, AllClosed, file_of}
use ucimf.Display.Opening.Results.{try_open-errors}
use ucimf.Display.Opening.Lines.{lines_coincide}

abbrev only_fb1 : DevName → ℤ
only_fb1 (fb i) = if i == 1 then pos 3 else negsuc 0
only_fb1 (in_fb i) = negsuc 0

abbrev info : ScreenInfo
info = record {
  type_ = packed_pixels;
  line_length = 64;
  smem_len = 2048;
  bits_per_pixel = 16;
  green_length = 6;
  yres = 32;
}

abbrev kernel : Kernel
kernel = record {
  using_vga = false;
  open_file = only_fb1;
  screen_info = λ fd. info;
  can_map = λ fd n. true;
}

abbrev opened : Statics
opened = record {
  graph_dev = some linear16;
  fd = pos 3;
  xres = 32;
  yres = 32;
  buf_len = 2048;
  next_line = 0;
  mapped = true;
}

test_open : try_open kernel unopened ≡ some (normal, opened)
unfolding try_open
test_open = refl

-- The screen of the same device, with VGA planes, and a library built for it.
abbrev vga_kernel : Kernel
vga_kernel = record kernel {
  using_vga = true;
  screen_info = λ fd. record info { type_ = planes_of_vga; bits_per_pixel = 4 };
}

test_crash : try_open vga_kernel unopened ≡ none
unfolding try_open
test_crash = refl

try_open-errors_example :
    (((t : Statics) × (try_open vga_kernel unopened ≡ some (failure, t)))
      ↔ AllClosed vga_kernel 0 32)
    × ((try_open vga_kernel unopened ≡ none) ↔ (
        (vga_kernel.using_vga ≡ true)
        × (i : ℕ) × IsFirst vga_kernel 0 32 i
        × ((vga_kernel.screen_info (file_of vga_kernel i)).type_ ≡ planes_of_vga)
        × ((vga_kernel.screen_info (file_of vga_kernel i)).bits_per_pixel < 8)))
try_open-errors_example = try_open-errors vga_kernel unopened

abbrev above : Area
above = record { x1 = pos 2; y1 = pos 1; x2 = pos 6; y2 = pos 3 }

abbrev below : Area
below = record above { y1 = pos 20; y2 = pos 22 }

abbrev blank : Memory
blank a = 0

lines_coincide_example :
    (fill_rect15 32 32 0 above (pos 5) blank ≡ fill_rect15 32 32 0 below (pos 5) blank)
    × (fill_rect16 32 32 0 above (pos 5) blank ≡ fill_rect16 32 32 0 below (pos 5) blank)
    × (fill_rect24 32 32 0 above (pos 5) blank ≡ fill_rect24 32 32 0 below (pos 5) blank)
unfolding on_screen ◌-ℤ◌
lines_coincide_example =
    lines_coincide kernel opened test_open refl above below (pos 5) blank refl refl
      (refl, refl, refl)

abbrev no_char : ℤ → ℤ → ℤ → ℤ → ℕ → Memory → Option (Memory × ℤ)
no_char x y fg bg c m = some (m, x +ℤ pos 8)

linear16-IsGraphDev_example :
    IsGraphDev (fb_linear16 32 32 64 no_char) FitsArea16
    × IsGraphDev (fb_linear15 32 32 64 no_char) FitsArea16
linear16-IsGraphDev_example = linear16-IsGraphDev 32 32 64 no_char
