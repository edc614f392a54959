-- ===== src/Tests/Vga.antt =====
-- Tests for the VGA drivers, with a card that has what they use: write mode 3, the colour and XOR.
use Prim.Native.Nat.{bit_xor}
use ucimf.Prelude.{
  ℕ, ◌+◌, ◌-◌, ◌*◌, ◌%◌, ◌<◌, true, ◌≡◌, refl, ◌==◌, ==_iff, if◌then◌else◌, arith, Option, some,
  all_below, all_below_sound,
}
use ucimf.Prelude.Int.{pos, ◌-ℤ◌}
use ucimf.Display.{Area, on_screen}
use ucimf.Display.Areas.{inside}
use ucimf.Display.Vga
use ucimf.Display.Vga.{Card, IsCard, bit, byte_of}
use ucimf.Display.Vga.Dev
use ucimf.Display.Vga.Dev.{Dev}
use ucimf.Display.Vga.Registers.{IsDefault, set_default_mode-IsDefault}
use ucimf.Display.Vga.Drawing.{pixel_at, fill_rect-planes, rev_rect-planes}
use ucimf.Display.Vga.Stale.{fill_rect-put_pixel}

record Planes : Type 0 where
  index : ℕ
  registers : ℕ → ℕ
  latches : ℕ → ℕ
  memory : ℕ → ℕ → ℕ

ink : Planes → ℕ → ℕ
ink s v =
    if s.registers 3 == 0x18 then bit_xor (v % 16) (s.registers 0 % 16) else s.registers 0 % 16

outb : ℕ → ℕ → Planes → Planes
outb v p s =
    if p == 0x3ce
    then record s { index = v }
    else record s { registers = λ j. if j == s.index then v else s.registers j }

write : ℕ → ℕ → Planes → Planes
write a v s = record s {
  memory = λ b k.
      if b == a then (if bit v k then ink s (s.latches k) else s.latches k) else s.memory b k;
}

abbrev card : Card Planes
card = record {
  outb = outb;
  read = λ a s. record s { latches = λ k. s.memory a k };
  write = write;
  selected = λ s. s.index;
  register = λ s j. s.registers j;
  latch = λ s k. s.latches k % 16;
  pixel = λ s b k. s.memory b k % 16;
}

xor_table : all_below 16 (λ v. bit_xor v 15 == 15 - v) ≡ true
unfolding all_below
xor_table = refl

inverted : (v : ℕ) → bit_xor (v % 16) 15 ≡ 15 - v % 16
inverted v = (==_iff _ _).0 (all_below_sound 16 _ (v % 16) xor_table (omega arith))

card-IsCard : IsCard card
unfolding outb write ink
card-IsCard = record {
  select_selected = λ v s. refl;
  select_register = λ v s j. refl;
  set_register = λ v s j. refl;
  outb_pixel = λ v p s b k. ground arith;
  read_latch = λ a s k. refl;
  read_register = λ a s j. refl;
  read_pixel = λ a s b k. refl;
  write_register = λ a v s j. refl;
  write_apart = λ a v s b k h. ground arith;
  write_color = λ a v s k lt m o. ground arith;
  write_inverted = λ a v s k lt m o i. ground (arith, inverted (s.latches k));
  pixel_bound = λ s b k. omega arith;
}

abbrev picture : Planes
picture = record { index = 0; registers = λ j. 255; latches = λ k. 0; memory = λ b k. b + k }

-- From the middle of the second byte of a line of 24 pixels into the third.
abbrev area : Area
area = record { x1 = pos 10; y1 = pos 1; x2 = pos 17; y2 = pos 2 }

after : Option Planes → ℕ → ℕ → ℕ
after (Option.some t) x y = pixel_at card 3 t x y
after Option.none x y = 99

-- The corners of the area, and pixels beside it.
test_fill :
    (after (Vga.fill_rect card 24 4 3 area (pos 12) picture) 10 1 ≡ 12)
    × (after (Vga.fill_rect card 24 4 3 area (pos 12) picture) 17 2 ≡ 12)
    × (after (Vga.fill_rect card 24 4 3 area (pos 12) picture) 9 1 ≡ 5)
    × (after (Vga.fill_rect card 24 4 3 area (pos 12) picture) 18 2 ≡ 10)
unfolding after Vga.fill_rect outb write ink on_screen ◌-ℤ◌
test_fill = (refl, refl, refl, refl)

fill_rect-planes_example :
    (t : Planes) × (Vga.fill_rect card 24 4 3 area (pos 5) picture ≡ some t)
    × ((x y : ℕ)
        → x < 8 * 3
        → pixel_at card 3 t x y ≡ (if inside area x y then 5 else pixel_at card 3 picture x y))
unfolding on_screen
fill_rect-planes_example =
    fill_rect-planes card card-IsCard 24 4 3 (omega arith) area (pos 5) picture refl

rev_rect-planes_example :
    (t : Planes) × (Vga.rev_rect card 24 4 3 area picture ≡ some t)
    × IsDefault card t
    × ((x y : ℕ)
        → x < 8 * 3
        → pixel_at card 3 t x y ≡ (
            if inside area x y
            then 15 - pixel_at card 3 picture x y
            else pixel_at card 3 picture x y))
unfolding on_screen
rev_rect-planes_example = rev_rect-planes card card-IsCard 24 4 3 (omega arith) area picture refl

-- The device behind `SetDefaultMode` and a `PutPixel` with colour 2.
abbrev device : Dev Planes
device = record { state = Vga.set_default_mode card picture; prev_color = pos 2 }

fill_rect-put_pixel_example :
    (e : Dev Planes) × (Dev.fill_rect card 24 4 3 area (pos 5) device ≡ some e)
    × ((x y : ℕ)
        → x < 8 * 3
        → pixel_at card 3 e.state x y
          ≡ (if inside area x y then 5 else pixel_at card 3 device.state x y))
    × ((x y : ℕ) → x < 8 * 3 → pixel_at card 3 (Dev.put_pixel card 3 x y (pos 2) e).state x y ≡ 5)
unfolding on_screen
fill_rect-put_pixel_example =
    fill_rect-put_pixel card card-IsCard 24 4 3 (omega arith) area (pos 5) device refl
      (set_default_mode-IsDefault card card-IsCard picture)
