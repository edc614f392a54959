-- ===== src/Tests/Driver.antt =====
-- Tests for the drivers libucimf/display/fblinear16.cpp, fblinear24.cpp and fblinear32.cpp.
use ucimf.Display.Restoring.{
  save_rect24, rstr_rect24, save_lines24, save_bytes, rstr_rect24-save_rect24,
}
use ucimf.Display.Packed.{
  Memory, cfb16, cfb15, cfb24, fill_rect16, fill_rect15, fill_rect24, rev_rect16, rev_rect24,
}
use ucimf.Display.Reversing.{rev_by_bytes, rev_rect-rev_by_bytes}
use ucimf.Display.Filling.{simple_fill, fill_rect-simple}
use ucimf.Prelude.{◌+◌, ◌*◌, ◌%◌, if◌then◌else◌, true, [], ◌∷◌, none, some, ◌≡◌, refl, arith}
use ucimf.Prelude.Int.{pos, ◌-ℤ◌}
use ucimf.Display.{Area, on_screen}
use ucimf.Display.Areas.{inside}
use ucimf.Display.Linear8.{rstr_rect8, rstr_rect8_past}
use ucimf.Display.Linear32.{cfb32, fill_rect32}
use ucimf.Display.Filling32.{byte, fill_rect32_lem}

abbrev square : Area
square = record { x1 = pos 2; y1 = pos 3; x2 = pos 5; y2 = pos 6 }

square_on : on_screen 64 48 square ≡ true
unfolding on_screen
square_on = refl

light_gray : cfb32 (pos 7) ≡ some 0xaaaaaa
unfolding cfb32
light_gray = refl

fill_rect32_lem_example :
    (t : Memory) × (fill_rect32 64 48 256 square (pos 7) (λ i. i) ≡ some t)
    × (t (256 * 4 + (3 * 4 + 2)) ≡ (if inside square 3 4 then byte 0xaaaaaa 2 else 1038))
fill_rect32_lem_example =
    fill_rect32_lem 64 48 256 square (pos 7) 0xaaaaaa (λ i. i) 3 4 2 (omega arith) square_on
      light_gray (omega arith) (omega arith)

-- Two lines of two pixels, on a screen of 8 by 4 with 8 bits to a pixel.
abbrev two_by_two : Area
two_by_two = record { x1 = pos 1; y1 = pos 1; x2 = pos 2; y2 = pos 2 }

rstr_rect8_past_example : rstr_rect8 8 4 8 two_by_two (1 ∷ 2 ∷ 3 ∷ 4 ∷ []) (λ i. 0) ≡ none
unfolding ◌-ℤ◌
rstr_rect8_past_example =
    rstr_rect8_past 8 4 8 two_by_two (1 ∷ 2 ∷ 3 ∷ 4 ∷ []) (λ i. 0) refl (omega arith) (omega arith)

-- A frame buffer of 24 bits, of 8 by 4 pixels, and an area of 7 by 2.
fill_rect-simple_example :
    let a : Area = record { x1 = pos 1; y1 = pos 1; x2 = pos 7; y2 = pos 2 } in
    let m : Memory = λ i. i in
    (fill_rect16 8 4 24 a (pos 5) m ≡ simple_fill 8 4 24 2 cfb16 a (pos 5) m)
    × (fill_rect15 8 4 24 a (pos 5) m ≡ simple_fill 8 4 24 2 cfb15 a (pos 5) m)
    × (fill_rect24 8 4 24 a (pos 5) m ≡ simple_fill 8 4 24 3 cfb24 a (pos 5) m)
fill_rect-simple_example =
    fill_rect-simple 8 4 24 (record { x1 = pos 1; y1 = pos 1; x2 = pos 7; y2 = pos 2 }) (pos 5)
      (λ i. i)

-- An area of two pixels.
two_saved :
    save_rect24 8 4 24 (record { x1 = pos 1; y1 = pos 1; x2 = pos 2; y2 = pos 1 }) (λ i. i)
    ≡ some (27 ∷ 28 ∷ 29 ∷ 30 ∷ 31 ∷ 32 ∷ [])
unfolding save_rect24 save_lines24 save_bytes on_screen ◌-ℤ◌
two_saved = refl

rstr_rect24-save_rect24_example :
    rstr_rect24 8 4 24
      (record { x1 = pos 1; y1 = pos 1; x2 = pos 2; y2 = pos 1 })
      (27 ∷ 28 ∷ 29 ∷ 30 ∷ 31 ∷ 32 ∷ [])
      (λ i. 0)
    ≡ none
rstr_rect24-save_rect24_example =
    rstr_rect24-save_rect24 8 4 24 (record { x1 = pos 1; y1 = pos 1; x2 = pos 2; y2 = pos 1 })
      (λ i. i) (λ i. 0) (27 ∷ 28 ∷ 29 ∷ 30 ∷ 31 ∷ 32 ∷ []) two_saved

rev_rect-rev_by_bytes_example :
    let a : Area = record { x1 = pos 1; y1 = pos 1; x2 = pos 7; y2 = pos 2 } in
    let m : Memory = λ i. i % 256 in
    (rev_rect16 8 4 24 a m ≡ rev_by_bytes 8 4 24 2 a m)
    × (rev_rect24 8 4 24 a m ≡ rev_by_bytes 8 4 24 3 a m)
rev_rect-rev_by_bytes_example =
    rev_rect-rev_by_bytes 8 4 24 (record { x1 = pos 1; y1 = pos 1; x2 = pos 7; y2 = pos 2 })
      (λ i. i % 256) (λ i. omega arith)
