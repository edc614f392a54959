-- ===== src/Tests/Fonts.antt =====
-- Tests for the fonts of libucimf/font/font.cpp.
use ucimf.Prelude.{
  ℕ, ◌+◌, ◌%◌, Bool, arith, true, false, [], ◌∷◌, none, some, ◌≡◌, refl, ◌==◌, ltb, if◌then◌else◌,
}
use ucimf.Prelude.Int.{pos, ◌+ℤ◌, ◌-ℤ◌, ◌≤ℤ◌}
use ucimf.Widget.Lines.{Font, advance}
use ucimf.Fonts.Setup.{FixedSize, create_instance}
use ucimf.Fonts.Listed.{IsDistinct, Covers, create_instance_lem}
use ucimf.Fonts.{FreeType, Glyph, Fonts, font_index, render, s16, shift6, get_glyphs, new_fonts}
use ucimf.Fonts.Cache.{fresh_glyph}
use ucimf.Fonts.Requests.{fresh_glyphs, get_glyphs-new_fonts}
use ucimf.Fonts.OutChar.{
  Pen, IsDrawn, IsExact, draw_row, draw_rows, draw_char, out_char, out_char-advance,
}

-- A library of two fonts, of which the second cannot be opened; the first one has the letters only.
abbrev library : FreeType
library = record {
  nfont = 2;
  unicode_map = λ u. ltb u 128;
  charset = λ i u. if i == 0 then ltb 64 u else true;
  pattern = λ i. record { scalable = true; antialias = true; hinting = true; hint_none = false };
  new_face = λ i. i == 0;
  char_index = λ i u. u;
  load_glyph = λ i index flags. record {
    bitmap = record { width = 2; rows = 1; pitch = 2; mono = false; buffer = 0 ∷ 255 ∷ [] };
    hori_bearing_x = pos 64;
    hori_bearing_y = pos 128;
    metrics_width = pos 128;
    metrics_height = pos 64;
  };
  descender = λ i. pos 0;
  load_flags = record {
    load_render = 4;
    load_default = 0;
    load_no_bitmap = 8;
    load_no_hinting = 2;
    load_target_light = 65536;
    load_target_mono = 131072;
  };
}

abbrev letter : Glyph
letter = record {
  pitch = pos 2;
  width = pos 2;
  height = pos 1;
  left = pos 1;
  top = pos 13;
  pixmap = 0 ∷ 255 ∷ [];
}

drawn_afresh :
    fresh_glyphs library 16 (65 ∷ 32 ∷ 65 ∷ 70000 ∷ [])
    ≡ some (some letter ∷ none ∷ some letter ∷ none ∷ [])
unfolding fresh_glyph font_index render s16 shift6 ◌+ℤ◌ ◌-ℤ◌
drawn_afresh = refl

get_glyphs-new_fonts_example :
    (v : Fonts) × (get_glyphs library 16
        (65 ∷ 32 ∷ 65 ∷ 70000 ∷ [])
        (new_fonts library (λ i. 99) (λ u. none))
      ≡ some (v, some letter ∷ none ∷ some letter ∷ none ∷ []))
get_glyphs-new_fonts_example =
    get_glyphs-new_fonts library 16 (λ i. 99) (λ u. none) (65 ∷ 32 ∷ 65 ∷ 70000 ∷ [])
      (some letter ∷ none ∷ some letter ∷ none ∷ []) drawn_afresh

-- The device counts the pixels that are drawn.
abbrev pen : Pen ℕ
pen = record {
  font_width = 8;
  font_height = 16;
  xres = 64;
  yres = 48;
  put_pixel = λ x y c n. some (n + 1);
}

abbrev small : Font
small = record { width = 8; height = 16; glyph = λ c. some (record { width = 2; left = pos 1 }) }

letter_drawn : out_char pen (some letter) (pos 10) (pos 0) (pos 7) 0 ≡ some (1, pos 15)
unfolding out_char draw_char draw_rows draw_row ◌+ℤ◌
letter_drawn = refl

out_char-advance_example :
    (IsDrawn (some letter) → (pos 10 +ℤ advance small 65) ≤ℤ pos 15)
    × (IsExact (some letter) → pos 15 ≡ pos 10 +ℤ advance small 65)
out_char-advance_example =
    out_char-advance pen small (λ c. some letter) 65 (pos 10) (pos 0) (pos 7) 0 (1, pos 15)
      (λ c. refl) refl letter_drawn

-- Fonts by number; the last digit is the family.
abbrev family : ℕ → ℕ → Bool
family a b = a % 10 == b % 10

family_refl : (a : ℕ) → family a a ≡ true
family_refl a = ground arith

create_instance_lem_example :
    IsDistinct family (1 ∷ 2 ∷ [])
    × Covers family (1 ∷ 2 ∷ []) (some 1 ∷ none ∷ some 11 ∷ some 2 ∷ [])
create_instance_lem_example =
    create_instance_lem family family_refl (some 1 ∷ none ∷ some 11 ∷ some 2 ∷ []) (1 ∷ 2 ∷ [])
      (unfold create_instance in refl)

-- Sizes of 10, 14 and 16 pixels, in 64ths.
abbrev ten : FixedSize
ten = record { size = 640; height = 10; width = 5 }

abbrev fourteen : FixedSize
fourteen = record { size = 896; height = 14; width = 7 }

abbrev sixteen : FixedSize
sixteen = record { size = 1024; height = 16; width = 8 }
