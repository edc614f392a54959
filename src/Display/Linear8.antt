-- ===== src/Display/Linear8.antt =====
-- libucimf/display/fblinear8.cpp, one byte to a pixel: filling, single pixels, and restoring. `none`
-- is a failed assertion, a write before the frame buffer, or a read past the saved bytes.
use native.Mathlib.Nat.{mul-zero}
use ucimf.Prelude.{
  ℕ, zero, suc, ◌+◌, ◌-◌, ◌*◌, ◌%◌, ◌<◌, true, false, Option, none, some, ◌≡◌, refl, sym, ap, ◌∙◌,
  arith, ltb, if◌then◌else◌, [], ◌∷◌, ◌>>=◌, Bytes, length, Bool-cases, inl, inr, if_true, if_false,
}
use ucimf.Prelude.Int.{ℤ, pos, negsuc, pos_part, neg_part, ◌-ℤ◌}
use ucimf.Display.{Area, on_screen}
use ucimf.Display.Areas.{width, height}
use ucimf.Display.Packed.{Memory, write_bytes, repeat, fill_lines, fill_by}

-- The byte of a colour, which is its number.
unfoldable pub byte_of_color : ℤ → ℕ
byte_of_color (pos n) = n % 256
byte_of_color (negsuc n) = 255 - n % 256

-- `memset` of a line.
unfoldable pub fill_row8 : ℕ → ℕ → Bytes
fill_row8 v w = repeat w (v ∷ [])

-- The rest of the saved bytes, `n` bytes on.
unfoldable pub drop : ℕ → Bytes → Bytes
drop zero b = b
drop (suc n) [] = []
drop (suc n) (x ∷ b) = drop n b

-- `fb_writeb( *buf8, dest8 )`, for the bytes of one line.
unfoldable pub rstr_bytes : ℕ → ℕ → Bytes → Memory → Option Memory
rstr_bytes dest zero b m = some m
rstr_bytes dest (suc n) [] m = none
rstr_bytes dest (suc n) (x ∷ b) m = rstr_bytes (dest + 1) n b (write_bytes dest (x ∷ []) m)

-- `buf += mNextLine`: the saved bytes are read a line of the screen apart.
unfoldable pub rstr_lines8 : ℕ → ℕ → ℕ → ℕ → Bytes → Memory → Option Memory
rstr_lines8 next_line dest w zero b m = some m
rstr_lines8 next_line dest w (suc h) b m =
    rstr_bytes dest w b m >>= rstr_lines8 next_line (dest + next_line) w h (drop next_line b)

module _ (xres yres next_line : ℕ) where
  unfoldable pub fill_rect8 : Area → ℤ → Memory → Option Memory
  fill_rect8 = fill_by xres yres next_line 1 (λ c. some (byte_of_color c)) fill_row8

  unfoldable pub rstr_rect8 : Area → Bytes → Memory → Option Memory
  rstr_rect8 a b m =
      if on_screen xres yres a
      then rstr_lines8 next_line (next_line * pos_part a.y1 + pos_part a.x1) (width a) (height a) b
          m
      else none

  -- Nothing is asserted: the place is only counted.
  unfoldable pub put_pixel8 : ℤ → ℤ → ℤ → Memory → Option Memory
  put_pixel8 x y color m =
      let up = next_line * pos_part y + pos_part x in
      let down = next_line * neg_part y + neg_part x in
      if ltb up down then none else some (write_bytes (up - down) (byte_of_color color ∷ []) m)

-- How many bytes a reading of `suc h` lines has to find.
abbrev reach : ℕ → ℕ → ℕ → ℕ
reach next_line w zero = w
reach next_line w (suc h) = next_line + reach next_line w h

rstr_bytes_past :
    (dest n : ℕ) (b : Bytes) (m : Memory) → length b < n → rstr_bytes dest n b m ≡ none
unfolding rstr_bytes
rstr_bytes_past dest zero b m h = absurd (omega arith)
rstr_bytes_past dest (suc n) [] m h = refl
rstr_bytes_past dest (suc n) (x ∷ b) m h = rstr_bytes_past (dest + 1) n b _ (omega arith)

length-drop : (n k : ℕ) (b : Bytes) → 0 < k → length b < n + k → length (drop n b) < k
unfolding drop
length-drop zero k b p h = omega arith
length-drop (suc n) k [] p h = p
length-drop (suc n) k (x ∷ b) p h = length-drop n k b p (omega arith)

reach_positive : (next_line w h : ℕ) → 0 < w → 0 < reach next_line w h
reach_positive next_line w zero p = p
reach_positive next_line w (suc h) p = omega (arith, reach_positive next_line w h p)

rstr_lines8_past :
    (next_line dest w h : ℕ) (b : Bytes) (m : Memory)
    → 0 < w
    → length b < reach next_line w h
    → rstr_lines8 next_line dest w (suc h) b m ≡ none
unfolding rstr_lines8
rstr_lines8_past next_line dest w zero b m p h =
    ap (λ o. o >>= rstr_lines8 next_line (dest + next_line) w 0 (drop next_line b))
      (rstr_bytes_past dest w b m h)
rstr_lines8_past next_line dest w (suc h) b m p less =
    elim (rstr_bytes dest w b m)
      as (λ o.
        (o >>= rstr_lines8 next_line (dest + next_line) w (suc h) (drop next_line b)) ≡ none) [
          | none ↦ refl
          | some t ↦
              rstr_lines8_past next_line (dest + next_line) w h (drop next_line b) t p (
                length-drop next_line (reach next_line w h) b (reach_positive next_line w h p) less)
        ]

area_short : (next_line w h : ℕ) → w < next_line → suc (suc h) * w < reach next_line w (suc h)
area_short next_line w zero p = omega arith
area_short next_line w (suc h) p = omega (arith, area_short next_line w h p)

rstr_bytes_whole :
    (dest n : ℕ) (b : Bytes) (m : Memory)
    → length b ≡ n
    → rstr_bytes dest n b m ≡ some (write_bytes dest b m)
unfolding rstr_bytes write_bytes
rstr_bytes_whole dest zero [] m e = refl
rstr_bytes_whole dest zero (x ∷ b) m e = absurd (omega arith)
rstr_bytes_whole dest (suc n) [] m e = absurd (omega arith)
rstr_bytes_whole dest (suc n) (x ∷ b) m e = rstr_bytes_whole (dest + 1) n b _ (omega arith)

-- An area of one line is restored by writing the bytes that were saved of it.
rstr_rect8_line :
    (xres yres next_line : ℕ) (a : Area) (b : Bytes) (m : Memory)
    → on_screen xres yres a ≡ true
    → height a ≡ 1
    → length b ≡ width a
    → rstr_rect8 xres yres next_line a b m
      ≡ some (write_bytes (next_line * pos_part a.y1 + pos_part a.x1) b m)
unfolding rstr_rect8 rstr_lines8
rstr_rect8_line xres yres next_line a b m on one size =
    let start = next_line * pos_part a.y1 + pos_part a.x1 in
    if_true _ _ on
    ∙ ap (λ h. rstr_lines8 next_line start (width a) h b m) one
    ∙ ap (λ o. o >>= λ t. some t) (rstr_bytes_whole start (width a) b m size)

-- An area of more lines, narrower than a line of the screen, can never be restored from as many
-- bytes as it has: the copy reads past their end.
pub rstr_rect8_past :
    (xres yres next_line : ℕ) (a : Area) (b : Bytes) (m : Memory)
    → length b ≡ height a * width a
    → 1 < height a
    → width a < next_line
    → rstr_rect8 xres yres next_line a b m ≡ none
unfolding rstr_rect8
rstr_rect8_past xres yres next_line a b m size more narrow =
    elim (Bool-cases (on_screen xres yres a)) [
      | inl on ↦ if_true _ _ on ∙ never (height a) more size
      | inr off ↦ if_false _ _ off
    ]
  where
    never :
        (h : ℕ)
        → 1 < h
        → length b ≡ h * width a
        → rstr_lines8 next_line (next_line * pos_part a.y1 + pos_part a.x1) (width a) h b m ≡ none
    never zero k e = absurd (omega arith)
    never (suc zero) k e = absurd (omega arith)
    never (suc (suc h)) k e =
        rstr_lines8_past next_line _ (width a) (suc h) b m (omega arith)
          (omega (arith, e, area_short next_line (width a) h narrow))

pixel_on_screen :
    (xres yres x y : ℕ)
    → x < xres
    → y < yres
    → on_screen xres yres (record { x1 = pos x; y1 = pos y; x2 = pos x; y2 = pos y }) ≡ true
unfolding on_screen
pixel_on_screen xres yres x y left above = ground arith

no_distance : (x : ℕ) → pos_part (pos x -ℤ pos x) ≡ 0
unfolding ◌-ℤ◌
no_distance x = ground arith

-- Filling an area of one pixel is setting that pixel.
fill_rect8-put_pixel8 :
    (xres yres next_line x y : ℕ) (color : ℤ) (m : Memory)
    → x < xres
    → y < yres
    → fill_rect8 xres yres next_line
        (record { x1 = pos x; y1 = pos y; x2 = pos x; y2 = pos y })
        color
        m
      ≡ put_pixel8 xres yres next_line (pos x) (pos y) color m
unfolding fill_rect8 put_pixel8 fill_row8 repeat fill_lines
fill_rect8-put_pixel8 xres yres next_line x y color m left above =
    let c = byte_of_color color in
    let origin : next_line * 0 + 0 ≡ 0 = omega (arith, mul-zero next_line) in
    let there : next_line * y + x * 1 ≡ next_line * y + x - (next_line * 0 + 0) =
      omega (arith, origin) in
    let not_before : ltb (next_line * y + x) (next_line * 0 + 0) ≡ false = ground (arith, origin) in
    if_true _ _ (pixel_on_screen xres yres x y left above)
    ∙ ap
        (λ w. some (
          fill_lines next_line (fill_row8 c (w + 1)) (next_line * y + x * 1)
            (pos_part (pos y -ℤ pos y) + 1) m))
        (no_distance x)
    ∙ ap (λ h. some (fill_lines next_line (fill_row8 c 1) (next_line * y + x * 1) (h + 1) m))
        (no_distance y)
    ∙ ap (λ a. some (write_bytes a (c ∷ []) m)) there
    ∙ sym (if_false _ _ not_before)
