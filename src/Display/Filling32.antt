-- ===== src/Display/Filling32.antt =====
-- `FillRect` of libucimf/display/fblinear32.cpp, pixel by pixel.
use native.Mathlib.Decide.{dec_lt}
use ucimf.Prelude.{
  ℕ, zero, suc, ◌+◌, ◌-◌, ◌*◌, ◌/◌, ◌%◌, ◌≤◌, ◌<◌, true, false, ◌&&◌, ltb, leb, ◌==◌, some, ◌≡◌,
  refl, sym, ap, ◌∙◌, arith, [], ◌∷◌, Bytes, length, if◌then◌else◌, if_true, if_false, bind_some,
  Bool-cases, inl, inr,
}
use ucimf.Prelude.Int.{ℤ, pos_part, -ℤ_parts}
use ucimf.Display.{Area, on_screen}
use ucimf.Display.Areas.{width, height, in_area, inside}
use ucimf.Display.Packed.{Memory, bytes_of, write_bytes}
use ucimf.Display.Linear32.{cfb32, fill_row32, fill_rect32}
use ucimf.Display.Filling.{length-bytes_of, simple_row, simple_lines, fill_lines-simple}

-- The bytes of a number, from the lowest on.
abbrev pub byte : ℕ → ℕ → ℕ
byte v zero = v % 256
byte v (suc j) = byte (v / 256) j

write_bytes_off :
    (a : ℕ) (bs : Bytes) (m : Memory) (i : ℕ)
    → (leb a i && ltb i (a + length bs)) ≡ false
    → write_bytes a bs m i ≡ m i
unfolding write_bytes
write_bytes_off a [] m i off = refl
write_bytes_off a (b ∷ bs) m i off =
    let other : (i == a) ≡ false = ground arith in
    write_bytes_off (a + 1) bs _ i (ground arith) ∙ if_false _ _ other

write_bytes-byte :
    (n a v j : ℕ) (m : Memory) → j < n → write_bytes a (bytes_of n v) m (a + j) ≡ byte v j
unfolding write_bytes
write_bytes-byte zero a v j m h = absurd (omega arith)
write_bytes-byte (suc n) a v zero m h =
    let here : (a + 0 == a) ≡ true = ground arith in
    write_bytes_off (a + 1) (bytes_of n (v / 256)) _ (a + 0) (ground arith) ∙ if_true _ _ here
write_bytes-byte (suc n) a v (suc j) m h =
    let next : a + suc j ≡ a + 1 + j = omega arith in
    ap (write_bytes (a + 1) (bytes_of n (v / 256)) _) next
    ∙ write_bytes-byte n (a + 1) (v / 256) j _ (omega arith)

module _ (v : ℕ) where
  row_off :
      (a w i : ℕ) (m : Memory)
      → (leb a i && ltb i (a + w * 4)) ≡ false
      → simple_row 4 v a w m i ≡ m i
  row_off a zero i m off = refl
  row_off a (suc w) i m off =
      row_off (a + 4) w i _ (ground arith)
      ∙ write_bytes_off a (bytes_of 4 v) m i (ground (arith, length-bytes_of 4 v))

  row_in :
      (a w k j : ℕ) (m : Memory) → k < w → j < 4 → simple_row 4 v a w m (a + (k * 4 + j)) ≡ byte v j
  row_in a zero k j m h g = absurd (omega arith)
  row_in a (suc w) zero j m h g =
      let here : a + (zero * 4 + j) ≡ a + j = omega arith in
      row_off (a + 4) w (a + (zero * 4 + j)) _ (ground arith)
      ∙ ap (write_bytes a (bytes_of 4 v) m) here
      ∙ write_bytes-byte 4 a v j m g
  row_in a (suc w) (suc k) j m h g =
      let next : a + (suc k * 4 + j) ≡ a + 4 + (k * 4 + j) = omega arith in
      ap (simple_row 4 v (a + 4) w (write_bytes a (bytes_of 4 v) m)) next
      ∙ row_in (a + 4) w k j _ (omega arith) g

  below_line : (n y z : ℕ) → y < z → n * y + n ≤ n * z
  below_line n y z h = grind arith

  next_line_of : (n y x : ℕ) → n * y + x + n ≡ n * suc y + x
  next_line_of n y x = grind arith

  -- Lines are as far apart as they are long.
  other_line :
      (n c w r y i : ℕ)
      → c + w * 4 ≤ n
      → i < n
      → in_area c r (w * 4) 1 i y ≡ false
      → (leb (n * r + c) (n * y + i) && ltb (n * y + i) (n * r + c + w * 4)) ≡ false
  other_line n c w r y i h k off = elim (dec_lt y r) [
    | yes lt ↦ let far = below_line n y r lt in ground arith
    | no le ↦ elim (dec_lt r y) [
      | yes lt ↦ let far = below_line n r y lt in ground arith
      | no ge ↦
          let e : y ≡ r = omega arith in let f : n * y ≡ n * r = ap (λ z. n * z) e in ground arith
    ]
  ]

  lines_off :
      (n c w r h y i : ℕ) (m : Memory)
      → c + w * 4 ≤ n
      → i < n
      → in_area c r (w * 4) h i y ≡ false
      → simple_lines 4 n v w (n * r + c) h m (n * y + i) ≡ m (n * y + i)
  lines_off n c w r zero y i m fits k off = refl
  lines_off n c w r (suc h) y i m fits k off =
      ap (λ a. simple_lines 4 n v w a h (simple_row 4 v (n * r + c) w m) (n * y + i))
        (next_line_of n r c)
      ∙ lines_off n c w (suc r) h y i _ fits k (ground arith)
      ∙ row_off (n * r + c) w (n * y + i) m (other_line n c w r y i fits k (ground arith))

  lines_in :
      (n c w r h d k j : ℕ) (m : Memory)
      → c + w * 4 ≤ n
      → d < h
      → k < w
      → j < 4
      → simple_lines 4 n v w (n * r + c) h m (n * (r + d) + (c + (k * 4 + j))) ≡ byte v j
  lines_in n c w r zero d k j m fits hd hk hj = absurd (omega arith)
  lines_in n c w r (suc h) zero k j m fits hd hk hj =
      let this : n * (r + zero) + (c + (k * 4 + j)) ≡ n * r + c + (k * 4 + j) =
        ap (λ y. n * y + (c + (k * 4 + j))) (no_more r) ∙ omega arith in
      ap
        (λ a.
          simple_lines 4 n v w a h (simple_row 4 v (n * r + c) w m)
            (n * (r + zero) + (c + (k * 4 + j))))
        (next_line_of n r c)
      ∙ lines_off n c w (suc r) h (r + zero) (c + (k * 4 + j)) _ fits (omega arith) (ground arith)
      ∙ ap (simple_row 4 v (n * r + c) w m) this
      ∙ row_in (n * r + c) w k j m hk hj
    where
      no_more : (r : ℕ) → r + zero ≡ r
      no_more r = omega arith
  lines_in n c w r (suc h) (suc d) k j m fits hd hk hj =
      ap
        (λ a.
          simple_lines 4 n v w a h (simple_row 4 v (n * r + c) w m)
            (n * (r + suc d) + (c + (k * 4 + j))))
        (next_line_of n r c)
      ∙ ap
          (λ y.
            simple_lines 4 n v w (n * suc r + c) h (simple_row 4 v (n * r + c) w m)
              (n * y + (c + (k * 4 + j))))
          (one_down r d)
      ∙ lines_in n c w (suc r) h d k j _ fits (omega arith) hk hj
    where
      one_down : (r d : ℕ) → r + suc d ≡ suc r + d
      one_down r d = omega arith

-- An area of the screen fits the lines.
fits_line :
    (xres yres n : ℕ) (a : Area)
    → xres * 4 ≤ n
    → on_screen xres yres a ≡ true
    → pos_part a.x1 * 4 + width a * 4 ≤ n
unfolding on_screen
fits_line xres yres n a h on = ground (arith, -ℤ_parts a.x2 a.x1)

-- The bytes of the pixels of an area, and the others.
lines_pixel :
    (v n x1 w y1 h x y j : ℕ) (m : Memory)
    → x1 * 4 + w * 4 ≤ n
    → x * 4 + j < n
    → j < 4
    → simple_lines 4 n v w (n * y1 + x1 * 4) h m (n * y + (x * 4 + j))
      ≡ (if in_area x1 y1 w h x y then byte v j else m (n * y + (x * 4 + j)))
lines_pixel v n x1 w y1 h x y j m fits hx hj = elim (Bool-cases (in_area x1 y1 w h x y)) [
  | inl on ↦
      let k = x - x1 in
      let d = y - y1 in
      let column : x * 4 + j ≡ x1 * 4 + (k * 4 + j) = ground arith in
      let line : y ≡ y1 + d = ground arith in
      ap (λ z. simple_lines 4 n v w (n * y1 + x1 * 4) h m (n * z + (x * 4 + j))) line
      ∙ ap (λ i. simple_lines 4 n v w (n * y1 + x1 * 4) h m (n * (y1 + d) + i)) column
      ∙ lines_in v n (x1 * 4) w y1 h d k j m fits (ground arith) (ground arith) hj
      ∙ sym (if_true _ _ on)
  | inr off ↦
      lines_off v n (x1 * 4) w y1 h y (x * 4 + j) m fits hx (ground arith) ∙ sym (if_false _ _ off)
]

-- Filling an area of the screen with a colour of the table succeeds: of every pixel of the screen,
-- the bytes are those of the colour's value, from the lowest on, if the pixel belongs to the area,
-- and what they were if not; if a line of the frame buffer is long enough for the screen.
pub fill_rect32_lem :
    (xres yres next_line : ℕ) (a : Area) (color : ℤ) (v : ℕ) (m : Memory) (x y j : ℕ)
    → xres * 4 ≤ next_line
    → on_screen xres yres a ≡ true
    → cfb32 color ≡ some v
    → x < xres
    → j < 4
    → (t : Memory) × (fill_rect32 xres yres next_line a color m ≡ some t)
      × (t (next_line * y + (x * 4 + j))
          ≡ (if inside a x y then byte v j else m (next_line * y + (x * 4 + j))))
unfolding fill_rect32 fill_row32
fill_rect32_lem xres yres next_line a color v m x y j long on known hx hj =
    let start = next_line * pos_part a.y1 + pos_part a.x1 * 4 in
    let fits = fits_line xres yres next_line a long on in
    (
      _,
      if_true _ _ on ∙ bind_some _ known,
      ap (λ (t : Memory). t (next_line * y + (x * 4 + j)))
            (fill_lines-simple 4 next_line v (width a) start (height a) _ m refl)
          ∙ lines_pixel v next_line (pos_part a.x1) (width a) (pos_part a.y1) (height a) x y j m
              fits (omega arith) hj,
    )
