-- ===== src/Display/Packed.antt =====
-- `FillRect` and `RevRect` of libucimf/display/fblinear16.cpp, fblinear15.cpp and fblinear24.cpp:
-- frame buffers whose pixels are shorter than the words that the loops write. The memory gives each
-- byte's value; a word is written from its lowest byte on. A `|` of values that have no bit in
-- common is `+`.
use ucimf.Prelude.{
  List, ℕ, zero, suc, ◌+◌, ◌-◌, ◌*◌, ◌/◌, ◌%◌, ◌^◌, Option, none, some, ◌==◌, if◌then◌else◌, [],
  ◌∷◌, ◌++◌, ◌>>=◌, Bytes, get_elem?,
}
use ucimf.Prelude.Int.{ℤ, pos, negsuc, pos_part}
use ucimf.Display.{Area, on_screen}
use ucimf.Display.Areas.{width, height}

abbrev pub Memory : Type 0
Memory = ℕ → ℕ

-- The lowest `n` bytes of a value, as `fb_writeb`, `fb_writew` and `fb_writel` write them.
abbrev pub bytes_of : ℕ → ℕ → Bytes
bytes_of zero v = []
bytes_of (suc n) v = v % 256 ∷ bytes_of n (v / 256)

unfoldable pub write_bytes : ℕ → Bytes → Memory → Memory
write_bytes a [] m = m
write_bytes a (b ∷ bs) m = write_bytes (a + 1) bs (λ i. if i == a then b else m i)

-- The same bytes again and again.
unfoldable pub repeat : ℕ → Bytes → Bytes
repeat zero b = []
repeat (suc n) b = b ++ repeat n b

-- The colour tables of libucimf/display/fbdev.cpp.
abbrev pub red16 : List ℕ
red16 =
    0 ∷ 0 ∷ 0 ∷ 0 ∷ 0xaaaa ∷ 0xaaaa ∷ 0xaaaa ∷ 0xaaaa ∷ 0x5555 ∷ 0x5555 ∷ 0x5555 ∷ 0x5555 ∷ 0xffff
    ∷ 0xffff ∷ 0xffff ∷ 0xffff ∷ []

abbrev pub green16 : List ℕ
green16 =
    0 ∷ 0 ∷ 0xaaaa ∷ 0xaaaa ∷ 0 ∷ 0 ∷ 0x5555 ∷ 0xaaaa ∷ 0x5555 ∷ 0x5555 ∷ 0xffff ∷ 0xffff ∷ 0x5555
    ∷ 0x5555 ∷ 0xffff ∷ 0xffff ∷ []

abbrev pub blue16 : List ℕ
blue16 =
    0 ∷ 0xaaaa ∷ 0 ∷ 0xaaaa ∷ 0 ∷ 0xaaaa ∷ 0 ∷ 0xaaaa ∷ 0x5555 ∷ 0xffff ∷ 0x5555 ∷ 0xffff ∷ 0x5555
    ∷ 0xffff ∷ 0x5555 ∷ 0xffff ∷ []

abbrev pub color_of : (ℕ → ℕ → ℕ → ℕ) → ℤ → Option ℕ
color_of f (negsuc n) = none
color_of f (pos i) = get_elem? red16 i >>= λ r.
    get_elem? green16 i >>= λ g. get_elem? blue16 i >>= λ b. some (f r g b)

-- An entry of the colour table, as each driver's `InitColorMap` fills it.
unfoldable pub cfb16 : ℤ → Option ℕ
cfb16 = color_of λ r g b. r / 2048 * 2048 + g / 1024 * 32 + b / 2048

unfoldable pub cfb15 : ℤ → Option ℕ
cfb15 = color_of λ r g b. r / 2048 * 1024 + g / 2048 * 32 + b / 2048

unfoldable pub cfb24 : ℤ → Option ℕ
cfb24 = color_of λ r g b. r / 256 * 65536 + g / 256 * 256 + b / 256

-- What the loop over one line writes: two pixels to a word, and an odd one.
unfoldable pub fill_row16 : ℕ → ℕ → Bytes
fill_row16 v w =
    let fgx = (v + v * 2 ^ 16) % 2 ^ 32 in
    repeat (w / 2) (bytes_of 4 fgx) ++ (if w % 2 == 1 then bytes_of 2 fgx else [])

-- `store4pixels`
unfoldable pub store4pixels : ℕ → ℕ → ℕ → ℕ → Bytes
store4pixels d1 d2 d3 d4 =
    bytes_of 4 (d1 + d2 * 2 ^ 24 % 2 ^ 32)
    ++ bytes_of 4 (d2 / 2 ^ 8 + d3 * 2 ^ 16 % 2 ^ 32)
    ++ bytes_of 4 (d3 / 2 ^ 16 + d4 * 2 ^ 8 % 2 ^ 32)

-- Four pixels to three words, then two pixels, then one.
unfoldable pub fill_row24 : ℕ → ℕ → Bytes
fill_row24 v w =
    repeat (w / 4) (store4pixels v v v v)
    ++ (if w / 2 % 2 == 1
        then bytes_of 4 (v + v * 2 ^ 24 % 2 ^ 32) ++ bytes_of 2 (v / 2 ^ 8)
        else [])
    ++ (if w % 2 == 1 then bytes_of 2 v ++ bytes_of 1 (v / 2 ^ 16) else [])

-- `for(; height--; dest += mNextLine)`
unfoldable pub fill_lines : ℕ → Bytes → ℕ → ℕ → Memory → Memory
fill_lines next_line row dest zero m = m
fill_lines next_line row dest (suc h) m =
    fill_lines next_line row (dest + next_line) h (write_bytes dest row m)

module _ (xres yres next_line : ℕ) where
  -- The whole of `FillRect`, for the bytes of a pixel, a colour table and the writing of a line.
  abbrev pub fill_by : ℕ → (ℤ → Option ℕ) → (ℕ → ℕ → Bytes) → Area → ℤ → Memory → Option Memory
  fill_by size table row a color m =
      if on_screen xres yres a
      then table color >>= (λ v. some (
          fill_lines next_line (row v (width a)) (next_line * pos_part a.y1 + pos_part a.x1 * size)
            (height a) m))
      else none

  unfoldable pub fill_rect16 : Area → ℤ → Memory → Option Memory
  fill_rect16 = fill_by 2 cfb16 fill_row16

  unfoldable pub fill_rect15 : Area → ℤ → Memory → Option Memory
  fill_rect15 = fill_by 2 cfb15 fill_row16

  unfoldable pub fill_rect24 : Area → ℤ → Memory → Option Memory
  fill_rect24 = fill_by 3 cfb24 fill_row24

-- The value of a word of `n` bytes.
abbrev pub value : ℕ → ℕ → Memory → ℕ
value a zero m = 0
value a (suc n) m = m a + 256 * value (a + 1) n m

-- `fb_writel(fb_readl(p) ^ 0xffffffff, p++)`, and the same for words of 2 bytes and of 1; the value
-- is read before `p` is moved on, as C++17 has it for an assignment.
unfoldable pub rev_word : ℕ → ℕ → Memory → Memory
rev_word a n m = write_bytes a (bytes_of n (256 ^ n - 1 - value a n m)) m

-- Words of the given sizes, one behind the other.
unfoldable pub rev_words : ℕ → List ℕ → Memory → Memory
rev_words a [] m = m
rev_words a (n ∷ ns) m = rev_words (a + n) ns (rev_word a n m)

unfoldable pub longs : ℕ → List ℕ
longs zero = []
longs (suc n) = 4 ∷ longs n

abbrev pub sizes16 : ℕ → List ℕ
sizes16 w = longs (w / 2) ++ (if w % 2 == 1 then 2 ∷ [] else [])

abbrev pub sizes24 : ℕ → List ℕ
sizes24 w =
    longs (w / 4 * 3)
    ++ (if w / 2 % 2 == 1 then 4 ∷ 2 ∷ [] else [])
    ++ (if w % 2 == 1 then 2 ∷ 1 ∷ [] else [])

unfoldable pub rev_lines : ℕ → List ℕ → ℕ → ℕ → Memory → Memory
rev_lines next_line sizes dest zero m = m
rev_lines next_line sizes dest (suc h) m =
    rev_lines next_line sizes (dest + next_line) h (rev_words dest sizes m)

module _ (xres yres next_line : ℕ) where
  unfoldable pub rev_rect16 : Area → Memory → Option Memory
  rev_rect16 a m =
      if on_screen xres yres a
      then some (
          rev_lines next_line (sizes16 (width a)) (next_line * pos_part a.y1 + pos_part a.x1 * 2)
            (height a) m)
      else none

  unfoldable pub rev_rect24 : Area → Memory → Option Memory
  rev_rect24 a m =
      if on_screen xres yres a
      then some (
          rev_lines next_line (sizes24 (width a)) (next_line * pos_part a.y1 + pos_part a.x1 * 3)
            (height a) m)
      else none
