-- ===== src/Fonts.antt =====
-- libucimf/font/font.cpp: the faces of the fonts, which are opened when they are needed, and the
-- cache of glyphs. Fontconfig and FreeType are parameters. `none` is a read of memory that was
-- never set, or past a buffer.
use Prim.Native.Nat.{bit_or}
use ucimf.Prelude.{
  ℕ, zero, suc, ◌+◌, ◌-◌, ◌*◌, ◌/◌, ◌%◌, ◌^◌, Bool, true, false, not, ◌&&◌, ◌||◌, Option, none,
  some, ltb, leb, ◌==◌, if◌then◌else◌, List, [], ◌∷◌, ◌++◌, ◌>>=◌, Bytes, get_elem?,
}
use ucimf.Prelude.Int.{ℤ, pos, negsuc, ◌+ℤ◌, ◌-ℤ◌}
pub mod Cache
pub mod Requests
pub mod OutChar
pub mod Setup
pub mod Listed

-- What `openFont` asks of a pattern.
pub record Pattern : Type 0 where
  pub scalable : Bool
  pub antialias : Bool
  pub hinting : Bool
  pub hint_none : Bool

-- FT_LOAD_DEFAULT and the others.
pub record LoadFlags : Type 0 where
  pub load_render : ℕ
  pub load_default : ℕ
  pub load_no_bitmap : ℕ
  pub load_no_hinting : ℕ
  pub load_target_light : ℕ
  pub load_target_mono : ℕ

pub record Bitmap : Type 0 where
  pub width : ℕ
  pub rows : ℕ
  pub pitch : ℕ
  pub mono : Bool
  pub buffer : Bytes

-- The glyph slot of a face after `FT_Load_Glyph`.
pub record Slot : Type 0 where
  pub bitmap : Bitmap
  pub hori_bearing_x : ℤ
  pub hori_bearing_y : ℤ
  pub metrics_width : ℤ
  pub metrics_height : ℤ

-- The font list and the faces, by a font's place in the list; `new_face` is whether the face can be
-- opened.
pub record FreeType : Type 0 where
  pub nfont : ℕ
  pub unicode_map : ℕ → Bool
  pub charset : ℕ → ℕ → Bool
  pub pattern : ℕ → Pattern
  pub new_face : ℕ → Bool
  pub char_index : ℕ → ℕ → ℕ
  pub load_glyph : ℕ → ℕ → ℕ → Slot
  pub descender : ℕ → ℤ
  pub load_flags : LoadFlags

-- `Font::Glyph`
pub record Glyph : Type 0 where
  pub pitch : ℤ
  pub width : ℤ
  pub height : ℤ
  pub left : ℤ
  pub top : ℤ
  pub pixmap : Bytes

-- An entry of `fontFaces`: 0, -1 or a face.
pub data Face : Type 0 where
  closed : Face
  failed : Face
  opened : Face

-- The arrays of the file, as functions; a cell of `cache` is `none` until it is set, and `some none`
-- is a null pointer.
pub record Fonts : Type 0 where
  pub faces : ℕ → Face
  pub flags : ℕ → ℕ
  pub cache : ℕ → Option (Option Glyph)
  pub cache_inited : ℕ → Bool

abbrev pub set_at : {A : Type 0} → ℕ → A → (ℕ → A) → ℕ → A
set_at i v f j = if j == i then v else f j

-- A value stored in 16 bits with a sign.
abbrev low16 : ℤ → ℕ
low16 (pos n) = n % 65536
low16 (negsuc n) = 65535 - n % 65536

unfoldable pub s16 : ℤ → ℤ
s16 a = let v = low16 a in if ltb v 32768 then pos v else negsuc (65535 - v)

-- `>> 6`
unfoldable pub shift6 : ℤ → ℤ
shift6 (pos n) = pos (n / 64)
shift6 (negsuc n) = negsuc (n / 64)

module _ (lib : FreeType) where
  -- `load_flags`, as `openFont` computes them.
  unfoldable pub flags_for : ℕ → ℕ
  flags_for i =
      let p = lib.pattern i in
      let f = lib.load_flags in
      let flags =
        if p.scalable && p.antialias
        then bit_or f.load_default f.load_no_bitmap
        else f.load_default in
      if p.antialias
      then if not p.hinting || p.hint_none
        then bit_or flags f.load_no_hinting
        else bit_or flags f.load_target_light
      else bit_or flags f.load_target_mono

  unfoldable pub open_font : ℕ → Fonts → Fonts
  open_font i t =
      if leb lib.nfont i
      then t
      else if lib.new_face i
      then record t { faces = set_at i opened t.faces; flags = set_at i (flags_for i) t.flags }
      else record t { faces = set_at i failed t.faces }

  -- The loop of `fontIndex`, from the font at place `i` on.
  abbrev pub first_font : ℕ → ℕ → ℕ → Option ℕ
  first_font zero i unicode = none
  first_font (suc n) i unicode =
      let rest = first_font n (i + 1) unicode in if lib.charset i unicode then some i else rest

  unfoldable pub font_index : ℕ → Option ℕ
  font_index unicode = if lib.unicode_map unicode then first_font lib.nfont 0 unicode else none

  -- One pixel of the bitmap, whose rows begin at `base`.
  abbrev pixel : Bitmap → ℕ → ℕ → Option ℕ
  pixel b base x =
      if b.mono
      then get_elem? b.buffer (base + x / 8)
        >>= (λ v. some (if v / 2 ^ (7 - x % 8) % 2 == 1 then 0xff else 0))
      else get_elem? b.buffer (base + x)

  abbrev copy_row : Bitmap → ℕ → ℕ → ℕ → Option Bytes
  copy_row b base x zero = some []
  copy_row b base x (suc n) =
      pixel b base x >>= λ v. copy_row b base (x + 1) n >>= λ r. some (v ∷ r)

  abbrev copy_rows : Bitmap → ℕ → ℕ → Option Bytes
  copy_rows b base zero = some []
  copy_rows b base (suc h) =
      copy_row b base 0 b.width >>= λ r. copy_rows b (base + b.pitch) h >>= λ rs. some (r ++ rs)

  module _ (font_height : ℕ) where
    -- The glyph that is made of a loaded one; `font_height` is `mHeight`.
    unfoldable pub render : ℕ → ℕ → ℕ → Option Glyph
    render i index flags =
        let slot = lib.load_glyph i index (bit_or lib.load_flags.load_render flags) in
        copy_rows slot.bitmap 0 slot.bitmap.rows >>= λ pixmap. some (record {
          pitch = s16 (pos slot.bitmap.width);
          width = s16 (shift6 slot.metrics_width);
          height = s16 (shift6 slot.metrics_height);
          left = s16 (shift6 slot.hori_bearing_x);
          top = s16 (
              pos ((font_height + (2 ^ 32 - 1)) % 2 ^ 32)
              +ℤ shift6 (lib.descender i)
              -ℤ shift6 slot.hori_bearing_y);
          pixmap = pixmap;
        })

    -- The page of the cache is cleared before it is first used.
    unfoldable pub init_page : ℕ → Fonts → Fonts
    init_page page t = if t.cache_inited page then t else record t {
      cache_inited = set_at page true t.cache_inited;
      cache = λ v. if v / 256 == page then some none else t.cache v;
    }

    -- From an opened face on; `closed` is a null face.
    unfoldable pub draw_glyph : ℕ → ℕ → Fonts → Option (Fonts × Option Glyph)
    draw_glyph i unicode t =
        let index = lib.char_index i unicode in
        let drawn = render i index (t.flags i) >>= λ g.
        some (record t { cache = set_at unicode (some (some g)) t.cache }, some g) in
        elim (t.faces i) [
          | closed ↦ none
          | failed ↦ some (t, none)
          | opened ↦ if index == 0 then some (t, none) else drawn
        ]

    unfoldable pub load_glyph : ℕ → Fonts → Option (Fonts × Option Glyph)
    load_glyph unicode t = elim (font_index unicode) [
      | none ↦ some (t, none)
      | some i ↦ elim (t.faces i) [
        | closed ↦ draw_glyph i unicode (open_font i t)
        | failed ↦ draw_glyph i unicode t
        | opened ↦ draw_glyph i unicode t
      ]
    ]

    -- `getGlyph`
    unfoldable pub get_glyph : ℕ → Fonts → Option (Fonts × Option Glyph)
    get_glyph unicode t =
        if leb (256 * 256) unicode
        then some (t, none)
        else let t = init_page (unicode / 256) t in
          t.cache unicode >>= λ cell. elim cell [
            | some g ↦ some (t, some g)
            | none ↦ load_glyph unicode t
          ]

    -- A sequence of requests.
    unfoldable pub get_glyphs : List ℕ → Fonts → Option (Fonts × List (Option Glyph))
    get_glyphs [] t = some (t, [])
    get_glyphs (u ∷ us) t =
        get_glyph u t >>= λ r. get_glyphs us r.0 >>= λ rs. some (rs.0, r.1 ∷ rs.1)

  -- The arrays after `Font::Font`, which opens the first font.
  unfoldable pub new_fonts : (ℕ → ℕ) → (ℕ → Option (Option Glyph)) → Fonts
  new_fonts flags cache =
      open_font 0
        (record { faces = λ i. closed; flags = flags; cache = cache; cache_inited = λ i. false })
