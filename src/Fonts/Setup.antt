-- ===== src/Fonts/Setup.antt =====
-- The setting up of libucimf/font/font.cpp: the settings, the list of fonts, and the size of a cell.
-- What fontconfig finds and what FreeType tells of the first face are parameters.
use ucimf.Prelude.{
  ℕ, ◌+◌, ◌-◌, ◌/◌, ◌%◌, ◌^◌, Bool, false, ◌||◌, Option, none, some, ltb, if◌then◌else◌, List, [],
  ◌∷◌, ◌++◌, ◌>>=◌, Bytes, length, get_elem?,
}
use ucimf.Prelude.Int.{ℤ, pos, negsuc, eqb_ℤ}

-- `mFontNames`, `mFontSize` and `mFontWidth`.
pub record Settings : Type 0 where
  pub font_names : Bytes
  pub font_size : ℕ
  pub font_width : ℤ

abbrev pub default_settings : Settings
default_settings = record {
  font_names = b'm' ∷ b'o' ∷ b'n' ∷ b'o' ∷ [];
  font_size = 14;
  font_width = pos 0;
}

-- An int as an unsigned one.
abbrev u32_of : ℤ → ℕ
u32_of (pos n) = n % 2 ^ 32
u32_of (negsuc n) = 2 ^ 32 - 1 - n % 2 ^ 32

-- `Font::setInfo`, before it makes the fonts anew.
unfoldable pub set_info : Bytes → ℤ → ℤ → Settings → Settings
set_info names size width s = record {
  font_names = if ltb (length names) 64 then names else s.font_names;
  font_size = if eqb_ℤ size (pos 0) then s.font_size else u32_of size;
  font_width = if eqb_ℤ width (pos 0) then s.font_width else width;
}

-- The list of `createInstance`, over the fonts that fontconfig prepares and its comparison of their
-- families.
module _ {A : Type 0} (same_family : A → A → Bool) where
  unfoldable pub has_same : A → List A → Bool
  has_same f [] = false
  has_same f (g ∷ gs) = same_family g f || has_same f gs

  unfoldable pub add_font : Option A → List A → List A
  unfolding has_same
  add_font none l = l
  add_font (some f) l = if has_same f l then l else l ++ f ∷ []

  unfoldable pub add_fonts : List (Option A) → List A → List A
  unfolding add_font
  add_fonts [] l = l
  add_fonts (f ∷ fs) l = add_fonts fs (add_font f l)

  -- No list was found, or none of its fonts could be prepared: there is no font.
  unfoldable pub create_instance : Option (List (Option A)) → Option (List A)
  unfolding add_fonts
  create_instance none = none
  create_instance (some fs) = elim (add_fonts fs []) [ [] ↦ none | f ∷ l ↦ some (f ∷ l) ]

-- A size of a face that is not scalable, and what is read of the first face. The metrics are not
-- negative.
pub record FixedSize : Type 0 where
  pub size : ℕ
  pub height : ℕ
  pub width : ℕ

pub record FirstFace : Type 0 where
  pub scalable : Bool
  pub height : ℕ
  pub max_advance : ℕ
  pub available_sizes : List FixedSize
  pub fixed_width : Bool

-- `SUBS`
abbrev pub subs : ℕ → ℕ → ℕ
subs a b = if ltb b a then a - b else b - a

-- The loop over the sizes, from the place `i` on.
unfoldable pub nearest : ℕ → ℕ → ℕ → ℕ → List FixedSize → ℕ
nearest d i index diffmin [] = index
nearest d i index diffmin (s ∷ ss) =
    let diff = subs (s.size / 64) d in
    let nearer = ltb diff diffmin in
    nearest d (i + 1) (if nearer then i else index) (if nearer then diff else diffmin) ss

-- The height and the width of a cell before the width is corrected; `dsize` is the size in pixels
-- that was asked for.
unfoldable pub face_cell : ℕ → FirstFace → Option (ℕ × ℕ)
unfolding nearest
face_cell dsize f =
    if f.scalable then some (f.height / 64, f.max_advance / 64) else elim f.available_sizes [
      | [] ↦ some (0, 0)
      | s ∷ ss ↦ get_elem? (s ∷ ss) (nearest dsize 0 0 (2 ^ 32 - 1) (s ∷ ss)) >>= λ t.
          some (t.height, t.width)
    ]

-- `Font::Font`; without a first face the cell is empty.
unfoldable pub font_cell : Settings → ℕ → Option FirstFace → Option (ℕ × ℕ)
unfolding face_cell
font_cell s dsize none = some (0, 0)
font_cell s dsize (some f) = face_cell dsize f >>= λ c.
    let half = (c.0 + 1) / 2 in
    let w = if f.fixed_width then c.1 else if ltb c.1 half then c.1 else half in
    some (c.0, if eqb_ℤ s.font_width (pos 0) then w else u32_of s.font_width)
