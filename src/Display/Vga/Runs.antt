-- ===== src/Display/Vga/Runs.antt =====
-- What a sequence of writes to the card of libucimf/display/fbvgaplanes.cpp does to the pixels: a set
-- of them becomes a function of what it was, and the others stay.
use ucimf.Prelude.{
  ℕ, zero, suc, ◌+◌, ◌-◌, ◌%◌, ◌<◌, Bool, true, false, ◌&&◌, ◌||◌, ◌≡◌, refl, sym, ap, ◌∙◌, inl,
  inr, ltb, leb, ◌==◌, ==_iff, if◌then◌else◌, if_false, arith, Bool-cases,
}
use ucimf.Display.Vga.{Card, IsCard, IsMasking, bit, set_reset_index, data_rotate_index, draw_byte}

abbrev pub Pixels : Type 0
Pixels = ℕ → ℕ → Bool

-- A second drawing of a pixel that is drawn already changes nothing.
abbrev pub Again : (ℕ → ℕ) → Pixels → Pixels → Type 0
Again g p q = (b k v : ℕ) → k < 8 → p b k ≡ true → q b k ≡ true → g (g v) ≡ g v

-- The pixels of the byte at an address that a mask selects, and those of some bytes.
abbrev pub in_byte : ℕ → ℕ → Pixels
in_byte mask dest b k = b == dest && bit mask k

abbrev pub in_bytes : ℕ → ℕ → Pixels
in_bytes n dest b k = leb dest b && ltb b (dest + n)

unfoldable pub in_lines : (ℕ → Pixels) → ℕ → ℕ → ℕ → Pixels
in_lines p next_line dest zero b k = false
in_lines p next_line dest (suc h) b k = p dest b k || in_lines p next_line (dest + next_line) h b k

module _ {S : Type 0} (c : Card S) where
  pub record Maps (g : ℕ → ℕ) (s t : S) (p : Pixels) : Type 0 where
    pub same : (j : ℕ) → c.register t j ≡ c.register s j
    pub drawn :
        (b k : ℕ) → k < 8 → c.pixel t b k ≡ (if p b k then g (c.pixel s b k) else c.pixel s b k)

  -- The registers are set for drawing in the colour, or for inverting.
  pub data Draws (g : ℕ → ℕ) (s : S) : Type 0 where
    colors :
        IsMasking c s
        → c.register s data_rotate_index ≡ 0
        → ((v : ℕ) → g v ≡ c.register s set_reset_index % 16)
        → Draws g s
    inverts :
        IsMasking c s
        → c.register s data_rotate_index ≡ 0x18
        → c.register s set_reset_index % 16 ≡ 15
        → ((v : ℕ) → g v ≡ 15 - v)
        → Draws g s

  pub Draws-same :
      {g : ℕ → ℕ} {s t : S} → ((j : ℕ) → c.register t j ≡ c.register s j) → Draws g s → Draws g t
  Draws-same {g} {s} {t} e (colors (m, n) o f) =
      colors (e 5 ∙ m, e 8 ∙ n) (e 3 ∙ o) (λ v. f v ∙ ap (λ r. r % 16) (sym (e 0)))
  Draws-same {g} {s} {t} e (inverts (m, n) o i f) =
      inverts (e 5 ∙ m, e 8 ∙ n) (e 3 ∙ o) (ap (λ r. r % 16) (e 0) ∙ i) f

  pub Maps-none :
      (g : ℕ → ℕ) (s : S) (p : Pixels) → ((b k : ℕ) → k < 8 → p b k ≡ false) → Maps g s s p
  Maps-none g s p h = record { same = λ j. refl; drawn = λ b k lt. sym (if_false _ _ (h b k lt)) }

  pub Maps-eq :
      (g : ℕ → ℕ) (s t : S) (p q : Pixels)
      → Maps g s t p
      → ((b k : ℕ) → k < 8 → p b k ≡ q b k)
      → Maps g s t q
  Maps-eq g s t p q m h = record {
    same = m.same;
    drawn = λ b k lt.
        m.drawn b k lt ∙ ap (λ r. if r then g (c.pixel s b k) else c.pixel s b k) (h b k lt);
  }

  twice :
      (g : ℕ → ℕ) (p q : Bool) (v w x : ℕ)
      → w ≡ (if p then g v else v)
      → x ≡ (if q then g w else w)
      → (p ≡ true → q ≡ true → g (g v) ≡ g v)
      → x ≡ (if p || q then g v else v)
  twice g true true v w x e f h = f ∙ ap g e ∙ h refl refl
  twice g true false v w x e f h = f ∙ e
  twice g false true v w x e f h = f ∙ ap g e
  twice g false false v w x e f h = f ∙ e

  pub Maps-then :
      (g : ℕ → ℕ) (s t u : S) (p q : Pixels)
      → Maps g s t p
      → Maps g t u q
      → Again g p q
      → Maps g s u (λ b k. p b k || q b k)
  Maps-then g s t u p q m n again = record {
    same = λ j. n.same j ∙ m.same j;
    drawn = λ b k lt.
        twice g (p b k) (q b k) (c.pixel s b k) (c.pixel t b k) (c.pixel u b k) (m.drawn b k lt)
          (n.drawn b k lt) (again b k (c.pixel s b k) lt);
  }

  module _ (laws : IsCard c) where
    -- A byte, read and written back with a mask.
    pub draw_byte-Maps :
        (g : ℕ → ℕ) (mask dest : ℕ) (s : S)
        → Draws g s
        → Maps g s (draw_byte c mask dest s) (in_byte mask dest)
    draw_byte-Maps g mask dest s d = record {
      same = λ j. laws.write_register _ _ _ j ∙ laws.read_register _ _ j;
      drawn = λ b k lt. elim (Bool-cases (b == dest)) [
        | inl e ↦ rw (e) (
            ap (λ i. c.pixel (draw_byte c mask dest s) i k) ((==_iff b dest).0 e)
            ∙ here k lt d
            ∙ ap (λ i. if bit mask k then g (c.pixel s i k) else c.pixel s i k)
                (sym ((==_iff b dest).0 e)))
        | inr e ↦
            rw (e) (laws.write_apart dest mask _ b k (ground arith) ∙ laws.read_pixel dest s b k)
      ];
    }
      where
        here :
            (k : ℕ)
            → k < 8
            → Draws g s
            → c.pixel (draw_byte c mask dest s) dest k
              ≡ (if bit mask k then g (c.pixel s dest k) else c.pixel s dest k)
        here k lt (colors (m, n) o f) =
            laws.write_color dest mask (c.read dest s) k lt
              (laws.read_register dest s 5 ∙ m, laws.read_register dest s 8 ∙ n)
              (laws.read_register dest s 3 ∙ o)
            ∙ ap (λ r. if bit mask k then r % 16 else c.latch (c.read dest s) k)
                (laws.read_register dest s 0)
            ∙ ap (λ r. if bit mask k then r else c.latch (c.read dest s) k)
                (sym (f (c.pixel s dest k)))
            ∙ ap (λ r. if bit mask k then g (c.pixel s dest k) else r) (laws.read_latch dest s k)
        here k lt (inverts (m, n) o i f) =
            laws.write_inverted dest mask (c.read dest s) k lt
              (laws.read_register dest s 5 ∙ m, laws.read_register dest s 8 ∙ n)
              (laws.read_register dest s 3 ∙ o) (ap (λ r. r % 16) (laws.read_register dest s 0) ∙ i)
            ∙ ap (λ r. if bit mask k then 15 - r else r) (laws.read_latch dest s k)
            ∙ ap (λ r. if bit mask k then r else c.pixel s dest k) (sym (f (c.pixel s dest k)))
