-- ===== src/Display/Vga/Rows.antt =====
-- The loops of libucimf/display/fbvgaplanes.cpp over the bytes of a line and over the lines, by the
-- pixels that they draw.
use ucimf.Prelude.{
  ℕ, zero, suc, ◌+◌, ◌*◌, ◌%◌, ◌<◌, false, ◌&&◌, ◌||◌, ◌≡◌, refl, sym, ap, ◌∙◌, inl, inr, ◌==◌,
  ==_iff, if◌then◌else◌, if_true, arith, Bool-cases,
}
use ucimf.Display.Vga.{
  Card, IsCard, draw_byte, each_line, set_bytes, draw_bytes, left, right, mid_bytes, left_mask,
  right_mask, rev_row,
}
use ucimf.Display.Vga.Masks.{bit-whole}
use ucimf.Display.Vga.Parts.{
  in_run, past_left, parts, no_left, no_right, below_past, at_least, at_last, before_last,
}
use ucimf.Display.Vga.Runs.{
  Pixels, Again, in_byte, in_bytes, in_lines, Maps, Draws, colors, inverts, Draws-same, Maps-none,
  Maps-eq, Maps-then, draw_byte-Maps,
}

whole_byte : (dest b k : ℕ) → k < 8 → in_byte 255 dest b k ≡ (b == dest)
whole_byte dest b k lt = ap (λ r. b == dest && r) (bit-whole k lt) ∙ ground arith

first_of_bytes :
    (n dest b : ℕ) → (b == dest || in_bytes n (dest + 1) b 0) ≡ in_bytes (suc n) dest b 0
first_of_bytes n dest b = ground arith

module _ {S : Type 0} (c : Card S) (laws : IsCard c) (g : ℕ → ℕ) where
  pub each_line-Maps :
      (f : ℕ → S → S) (p : ℕ → Pixels) (next_line : ℕ)
      → ((dest : ℕ) (s : S) → Draws c g s → Maps c g s (f dest s) (p dest))
      → ((dest h : ℕ) → Again g (p dest) (in_lines p next_line (dest + next_line) h))
      → (dest h : ℕ) (s : S) → Draws c g s
      → Maps c g s (each_line c f next_line dest h s) (in_lines p next_line dest h)
  unfolding each_line in_lines
  each_line-Maps f p next_line step again dest zero s d = Maps-none c g s _ (λ b k lt. refl)
  each_line-Maps f p next_line step again dest (suc h) s d =
      let m = step dest s d in
      Maps-then c g s (f dest s) _ (p dest) _ m
        (each_line-Maps f p next_line step again (dest + next_line) h (f dest s)
          (Draws-same c m.same d))
        (again dest h)

  bytes-Maps :
      (f : ℕ → S → S) (all : ℕ → ℕ → S → S)
      → ((dest : ℕ) (s : S) → all 0 dest s ≡ s)
      → ((n dest : ℕ) (s : S) → all (suc n) dest s ≡ all n (dest + 1) (f dest s))
      → ((dest : ℕ) (s : S) → Draws c g s → Maps c g s (f dest s) (λ b k. b == dest))
      → (n dest : ℕ) (s : S) → Draws c g s
      → Maps c g s (all n dest s) (in_bytes n dest)
  bytes-Maps f all none more step zero dest s d =
      rw (none dest s) (Maps-none c g s _ (λ b k lt. ground arith))
  bytes-Maps f all none more step (suc n) dest s d =
      let m = step dest s d in
      rw (more n dest s) (
        Maps-eq c g s _ _ _
          (Maps-then c g s (f dest s) _ (λ b k. b == dest) (in_bytes n (dest + 1)) m
            (bytes-Maps f all none more step n (dest + 1) (f dest s) (Draws-same c m.same d))
            (λ b k v lt x y. absurd (ground arith)))
          (λ b k lt. first_of_bytes n dest b))

  pub draw_bytes-Maps :
      (n dest : ℕ) (s : S) → Draws c g s → Maps c g s (draw_bytes c n dest s) (in_bytes n dest)
  unfolding draw_bytes
  draw_bytes-Maps =
      bytes-Maps (draw_byte c 255) (draw_bytes c) (λ dest s. refl) (λ n dest s. refl)
        (λ dest s d.
          Maps-eq c g s _ _ _ (draw_byte-Maps c laws g 255 dest s d)
            (λ b k lt. whole_byte dest b k lt))

  -- A byte that is written without being read: all its pixels take the colour.
  set_byte-Maps :
      ((v w : ℕ) → g v ≡ g w)
      → (dest : ℕ) (s : S) → Draws c g s
      → Maps c g s (c.write dest 255 s) (λ b k. b == dest)
  set_byte-Maps flat dest s (inverts m o i f) = absurd (omega (arith, f 0, f 1, flat 0 1))
  set_byte-Maps flat dest s (colors m o f) = record {
    same = λ j. laws.write_register _ _ _ j;
    drawn = λ b k lt. elim (Bool-cases (b == dest)) [
      | inl e ↦ rw e (
          ap (λ i. c.pixel (c.write dest 255 s) i k) ((==_iff b dest).0 e)
          ∙ laws.write_color dest 255 s k lt m o
          ∙ if_true _ _ (bit-whole k lt)
          ∙ sym (f (c.pixel s b k)))
      | inr e ↦ rw e (laws.write_apart dest 255 s b k (ground arith))
    ];
  }

  pub set_bytes-Maps :
      ((v w : ℕ) → g v ≡ g w)
      → (n dest : ℕ) (s : S) → Draws c g s
      → Maps c g s (set_bytes c n dest s) (in_bytes n dest)
  unfolding set_bytes
  set_bytes-Maps flat =
      bytes-Maps (λ dest s. c.write dest 255 s) (set_bytes c) (λ dest s. refl) (λ n dest s. refl)
        (set_byte-Maps flat)

module _ {S : Type 0} (c : Card S) (g : ℕ → ℕ) where
  pub skip_if :
      (n : ℕ) (t s : S) (p : Pixels)
      → (n ≡ 0 → (b k : ℕ) → k < 8 → p b k ≡ false)
      → Maps c g s t p
      → Maps c g s (if n == 0 then s else t) p
  skip_if n t s p none m = elim (Bool-cases (n == 0)) [
    | inl e ↦ rw e (Maps-none c g s p (none (ground arith)))
    | inr e ↦ rw e m
  ]

  module _ (laws : IsCard c) where
    -- The body of the loop of `RevRect` draws the run of its line.
    pub rev_row-Maps :
        (x1 w dest : ℕ) (s : S)
        → Draws c g s
        → Maps c g s (rev_row c x1 w dest s) (in_run (8 * dest + x1 % 8) w)
    unfolding rev_row
    rev_row-Maps x1 w dest s d =
        let past = past_left x1 dest in
        let mid = mid_bytes x1 w in
        let m =
          skip_if (left x1) _ s _ (λ e b k. no_left x1 w dest b k e)
            (draw_byte-Maps c laws g (left_mask (left x1) w) dest s d) in
        let d' = Draws-same c m.same d in
        let n = draw_bytes-Maps c laws g mid past _ d' in
        let mn = Maps-then c g s _ _ _ _ m n (λ b k v lt p q.
          absurd (omega (arith, below_past x1 w dest b k lt p, at_least mid past b q))) in
        let r =
          skip_if (right x1 w) _ _ _ (λ e b k. no_right x1 w (past + mid) b k e)
            (draw_byte-Maps c laws g (right_mask (right x1 w)) (past + mid) _
              (Draws-same c mn.same d)) in
        Maps-eq c g s _ _ _
          (Maps-then c g s _ _ _ _ mn r (λ b k v lt p q.
            absurd (omega (arith, before_last x1 w dest b k lt p, at_last _ _ b k q))))
          (λ b k. parts x1 w dest b k)
