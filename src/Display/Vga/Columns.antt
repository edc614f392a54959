-- ===== src/Display/Vga/Columns.antt =====
-- `FillRect` of libucimf/display/fbvgaplanes.cpp, which draws the first bytes of all lines before it
-- goes on to the next ones: it draws the runs of the lines all the same.
use ucimf.Prelude.{
  ℕ, zero, suc, ◌+◌, ◌*◌, ◌/◌, ◌%◌, ◌<◌, Bool, false, ◌||◌, ◌≡◌, refl, ap, ◌∙◌, arith,
}
use ucimf.Prelude.Int.{pos_part}
use ucimf.Display.{Area}
use ucimf.Display.Areas.{width, height}
use ucimf.Display.Vga.{
  Card, IsCard, left, right, mid_bytes, left_mask, draw_byte, set_bytes, fill_columns,
}
use ucimf.Display.Vga.Runs.{
  Pixels, in_bytes, in_lines, Maps, Draws, Draws-same, Maps-eq, Maps-then, draw_byte-Maps,
}
use ucimf.Display.Vga.Parts.{in_run, in_left, in_right, past_left, parts, no_left, no_right}
use ucimf.Display.Vga.Rows.{skip_if, each_line-Maps, set_bytes-Maps}

in_lines-eq :
    (p q : ℕ → Pixels) (next_line dest h b k : ℕ)
    → ((d : ℕ) → p d b k ≡ q d b k)
    → in_lines p next_line dest h b k ≡ in_lines q next_line dest h b k
unfolding in_lines
in_lines-eq p q next_line dest zero b k e = refl
in_lines-eq p q next_line dest (suc h) b k e =
    ap (λ r. r || in_lines p next_line (dest + next_line) h b k) (e dest)
    ∙ ap (λ r. q dest b k || r) (in_lines-eq p q next_line (dest + next_line) h b k e)

or_swap : (a b c d : Bool) → ((a || b) || (c || d)) ≡ ((a || c) || (b || d))
or_swap a b c d = ground arith

in_lines-or :
    (p q : ℕ → Pixels) (next_line dest h b k : ℕ)
    → (in_lines p next_line dest h b k || in_lines q next_line dest h b k)
      ≡ in_lines (λ d i j. p d i j || q d i j) next_line dest h b k
unfolding in_lines
in_lines-or p q next_line dest zero b k = refl
in_lines-or p q next_line dest (suc h) b k =
    or_swap (p dest b k) (in_lines p next_line (dest + next_line) h b k) (q dest b k)
      (in_lines q next_line (dest + next_line) h b k)
    ∙ ap (λ r. (p dest b k || q dest b k) || r) (in_lines-or p q next_line (dest + next_line) h b k)

-- Lines that begin elsewhere, at the same distance.
in_lines-moved :
    (p : ℕ → Pixels) (f : ℕ → ℕ) (next_line dest h b k : ℕ)
    → ((d : ℕ) → f d + next_line ≡ f (d + next_line))
    → in_lines p next_line (f dest) h b k ≡ in_lines (λ d. p (f d)) next_line dest h b k
unfolding in_lines
in_lines-moved p f next_line dest zero b k e = refl
in_lines-moved p f next_line dest (suc h) b k e =
    ap (λ d. p (f dest) b k || in_lines p next_line d h b k) (e dest)
    ∙ ap (λ r. p (f dest) b k || r) (in_lines-moved p f next_line (dest + next_line) h b k e)

in_lines-none :
    (p : ℕ → Pixels) (next_line dest h b k : ℕ)
    → ((d : ℕ) → p d b k ≡ false)
    → in_lines p next_line dest h b k ≡ false
unfolding in_lines
in_lines-none p next_line dest zero b k e = refl
in_lines-none p next_line dest (suc h) b k e =
    ap (λ r. r || in_lines p next_line (dest + next_line) h b k) (e dest)
    ∙ in_lines-none p next_line (dest + next_line) h b k e

-- The run of one line.
unfoldable pub run_of_line : ℕ → ℕ → ℕ → Pixels
run_of_line x1 w dest = in_run (8 * dest + x1 % 8) w

past_left-step : (x1 n d : ℕ) → past_left x1 d + n ≡ past_left x1 (d + n)
past_left-step x1 n d = ground arith

past_mid-step : (x1 mid n d : ℕ) → past_left x1 d + mid + n ≡ past_left x1 (d + n) + mid
past_mid-step x1 mid n d = ground arith

columns :
    (x1 w next_line dest h b k : ℕ)
    → k < 8
    → ((in_lines (in_left x1 w) next_line dest h b k
          || in_lines (in_bytes (mid_bytes x1 w)) next_line (past_left x1 dest) h b k)
        || in_lines (in_right x1 w) next_line (past_left x1 dest + mid_bytes x1 w) h b k)
      ≡ in_lines (run_of_line x1 w) next_line dest h b k
unfolding run_of_line
columns x1 w next_line dest h b k lt =
    let mid = mid_bytes x1 w in
    let mids : ℕ → Pixels = λ d. in_bytes mid (past_left x1 d) in
    let lasts : ℕ → Pixels = λ d. in_right x1 w (past_left x1 d + mid) in
    let firsts : Bool = in_lines (in_left x1 w) next_line dest h b k in
    ap (λ r. (firsts || r) || in_lines (in_right x1 w) next_line (past_left x1 dest + mid) h b k)
      (in_lines-moved (in_bytes mid) (past_left x1) next_line dest h b k
        (past_left-step x1 next_line))
    ∙ ap (λ r. (firsts || in_lines mids next_line dest h b k) || r)
        (in_lines-moved (in_right x1 w) (λ d. past_left x1 d + mid) next_line dest h b k
          (λ d. past_mid-step x1 mid next_line d))
    ∙ ap (λ r. r || in_lines lasts next_line dest h b k)
        (in_lines-or (in_left x1 w) mids next_line dest h b k)
    ∙ in_lines-or (λ d i j. in_left x1 w d i j || mids d i j) lasts next_line dest h b k
    ∙ in_lines-eq _ _ next_line dest h b k (λ d. parts x1 w d b k lt)

module _ {S : Type 0} (c : Card S) (laws : IsCard c) (g : ℕ → ℕ) where
  module _ (flat : (v w : ℕ) → g v ≡ g w) where
    -- `FillRect` draws the runs of its lines.
    pub fill_columns-Maps :
        (next_line : ℕ) (a : Area) (s : S)
        → Draws c g s
        → Maps c g s (fill_columns c next_line a s) (
            in_lines
              (run_of_line (pos_part a.x1) (width a))
              next_line
              (next_line * pos_part a.y1 + pos_part a.x1 / 8)
              (height a))
    unfolding fill_columns run_of_line
    fill_columns-Maps next_line a s d =
        let x1 = pos_part a.x1 in
        let w = width a in
        let dest = next_line * pos_part a.y1 + x1 / 8 in
        let mid = mid_bytes x1 w in
        let m =
          skip_if c g (left x1) _ s _
            (λ e b k lt.
              in_lines-none _ next_line dest (height a) b k (λ n. no_left x1 w n b k e lt))
            (each_line-Maps c laws g (draw_byte c (left_mask (left x1) w)) (in_left x1 w) next_line
              (draw_byte-Maps c laws g _) (λ n h b k v lt p q. flat _ _) dest (height a) s d) in
        let d' = Draws-same c m.same d in
        let n =
          skip_if c g mid _ _ _
            (λ e b k lt.
              in_lines-none _ next_line (past_left x1 dest) (height a) b k
                (λ j. no_bytes mid j b k e))
            (each_line-Maps c laws g (set_bytes c mid) (in_bytes mid) next_line
              (set_bytes-Maps c laws g flat mid) (λ j h b k v lt p q. flat _ _) (past_left x1 dest)
              (height a) _ d') in
        let mn = Maps-then c g s _ _ _ _ m n (λ b k v lt p q. flat _ _) in
        let r =
          skip_if c g (right x1 w) _ _ _
            (λ e b k lt.
              in_lines-none _ next_line (past_left x1 dest + mid) (height a) b k
                (λ j. no_right x1 w j b k e lt))
            (each_line-Maps c laws g (draw_byte c _) (in_right x1 w) next_line
              (draw_byte-Maps c laws g _) (λ j h b k v lt p q. flat _ _) (past_left x1 dest + mid)
              (height a) _ (Draws-same c mn.same d)) in
        Maps-eq c g s _ _ _ (Maps-then c g s _ _ _ _ mn r (λ b k v lt p q. flat _ _))
          (λ b k lt. columns x1 w next_line dest (height a) b k lt)
      where
        no_bytes : (n dest b k : ℕ) → n ≡ 0 → in_bytes n dest b k ≡ false
        no_bytes n dest b k e = ground arith
