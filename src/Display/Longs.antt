-- ===== src/Display/Longs.antt =====
-- The loops of `SaveRect` and `RstrRect` of libucimf/display/fblinear32.cpp against those of
-- fblinear16.cpp over twice as many words.
use ucimf.Prelude.{ℕ, zero, suc, ◌+◌, none, some, ◌≡◌, refl, ap, ◌∙◌, arith, [], ◌∷◌, ◌>>=◌, Bytes}
use ucimf.Display.Packed.{Memory, write_bytes}
use ucimf.Display.Linear16.{save_words, save_lines16, rstr_words, rstr_lines16}
use ucimf.Display.Linear32.{save_longs, save_lines32, rstr_longs, rstr_lines32}

-- A long is two words.
abbrev pub twice : ℕ → ℕ
twice zero = zero
twice (suc n) = suc (suc (twice n))

save_longs-words :
    (a n : ℕ) (m : Memory) (r q : Bytes) → r ≡ q → save_longs a n m r ≡ save_words a (twice n) m q
unfolding save_longs save_words
save_longs-words a zero m r q e = e
save_longs-words a (suc n) m r q e =
    let third : a + 3 ≡ a + 2 + 1 = omega arith in
    let fifth : a + 4 ≡ a + 2 + 2 = omega arith in
    ap (λ (t : Bytes). m a ∷ m (a + 1) ∷ m (a + 2) ∷ m (a + 3) ∷ t)
      (save_longs-words (a + 4) n m r q e)
    ∙ ap (λ i. m a ∷ m (a + 1) ∷ m (a + 2) ∷ m i ∷ save_words (a + 4) (twice n) m q) third
    ∙ ap (λ i. m a ∷ m (a + 1) ∷ m (a + 2) ∷ m (a + 2 + 1) ∷ save_words i (twice n) m q) fifth

pub save_lines32-words :
    (next_line dest w h : ℕ) (m : Memory)
    → save_lines32 next_line dest w h m ≡ save_lines16 next_line dest (twice w) h m
unfolding save_lines32 save_lines16
save_lines32-words next_line dest w zero m = refl
save_lines32-words next_line dest w (suc h) m =
    save_longs-words dest w m _ _ (save_lines32-words next_line (dest + next_line) w h m)

rstr_longs-words :
    (a n : ℕ) (b : Bytes) (m : Memory) → rstr_longs a n b m ≡ rstr_words a (twice n) b m
unfolding rstr_longs rstr_words write_bytes
rstr_longs-words a zero b m = refl
rstr_longs-words a (suc n) [] m = refl
rstr_longs-words a (suc n) (s ∷ []) m = refl
rstr_longs-words a (suc n) (s ∷ t ∷ []) m = refl
rstr_longs-words a (suc n) (s ∷ t ∷ u ∷ []) m = refl
rstr_longs-words a (suc n) (s ∷ t ∷ u ∷ v ∷ b) m =
    let third : a + 1 + 1 ≡ a + 2 = omega arith in
    let fifth : a + 4 ≡ a + 2 + 2 = omega arith in
    rstr_longs-words (a + 4) n b _
    ∙ ap (λ i. rstr_words i (twice n) b (write_bytes a (s ∷ t ∷ u ∷ v ∷ []) m)) fifth
    ∙ ap
        (λ i.
          rstr_words (a + 2 + 2) (twice n) b
            (write_bytes i (u ∷ v ∷ []) (write_bytes a (s ∷ t ∷ []) m)))
        third

pub rstr_lines32-words :
    (next_line dest w h : ℕ) (b : Bytes) (m : Memory)
    → rstr_lines32 next_line dest w h b m ≡ rstr_lines16 next_line dest (twice w) h b m
unfolding rstr_lines32 rstr_lines16
rstr_lines32-words next_line dest w zero b m = refl
rstr_lines32-words next_line dest w (suc h) b m =
    ap (λ o. o >>= λ r. rstr_lines32 next_line (dest + next_line) w h r.0 r.1)
      (rstr_longs-words dest w b m)
    ∙ elim (rstr_words dest (twice w) b m)
        as (λ o.
          (o >>= λ r. rstr_lines32 next_line (dest + next_line) w h r.0 r.1)
          ≡ (o >>= λ r. rstr_lines16 next_line (dest + next_line) (twice w) h r.0 r.1)) [
            | none ↦ refl
            | some r ↦ rstr_lines32-words next_line (dest + next_line) w h r.0 r.1
          ]
