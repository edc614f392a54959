-- ===== src/Display/Words16.antt =====
-- The loops of `SaveRect` and `RstrRect` of libucimf/display/fblinear16.cpp over lines of words.
use mathlib.Core.Path.{fun_ext}
use ucimf.Prelude.{
  bind_inv, ℕ, zero, suc, ◌+◌, ◌*◌, Bool, true, false, ◌&&◌, ◌||◌, some, ◌≡◌, inl, inr, refl, sym,
  ap, ◌∙◌, arith, ltb, leb, ◌==◌, [], ◌∷◌, Bytes, length, if_true, bind_some, Bool-cases, ==_iff,
  if◌then◌else◌,
}
use ucimf.Display.Packed.{Memory, write_bytes}
use ucimf.Display.Linear16.{save_words, save_lines16, rstr_words, rstr_lines16}

-- The bytes that the buffer of some lines of words has.
abbrev pub bytes_of_lines : ℕ → ℕ → ℕ
bytes_of_lines w zero = 0
bytes_of_lines w (suc h) = w * 2 + bytes_of_lines w h

length-save_words :
    (a n : ℕ) (m : Memory) (rest : Bytes) → length (save_words a n m rest) ≡ n * 2 + length rest
unfolding save_words
length-save_words a zero m rest = omega arith
length-save_words a (suc n) m rest = omega (arith, length-save_words (a + 2) n m rest)

pub length-save_lines16 :
    (next_line dest w h : ℕ) (m : Memory)
    → length (save_lines16 next_line dest w h m) ≡ bytes_of_lines w h
unfolding save_lines16
length-save_lines16 next_line dest w zero m = refl
length-save_lines16 next_line dest w (suc h) m =
    let row = length-save_words dest w m (save_lines16 next_line (dest + next_line) w h m) in
    let rest = length-save_lines16 next_line (dest + next_line) w h m in omega arith

rstr_words_total :
    (a n k : ℕ) (b : Bytes) (m : Memory)
    → length b ≡ n * 2 + k
    → (c : Bytes) × (t : Memory) × (rstr_words a n b m ≡ some (c, t)) × (length c ≡ k)
unfolding rstr_words
rstr_words_total a zero k b m h = (b, m, refl, omega arith)
rstr_words_total a (suc n) k [] m h = absurd (omega arith)
rstr_words_total a (suc n) k (u ∷ []) m h = absurd (omega arith)
rstr_words_total a (suc n) k (u ∷ v ∷ b) m h =
    rstr_words_total (a + 2) n k b (write_bytes a (u ∷ v ∷ []) m) (omega arith)

pub rstr_lines16_total :
    (next_line dest w h : ℕ) (b : Bytes) (m : Memory)
    → length b ≡ bytes_of_lines w h
    → (c : Bytes) × (t : Memory) × (rstr_lines16 next_line dest w h b m ≡ some (c, t))
unfolding rstr_lines16
rstr_lines16_total next_line dest w zero b m e = (b, m, refl)
rstr_lines16_total next_line dest w (suc h) b m e =
    let (c, t, row, left) = rstr_words_total dest w (bytes_of_lines w h) b m e in
    let (c', t', rows) = rstr_lines16_total next_line (dest + next_line) w h c t left in
    (c', t', bind_some _ row ∙ rows)

-- The bytes of the lines.
unfoldable pub in_lines : ℕ → ℕ → ℕ → ℕ → ℕ → Bool
in_lines next_line dest w zero i = false
in_lines next_line dest w (suc h) i =
    (leb dest i && ltb i (dest + w * 2)) || in_lines next_line (dest + next_line) w h i

-- Words taken from the first memory, written over the second.
abbrev merge_words : ℕ → ℕ → Memory → Memory → Memory
merge_words a zero s t = t
merge_words a (suc n) s t = merge_words (a + 2) n s (write_bytes a (s a ∷ s (a + 1) ∷ []) t)

unfoldable pub merge_lines : ℕ → ℕ → ℕ → ℕ → Memory → Memory → Memory
merge_lines next_line dest w zero s t = t
merge_lines next_line dest w (suc h) s t =
    merge_lines next_line (dest + next_line) w h s (merge_words dest w s t)

rstr_words-save_words :
    (a n : ℕ) (s t : Memory) (rest : Bytes)
    → rstr_words a n (save_words a n s rest) t ≡ some (rest, merge_words a n s t)
unfolding rstr_words save_words
rstr_words-save_words a zero s t rest = refl
rstr_words-save_words a (suc n) s t rest = rstr_words-save_words (a + 2) n s _ rest

pub rstr_lines16-save_lines16 :
    (next_line dest w h : ℕ) (s t : Memory)
    → rstr_lines16 next_line dest w h (save_lines16 next_line dest w h s) t
      ≡ some ([], merge_lines next_line dest w h s t)
unfolding rstr_lines16 save_lines16 merge_lines
rstr_lines16-save_lines16 next_line dest w zero s t = refl
rstr_lines16-save_lines16 next_line dest w (suc h) s t =
    bind_some _ (rstr_words-save_words dest w s t (save_lines16 next_line (dest + next_line) w h s))
    ∙ rstr_lines16-save_lines16 next_line (dest + next_line) w h s (merge_words dest w s t)

-- A word that is written, byte by byte.
word_lem :
    (a u v i : ℕ) (m : Memory)
    → write_bytes a (u ∷ v ∷ []) m i ≡ (if i == a + 1 then v else if i == a then u else m i)
unfolding write_bytes
word_lem a u v i m = refl

word_off :
    (a u v i : ℕ) (m : Memory)
    → (leb a i && ltb i (a + 2)) ≡ false
    → write_bytes a (u ∷ v ∷ []) m i ≡ m i
word_off a u v i m off = word_lem a u v i m ∙ ground arith

module _ (s : Memory) where
  word_in :
      (a i : ℕ) (t : Memory)
      → (leb a i && ltb i (a + 2)) ≡ true
      → write_bytes a (s a ∷ s (a + 1) ∷ []) t i ≡ s i
  word_in a i t on = word_lem a (s a) (s (a + 1)) i t ∙ elim (Bool-cases (i == a + 1)) [
    | inl last ↦ if_true _ _ last ∙ ap s (sym ((==_iff i (a + 1)).0 last))
    | inr other ↦ let first : i ≡ a = ground arith in ground (arith, ap s first)
  ]

  word_keeps : (a i : ℕ) (t : Memory) → t i ≡ s i → write_bytes a (s a ∷ s (a + 1) ∷ []) t i ≡ s i
  word_keeps a i t e = elim (Bool-cases (leb a i && ltb i (a + 2))) [
    | inl on ↦ word_in a i t on
    | inr off ↦ word_off a (s a) (s (a + 1)) i t off ∙ e
  ]

  words_keep : (a n i : ℕ) (t : Memory) → t i ≡ s i → merge_words a n s t i ≡ s i
  words_keep a zero i t e = e
  words_keep a (suc n) i t e = words_keep (a + 2) n i _ (word_keeps a i t e)

  words_in :
      (a n i : ℕ) (t : Memory) → (leb a i && ltb i (a + n * 2)) ≡ true → merge_words a n s t i ≡ s i
  words_in a zero i t on = absurd (ground arith)
  words_in a (suc n) i t on = elim (Bool-cases (leb a i && ltb i (a + 2))) [
    | inl here ↦ words_keep (a + 2) n i _ (word_in a i t here)
    | inr later ↦ words_in (a + 2) n i _ (ground arith)
  ]

  lines_keep :
      (next_line dest w h i : ℕ) (t : Memory)
      → t i ≡ s i
      → merge_lines next_line dest w h s t i ≡ s i
  unfolding merge_lines
  lines_keep next_line dest w zero i t e = e
  lines_keep next_line dest w (suc h) i t e =
      lines_keep next_line (dest + next_line) w h i _ (words_keep dest w i t e)

  lines_in :
      (next_line dest w h i : ℕ) (t : Memory)
      → in_lines next_line dest w h i ≡ true
      → merge_lines next_line dest w h s t i ≡ s i
  unfolding merge_lines in_lines
  lines_in next_line dest w zero i t on = absurd (ground arith)
  lines_in next_line dest w (suc h) i t on =
      elim (Bool-cases (leb dest i && ltb i (dest + w * 2))) [
        | inl here ↦ lines_keep next_line (dest + next_line) w h i _ (words_in dest w i t here)
        | inr later ↦
            lines_in next_line (dest + next_line) w h i _
              (sym (ap (λ r. r || in_lines next_line (dest + next_line) w h i) later) ∙ on)
      ]

-- Restoring writes no other byte.
rstr_words_off :
    (a n i : ℕ) (b : Bytes) (m : Memory) (c : Bytes) (t : Memory)
    → (leb a i && ltb i (a + n * 2)) ≡ false
    → rstr_words a n b m ≡ some (c, t)
    → t i ≡ m i
unfolding rstr_words
rstr_words_off a zero i b m c t off e = let same : t ≡ m = cc in ap (λ (u : Memory). u i) same
rstr_words_off a (suc n) i [] m c t off e = cc
rstr_words_off a (suc n) i (u ∷ []) m c t off e = cc
rstr_words_off a (suc n) i (u ∷ v ∷ b) m c t off e =
    rstr_words_off (a + 2) n i b _ c t (ground arith) e ∙ word_off a u v i m (ground arith)

rstr_lines16_off :
    (next_line dest w h i : ℕ) (b : Bytes) (m : Memory) (c : Bytes) (t : Memory)
    → in_lines next_line dest w h i ≡ false
    → rstr_lines16 next_line dest w h b m ≡ some (c, t)
    → t i ≡ m i
unfolding rstr_lines16 in_lines
rstr_lines16_off next_line dest w zero i b m c t off e =
    let same : t ≡ m = cc in ap (λ (u : Memory). u i) same
rstr_lines16_off next_line dest w (suc h) i b m c t off e =
    let ((b', m'), row, rest) = bind_inv (rstr_words dest w b m) _ e in
    rstr_lines16_off next_line (dest + next_line) w h i b' m' c t (ground arith) rest
    ∙ rstr_words_off dest w i b m b' m' (ground arith) row

pub merge_lines_back :
    (next_line dest w h : ℕ) (b c : Bytes) (s t : Memory)
    → rstr_lines16 next_line dest w h b s ≡ some (c, t)
    → merge_lines next_line dest w h s t ≡ s
merge_lines_back next_line dest w h b c s t e = fun_ext λ i.
    elim (Bool-cases (in_lines next_line dest w h i)) [
      | inl on ↦ lines_in s next_line dest w h i t on
      | inr off ↦
          lines_keep s next_line dest w h i t (rstr_lines16_off next_line dest w h i b s c t off e)
    ]

pub merge_lines_self :
    (next_line dest w h : ℕ) (s : Memory) → merge_lines next_line dest w h s s ≡ s
merge_lines_self next_line dest w h s = fun_ext λ i. lines_keep s next_line dest w h i s refl
