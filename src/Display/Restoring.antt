-- ===== src/Display/Restoring.antt =====
-- `SaveRect` and `RstrRect` of libucimf/display/fblinear24.cpp. `none` is a failed assertion, or a
-- read past the buffer.
use native.Mathlib.Nat.{zero-mul, suc-mul, add_comm}
use ucimf.Prelude.{
  ℕ, zero, suc, ◌+◌, ◌*◌, ◌≤◌, Option, none, some, ◌≡◌, refl, sym, ap, ◌∙◌, arith, if◌then◌else◌,
  [], ◌∷◌, ◌++◌, ◌>>=◌, Bytes, length, length-append, bind_some, if_true, if_false, Bool-cases,
  Option-cases, inl, inr, some_inj,
}
use ucimf.Prelude.Int.{pos_part}
use ucimf.Display.{Area, on_screen}
use ucimf.Display.Areas.{width, height}
use ucimf.Display.Packed.{Memory, write_bytes}

-- The bytes of a line of memory, in their order.
unfoldable pub save_bytes : ℕ → ℕ → Memory → Bytes
save_bytes a zero m = []
save_bytes a (suc n) m = m a ∷ save_bytes (a + 1) n m

unfoldable pub save_lines24 : ℕ → ℕ → ℕ → ℕ → Memory → Bytes
save_lines24 next_line dest w zero m = []
save_lines24 next_line dest w (suc h) m =
    save_bytes dest (w * 3) m ++ save_lines24 next_line (dest + next_line) w h m

-- `fb_writew( fb_readw(buf++), dest8++ )`: both pointers are moved on by one byte.
unfoldable pub copy_words : ℕ → ℕ → Bytes → Memory → Option (Bytes × Memory)
copy_words a zero b m = some (b, m)
copy_words a (suc n) [] m = none
copy_words a (suc n) (x ∷ []) m = none
copy_words a (suc n) (x ∷ y ∷ b) m = copy_words (a + 1) n (y ∷ b) (write_bytes a (x ∷ y ∷ []) m)

unfoldable pub rstr_lines24 : ℕ → ℕ → ℕ → ℕ → Bytes → Memory → Option (Bytes × Memory)
rstr_lines24 next_line dest w zero b m = some (b, m)
rstr_lines24 next_line dest w (suc h) b m =
    copy_words dest (w * 3) b m >>= λ r. rstr_lines24 next_line (dest + next_line) w h r.0 r.1

module _ (xres yres next_line : ℕ) where
  abbrev first_byte : Area → ℕ
  first_byte a = next_line * pos_part a.y1 + pos_part a.x1 * 3

  unfoldable pub save_rect24 : Area → Memory → Option Bytes
  save_rect24 a m =
      if on_screen xres yres a
      then some (save_lines24 next_line (first_byte a) (width a) (height a) m)
      else none

  unfoldable pub rstr_rect24 : Area → Bytes → Memory → Option Memory
  rstr_rect24 a b m =
      if on_screen xres yres a
      then rstr_lines24 next_line (first_byte a) (width a) (height a) b m >>= (λ r. some r.1)
      else none

length-save_bytes : (a n : ℕ) (m : Memory) → length (save_bytes a n m) ≡ n
unfolding save_bytes
length-save_bytes a zero m = refl
length-save_bytes a (suc n) m = ap suc (length-save_bytes (a + 1) n m)

length-save_lines24 :
    (next_line dest w h : ℕ) (m : Memory) → length (save_lines24 next_line dest w h m) ≡ h * (w * 3)
unfolding save_lines24
length-save_lines24 next_line dest w zero m = sym (zero-mul (w * 3))
length-save_lines24 next_line dest w (suc h) m =
    let rest = length-save_lines24 next_line (dest + next_line) w h m in
    length-append (save_bytes dest (w * 3) m) (save_lines24 next_line (dest + next_line) w h m)
    ∙ ap (λ n. n + length (save_lines24 next_line (dest + next_line) w h m))
        (length-save_bytes dest (w * 3) m)
    ∙ ap (λ n. w * 3 + n) rest
    ∙ add_comm (w * 3) (h * (w * 3))
    ∙ sym (suc-mul h (w * 3))

-- A copy of as many words as there are bytes reads past the last one.
copy_words_past :
    (a n : ℕ) (b : Bytes) (m : Memory) → 1 ≤ n → length b ≤ n → copy_words a n b m ≡ none
unfolding copy_words
copy_words_past a zero b m h k = absurd (omega arith)
copy_words_past a (suc n) [] m h k = refl
copy_words_past a (suc n) (x ∷ []) m h k = refl
copy_words_past a (suc n) (x ∷ y ∷ b) m h k =
    copy_words_past (a + 1) n (y ∷ b) _ (omega arith) (omega arith)

copy_words_rest :
    (a n : ℕ) (b : Bytes) (m : Memory) (r : Bytes × Memory)
    → copy_words a n b m ≡ some r
    → length r.0 + n ≡ length b
unfolding copy_words
copy_words_rest a zero b m r e =
    ap (λ (q : Bytes × Memory). length q.0 + 0) (sym (some_inj e)) ∙ omega arith
copy_words_rest a (suc n) [] m r e = absurd (ground arith)
copy_words_rest a (suc n) (x ∷ []) m r e = absurd (ground arith)
copy_words_rest a (suc n) (x ∷ y ∷ b) m r e =
    let rest = copy_words_rest (a + 1) n (y ∷ b) _ r e in omega arith

rstr_lines24_past :
    (next_line dest w h : ℕ) (b : Bytes) (m : Memory)
    → 1 ≤ w
    → 1 ≤ h
    → length b ≤ h * (w * 3)
    → rstr_lines24 next_line dest w h b m ≡ none
unfolding rstr_lines24
rstr_lines24_past next_line dest w zero b m hw hh k = absurd (omega arith)
rstr_lines24_past next_line dest w (suc zero) b m hw hh k =
    ap (λ o. o >>= λ r. some r) (copy_words_past dest (w * 3) b m (omega arith) (omega arith))
rstr_lines24_past next_line dest w (suc (suc h)) b m hw hh k =
    elim (Option-cases (copy_words dest (w * 3) b m)) [
      | inl e ↦ ap (λ o. o >>= next) e
      | inr (r, e) ↦
          let left = copy_words_rest dest (w * 3) b m r e in
          let split = suc-mul (suc h) (w * 3) in
          let fits =
            drop_line (length r.0) (suc h * (w * 3)) (w * 3) (length b) left (le_eq k split) in
          bind_some next e
          ∙ rstr_lines24_past next_line (dest + next_line) w (suc h) r.0 r.1 hw (omega arith) fits
    ]
  where
    next : Bytes × Memory → Option (Bytes × Memory)
    next r = rstr_lines24 next_line (dest + next_line) w (suc h) r.0 r.1

    drop_line : (x p q n : ℕ) → x + q ≡ n → n ≤ p + q → x ≤ p
    drop_line x p q n e h = omega arith

    le_eq : {x y z : ℕ} → x ≤ y → y ≡ z → x ≤ z
    le_eq h e = omega arith

-- What was saved of an area of the screen can never be restored with 24 bits to a pixel: the copy
-- reads past the end of the buffer that the saving made, whatever the memory is by then.
pub rstr_rect24-save_rect24 :
    (xres yres next_line : ℕ) (a : Area) (m t : Memory) (b : Bytes)
    → save_rect24 xres yres next_line a m ≡ some b
    → rstr_rect24 xres yres next_line a b t ≡ none
unfolding save_rect24 rstr_rect24
rstr_rect24-save_rect24 xres yres next_line a m t b saved =
    elim (Bool-cases (on_screen xres yres a)) [
      | inl on ↦
          let is = some_inj (sym (if_true _ _ on) ∙ saved) in
          let size =
            ap length (sym is)
            ∙ length-save_lines24 next_line (first_byte xres yres next_line a) (width a) (height a)
                m in
          if_true _ _ on
          ∙ ap (λ o. o >>= λ r. some r.1)
              (rstr_lines24_past next_line _ (width a) (height a) b t (omega arith) (omega arith)
                (omega (arith, size)))
      | inr off ↦ if_false _ _ off
    ]
