-- ===== src/Display/Words.antt =====
-- The bytes of a line that is filled by words, in the drivers of Display/Packed.
use ucimf.Prelude.{
  ℕ, zero, suc, ◌+◌, ◌*◌, ◌/◌, ◌%◌, ◌^◌, ◌<◌, ◌≡◌, refl, sym, ap, ◌∙◌, arith, ◌==◌, if◌then◌else◌,
  [], ◌∷◌, ◌++◌, Bytes,
}
use mathlib.Core.List.{append-nil, append_assoc}
use native.Mathlib.Nat.{zero-mul, suc-mul, add_comm}
use ucimf.Display.Packed.{bytes_of, repeat, fill_row16, store4pixels, fill_row24}

cons_eq : {a b : ℕ} {xs ys : Bytes} → a ≡ b → xs ≡ ys → a ∷ xs ≡ b ∷ ys
cons_eq e f = cc

eq4 :
    {a b c d a' b' c' d' : ℕ} {xs ys : Bytes}
    → a ≡ a'
    → b ≡ b'
    → c ≡ c'
    → d ≡ d'
    → xs ≡ ys
    → a ∷ b ∷ c ∷ d ∷ xs ≡ a' ∷ b' ∷ c' ∷ d' ∷ ys
eq4 e f g h i = cons_eq e (cons_eq f (cons_eq g (cons_eq h i)))

repeat_add : (a b : ℕ) (x : Bytes) → repeat (a + b) x ≡ repeat a x ++ repeat b x
unfolding repeat
repeat_add zero b x = ap (λ n. repeat n x) (omega arith)
repeat_add (suc a) b x =
    let shift : suc a + b ≡ suc (a + b) = omega arith in
    ap (λ n. repeat n x) shift
    ∙ ap (λ r. x ++ r) (repeat_add a b x)
    ∙ sym (append_assoc x (repeat a x) (repeat b x))

repeat_mul : (n k m : ℕ) (x : Bytes) → n * k ≡ m → repeat n (repeat k x) ≡ repeat m x
unfolding repeat
repeat_mul zero k m x e = ap (λ n. repeat n x) (sym (zero-mul k) ∙ e)
repeat_mul (suc n) k m x e =
    ap (λ r. repeat k x ++ r) (repeat_mul n k (n * k) x refl)
    ∙ sym (repeat_add k (n * k) x)
    ∙ ap (λ n. repeat n x) (add_comm k (n * k) ∙ sym (suc-mul n k) ∙ e)

-- A bit that says whether one more pixel is written.
once : (n : ℕ) (x : Bytes) → n < 2 → (if n == 1 then x else []) ≡ repeat n x
unfolding repeat
once zero x h = refl
once (suc zero) x h = sym (append-nil x)
once (suc (suc n)) x h = absurd (omega arith)

two16 : (v : ℕ) → v < 2 ^ 16 → bytes_of 4 ((v + v * 2 ^ 16) % 2 ^ 32) ≡ repeat 2 (bytes_of 2 v)
unfolding repeat
two16 v h = eq4 (omega arith) (omega arith) (omega arith) (omega arith) refl

one16 : (v : ℕ) → v < 2 ^ 16 → bytes_of 2 ((v + v * 2 ^ 16) % 2 ^ 32) ≡ bytes_of 2 v
one16 v h = cons_eq (omega arith) (cons_eq (omega arith) refl)

pub fill_row16_lem : (v w : ℕ) → v < 2 ^ 16 → fill_row16 v w ≡ repeat w (bytes_of 2 v)
unfolding fill_row16
fill_row16_lem v w h =
    let p = bytes_of 2 v in
    let fgx = (v + v * 2 ^ 16) % 2 ^ 32 in
    ap (λ x. repeat (w / 2) x ++ (if w % 2 == 1 then bytes_of 2 fgx else [])) (two16 v h)
    ∙ ap (λ x. repeat (w / 2) (repeat 2 p) ++ (if w % 2 == 1 then x else [])) (one16 v h)
    ∙ ap (λ r. repeat (w / 2) (repeat 2 p) ++ r) (once (w % 2) p (omega arith))
    ∙ ap (λ r. r ++ repeat (w % 2) p) (repeat_mul (w / 2) 2 (w / 2 * 2) p refl)
    ∙ sym (repeat_add (w / 2 * 2) (w % 2) p)
    ∙ ap (λ n. repeat n p) (omega arith)

four24 : (v : ℕ) → v < 2 ^ 24 → store4pixels v v v v ≡ repeat 4 (bytes_of 3 v)
unfolding repeat store4pixels
four24 v h = eq4 (omega arith) (omega arith) (omega arith) (omega arith) (
    eq4 (omega arith) (omega arith) (omega arith) (omega arith)
      (eq4 (omega arith) (omega arith) (omega arith) (omega arith) refl))

two24 :
    (v : ℕ)
    → v < 2 ^ 24
    → bytes_of 4 (v + v * 2 ^ 24 % 2 ^ 32) ++ bytes_of 2 (v / 2 ^ 8) ≡ repeat 2 (bytes_of 3 v)
unfolding repeat
two24 v h =
    eq4 (omega arith) (omega arith) (omega arith) (omega arith)
      (cons_eq (omega arith) (cons_eq (omega arith) refl))

one24 : (v : ℕ) → bytes_of 2 v ++ bytes_of 1 (v / 2 ^ 16) ≡ bytes_of 3 v
one24 v = cons_eq refl (cons_eq refl (cons_eq (omega arith) refl))

pub fill_row24_lem : (v w : ℕ) → v < 2 ^ 24 → fill_row24 v w ≡ repeat w (bytes_of 3 v)
unfolding fill_row24
fill_row24_lem v w h =
    let p = bytes_of 3 v in
    let four = ap (repeat (w / 4)) (four24 v h) ∙ repeat_mul (w / 4) 4 (w / 4 * 4) p refl in
    let two =
      ap (λ x. if w / 2 % 2 == 1 then x else []) (two24 v h)
      ∙ once (w / 2 % 2) (repeat 2 p) (omega arith)
      ∙ repeat_mul (w / 2 % 2) 2 (w / 2 % 2 * 2) p refl in
    let one = ap (λ x. if w % 2 == 1 then x else []) (one24 v) ∙ once (w % 2) p (omega arith) in
    three_eq four two one
    ∙ ap (λ r. r ++ repeat (w % 2) p) (sym (repeat_add (w / 4 * 4) (w / 2 % 2 * 2) p))
    ∙ sym (repeat_add (w / 4 * 4 + w / 2 % 2 * 2) (w % 2) p)
    ∙ ap (λ n. repeat n p) (omega arith)
  where
    three_eq : {a b c d e f : Bytes} → a ≡ b → c ≡ d → e ≡ f → a ++ c ++ e ≡ b ++ d ++ f
    three_eq k l m = cc
