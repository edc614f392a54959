-- ===== src/Prelude/Lists.antt =====
-- Lists measured by native numbers, and the byte loops that the C++ code writes over strings.
use Prim.Native.Nat.{ℕ, zero, suc, ◌+◌, ◌≤◌, ◌<◌}
use mathlib.Core.Path.{◌≡◌, refl, sym, ap, ◌∙◌}
use mathlib.Core.Bool.{Bool, true, false}
use mathlib.Core.List.{List, [], ◌∷◌, ◌++◌, append-nil}
use mathlib.Core.Option.{Option, none, some}
use native.Mathlib.Omega.{arith}
use ucimf.Prelude.Tests.{if◌then◌else◌}

abbrev pub Bytes : Type 0
Bytes = List ℕ

module _ {ℓ} {A : Type ℓ} where
  abbrev pub length : List A → ℕ
  length [] = 0
  length (x ∷ xs) = suc (length xs)

  abbrev pub get_elem? : List A → ℕ → Option A
  get_elem? [] i = none
  get_elem? (x ∷ xs) zero = some x
  get_elem? (x ∷ xs) (suc i) = get_elem? xs i

  pub length-append : (xs ys : List A) → length (xs ++ ys) ≡ length xs + length ys
  length-append [] ys = omega arith
  length-append (x ∷ xs) ys = omega (arith, length-append xs ys)

  -- Every element satisfies the predicate.
  abbrev pub All {κ} : (A → Type κ) → List A → Type κ
  All P [] = Unit
  All P (x ∷ xs) = P x × All P xs

-- `while (*p && test(*p)) p++`: what is left, and what was passed.
unfoldable pub drop_while : (ℕ → Bool) → Bytes → Bytes
drop_while p [] = []
drop_while p (c ∷ cs) = if p c then drop_while p cs else c ∷ cs

unfoldable pub take_while : (ℕ → Bool) → Bytes → Bytes
take_while p [] = []
take_while p (c ∷ cs) = if p c then c ∷ take_while p cs else []

-- Every byte passes the test.
abbrev pub Passes : (ℕ → Bool) → Bytes → Type 0
Passes p = All λ c. p c ≡ true

-- The list is empty, or its first byte fails the test.
abbrev pub Stops : (ℕ → Bool) → Bytes → Type 0
Stops p [] = Unit
Stops p (c ∷ cs) = p c ≡ false

pub drop_while-append :
    (p : ℕ → Bool) (xs ys : Bytes) → Passes p xs → Stops p ys → drop_while p (xs ++ ys) ≡ ys
unfolding drop_while
drop_while-append p [] [] h s = refl
drop_while-append p [] (y ∷ ys) h s = ground arith
drop_while-append p (x ∷ xs) ys h s = ground (arith, drop_while-append p xs ys h.1 s)

pub take_while-append :
    (p : ℕ → Bool) (xs ys : Bytes) → Passes p xs → Stops p ys → take_while p (xs ++ ys) ≡ xs
unfolding take_while
take_while-append p [] [] h s = refl
take_while-append p [] (y ∷ ys) h s = ground arith
take_while-append p (x ∷ xs) ys h s = ground (arith, take_while-append p xs ys h.1 s)

pub take_while-Passes : (p : ℕ → Bool) (xs : Bytes) → Passes p (take_while p xs)
unfolding take_while
take_while-Passes p [] = tt
take_while-Passes p (x ∷ xs) = ground (arith, take_while-Passes p xs)

-- A C string ends at its first zero byte.
abbrev pub is_char : ℕ → Bool
is_char zero = false
is_char (suc c) = true

unfoldable pub c_str : Bytes → Bytes
unfolding take_while
c_str = take_while is_char

pub positive-is_char : (n : ℕ) → 1 ≤ n → is_char n ≡ true
positive-is_char zero h = absurd (omega arith)
positive-is_char (suc n) h = refl

pub Passes-append : (p : ℕ → Bool) (xs ys : Bytes) → Passes p xs → Passes p ys → Passes p (xs ++ ys)
Passes-append p [] ys h k = k
Passes-append p (x ∷ xs) ys (h, hs) k = (h, Passes-append p xs ys hs k)

-- A string without a zero byte is its own C string.
pub c_str_whole : (b : Bytes) → Passes is_char b → c_str b ≡ b
unfolding c_str
c_str_whole b h = ap c_str (sym (append-nil b)) ∙ take_while-append is_char b [] h tt

pub get_elem_at :
    {A : Type 0} (l : List A) (c : ℕ) → c < length l → (x : A) × (get_elem? l c ≡ some x)
get_elem_at [] c h = absurd (omega arith)
get_elem_at (x ∷ l) zero h = (x, refl)
get_elem_at (x ∷ l) (suc c) h = get_elem_at l c (omega arith)

pub get_elem_inside :
    {A : Type 0} (l : List A) (c : ℕ) (x : A) → get_elem? l c ≡ some x → c < length l
get_elem_inside [] c x e = grind arith
get_elem_inside (y ∷ l) zero x e = omega arith
get_elem_inside (y ∷ l) (suc c) x e = omega (arith, get_elem_inside l c x e)
