-- ===== src/Ucimf/Modules.antt =====
-- `scanImf` and `nextImf` of libucimf/src/ucimf.cpp: loading the input method modules, and going
-- round them.
use ucimf.Prelude.{
  ℕ, suc, ◌+◌, ◌%◌, ◌<◌, Bool, true, false, ◌&&◌, ◌||◌, Option, none, some, ◌≡◌, refl, sym, ap, ◌∙◌,
  arith, leb, ◌==◌, if◌then◌else◌, List, [], ◌∷◌, ◌++◌, ◌>>=◌, Bytes, length, get_elem?, bind_some,
}
use ucimf.Ucimf.{Ucimf, next_in, next_imf}

-- `lt_dlopen` on a file name, with what `lt_dlsym` then finds for `createImf` and `destroyImf`; and
-- a call of the function that was found, which may return no module.
pub record Loader : Type 0 where
  pub open_module : Bytes → Option (Option ℕ × Option ℕ)
  pub create : ℕ → Option ℕ

abbrev starts_so : Bytes → Bool
starts_so (a ∷ b ∷ c ∷ r) = a == b'.' && b == b's' && c == b'o'
starts_so _ = false

-- `strstr( name, ".so" )`
unfoldable pub has_so : Bytes → Bool
has_so [] = false
has_so (c ∷ cs) = starts_so (c ∷ cs) || has_so cs

-- The local pointers of `scanImf`, which keep their values from one file to the next.
pub record Symbols : Type 0 where
  pub create_imf : Option ℕ
  pub destroy_imf : Option ℕ

unfoldable pub load : Loader → Bytes → Symbols → Symbols
load l name s = elim (l.open_module name) [
  | none ↦ s
  | some (c, d) ↦ record { create_imf = c; destroy_imf = d }
]

-- `create_imf()`, whose result is kept if it is a module; a call through a null pointer is `none`.
unfoldable pub add_module : Loader → Option ℕ → List ℕ → Option (List ℕ)
add_module l none imfs = none
add_module l (some f) imfs = elim (l.create f) [ none ↦ some imfs | some i ↦ some (imfs ++ i ∷ []) ]

unfoldable pub scan_dir : Loader → List Bytes → Symbols → List ℕ → Option (List ℕ)
scan_dir l [] s imfs = some imfs
scan_dir l (name ∷ names) s imfs =
    let skip = scan_dir l names s imfs in
    let t = load l name s in
    let next = add_module l t.create_imf imfs >>= scan_dir l names t in
    if has_so name then next else skip

abbrev pub no_symbols : Symbols
no_symbols = record { create_imf = none; destroy_imf = none }

-- `scanImf`; the directory is `none` if it cannot be opened.
unfoldable pub scan_imf :
    {P M : Type 0} → Loader → Option (List Bytes) → Ucimf P M → Option (Ucimf P M)
scan_imf l none u = some (record u { current_imf = 0; imfs = [] })
scan_imf l (some names) u =
    scan_dir l names no_symbols [] >>= λ is. some (record u { current_imf = 0; imfs = is })

-- A file that cannot be loaded, behind one that was, is not skipped: the module before it is
-- created once more, under the same function; and a first file that cannot be loaded ends the
-- scan by a call through a null pointer.
pub scan_dir_unloadable :
    (l : Loader) (name broken : Bytes) (names : List Bytes) (f : ℕ) (d : Option ℕ) (i : ℕ)
    (s : Symbols) (imfs : List ℕ)
    → has_so name ≡ true
    → has_so broken ≡ true
    → l.open_module name ≡ some (some f, d)
    → l.create f ≡ some i
    → l.open_module broken ≡ none
    → (scan_dir l (name ∷ broken ∷ names) s imfs
        ≡ scan_dir l names
            (record { create_imf = some f; destroy_imf = d })
            ((imfs ++ i ∷ []) ++ i ∷ []))
      × (scan_dir l (broken ∷ names) no_symbols imfs ≡ none)
unfolding scan_dir load add_module
scan_dir_unloadable l name broken names f d i s imfs so so' opened made missing = ground arith

-- The current module is one of the loaded ones.
abbrev pub IsCurrent : {P M : Type 0} → Ucimf P M → Type 0
IsCurrent u = u.current_imf < length u.imfs

pub get_elem?-lt : (xs : List ℕ) (n : ℕ) → n < length xs → (x : ℕ) × (get_elem? xs n ≡ some x)
get_elem?-lt [] n h = absurd (omega arith)
get_elem?-lt (x ∷ xs) ℕ.zero h = (x, refl)
get_elem?-lt (x ∷ xs) (ℕ.suc n) h = get_elem?-lt xs n (omega arith)

-- The next module's place, going round.
abbrev pub after : ℕ → ℕ → ℕ
after n c = if leb n (c + 1) then 0 else c + 1

-- `k` calls of `nextImf`.
abbrev pub next_times : {P M : Type 0} → ℕ → Ucimf P M → Option (Ucimf P M)
next_times ℕ.zero u = some u
next_times (ℕ.suc k) u = next_imf u >>= λ r. next_times k r.0

after-lt : (n c : ℕ) → c < n → after n c < n
after-lt n c h = ground arith

next_in_step :
    {P M : Type 0} (is : List ℕ) (u : Ucimf P M)
    → u.current_imf < length is
    → (m : ℕ) × (next_in is u
        ≡ some (record u { current_imf = after (length is) u.current_imf }, some m))
      × (get_elem? is (after (length is) u.current_imf) ≡ some m)
unfolding next_in
next_in_step [] u h = absurd (omega arith)
next_in_step (i ∷ is) u h =
    let (m, found) =
      get_elem?-lt (i ∷ is) (after (length (i ∷ is)) u.current_imf)
        (after-lt (length (i ∷ is)) u.current_imf h) in
    (m, bind_some _ found, found)

next_imf_step :
    {P M : Type 0} (u : Ucimf P M)
    → IsCurrent u
    → (m : ℕ) × (next_imf u
        ≡ some (record u { current_imf = after (length u.imfs) u.current_imf }, some m))
      × (get_elem? u.imfs (after (length u.imfs) u.current_imf) ≡ some m)
unfolding next_imf
next_imf_step u h = next_in_step u.imfs u h

after-mod : (n c k : ℕ) → c < n → (after n c + k) % n ≡ (c + suc k) % n
after-mod n c k h = grind arith

-- With at least one module loaded, `k` calls of `nextImf` succeed and go `k` places on, round the
-- list: from place `c` of `n` to place `(c + k) % n`.
next_times_lem :
    {P M : Type 0} (k : ℕ) (u : Ucimf P M)
    → IsCurrent u
    → next_times k u ≡ some (record u { current_imf = (u.current_imf + k) % length u.imfs })
next_times_lem ℕ.zero u h =
    let here : (u.current_imf + 0) % length u.imfs ≡ u.current_imf = grind arith in
    ap (λ (c : ℕ). some (record u { current_imf = c })) (sym here)
next_times_lem (ℕ.suc k) u h =
    let (m, stepped, _) = next_imf_step u h in
    let v = record u { current_imf = after (length u.imfs) u.current_imf } in
    bind_some (λ r. next_times k r.0) stepped
    ∙ next_times_lem k v (after-lt (length u.imfs) u.current_imf h)
    ∙ ap (λ (c : ℕ). some (record u { current_imf = c }))
        (after-mod (length u.imfs) u.current_imf k h)
