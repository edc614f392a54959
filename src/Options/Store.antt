-- ===== src/Options/Store.antt =====
-- The option table that a file builds: which definition counts, and what a table can hold.
use ucimf.Prelude.{
  true, List, [], ◌∷◌, Option, none, some, ◌≡◌, ◌≢◌, ◌↔◌, refl, ◌∙◌, inl, inr, arith, Bytes, Passes,
  Bool-cases, Option-cases,
}
use ucimf.Options.{
  is_name, is_value, parse_line, Opts, same_name, find, insert, insert_line, parse_lines,
}

pub same_name_iff : (j k : Bytes) → (same_name j k ≡ true) ↔ (j ≡ k)
unfolding same_name
same_name_iff (c ∷ j) (d ∷ k) = ground (arith, same_name_iff j k)
same_name_iff _ _ = ground arith

-- The first of two answers.
abbrev pub or_else : Option Bytes → Option Bytes → Option Bytes
or_else none o = o
or_else (some v) o = some v

abbrev pub lookup_entry : Bytes → Option (Bytes × Bytes) → Option Bytes
lookup_entry k none = none
lookup_entry k (some e) = find k (e ∷ [])

pub find-cons :
    (k : Bytes) (e : Bytes × Bytes) (m : Opts)
    → find k (e ∷ m) ≡ or_else (find k (e ∷ [])) (find k m)
unfolding find
find-cons k (j, v) m = ground arith

find-insert_new :
    (k j : Bytes) (v : Bytes) (m : Opts)
    → find j m ≡ none
    → find k ((j, v) ∷ m) ≡ or_else (find k m) (find k ((j, v) ∷ []))
find-insert_new k j v m absent = elim (Bool-cases (same_name j k)) [
  | inl same ↦
      let e : find k m ≡ none = rw (← (same_name_iff j k).0 same) absent in
      rw (e, find-cons k (j, v) m) (unfold find in rw same)
  | inr differ ↦ rw (find-cons k (j, v) m) (unfold find in rw (differ) (ground arith))
]

find-insert_old :
    (k j : Bytes) (v : Bytes) (m : Opts) (w : Bytes)
    → find j m ≡ some w
    → find k m ≡ or_else (find k m) (find k ((j, v) ∷ []))
find-insert_old k j v m w there = elim (Bool-cases (same_name j k)) [
  | inl same ↦ let e : find k m ≡ some w = rw (← (same_name_iff j k).0 same) there in rw e
  | inr differ ↦ unfold find in rw differ (ground arith)
]

pub find-insert :
    (k : Bytes) (e : Bytes × Bytes) (m : Opts)
    → find k (insert e m) ≡ or_else (find k m) (find k (e ∷ []))
unfolding insert
find-insert k (j, v) m = elim (Option-cases (find j m)) [
  | inl absent ↦ rw (absent, insert) (find-insert_new k j v m absent)
  | inr (w, there) ↦ rw (there, insert) (find-insert_old k j v m w there)
]

pub find-insert_line :
    (k s : Bytes) (m : Opts)
    → find k (insert_line s m) ≡ or_else (find k m) (lookup_entry k (parse_line s))
unfolding insert_line
find-insert_line k s m = elim (Option-cases (parse_line s)) [
  | inl e ↦ rw (e, insert_line) (ground arith)
  | inr (e, p) ↦ rw (p, insert_line) (find-insert k e m)
]

or_else_assoc : (a b c : Option Bytes) → or_else (or_else a b) c ≡ or_else a (or_else b c)
or_else_assoc none b c = refl
or_else_assoc (some v) b c = refl

-- The first line that defines a name decides its value: lookup in the table built from the lines
-- on top of `m` is lookup in `m`, then in the lines' own table.
pub find-parse_lines :
    (k : Bytes) (ss : List Bytes) (m : Opts)
    → find k (parse_lines ss m) ≡ or_else (find k m) (find k (parse_lines ss []))
unfolding parse_lines
find-parse_lines k [] m = unfold find in ground arith
find-parse_lines k (s ∷ ss) m =
    rw
      (
        find-parse_lines k ss (insert_line s m),
        find-parse_lines k ss (insert_line s []),
        find-insert_line k s m,
        find-insert_line k s [],
      )
      (or_else_assoc (find k m) (lookup_entry k (parse_line s)) (find k (parse_lines ss []))
        ∙ unfold find in refl)

-- A pair that the parser can store: a name that is not empty and has no space, tab or equals
-- sign, and a value without space or tab.
pub record IsKept (e : Bytes × Bytes) : Type 0 where
  pub name_ne_nil : e.0 ≢ []
  pub name_bytes : Passes is_name e.0
  pub value_bytes : Passes is_value e.1

-- Every pair is one that the parser can store, and no name stands twice.
abbrev pub IsTable : Opts → Type 0
IsTable [] = Unit
IsTable (e ∷ m) = IsKept e × (find e.0 m ≡ none) × IsTable m
