-- ===== src/OpenVanilla/Dictionary.antt =====
-- `OVImfDictionary` of ucimf-openvanilla/src/openvanilla.cpp: a `std::map` of strings, as in Options.
use ucimf.Prelude.{
  Bool, true, false, none, some, ◌≡◌, refl, ap, ◌∙◌, [], ◌∷◌, Bytes, c_str, c_str_whole, if_true,
}
use ucimf.Prelude.Int.{ℤ}
use ucimf.Options.{Opts, find, insert}
use ucimf.Options.Store.{find-insert, same_name_iff}
use ucimf.OpenVanilla.Decimal.{show_int, atoi, atoi-show_int, show_int_chars}

unfoldable pub key_exist : Bytes → Opts → Bool
key_exist key m = elim (find (c_str key) m) [ none ↦ false | some v ↦ true ]

-- `_dict[key]`, which inserts an empty string where there is none.
unfoldable pub index : Bytes → Opts → Opts × Bytes
index key m = elim (find key m) [ none ↦ ((key, []) ∷ m, []) | some v ↦ (m, v) ]

abbrev pub get_integer : Bytes → Opts → Opts × ℤ
get_integer key m = let r = index (c_str key) m in (r.0, atoi (c_str r.1))

-- `insert` keeps a value that is there; the value given is returned all the same.
abbrev pub set_integer : Bytes → ℤ → Opts → Opts × ℤ
set_integer key value m = (insert (c_str key, show_int value) m, value)

abbrev pub get_string : Bytes → Opts → Opts × Bytes
get_string key m = let r = index (c_str key) m in (r.0, c_str r.1)

abbrev pub set_string : Bytes → Bytes → Opts → Opts × Bytes
set_string key value m = (insert (c_str key, c_str value) m, value)

find_own : (k v : Bytes) → find k ((k, v) ∷ []) ≡ some v
unfolding find
find_own k v = if_true _ _ ((same_name_iff k k).1 refl)

index_there : (k v : Bytes) (m : Opts) → find k m ≡ some v → index k m ≡ (m, v)
unfolding index
index_there k v m e = rw (e, index) refl

insert_there : (k v w : Bytes) (m : Opts) → find k m ≡ some v → insert (k, w) m ≡ m
unfolding insert
insert_there k v w m e = rw (e, insert) refl

find-insert_absent : (k v : Bytes) (m : Opts) → find k m ≡ none → find k (insert (k, v) m) ≡ some v
find-insert_absent k v m e = rw (find-insert k (k, v) m, e) (find_own k v)

-- An integer that is set on a key that is not there yet is what `getInteger` answers from then on,
-- whatever else is set on the key: a later `setInteger` changes nothing.
get_integer-set_integer :
    (key : Bytes) (v w : ℤ) (m : Opts)
    → find (c_str key) m ≡ none
    → get_integer key (set_integer key w (set_integer key v m).0).0 ≡ ((set_integer key v m).0, v)
get_integer-set_integer key v w m absent =
    let once = (set_integer key v m).0 in
    let there : find (c_str key) once ≡ some (show_int v) =
      find-insert_absent (c_str key) (show_int v) m absent in
    ap (get_integer key) (insert_there (c_str key) (show_int v) (show_int w) once there)
    ∙ ap (λ (r : Opts × Bytes). (r.0, atoi (c_str r.1)))
        (index_there (c_str key) (show_int v) once there)
    ∙ ap (λ (s : Bytes). (once, atoi s)) (c_str_whole (show_int v) (show_int_chars v))
    ∙ ap (λ (n : ℤ). (once, n)) (atoi-show_int v)
