-- ===== src/OpenVanilla/Loading.antt =====
-- What the constructor of `OVImf` in ucimf-openvanilla/src/ovimf.cpp loads.
use ucimf.Prelude.{
  ℕ, zero, suc, ◌+◌, ◌<◌, ◌≤◌, Bool, true, false, ◌&&◌, Option, none, some, ◌≡◌, refl, sym, ap, ◌∙◌,
  arith, leb, if◌then◌else◌, List, [], ◌∷◌, ◌++◌, ◌>>=◌, Bytes, length, get_elem_at, bind_some,
}
use mathlib.Core.List.{append-nil, append_assoc}
use ucimf.Options.{same_name}
use ucimf.Ucimf.Modules.{has_so}
use ucimf.OpenVanilla.Libraries.{
  Library, Libraries, Places, ov_version, input_method, search_path, add_modules, add_library,
  add_file, add_files, load_modules,
}

-- What a library that `add_library` takes has to offer: for each number below `n` a module.
abbrev Offers : (ℕ → Option ℕ) → ℕ → List ℕ → Type 0
Offers at i [] = at i ≡ none
Offers at i (m ∷ ms) = (at i ≡ some m) × Offers at (i + 1) ms

abbrev input_methods : (ℕ → Bytes) → List ℕ → List ℕ
input_methods type_of [] = []
input_methods type_of (m ∷ ms) =
    let rest = input_methods type_of ms in
    if same_name (type_of m) input_method then m ∷ rest else rest

added-append :
    (b : Bool) (m : ℕ) (acc ms : List ℕ)
    → (if b then acc ++ m ∷ [] else acc) ++ ms ≡ acc ++ (if b then m ∷ ms else ms)
added-append true m acc ms = append_assoc acc (m ∷ []) ms
added-append false m acc ms = refl

-- The loop over the modules ends, with a step of fuel for each module and one more, and adds those
-- that are input methods, in their order.
add_modules_lem :
    (type_of : ℕ → Bytes) (at : ℕ → Option ℕ) (ms : List ℕ) (fuel i : ℕ) (acc : List ℕ)
    → Offers at i ms
    → length ms < fuel
    → add_modules type_of at fuel i acc ≡ some (acc ++ input_methods type_of ms)
unfolding add_modules
add_modules_lem type_of at ms zero i acc offers h = absurd (omega arith)
add_modules_lem type_of at [] (suc fuel) i acc offers h =
    rw (offers, add_modules) (ap some (sym (append-nil acc)))
add_modules_lem type_of at (m ∷ ms) (suc fuel) i acc (here, offers) h =
    let rest = λ (b : List ℕ). add_modules_lem type_of at ms fuel (i + 1) b offers (omega arith) in
    rw (here, add_modules)
      (rest _ ∙ ap some (added-append (same_name (type_of m) input_method) m acc _))

-- A library with the three functions, which is not older than OpenVanilla.h.
abbrev usable : Library → Bool
usable lib = elim lib.get_module [
  | none ↦ false
  | some at ↦ elim lib.get_lib_version [
    | none ↦ false
    | some v ↦ lib.init_library && leb ov_version v
  ]
]

-- What a file of the directory adds, where `offered` are the modules that the libraries list.
abbrev contributed : Libraries → (Bytes → List ℕ) → Bytes → List ℕ
contributed l offered name =
    if has_so name
    then elim (l.open_library name) [
      | none ↦ []
      | some lib ↦ if usable lib then input_methods l.module_type (offered name) else []
    ]
    else []

abbrev loaded : Libraries → (Bytes → List ℕ) → List Bytes → List ℕ
loaded l offered [] = []
loaded l offered (name ∷ names) = loaded l offered names ++ contributed l offered name

-- Every library lists its modules and then ends its list, within the fuel.
abbrev pub Ends : Libraries → Bytes → ℕ → (Bytes → List ℕ) → Type 0
Ends l path fuel offered =
    (name : Bytes) (lib : Library) (at : Bytes → ℕ → Option ℕ)
    → l.open_library name ≡ some lib
    → lib.get_module ≡ some at
    → Offers (at path) 0 (offered name) × (length (offered name) < fuel)

module _ (l : Libraries) (path : Bytes) (fuel : ℕ) (offered : Bytes → List ℕ)
    (ends : Ends l path fuel offered) where
  add_library_lem :
      (name : Bytes) (lib : Library) (acc : List ℕ)
      → l.open_library name ≡ some lib
      → add_library l path fuel lib acc
        ≡ some (acc ++ (if usable lib then input_methods l.module_type (offered name) else []))
  unfolding add_library
  add_library_lem name lib acc opened =
      fields lib.get_module lib.get_lib_version lib.init_library (λ at e. ends name lib at opened e)
    where
      fields :
          (g : Option (Bytes → ℕ → Option ℕ)) (v : Option ℕ) (b : Bool)
          → ((at : Bytes → ℕ → Option ℕ)
              → g ≡ some at
              → Offers (at path) 0 (offered name) × (length (offered name) < fuel))
          → let lib : Library = record { get_module = g; get_lib_version = v; init_library = b } in
            add_library l path fuel lib acc
            ≡ some (acc ++ (if usable lib then input_methods l.module_type (offered name) else []))
      fields none v b h = ap some (sym (append-nil acc))
      fields (some at) none b h = ap some (sym (append-nil acc))
      fields (some at) (some v) false h = ap some (sym (append-nil acc))
      fields (some at) (some v) true h =
          let all =
            add_modules_lem l.module_type (at path) (offered name) fuel 0 acc (h at refl).0
              (h at refl).1 in
          ground (arith, all, append-nil acc)

  add_file_lem :
      (name : Bytes) (acc : List ℕ)
      → add_file l path fuel name acc ≡ some (acc ++ contributed l offered name)
  unfolding add_file
  add_file_lem name acc = by_name (has_so name) (l.open_library name) refl refl
    where
      by_name :
          (b : Bool) (o : Option Library)
          → has_so name ≡ b
          → l.open_library name ≡ o
          → add_file l path fuel name acc ≡ some (acc ++ contributed l offered name)
      by_name false o e f = rw (e, add_file) (ap some (sym (append-nil acc)))
      by_name true none e f = rw (e, f, add_file) (ap some (sym (append-nil acc)))
      by_name true (some lib) e f = rw (e, f, add_file) (add_library_lem name lib acc f)

  -- The name in front is the last one that is looked at.
  add_files_cons :
      (n : ℕ) (name : Bytes) (names : List Bytes) (acc : List ℕ)
      → n ≤ length names
      → add_files l path fuel (suc n) (name ∷ names) acc
        ≡ (add_files l path fuel n names acc >>= add_file l path fuel name)
  unfolding add_files
  add_files_cons zero name names acc h =
      bind_some _ (add_file_lem name acc) ∙ sym (add_file_lem name acc)
  add_files_cons (suc n) name names acc h =
      let (x, at) = get_elem_at names n h in
      let now = add_file_lem x acc in
      bind_some _ at
      ∙ bind_some _ now
      ∙ add_files_cons n name names (acc ++ contributed l offered x) (omega arith)
      ∙ ap (λ o. o >>= add_file l path fuel name) (sym (bind_some _ at ∙ bind_some _ now))

  add_files_lem :
      (names : List Bytes) (acc : List ℕ)
      → add_files l path fuel (length names) names acc ≡ some (acc ++ loaded l offered names)
  unfolding add_files
  add_files_lem [] acc = ap some (sym (append-nil acc))
  add_files_lem (name ∷ names) acc =
      add_files_cons (length names) name names acc (omega arith)
      ∙ bind_some _ (add_files_lem names acc)
      ∙ add_file_lem name (acc ++ loaded l offered names)
      ∙ ap some (append_assoc acc (loaded l offered names) (contributed l offered name))

-- The constructor loads the files from the last to the first: every library that can be opened, has
-- the three functions and is not older than OpenVanilla.h adds its input methods, in its own order,
-- and any other file is passed over; if every library ends its list of modules, with as much fuel as
-- the longest list has modules and one step more.
pub load_modules_lem :
    (l : Libraries) (e : Places) (fuel : ℕ) (offered : Bytes → List ℕ) (names : List Bytes)
    → Ends l (search_path e) fuel offered
    → load_modules l e fuel (some names) ≡ some (loaded l offered names)
unfolding load_modules
load_modules_lem l e fuel offered names ends =
    add_files_lem l (search_path e) fuel offered ends names []
