-- ===== src/OpenVanilla/Libraries.antt =====
-- The constructor of `OVImf` in ucimf-openvanilla/src/ovimf.cpp: it loads the input methods from
-- the libraries of a directory and begins the first of them. The loader, the libraries, the file
-- system and the directories of the build are parameters.
use ucimf.Prelude.{
  ℕ, zero, suc, ◌+◌, Bool, false, not, Option, none, some, ltb, if◌then◌else◌, List, [], ◌∷◌, ◌++◌,
  ◌>>=◌, Bytes, length, get_elem?,
}
use ucimf.Prelude.Int.{pos}
use ucimf.Options.{Opts, same_name}
use ucimf.Widget.Calls.{Widgets}
use ucimf.Ucimf.Modules.{has_so}
use ucimf.OpenVanilla.Dictionary.{set_string, set_integer}
use ucimf.OpenVanilla.Module.{InputMethods, OvImf, begin_im}

-- What `lt_dlsym` finds in a library: its version; whether it can be initialised; and its modules,
-- for the path it was initialised with, by their number.
pub record Library : Type 0 where
  pub get_module : Option (Bytes → ℕ → Option ℕ)
  pub get_lib_version : Option ℕ
  pub init_library : Bool

-- `lt_dlopen` on a file name, and `moduleType` of a module.
pub record Libraries : Type 0 where
  pub open_library : Bytes → Option Library
  pub module_type : ℕ → Bytes

-- The directories of the build, what is printed for HOME, and `stat` with `S_ISDIR`.
pub record Places : Type 0 where
  pub module_dir : Bytes
  pub module_dir2 : Bytes
  pub home : Bytes
  pub is_dir : Bytes → Bool

abbrev pub ov_version : ℕ
ov_version = 0x00080000

abbrev pub input_method : Bytes
input_method =
    b'O' ∷ b'V' ∷ b'I' ∷ b'n' ∷ b'p' ∷ b'u' ∷ b't' ∷ b'M' ∷ b'e' ∷ b't' ∷ b'h' ∷ b'o' ∷ b'd' ∷ []

abbrev generic : Bytes
generic =
    b'/' ∷ b'O' ∷ b'V' ∷ b'I' ∷ b'M' ∷ b'G' ∷ b'e' ∷ b'n' ∷ b'e' ∷ b'r' ∷ b'i' ∷ b'c' ∷ b'/' ∷ []

abbrev dot_openvanilla : Bytes
dot_openvanilla =
    b'/' ∷ b'.' ∷ b'o' ∷ b'p' ∷ b'e' ∷ b'n' ∷ b'v' ∷ b'a' ∷ b'n' ∷ b'i' ∷ b'l' ∷ b'l' ∷ b'a' ∷ []

abbrev first_bytes : ℕ → Bytes → Bytes
first_bytes zero s = []
first_bytes (suc n) [] = []
first_bytes (suc n) (c ∷ cs) = c ∷ first_bytes n cs

-- `snprintf` into 64 bytes, the last of which is a zero.
unfoldable pub user_dir : Places → Bytes
user_dir e = first_bytes 63 (e.home ++ dot_openvanilla ++ generic)

-- What a library is initialised with.
unfoldable pub search_path : Places → Bytes
search_path e =
    if e.is_dir (user_dir e)
    then user_dir e
    else if e.is_dir (e.module_dir2 ++ generic)
    then e.module_dir2
    else if e.is_dir (e.module_dir ++ generic)
    then e.module_dir
    else user_dir e

-- The loop over the modules of a library, on fuel; `none` is a loop that goes on.
unfoldable pub add_modules : (ℕ → Bytes) → (ℕ → Option ℕ) → ℕ → ℕ → List ℕ → Option (List ℕ)
add_modules type_of at zero i acc = none
add_modules type_of at (suc fuel) i acc =
    let added = λ (m : ℕ). if same_name (type_of m) input_method then acc ++ m ∷ [] else acc in
    let rest = λ (m : ℕ). add_modules type_of at fuel (i + 1) (added m) in
    elim (at i) [ none ↦ some acc | some m ↦ rest m ]

-- The modules of an opened library are added if all three functions are there and the version is
-- not older than that of OpenVanilla.h.
unfoldable pub add_library : Libraries → Bytes → ℕ → Library → List ℕ → Option (List ℕ)
add_library l path fuel lib acc = elim lib.get_module [
  | none ↦ some acc
  | some at ↦ elim lib.get_lib_version [
    | none ↦ some acc
    | some v ↦
        if not lib.init_library
        then some acc
        else if ltb v ov_version
        then some acc
        else add_modules l.module_type (at path) fuel 0 acc
  ]
]

unfoldable pub add_file : Libraries → Bytes → ℕ → Bytes → List ℕ → Option (List ℕ)
add_file l path fuel name acc =
    if has_so name
    then elim (l.open_library name) [ none ↦ some acc | some lib ↦ add_library l path fuel lib acc ]
    else some acc

-- `while (n--)`, over the sorted names of the directory: from the last to the first.
unfoldable pub add_files : Libraries → Bytes → ℕ → ℕ → List Bytes → List ℕ → Option (List ℕ)
add_files l path fuel zero names acc = some acc
add_files l path fuel (suc n) names acc =
    get_elem? names n >>= λ name. add_file l path fuel name acc >>= add_files l path fuel n names

abbrev match_one_char : Bytes
match_one_char =
    b'm' ∷ b'a' ∷ b't' ∷ b'c' ∷ b'h' ∷ b'O' ∷ b'n' ∷ b'e' ∷ b'C' ∷ b'h' ∷ b'a' ∷ b'r' ∷ []

abbrev match_zero_or_more_char : Bytes
match_zero_or_more_char =
    b'm' ∷ b'a' ∷ b't' ∷ b'c' ∷ b'h' ∷ b'Z' ∷ b'e' ∷ b'r' ∷ b'o' ∷ b'O' ∷ b'r' ∷ b'M' ∷ b'o' ∷ b'r'
    ∷ b'e' ∷ b'C' ∷ b'h' ∷ b'a' ∷ b'r' ∷ []

abbrev max_key_sequence_length : Bytes
max_key_sequence_length =
    b'm' ∷ b'a' ∷ b'x' ∷ b'K' ∷ b'e' ∷ b'y' ∷ b'S' ∷ b'e' ∷ b'q' ∷ b'u' ∷ b'e' ∷ b'n' ∷ b'c' ∷ b'e'
    ∷ b'L' ∷ b'e' ∷ b'n' ∷ b'g' ∷ b't' ∷ b'h' ∷ []

abbrev auto_compose : Bytes
auto_compose = b'a' ∷ b'u' ∷ b't' ∷ b'o' ∷ b'C' ∷ b'o' ∷ b'm' ∷ b'p' ∷ b'o' ∷ b's' ∷ b'e' ∷ []

-- The entries that the constructor makes in the dictionary.
unfoldable pub defaults : Opts
defaults =
    let m = (set_string match_one_char (b'?' ∷ []) []).0 in
    let m = (set_string match_zero_or_more_char (b'*' ∷ []) m).0 in
    let m = (set_integer max_key_sequence_length (pos 32) m).0 in
    (set_integer auto_compose (pos 1) m).0

-- The directory is `none` if it cannot be read.
unfoldable pub load_modules : Libraries → Places → ℕ → Option (List Bytes) → Option (List ℕ)
load_modules l e fuel none = some []
load_modules l e fuel (some names) = add_files l (search_path e) fuel (length names) names []

module _ {P C : Type 0} (w : Widgets P) (ims : InputMethods P C) where
  abbrev pub unstarted : P → C → List ℕ → Option ℕ → OvImf P C
  unstarted panel context mods im = record {
    bridge = record {
      panel = panel;
      buf = [];
      onscreen = false;
      commit_buf = [];
      dict = defaults;
      context = context;
    };
    mod_vector = mods;
    current_module = 0;
    current_im_name = [];
    im = im;
    cxt = none;
  }

  abbrev pub begin_first : P → C → List ℕ → Option (OvImf P C)
  begin_first panel context [] = some (unstarted panel context [] none)
  begin_first panel context (i ∷ is) = begin_im w ims i (unstarted panel context (i ∷ is) (some i))

  -- The list of choices is cleared by the constructor of `OVImfCandidate`.
  unfoldable pub new_ov_imf :
      Libraries → Places → ℕ → Option (List Bytes) → P → C → Option (OvImf P C)
  new_ov_imf l e fuel names panel context = w.lookup_clear panel >>= λ p.
      load_modules l e fuel names >>= λ mods. begin_first p context mods
