-- ===== src/Options.antt =====
-- libucimf/src/options.cpp: the configuration file and its table of options. A file is the list of
-- its bytes, and `getline` splits it at newlines. `std::map` is an association list: the code only
-- looks a name up, and inserts a name that is new.
pub mod Line
pub mod Store
pub mod RoundTrip
use ucimf.Prelude.{
  ℕ, Bool, true, false, not, ◌&&◌, ◌||◌, List, [], ◌∷◌, ◌++◌, Option, none, some, ◌==◌,
  if◌then◌else◌, Bytes, take_while, drop_while, c_str,
}

abbrev pub is_space : ℕ → Bool
is_space c = c == b' '

abbrev pub is_blank : ℕ → Bool
is_blank c = c == b' ' || c == b'\t'

abbrev pub is_separator : ℕ → Bool
is_separator c = c == b' ' || c == b'\t' || c == b'='

abbrev pub is_name : ℕ → Bool
is_name c = not (is_separator c)

abbrev pub is_value : ℕ → Bool
is_value c = not (is_blank c)

unfoldable pub add_to_first : ℕ → List Bytes → List Bytes
add_to_first c [] = (c ∷ []) ∷ []
add_to_first c (l ∷ ls) = (c ∷ l) ∷ ls

-- What successive calls of `getline` deliver; a last line needs no newline.
unfoldable pub lines : Bytes → List Bytes
lines [] = []
lines (c ∷ cs) = if c == b'\n' then [] ∷ lines cs else add_to_first c (lines cs)

-- `!s.empty() && s[0] == '#'`
abbrev pub is_comment : Bytes → Bool
is_comment [] = false
is_comment (c ∷ cs) = c == b'#'

-- `continue` on an empty name.
abbrev pub named : Bytes → Bytes → Option (Bytes × Bytes)
named [] v = none
named (c ∷ o) v = some (c ∷ o, v)

-- The five loops over the line's C string.
unfoldable pub split_fields : Bytes → Option (Bytes × Bytes)
split_fields p =
    let name_on = drop_while is_space p in
    let separator_on = drop_while is_name name_on in
    let blank_on = drop_while is_separator separator_on in
    let value_on = drop_while is_blank blank_on in
    named (take_while is_name name_on) (take_while is_value value_on)

-- One round of the loop in `parse_file`: the name and value that it inserts.
unfoldable pub parse_line : Bytes → Option (Bytes × Bytes)
parse_line s = if is_comment s then none else split_fields (c_str s)

abbrev pub Opts : Type 0
Opts = List (Bytes × Bytes)

unfoldable pub same_name : Bytes → Bytes → Bool
same_name [] [] = true
same_name (c ∷ j) (d ∷ k) = c == d && same_name j k
same_name _ _ = false

-- `map::find`
unfoldable pub find : Bytes → Opts → Option Bytes
find k [] = none
find k ((j, v) ∷ m) = if same_name j k then some v else find k m

-- `map::insert`, which keeps a value that is there.
unfoldable pub insert : Bytes × Bytes → Opts → Opts
insert (k, v) m = elim (find k m) [ none ↦ (k, v) ∷ m | some _ ↦ m ]

unfoldable pub insert_line : Bytes → Opts → Opts
insert_line s m = elim (parse_line s) [ none ↦ m | some e ↦ insert e m ]

unfoldable pub parse_lines : List Bytes → Opts → Opts
parse_lines [] m = m
parse_lines (s ∷ ss) m = parse_lines ss (insert_line s m)

-- `parse_file`, which reports success whatever it reads.
unfoldable pub parse_file : Bytes → Opts → Opts × Bool
parse_file input m = (parse_lines (lines input) m, true)

abbrev pub nothing : Bytes
nothing = b'n' ∷ b'o' ∷ b't' ∷ b'h' ∷ b'i' ∷ b'n' ∷ b'g' ∷ []

-- `getOption`
unfoldable pub get_option : Opts → Bytes → Bytes
get_option m k = elim (find k m) [ none ↦ nothing | some v ↦ c_str v ]

-- What the constructor asks of the system: `getenv("HOME")`, `access(…, R_OK)`, the stream's bytes
-- if it opens, and the configured path UCIMF_CONF.
pub record System : Type 0 where
  pub home : Option Bytes
  pub readable : Bytes → Bool
  pub contents : Bytes → Option Bytes
  pub ucimf_conf : Bytes

pub data Start : Type 0 where
  could_not_open could_not_read : Start
  started : Opts → Start

abbrev conf_suffix : Bytes
conf_suffix = b'/' ∷ b'.' ∷ b'u' ∷ b'c' ∷ b'i' ∷ b'm' ∷ b'f' ∷ b'.' ∷ b'c' ∷ b'o' ∷ b'n' ∷ b'f' ∷ []

abbrev tmp_dir : Bytes
tmp_dir = b'/' ∷ b't' ∷ b'm' ∷ b'p' ∷ []

unfoldable pub user_conf : System → Bytes
user_conf s = elim s.home [ none ↦ tmp_dir ++ conf_suffix | some h ↦ h ++ conf_suffix ]

-- The path that is checked last, and read.
unfoldable pub chosen_conf : System → Bytes
chosen_conf s = if not (s.readable (user_conf s)) then s.ucimf_conf else user_conf s

-- The constructor `Options::Options`, with its two exceptions as results.
unfoldable pub init : System → Start
init s =
    if not (s.readable (chosen_conf s)) then could_not_open else elim (s.contents (chosen_conf s)) [
      | none ↦ could_not_read
      | some bytes ↦ started (parse_file bytes []).0
    ]
