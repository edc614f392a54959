-- ===== src/Options/Line.antt =====
-- What one line of the configuration file means, and the lines of a file.
use ucimf.Prelude.{
  ℕ, Bool, true, false, not, [], ◌∷◌, ◌++◌, some, ◌≡◌, ◌≢◌, refl, arith, ◌==◌, Bytes, is_char,
  Passes, Stops, take_while, drop_while, c_str, drop_while-append, take_while-append,
}
use ucimf.Options.{
  is_space, is_blank, is_separator, is_name, is_value, is_comment, named, split_fields, parse_line,
  add_to_first, lines,
}

pub c_str-append : (xs ys : Bytes) → Passes is_char xs → c_str (xs ++ ys) ≡ xs ++ c_str ys
unfolding c_str take_while
c_str-append [] ys h = refl
c_str-append (ℕ.zero ∷ xs) ys h = cc
c_str-append (ℕ.suc x ∷ xs) ys h = ground (arith, c_str-append xs ys h.1)

Stops-c_str : (p : ℕ → Bool) (ys : Bytes) → Stops p ys → Stops p (c_str ys)
unfolding c_str take_while
Stops-c_str p [] h = tt
Stops-c_str p (ℕ.zero ∷ ys) h = tt
Stops-c_str p (ℕ.suc y ∷ ys) h = h

Stops-append-c_str : (p : ℕ → Bool) (xs ys : Bytes) → Stops p (xs ++ ys) → Stops p (xs ++ c_str ys)
Stops-append-c_str p [] ys h = Stops-c_str p ys h
Stops-append-c_str p (x ∷ xs) ys h = h

-- The parts of a line that defines an option: indentation, name, separator, value, and the rest
-- of the line, which the parser does not keep.
pub record IsEntry (indent name separator value rest : Bytes) : Type 0 where
  pub indent_spaces : Passes is_space indent
  pub name_ne_nil : name ≢ []
  pub name_bytes : Passes is_name name
  pub separator_ne_nil : separator ≢ []
  pub separator_bytes : Passes is_separator separator
  pub value_bytes : Passes is_value value
  pub value_starts : Stops is_separator (value ++ rest)
  pub value_ends : Stops is_value rest

not-space : (c : ℕ) → is_name c ≡ true → is_space c ≡ false
not-space c h = ground arith

not-name : (c : ℕ) → is_separator c ≡ true → is_name c ≡ false
not-name c h = ground arith

Stops-blank : (xs : Bytes) → Stops is_separator xs → Stops is_blank xs
Stops-blank [] h = tt
Stops-blank (x ∷ xs) h = ground arith

Stops-space : (xs ys : Bytes) → xs ≢ [] → Passes is_name xs → Stops is_space (xs ++ ys)
Stops-space [] ys ne h = absurd (ne refl)
Stops-space (x ∷ xs) ys ne h = not-space x h.0

Stops-name : (xs ys : Bytes) → xs ≢ [] → Passes is_separator xs → Stops is_name (xs ++ ys)
Stops-name [] ys ne h = absurd (ne refl)
Stops-name (x ∷ xs) ys ne h = not-name x h.0

drop_while-Stops : (p : ℕ → Bool) (xs : Bytes) → Stops p xs → drop_while p xs ≡ xs
drop_while-Stops p xs h = drop_while-append p [] xs tt h

named-ne_nil : (o v : Bytes) → o ≢ [] → named o v ≡ some (o, v)
named-ne_nil [] v ne = absurd (ne refl)
named-ne_nil (c ∷ o) v ne = refl

pub split_fields-IsEntry :
    (indent name separator value rest : Bytes)
    → IsEntry indent name separator value rest
    → split_fields (indent ++ (name ++ (separator ++ (value ++ rest)))) ≡ some (name, value)
unfolding split_fields
split_fields-IsEntry i n s v r e =
    rw
      (
        drop_while-append is_space i (n ++ (s ++ (v ++ r))) e.indent_spaces
            (Stops-space n (s ++ (v ++ r)) e.name_ne_nil e.name_bytes),
        take_while-append is_name n (s ++ (v ++ r)) e.name_bytes
            (Stops-name s (v ++ r) e.separator_ne_nil e.separator_bytes),
        drop_while-append is_name n (s ++ (v ++ r)) e.name_bytes
            (Stops-name s (v ++ r) e.separator_ne_nil e.separator_bytes),
        drop_while-append is_separator s (v ++ r) e.separator_bytes e.value_starts,
        drop_while-Stops is_blank (v ++ r) (Stops-blank (v ++ r) e.value_starts),
        take_while-append is_value v r e.value_bytes e.value_ends,
      )
      (named-ne_nil n v e.name_ne_nil)

-- None of the bytes ends a C string.
pub record IsText (indent name separator value : Bytes) : Type 0 where
  pub indent_chars : Passes is_char indent
  pub name_chars : Passes is_char name
  pub separator_chars : Passes is_char separator
  pub value_chars : Passes is_char value

IsEntry-c_str : {i n s v r : Bytes} → IsEntry i n s v r → IsEntry i n s v (c_str r)
IsEntry-c_str {i} {n} {s} {v} {r} e = record {
  indent_spaces = e.indent_spaces;
  name_ne_nil = e.name_ne_nil;
  name_bytes = e.name_bytes;
  separator_ne_nil = e.separator_ne_nil;
  separator_bytes = e.separator_bytes;
  value_bytes = e.value_bytes;
  value_starts = Stops-append-c_str is_separator v r e.value_starts;
  value_ends = Stops-c_str is_value r e.value_ends;
}

-- A line that is no comment and reads `indent name separator value rest` defines `name` as
-- `value`, whatever the rest of the line is: the indentation is spaces, the name has no space, tab
-- or equals sign, the separator is of these alone, and the value ends before the next space or tab.
pub parse_line-IsEntry :
    (indent name separator value rest : Bytes)
    → is_comment (indent ++ (name ++ (separator ++ (value ++ rest)))) ≡ false
    → IsText indent name separator value
    → IsEntry indent name separator value rest
    → parse_line (indent ++ (name ++ (separator ++ (value ++ rest)))) ≡ some (name, value)
unfolding parse_line
parse_line-IsEntry i n s v r h t e =
    rw
      (
        h,
        c_str-append i (n ++ (s ++ (v ++ r))) t.indent_chars,
        c_str-append n (s ++ (v ++ r)) t.name_chars,
        c_str-append s (v ++ r) t.separator_chars,
        c_str-append v r t.value_chars,
      )
      (split_fields-IsEntry i n s v (c_str r) (IsEntry-c_str e))

-- A line without newline is delivered whole.
pub lines-append :
    (l rest : Bytes) → Passes (λ c. not (c == b'\n')) l → lines (l ++ b'\n' ∷ rest) ≡ l ∷ lines rest
unfolding lines add_to_first
lines-append [] rest h = refl
lines-append (c ∷ l) rest h = ground (arith, lines-append l rest h.1)
