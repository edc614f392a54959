-- ===== src/Options/RoundTrip.antt =====
-- A file written line by line as `name=value` is read back.
use mathlib.Core.List.{append-nil}
use ucimf.Prelude.{
  false, not, [], ◌∷◌, ◌++◌, some, ◌≡◌, ◌≢◌, refl, sym, ap, ◌∙◌, ◌==◌, Bytes, is_char, Passes,
  Stops, All,
}
use ucimf.Options.{
  is_separator, is_name, is_value, is_comment, parse_line, lines, Opts, find, insert_line,
  parse_lines, parse_file, get_option,
}
use ucimf.Options.Line.{parse_line-IsEntry, lines-append}
use ucimf.Options.Store.{find-cons, find-insert_line, find-parse_lines}

-- A name and a value that a line `name=value` carries to the table and back.
pub record IsSetting (e : Bytes × Bytes) : Type 0 where
  pub name_ne_nil : e.0 ≢ []
  pub name_bytes : Passes is_name e.0
  pub name_chars : Passes is_char e.0
  pub not_comment : is_comment e.0 ≡ false
  pub value_bytes : Passes is_value e.1
  pub value_chars : Passes is_char e.1
  pub value_starts : Stops is_separator e.1
  pub one_line : Passes (λ c. not (c == b'\n')) (e.0 ++ b'=' ∷ e.1)

-- The settings as the text of a file, one line for each.
abbrev pub render : Opts → Bytes
render [] = []
render ((k, v) ∷ m) = (k ++ b'=' ∷ v) ++ b'\n' ∷ render m

is_comment-append : (k r : Bytes) → k ≢ [] → is_comment (k ++ r) ≡ is_comment k
is_comment-append [] r ne = absurd (ne refl)
is_comment-append (c ∷ k) r ne = refl

parse_line-render : (k v : Bytes) → IsSetting (k, v) → parse_line (k ++ b'=' ∷ v) ≡ some (k, v)
parse_line-render k v h =
    let whole : b'=' ∷ v ≡ (b'=' ∷ []) ++ (v ++ []) = ap (◌∷◌ b'=') (sym (append-nil v)) in
    rw whole (
      parse_line-IsEntry [] k (b'=' ∷ []) v []
        (is_comment-append k ((b'=' ∷ []) ++ (v ++ [])) h.name_ne_nil ∙ h.not_comment)
        (record {
          indent_chars = tt;
          name_chars = h.name_chars;
          separator_chars = (refl, tt);
          value_chars = h.value_chars;
        })
        (record {
          indent_spaces = tt;
          name_ne_nil = h.name_ne_nil;
          name_bytes = h.name_bytes;
          separator_ne_nil = λ e. cc;
          separator_bytes = (refl, tt);
          value_bytes = h.value_bytes;
          value_starts = rw (append-nil v) h.value_starts;
          value_ends = tt;
        }))

find-render :
    (k : Bytes) (m : Opts) → All IsSetting m → find k (parse_lines (lines (render m)) []) ≡ find k m
unfolding parse_lines find
find-render k [] h = unfold lines in refl
find-render k ((j, v) ∷ m) h = rw (lines-append (j ++ b'=' ∷ v) (render m) h.0.one_line) (
    rw
      (
        find-parse_lines k (lines (render m)) (insert_line (j ++ b'=' ∷ v) []),
        find-insert_line k (j ++ b'=' ∷ v) [],
        parse_line-render j v h.0,
        find-render k m h.1,
        find-cons k (j, v) m,
      )
      refl)

-- A file that holds one line name=value for each setting gives back, for every name, the value of
-- the first setting of that name, and "nothing" for a name that no setting has; if no name is
-- empty, begins with a # or has a space, a tab or an equals sign, no value has a space or a tab or
-- begins with an equals sign, and none of them has a newline or a zero byte.
pub get_option-render :
    (k : Bytes) (m : Opts)
    → All IsSetting m
    → get_option (parse_file (render m) []).0 k ≡ get_option m k
unfolding get_option parse_file
get_option-render k m h = rw (find-render k m h, get_option)
