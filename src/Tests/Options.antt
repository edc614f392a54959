-- ===== src/Tests/Options.antt =====
-- Tests for libucimf/src/options.cpp and libucimf/src/type.cpp.
use ucimf.Prelude.{[], ◌∷◌, ◌++◌, ◌≡◌, refl, Bytes, take_while, drop_while, c_str}
use ucimf.Options.{
  parse_line, parse_lines, parse_file, find, get_option, lines, add_to_first, insert_line,
  split_fields, insert, same_name,
}
use ucimf.Options.RoundTrip.{render, get_option-render}

abbrev size : Bytes
size = b's' ∷ b'z' ∷ []

abbrev sixteen : Bytes
sixteen = b'1' ∷ b'6' ∷ []

abbrev twenty : Bytes
twenty = b'2' ∷ b'0' ∷ []

-- `sz=16` and `sz = 20 x`.
abbrev first_line : Bytes
first_line = size ++ b'=' ∷ sixteen

abbrev second_line : Bytes
second_line = size ++ b' ' ∷ b'=' ∷ b' ' ∷ twenty ++ b' ' ∷ b'x' ∷ []

reads_value : get_option (parse_file (first_line ++ b'\n' ∷ second_line) []).0 size ≡ sixteen
unfolding get_option parse_file find parse_lines lines add_to_first insert_line parse_line
    split_fields take_while drop_while c_str insert same_name
reads_value = refl

get_option-render_example :
    get_option (parse_file (render ((size, sixteen) ∷ [])) []).0 size
    ≡ get_option ((size, sixteen) ∷ []) size
get_option-render_example = get_option-render size ((size, sixteen) ∷ []) (
  record {
    name_ne_nil = λ e. cc;
    name_bytes = (refl, (refl, tt));
    name_chars = (refl, (refl, tt));
    not_comment = refl;
    value_bytes = (refl, (refl, tt));
    value_chars = (refl, (refl, tt));
    value_starts = refl;
    one_line = (refl, (refl, (refl, (refl, (refl, tt)))));
  },
  tt,
)
