-- ===== src/Ustring.antt =====
-- libucimf/src/type.cpp: `ustring`, a string of UTF-32 words. `iconv` is the C library's: given a
-- number of words that fit, an encoding and the bytes, it tells which words it writes.
use ucimf.Prelude.{
  ℕ, Bool, true, false, ◌&&◌, List, [], ◌∷◌, ◌++◌, ◌≡◌, ◌↔◌, sym, ◌∙◌, arith, ◌==◌, Bytes, c_str,
}
use mathlib.Core.List.{append-nil, append_assoc}

abbrev pub Ustring : Type 0
Ustring = List ℕ

abbrev pub Iconv : Type 0
Iconv = ℕ → Bytes → Bytes → List ℕ

-- The loop from `i = 1`, which leaves the byte order mark out.
abbrev pub tail : List ℕ → List ℕ
tail [] = []
tail (x ∷ xs) = xs

-- `ustring(const char* encoding, const char* data)`, over a buffer of 64 words.
unfoldable pub of_chars : Iconv → Bytes → Bytes → Ustring
of_chars iconv encoding chars = tail (iconv 64 encoding (c_str chars))

-- `ustring(const string&, const string&)`: the other constructor's call makes a temporary, and the
-- object itself stays empty.
abbrev pub of_strings : Iconv → Bytes → Bytes → Ustring
of_strings iconv encoding chars = []

-- `str_to_utf32`, over a buffer of 256 bytes.
abbrev pub str_to_utf32 : Iconv → Bytes → Bytes → List ℕ
str_to_utf32 iconv input enc = tail (iconv 64 enc (c_str input))

push_all : Ustring → Ustring → Ustring
push_all result [] = result
push_all result (c ∷ cs) = push_all (result ++ c ∷ []) cs

-- `operator+`
unfoldable pub plus : Ustring → Ustring → Ustring
unfolding push_all
plus a b = push_all a b

-- `operator==`
unfoldable pub equal : Ustring → Ustring → Bool
equal [] [] = true
equal (c ∷ u) (d ∷ v) = c == d && equal u v
equal _ _ = false

push_all-append : (a b : Ustring) → push_all a b ≡ a ++ b
unfolding push_all
push_all-append a [] = sym (append-nil a)
push_all-append a (c ∷ cs) = push_all-append (a ++ c ∷ []) cs ∙ append_assoc a (c ∷ []) cs

equal_iff : (u v : Ustring) → (equal u v ≡ true) ↔ (u ≡ v)
unfolding equal
equal_iff (c ∷ u) (d ∷ v) = ground (arith, equal_iff u v)
equal_iff _ _ = ground arith

pub plus-append : (a b : Ustring) → plus a b ≡ a ++ b
unfolding plus
plus-append a b = push_all-append a b

-- `+` puts the second string behind the first, and `==` answers true exactly for equal strings.
equal-plus : (a b c : Ustring) → (equal (plus a b) c ≡ true) ↔ (a ++ b ≡ c)
equal-plus a b c = rw (plus-append a b) (equal_iff (a ++ b) c)
