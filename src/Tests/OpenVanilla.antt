-- ===== src/Tests/OpenVanilla.antt =====
-- Tests for the modules of ucimf-openvanilla/src.
use ucimf.Prelude.{
  Bool, List, bind_some, ℕ, ◌+◌, ◌<◌, true, false, [], ◌∷◌, ◌++◌, Option, none, some, ◌≡◌, inl, inr,
  refl, sym, some_inj, arith, ◌==◌, if◌then◌else◌, Bytes, length, ap, ◌∙◌, ◌>>=◌,
}
use ucimf.Options.{same_name}
use ucimf.Widget.Calls.{Widgets}
use ucimf.Ucimf.Modules.{has_so}
use ucimf.OpenVanilla.Bridge.{Bridge, buffer_clear, candidate_clear}
use ucimf.OpenVanilla.Module.{
  InputMethods, OvImf, ovk_return, key_code, passed_through, switch_im, switch_im_reverse, enter,
  end_context, begin_im, on_bridge, named_of, refresh, process_input, process_key, to_context,
}
use ucimf.OpenVanilla.Libraries.{
  Library, Libraries, Places, search_path, load_modules, begin_first, new_ov_imf,
}
use ucimf.OpenVanilla.Switch.{switch_im_reverse-switch_im}
use ucimf.OpenVanilla.Running.{IsRunning}
use ucimf.OpenVanilla.Calls.{shown, next, previous, input, call, calls, calls-IsRunning}
use ucimf.OpenVanilla.Loading.{Ends, load_modules_lem}
use ucimf.OpenVanilla.Utf16.{utf16_to_utf8, utf8_to_utf16}
use ucimf.OpenVanilla.Convert.{encode_utf16_all, to_utf8_all, utf16_to_utf8-encode_utf16}
use ucimf.OpenVanilla.BothWays.{utf8_to_utf16-utf16_to_utf8}
use ucimf.Keyboard.Utf8.{to_utf8}

-- Widgets that keep the text of the preedit bar only.
abbrev pub bars : Widgets Bytes
bars = record {
  preedit_append = λ s p. p ++ s;
  preedit_clear = λ p. some [];
  preedit_render = λ p. some p;
  lookup_append = λ s p. p;
  lookup_append_next = λ s p. p;
  lookup_clear = λ p. some p;
  lookup_render = λ p. some p;
  set_imf_status = λ imf im lang p. some p;
}

-- An input method that appends a letter for every key.
abbrev typed : Bridge Bytes ℕ → Bridge Bytes ℕ
typed b = record b { buf = b.buf ++ b'a' ∷ []; panel = b.panel ++ b'a' ∷ [] }

abbrev methods : InputMethods Bytes ℕ
methods = record {
  initialize = λ i b. some b;
  start = λ i b. some (record b { context = b.context + 1 });
  localized_name = λ i chars b. some (i ∷ []);
  key_event = λ i k b. some (typed b);
  delete_context = λ i b. some b;
}

abbrev bridge : Bridge Bytes ℕ
bridge = record { panel = []; buf = []; onscreen = false; commit_buf = []; dict = []; context = 0 }

abbrev second_of_three : OvImf Bytes ℕ
second_of_three = record {
  bridge = bridge;
  mod_vector = 70 ∷ 71 ∷ 72 ∷ [];
  current_module = 1;
  current_im_name = [];
  im = some 71;
  cxt = some 71;
}

is_some : {A : Type 0} → Option A → Bool
is_some none = false
is_some (some a) = true

got : {A : Type 0} (o : Option A) → is_some o ≡ true → (a : A) × (o ≡ some a)
unfolding is_some
got none e = absurd (ground arith)
got (some a) e = (a, refl)

switched : (v : OvImf Bytes ℕ) × (switch_im bars methods second_of_three ≡ some v)
unfolding is_some switch_im enter end_context begin_im on_bridge named_of refresh buffer_clear
    candidate_clear
switched = got (switch_im bars methods second_of_three) refl

switched_back : (t : OvImf Bytes ℕ) × (switch_im_reverse bars methods switched.0 ≡ some t)
unfolding switched got is_some switch_im switch_im_reverse enter end_context begin_im on_bridge
    named_of refresh buffer_clear candidate_clear
switched_back = got (switch_im_reverse bars methods switched.0) refl

switch_im_reverse-switch_im_example :
    (switched_back.0.current_module ≡ 1)
    × (switched_back.0.im ≡ some 71)
    × (switched_back.0.cxt ≡ some 71)
    × (switched_back.0.mod_vector ≡ 70 ∷ 71 ∷ 72 ∷ [])
switch_im_reverse-switch_im_example =
    switch_im_reverse-switch_im bars methods second_of_three switched.0 switched_back.0 71 refl refl
      switched.1 switched_back.1

-- One library that lists two modules, of which the second is an input method.
abbrev two_modules : Bytes → ℕ → Option ℕ
two_modules path i = if i == 0 then some 7 else if i == 1 then some 8 else none

abbrev library : Library
library = record {
  get_module = some two_modules;
  get_lib_version = some 0x00080000;
  init_library = true;
}

abbrev ov_input_method : Bytes
ov_input_method =
    b'O' ∷ b'V' ∷ b'I' ∷ b'n' ∷ b'p' ∷ b'u' ∷ b't' ∷ b'M' ∷ b'e' ∷ b't' ∷ b'h' ∷ b'o' ∷ b'd' ∷ []

abbrev libraries : Libraries
libraries = record {
  open_library = λ name. some library;
  module_type = λ m. if m == 8 then ov_input_method else [];
}

abbrev places : Places
places = record { module_dir = []; module_dir2 = []; home = []; is_dir = λ d. false }

abbrev so_file : Bytes
so_file = b'a' ∷ b'.' ∷ b's' ∷ b'o' ∷ []

ends : Ends libraries (search_path places) 3 (λ name. 7 ∷ 8 ∷ [])
ends name lib at opened found =
    let same : at ≡ two_modules =
      sym (some_inj (ap (λ (l : Library). l.get_module) (some_inj opened) ∙ found)) in
    let listed = λ (i : ℕ). ap (λ (f : Bytes → ℕ → Option ℕ). f (search_path places) i) same in
    ((listed 0, (listed 1, listed 2)), omega arith)

load_modules_lem_example :
    load_modules libraries places 3 (some (so_file ∷ (b'b' ∷ []) ∷ [])) ≡ some (8 ∷ [])
unfolding has_so same_name
load_modules_lem_example =
    load_modules_lem libraries places 3 (λ name. 7 ∷ 8 ∷ []) (so_file ∷ (b'b' ∷ []) ∷ []) ends

loaded : load_modules libraries places 3 (some (so_file ∷ (b'b' ∷ []) ∷ [])) ≡ some (8 ∷ [])
unfolding has_so same_name
loaded = load_modules_lem libraries places 3 (λ name. 7 ∷ 8 ∷ []) (so_file ∷ (b'b' ∷ []) ∷ []) ends

begun : (u : OvImf Bytes ℕ) × (begin_first bars methods [] 0 (8 ∷ []) ≡ some u)
unfolding is_some begin_im on_bridge named_of refresh buffer_clear candidate_clear
begun = got (begin_first bars methods [] 0 (8 ∷ [])) refl

made :
    new_ov_imf bars methods libraries places 3 (some (so_file ∷ (b'b' ∷ []) ∷ [])) [] 0
    ≡ some begun.0
unfolding new_ov_imf
made = bind_some _ loaded ∙ begun.1

called :
    (r : OvImf Bytes ℕ × Bytes) × (calls bars methods
        (next ∷ input (97 ∷ []) ∷ previous ∷ shown ∷ [])
        begun.0
      ≡ some r)
unfolding begun got is_some calls call process_input process_key to_context key_code passed_through
    switch_im switch_im_reverse enter end_context begin_im on_bridge named_of refresh buffer_clear
    candidate_clear
called = got (calls bars methods (next ∷ input (97 ∷ []) ∷ previous ∷ shown ∷ []) begun.0) refl

calls-IsRunning_example :
    (mods : List ℕ) × (load_modules libraries places 3 (some (so_file ∷ (b'b' ∷ []) ∷ []))
      ≡ some mods)
    × (called.0.0.mod_vector ≡ mods)
    × IsRunning called.0.0
calls-IsRunning_example =
    calls-IsRunning bars methods libraries places 3 (some (so_file ∷ (b'b' ∷ []) ∷ [])) [] 0
      (next ∷ input (97 ∷ []) ∷ previous ∷ shown ∷ []) begun.0 called.0 made called.1

return_key : key_code (13 ∷ []) ≡ some ovk_return
unfolding key_code
return_key = refl

return_passed : passed_through ovk_return ≡ some (13 ∷ [])
unfolding passed_through
return_passed = refl

no_directory : load_modules libraries places 3 none ≡ some []
unfolding load_modules
no_directory = refl

utf8_to_utf16-utf16_to_utf8_example :
    (utf16_to_utf8 (0x4e2d ∷ 0x6587 ∷ []) >>= utf8_to_utf16) ≡ some (0x4e2d ∷ 0x6587 ∷ [])
utf8_to_utf16-utf16_to_utf8_example =
    utf8_to_utf16-utf16_to_utf8 (0x4e2d ∷ 0x6587 ∷ [])
      ((omega arith, omega arith, refl), ((omega arith, omega arith, refl), tt)) (omega arith)

five_bytes : length (to_utf8_all (0x41 ∷ 0x20000 ∷ [])) < 1024
unfolding to_utf8
five_bytes = omega arith

utf16_to_utf8-encode_utf16_example :
    utf16_to_utf8 (encode_utf16_all (0x41 ∷ 0x20000 ∷ []))
    ≡ some (to_utf8_all (0x41 ∷ 0x20000 ∷ []))
utf16_to_utf8-encode_utf16_example =
    utf16_to_utf8-encode_utf16 (0x41 ∷ 0x20000 ∷ [])
      (inl (omega arith), (inr (omega arith, omega arith, omega arith), tt)) five_bytes
