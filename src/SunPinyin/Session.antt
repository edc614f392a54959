-- ===== src/SunPinyin/Session.antt =====
-- What the SunPinyin session shows and sends, in ucimf-sunpinyin/src/sunpinyin.cpp.
use ucimf.Prelude.{
  ℕ, ◌+◌, ◌%◌, ◌<◌, some, ◌≡◌, ◌≢◌, refl, ap, ◌∙◌, arith, ◌==◌, List, [], ◌∷◌, ◌++◌, ◌>>=◌, Bytes,
  length, is_char, Passes, bind_some, if_true, if_false,
}
use ucimf.Widget.Calls.{Widgets}
use ucimf.OpenVanilla.Decimal.{digits, show_nat}
use ucimf.SunPinyin.{
  Handler, Wcstombs, VirtualKeys, KeyEvent, terminated, end_at, key_of, key_value, update_preedit,
  candidate_line, append_candidates, update_candidates, commit, to_view, process_key, process_input,
}

-- The conversion of a wide string writes a text without a zero byte, and a zero after it, and has
-- room for both.
abbrev pub Converts : Wcstombs → List ℕ → Bytes → Type 0
Converts wcstombs text t = Passes is_char t × (r : Bytes) × (wcstombs text ≡ (t ++ 0 ∷ r, length t))

terminated_lem : (t r : Bytes) → Passes is_char t → terminated (t ++ 0 ∷ r) ≡ some t
unfolding terminated
terminated_lem [] r h = refl
terminated_lem (c ∷ t) r (h, hs) = if_true _ _ h ∙ bind_some _ (terminated_lem t r hs)

end_at_lem : (t r : Bytes) → Passes is_char t → end_at (t ++ 0 ∷ r) (length t) ≡ some t
unfolding end_at
end_at_lem [] r h = refl
end_at_lem (c ∷ t) r (h, hs) = if_true _ _ h ∙ bind_some _ (end_at_lem t r hs)

digit-show_nat : (n : ℕ) → n < 10 → show_nat n ≡ (48 + n) ∷ []
unfolding show_nat digits
digit-show_nat n h = ground arith

-- The line of a candidate is one digit, the candidate and a space.
candidate_line_lem :
    (wcstombs : Wcstombs) (i : ℕ) (text : List ℕ) (t : Bytes)
    → Converts wcstombs text t
    → candidate_line wcstombs i text ≡ some ((48 + (i + 1) % 10) ∷ t ++ b' ' ∷ [])
unfolding candidate_line
candidate_line_lem wcstombs i text t (h, r, e) =
    ap (λ (p : Bytes × ℕ). end_at p.0 p.1 >>= λ s. some (show_nat ((i + 1) % 10) ++ s ++ b' ' ∷ []))
      e
    ∙ bind_some _ (end_at_lem t r h)
    ∙ ap (λ d. some (d ++ t ++ b' ' ∷ [])) (digit-show_nat ((i + 1) % 10) (omega arith))

-- Each candidate has its conversion.
abbrev pub ConvertAll : Wcstombs → List (List ℕ) → List Bytes → Type 0
ConvertAll wcstombs [] [] = Unit
ConvertAll wcstombs (text ∷ texts) (t ∷ ts) =
    Converts wcstombs text t × ConvertAll wcstombs texts ts
ConvertAll wcstombs _ _ = ⊥

-- The lines of the candidates from a place on, each on a line of its own.
abbrev pub show_lines : {P : Type 0} → Widgets P → ℕ → List Bytes → P → P
show_lines w i [] p = p
show_lines w i (t ∷ ts) p =
    show_lines w (i + 1) ts (w.lookup_append_next ((48 + (i + 1) % 10) ∷ t ++ b' ' ∷ []) p)

module _ {P V : Type 0} (w : Widgets P) (wcstombs : Wcstombs) where
  append_candidates_lem :
      (i : ℕ) (texts : List (List ℕ)) (ts : List Bytes) (h : Handler P V)
      → ConvertAll wcstombs texts ts
      → append_candidates w wcstombs i texts h
        ≡ some (record h { panel = show_lines w i ts h.panel })
  unfolding append_candidates
  append_candidates_lem i [] [] h c = refl
  append_candidates_lem i [] (t ∷ ts) h c = absurd c
  append_candidates_lem i (text ∷ texts) [] h c = absurd c
  append_candidates_lem i (text ∷ texts) (t ∷ ts) h (c, cs) =
      bind_some _ (candidate_line_lem wcstombs i text t c)
      ∙ append_candidates_lem (i + 1) texts ts _ cs

  -- A list of candidates is shown as lines under the labels 1 to 9 and 0, over and over, in the
  -- place of the lines before; whatever the widgets are, if the conversion has room for each
  -- candidate, and the widgets' own calls return.
  update_candidates_lem :
      (texts : List (List ℕ)) (ts : List Bytes) (h : Handler P V) (p q : P)
      → ConvertAll wcstombs texts ts
      → w.lookup_clear h.panel ≡ some p
      → w.lookup_render (show_lines w 0 ts p) ≡ some q
      → update_candidates w wcstombs texts h ≡ some (record h { panel = q })
  unfolding update_candidates
  update_candidates_lem texts ts h p q all clear render =
      bind_some _ (bind_some _ (bind_some _ clear) ∙ append_candidates_lem 0 texts ts _ all)
      ∙ bind_some _ render

  -- A composed text is shown in the place of the text before, with the number of its bytes noted.
  update_preedit_lem :
      (text : List ℕ) (t : Bytes) (h : Handler P V) (p q : P)
      → Converts wcstombs text t
      → w.preedit_clear h.panel ≡ some p
      → w.preedit_render (w.preedit_append t p) ≡ some q
      → update_preedit w wcstombs text h ≡ some (record h { panel = q; prdt_len = length t })
  unfolding update_preedit
  update_preedit_lem text t h p q (ok, r, e) clear render = rw e (
      bind_some _ (bind_some _ (bind_some _ clear) ∙ bind_some _ (terminated_lem t r ok))
      ∙ bind_some _ render)

  commit_lem :
      (text : List ℕ) (t : Bytes) (h : Handler P V)
      → Converts wcstombs text t
      → commit w wcstombs text h ≡ some (record h { commit_buf = t })
  unfolding commit
  commit_lem text t h (ok, r, e) = rw e (bind_some _ (end_at_lem t r ok))

composing :
    {P V : Type 0} (vk : VirtualKeys) (on_key_event : KeyEvent P V) (buf : Bytes) (k : ℕ × ℕ)
    (h g : Handler P V)
    → key_of vk buf ≡ some k
    → h.prdt_len ≢ 0
    → on_key_event k.0 (key_value k.1) h ≡ some g
    → process_input vk on_key_event buf h ≡ some (record g { commit_buf = [] }, g.commit_buf)
unfolding process_input process_key to_view
composing vk on_key_event buf k h g e n d =
    bind_some _ e ∙ if_false {b = h.prdt_len == 0} _ _ (ground arith) ∙ bind_some _ d

-- A key whose event sends a text outputs that text, and a later key whose event sends none outputs
-- nothing: with a text that the conversion has room for, from a handler that is composing, and a
-- session that goes on composing.
process_input-commit :
    {P V : Type 0} (w : Widgets P) (vk : VirtualKeys) (wcstombs : Wcstombs)
    (on_key_event : KeyEvent P V) (buf buf' : Bytes) (k k' : ℕ × ℕ) (text : List ℕ) (t : Bytes)
    (h g g' : Handler P V)
    → Converts wcstombs text t
    → key_of vk buf ≡ some k
    → key_of vk buf' ≡ some k'
    → (h.prdt_len ≢ 0) × (g.prdt_len ≢ 0)
    → on_key_event k.0 (key_value k.1) h ≡ commit w wcstombs text g
    → on_key_event k'.0 (key_value k'.1) (record g { commit_buf = [] })
      ≡ some (record g' { commit_buf = [] })
    → (process_input vk on_key_event buf h ≡ some (record g { commit_buf = [] }, t))
      × (process_input vk on_key_event buf' (record g { commit_buf = [] })
          ≡ some (record g' { commit_buf = [] }, []))
process_input-commit w vk wcstombs on_key_event buf buf' k k' text t h g g' conv e e' n d d' = (
  composing vk on_key_event buf k h (record g { commit_buf = t }) e n.0
      (d ∙ commit_lem w wcstombs text t g conv),
  composing vk on_key_event buf' k' (record g { commit_buf = [] }) (record g' { commit_buf = [] })
      e' n.1 d',
)
