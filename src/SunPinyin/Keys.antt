-- ===== src/SunPinyin/Keys.antt =====
-- The cursor and page keys, from `keysym_to_term_string` of libucimf/src/ucimf.cpp to the modules of
-- ucimf-sunpinyin/src/sunpinyin.cpp and ucimf-openvanilla/src/ovimf.cpp.
use ucimf.Prelude.{
  ℕ, zero, suc, ◌<◌, Bool, true, false, [], ◌∷◌, some, ◌≡◌, ◌⊎◌, inl, inr, refl, sym, ap, ◌∙◌,
  arith, if◌then◌else◌, Bytes, c_str,
}
use ucimf.Prelude.Int.{ℤ, pos}
use ucimf.Keyboard.{Kernel, Keyboard, keysym, kt_cur, kt_fn}
use ucimf.Keyboard.Term.{lead, at, cur_chars, symbol_string, keysym_to_term_string}
use ucimf.Keyboard.Pad.{redirect_other}
use ucimf.OpenVanilla.Module.{key_code, ovk_up, ovk_down, ovk_left, ovk_right}
use ucimf.SunPinyin.{VirtualKeys, key_of}

-- The keys of the type KT_CUR: down, left, right and up.
abbrev pub arrow : VirtualKeys → ℕ → ℕ
arrow vk zero = vk.down
arrow vk (suc zero) = vk.left
arrow vk (suc (suc zero)) = vk.right
arrow vk (suc (suc (suc v))) = vk.up

abbrev pub ovk_arrow : ℕ → ℤ
ovk_arrow zero = ovk_down
ovk_arrow (suc zero) = ovk_left
ovk_arrow (suc (suc zero)) = ovk_right
ovk_arrow (suc (suc (suc v))) = ovk_up

arrow_string :
    (k : Kernel) (s : Keyboard) (v : ℕ)
    → v < 4
    → (keysym_to_term_string k s (keysym kt_cur v) true).1
      ≡ 27 ∷ lead s.cursor_esco ∷ at cur_chars v ∷ []
unfolding keysym_to_term_string symbol_string
arrow_string k s zero h = rw (redirect_other s 1536 refl) refl
arrow_string k s (suc zero) h = rw (redirect_other s 1537 refl) refl
arrow_string k s (suc (suc zero)) h = rw (redirect_other s 1538 refl) refl
arrow_string k s (suc (suc (suc zero))) h = rw (redirect_other s 1539 refl) refl
arrow_string k s (suc (suc (suc (suc v)))) h = absurd (omega arith)

arrow_codes :
    (b : Bool) (vk : VirtualKeys) (v : ℕ)
    → v < 4
    → let buf = 27 ∷ lead b ∷ at cur_chars v ∷ [] in
      (key_of vk buf ≡ some (if b then (0, 0) else (arrow vk v, 0)))
      × (key_code buf ≡ some (if b then pos 0 else ovk_arrow v))
unfolding key_of key_code
arrow_codes true vk v h = (refl, refl)
arrow_codes false vk zero h = (refl, refl)
arrow_codes false vk (suc zero) h = (refl, refl)
arrow_codes false vk (suc (suc zero)) h = (refl, refl)
arrow_codes false vk (suc (suc (suc zero))) h = (refl, refl)
arrow_codes false vk (suc (suc (suc (suc v)))) h = absurd (omega arith)

-- A press of a cursor key reaches both modules as that key if the terminal is in the normal mode of
-- the cursor keys, and as the key 0 if it is in the other one.
pub key_of-arrow :
    (k : Kernel) (s : Keyboard) (vk : VirtualKeys) (v : ℕ)
    → v < 4
    → let buf = (keysym_to_term_string k s (keysym kt_cur v) true).1 in
      (key_of vk buf ≡ some (if s.cursor_esco then (0, 0) else (arrow vk v, 0)))
      × (key_code buf ≡ some (if s.cursor_esco then pos 0 else ovk_arrow v))
key_of-arrow k s vk v h =
    let (e, f) = arrow_codes s.cursor_esco vk v h in
    let sent = arrow_string k s v h in (ap (key_of vk) sent ∙ e, ap key_code sent ∙ f)

-- `ESC [ c ~`, which a Linux console sends for its page keys, with 5 and 6.
abbrev pub csi_tilde : ℕ → Bytes
csi_tilde c = 27 ∷ 91 ∷ c ∷ 126 ∷ []

page_string :
    (k : Kernel) (s : Keyboard) (v : ℕ) (c : Bytes)
    → (v ≡ 24) ⊎ (v ≡ 25)
    → k.func_string v ≡ c
    → (keysym_to_term_string k s (keysym kt_fn v) true).1 ≡ c_str c
unfolding keysym_to_term_string symbol_string
page_string k s v c (inl h) e =
    rw (h, redirect_other s 280 refl) (ap (λ n. c_str (k.func_string n)) (sym h) ∙ ap c_str e)
page_string k s v c (inr h) e =
    rw (h, redirect_other s 281 refl) (ap (λ n. c_str (k.func_string n)) (sym h) ∙ ap c_str e)

-- The page keys, whose strings the kernel has as ESC [ 5 ~ and ESC [ 6 ~ under the function keys 24
-- and 25, are the page keys of SunPinyin, and the key 0 to Open Vanilla.
pub key_of-page :
    (k : Kernel) (s : Keyboard) (vk : VirtualKeys)
    → k.func_string 24 ≡ csi_tilde 53
    → k.func_string 25 ≡ csi_tilde 54
    → let up = (keysym_to_term_string k s (keysym kt_fn 24) true).1 in
      let down = (keysym_to_term_string k s (keysym kt_fn 25) true).1 in
      (key_of vk up ≡ some (vk.page_up, 0))
      × (key_of vk down ≡ some (vk.page_down, 0))
      × (key_code up ≡ some (pos 0))
      × (key_code down ≡ some (pos 0))
unfolding key_of key_code c_str
key_of-page k s vk up down =
    let up = page_string k s 24 (csi_tilde 53) (inl refl) up in
    let down = page_string k s 25 (csi_tilde 54) (inr refl) down in
    (ap (key_of vk) up, ap (key_of vk) down, ap key_code up, ap key_code down)
