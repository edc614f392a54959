-- ===== src/Keyboard.antt =====
-- libucimf/src/ucimf.cpp, the keyboard part: the state of the raw keyboard, the kernel calls that
-- the code makes, and the numbers that linux/keyboard.h and linux/kd.h give to keys.
pub mod Utf8
pub mod Keysym
pub mod Modifiers
pub mod Locks
pub mod Term
pub mod Pad
pub mod Scan
use ucimf.Prelude.{
  ℕ, ◌+◌, ◌*◌, ◌/◌, ◌%◌, Bool, true, false, Option, none, ◌==◌, if◌then◌else◌, Bytes,
}

-- KTYP and KVAL, and K(t, v) for a value of eight bits.
abbrev pub ktyp : ℕ → ℕ
ktyp x = x / 256

abbrev pub kval : ℕ → ℕ
kval x = x % 256

abbrev pub keysym : ℕ → ℕ → ℕ
keysym t v = t * 256 + v

abbrev pub kt_latin : ℕ
kt_latin = 0

abbrev pub kt_fn : ℕ
kt_fn = 1

abbrev pub kt_spec : ℕ
kt_spec = 2

abbrev pub kt_pad : ℕ
kt_pad = 3

abbrev pub kt_cur : ℕ
kt_cur = 6

abbrev pub kt_shift : ℕ
kt_shift = 7

abbrev pub kt_meta : ℕ
kt_meta = 8

abbrev pub kt_ascii : ℕ
kt_ascii = 9

abbrev pub kt_letter : ℕ
kt_letter = 11

-- K_HOLE, K_ENTER, K_CAPS, K_NUM, K_CAPSON, K_BARENUMLOCK, K_NOSUCHMAP.
abbrev pub k_hole : ℕ
k_hole = 0x200

abbrev pub k_enter : ℕ
k_enter = 0x201

abbrev pub k_caps : ℕ
k_caps = 0x207

abbrev pub k_num : ℕ
k_num = 0x208

abbrev pub k_capson : ℕ
k_capson = 0x20d

abbrev pub k_barenumlock : ℕ
k_barenumlock = 0x213

abbrev pub k_nosuchmap : ℕ
k_nosuchmap = 0x27f

-- KG_SHIFT, KG_CTRL, KG_CAPSSHIFT, NR_SHIFT, NR_KEYS, NR_PAD, NR_ASCII.
abbrev pub kg_shift : ℕ
kg_shift = 0

abbrev pub kg_ctrl : ℕ
kg_ctrl = 2

abbrev pub kg_capsshift : ℕ
kg_capsshift = 8

abbrev pub nr_shift : ℕ
nr_shift = 9

abbrev pub nr_keys : ℕ
nr_keys = 256

abbrev pub nr_pad : ℕ
nr_pad = 20

abbrev pub nr_ascii : ℕ
nr_ascii = 26

-- The bits of `lock_state` that K_SCROLLLOCK, K_NUMLOCK and K_CAPSLOCK name.
pub record Leds : Type 0 where
  pub scroll : Bool
  pub num : Bool
  pub caps : Bool

-- What the ioctl calls on the console deliver: KDGKBENT for a table and a keycode (`none` is -1),
-- KDGKBSENT for a function key, KDGKBMETA, KDGKBLED. KDSKBLED only sets the lights.
pub record Kernel : Type 0 where
  pub kb_entry : ℕ → ℕ → Option ℕ
  pub func_string : ℕ → Bytes
  pub meta_flag : ℕ
  pub led_state : Leds

-- The static variables. `shift_state` is the set of its bits; `npadch` is `none` for -1.
pub record Keyboard : Type 0 where
  pub key_down : ℕ → Bool
  pub shift_down : ℕ → ℕ
  pub shift_state : ℕ → Bool
  pub lock_state : Leds
  pub cr_with_lf : Bool
  pub applic_keypad : Bool
  pub cursor_esco : Bool
  pub npadch : Option ℕ

-- A write to one place of an array.
abbrev pub update {ℓ} : {A : Type ℓ} → (ℕ → A) → ℕ → A → ℕ → A
update f i v j = if i == j then v else f j

abbrev bit : Bool → ℕ
bit true = 1
bit false = 0

-- `kb_table`, an unsigned char: the low eight bits of `shift_state`.
abbrev pub kb_table : (ℕ → Bool) → ℕ
kb_table f =
    bit (f 0)
    + 2 * bit (f 1)
    + 4 * bit (f 2)
    + 8 * bit (f 3)
    + 16 * bit (f 4)
    + 32 * bit (f 5)
    + 64 * bit (f 6)
    + 128 * bit (f 7)

pub init_keycode_state : Kernel → Keyboard → Keyboard
init_keycode_state k s = record s {
  npadch = none;
  shift_state = λ _. false;
  key_down = λ _. false;
  shift_down = λ _. 0;
  lock_state = k.led_state;
}
