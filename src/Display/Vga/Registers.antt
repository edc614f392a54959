-- ===== src/Display/Vga/Registers.antt =====
-- What the register writes of libucimf/display/fbvgaplanes.cpp set, and that they draw nothing.
use ucimf.Prelude.{ℕ, ◌-◌, ◌%◌, ◌≡◌, refl, sym, ap, ◌∙◌, ◌==◌, if◌then◌else◌}
use ucimf.Prelude.Int.{ℤ, pos}
use ucimf.Display.Vga.{
  Card, IsCard, addr_reg, data_reg, byte_of, set_mode, set_op, set_sr, set_color, select_mask,
  set_mask, set_default_mode,
}
use ucimf.Display.Vga.Runs.{Draws, colors, inverts}

module _ {S : Type 0} (c : Card S) where
  -- The registers are as `SetDefaultMode` leaves them.
  pub record IsDefault (s : S) : Type 0 where
    pub mode : c.register s 5 ≡ 3
    pub op : c.register s 3 ≡ 0
    pub mask : c.register s 8 ≡ 255

  module _ (laws : IsCard c) where
    pub register-set :
        (i v : ℕ) (s : S) (j : ℕ)
        → c.register (c.outb v data_reg (c.outb i addr_reg s)) j
          ≡ (if j == i then v else c.register s j)
    register-set i v s j =
        laws.set_register v (c.outb i addr_reg s) j
        ∙ ap (λ k. if j == k then v else c.register (c.outb i addr_reg s) j)
            (laws.select_selected i s)
        ∙ ap (λ r. if j == i then v else r) (laws.select_register i s j)

    pub pixel-set :
        (i v : ℕ) (s : S) (b k : ℕ)
        → c.pixel (c.outb v data_reg (c.outb i addr_reg s)) b k ≡ c.pixel s b k
    pixel-set i v s b k = laws.outb_pixel v data_reg _ b k ∙ laws.outb_pixel i addr_reg s b k

    pub set_default_mode-IsDefault : (s : S) → IsDefault (set_default_mode c s)
    unfolding set_default_mode
    set_default_mode-IsDefault s = record {
      mode =
          register-set 8 255 _ 5
          ∙ register-set 1 15 _ 5
          ∙ register-set 3 0 _ 5
          ∙ register-set 5 3 s 5;
      op = register-set 8 255 _ 3 ∙ register-set 1 15 _ 3 ∙ register-set 3 0 _ 3;
      mask = register-set 8 255 _ 8;
    }

    pub pixel-set_default_mode :
        (s : S) (b k : ℕ) → c.pixel (set_default_mode c s) b k ≡ c.pixel s b k
    unfolding set_default_mode
    pixel-set_default_mode s b k =
        pixel-set 8 255 _ b k ∙ pixel-set 1 15 _ b k ∙ pixel-set 3 0 _ b k ∙ pixel-set 5 3 s b k

    pub set_color-Draws :
        (color : ℤ) (s : S) → IsDefault s → Draws c (λ _. byte_of color % 16) (set_color c color s)
    unfolding set_color
    set_color-Draws color s d =
        colors (register-set 0 _ s 5 ∙ d.mode, register-set 0 _ s 8 ∙ d.mask)
          (register-set 0 _ s 3 ∙ d.op) (λ v. ap (λ r. r % 16) (sym (register-set 0 _ s 0)))

    pub pixel-set_color :
        (color : ℤ) (s : S) (b k : ℕ) → c.pixel (set_color c color s) b k ≡ c.pixel s b k
    unfolding set_color
    pixel-set_color color s b k = pixel-set 0 _ s b k

    unfoldable pub inverting : S → S
    inverting s =
        set_mask c 255
          (select_mask c (set_color c (pos 15) (set_sr c 15 (set_op c 0x18 (set_mode c 3 s)))))

    pub inverting-Draws : (s : S) → Draws c (λ v. 15 - v) (inverting s)
    unfolding inverting set_mask select_mask set_color set_sr set_op set_mode
    inverting-Draws s =
        inverts
          (
            register-set 8 255 _ 5
                ∙ register-set 0 15 _ 5
                ∙ register-set 1 15 _ 5
                ∙ register-set 3 0x18 _ 5
                ∙ register-set 5 3 s 5,
            register-set 8 255 _ 8,
          )
          (register-set 8 255 _ 3
            ∙ register-set 0 15 _ 3
            ∙ register-set 1 15 _ 3
            ∙ register-set 3 0x18 _ 3)
          (ap (λ r. r % 16) (register-set 8 255 _ 0 ∙ register-set 0 15 _ 0)) (λ v. refl)

    pub pixel-inverting : (s : S) (b k : ℕ) → c.pixel (inverting s) b k ≡ c.pixel s b k
    unfolding inverting set_mask select_mask set_color set_sr set_op set_mode
    pixel-inverting s b k =
        pixel-set 8 255 _ b k
        ∙ pixel-set 0 15 _ b k
        ∙ pixel-set 1 15 _ b k
        ∙ pixel-set 3 0x18 _ b k
        ∙ pixel-set 5 3 s b k
