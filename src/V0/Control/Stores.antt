-- ===== src/V0/Control/Stores.antt =====
-- akida-dw-edma/dw-edma-v0-core.c: stores to the registers of a channel, and to the
-- masks of a direction.
use Prim.Native.Nat.{bit_or}
use akida_dw_edma.Base.{ℕ, ◌+◌, ◌<◌, ◌≤◌, Bool, ◌&&◌, ltb, ◌≡◌, ◌≢◌, refl, ap, ◌∙◌, arith, if-elim}
use akida_dw_edma.Mmio.{put, put_same, put_other, registers}
use akida_dw_edma.Edma.{
  Dir, write, read, MapFormat, edma_legacy, edma_unroll, hdma_compat, hdma_native,
}
use akida_dw_edma.V0.Regs.{
  engine_en, int_mask, linked_list_err_en, offset, viewport_sel, pwr_en, ChReg, ch_offset, ch_regs,
}
use akida_dw_edma.V0.Control.{
  is_legacy, is_compat, done_bit, select, writel_ch, power_on, unmasked, unmask, enable_ll_err,
}
use akida_dw_edma.V0.Control.Config.{reg}

pub ch_regs-least : (mf : MapFormat) (dir : Dir) (ch : ℕ) → 0x100 ≤ ch_regs mf dir ch
unfolding ch_regs
ch_regs-least edma_legacy dir ch = omega arith
ch_regs-least edma_unroll write ch = omega arith
ch_regs-least edma_unroll read ch = omega arith
ch_regs-least hdma_compat write ch = omega arith
ch_regs-least hdma_compat read ch = omega arith
ch_regs-least hdma_native write ch = omega arith
ch_regs-least hdma_native read ch = omega arith

pub pwr_en-least : (dir : Dir) (id : ℕ) → 0x100 ≤ pwr_en dir id
unfolding pwr_en
pwr_en-least write id = omega arith
pwr_en-least read id = omega arith

module _ (base : ℕ) (local : Bool) (mf : MapFormat) where
  -- A register of a channel, in its window.
  abbrev pub ch_reg : Dir → ℕ → ChReg → (ℕ → ℕ) → ℕ
  ch_reg dir id r h = h (base + (ch_regs mf dir id + ch_offset r))

  select-other :
      (dir : Dir) (id a : ℕ) (h : ℕ → ℕ)
      → a ≢ base + viewport_sel
      → select registers base local mf dir id h a ≡ h a
  unfolding select
  select-other dir id a h ne =
      if-elim (λ (g : ℕ → ℕ). g a ≡ h a) (is_legacy mf)
        (λ _. put_other (base + viewport_sel) a _ h ne) (λ _. refl)

  -- A store to a register of a channel leaves the registers before the viewport.
  pub writel_ch-below :
      (dir : Dir) (id : ℕ) (r : ChReg) (x o : ℕ) (h : ℕ → ℕ)
      → o < viewport_sel
      → writel_ch registers base local mf dir id r x h (base + o) ≡ h (base + o)
  unfolding writel_ch
  writel_ch-below dir id r x o h lt =
      let least = ch_regs-least mf dir id in
      put_other (base + (ch_regs mf dir id + ch_offset r)) (base + o) x
        (select registers base local mf dir id h) (λ e. absurd (omega (arith, e, lt, least)))
      ∙ select-other dir id (base + o) h (λ e. absurd (omega (arith, e, lt)))

  pub writel_ch-same :
      (dir : Dir) (id : ℕ) (r : ChReg) (x : ℕ) (h : ℕ → ℕ)
      → ch_reg dir id r (writel_ch registers base local mf dir id r x h) ≡ x
  unfolding writel_ch
  writel_ch-same dir id r x h =
      put_same (base + (ch_regs mf dir id + ch_offset r)) x
        (select registers base local mf dir id h)

  -- And the other registers of the channel.
  pub writel_ch-other :
      (dir : Dir) (id : ℕ) (r r' : ChReg) (x : ℕ) (h : ℕ → ℕ)
      → ch_offset r' ≢ ch_offset r
      → ch_reg dir id r' (writel_ch registers base local mf dir id r x h) ≡ ch_reg dir id r' h
  unfolding writel_ch
  writel_ch-other dir id r r' x h ne =
      let least = ch_regs-least mf dir id in
      put_other (base + (ch_regs mf dir id + ch_offset r))
        (base + (ch_regs mf dir id + ch_offset r')) x (select registers base local mf dir id h)
        (λ e. absurd (ne (omega (arith, e))))
      ∙ select-other dir id (base + (ch_regs mf dir id + ch_offset r')) h
          (λ e. absurd (omega (arith, e, least)))

  power_on-below :
      (dir : Dir) (id o : ℕ) (h : ℕ → ℕ)
      → o < viewport_sel
      → power_on registers base local mf dir id h (base + o) ≡ h (base + o)
  unfolding power_on
  power_on-below dir id o h lt =
      if-elim (λ (g : ℕ → ℕ). g (base + o) ≡ h (base + o)) (is_compat mf && ltb id 8)
        (λ _.
          put_other (base + pwr_en dir id) (base + o) 1 h
            (λ e. absurd (omega (arith, e, lt, pwr_en-least dir id))))
        (λ _. refl)

  -- Stores to three registers before the viewport, the second and the third of what is read there.
  three_stores :
      (dir : Dir) (id en im le : ℕ) (U O : ℕ → ℕ) (h : ℕ → ℕ)
      → (en < viewport_sel) × ((im < viewport_sel) × (le < viewport_sel))
      → (en ≢ im) × ((en ≢ le) × (im ≢ le))
      → let p = power_on registers base local mf dir id (put (base + en) 1 h) in
        let q = put (base + im) (U (p (base + im))) p in
        let r = put (base + le) (O (q (base + le))) q in
        (r (base + en) ≡ 1)
        × ((r (base + im) ≡ U (h (base + im))) × (r (base + le) ≡ O (h (base + le))))
  three_stores dir id en im le U O h (a, (b, c)) (en_im, (en_le, im_le)) =
      let h₁ = put (base + en) 1 h in
      let p = power_on registers base local mf dir id h₁ in
      let q = put (base + im) (U (p (base + im))) p in
      let other : (x y : ℕ) → x ≢ y → base + x ≢ base + y = λ x y ne e. ne (omega (arith, e)) in
      (
        put_other (base + le) (base + en) (O (q (base + le))) q (other en le en_le)
            ∙ put_other (base + im) (base + en) (U (p (base + im))) p (other en im en_im)
            ∙ power_on-below dir id en h₁ a
            ∙ put_same (base + en) 1 h,
        (
          put_other (base + le) (base + im) (O (q (base + le))) q (other im le im_le)
              ∙ put_same (base + im) (U (p (base + im))) p
              ∙ ap U (
                  power_on-below dir id im h₁ b
                  ∙ put_other (base + en) (base + im) 1 h (λ e. en_im (omega (arith, e)))),
          put_same (base + le) (O (q (base + le))) q
              ∙ ap O (
                  put_other (base + im) (base + le) (U (p (base + im))) p
                    (λ e. im_le (omega (arith, e)))
                  ∙ power_on-below dir id le h₁ c
                  ∙ put_other (base + en) (base + le) 1 h (λ e. en_le (omega (arith, e)))),
        ),
      )

  -- The engine of the direction is on, the interrupts of the channel are unmasked, and its errors
  -- are reported; the other bits of both masks are those of `h`.
  abbrev pub IsArmed : Dir → ℕ → (ℕ → ℕ) → (ℕ → ℕ) → Type 0
  IsArmed dir id h g =
      (reg base local mf dir engine_en g ≡ 1)
      × ((reg base local mf dir int_mask g
            ≡ unmasked registers base local mf id (reg base local mf dir int_mask h))
          × (reg base local mf dir linked_list_err_en g
              ≡ bit_or (reg base local mf dir linked_list_err_en h) (done_bit id)))

  pub enable_ll_err-IsArmed :
      (dir : Dir) (id : ℕ) (h : ℕ → ℕ)
      → IsArmed dir id h (
          enable_ll_err registers base local mf dir id (
            unmask registers base local mf dir id
              (power_on registers base local mf dir id (put (base + offset dir engine_en) 1 h))))
  unfolding enable_ll_err unmask offset
  enable_ll_err-IsArmed write id h =
      three_stores write id 0xc 0x54 0x90 (unmasked registers base local mf id)
        (λ x. bit_or x (done_bit id)) h (omega arith, (omega arith, omega arith))
        (
          (λ e. absurd (omega (arith, e))),
          ((λ e. absurd (omega (arith, e))), (λ e. absurd (omega (arith, e)))),
        )
  enable_ll_err-IsArmed read id h =
      three_stores read id 0x2c 0xa8 0xc4 (unmasked registers base local mf id)
        (λ x. bit_or x (done_bit id)) h (omega arith, (omega arith, omega arith))
        (
          (λ e. absurd (omega (arith, e))),
          ((λ e. absurd (omega (arith, e))), (λ e. absurd (omega (arith, e)))),
        )
