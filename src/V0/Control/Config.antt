-- ===== src/V0/Control/Config.antt =====
-- akida-dw-edma/dw-edma-v0-core.c: what `dw_edma_v0_core_ch_config` leaves in the registers.
use akida_dw_edma.Base.{ℕ, ◌+◌, ◌*◌, ◌/◌, ◌<◌, Bool, true, ltb, ◌≡◌, ap, ◌∙◌, arith}
use akida_dw_edma.Base.Bits.{test_bit}
use akida_dw_edma.Mmio.{put, put_same, put_other, registers}
use akida_dw_edma.Edma.{Dir, write, read, MapFormat, MsiMsg}
use akida_dw_edma.V0.Regs.{
  Reg, done_imwr_lsb, done_imwr_msb, abort_imwr_lsb, abort_imwr_msb, imwr_data, offset,
}
use akida_dw_edma.V0.Control.{ch_config, msi_data}
use akida_dw_edma.V0.Control.Bits.{half_bit, msi_data-halves}

-- Four stores below a register leave it.
put_below :
    (a b c d r x y z t : ℕ) (h : ℕ → ℕ)
    → (a < r) × ((b < r) × ((c < r) × (d < r)))
    → put d t (put c z (put b y (put a x h))) r ≡ h r
put_below a b c d r x y z t h (p, (q, (s, u))) =
    put_other d r t (put c z (put b y (put a x h))) (λ e. absurd (omega arith))
    ∙ put_other c r z (put b y (put a x h)) (λ e. absurd (omega arith))
    ∙ put_other b r y (put a x h) (λ e. absurd (omega arith))
    ∙ put_other a r x h (λ e. absurd (omega arith))

module _ (base : ℕ) (local : Bool) (mf : MapFormat) where
  -- The register of a direction, in a state of the registers.
  abbrev pub reg : Dir → Reg → (ℕ → ℕ) → ℕ
  reg dir r h = h (base + offset dir r)

  -- The store of the new word over what is read after four stores below it.
  data_over :
      (a b c d r id : ℕ) (msi : MsiMsg) (h : ℕ → ℕ)
      → (a < r) × ((b < r) × ((c < r) × (d < r)))
      → let hi = msi.address_hi in
        let lo = msi.address_lo in
        let h₂ = put d hi (put c lo (put b hi (put a lo h))) in
        put r (msi_data registers base local mf id msi.msg_data (h₂ r)) h₂ r
        ≡ msi_data registers base local mf id msi.msg_data (h r)
  data_over a b c d r id msi h below =
      let hi = msi.address_hi in
      let lo = msi.address_lo in
      let h₂ = put d hi (put c lo (put b hi (put a lo h))) in
      put_same r (msi_data registers base local mf id msi.msg_data (h₂ r)) h₂
      ∙ ap (msi_data registers base local mf id msi.msg_data)
          (put_below a b c d r lo hi lo hi h below)

  -- The MSI data register of the pair ends with the new word over the old one.
  ch_config-data :
      (dir : Dir) (id : ℕ) (msi : MsiMsg) (h : ℕ → ℕ)
      → id < 8
      → reg dir (imwr_data (id / 2)) (ch_config registers base local mf dir id msi h)
        ≡ msi_data registers base local mf id msi.msg_data (reg dir (imwr_data (id / 2)) h)
  unfolding ch_config offset
  ch_config-data write id msi h lt =
      let small : ltb id 8 ≡ true = ground (arith, lt) in
      rw small (
        data_over (base + 96) (base + 100) (base + 104) (base + 108) (base + (112 + 4 * (id / 2)))
          id msi h (omega arith, (omega arith, (omega arith, omega arith))))
  ch_config-data read id msi h lt =
      let small : ltb id 8 ≡ true = ground (arith, lt) in
      rw small (
        data_over (base + 204) (base + 208) (base + 212) (base + 216) (base + (220 + 4 * (id / 2)))
          id msi h (omega arith, (omega arith, (omega arith, omega arith))))

  -- The four address registers of a direction.
  abbrev pub HasAddresses : Dir → MsiMsg → (ℕ → ℕ) → Type 0
  HasAddresses dir msi h =
      (reg dir done_imwr_lsb h ≡ msi.address_lo)
      × ((reg dir done_imwr_msb h ≡ msi.address_hi)
          × ((reg dir abort_imwr_lsb h ≡ msi.address_lo)
              × (reg dir abort_imwr_msb h ≡ msi.address_hi)))

  ch_config-HasAddresses :
      (dir : Dir) (id : ℕ) (msi : MsiMsg) (h : ℕ → ℕ)
      → id < 8
      → HasAddresses dir msi (ch_config registers base local mf dir id msi h)
  unfolding ch_config offset
  ch_config-HasAddresses write id msi h lt =
      let small : ltb id 8 ≡ true = ground (arith, lt) in
      rw small (ground arith, (ground arith, (ground arith, ground arith)))
  ch_config-HasAddresses read id msi h lt =
      let small : ltb id 8 ≡ true = ground (arith, lt) in
      rw small (ground arith, (ground arith, (ground arith, ground arith)))

  -- On registers that keep what is written to them, after the configuration of a channel below 8:
  -- the four address registers of its direction hold the address of the message, the channel's half
  -- of the pair's data register holds the message's low 16 bits, and the other half is as before.
  pub ch_config-registers :
      (dir : Dir) (id : ℕ) (msi : MsiMsg) (h : ℕ → ℕ)
      → id < 8
      → let h' = ch_config registers base local mf dir id msi h in
        let pair = imwr_data (id / 2) in
        HasAddresses dir msi h'
        × ((p : ℕ)
            → p < 16
            → (half_bit id p (reg dir pair h') ≡ test_bit p msi.msg_data)
              × (half_bit (id + 1) p (reg dir pair h') ≡ half_bit (id + 1) p (reg dir pair h)))
  ch_config-registers dir id msi h lt = (
    ch_config-HasAddresses dir id msi h lt,
    (λ p few. rw (ch_config-data dir id msi h lt) (
        msi_data-halves registers base local mf id msi.msg_data (reg dir (imwr_data (id / 2)) h) p
          few)),
  )
