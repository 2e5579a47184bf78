-- ===== src/Edma/Setup.antt =====
-- akida-dw-edma/dw-edma-core.c: the interrupt vectors and the channels that `akida_dw_edma_probe`
-- sets up.
pub mod Vectors
pub mod Masks
use Prim.Native.Nat.{bit_or}
use akida_dw_edma.Base.{
  ℕ, zero, suc, ◌+◌, ◌-◌, ◌*◌, ◌/◌, ◌%◌, ◌<◌, ◌≤◌, min, Bool, true, false, not, ◌&&◌, ◌==◌, ltb,
  u16, u32, sub32, if◌then◌else◌, List, [], ◌∷◌, ◌++◌, get_or, set, ◌≡◌, refl, ◌⊎◌, inl, inr, arith,
  if-elim,
}
use akida_dw_edma.Base.Bits.{bit}
use akida_dw_edma.Edma.{
  Dir, write, read, Region, Chip, Chan, SlaveConfig, MsiMsg, CoreOps, idle, req_none, is_write,
}
use akida_dw_edma.Edma.Alloc.{zero_region}

-- `*nr_irqs` and the numbers of vectors that serve the write and the read channels.
pub record IrqAlloc : Type 0 where
  pub left : ℕ
  pub wr : ℕ
  pub rd : ℕ

-- `dw_edma_dec_irq_alloc` on the write and on the read channels
unfoldable pub dec_wr_alloc : ℕ → IrqAlloc → IrqAlloc
dec_wr_alloc cnt a =
    if not (a.left == 0) && ltb a.wr cnt then record a { left = a.left - 1; wr = a.wr + 1 } else a

unfoldable pub dec_rd_alloc : ℕ → IrqAlloc → IrqAlloc
dec_rd_alloc cnt a =
    if not (a.left == 0) && ltb a.rd cnt then record a { left = a.left - 1; rd = a.rd + 1 } else a

-- The loop of `dw_edma_irq_request` that distributes the vectors.
unfoldable pub distribute : ℕ → ℕ → ℕ → IrqAlloc → IrqAlloc
distribute zero wr_cnt rd_cnt a = a
distribute (suc fuel) wr_cnt rd_cnt a =
    let later = distribute fuel wr_cnt rd_cnt (dec_rd_alloc rd_cnt (dec_wr_alloc wr_cnt a)) in
    if not (a.left == 0) && ltb (a.wr + a.rd) (wr_cnt + rd_cnt) then later else a

-- `dw_edma_add_irq_mask`, from a mask on
unfoldable pub add_irq_mask : ℕ → ℕ → ℕ → ℕ → ℕ
add_irq_mask zero mask alloc cnt = mask
add_irq_mask (suc fuel) mask alloc cnt =
    let later = add_irq_mask fuel (suc mask) alloc cnt in
    if ltb (u32 (mask * alloc)) cnt then later else mask

-- What `dw_edma_irq_request` leaves in `wr_alloc` and `rd_alloc`, from 0 in both, and in
-- `dw->nr_irqs`, where every `request_irq` succeeds.
unfoldable pub irq_alloc : ℕ → ℕ → ℕ → IrqAlloc
unfolding distribute
irq_alloc nr_irqs wr_cnt rd_cnt =
    let a : IrqAlloc = record { left = nr_irqs; wr = 0; rd = 0 } in
    if nr_irqs == 1 then a else distribute nr_irqs wr_cnt rd_cnt a

unfoldable pub nr_irqs_of : ℕ → IrqAlloc → ℕ
nr_irqs_of nr_irqs a = if nr_irqs == 1 then 1 else a.wr + a.rd

-- `dw->wr_ch_cnt` and `dw->rd_ch_cnt` in `akida_dw_edma_probe`: `limit` is EDMA_MAX_WR_CH or
-- EDMA_MAX_RD_CH, which are 8.
unfoldable pub ch_cnt_of : ℕ → ℕ → ℕ
ch_cnt_of ll_cnt hw_cnt = min (min (u16 ll_cnt) (u16 hw_cnt)) 8

-- The place of a channel's vector.
unfoldable pub irq_pos : ℕ → IrqAlloc → Dir → ℕ → ℕ
irq_pos nr_irqs a dir id =
    if nr_irqs == 1 then 0 else (if is_write dir then id % a.wr else a.wr + id % a.rd)

-- `struct dw_edma_irq`, less its pointer to the core.
pub record Irq : Type 0 where
  pub msi : MsiMsg
  pub wr_mask : ℕ
  pub rd_mask : ℕ

abbrev pub zero_msi : MsiMsg
zero_msi = record { address_lo = 0; address_hi = 0; msg_data = 0 }

abbrev pub zero_irq : Irq
zero_irq = record { msi = zero_msi; wr_mask = 0; rd_mask = 0 }

abbrev pub dir_of : ℕ → ℕ → Dir
dir_of wr_cnt i = if ltb i wr_cnt then write else read

abbrev pub id_of : ℕ → ℕ → ℕ
id_of wr_cnt i = if ltb i wr_cnt then i else i - wr_cnt

-- `sz / EDMA_LL_SZ - 1` of the channel's region, as a u32.
unfoldable pub ll_max_of : Chip → Dir → ℕ → ℕ
ll_max_of chip write id = sub32 (u32 ((get_or chip.ll_region_wr id zero_region).sz / 24)) 1
ll_max_of chip read id = sub32 (u32 ((get_or chip.ll_region_rd id zero_region).sz / 24)) 1

-- The mask of the vector with the channel's bit set.
unfoldable pub add_channel : Dir → ℕ → Irq → Irq
add_channel write id q = record q { wr_mask = bit_or q.wr_mask (bit id) }
add_channel read id q = record q { rd_mask = bit_or q.rd_mask (bit id) }

module _ {V H : Type 0} (core : CoreOps H) (chip : Chip) (wr_cnt nr_irqs : ℕ) (a : IrqAlloc) where
  -- The fields of `dw->chan[i]`; `vchan_init` gives its virtual channel.
  unfoldable pub setup_chan : V → SlaveConfig → Irq → ℕ → Chan V
  unfolding ll_max_of
  setup_chan vc config irq i = record {
    vc = vc;
    id = id_of wr_cnt i;
    dir = dir_of wr_cnt i;
    ll_max = ll_max_of chip (dir_of wr_cnt i) (id_of wr_cnt i);
    msi = irq.msi;
    request = req_none;
    status = idle;
    configured = false;
    config = config;
  }

  -- The loop of `dw_edma_channel_setup`, with `n` channels left from `i` on: the channels, the
  -- vectors and the hardware.
  unfoldable pub setup_from :
      V → SlaveConfig → ℕ → ℕ → List Irq → H → List (Chan V) × (List Irq × H)
  unfolding setup_chan irq_pos add_channel
  setup_from vc config zero i irqs h = ([], (irqs, h))
  setup_from vc config (suc n) i irqs h =
      let dir = dir_of wr_cnt i in
      let id = id_of wr_cnt i in
      let pos = irq_pos nr_irqs a dir id in
      let irq = get_or irqs pos zero_irq in
      let ch = setup_chan vc config irq i in
      let (chs, later) =
        setup_from vc config n (suc i) (set irqs pos (add_channel dir id irq))
          (core.ch_config dir id irq.msi h) in
      (ch ∷ chs, later)
