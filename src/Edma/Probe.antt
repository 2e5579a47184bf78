-- ===== src/Edma/Probe.antt =====
-- akida-dw-edma/dw-edma-core.c: `dw_edma_irq_request`, `akida_dw_edma_probe` and
-- `akida_dw_edma_remove`.
pub mod Reverts
pub mod Served
pub mod Keeps
use akida_dw_edma.Base.{
  ℕ, zero, suc, ◌+◌, Bool, true, false, not, ◌&&◌, ◌||◌, ◌==◌, ltb, if◌then◌else◌, List, [], ◌∷◌,
  Option, none, some, get_or, set, replicate, ◌≡◌,
}
use akida_dw_edma.Edma.{
  Dir, write, read, Chip, Chan, CoreOps, MapFormat, hdma_native, SlaveConfig, MsiMsg, XferDirection,
  dev_to_mem, mem_to_dev, Errno, success, einval, enomem, enodev, is_success,
}
use akida_dw_edma.Edma.Setup.{IrqAlloc, Irq, zero_irq, irq_alloc, nr_irqs_of, ch_cnt_of, setup_from}

-- The interrupt service routines of the core.
pub data Isr : Type 0 where
  isr_common isr_write isr_read : Isr

-- A request of `request_irq` that is held: the interrupt, its routine and the place of its
-- `struct dw_edma_irq`.
pub record Line : Type 0 where
  pub irq : ℕ
  pub isr : Isr
  pub place : ℕ

pub data Capability : Type 0 where
  dma_slave dma_cyclic dma_private dma_interleave : Capability

pub data Granularity : Type 0 where
  granularity_descriptor : Granularity

-- What `dw_edma_channel_setup` declares of its `struct dma_device`, the widths in bytes.
pub record DmaCaps : Type 0 where
  pub cap_mask : List Capability
  pub directions : List XferDirection
  pub src_addr_widths : List ℕ
  pub dst_addr_widths : List ℕ
  pub residue_granularity : Granularity
  pub max_seg_size : ℕ

-- What the kernel holds for the driver, the latest request first.
pub record Table : Type 0 where
  pub lines : List Line
  pub registered : Bool

-- The kernel, with the documented behaviour of its calls: those that fail change nothing.
pub record KernelOps (K : Type 0) : Type 0 where
  pub table : K → Table
  pub kcalloc : K → Bool × K
  pub request_irq : ℕ → Isr → ℕ → K → Errno × K
  pub free_irq : ℕ → ℕ → K → K
  pub msi_msg : ℕ → K → Option MsiMsg
  pub register : DmaCaps → K → Errno × K
  pub unregister : K → K
  pub table-kcalloc : (k : K) → table (kcalloc k).1 ≡ table k
  pub table-request_irq :
      (irq : ℕ) (isr : Isr) (i : ℕ) (k : K)
      → table (request_irq irq isr i k).1 ≡ (
          if is_success (request_irq irq isr i k).0
          then record (table k) {
            lines = record { irq = irq; isr = isr; place = i } ∷ (table k).lines;
          }
          else table k)
  pub table-free_irq :
      (l : Line) (ls : List Line) (k : K)
      → (table k).lines ≡ l ∷ ls
      → table (free_irq l.irq l.place k) ≡ record (table k) { lines = ls }
  pub table-register :
      (c : DmaCaps) (k : K)
      → table (register c k).1
        ≡ (if is_success (register c k).0 then record (table k) { registered = true } else table k)
  pub table-unregister : (k : K) → table (unregister k) ≡ record (table k) { registered = false }

abbrev pub dma_caps : DmaCaps
dma_caps = record {
  cap_mask = dma_slave ∷ dma_cyclic ∷ dma_private ∷ dma_interleave ∷ [];
  directions = dev_to_mem ∷ mem_to_dev ∷ [];
  src_addr_widths = 4 ∷ [];
  dst_addr_widths = 4 ∷ [];
  residue_granularity = granularity_descriptor;
  max_seg_size = 4294967295;
}

-- `struct dw_edma`: what the probe leaves in it.
pub record Dw (V : Type 0) : Type 0 where
  pub wr_ch_cnt : ℕ
  pub rd_ch_cnt : ℕ
  pub nr_irqs : ℕ
  pub irqs : List Irq
  pub chans : List (Chan V)

-- `chip->ops->irq_vector`. The driver calls it only where it is not NULL.
abbrev pub vector_of : Chip → ℕ → ℕ
vector_of chip i = elim chip.irq_vector [ none ↦ i | some f ↦ f i ]

abbrev pub has_vector : Chip → Bool
has_vector chip = elim chip.irq_vector [ none ↦ false | some f ↦ true ]

module _ {K : Type 0} (ops : KernelOps K) (chip : Chip) where
  open ops use {kcalloc, request_irq, free_irq, msi_msg, register, unregister}

  -- `get_cached_msi_msg` into `dw->irq[i].msi`, where the interrupt has a message.
  unfoldable pub cache_msi : ℕ → K → List Irq → List Irq
  cache_msi i k irqs = elim (msi_msg (vector_of chip i) k) [
    | none ↦ irqs
    | some m ↦ set irqs i (record (get_or irqs i zero_irq) { msi = m })
  ]

  -- The loops at the two labels `err_irq_free`, and that of the removal: the vectors below `i`,
  -- downwards.
  unfoldable pub irq_free : ℕ → K → K
  irq_free zero k = k
  irq_free (suc i) k = irq_free i (free_irq (vector_of chip i) i k)

  -- The loop that requests the vectors, with `n` of them left from `i` on, of which those below
  -- `wr_alloc` are the write channels'.
  unfoldable pub request_from : ℕ → ℕ → ℕ → List Irq → K → Errno × (List Irq × K)
  unfolding cache_msi irq_free
  request_from wr_alloc zero i irqs k = (success, (irqs, k))
  request_from wr_alloc (suc n) i irqs k =
      let (err, k₁) =
        request_irq (vector_of chip i) (if ltb i wr_alloc then isr_write else isr_read) i k in
      let later = request_from wr_alloc n (suc i) (cache_msi i k₁ irqs) k₁ in
      if is_success err then later else (err, (irqs, irq_free i k₁))

  unfoldable pub request_common : List Irq → K → Errno × (List Irq × K)
  unfolding cache_msi
  request_common irqs k =
      let (err, k₁) = request_irq (vector_of chip 0) isr_common 0 k in
      if is_success err then (success, (cache_msi 0 k₁ irqs, k₁)) else (err, (irqs, k₁))

  -- `dw_edma_irq_request`
  unfoldable pub irq_request : ℕ → ℕ → K → Errno × (List Irq × K)
  unfolding request_from request_common
  irq_request wr_cnt rd_cnt k =
      let a = irq_alloc chip.nr_irqs wr_cnt rd_cnt in
      let (ok, k₁) = kcalloc k in
      let irqs = replicate chip.nr_irqs zero_irq in
      if ltb chip.nr_irqs 1 || not (has_vector chip)
      then (einval, ([], k))
      else (if not ok
          then (enomem, ([], k₁))
          else (if chip.nr_irqs == 1
              then request_common irqs k₁
              else request_from a.wr (a.wr + a.rd) 0 irqs k₁))

module _ {K V H : Type 0} (ops : KernelOps K) (v0 hdma : CoreOps H) (vc : V)
    (config : SlaveConfig) where
  open ops use {kcalloc, request_irq, free_irq, msi_msg, register, unregister}

  -- What a call of the probe ends with: its result, `chip->dw`, the hardware and the kernel.
  pub record Probed : Type 0 where
    pub err : Errno
    pub dw : Option (Dw V)
    pub hw : H
    pub kernel : K

  abbrev pub failed : Errno → H → K → Probed
  failed e h k = record { err = e; dw = none; hw = h; kernel = k }

  -- The choice of `dw->core`.
  unfoldable pub core_of : MapFormat → CoreOps H
  core_of hdma_native = hdma
  core_of _ = v0

  -- `dw_edma_channel_setup` on the vectors that were requested, and the end of the probe.
  unfoldable pub setup_and_register : Chip → ℕ → ℕ → List Irq → H → K → Probed
  unfolding irq_free core_of
  setup_and_register chip wr_cnt rd_cnt irqs h k =
      let a = irq_alloc chip.nr_irqs wr_cnt rd_cnt in
      let nr = nr_irqs_of chip.nr_irqs a in
      let (chans, (irqs₁, h₁)) =
        setup_from (core_of chip.mf) chip wr_cnt nr a vc config (wr_cnt + rd_cnt) 0 irqs h in
      let (err, k₁) = register dma_caps k in
      if is_success err
      then record {
        err = success;
        dw = some (record {
          wr_ch_cnt = wr_cnt;
          rd_ch_cnt = rd_cnt;
          nr_irqs = nr;
          irqs = irqs₁;
          chans = chans;
        });
        hw = h₁;
        kernel = k₁;
      }
      else failed err h₁ (irq_free ops chip nr k₁)

  -- The probe from the allocation of the channels on.
  unfoldable pub probe_channels : Chip → ℕ → ℕ → H → K → Probed
  unfolding core_of irq_request setup_and_register
  probe_channels chip wr_cnt rd_cnt h k =
      let (ok, k₁) = kcalloc k in
      let h₁ = (core_of chip.mf).off h in
      let (err, (irqs, k₂)) = irq_request ops chip wr_cnt rd_cnt k₁ in
      if not ok
      then failed enomem h k₁
      else (if is_success err
          then setup_and_register chip wr_cnt rd_cnt irqs h₁ k₂
          else failed err h₁ k₂)

  -- `akida_dw_edma_probe`; `none` is a NULL chip, and the flags tell whether `dev` and `ops` are
  -- set.
  unfoldable pub probe : Bool → Bool → Option Chip → H → K → Probed
  unfolding core_of probe_channels
  probe has_dev has_ops none h k = failed einval h k
  probe has_dev has_ops (some chip) h k =
      let core = core_of chip.mf in
      let (ok, k₁) = kcalloc k in
      let (wr_hw, h₁) = core.ch_count write h in
      let (rd_hw, h₂) = core.ch_count read h₁ in
      let wr_cnt = ch_cnt_of chip.ll_wr_cnt wr_hw in
      let rd_cnt = ch_cnt_of chip.ll_rd_cnt rd_hw in
      if not (has_dev && has_ops)
      then failed einval h k
      else (if not ok
          then failed enomem h k₁
          else (if wr_cnt == 0 && rd_cnt == 0
              then failed einval h₂ k₁
              else probe_channels chip wr_cnt rd_cnt h₂ k₁))

  -- `akida_dw_edma_remove` on `chip->dw`
  unfoldable pub remove : Chip → Option (Dw V) → H → K → Errno × (H × K)
  unfolding irq_free core_of
  remove chip none h k = (enodev, (h, k))
  remove chip (some dw) h k =
      (success, ((core_of chip.mf).off h, unregister (irq_free ops chip dw.nr_irqs k)))
