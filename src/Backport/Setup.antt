-- ===== src/Backport/Setup.antt =====
-- kernel/5.4/akida-dw-edma/dw-edma-core.c: `dw_edma_channel_setup`, which is called once for each
-- direction and registers a DMA device for each, and the end of `akida_dw_edma_probe`.
pub mod Same
pub mod Unwind
use akida_dw_edma.Base.{
  ℕ, zero, suc, ◌+◌, ◌%◌, Bool, true, false, not, ◌&&◌, ◌||◌, ◌==◌, if◌then◌else◌, List, [], ◌∷◌,
  ◌++◌, get_or, set,
}
use akida_dw_edma.Edma.{
  Dir, write, read, Chip, Chan, CoreOps, SlaveConfig, idle, req_none, dev_to_mem, mem_to_dev, Errno,
  success, is_success, is_write,
}
use akida_dw_edma.Edma.Setup.{IrqAlloc, Irq, zero_irq, ll_max_of, add_channel}
use akida_dw_edma.Edma.Probe.{DmaCaps, dma_caps, KernelOps, irq_free}

-- `alloc` and `off_alloc` of a direction
abbrev pub alloc_of : IrqAlloc → Dir → ℕ
alloc_of a dir = if is_write dir then a.wr else a.rd

abbrev pub off_alloc_of : IrqAlloc → Dir → ℕ
off_alloc_of a dir = if is_write dir then 0 else a.wr

module _ {V H : Type 0} (core : CoreOps H) (chip : Chip) (nr_irqs : ℕ) (a : IrqAlloc) where
  -- The fields of the channel `j` of a direction.
  unfoldable pub setup_dir_chan : V → SlaveConfig → Irq → Dir → ℕ → Chan V
  unfolding ll_max_of
  setup_dir_chan vc config irq dir j = record {
    vc = vc;
    id = j;
    dir = dir;
    ll_max = ll_max_of chip dir j;
    msi = irq.msi;
    request = req_none;
    status = idle;
    configured = false;
    config = config;
  }

  -- The loop over the channels of a direction, with `n` of them left from `j` on. It does not start
  -- where the direction has no vector of several.
  unfoldable pub setup_dir_from :
      V → SlaveConfig → Dir → ℕ → ℕ → List Irq → H → List (Chan V) × (List Irq × H)
  unfolding setup_dir_chan
  setup_dir_from vc config dir zero j irqs h = ([], (irqs, h))
  setup_dir_from vc config dir (suc n) j irqs h =
      let pos = if nr_irqs == 1 then 0 else off_alloc_of a dir + j % alloc_of a dir in
      let irq = get_or irqs pos zero_irq in
      let ch = setup_dir_chan vc config irq dir j in
      let (chs, later) =
        setup_dir_from vc config dir n (suc j) (set irqs pos (add_channel dir j irq))
          (core.ch_config dir j irq.msi h) in
      if not (alloc_of a dir == 0) || nr_irqs == 1 then (ch ∷ chs, later) else ([], (irqs, h))

  -- The two calls one after the other, where the first registers its device: the channels at
  -- `dw->chan`, the vectors and the hardware.
  unfoldable pub setup_both :
      V → SlaveConfig → ℕ → ℕ → List Irq → H → List (Chan V) × (List Irq × H)
  setup_both vc config wr_cnt rd_cnt irqs h =
      let (wr, (irqs₁, h₁)) = setup_dir_from vc config write wr_cnt 0 irqs h in
      let (rd, later) = setup_dir_from vc config read rd_cnt 0 irqs₁ h₁ in (wr ++ rd, later)

-- What a device of one direction declares.
abbrev pub dir_caps : Dir → DmaCaps
dir_caps dir = record dma_caps {
  directions = (if is_write dir then dev_to_mem else mem_to_dev) ∷ [];
}

module _ {K : Type 0} (ops : KernelOps K) (register : Dir → DmaCaps → K → Errno × K)
    (chip : Chip) where
  -- What the kernel sees of the two calls of `dw_edma_channel_setup` and of the label
  -- `err_irq_free`: the registration of the write and of the read device, and the vectors given
  -- back after an error.
  unfoldable pub register_both : ℕ → K → Errno × K
  unfolding irq_free
  register_both nr_irqs k =
      let (e, k₁) = register write (dir_caps write) k in
      let (e', k₂) = register read (dir_caps read) k₁ in
      if not (is_success e)
      then (e, irq_free ops chip nr_irqs k₁)
      else (if not (is_success e') then (e', irq_free ops chip nr_irqs k₂) else (success, k₂))
