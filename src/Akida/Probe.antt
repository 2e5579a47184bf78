-- ===== src/Akida/Probe.antt =====
-- akida-pcie-core.c: `akida_probe` and `akida_remove`, over the eDMA core's probe and removal.
pub mod Releases
pub mod Acquires
pub mod Unwind
pub mod Removal
pub mod Served
use Prim.Native.String.{String}
use akida_dw_edma.Base.{
  ℕ, zero, suc, ◌+◌, Bool, true, false, not, ◌||◌, ltb, if◌then◌else◌, List, [], ◌∷◌, Option, none,
  some,
}
use akida_dw_edma.Mmio.{Bus}
use akida_dw_edma.Edma.{
  Chip, CoreOps, SlaveConfig, MapFormat, edma_legacy, hdma_native, is_local, Errno, success, eperm,
  enomem, eopnotsupp, is_success,
}
use akida_dw_edma.Edma.Probe.{KernelOps, Dw, Probed, probe, remove}
use akida_dw_edma.V0.Control.{v0_core}
use akida_dw_edma.Hdma.Control.{hdma_core}
use akida_dw_edma.Akida.Kernel.{Board, akida_1000, akida_1500, MiscDevice, PciOps}
use akida_dw_edma.Akida.Channels.{Chans, dma_init, dma_exit}
use akida_dw_edma.Akida.HostDdr.{HostDdr, setup_host_ddr}
use akida_dw_edma.Akida.Iatu.{setup_iatu_1000, setup_iatu_1500, reg_base_1000, reg_base_1500}
use akida_dw_edma.Akida.Regions.{edma_chip}

-- `akida_pci_ids`: the vendor and the device, with the board in `driver_data`.
abbrev pub pci_ids : List ((ℕ × ℕ) × ℕ)
pci_ids = ((0x1e7c, 0xbca1), 0) ∷ ((0x1e7c, 0xa500), 1) ∷ []

-- The switch on the board.
abbrev pub board_of : ℕ → Option Board
board_of zero = some akida_1000
board_of (suc zero) = some akida_1500
board_of (suc (suc n)) = none

-- `miscdev_name` and `mf` of `akida_1000_ops` and `akida_1500_ops`; `fops` are the board's.
abbrev pub miscdev_name : Board → String
miscdev_name akida_1000 = "akida"
miscdev_name akida_1500 = "akd1500_"

abbrev pub mf_of : Board → MapFormat
mf_of akida_1000 = edma_legacy
mf_of akida_1500 = hdma_native

-- `struct akida_dev` of a device that is bound, less the state of its transfers. `reg_base`, `chip`,
-- `chip_dev` (whether `dev` is set) and `dw` are `edma_chip`.
pub record AkidaDev (V : Type 0) : Type 0 where
  pub board : Board
  pub host_ddr : HostDdr
  pub mmio_bar0 : Option ℕ
  pub reg_base : ℕ
  pub chip : Chip
  pub chip_dev : Bool
  pub dw : Option (Dw V)
  pub chans : Chans
  pub devno : ℕ

abbrev pub miscdev_of : {V : Type 0} → AkidaDev V → MiscDevice
miscdev_of a = record { name = (miscdev_name a.board, a.devno); fops = a.board }

abbrev pub is_set : {A : Type 0} → Option A → Bool
is_set none = false
is_set (some a) = true

module _ {K V H : Type 0} {ops : KernelOps K} (pci_ops : PciOps ops) (bus : Bus H) (vc : V)
    (config : SlaveConfig) where
  open pci_ops use {
    pci, kzalloc, disable_link_state, enable_device, set_master, set_dma_mask, set_coherent_mask,
    dmam_alloc, write_config, msleep, iomap_regions, iounmap_regions, iomap_table, irq_vector,
    alloc_irq_vectors, free_irq_vectors, ida_alloc, ida_free, misc_register, misc_deregister,
  }

  -- What a probe ends with: its result, the driver data of the device, the kernel and the hardware.
  pub record Bound : Type 0 where
    pub err : Errno
    pub dev : Option (AkidaDev V)
    pub kernel : K
    pub hw : H

  abbrev pub failed : Errno → K × H → Bound
  failed e (k, h) = record { err = e; dev = none; kernel = k; hw = h }

  -- The two masks of a width, one after the other; a failure of the first is told apart.
  unfoldable pub set_masks : K → Errno × K
  set_masks k =
      let (err, k₁) = set_dma_mask 64 k in
      let (err', k₂) = set_dma_mask 32 k₁ in
      if is_success err
      then set_coherent_mask 64 k₁
      else (if is_success err' then set_coherent_mask 32 k₂ else (err', k₂))

  -- `ops.setup_host_ddr`, where the board has one.
  unfoldable pub host_ddr_of : Board → K → HostDdr × K
  host_ddr_of akida_1000 k = (record { area = none; size = 0 }, k)
  host_ddr_of akida_1500 k = setup_host_ddr dmam_alloc k

  abbrev pub settled : Errno → K → K
  settled err k = if is_success err then msleep 1000 k else k

  -- `ops.setup_iatu`, with `mmio_bar0` and the sleep at its end.
  unfoldable pub setup_iatu : Board → HostDdr → K → H → Errno × (Option ℕ × (K × H))
  setup_iatu akida_1000 ddr k h =
      let (err, k₁) = setup_iatu_1000 write_config k in (err, (none, (settled err k₁, h)))
  setup_iatu akida_1500 ddr k h =
      let (mapped, k₁) = iomap_regions 1 k in
      let bar0 = iomap_table k₁ 0 in
      let (err, h₁) = setup_iatu_1500 bus bar0 mapped ddr h in
      (err, (if is_success mapped then some bar0 else none, (settled err k₁, h₁)))

  -- `ops.setup_iomap`: the bits of BAR 2 and BAR 4, or of BAR 4.
  abbrev pub setup_iomap : Board → K → Errno × K
  setup_iomap akida_1000 k = iomap_regions 0x14 k
  setup_iomap akida_1500 k = iomap_regions 0x10 k

  -- `ops.setup_dma_reg_base`
  abbrev pub reg_base_of : Board → K → ℕ
  reg_base_of akida_1000 k = reg_base_1000 (iomap_table k 2)
  reg_base_of akida_1500 k = reg_base_1500 (iomap_table k 0)

  -- The two kinds of hardware at the device's registers.
  abbrev pub v0_of : ℕ → Chip → CoreOps H
  v0_of reg_base chip = v0_core bus reg_base (is_local chip) chip.mf

  abbrev pub hdma_of : ℕ → Chip → CoreOps H
  hdma_of reg_base chip = hdma_core bus reg_base (is_local chip)

  -- `akida_dw_edma_probe`, and `akida_dw_edma_remove` with its result.
  abbrev pub edma_probe :
      (reg_base : ℕ) (chip : Chip)
      → K
      → H
      → Probed ops (v0_of reg_base chip) (hdma_of reg_base chip) vc config
  edma_probe reg_base chip k h =
      probe ops (v0_of reg_base chip) (hdma_of reg_base chip) vc config true true (some chip) h k

  abbrev pub edma_remove : AkidaDev V → K → H → Errno × (H × K)
  edma_remove a k h =
      remove ops (v0_of a.reg_base a.chip) (hdma_of a.reg_base a.chip) vc config a.chip a.dw h k

  -- The labels at the end of `akida_probe`, each running into the next.
  unfoldable pub fail_dw_edma_remove : AkidaDev V → K → H → K × H
  fail_dw_edma_remove a k h = let (_, (h₁, k₁)) = edma_remove a k h in (free_irq_vectors k₁, h₁)

  unfoldable pub fail_akida_dma_exit : AkidaDev V → K → H → K × H
  unfolding fail_dw_edma_remove
  fail_akida_dma_exit a k h = fail_dw_edma_remove a (dma_exit pci_ops a.chans k) h

  unfoldable pub fail_ida_alloc : AkidaDev V → K → H → K × H
  unfolding fail_akida_dma_exit
  fail_ida_alloc a k h = fail_akida_dma_exit a (ida_free a.devno k) h

  -- `akida_probe` from the device number on.
  unfoldable pub probe_misc : AkidaDev V → K → H → Bound
  unfolding fail_akida_dma_exit fail_ida_alloc
  probe_misc a k h =
      let (err, (n, k₁)) = ida_alloc k in
      let a₁ = record a { devno = n } in
      let (err', k₂) = misc_register (miscdev_of a₁) k₁ in
      if not (is_success err)
      then failed err (fail_akida_dma_exit a k₁ h)
      else (if not (is_success err')
          then failed err' (fail_ida_alloc a₁ k₂ h)
          else record { err = success; dev = some a₁; kernel = k₂; hw = h })

  -- From the DMA channels on.
  unfoldable pub probe_dma : AkidaDev V → K → H → Bound
  unfolding fail_dw_edma_remove probe_misc
  probe_dma a k h =
      let (err, (chans, k₁)) = dma_init pci_ops k in
      if not (is_success err)
      then failed err (fail_dw_edma_remove a k₁ h)
      else probe_misc (record a { chans = chans }) k₁ h

  -- From the set-up of the eDMA engine on.
  unfoldable pub probe_edma : Board → HostDdr → Option ℕ → K → H → Bound
  unfolding probe_dma
  probe_edma board ddr bar0 k h =
      let reg_base = reg_base_of board k in
      let chip = edma_chip (iomap_table k 4) (irq_vector k) (mf_of board) in
      let r = edma_probe reg_base chip k h in
      let a : AkidaDev V = record {
        board = board;
        host_ddr = ddr;
        mmio_bar0 = bar0;
        reg_base = reg_base;
        chip = chip;
        chip_dev = true;
        dw = r.dw;
        chans = record { rx = []; tx = [] };
        devno = 0;
      } in
      if not (is_success r.err)
      then failed r.err (free_irq_vectors r.kernel, r.hw)
      else probe_dma a r.kernel r.hw

  -- From the interrupt vectors on. A negative result of `pci_alloc_irq_vectors` is less than 1.
  unfoldable pub probe_irqs : Board → HostDdr → Option ℕ → K → H → Bound
  unfolding probe_edma
  probe_irqs board ddr bar0 k h =
      let (err, (n, k₁)) = alloc_irq_vectors 1 1 k in
      if not (is_success err) || ltb n 1
      then failed eperm (k₁, h)
      else (if not (pci k₁).msi
          then failed eperm (free_irq_vectors k₁, h)
          else probe_edma board ddr bar0 k₁ h)

  -- From the memory of the host on.
  unfoldable pub probe_regions : Board → K → H → Bound
  unfolding host_ddr_of setup_iatu probe_irqs
  probe_regions board k h =
      let (ddr, k₁) = host_ddr_of board k in
      let (err, (bar0, (k₂, h₁))) = setup_iatu board ddr k₁ h in
      let (err', k₃) = setup_iomap board k₂ in
      if not (is_success err)
      then failed err (k₂, h₁)
      else (if not (is_success err') then failed err' (k₃, h₁) else probe_irqs board ddr bar0 k₃ h₁)

  -- From the link states on.
  unfoldable pub probe_board : Board → K → H → Bound
  unfolding set_masks probe_regions
  probe_board board k h =
      let (err, k₁) = enable_device (disable_link_state k) in
      let (err', k₂) = set_masks (set_master k₁) in
      if not (is_success err)
      then failed err (k₁, h)
      else (if not (is_success err') then failed err' (k₂, h) else probe_regions board k₂ h)

  -- `akida_probe`, by the `driver_data` of the device's id.
  unfoldable pub akida_probe : ℕ → K → H → Bound
  unfolding probe_board
  akida_probe board_id k h =
      let (ok, k₁) = kzalloc k in
      if not ok then failed enomem (k₁, h) else (elim (board_of board_id) [
        | none ↦ failed eopnotsupp (k₁, h)
        | some board ↦ probe_board board k₁ h
      ])

  -- `akida_remove`
  unfoldable pub akida_remove : AkidaDev V → K → H → K × H
  akida_remove a k h =
      let k₁ = ida_free a.devno (misc_deregister k) in
      let k₂ : K = elim a.chans.tx [
        | [] ↦ k₁
        | _ ∷ _ ↦ elim a.chans.rx [ [] ↦ k₁ | _ ∷ _ ↦ dma_exit pci_ops a.chans k₁ ]
      ] in
      let (_, (h₁, k₃)) = edma_remove a k₂ h in
      let (k₄, h₂) : K × H = if a.chip_dev then (k₃, h₁) else (k₂, h) in
      let k₅ = if (pci k₄).msi then free_irq_vectors k₄ else k₄ in
      (if is_set a.mmio_bar0 then iounmap_regions 1 k₅ else k₅, h₂)
