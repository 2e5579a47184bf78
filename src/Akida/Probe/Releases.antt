-- ===== src/Akida/Probe/Releases.antt =====
-- akida-pcie-core.c: what each stage of `akida_probe`, and each label at its end, changes of what the
-- kernel holds for the driver.
use akida_dw_edma.Base.{
  Bool, true, false, [], Option, none, some, ◌≡◌, refl, sym, ap, ap₂, ◌∙◌, if-elim,
}
use akida_dw_edma.Mmio.{Bus}
use akida_dw_edma.Edma.{Chip, SlaveConfig, Errno, success, is_success}
use akida_dw_edma.Edma.Setup.{irq_alloc, nr_irqs_of}
use akida_dw_edma.Edma.Probe.{KernelOps, Table, Dw, Probed}
use akida_dw_edma.Edma.Probe.Keeps.{remove-keeps}
use akida_dw_edma.Edma.Probe.Reverts.{requested, remove_stored}
use akida_dw_edma.Akida.Kernel.{
  Board, akida_1000, akida_1500, Pci, Held, more, held_by, with_vectors, with_devnos, with_misc,
  PciOps,
}
use akida_dw_edma.Akida.HostDdr.{HostDdr, setup_host_ddr-keeps}
use akida_dw_edma.Akida.Iatu.{setup_iatu_1000-keeps}
use akida_dw_edma.Akida.Channels.{dma_exit}
use akida_dw_edma.Akida.Channels.Taken.{with_chans, dma_exit-held}
use akida_dw_edma.Akida.Probe.{
  AkidaDev, miscdev_of, set_masks, host_ddr_of, settled, setup_iatu, setup_iomap, v0_of, hdma_of,
  edma_remove, fail_dw_edma_remove, fail_akida_dma_exit,
}

-- The driver holds no interrupt vectors, no requests of them, no DMA device and no misc device.
abbrev pub IsUnbound : Held → Type 0
IsUnbound t =
    ((t.core.lines ≡ []) × (t.core.registered ≡ false))
    × ((t.pci.vectors ≡ false) × ((t.pci.msi ≡ false) × (t.pci.misc ≡ none)))

module _ {K V H : Type 0} {ops : KernelOps K} (pci_ops : PciOps ops) (bus : Bus H) (vc : V)
    (config : SlaveConfig) where
  open pci_ops use {
    pci, kzalloc, disable_link_state, enable_device, set_master, set_dma_mask, set_coherent_mask,
    dmam_alloc, write_config, msleep, iomap_regions, iounmap_regions, iomap_table, irq_vector,
    alloc_irq_vectors, free_irq_vectors, ida_alloc, ida_free, misc_register, misc_deregister,
    core-keeps, held-kzalloc, held-disable_link_state, held-enable_device, held-set_master,
    held-set_dma_mask, held-set_coherent_mask, held-dmam_alloc, held-write_config, held-msleep,
    held-iomap_regions, held-iounmap_regions, alloc_irq_vectors-least, held-alloc_irq_vectors,
    held-free_irq_vectors, held-ida_alloc, held-ida_free, held-misc_register, held-misc_deregister,
  }

  abbrev held : K → Held
  held k = held_by ops pci k

  -- The stages that acquire nothing but what the kernel frees by itself.

  pub set_masks-held : (k : K) → held (set_masks pci_ops bus vc config k).1 ≡ held k
  unfolding set_masks
  set_masks-held k =
      let Same : Errno × K → Type 0 = λ r. held r.1 ≡ held k in
      let k₁ = (set_dma_mask 64 k).1 in
      let k₂ = (set_dma_mask 32 k₁).1 in
      let first = held-set_dma_mask 64 k in
      let second = held-set_dma_mask 32 k₁ ∙ first in
      if-elim Same (is_success (set_dma_mask 64 k).0) (λ _. held-set_coherent_mask 64 k₁ ∙ first)
        (λ _.
          if-elim Same (is_success (set_dma_mask 32 k₁).0)
            (λ _. held-set_coherent_mask 32 k₂ ∙ second) (λ _. second))

  pub host_ddr_of-held :
      (board : Board) (k : K) → held (host_ddr_of pci_ops bus vc config board k).1 ≡ held k
  unfolding host_ddr_of
  host_ddr_of-held akida_1000 k = refl
  host_ddr_of-held akida_1500 k = setup_host_ddr-keeps dmam_alloc held held-dmam_alloc k

  settled-held : (err : Errno) (k : K) → held (settled pci_ops bus vc config err k) ≡ held k
  settled-held err k =
      if-elim (λ x. held x ≡ held k) (is_success err) (λ _. held-msleep 1000 k) (λ _. refl)

  pub setup_iatu-held :
      (board : Board) (ddr : HostDdr) (k : K) (h : H)
      → held (setup_iatu pci_ops bus vc config board ddr k h).1.1.0 ≡ held k
  unfolding setup_iatu
  setup_iatu-held akida_1000 ddr k h =
      settled-held _ _ ∙ setup_iatu_1000-keeps write_config held held-write_config k
  setup_iatu-held akida_1500 ddr k h = settled-held _ _ ∙ held-iomap_regions 1 k

  pub setup_iomap-held :
      (board : Board) (k : K) → held (setup_iomap pci_ops bus vc config board k).1 ≡ held k
  setup_iomap-held akida_1000 k = held-iomap_regions 0x14 k
  setup_iomap-held akida_1500 k = held-iomap_regions 0x10 k

  -- `dw->nr_irqs` counts the vectors that the core has requested.
  abbrev pub IsCounted : Chip → Option (Dw V) → Type 0
  IsCounted chip none = ⊥
  IsCounted chip (some dw) =
      dw.nr_irqs ≡ nr_irqs_of chip.nr_irqs (irq_alloc chip.nr_irqs dw.wr_ch_cnt dw.rd_ch_cnt)

  -- The requests of the core besides those of a table, with its device registered.
  abbrev pub core_table : Chip → Option (Dw V) → Table → Table
  core_table chip none t = t
  core_table chip (some dw) t = record (requested ops chip t dw.wr_ch_cnt dw.rd_ch_cnt) {
    registered = true;
  }

  abbrev probed_as :
      (a : AkidaDev V) (dw : Option (Dw V))
      → K
      → H
      → Probed ops
          (v0_of pci_ops bus vc config a.reg_base a.chip)
          (hdma_of pci_ops bus vc config a.reg_base a.chip)
          vc
          config
  probed_as a dw k h = record { err = success; dw = dw; hw = h; kernel = k }

  core-removed :
      (a : AkidaDev V) (dw : Option (Dw V)) (t : Table) (k : K) (h : H)
      → a.dw ≡ dw
      → t.registered ≡ false
      → IsCounted a.chip dw
      → ops.table k ≡ core_table a.chip dw t
      → ops.table (edma_remove pci_ops bus vc config (record a { dw = dw }) k h).1.1 ≡ t
  core-removed a none t k h e off counted held_k = elim counted [ ]
  core-removed a (some dw) t k h e off counted held_k =
      (remove_stored ops (v0_of pci_ops bus vc config a.reg_base a.chip)
        (hdma_of pci_ops bus vc config a.reg_base a.chip) vc config a.chip t
        (probed_as a (some dw) k h) (some dw) off refl (λ x. cc x) (refl, (counted, held_k))).1

  module _ (t : Held) (unbound : IsUnbound t) where
    -- What is held, as the probe proceeds.
    abbrev pub with_core : AkidaDev V → Held
    with_core a = record (with_vectors true true t) { core = core_table a.chip a.dw t.core }

    abbrev pub with_dma : AkidaDev V → Held
    with_dma a = with_chans a.chans.tx (with_chans a.chans.rx (with_core a))

    -- The vectors, what the core asks for, the DMA channels, the device number, the misc device.
    abbrev pub everything : AkidaDev V → Held
    everything a =
        with_misc (some (miscdev_of a)) (with_devnos (more a.devno t.pci.devnos) (with_dma a))

    pub vectors-freed :
        (msi : Bool) (k : K) → held k ≡ with_vectors true msi t → held (free_irq_vectors k) ≡ t
    vectors-freed msi k h =
        let none_asked : (ops.table k).lines ≡ [] =
          ap (λ (x : Held). x.core.lines) h ∙ unbound.0.0 in
        held-free_irq_vectors k none_asked
        ∙ ap (with_vectors false false) h
        ∙ ap₂ (λ v m. with_vectors v m t) (sym unbound.1.0) (sym unbound.1.1.0)

    pub edma_remove-held :
        (a : AkidaDev V) (k : K) (h : H)
        → IsCounted a.chip a.dw
        → held k ≡ with_core a
        → held (edma_remove pci_ops bus vc config a k h).1.1 ≡ with_vectors true true t
    edma_remove-held a k h counted held_k =
        ap₂ (λ (c : Table) (p : Pci). record { core = c; pci = p })
          (core-removed a a.dw t.core k h refl unbound.0.1 counted
            (ap (λ (x : Held). x.core) held_k))
          (remove-keeps ops pci core-keeps (v0_of pci_ops bus vc config a.reg_base a.chip)
              (hdma_of pci_ops bus vc config a.reg_base a.chip) vc config a.chip a.dw h k
            ∙ ap (λ (x : Held). x.pci) held_k)

    pub fail_dw_edma_remove-held :
        (a : AkidaDev V) (k : K) (h : H)
        → IsCounted a.chip a.dw
        → held k ≡ with_core a
        → held (fail_dw_edma_remove pci_ops bus vc config a k h).0 ≡ t
    unfolding fail_dw_edma_remove
    fail_dw_edma_remove-held a k h counted held_k =
        vectors-freed true (edma_remove pci_ops bus vc config a k h).1.1
          (edma_remove-held a k h counted held_k)

    pub fail_akida_dma_exit-held :
        (a : AkidaDev V) (k : K) (h : H)
        → IsCounted a.chip a.dw
        → held k ≡ with_dma a
        → held (fail_akida_dma_exit pci_ops bus vc config a k h).0 ≡ t
    unfolding fail_akida_dma_exit
    fail_akida_dma_exit-held a k h counted held_k =
        fail_dw_edma_remove-held a (dma_exit pci_ops a.chans k) h counted
          (dma_exit-held pci_ops a.chans k (with_core a) held_k)
