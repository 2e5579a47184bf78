-- ===== src/Akida/Probe/Unwind.antt =====
-- akida-pcie-core.c: what the kernel holds for the driver after `akida_probe` and `akida_remove`.
use akida_dw_edma.Base.{
  ℕ, true, not, ◌||◌, ltb, Option, none, some, ◌≡◌, ap, ◌∙◌, arith, if-elim, Bool-cases, inl, inr,
}
use akida_dw_edma.Mmio.{Bus}
use akida_dw_edma.Edma.{SlaveConfig, eopnotsupp, is_success}
use akida_dw_edma.Edma.Probe.{KernelOps}
use akida_dw_edma.Akida.Kernel.{Board, Held, held_by, with_vectors, PciOps}
use akida_dw_edma.Akida.HostDdr.{HostDdr}
use akida_dw_edma.Akida.Probe.{
  board_of, Bound, failed, set_masks, host_ddr_of, setup_iatu, setup_iomap, probe_irqs,
  probe_regions, probe_board, akida_probe,
}
use akida_dw_edma.Akida.Probe.Releases.{
  IsUnbound, set_masks-held, host_ddr_of-held, setup_iatu-held, setup_iomap-held, vectors-freed,
}
use akida_dw_edma.Akida.Probe.Acquires.{
  IsAllOrNothing, failed-IsAllOrNothing, probe_edma-IsAllOrNothing,
}

module _ {K V H : Type 0} {ops : KernelOps K} (pci_ops : PciOps ops) (bus : Bus H) (vc : V)
    (config : SlaveConfig) (t : Held) (unbound : IsUnbound t) where
  open pci_ops use {
    pci, kzalloc, disable_link_state, enable_device, set_master, iomap_table, irq_vector,
    alloc_irq_vectors, free_irq_vectors, ida_alloc, ida_free, misc_register, misc_deregister,
    core-keeps, held-kzalloc, held-disable_link_state, held-enable_device, held-set_master,
    held-iounmap_regions, alloc_irq_vectors-least, held-alloc_irq_vectors, held-ida_alloc,
    held-ida_free, held-misc_register, held-misc_deregister,
  }

  abbrev held : K → Held
  held k = held_by ops pci k

  probe_irqs-IsAllOrNothing :
      (board : Board) (ddr : HostDdr) (bar0 : Option ℕ) (k : K) (h : H)
      → held k ≡ t
      → IsAllOrNothing pci_ops bus vc config t unbound
          (probe_irqs pci_ops bus vc config board ddr bar0 k h)
  unfolding probe_irqs
  probe_irqs-IsAllOrNothing board ddr bar0 k h held_k =
      let (err, (n, k₁)) = alloc_irq_vectors 1 1 k in
      let got = held-alloc_irq_vectors 1 1 k in
      if-elim (IsAllOrNothing pci_ops bus vc config t unbound) (not (is_success err) || ltb n 1)
        (λ e. (
          (λ z. cc z),
          elim (Bool-cases (is_success err)) [
            | inl s ↦
                let least = alloc_irq_vectors-least 1 1 k s in absurd (ground (arith, s, e, least))
            | inr s ↦ got ∙ rw s held_k
          ],
        ))
        (λ e.
          let s : is_success err ≡ true = ground (arith, e) in
          let allocated : held k₁ ≡ with_vectors true (pci k₁).msi t =
            got ∙ rw s (ap (with_vectors true (pci k₁).msi) held_k) in
          if-elim (IsAllOrNothing pci_ops bus vc config t unbound) (not (pci k₁).msi)
            (λ f. (
              (λ z. cc z),
              vectors-freed pci_ops bus vc config t unbound (pci k₁).msi k₁ allocated,
            ))
            (λ f.
              let enabled : (pci k₁).msi ≡ true = ground (arith, f) in
              probe_edma-IsAllOrNothing pci_ops bus vc config t unbound board ddr bar0 k₁ h
                (allocated ∙ ap (λ b. with_vectors true b t) enabled)))

  probe_regions-IsAllOrNothing :
      (board : Board) (k : K) (h : H)
      → held k ≡ t
      → IsAllOrNothing pci_ops bus vc config t unbound
          (probe_regions pci_ops bus vc config board k h)
  unfolding probe_regions
  probe_regions-IsAllOrNothing board k h held_k =
      let (ddr, k₁) = host_ddr_of pci_ops bus vc config board k in
      let (err, (bar0, (k₂, h₁))) = setup_iatu pci_ops bus vc config board ddr k₁ h in
      let (err', k₃) = setup_iomap pci_ops bus vc config board k₂ in
      let after_iatu : held k₂ ≡ t =
        setup_iatu-held pci_ops bus vc config board ddr k₁ h
        ∙ host_ddr_of-held pci_ops bus vc config board k
        ∙ held_k in
      let after_iomap : held k₃ ≡ t =
        setup_iomap-held pci_ops bus vc config board k₂ ∙ after_iatu in
      if-elim (IsAllOrNothing pci_ops bus vc config t unbound) (not (is_success err))
        (λ e. failed-IsAllOrNothing pci_ops bus vc config t unbound err (k₂, h₁) e after_iatu)
        (λ _.
          if-elim (IsAllOrNothing pci_ops bus vc config t unbound) (not (is_success err'))
            (λ e. failed-IsAllOrNothing pci_ops bus vc config t unbound err' (k₃, h₁) e after_iomap)
            (λ _. probe_irqs-IsAllOrNothing board ddr bar0 k₃ h₁ after_iomap))

  probe_board-IsAllOrNothing :
      (board : Board) (k : K) (h : H)
      → held k ≡ t
      → IsAllOrNothing pci_ops bus vc config t unbound (probe_board pci_ops bus vc config board k h)
  unfolding probe_board
  probe_board-IsAllOrNothing board k h held_k =
      let (err, k₁) = enable_device (disable_link_state k) in
      let (err', k₂) = set_masks pci_ops bus vc config (set_master k₁) in
      let enabled : held k₁ ≡ t =
        held-enable_device (disable_link_state k) ∙ held-disable_link_state k ∙ held_k in
      let masked : held k₂ ≡ t =
        set_masks-held pci_ops bus vc config (set_master k₁) ∙ held-set_master k₁ ∙ enabled in
      if-elim (IsAllOrNothing pci_ops bus vc config t unbound) (not (is_success err))
        (λ e. failed-IsAllOrNothing pci_ops bus vc config t unbound err (k₁, h) e enabled)
        (λ _.
          if-elim (IsAllOrNothing pci_ops bus vc config t unbound) (not (is_success err'))
            (λ e. failed-IsAllOrNothing pci_ops bus vc config t unbound err' (k₂, h) e masked)
            (λ _. probe_regions-IsAllOrNothing board k₂ h masked))

  -- Where the driver holds nothing of the device yet: `akida_probe` succeeds and stores a device
  -- for which it holds the interrupt vector, what the eDMA core asks for, two DMA channels of this
  -- device's engine for each direction, the device number and the misc device, and no further
  -- reference to its own module. Or it fails, wherever that is, and holds no more of the kernel
  -- than before.
  pub akida_probe-IsAllOrNothing :
      (board_id : ℕ) (k : K) (h : H)
      → held k ≡ t
      → IsAllOrNothing pci_ops bus vc config t unbound
          (akida_probe pci_ops bus vc config board_id k h)
  unfolding akida_probe
  akida_probe-IsAllOrNothing board_id k h held_k =
      let (ok, k₁) = kzalloc k in
      let allocated = held-kzalloc k ∙ held_k in
      if-elim (IsAllOrNothing pci_ops bus vc config t unbound) (not ok)
        (λ _. ((λ z. cc z), allocated)) (λ _. by_board (board_of board_id) allocated)
    where
      by_board :
          (o : Option Board)
          → held (kzalloc k).1 ≡ t
          → let r : Bound pci_ops bus vc config = elim o [
            | none ↦ failed pci_ops bus vc config eopnotsupp ((kzalloc k).1, h)
            | some board ↦ probe_board pci_ops bus vc config board (kzalloc k).1 h
          ] in
            IsAllOrNothing pci_ops bus vc config t unbound r
      by_board none e = ((λ z. cc z), e)
      by_board (some board) e = probe_board-IsAllOrNothing board (kzalloc k).1 h e
