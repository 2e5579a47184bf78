-- ===== src/Akida/Probe/Removal.antt =====
-- akida-pcie-core.c: `akida_remove` gives back all that `akida_probe` acquired.
use akida_dw_edma.Base.{
  ℕ, true, List, [], ◌∷◌, Option, none, some, ◌≡◌, refl, sym, ap, subst, ◌∙◌, arith, if-elim,
  length,
}
use akida_dw_edma.Mmio.{Bus}
use akida_dw_edma.Edma.{SlaveConfig}
use akida_dw_edma.Edma.Probe.{KernelOps}
use akida_dw_edma.Akida.Kernel.{Held, more, held_by, with_vectors, with_devnos, with_misc, PciOps}
use akida_dw_edma.Akida.Channels.{Chans, dma_exit}
use akida_dw_edma.Akida.Channels.Taken.{dma_exit-held}
use akida_dw_edma.Akida.Probe.{AkidaDev, Bound, edma_remove, akida_probe, akida_remove, is_set}
use akida_dw_edma.Akida.Probe.Releases.{
  IsUnbound, with_core, with_dma, everything, vectors-freed, edma_remove-held,
}
use akida_dw_edma.Akida.Probe.Acquires.{IsEquipped, IsStored, IsAllOrNothing, ida_freed}
use akida_dw_edma.Akida.Probe.Unwind.{akida_probe-IsAllOrNothing}

module _ {K V H : Type 0} {ops : KernelOps K} (pci_ops : PciOps ops) (bus : Bus H) (vc : V)
    (config : SlaveConfig) (t : Held) (unbound : IsUnbound t) where
  open pci_ops use {
    pci, free_irq_vectors, ida_free, iounmap_regions, misc_deregister, held-iounmap_regions,
    held-misc_deregister,
  }

  abbrev held : K → Held
  held k = held_by ops pci k

  -- The pointers of the first channels are set where there are two of either direction.
  exited-both :
      (c : Chans) (rx tx : List ℕ) (k : K)
      → length rx ≡ 2
      → length tx ≡ 2
      → let released : K = elim tx [
        | [] ↦ k
        | _ ∷ _ ↦ elim rx [ [] ↦ k | _ ∷ _ ↦ dma_exit pci_ops c k ]
      ] in
        released ≡ dma_exit pci_ops c k
  exited-both c (r ∷ rx) [] k er et = absurd (omega arith)
  exited-both c [] [] k er et = absurd (omega arith)
  exited-both c [] (x ∷ tx) k er et = absurd (omega arith)
  exited-both c (r ∷ rx) (x ∷ tx) k er et = refl

  akida_remove-held :
      (a : AkidaDev V) (k : K) (h : H)
      → held k ≡ everything pci_ops bus vc config t unbound a
      → IsStored pci_ops bus vc config t unbound a
      → IsEquipped pci_ops bus vc config t unbound a.chans
      → held (akida_remove pci_ops bus vc config a k h).0 ≡ t
  unfolding akida_remove
  akida_remove-held a k h held_k stored equipped =
      let dma = with_dma pci_ops bus vc config t unbound a in
      let numbered = with_devnos (more a.devno t.pci.devnos) dma in
      let undeclared : held (misc_deregister k) ≡ numbered =
        held-misc_deregister k
        ∙ ap (with_misc none) held_k
        ∙ ap (λ m. with_misc m numbered) (sym unbound.1.1.1) in
      let k₁ = ida_free a.devno (misc_deregister k) in
      let k₂ = dma_exit pci_ops a.chans k₁ in
      let exited : held k₂ ≡ with_core pci_ops bus vc config t unbound a =
        dma_exit-held pci_ops a.chans k₁ (with_core pci_ops bus vc config t unbound a)
          (ida_freed pci_ops bus vc config t unbound a.devno dma (misc_deregister k) undeclared) in
      let k₃ = (edma_remove pci_ops bus vc config a k₂ h).1.1 in
      let removed : held k₃ ≡ with_vectors true true t =
        edma_remove-held pci_ops bus vc config t unbound a k₂ h stored.1.0 exited in
      let enabled : (pci k₃).msi ≡ true = ap (λ (x : Held). x.pci.msi) removed in
      let k₅ = free_irq_vectors k₃ in
      let freed : held k₅ ≡ t = vectors-freed pci_ops bus vc config t unbound true k₃ removed in
      rw (exited-both a.chans a.chans.rx a.chans.tx k₁ equipped.0.0 equipped.1.0, stored.0, enabled)
        (if-elim (λ x. held x ≡ t) (is_set a.mmio_bar0) (λ _. held-iounmap_regions 1 k₅ ∙ freed)
          (λ _. freed))

  removed-stored :
      (r : Bound pci_ops bus vc config) (o : Option (AkidaDev V)) (a : AkidaDev V)
      → o ≡ some a
      → IsAllOrNothing pci_ops bus vc config t unbound (record r { dev = o })
      → held (akida_remove pci_ops bus vc config a r.kernel r.hw).0 ≡ t
  removed-stored r o a e done =
      let (_, (held_k, (stored, equipped))) =
        subst
          (λ (x : Option (AkidaDev V)).
            IsAllOrNothing pci_ops bus vc config t unbound (record r { dev = x }))
          e done in
      akida_remove-held a r.kernel r.hw held_k stored equipped

  -- Where the driver holds nothing of the device yet: `akida_remove` after an `akida_probe` that
  -- stored a device leaves the kernel with what it held for the driver before the probe: no vector,
  -- request, DMA channel, device number, misc device or reference to the module more or less.
  pub akida_remove-akida_probe :
      (board_id : ℕ) (k : K) (h : H) (a : AkidaDev V)
      → held k ≡ t
      → (akida_probe pci_ops bus vc config board_id k h).dev ≡ some a
      → let r = akida_probe pci_ops bus vc config board_id k h in
        held (akida_remove pci_ops bus vc config a r.kernel r.hw).0 ≡ t
  akida_remove-akida_probe board_id k h a held_k stored =
      let r = akida_probe pci_ops bus vc config board_id k h in
      removed-stored r r.dev a stored
        (akida_probe-IsAllOrNothing pci_ops bus vc config t unbound board_id k h held_k)
