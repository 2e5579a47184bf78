-- ===== src/Akida/Probe/Acquires.antt =====
-- akida-pcie-core.c: `akida_probe` holds all or nothing, from the eDMA core on.
use mathlib.Core.Path.{fun_ext}
use akida_dw_edma.Base.{
  ℕ, true, false, not, if◌then◌else◌, [], Option, none, some, ◌≡◌, ◌≢◌, refl, ap, ap₂, subst, ◌∙◌,
  arith, if-elim, if_fails, if_holds, length, All,
}
use akida_dw_edma.Mmio.{Bus}
use akida_dw_edma.Edma.{Chip, SlaveConfig, dev_to_mem, mem_to_dev, Errno, success, is_success}
use akida_dw_edma.Edma.Probe.{KernelOps, Table, Dw, Probed}
use akida_dw_edma.Edma.Probe.Keeps.{probe-keeps}
use akida_dw_edma.Edma.Probe.Reverts.{IsReverted, probe-IsReverted}
use akida_dw_edma.Akida.Kernel.{
  Board, Pci, Held, more, less, held_by, with_vectors, with_devnos, with_misc, PciOps,
}
use akida_dw_edma.Akida.HostDdr.{HostDdr}
use akida_dw_edma.Akida.Regions.{edma_chip}
use akida_dw_edma.Akida.Channels.{Chans, dma_init}
use akida_dw_edma.Akida.Channels.Taken.{Carries, IsTaken, dma_init-IsTaken}
use akida_dw_edma.Akida.Probe.{
  mf_of, AkidaDev, miscdev_of, Bound, failed, reg_base_of, v0_of, hdma_of, edma_probe,
  fail_dw_edma_remove, fail_akida_dma_exit, fail_ida_alloc, probe_misc, probe_dma, probe_edma,
}
use akida_dw_edma.Akida.Probe.Releases.{
  IsUnbound, IsCounted, with_core, with_dma, everything, vectors-freed, fail_dw_edma_remove-held,
  fail_akida_dma_exit-held,
}

module _ {K V H : Type 0} {ops : KernelOps K} (pci_ops : PciOps ops) (bus : Bus H) (vc : V)
    (config : SlaveConfig) (t : Held) (unbound : IsUnbound t) where
  open pci_ops use {
    pci, kzalloc, disable_link_state, enable_device, set_master, iomap_table, irq_vector,
    alloc_irq_vectors, free_irq_vectors, ida_alloc, ida_free, misc_register, misc_deregister,
    core-keeps, held-kzalloc, held-disable_link_state, held-enable_device, held-set_master,
    held-iounmap_regions, alloc_irq_vectors-least, held-alloc_irq_vectors, held-ida_alloc,
    held-ida_free, held-misc_register, held-misc_deregister,
  }

  abbrev held : K → Held
  held k = held_by ops pci k

  -- Two channels for reception and two for transmission, each of its direction.
  abbrev pub IsEquipped : Chans → Type 0
  IsEquipped c =
      ((length c.rx ≡ 2) × All (Carries pci_ops dev_to_mem) c.rx)
      × ((length c.tx ≡ 2) × All (Carries pci_ops mem_to_dev) c.tx)

  -- What the core's probe has stored for a chip, where the kernel held no more than `t`.
  abbrev pub IsProbed : ℕ → Chip → Option (Dw V) → Type 0
  IsProbed reg_base chip dw =
      (k : K) × (h : H) × (ops.table k ≡ t.core)
      × (dw ≡ (edma_probe pci_ops bus vc config reg_base chip k h).dw)

  -- `edma_chip` is set, with `dev` and with the core behind `dw`.
  abbrev pub IsStored : AkidaDev V → Type 0
  IsStored a =
      (a.chip_dev ≡ true)
      × (IsCounted pci_ops bus vc config a.chip a.dw × IsProbed a.reg_base a.chip a.dw)

  -- A device is stored and all is held, or there is an error, no device, and no more is held than
  -- `t`.
  abbrev pub IsAllOrNothing : Bound pci_ops bus vc config → Type 0
  IsAllOrNothing r = elim r.dev [
    | none ↦ (r.err ≢ success) × (held r.kernel ≡ t)
    | some a ↦
        (r.err ≡ success)
        × ((held r.kernel ≡ everything pci_ops bus vc config t unbound a)
            × (IsStored a × IsEquipped a.chans))
  ]

  pub failed-IsAllOrNothing :
      (err : Errno) (s : K × H)
      → not (is_success err) ≡ true
      → held s.0 ≡ t
      → IsAllOrNothing (failed pci_ops bus vc config err s)
  failed-IsAllOrNothing err s e h = ((λ z. cc (e, z)), h)

  pub is_success_lem : (err : Errno) → not (is_success err) ≡ false → err ≡ success
  is_success_lem success e = refl
  is_success_lem _ e = cc e

  -- A number that was taken is free again.
  devno-freed : (n : ℕ) (x : Held) → with_devnos (less n (more n x.pci.devnos)) x ≡ x
  devno-freed n x =
      let same : (a : ℕ) → less n (more n x.pci.devnos) a ≡ x.pci.devnos a = λ a. ground arith in
      ap (λ f. with_devnos f x) (fun_ext same)

  pub ida_freed :
      (n : ℕ) (x : Held) (k : K)
      → held k ≡ with_devnos (more n x.pci.devnos) x
      → held (ida_free n k) ≡ x
  ida_freed n x k h =
      held-ida_free n k ∙ ap (λ (y : Held). with_devnos (less n y.pci.devnos) y) h ∙ devno-freed n x

  probe_misc-IsAllOrNothing :
      (a : AkidaDev V) (k : K) (h : H)
      → IsStored a
      → IsEquipped a.chans
      → held k ≡ with_dma pci_ops bus vc config t unbound a
      → IsAllOrNothing (probe_misc pci_ops bus vc config a k h)
  unfolding probe_misc fail_ida_alloc
  probe_misc-IsAllOrNothing a k h counted equipped held_k =
      let (err, (n, k₁)) = ida_alloc k in
      let a₁ = record a { devno = n } in
      let m = miscdev_of a₁ in
      let (err', k₂) = misc_register m k₁ in
      let dma = with_dma pci_ops bus vc config t unbound a in
      let numbered = held-ida_alloc k in
      let declared = held-misc_register m k₁ in
      let exited = fail_akida_dma_exit-held pci_ops bus vc config t unbound in
      if-elim IsAllOrNothing (not (is_success err))
        (λ e.
          failed-IsAllOrNothing err (fail_akida_dma_exit pci_ops bus vc config a k₁ h) e
            (exited a k₁ h counted.1.0 (numbered ∙ if_fails (is_success err) _ _ e ∙ held_k)))
        (λ e.
          let with_number : held k₁ ≡ with_devnos (more n dma.pci.devnos) dma =
            numbered
            ∙ if_holds (is_success err) _ _ e
            ∙ ap (λ (x : Held). with_devnos (more n x.pci.devnos) x) held_k in
          if-elim IsAllOrNothing (not (is_success err'))
            (λ f. failed-IsAllOrNothing err' (fail_ida_alloc pci_ops bus vc config a₁ k₂ h) f (
              exited a₁ (ida_free n k₂) h counted.1.0
                (ida_freed n dma k₂ (declared ∙ if_fails (is_success err') _ _ f ∙ with_number))))
            (λ f. (
              refl,
              (
                declared ∙ if_holds (is_success err') _ _ f ∙ ap (with_misc (some m)) with_number,
                (counted, equipped),
              ),
            )))

  probe_dma-IsAllOrNothing :
      (a : AkidaDev V) (k : K) (h : H)
      → IsStored a
      → held k ≡ with_core pci_ops bus vc config t unbound a
      → IsAllOrNothing (probe_dma pci_ops bus vc config a k h)
  unfolding probe_dma
  probe_dma-IsAllOrNothing a k h counted held_k =
      let (err, (chans, k₁)) = dma_init pci_ops k in
      let taken =
        subst (λ (x : Held). IsTaken pci_ops x (dma_init pci_ops k)) held_k
          (dma_init-IsTaken pci_ops k) in
      if-elim IsAllOrNothing (not (is_success err))
        (λ e. failed-IsAllOrNothing err (fail_dw_edma_remove pci_ops bus vc config a k₁ h) e (
          fail_dw_edma_remove-held pci_ops bus vc config t unbound a k₁ h counted.1.0
            (subst (λ (X : Type 0). X) (if_fails (is_success err) _ _ e) taken)))
        (λ e.
          let (held_k₁, equipped) =
            subst (λ (X : Type 0). X) (if_holds (is_success err) _ _ e) taken in
          probe_misc-IsAllOrNothing (record a { chans = chans }) k₁ h counted equipped held_k₁)

  -- What the core's probe ends with, as `IsReverted` says it, for its result and `chip->dw`.
  probed-IsAllOrNothing :
      (board : Board) (ddr : HostDdr) (bar0 : Option ℕ) (reg_base : ℕ) (chip : Chip)
      (r : Probed ops
        (v0_of pci_ops bus vc config reg_base chip)
        (hdma_of pci_ops bus vc config reg_base chip)
        vc
        config)
      (dw : Option (Dw V))
      → pci r.kernel ≡ (with_vectors true true t).pci
      → IsReverted ops
          (v0_of pci_ops bus vc config reg_base chip)
          (hdma_of pci_ops bus vc config reg_base chip)
          vc
          config
          chip
          t.core
          (record r { dw = dw })
      → IsProbed reg_base chip dw
      → let a : AkidaDev V = record {
        board = board;
        host_ddr = ddr;
        mmio_bar0 = bar0;
        reg_base = reg_base;
        chip = chip;
        chip_dev = true;
        dw = dw;
        chans = record { rx = []; tx = [] };
        devno = 0;
      } in
        IsAllOrNothing (
          if not (is_success r.err)
          then failed pci_ops bus vc config r.err (free_irq_vectors r.kernel, r.hw)
          else probe_dma pci_ops bus vc config a r.kernel r.hw)
  probed-IsAllOrNothing board ddr bar0 reg_base chip r none same done probed =
      let freed : held (free_irq_vectors r.kernel) ≡ t =
        vectors-freed pci_ops bus vc config t unbound true r.kernel
          (ap₂ (λ (c : Table) (p : Pci). record { core = c; pci = p }) done.1 same) in
      if-elim IsAllOrNothing (not (is_success r.err))
        (λ e. failed-IsAllOrNothing r.err (free_irq_vectors r.kernel, r.hw) e freed)
        (λ e. absurd (done.0 (is_success_lem r.err e)))
  probed-IsAllOrNothing board ddr bar0 reg_base chip r (some dw) same done probed =
      let a : AkidaDev V = record {
        board = board;
        host_ddr = ddr;
        mmio_bar0 = bar0;
        reg_base = reg_base;
        chip = chip;
        chip_dev = true;
        dw = some dw;
        chans = record { rx = []; tx = [] };
        devno = 0;
      } in
      if-elim IsAllOrNothing (not (is_success r.err)) (λ e. cc (ap is_success done.0, e))
        (λ e.
          probe_dma-IsAllOrNothing a r.kernel r.hw (refl, (done.1.0, probed))
            (ap₂ (λ (c : Table) (p : Pci). record { core = c; pci = p }) done.1.1 same))

  pub probe_edma-IsAllOrNothing :
      (board : Board) (ddr : HostDdr) (bar0 : Option ℕ) (k : K) (h : H)
      → held k ≡ with_vectors true true t
      → IsAllOrNothing (probe_edma pci_ops bus vc config board ddr bar0 k h)
  unfolding probe_edma
  probe_edma-IsAllOrNothing board ddr bar0 k h held_k =
      let reg_base = reg_base_of pci_ops bus vc config board k in
      let chip = edma_chip (iomap_table k 4) (irq_vector k) (mf_of board) in
      let v0 = v0_of pci_ops bus vc config reg_base chip in
      let hdma = hdma_of pci_ops bus vc config reg_base chip in
      let r = edma_probe pci_ops bus vc config reg_base chip k h in
      probed-IsAllOrNothing board ddr bar0 reg_base chip r r.dw
        (probe-keeps ops pci core-keeps v0 hdma vc config true true chip h k
          ∙ ap (λ (x : Held). x.pci) held_k)
        (subst (λ (x : Held). IsReverted ops v0 hdma vc config chip x.core r) held_k
          (probe-IsReverted ops v0 hdma vc config true true chip h k))
        (k, h, ap (λ (x : Held). x.core) held_k, refl)
