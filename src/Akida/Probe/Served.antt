-- ===== src/Akida/Probe/Served.antt =====
-- akida-pcie-core.c: after `akida_probe`, the interrupt vector serves every channel.
use akida_dw_edma.Base.{ℕ, ◌<◌, true, Option, some, ◌≡◌, sym, ap, subst, ◌∙◌}
use akida_dw_edma.Mmio.{Bus}
use akida_dw_edma.Edma.{Dir, Chip, SlaveConfig}
use akida_dw_edma.Edma.Setup.Masks.{cnt_of}
use akida_dw_edma.Edma.Probe.{KernelOps, Table, Dw, vector_of}
use akida_dw_edma.Edma.Probe.Reverts.{IsReverted, probe-IsReverted}
use akida_dw_edma.Edma.Probe.Served.{IsHeld, IsServed, probe-IsServed}
use akida_dw_edma.Akida.Kernel.{Held, held_by, PciOps}
use akida_dw_edma.Akida.Probe.{AkidaDev, Bound, v0_of, hdma_of, edma_probe, akida_probe}
use akida_dw_edma.Akida.Probe.Releases.{IsUnbound, core_table}
use akida_dw_edma.Akida.Probe.Acquires.{IsProbed, IsAllOrNothing}
use akida_dw_edma.Akida.Probe.Unwind.{akida_probe-IsAllOrNothing}

module _ {K V H : Type 0} {ops : KernelOps K} (pci_ops : PciOps ops) (bus : Bus H) (vc : V)
    (config : SlaveConfig) (t : Held) (unbound : IsUnbound t) where
  open pci_ops use {pci}

  -- The requests that the core holds after its probe are those that the kernel's table shows now.
  requested-IsServed :
      (reg_base : ℕ) (chip : Chip) (dw : Dw V) (k : K) (dir : Dir) (id : ℕ)
      → IsProbed pci_ops bus vc config t unbound reg_base chip (some dw)
      → ops.table k ≡ core_table pci_ops bus vc config chip (some dw) t.core
      → id < cnt_of dw.wr_ch_cnt dw.rd_ch_cnt dir
      → IsServed ops
          (v0_of pci_ops bus vc config reg_base chip)
          (hdma_of pci_ops bus vc config reg_base chip)
          vc
          config
          chip
          dw
          k
          dir
          id
  requested-IsServed reg_base chip dw k dir id (k₀, h₀, same, stored) held_k lt =
      let v0 = v0_of pci_ops bus vc config reg_base chip in
      let hdma = hdma_of pci_ops bus vc config reg_base chip in
      let r = edma_probe pci_ops bus vc config reg_base chip k₀ h₀ in
      let (_, (_, held_r)) =
        subst
          (λ (o : Option (Dw V)).
            IsReverted ops v0 hdma vc config chip (ops.table k₀) (record r { dw = o }))
          (sym stored) (probe-IsReverted ops v0 hdma vc config true true chip h₀ k₀) in
      let now : ops.table r.kernel ≡ ops.table k =
        held_r ∙ ap (core_table pci_ops bus vc config chip (some dw)) same ∙ sym held_k in
      let (pos, masks, isr, handles, line) =
        probe-IsServed ops v0 hdma vc config true true chip h₀ k₀ dw dir id (sym stored) lt in
      (
        pos,
        masks,
        isr,
        handles,
        subst
            (λ (x : Table).
              IsHeld (record { irq = vector_of chip pos; isr = isr; place = pos }) x.lines)
            now line,
      )

  stored-IsServed :
      (r : Bound pci_ops bus vc config) (o : Option (AkidaDev V)) (a : AkidaDev V)
      (d : Option (Dw V)) (dw : Dw V) (dir : Dir) (id : ℕ)
      → o ≡ some a
      → a.dw ≡ some dw
      → IsAllOrNothing pci_ops bus vc config t unbound (record r { dev = o })
      → id < cnt_of dw.wr_ch_cnt dw.rd_ch_cnt dir
      → IsServed ops
          (v0_of pci_ops bus vc config a.reg_base a.chip)
          (hdma_of pci_ops bus vc config a.reg_base a.chip)
          vc
          config
          a.chip
          dw
          r.kernel
          dir
          id
  stored-IsServed r o a d dw dir id e f done lt =
      let (_, (held_k, ((_, (_, probed)), _))) =
        subst
          (λ (x : Option (AkidaDev V)).
            IsAllOrNothing pci_ops bus vc config t unbound (record r { dev = x }))
          e done in
      requested-IsServed a.reg_base a.chip dw r.kernel dir id
        (subst (IsProbed pci_ops bus vc config t unbound a.reg_base a.chip) f probed)
        (ap (λ (x : Held). x.core) held_k
          ∙ ap (λ d. core_table pci_ops bus vc config a.chip d t.core) f)
        lt

  -- Where the driver holds nothing of the device yet: after an `akida_probe` that stored a device,
  -- for every channel of its eDMA core, exactly one of `dw->irq` has the channel's bit in the mask
  -- of its direction, and the driver holds a request of that interrupt of the device whose routine
  -- handles that direction.
  pub akida_probe-IsServed :
      (board_id : ℕ) (k : K) (h : H) (a : AkidaDev V) (dw : Dw V) (dir : Dir) (id : ℕ)
      → held_by ops pci k ≡ t
      → (akida_probe pci_ops bus vc config board_id k h).dev ≡ some a
      → a.dw ≡ some dw
      → id < cnt_of dw.wr_ch_cnt dw.rd_ch_cnt dir
      → IsServed ops
          (v0_of pci_ops bus vc config a.reg_base a.chip)
          (hdma_of pci_ops bus vc config a.reg_base a.chip)
          vc
          config
          a.chip
          dw
          (akida_probe pci_ops bus vc config board_id k h).kernel
          dir
          id
  akida_probe-IsServed board_id k h a dw dir id held_k stored core lt =
      let r = akida_probe pci_ops bus vc config board_id k h in
      stored-IsServed r r.dev a a.dw dw dir id stored core
        (akida_probe-IsAllOrNothing pci_ops bus vc config t unbound board_id k h held_k) lt
