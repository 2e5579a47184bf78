-- ===== src/Backport/Setup/Unwind.antt =====
-- kernel/5.4/akida-dw-edma/dw-edma-core.c: the devices that are registered when a probe ends.
use akida_dw_edma.Base.{
  ℕ, Bool, true, false, ◌&&◌, if◌then◌else◌, ◌≡◌, refl, ◌∙◌, Bool-cases, inl, inr,
}
use akida_dw_edma.Edma.{write, read, Chip, is_success}
use akida_dw_edma.Edma.Probe.{KernelOps}
use akida_dw_edma.Edma.Probe.Keeps.{irq_free-keeps}
use akida_dw_edma.Backport.Kernel.{Devices, add, RegisterOps}
use akida_dw_edma.Backport.Setup.{dir_caps, register_both}

module _ {K : Type 0} (ops : KernelOps K) (reg : RegisterOps ops) (chip : Chip) where
  open reg use {register, devices, devices-register, devices-keep}

  -- The two calls succeed exactly if both registrations do, and the read device is registered then
  -- only. But the write device is still registered if its own registration succeeded and that of
  -- the read device failed, with the vectors given back.
  pub register_both-devices :
      (nr_irqs : ℕ) (k : K)
      → devices k ≡ record { wr = false; rd = false }
      → let (e, k₁) = register write (dir_caps write) k in
        let ok = is_success e in
        let ok' = is_success (register read (dir_caps read) k₁).0 in
        let (result, k') = register_both ops register chip nr_irqs k in
        (is_success result ≡ (ok && ok')) × (devices k' ≡ record { wr = ok; rd = ok && ok' })
  unfolding register_both
  register_both-devices nr_irqs k none =
      let a = register write (dir_caps write) k in
      let b = register read (dir_caps read) a.1 in
      let first = devices-register write (dir_caps write) k in
      let second = devices-register read (dir_caps read) a.1 in
      let started : devices a.1 ≡ record { wr = is_success a.0; rd = false } =
        first ∙ rw none (by_first (is_success a.0)) in
      elim (Bool-cases (is_success a.0)) [
        | inl e ↦ elim (Bool-cases (is_success b.0)) [
          | inl e' ↦ rw (e, e') (refl, second ∙ rw (e', started, e) refl)
          | inr e' ↦
              rw (e, e')
                (
                  e',
                  irq_free-keeps ops devices devices-keep chip nr_irqs b.1
                      ∙ second
                      ∙ rw (e', started, e) refl,
                )
        ]
        | inr e ↦
            rw e (e, irq_free-keeps ops devices devices-keep chip nr_irqs a.1 ∙ started ∙ rw e refl)
      ]
    where
      by_first :
          (ok : Bool)
          → let none : Devices = record { wr = false; rd = false } in
            (if ok then add write none else none) ≡ record { wr = ok; rd = false }
      by_first true = refl
      by_first false = refl
