-- ===== src/Tests/Probes.antt =====
-- Probes of a core with three interrupt vectors, in a kernel that may refuse any request.
use akida_dw_edma.Base.{
  ℕ, List, [], ◌∷◌, none, some, Bool, true, false, ◌&&◌, ◌==◌, if◌then◌else◌, ◌≡◌, ◌<◌, refl, sym,
  ap, ◌∙◌, arith, if-elim,
}
use akida_dw_edma.Mmio.{Access, observer}
use akida_dw_edma.Vchan.Lists.{Lists}
use akida_dw_edma.Edma.{read, Desc, Chip, CoreOps, Errno, success, ebusy, is_success, edma_legacy}
use akida_dw_edma.Edma.Probe.{
  KernelOps, Table, Line, Dw, Probed, irq_request, request_from, setup_and_register, probe_channels,
  probe, remove,
}
use akida_dw_edma.Edma.Probe.Reverts.{IsReverted, probe-IsReverted, remove-probe}
use akida_dw_edma.Edma.Probe.Served.{IsServed, probe-IsServed}
use akida_dw_edma.Edma.Setup.{ch_cnt_of, irq_alloc, dec_rd_alloc, dec_wr_alloc, distribute}
use akida_dw_edma.Edma.Setup.Masks.{cnt_of}
use akida_dw_edma.V0.Control.{v0_core, ch_count}
use akida_dw_edma.Tests.Data.{chip, config, empty_vc, msi}

abbrev pub remove_line : ℕ → ℕ → List Line → List Line
remove_line irq i [] = []
remove_line irq i (l ∷ ls) = if l.irq == irq && l.place == i then ls else l ∷ remove_line irq i ls

pub remove_line_lem : (l : Line) (ls : List Line) → remove_line l.irq l.place (l ∷ ls) ≡ ls
remove_line_lem l ls = ground arith

-- A kernel that refuses some of the places of a request.
abbrev pub kernel : (ℕ → Bool) → KernelOps Table
kernel refuses = record {
  table = λ k. k;
  kcalloc = λ k. (true, k);
  request_irq = λ irq isr i k.
      if refuses i
      then (ebusy, k)
      else (success, record k { lines = record { irq = irq; isr = isr; place = i } ∷ k.lines });
  free_irq = λ irq i k. record k { lines = remove_line irq i k.lines };
  msi_msg = λ irq k. some msi;
  register = λ c k. (success, record k { registered = true });
  unregister = λ k. record k { registered = false };
  table-kcalloc = λ k. refl;
  table-request_irq = λ irq isr i k.
      if-elim
        (λ (r : Errno × Table). r.1 ≡ (
          if is_success r.0
          then record k { lines = record { irq = irq; isr = isr; place = i } ∷ k.lines }
          else k))
        (refuses i) (λ _. refl) (λ _. refl);
  table-free_irq = λ l ls k e.
      ap (λ (x : List Line). record k { lines = x })
        (ap (remove_line l.irq l.place) e ∙ remove_line_lem l ls);
  table-register = λ c k. refl;
  table-unregister = λ k. refl;
}

abbrev pub three_vectors : Chip
three_vectors = record chip { nr_irqs = 3 }

-- Its control register says that there are two channels in either direction.
abbrev pub two_channels : CoreOps (List Access)
two_channels = v0_core (observer (λ h a. 0x20002)) 0 false edma_legacy

abbrev pub nothing : Table
nothing = record { lines = []; registered = false }

probe-IsReverted_example :
    IsReverted
      (kernel (λ i. i == 2))
      two_channels
      two_channels
      empty_vc
      config
      three_vectors
      nothing
      (probe
        (kernel (λ i. i == 2))
        two_channels
        two_channels
        empty_vc
        config
        true
        true
        (some three_vectors)
        []
        nothing)
probe-IsReverted_example =
    probe-IsReverted (kernel (λ i. i == 2)) two_channels two_channels empty_vc config true true
      three_vectors [] nothing

abbrev probed : Probed (kernel (λ i. false)) two_channels two_channels empty_vc config
probed =
    probe (kernel (λ i. false)) two_channels two_channels empty_vc config true true
      (some three_vectors) [] nothing

-- What the successful probe stores.
abbrev dw : Dw (Lists Desc)
dw = elim probed.dw [
  | none ↦ record { wr_ch_cnt = 0; rd_ch_cnt = 0; nr_irqs = 0; irqs = []; chans = [] }
  | some d ↦ d
]

stored : probed.dw ≡ some dw
unfolding probe probe_channels setup_and_register irq_request request_from v0_core ch_count
    ch_cnt_of irq_alloc dec_rd_alloc dec_wr_alloc distribute
stored = refl

second : 1 < cnt_of dw.wr_ch_cnt dw.rd_ch_cnt read
unfolding probe probe_channels setup_and_register irq_request request_from v0_core ch_count
    ch_cnt_of irq_alloc dec_rd_alloc dec_wr_alloc distribute
second = omega arith

remove-probe_example :
    ((remove
        (kernel (λ i. false))
        two_channels
        two_channels
        empty_vc
        config
        three_vectors
        probed.dw
        probed.hw
        probed.kernel).0
      ≡ success)
    × ((remove
          (kernel (λ i. false))
          two_channels
          two_channels
          empty_vc
          config
          three_vectors
          probed.dw
          probed.hw
          probed.kernel).1.1
        ≡ nothing)
remove-probe_example =
    remove-probe (kernel (λ i. false)) two_channels two_channels empty_vc config true true
      three_vectors [] nothing refl (λ e. cc (sym stored ∙ e))

probe-IsServed_example :
    IsServed
      (kernel (λ i. false))
      two_channels
      two_channels
      empty_vc
      config
      three_vectors
      dw
      probed.kernel
      read
      1
probe-IsServed_example =
    probe-IsServed (kernel (λ i. false)) two_channels two_channels empty_vc config true true
      three_vectors [] nothing dw read 1 stored second
