-- ===== src/Edma/Interrupts/Vectors.antt =====
-- akida-dw-edma/dw-edma-core.c: the interrupts of a core that `dw_edma_channel_setup` has set up.
use akida_dw_edma.Base.{ℕ, ◌<◌, List, Bool, false, ◌≡◌, arith, get_elem?, get_or, length}
use akida_dw_edma.Mmio.{Bus}
use akida_dw_edma.Vchan.{VchanOps}
use akida_dw_edma.Edma.{Dir, write, read, Desc, Chip, CoreOps, MapFormat, SlaveConfig}
use akida_dw_edma.V0.Interrupt.{IrqLine}
use akida_dw_edma.Edma.Setup.{Irq, zero_irq, irq_alloc, nr_irqs_of, irq_pos, dir_of, id_of}
use akida_dw_edma.Edma.Setup.Masks.{has, irqs_after, setup_from-masks}
use akida_dw_edma.Edma.Interrupts.{Cores, interrupt, v0_handle, hdma_handle}
use akida_dw_edma.Edma.Interrupts.Frame.{Touches, v0_interrupt-others, hdma_interrupt-others}

-- What the handler reads of `dw` and of the vector `k`.
abbrev pub line_of : ℕ → ℕ → List Irq → ℕ → IrqLine
line_of wr_cnt rd_cnt irqs k = record {
  wr_ch_cnt = wr_cnt;
  rd_ch_cnt = rd_cnt;
  wr_mask = (get_or irqs k zero_irq).wr_mask;
  rd_mask = (get_or irqs k zero_irq).rd_mask;
}

module _ (v : VchanOps Desc) {H : Type 0} (core : CoreOps H) (chip : Chip)
    (wr_cnt rd_cnt chip_irqs : ℕ) (vc : v.Vc) (config : SlaveConfig) (irqs : List Irq) (h : H)
    (some_irq : 0 < chip_irqs) (size : length irqs ≡ chip_irqs)
    (clear : (d : Dir) (k b : ℕ) → has d (get_or irqs k zero_irq) b ≡ false) where
  -- The vector `k` is that of the channel at the place `j`, which is one of the direction.
  abbrev pub Owns : ℕ → Dir → ℕ → Type 0
  Owns k dir j =
      (dir_of wr_cnt j ≡ dir)
      × (k
          ≡ irq_pos (nr_irqs_of chip_irqs (irq_alloc chip_irqs wr_cnt rd_cnt))
              (irq_alloc chip_irqs wr_cnt rd_cnt) dir (id_of wr_cnt j))

  abbrev pub line : ℕ → IrqLine
  line k = line_of wr_cnt rd_cnt (irqs_after core chip wr_cnt rd_cnt chip_irqs vc config irqs h) k

  Touches-Owns : (k : ℕ) (dir : Dir) (j : ℕ) → Touches (line k) dir j → Owns k dir j
  Touches-Owns k write j (p, ((lt, set), at)) =
      let masks =
        setup_from-masks core chip wr_cnt rd_cnt chip_irqs vc config irqs h some_irq size clear
          write k p in
      let place : id_of wr_cnt j ≡ p = ground arith in
      (ground arith, rw place (ground (arith, masks, set)))
  Touches-Owns k read j (p, ((lt, set), at)) =
      let masks =
        setup_from-masks core chip wr_cnt rd_cnt chip_irqs vc config irqs h some_irq size clear read
          k p in
      let place : id_of wr_cnt j ≡ p = ground arith in
      (ground arith, rw place (ground (arith, masks, set)))

  -- After the set-up, an eDMA interrupt on a vector leaves every channel alone whose vector is
  -- another, or that is of the other direction.
  pub v0_interrupt-own_vector :
      (bus : Bus H) (base : ℕ) (local : Bool) (mf : MapFormat) (dir : Dir) (k j : ℕ)
      (w : Cores v core)
      → ¬ Owns k dir j
      → get_elem? (interrupt v core (v0_handle v core bus base local mf) dir (line k) w).1.chans j
        ≡ get_elem? w.chans j
  v0_interrupt-own_vector bus base local mf dir k j w other =
      v0_interrupt-others v core bus base local mf dir (line k) j w
        (λ t. other (Touches-Owns k dir j t))

  -- After the set-up, an HDMA interrupt on a vector leaves every channel alone whose vector is
  -- another, or that is of the other direction.
  pub hdma_interrupt-own_vector :
      (bus : Bus H) (base : ℕ) (local : Bool) (dir : Dir) (k j : ℕ) (w : Cores v core)
      → ¬ Owns k dir j
      → get_elem? (interrupt v core (hdma_handle v core bus base local) dir (line k) w).1.chans j
        ≡ get_elem? w.chans j
  hdma_interrupt-own_vector bus base local dir k j w other =
      hdma_interrupt-others v core bus base local dir (line k) j w
        (λ t. other (Touches-Owns k dir j t))
