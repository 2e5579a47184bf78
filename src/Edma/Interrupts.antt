-- ===== src/Edma/Interrupts.antt =====
-- akida-dw-edma/dw-edma-core.c: the interrupt service routines, over all channels of the core.
pub mod Frame
pub mod Vectors
pub mod Sound
use akida_dw_edma.Base.{ℕ, List, Option, none, some, Bool, ◌||◌, get_elem?, set}
use akida_dw_edma.Mmio.{Bus}
use akida_dw_edma.Vchan.{VchanOps}
use akida_dw_edma.Edma.{Dir, write, read, Desc, Chan, CoreOps, MapFormat}
use akida_dw_edma.Edma.Alloc.{Heap}
use akida_dw_edma.Edma.Channel.{World, done_interrupt, abort_interrupt}
use akida_dw_edma.V0.Interrupt
use akida_dw_edma.V0.Interrupt.{Holds, IrqLine}
use akida_dw_edma.Hdma.Interrupt as HdmaInterrupt

-- `handle_int` of `struct dw_edma_core_ops` over a state `W`.
abbrev pub HandleInt : Type 0 → Type 0
HandleInt W = (ℕ → W → W) → (ℕ → W → W) → IrqLine → Dir → W → Bool × W

module _ (v : VchanOps Desc) {H : Type 0} (core : CoreOps H) where
  -- The channels in the order of `dw->chan`, the hardware and the allocator.
  pub record Cores : Type 0 where
    pub chans : List (Chan v.Vc)
    pub hw : H
    pub heap : Heap

  abbrev pub in_cores : Holds H Cores
  in_cores = record { hw = λ w. w.hw; put_hw = λ h w. record w { hw = h } }

  -- A handler of the channel at `dw->chan[i]`; there is a channel at every place it is called for.
  unfoldable pub at_chan : (World v core → World v core) → ℕ → Cores → Cores
  at_chan f i w = elim (get_elem? w.chans i) [
    | none ↦ w
    | some ch ↦
        let w' : World v core = f (record { chan = ch; hw = w.hw; heap = w.heap }) in
        record { chans = set w.chans i w'.chan; hw = w'.hw; heap = w'.heap }
  ]

  module _ (handle : HandleInt Cores) where
    -- `dw_edma_interrupt_write` and `dw_edma_interrupt_read`
    unfoldable pub interrupt : Dir → IrqLine → Cores → Bool × Cores
    interrupt dir line w =
        handle (at_chan (done_interrupt v core)) (at_chan (abort_interrupt v core)) line dir w

    -- `dw_edma_interrupt_common`
    unfoldable pub interrupt_common : IrqLine → Cores → Bool × Cores
    interrupt_common line w =
        let (a, w₁) = interrupt write line w in let (b, w₂) = interrupt read line w₁ in (a || b, w₂)

  -- The two kinds of hardware.
  abbrev pub v0_handle : Bus H → ℕ → Bool → MapFormat → HandleInt Cores
  v0_handle bus base local mf = Interrupt.handle_int bus base local mf in_cores

  abbrev pub hdma_handle : Bus H → ℕ → Bool → HandleInt Cores
  hdma_handle bus base local = HdmaInterrupt.handle_int bus base local in_cores
