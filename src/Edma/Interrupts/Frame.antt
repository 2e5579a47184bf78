-- ===== src/Edma/Interrupts/Frame.antt =====
-- akida-dw-edma/dw-edma-core.c: the channels that an interrupt does not touch.
use akida_dw_edma.Base.{
  ℕ, ◌+◌, Option, none, some, Bool, ◌≡◌, ◌≢◌, refl, ◌∙◌, get_elem?, set, get_elem?-set_ne,
}
use akida_dw_edma.Mmio.{Bus}
use akida_dw_edma.Vchan.{VchanOps}
use akida_dw_edma.Edma.{Dir, Desc, Chan, CoreOps, MapFormat}
use akida_dw_edma.Edma.Channel.{World, done_interrupt, abort_interrupt}
use akida_dw_edma.V0.Interrupt.{IrqLine, total_of, off_of, mask_of}
use akida_dw_edma.V0.Interrupt.Handled
use akida_dw_edma.V0.Interrupt.Handled.{Serves}
use akida_dw_edma.Hdma.Interrupt.Keeps
use akida_dw_edma.Edma.Interrupts.{Cores, at_chan, in_cores, interrupt, v0_handle, hdma_handle}

-- Whether the line, for the direction, may serve the channel at `dw->chan[j]`.
abbrev pub Touches : IrqLine → Dir → ℕ → Type 0
Touches line dir j =
    (p : ℕ) × (Serves (total_of line dir) (mask_of line dir) p × (p + off_of line dir ≡ j))

module _ (v : VchanOps Desc) {H : Type 0} (core : CoreOps H) where
  at_chan-others :
      (f : World v core → World v core) (i j : ℕ) (w : Cores v core)
      → i ≢ j
      → get_elem? (at_chan v core f i w).chans j ≡ get_elem? w.chans j
  unfolding at_chan
  at_chan-others f i j w ne = by_chan (get_elem? w.chans i)
    where
      by_chan :
          (o : Option (Chan v.Vc))
          → let w' : Cores v core = elim o [
            | none ↦ w
            | some ch ↦
                let u : World v core = f (record { chan = ch; hw = w.hw; heap = w.heap }) in
                record { chans = set w.chans i u.chan; hw = u.hw; heap = u.heap }
          ] in
            get_elem? w'.chans j ≡ get_elem? w.chans j
      by_chan none = refl
      by_chan (some ch) = get_elem?-set_ne w.chans i j _ ne

  -- An eDMA interrupt leaves every channel alone that its line does not serve.
  pub v0_interrupt-others :
      (bus : Bus H) (base : ℕ) (local : Bool) (mf : MapFormat) (dir : Dir) (line : IrqLine) (j : ℕ)
      (w : Cores v core)
      → ¬ Touches line dir j
      → get_elem? (interrupt v core (v0_handle v core bus base local mf) dir line w).1.chans j
        ≡ get_elem? w.chans j
  unfolding interrupt
  v0_interrupt-others bus base local mf dir line j w out =
      Handled.handle_int-keeps bus base local mf (in_cores v core)
        (λ (u : Cores v core). get_elem? u.chans j ≡ get_elem? w.chans j)
        (at_chan v core (done_interrupt v core)) (at_chan v core (abort_interrupt v core)) line dir
        w (λ h u e. e)
        (λ p u s e.
          at_chan-others (done_interrupt v core) (p + off_of line dir) j u (λ q. out (p, (s, q)))
          ∙ e)
        (λ p u s e.
          at_chan-others (abort_interrupt v core) (p + off_of line dir) j u (λ q. out (p, (s, q)))
          ∙ e)
        refl

  -- An HDMA interrupt leaves every channel alone that its line does not serve.
  pub hdma_interrupt-others :
      (bus : Bus H) (base : ℕ) (local : Bool) (dir : Dir) (line : IrqLine) (j : ℕ)
      (w : Cores v core)
      → ¬ Touches line dir j
      → get_elem? (interrupt v core (hdma_handle v core bus base local) dir line w).1.chans j
        ≡ get_elem? w.chans j
  unfolding interrupt
  hdma_interrupt-others bus base local dir line j w out =
      Keeps.handle_int-keeps bus base local (in_cores v core)
        (λ (u : Cores v core). get_elem? u.chans j ≡ get_elem? w.chans j)
        (at_chan v core (done_interrupt v core)) (at_chan v core (abort_interrupt v core)) line dir
        w (λ h u e. e)
        (λ p u s e.
          at_chan-others (done_interrupt v core) (p + off_of line dir) j u (λ q. out (p, (s, q)))
          ∙ e)
        (λ p u s e.
          at_chan-others (abort_interrupt v core) (p + off_of line dir) j u (λ q. out (p, (s, q)))
          ∙ e)
        refl
