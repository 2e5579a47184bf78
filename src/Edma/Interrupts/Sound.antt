-- ===== src/Edma/Interrupts/Sound.antt =====
-- akida-dw-edma/dw-edma-core.c: all channels of a core, while clients call and vectors interrupt.
use akida_dw_edma.Base.{
  ℕ, Option, none, some, Bool, ◌≡◌, refl, get_elem?, set, All, All-set, All-get_elem?,
}
use akida_dw_edma.Mmio.{Bus}
use akida_dw_edma.Vchan.{VchanOps}
use akida_dw_edma.Edma.{
  Dir, write, read, Desc, Chan, CoreOps, MapFormat, Status, Request, SlaveConfig,
}
use akida_dw_edma.Edma.Alloc.{Heap}
use akida_dw_edma.Edma.Channel.{World, start_transfer, done_interrupt, abort_interrupt}
use akida_dw_edma.Edma.Channel.Stop.{ClientCall, client}
use akida_dw_edma.Edma.Channel.Steps.{
  IsAccounted, Step, submits, calls, is_done, aborts, stores, starts, IsSound,
}
use akida_dw_edma.Edma.Channel.Steps.Sound.{Step-IsSound}
use akida_dw_edma.V0.Interrupt.{IrqLine}
use akida_dw_edma.V0.Interrupt.Handled
use akida_dw_edma.Hdma.Interrupt.Keeps
use akida_dw_edma.Edma.Interrupts.{
  HandleInt, Cores, at_chan, interrupt, interrupt_common, v0_handle, hdma_handle,
}

module _ (v : VchanOps Desc) {H : Type 0} (core : CoreOps H) where
  -- The channel is sound, whatever the hardware and the allocator are.
  abbrev pub IsSoundChan : Chan v.Vc → Type 0
  IsSoundChan ch =
      (h : H) (heap : Heap) → IsSound v core (record { chan = ch; hw = h; heap = heap })

  abbrev pub AreSound : Cores v core → Type 0
  AreSound w = All IsSoundChan w.chans

  -- What is a step of one channel leaves all of them sound.
  at_chan-AreSound :
      (f : World v core → World v core) (i : ℕ) (w : Cores v core)
      → ((u : World v core) → Step v core u (f u))
      → AreSound w
      → AreSound (at_chan v core f i w)
  unfolding at_chan
  at_chan-AreSound f i w step sound = by_chan (get_elem? w.chans i) refl
    where
      by_chan :
          (o : Option (Chan v.Vc))
          → get_elem? w.chans i ≡ o
          → let w' : Cores v core = elim o [
            | none ↦ w
            | some ch ↦
                let u : World v core = f (record { chan = ch; hw = w.hw; heap = w.heap }) in
                record { chans = set w.chans i u.chan; hw = u.hw; heap = u.heap }
          ] in
            AreSound w'
      by_chan none e = sound
      by_chan (some ch) e =
          let u : World v core = record { chan = ch; hw = w.hw; heap = w.heap } in
          let was = All-get_elem? IsSoundChan w.chans i ch sound e in
          let now = Step-IsSound v core (step u) (was w.hw w.heap) in
          All-set IsSoundChan w.chans i (f u).chan sound (λ h heap. record { listed = now.listed })

  -- The interrupt handler of a kind of hardware runs only the handlers of channels.
  abbrev pub RunsHandlers : HandleInt (Cores v core) → Type 0
  RunsHandlers handle =
      (done abort : World v core → World v core) (line : IrqLine) (dir : Dir) (w : Cores v core)
      → ((u : World v core) → Step v core u (done u))
      → ((u : World v core) → Step v core u (abort u))
      → AreSound w
      → AreSound (handle (at_chan v core done) (at_chan v core abort) line dir w).1

  v0_handle-RunsHandlers :
      (bus : Bus H) (base : ℕ) (local : Bool) (mf : MapFormat)
      → RunsHandlers (v0_handle v core bus base local mf)
  v0_handle-RunsHandlers bus base local mf done abort line dir w d a sound =
      Handled.handle_int-keeps bus base local mf _ AreSound (at_chan v core done)
        (at_chan v core abort) line dir w (λ h u x. x) (λ p u s x. at_chan-AreSound done _ u d x)
        (λ p u s x. at_chan-AreSound abort _ u a x) sound

  hdma_handle-RunsHandlers :
      (bus : Bus H) (base : ℕ) (local : Bool) → RunsHandlers (hdma_handle v core bus base local)
  hdma_handle-RunsHandlers bus base local done abort line dir w d a sound =
      Keeps.handle_int-keeps bus base local _ AreSound (at_chan v core done) (at_chan v core abort)
        line dir w (λ h u x. x) (λ p u s x. at_chan-AreSound done _ u d x)
        (λ p u s x. at_chan-AreSound abort _ u a x) sound

  -- The two kinds of engine, with the base of the registers and the chip's flag.
  pub data Engine : Type 0 where
    edma : Bus H → ℕ → Bool → MapFormat → Engine
    hdma : Bus H → ℕ → Bool → Engine

  abbrev pub handle_of : Engine → HandleInt (Cores v core)
  handle_of (edma bus base local mf) = v0_handle v core bus base local mf
  handle_of (hdma bus base local) = hdma_handle v core bus base local

  handle_of-RunsHandlers : (e : Engine) → RunsHandlers (handle_of e)
  handle_of-RunsHandlers (edma bus base local mf) = v0_handle-RunsHandlers bus base local mf
  handle_of-RunsHandlers (hdma bus base local) = hdma_handle-RunsHandlers bus base local

  -- A client submits a descriptor to the channel at a place, or calls the driver on it; a call that
  -- began earlier stores or starts there without the lock; or the hardware interrupts, on a line of one direction or on the common line.
  pub data CoreStep (e : Engine) (w : Cores v core) : Cores v core → Type 0 where
    submits_to :
        (i : ℕ) (d : Desc)
        → IsAccounted d
        → CoreStep e w (
            at_chan v core
              (λ u. record u { chan = record u.chan { vc = v.submit d u.chan.vc } })
              i
              w)
    calls_on : (i : ℕ) (c : ClientCall) → CoreStep e w (at_chan v core (client v core c) i w)
    stores_on :
        (i : ℕ) (st : Status) (rq : Request) (conf : Bool) (sc : SlaveConfig)
        → CoreStep e w (
            at_chan v core
              (λ u. record u {
                chan = record u.chan { status = st; request = rq; configured = conf; config = sc };
              })
              i
              w)
    starts_on : (i : ℕ) → CoreStep e w (at_chan v core (λ u. (start_transfer v core u).0) i w)
    interrupts :
        (dir : Dir) (line : IrqLine) → CoreStep e w (interrupt v core (handle_of e) dir line w).1
    interrupts_both :
        (line : IrqLine) → CoreStep e w (interrupt_common v core (handle_of e) line w).1

  pub data CoreReach (e : Engine) (w : Cores v core) : Cores v core → Type 0 where
    begins : CoreReach e w w
    goes_on : {w₁ w₂ : Cores v core} → CoreReach e w w₁ → CoreStep e w₁ w₂ → CoreReach e w w₂

  interrupt-AreSound :
      (e : Engine) (dir : Dir) (line : IrqLine) (w : Cores v core)
      → AreSound w
      → AreSound (interrupt v core (handle_of e) dir line w).1
  unfolding interrupt
  interrupt-AreSound e dir line w sound =
      handle_of-RunsHandlers e (done_interrupt v core) (abort_interrupt v core) line dir w
        (λ u. is_done) (λ u. aborts) sound

  interrupt_common-AreSound :
      (e : Engine) (line : IrqLine) (w : Cores v core)
      → AreSound w
      → AreSound (interrupt_common v core (handle_of e) line w).1
  unfolding interrupt_common
  interrupt_common-AreSound e line w sound =
      interrupt-AreSound e read line _ (interrupt-AreSound e write line w sound)

  CoreStep-AreSound :
      (e : Engine) {w w' : Cores v core} → CoreStep e w w' → AreSound w → AreSound w'
  CoreStep-AreSound e {w = w} (submits_to i d a) sound =
      at_chan-AreSound _ i w (λ u. submits d a) sound
  CoreStep-AreSound e {w = w} (calls_on i c) sound =
      at_chan-AreSound (client v core c) i w (λ u. calls c) sound
  CoreStep-AreSound e {w = w} (stores_on i st rq conf sc) sound =
      at_chan-AreSound _ i w (λ u. stores st rq conf sc) sound
  CoreStep-AreSound e {w = w} (starts_on i) sound = at_chan-AreSound _ i w (λ u. starts) sound
  CoreStep-AreSound e {w = w} (interrupts dir line) sound = interrupt-AreSound e dir line w sound
  CoreStep-AreSound e {w = w} (interrupts_both line) sound =
      interrupt_common-AreSound e line w sound

  -- On either kind of engine, and whatever its registers answer: however submissions, calls of
  -- clients on all channels, stores and starts of calls that began earlier, and interrupts on all
  -- lines follow each other, where a start of a chunk is not broken up, channels that are sound
  -- stay sound: every descriptor of a channel has its remaining chunks counted, and the bytes of
  -- those and the bytes that it counts as sent are the bytes of its transfer.
  pub CoreReach-AreSound :
      (e : Engine) {w w' : Cores v core} → CoreReach e w w' → AreSound w → AreSound w'
  CoreReach-AreSound e begins sound = sound
  CoreReach-AreSound e (goes_on r s) sound = CoreStep-AreSound e s (CoreReach-AreSound e r sound)
