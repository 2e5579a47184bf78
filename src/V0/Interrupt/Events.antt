-- ===== src/V0/Interrupt/Events.antt =====
-- What an interrupt service routine does, in its order: the accesses to the hardware and the
-- channels whose handlers it runs.
use akida_dw_edma.Base.{ℕ, ◌+◌, List, [], ◌∷◌, ◌++◌}
use akida_dw_edma.Mmio.{Bus, Access, wrote32, wrote64, stored32, stored64, got32, barrier}
use akida_dw_edma.Edma.{Dir, write, read}
use akida_dw_edma.V0.Interrupt.{Holds, IrqLine}

pub data Event : Type 0 where
  access : Access → Event
  served_done served_abort : ℕ → Event

-- Hardware that records its accesses among the other events; what a read returns may depend on all
-- that went before.
abbrev pub event_bus : (List Event → ℕ → ℕ) → Bus (List Event)
event_bus answer = record {
  writel = λ a x h. h ++ access (wrote32 a x) ∷ [];
  writeq = λ a x h. h ++ access (wrote64 a x) ∷ [];
  readl = λ a h. (answer h a, h ++ access (got32 a) ∷ []);
  store32 = λ a x h. h ++ access (stored32 a x) ∷ [];
  store64 = λ a x h. h ++ access (stored64 a x) ∷ [];
  dma_wmb = λ h. h ++ access barrier ∷ [];
}

abbrev pub in_events : Holds (List Event) (List Event)
in_events = record { hw = λ h. h; put_hw = λ h w. h }

-- The handlers of a channel.
abbrev pub on_done : ℕ → List Event → List Event
on_done p h = h ++ served_done p ∷ []

abbrev pub on_abort : ℕ → List Event → List Event
on_abort p h = h ++ served_abort p ∷ []

-- The channels of a direction: how many the core has, the place of the first among all channels,
-- and the mask of those that belong to the line.
abbrev pub count : IrqLine → Dir → ℕ
count line write = line.wr_ch_cnt
count line read = line.rd_ch_cnt

abbrev pub place : IrqLine → Dir → ℕ → ℕ
place line write p = p + 0
place line read p = p + line.wr_ch_cnt

abbrev pub mask : IrqLine → Dir → ℕ
mask line write = line.wr_mask
mask line read = line.rd_mask
