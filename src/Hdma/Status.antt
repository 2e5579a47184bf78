-- ===== src/Hdma/Status.antt =====
-- Which register `dw_hdma_v0_core_ch_status` reads.
use akida_dw_edma.Base.{
  ℕ, zero, suc, ◌+◌, ◌*◌, List, [], ◌∷◌, ◌++◌, Bool, ◌≡◌, ◌↔◌, refl, ap, arith, last_or,
  last_or-append,
}
use akida_dw_edma.Mmio.{Access, got32, barrier, observer}
use akida_dw_edma.Edma.{Dir, write, read}
use akida_dw_edma.Hdma.Control.{ch_stat, ch_offset, ch_regs, ch_status, dir_number}

got32-last : (h : List Access) (a b : ℕ) → h ++ got32 a ∷ [] ≡ h ++ got32 b ∷ [] → a ≡ b
got32-last h a b e =
    cc (
      last_or-append barrier (got32 a) h,
      last_or-append barrier (got32 b) h,
      ap (last_or barrier) e,
    )

-- `dw_hdma_v0_core_ch_status` reads the status register of its own channel exactly where the
-- number of the channel equals the number of its direction: for write channel 0 and read
-- channel 1. For every other channel it reads the status of another one.
pub ch_status-own_register :
    (answer : List Access → ℕ → ℕ) (base : ℕ) (local : Bool) (dir : Dir) (id : ℕ) (h : List Access)
    → ((ch_status (observer answer) base local dir id h).1
        ≡ h ++ got32 (base + (ch_regs dir id + ch_offset ch_stat)) ∷ [])
      ↔ (id ≡ dir_number dir)
unfolding ch_status ch_regs ch_offset
ch_status-own_register answer base local write zero h = ((λ _. refl), (λ _. refl))
ch_status-own_register answer base local write (suc id) h = (
  (λ e. absurd (omega (arith, got32-last h (base + 384) (base + (suc id * 512 + 128)) e))),
  (λ e. absurd (omega arith)),
)
ch_status-own_register answer base local read zero h = (
  (λ e. absurd (omega (arith, got32-last h (base + 640) (base + 384) e))),
  (λ e. absurd (omega arith)),
)
ch_status-own_register answer base local read (suc id) h = (
  (λ e. omega (arith, got32-last h (base + 896) (base + (suc id * 512 + 256 + 128)) e)),
  (λ e. ap (λ (k : ℕ). h ++ got32 (base + k) ∷ []) (omega arith)),
)
