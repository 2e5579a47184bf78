-- ===== src/V0/Control/Start.antt =====
-- akida-dw-edma/dw-edma-v0-core.c: what `dw_edma_v0_core_start` leaves in the registers.
use Prim.Native.Nat.{bit_or}
use akida_dw_edma.Base.{ℕ, ◌/◌, ◌%◌, ◌^◌, Bool, ◌≡◌}
use akida_dw_edma.Edma.{Dir, MapFormat}
use akida_dw_edma.V0.Flag
use akida_dw_edma.V0.Regs.{ch_control1, llp_lsb, llp_msb}
use akida_dw_edma.V0.Control.Stores.{ch_reg}

module _ (base : ℕ) (local : Bool) (mf : MapFormat) where
  -- The descriptor of the list in the registers of the channel.
  abbrev pub IsPointed : Dir → ℕ → ℕ → (ℕ → ℕ) → Type 0
  IsPointed dir id paddr g =
      (ch_reg base local mf dir id ch_control1 g ≡ bit_or Flag.ccs Flag.lle)
      × ((ch_reg base local mf dir id llp_lsb g ≡ paddr % 2 ^ 32)
          × (ch_reg base local mf dir id llp_msb g ≡ paddr / 2 ^ 32 % 2 ^ 32))
