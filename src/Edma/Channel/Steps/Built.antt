-- ===== src/Edma/Channel/Steps/Built.antt =====
-- A descriptor that `dw_edma_device_transfer` has built is accounted for when it is submitted.
use akida_dw_edma.Base.{ℕ, ◌≡◌, arith}
use akida_dw_edma.Edma.{Desc}
use akida_dw_edma.Edma.Transfer.Build.{linked}
use akida_dw_edma.Edma.Transfer.Filled.{IsBuilt}
use akida_dw_edma.Edma.Channel.Served.{region_sizes-IsFilled}
use akida_dw_edma.Edma.Channel.Steps.{IsAccounted}

-- As built, with nothing sent yet.
pub IsBuilt-IsAccounted : (m : ℕ) (d : Desc) → IsBuilt m d → d.xfer_sz ≡ 0 → IsAccounted d
IsBuilt-IsAccounted m d b fresh =
    let bytes = region_sizes-IsFilled m (linked d) b.filled in
    record {
      counted = b.numbered;
      measured = omega (arith, bytes, b.totalled, fresh);
      xfer_u32 = omega (arith, fresh);
    }
