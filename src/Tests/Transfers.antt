-- ===== src/Tests/Transfers.antt =====
-- Preparing a transfer.
use akida_dw_edma.Base.{[], ◌∷◌, some, ◌≡◌, refl, arith}
use akida_dw_edma.Vchan.Lists.{lists}
use akida_dw_edma.Edma.{Desc}
use akida_dw_edma.Edma.Alloc.{alloc_desc, alloc_chunk, alloc_burst, kzalloc, ll_region_of}
use akida_dw_edma.Edma.Transfer.{
  burst_at, start_cursor, burst_count, is_accepted, get_pci_address, advance,
}
use akida_dw_edma.Edma.Transfer.Build.{
  linked, device_transfer, build_desc, fill_loop, round, ensure_room, add_burst,
}
use akida_dw_edma.Edma.Transfer.Filled.{all_bursts, IsBuilt}
use akida_dw_edma.Edma.Transfer.Device.{Outcome, device_transfer-Outcome, device_transfer-IsBuilt}
use akida_dw_edma.Edma.Transfer.Addresses.{Asks}
use akida_dw_edma.Tests.Data.{chip, no_icg, always, chan, heap, transfer, desc, config}

made : device_transfer no_icg no_icg always chip (lists Desc) chan transfer heap ≡ (
  some desc,
  record chan { vc = record chan.vc { allocated = desc ∷ [] } },
  record { calls = 9; live = 9 },
)
unfolding device_transfer is_accepted burst_count burst_at start_cursor get_pci_address advance
    build_desc fill_loop round ensure_room add_burst alloc_desc alloc_chunk alloc_burst kzalloc
    ll_region_of
made = refl

device_transfer-IsBuilt_example :
    IsBuilt 2 desc
    × Asks no_icg no_icg chip config transfer.xfer transfer.direction (all_bursts (linked desc))
device_transfer-IsBuilt_example =
    device_transfer-IsBuilt no_icg no_icg always chip (lists Desc) chan transfer heap (omega arith)
      (omega arith) tt made

device_transfer-Outcome_example :
    Outcome no_icg no_icg always chip
      (lists Desc)
      chan
      transfer
      heap
      (device_transfer no_icg no_icg always chip (lists Desc) chan transfer heap)
device_transfer-Outcome_example =
    device_transfer-Outcome no_icg no_icg always chip (lists Desc) chan transfer heap
