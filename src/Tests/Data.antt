-- ===== src/Tests/Data.antt =====
-- A remote eDMA with the memory of the Akida device: two channels in either direction.
use akida_dw_edma.Base.{ℕ, ◌+◌, List, [], ◌∷◌, none, some, Bool, true, false}
use akida_dw_edma.Vchan.Lists.{Lists, lists}
use akida_dw_edma.Mmio.{Access, observer}
use akida_dw_edma.Edma.{
  write, Region, Burst, Chunk, Desc, Chip, Chan, SlaveConfig, MsiMsg, CoreOps, edma_legacy,
  req_none, idle, dev_to_mem,
}
use akida_dw_edma.Edma.Alloc.{Heap}
use akida_dw_edma.Edma.Transfer.{SgEntry, DataChunk, Template, scatter_gather, EdmaTransfer}
use akida_dw_edma.Edma.Channel.{World}
use akida_dw_edma.V0.Control.{v0_core}

abbrev pub region : ℕ → Region
region n = record { paddr = 0x20000000 + n; vaddr = 0x5000 + n; sz = 72 }

abbrev pub chip : Chip
chip = record {
  nr_irqs = 1;
  irq_vector = some (λ n. n);
  pci_address = none;
  flags = 0;
  ll_wr_cnt = 2;
  ll_rd_cnt = 2;
  ll_region_wr = region 0 ∷ region 72 ∷ [];
  ll_region_rd = region 144 ∷ region 216 ∷ [];
  dt_region_wr = [];
  dt_region_rd = [];
  mf = edma_legacy;
}

abbrev pub no_icg : Template → DataChunk → ℕ
no_icg il c = 0

abbrev pub always : ℕ → Bool
always n = false

abbrev pub config : SlaveConfig
config = record { src_addr = 0x1000; dst_addr = 0x2000 }

abbrev pub msi : MsiMsg
msi = record { address_lo = 1; address_hi = 2; msg_data = 3 }

abbrev pub empty_vc : Lists Desc
empty_vc = record { issued = []; submitted = []; allocated = []; completed = [] }

-- Write channel 0, which carries data from the device.
abbrev pub chan : Chan (Lists Desc)
chan = record {
  vc = empty_vc;
  id = 0;
  dir = write;
  ll_max = 2;
  msi = msi;
  request = req_none;
  status = idle;
  configured = true;
  config = config;
}

abbrev pub heap : Heap
heap = record { calls = 0; live = 0 }

abbrev pub entry : ℕ → ℕ → SgEntry
entry a n = record { address = a; len = n }

abbrev pub sgl : List SgEntry
sgl = entry 0x9000 16 ∷ entry 0xa000 32 ∷ entry 0xb000 8 ∷ []

abbrev pub transfer : EdmaTransfer
transfer = record { xfer = scatter_gather sgl 3; direction = dev_to_mem; flags = 0 }

abbrev pub answer : List Access → ℕ → ℕ
answer h a = 0

abbrev pub core : CoreOps (List Access)
core = v0_core (observer answer) 0 false edma_legacy

abbrev pub burst : ℕ → ℕ → ℕ → Burst
burst s d n = record { sar = s; dar = d; sz = n }

-- Three bursts in two chunks.
abbrev pub chunk_1 : Chunk
chunk_1 = record {
  burst = some (burst 0x1000 0x9000 16 ∷ burst 0x1010 0xa000 32 ∷ []);
  bursts_alloc = 2;
  cb = true;
  ll_region = record (region 0) { sz = 48 };
}

abbrev pub chunk_2 : Chunk
chunk_2 = record {
  burst = some (burst 0x1030 0xb000 8 ∷ []);
  bursts_alloc = 1;
  cb = false;
  ll_region = record (region 0) { sz = 8 };
}

abbrev pub desc : Desc
desc = record {
  chunk = some (chunk_1 ∷ chunk_2 ∷ []);
  chunks_alloc = 2;
  alloc_sz = 56;
  xfer_sz = 0;
}

abbrev pub world : Chan (Lists Desc) → World (lists Desc) core
world ch = record { chan = ch; hw = []; heap = heap }

-- A device whose status registers say that the transfer is complete.
abbrev pub done_core : CoreOps (List Access)
done_core = v0_core (observer (λ h a. 0x60)) 0 false edma_legacy
