-- ===== src/Akida/Engine/Carried.antt =====
-- akida-pcie-core.c over akida-dw-edma/dw-edma-core.c: a transfer from its call to its completion.
use akida_dw_edma.Base.{
  ℕ, suc, ◌+◌, ◌-◌, List, [], ◌∷◌, ◌++◌, some, Bool, true, false, ◌≡◌, refl, u32, u64, arith, ap,
}
use akida_dw_edma.Vchan.Lists.{Lists}
use akida_dw_edma.Edma.{
  Dir, write, read, Burst, Chunk, Desc, Chip, Chan, SlaveConfig, MsiMsg, MapFormat, XferDirection,
  dev_to_mem, mem_to_dev, CoreOps, req_none, idle, Errno, success,
}
use akida_dw_edma.Edma.Alloc.{
  Heap, ll_region_of, alloc_desc, alloc_chunk, alloc_burst, kzalloc, free_burst, free_bursts,
}
use akida_dw_edma.Edma.Setup.{ll_max_of}
use akida_dw_edma.Edma.Transfer.{
  is_accepted, burst_count, burst_at, start_cursor, get_pci_address, advance,
}
use akida_dw_edma.Edma.Transfer.Build.{
  prep_slave_sg, device_transfer, build_desc, fill_loop, round, ensure_room, add_burst,
}
use akida_dw_edma.Edma.Channel.{
  device_config, device_config, device_issue_pending, start_transfer, start_chunk, done_interrupt,
  on_done,
}
use akida_dw_edma.Akida.Regions.{edma_chip}
use akida_dw_edma.Akida.Transfer.{sconfig, dma_callback, await, submitted, transact, dma_transfer}
use akida_dw_edma.Akida.Engine.{System, engine}

-- A channel of the device that has nothing to do, with room for one burst in a chunk.
abbrev pub at_rest : Dir → ℕ → MsiMsg → SlaveConfig → Bool → List Desc → Chan (Lists Desc)
at_rest dir id msi config configured completed = record {
  vc = record { issued = []; submitted = []; allocated = []; completed = completed };
  id = id;
  dir = dir;
  ll_max = 1;
  msi = msi;
  request = req_none;
  status = idle;
  configured = configured;
  config = config;
}

-- The descriptor that such a transfer leaves: it has no chunk left and all its bytes are moved.
abbrev pub finished : ℕ → Desc
finished sz = record { chunk = some []; chunks_alloc = 0; alloc_sz = sz; xfer_sz = sz }

pub finished_lem :
    (len : ℕ)
    → record (finished (u32 len)) {
      alloc_sz = u32 (0 + u32 len);
      xfer_sz = u32 (0 + u64 (0 + u32 len));
    }
      ≡ finished (u32 len)
finished_lem len =
    let allocated : u32 (0 + u32 len) ≡ u32 len = omega arith in
    let moved : u32 (0 + u64 (0 + u32 len)) ≡ u32 len = omega arith in
    λ i. record (finished (u32 len)) { alloc_sz = allocated i; xfer_sz = moved i }

abbrev pub emptied : List Desc → Desc → Lists Desc
emptied old d = record { issued = []; submitted = []; allocated = []; completed = old ++ d ∷ [] }

pub unmapped : (n : ℕ) → suc n - 1 ≡ n
unmapped n = omega arith

-- The direction that the driver asks a channel for, and the burst that this means.
abbrev pub direction_of : Dir → XferDirection
direction_of write = dev_to_mem
direction_of read = mem_to_dev

module _ {H : Type 0} (core : CoreOps H) (bar4 : ℕ) (irq_vector : ℕ → ℕ) (mf : MapFormat)
    (buf : ℕ) where
  abbrev pub chip : Chip
  chip = edma_chip bar4 irq_vector mf

  -- The room that the set-up finds in the 64 bytes of each of the four regions.
  ll_max_of-edma_chip : (dir : Dir) → (ll_max_of chip dir 0 ≡ 1) × (ll_max_of chip dir 1 ≡ 1)
  unfolding ll_max_of edma_chip
  ll_max_of-edma_chip write = (refl, refl)
  ll_max_of-edma_chip read = (refl, refl)

  abbrev pub system :
      (interrupts : ℕ)
      → Chan (Lists Desc)
      → H
      → Heap
      → ℕ
      → System core chip (λ n. false) buf interrupts
  system interrupts ch hw heap mapped = record {
    world = record { chan = ch; hw = hw; heap = heap };
    mapped = mapped;
    completions = 0;
  }

  -- The chunk of a transfer of one burst: it lies in the channel's region and carries its size.
  abbrev single : Dir → ℕ → Burst → Chunk
  single dir id b = record {
    burst = some (b ∷ []);
    bursts_alloc = 1;
    cb = true;
    ll_region = record {
      paddr = (ll_region_of chip dir id).paddr;
      vaddr = (ll_region_of chip dir id).vaddr;
      sz = b.sz;
    };
  }

  -- What a transfer of the burst on a channel leaves of the state it began in. The core is told to
  -- start that one chunk and no other; the channel is idle with nothing queued, and has completed
  -- one descriptor more, all of whose bytes are moved; as many buffers are mapped as before, and
  -- the completion is signalled once.
  abbrev pub IsCarried :
      Dir → ℕ → Burst → List Desc → H → ℕ → Errno × System core chip (λ n. false) buf 1 → Type 0
  IsCarried dir id b old hw mapped r =
      (r.0 ≡ success)
      × (r.1.world.hw ≡ core.start dir id (single dir id b) true hw)
      × (r.1.world.chan.vc ≡ record {
        issued = [];
        submitted = [];
        allocated = [];
        completed = old ++ finished b.sz ∷ [];
      })
      × (r.1.world.chan.status ≡ idle)
      × (r.1.world.chan.request ≡ req_none)
      × (r.1.mapped ≡ mapped)
      × (r.1.completions ≡ 1)

  -- The sums of the core start at 0 and wrap; one length on its own stays as it is.
  start-single :
      (dir : Dir) (id sar dar len : ℕ) (hw : H)
      → core.start dir id
          (record (single dir id (record { sar = sar; dar = dar; sz = u32 len })) {
            ll_region = record (ll_region_of chip dir id) { sz = u64 (0 + u32 len) };
          })
          true
          hw
        ≡ core.start dir id (single dir id (record { sar = sar; dar = dar; sz = u32 len })) true hw
  start-single dir id sar dar len hw =
      let in_region : u64 (0 + u32 len) ≡ u32 len = omega arith in
      ap
        (λ n.
          core.start dir id
            (record (single dir id (record { sar = sar; dar = dar; sz = u32 len })) {
              ll_region = record (ll_region_of chip dir id) { sz = n };
            })
            true hw)
        in_region

  abbrev burst_of : Dir → ℕ → ℕ → Burst
  burst_of write dev_addr sz = record { sar = dev_addr; dar = buf; sz = sz }
  burst_of read dev_addr sz = record { sar = buf; dar = dev_addr; sz = sz }

  -- A transfer of any length, on an idle channel of its direction, is carried out when the mapping,
  -- the memory and the submission succeed and one done interrupt comes while the driver waits: the
  -- core starts one chunk, with which a write channel moves the bytes from the device's address to
  -- the buffer, and a read channel from the buffer to the device's address; the call returns 0 with
  -- the channel idle, the descriptor complete, the buffer unmapped and one completion signalled.
  pub dma_transfer-IsCarried :
      (dir : Dir) (id dev_addr len : ℕ) (msi : MsiMsg) (config : SlaveConfig) (configured : Bool)
      (old : List Desc) (hw : H) (heap : Heap) (mapped : ℕ)
      → IsCarried dir id (burst_of dir dev_addr (u32 len)) old hw mapped (
          dma_transfer
            (engine core chip (λ n. false) buf 1)
            (direction_of dir)
            dev_addr
            len
            (system 1 (at_rest dir id msi config configured old) hw heap mapped))
  unfolding edma_chip sconfig dma_callback await submitted transact dma_transfer is_accepted
      burst_count burst_at start_cursor get_pci_address advance prep_slave_sg device_transfer
      build_desc fill_loop round ensure_room add_burst alloc_desc alloc_chunk alloc_burst kzalloc
      device_config device_issue_pending start_transfer start_chunk done_interrupt on_done
      free_burst free_bursts
  dma_transfer-IsCarried write id dev_addr len msi config configured old hw heap mapped = (
    refl,
    start-single write id dev_addr buf len hw,
    ap (emptied old) (finished_lem len),
    refl,
    refl,
    unmapped mapped,
    refl,
  )
  dma_transfer-IsCarried read id dev_addr len msi config configured old hw heap mapped = (
    refl,
    start-single read id buf dev_addr len hw,
    ap (emptied old) (finished_lem len),
    refl,
    refl,
    unmapped mapped,
    refl,
  )
