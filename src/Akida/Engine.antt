-- ===== src/Akida/Engine.antt =====
-- akida-pcie-core.c over akida-dw-edma/dw-edma-core.c: the dmaengine interface as the eDMA core
-- implements it on one channel, for a hardware that answers by done interrupts.
pub mod Carried
pub mod Late
use akida_dw_edma.Base.{
  ℕ, zero, suc, ◌+◌, ◌-◌, List, [], ◌∷◌, ◌++◌, Option, none, some, Bool, true, false, not, is_empty,
  if◌then◌else◌, ◌≡◌, refl, u32, u64, length,
}
use akida_dw_edma.Vchan.Lists.{Lists, lists}
use akida_dw_edma.Edma.{
  Dir, write, read, Region, Burst, Chunk, Desc, Chip, Chan, SlaveConfig, MsiMsg, MapFormat,
  XferDirection, dev_to_mem, mem_to_dev, CoreOps, req_none, idle, Errno, success, einval,
}
use akida_dw_edma.Edma.Alloc.{Heap}
use akida_dw_edma.Edma.Transfer.{DataChunk, Template}
use akida_dw_edma.Edma.Transfer.Build.{prep_slave_sg, device_transfer}
use akida_dw_edma.Edma.Channel.{
  World, device_config, device_issue_pending, done_interrupt, device_terminate_all,
}
use akida_dw_edma.Edma.Channel.Drain.{iterate}
use akida_dw_edma.Akida.Regions.{edma_chip, ll_region}
use akida_dw_edma.Akida.Transfer.{DmaEngine, dma_transfer}

-- The first of the prepared descriptors is submitted.
abbrev submit_first : Lists Desc → Lists Desc
submit_first vc = elim vc.allocated [
  | [] ↦ vc
  | d ∷ ds ↦ record vc { allocated = ds; submitted = vc.submitted ++ d ∷ [] }
]

module _ {H : Type 0} (core : CoreOps H) (chip : Chip) (fails : ℕ → Bool) (buf interrupts : ℕ) where
  -- A channel of the core, how many buffers are mapped, and how often the completion is signalled.
  pub record System : Type 0 where
    pub world : World (lists Desc) core
    pub mapped : ℕ
    pub completions : ℕ

  abbrev no_icg : Template → DataChunk → ℕ
  no_icg il c = 0

  -- Each call goes to the core. A buffer is mapped to the bus address `buf`; so many `interrupts`
  -- come while the driver waits, and the callback is run if they complete a descriptor.
  abbrev pub engine : DmaEngine System
  engine = record {
    map_single = λ n s. (buf, record s { mapped = suc s.mapped });
    mapping_error = λ a. false;
    slave_config = λ c s.
        let w = s.world in
        (success, record s { world = record w { chan = device_config c w.chan } });
    prep_slave_single = λ b n d s.
        let w = s.world in
        let (o, ch, heap) =
          prep_slave_sg no_icg no_icg fails chip (lists Desc) w.chan
            (record { address = b; len = u32 n } ∷ []) 1 d 0 w.heap in
        let prepared : Option ℕ = elim o [ none ↦ none | some x ↦ some 0 ] in
        (prepared, record s { world = record w { chan = ch; heap = heap } });
    reinit_completion = λ s. record s { completions = 0 };
    submit = λ t s.
        let w = s.world in
        let ch = w.chan in
        (success, record s { world = record w { chan = record ch { vc = submit_first ch.vc } } });
    issue_pending = λ s. record s { world = device_issue_pending (lists Desc) core s.world };
    complete = λ s. record s { completions = suc s.completions };
    wait_for_completion = λ callback s.
        let w = iterate interrupts (done_interrupt (lists Desc) core) s.world in
        let done = is_empty w.chan.vc.issued in
        (done, if done then callback (record s { world = w }) else record s { world = w });
    terminate_all = λ s. record s { world = (device_terminate_all (lists Desc) core s.world).1 };
    unmap_single = λ b n s. record s { mapped = s.mapped - 1 };
  }
