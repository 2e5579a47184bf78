-- ===== src/Akida/Engine/Late.antt =====
-- akida-pcie-core.c over akida-dw-edma/dw-edma-core.c: a transfer that does not complete in time.
use akida_dw_edma.Base.{
  ℕ, suc, ◌-◌, List, [], ◌∷◌, Bool, true, false, ◌≡◌, refl, u32, arith, ap, subst, sym,
}
use akida_dw_edma.Vchan.Lists.{lists}
use akida_dw_edma.Edma.{
  Dir, write, read, Chunk, Desc, SlaveConfig, MsiMsg, MapFormat, CoreOps, req_none, req_stop, idle,
  busy, is_complete, Errno, etimedout,
}
use akida_dw_edma.Edma.Alloc.{
  Heap, alloc_desc, alloc_chunk, alloc_burst, kzalloc, free_burst, free_bursts,
}
use akida_dw_edma.Edma.Transfer.{
  is_accepted, burst_count, burst_at, start_cursor, get_pci_address, advance,
}
use akida_dw_edma.Edma.Transfer.Build.{
  prep_slave_sg, device_transfer, build_desc, fill_loop, round, ensure_room, add_burst,
}
use akida_dw_edma.Edma.Channel.{
  World, device_config, device_terminate_all, device_issue_pending, start_transfer, start_chunk,
  done_interrupt, on_done,
}
use akida_dw_edma.Akida.Regions.{edma_chip}
use akida_dw_edma.Akida.Transfer.{sconfig, dma_callback, await, submitted, transact, dma_transfer}
use akida_dw_edma.Akida.Engine.{System, engine}
use akida_dw_edma.Akida.Engine.Carried.{
  at_rest, system, direction_of, emptied, finished, finished_lem, unmapped,
}

module _ {H : Type 0} (core : CoreOps H) (bar4 : ℕ) (irq_vector : ℕ → ℕ) (mf : MapFormat)
    (buf : ℕ) where
  -- `terminate_all` on a busy channel that the hardware has not completed.
  asked_to_stop :
      (w : World (lists Desc) core)
      → w.chan.configured ≡ true
      → w.chan.status ≡ busy
      → w.chan.request ≡ req_none
      → is_complete (core.ch_status w.chan.dir w.chan.id w.hw).0 ≡ false
      → (device_terminate_all (lists Desc) core w).1 ≡ record w {
        hw = (core.ch_status w.chan.dir w.chan.id w.hw).1;
        chan = record w.chan { request = req_stop };
      }
  unfolding device_terminate_all
  asked_to_stop w conf st req run = ground arith

  -- What a transfer of so many bytes leaves that timed out: as many mapped buffers as before it and
  -- no signal, while its descriptor is issued still and the channel is busy and only asked to stop.
  -- The done interrupt that comes then completes the descriptor.
  abbrev pub IsLate :
      ℕ
      → List Desc
      → ℕ
      → Errno × System core (edma_chip bar4 irq_vector mf) (λ n. false) buf 0
      → Type 0
  IsLate sz old mapped r =
      let after = done_interrupt (lists Desc) core r.1.world in
      (r.0 ≡ etimedout)
      × (r.1.mapped ≡ mapped)
      × (r.1.completions ≡ 0)
      × (r.1.world.chan.status ≡ busy)
      × (r.1.world.chan.request ≡ req_stop)
      × (r.1.world.chan.vc.issued ≡ finished sz ∷ [])
      × (after.chan.vc ≡ emptied old (finished sz))
      × (after.chan.status ≡ idle)

  -- A transfer of any length, on an idle channel of its direction, for which no interrupt comes
  -- while the driver waits, and whose channel does not report completion when it is then asked,
  -- times out, when the mapping, the memory and the submission succeed: the buffer is unmapped while
  -- the channel is still busy with it, and a done interrupt after that completes it.
  pub dma_transfer-IsLate :
      (dir : Dir) (id dev_addr len : ℕ) (msi : MsiMsg) (config : SlaveConfig) (configured : Bool)
      (old : List Desc) (hw : H) (heap : Heap) (mapped : ℕ)
      → ((c : Chunk) → is_complete (core.ch_status dir id (core.start dir id c true hw)).0 ≡ false)
      → IsLate (u32 len) old mapped (
          dma_transfer
            (engine core (edma_chip bar4 irq_vector mf) (λ n. false) buf 0)
            (direction_of dir)
            dev_addr
            len
            (system core bar4 irq_vector mf buf 0
              (at_rest dir id msi config configured old)
              hw
              heap
              mapped))
  unfolding edma_chip sconfig dma_callback await submitted transact dma_transfer is_accepted
      burst_count burst_at start_cursor get_pci_address advance prep_slave_sg device_transfer
      build_desc fill_loop round ensure_room add_burst alloc_desc alloc_chunk alloc_burst kzalloc
      device_config device_issue_pending start_transfer start_chunk done_interrupt on_done
      free_burst free_bursts
  dma_transfer-IsLate write id dev_addr len msi config configured old hw heap mapped run =
      subst
        (λ w.
          IsLate (u32 len) old mapped
            (etimedout, record { world = w; mapped = suc mapped - 1; completions = 0 }))
        (sym (asked_to_stop _ refl refl refl (run _)))
        (
          refl,
          unmapped mapped,
          refl,
          refl,
          refl,
          ap (λ d. d ∷ []) (finished_lem len),
          ap (emptied old) (finished_lem len),
          refl,
        )
  dma_transfer-IsLate read id dev_addr len msi config configured old hw heap mapped run =
      subst
        (λ w.
          IsLate (u32 len) old mapped
            (etimedout, record { world = w; mapped = suc mapped - 1; completions = 0 }))
        (sym (asked_to_stop _ refl refl refl (run _)))
        (
          refl,
          unmapped mapped,
          refl,
          refl,
          refl,
          ap (λ d. d ∷ []) (finished_lem len),
          ap (emptied old) (finished_lem len),
          refl,
        )
