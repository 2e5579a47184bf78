-- ===== src/Akida/Channels.antt =====
-- akida-pcie-core.c: `akida_dma_init` and `akida_dma_exit`.
pub mod Taken
use akida_dw_edma.Base.{
  ℕ, zero, suc, Bool, true, false, not, if◌then◌else◌, List, [], ◌∷◌, Option, none, some,
}
use akida_dw_edma.Edma.{XferDirection, dev_to_mem, mem_to_dev, Errno, success, ebusy}
use akida_dw_edma.Edma.Probe.{KernelOps}
use akida_dw_edma.Akida.Kernel.{Candidate, PciOps}
use akida_dw_edma.Akida.Filter.{dma_chan_filter, dir_bit, both_dirs}

-- The pointers of `rxchan` and of `txchan` that are set, in the order of the arrays: the channels
-- are requested in that order up to the first that is not there.
pub record Chans : Type 0 where
  pub rx : List ℕ
  pub tx : List ℕ

-- `akida_dma_chan_filter` with the parameters of `akida_dma_init` for a direction.
abbrev pub filter_for : XferDirection → Candidate → Bool
filter_for dir c = dma_chan_filter c.same_dev c.caps both_dirs (dir_bit dir)

module _ {K : Type 0} {ops : KernelOps K} (pci : PciOps ops) where
  open pci use {request_channel, release_channel, terminate_sync, module_put, module_get}

  -- The loop over the channels of a direction, with `n` of them left: whether all were there, and
  -- the pointers that it sets.
  unfoldable pub request_from : XferDirection → ℕ → K → Bool × (List ℕ × K)
  request_from dir zero k = (true, ([], k))
  request_from dir (suc n) k =
      let (c, k₁) = request_channel (filter_for dir) k in
      let (all, (cs, k₂)) = request_from dir n (module_put k₁) in
      elim c [ none ↦ (false, ([], k₁)) | some a ↦ (all, (a ∷ cs, k₂)) ]

  -- The loops at `free_txchan` and `free_rxchan`, over the pointers that are set.
  unfoldable pub release_all : List ℕ → K → K
  release_all [] k = k
  release_all (c ∷ cs) k = release_all cs (release_channel c (module_get k))

  -- `akida_dma_init`
  unfoldable pub dma_init : K → Errno × (Chans × K)
  unfolding request_from release_all
  dma_init k =
      let (all_rx, (rx, k₁)) = request_from dev_to_mem 2 k in
      let (all_tx, (tx, k₂)) = request_from mem_to_dev 2 k₁ in
      if not all_rx
      then (ebusy, (record { rx = rx; tx = [] }, release_all rx k₁))
      else (if not all_tx
          then (ebusy, (record { rx = rx; tx = tx }, release_all rx (release_all tx k₂)))
          else (success, (record { rx = rx; tx = tx }, k₂)))

  -- The loops of `akida_dma_exit`.
  unfoldable pub exit_all : List ℕ → K → K
  exit_all [] k = k
  exit_all (c ∷ cs) k = exit_all cs (release_channel c (module_get (terminate_sync c k)))

  -- `akida_dma_exit`
  unfoldable pub dma_exit : Chans → K → K
  unfolding exit_all
  dma_exit c k = exit_all c.rx (exit_all c.tx k)
