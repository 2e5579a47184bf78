-- ===== src/Edma/Transfer/Device.antt =====
-- What `dw_edma_device_transfer` does, on success and on failure.
use akida_dw_edma.Base.{
  ℕ, ◌+◌, ◌^◌, ◌<◌, ◌∷◌, [], ◌++◌, Option, none, some, Bool, true, ◌≡◌, refl, ap, arith, Bool-cases,
  inl, inr, ◌⊎◌, Bool, false, subst, sym, ◌∙◌,
}
use akida_dw_edma.Vchan.{VchanOps}
use akida_dw_edma.Edma.{
  Dir, write, read, Desc, Chip, Chan, XferDirection, dev_to_mem, mem_to_dev, mem_to_mem, dev_to_dev,
  is_dev_to_mem, is_mem_to_dev, is_local,
}
use akida_dw_edma.Edma.Alloc.{Heap}
use akida_dw_edma.Edma.Alloc.Leaks.{weight}
use akida_dw_edma.Edma.Transfer.{DataChunk, Template, EdmaTransfer, is_accepted, accepts_direction}
use akida_dw_edma.Edma.Transfer.Build.{linked, queued, device_transfer}
use akida_dw_edma.Edma.Transfer.Filled.{all_bursts, IsBuilt}
use akida_dw_edma.Edma.Transfer.Contents.{build_desc-IsBuilt}
use akida_dw_edma.Edma.Transfer.Addresses.{IsRegular, Asks, emitted-Asks}
use akida_dw_edma.Edma.Transfer.Accounts.{Paid, build_desc-Paid}

module _ (src_icg dst_icg : Template → DataChunk → ℕ) (fails : ℕ → Bool) (chip : Chip)
    (v : VchanOps Desc) where
  open v use {Vc, tx_prep, allocated, allocated-tx_prep}

  -- What a caller sees: NULL, with the channel and the number of live objects as they were, or
  -- a descriptor, which is queued as allocated, and whose objects are the only new ones.
  abbrev pub Outcome : Chan Vc → EdmaTransfer → Heap → Option Desc × Chan Vc × Heap → Type 0
  Outcome ch t h (none, ch', h') = (ch' ≡ ch) × (h'.live ≡ h.live)
  Outcome ch t h (some d, ch', h') =
      (is_accepted chip ch t ≡ true)
      × (ch' ≡ record ch { vc = tx_prep d ch.vc })
      × (allocated ch'.vc ≡ allocated ch.vc ++ d ∷ [])
      × (h'.live ≡ h.live + weight d)

  queued-Outcome :
      (ch : Chan Vc) (t : EdmaTransfer) (h : Heap) (r : Option Desc × Heap)
      → is_accepted chip ch t ≡ true
      → Paid h r
      → Outcome ch t h (queued src_icg dst_icg fails chip v ch r)
  unfolding queued
  queued-Outcome ch t h (none, h') a e = (refl, e)
  queued-Outcome ch t h (some d, h') a e = (a, refl, allocated-tx_prep d ch.vc, e)

  -- `dw_edma_device_transfer` returns NULL and changes neither the channel nor the number of
  -- live objects, or it returns a descriptor for a transfer that passed the tests, queued behind
  -- the channel's allocated ones, whose objects are the only new ones.
  pub device_transfer-Outcome :
      (ch : Chan Vc) (t : EdmaTransfer) (h : Heap)
      → Outcome ch t h (device_transfer src_icg dst_icg fails chip v ch t h)
  unfolding device_transfer
  device_transfer-Outcome ch t h = elim (Bool-cases (is_accepted chip ch t)) [
    | inl passed ↦ rw passed (
        queued-Outcome ch t h _ passed (
          build_desc-Paid src_icg dst_icg fails chip ch.dir ch.id ch.ll_max ch.config t.xfer
            t.direction h))
    | inr refused ↦ rw refused (refl, refl)
  ]

  queued-some :
      (ch : Chan Vc) (r : Option Desc × Heap) {d : Desc} {ch' : Chan Vc} {h' : Heap}
      → queued src_icg dst_icg fails chip v ch r ≡ (some d, ch', h')
      → r ≡ (some d, h')
  unfolding queued
  queued-some ch (none, h) e = ground arith
  queued-some ch (some d, h) e = ground arith

  -- A transfer that passes the tests is from the device or to it.
  neither :
      (local : Bool) (cdir : Dir) (dir : XferDirection)
      → is_dev_to_mem dir ≡ false
      → is_mem_to_dev dir ≡ false
      → accepts_direction local cdir dir ≡ false
  unfolding accepts_direction
  neither true write dir a b = rw b refl
  neither true read dir a b = rw a refl
  neither false write dir a b = rw a refl
  neither false read dir a b = rw b refl

  is_accepted-direction :
      (ch : Chan Vc) (t : EdmaTransfer)
      → is_accepted chip ch t ≡ true
      → (t.direction ≡ dev_to_mem) ⊎ (t.direction ≡ mem_to_dev)
  unfolding is_accepted
  is_accepted-direction ch t e = by_direction t.direction refl
    where
      no :
          (dir : XferDirection)
          → t.direction ≡ dir
          → is_dev_to_mem dir ≡ false
          → is_mem_to_dev dir ≡ false
          → ⊥
      no dir h a b =
          let refused =
            ap (accepts_direction (is_local chip) ch.dir) h
            ∙ neither (is_local chip) ch.dir dir a b in
          ground (arith, e, refused)

      by_direction :
          (dir : XferDirection)
          → t.direction ≡ dir
          → (t.direction ≡ dev_to_mem) ⊎ (t.direction ≡ mem_to_dev)
      by_direction dev_to_mem h = inl h
      by_direction mem_to_dev h = inr h
      by_direction mem_to_mem h = absurd (no mem_to_mem h refl refl)
      by_direction dev_to_dev h = absurd (no dev_to_dev h refl refl)

  -- A descriptor that `dw_edma_device_transfer` returns holds, over all its chunks and in order,
  -- exactly the bursts that the transfer asks for: their addresses, sizes and number are those that
  -- its scatterlist, its periods or the frames of its template give, from the address of the
  -- device on the bus on. Each chunk is counted and measured right and has at most `ll_max` bursts,
  -- and `alloc_sz` is the sum of all sizes (as a u32). The channel's `ll_max` is a u32 and not 0,
  -- and a template has `frame_size` entries and less than 2 ^ 32 bursts in its frames.
  pub device_transfer-IsBuilt :
      (ch : Chan Vc) (t : EdmaTransfer) (h : Heap) {d : Desc} {ch' : Chan Vc} {h' : Heap}
      → 0 < ch.ll_max
      → ch.ll_max < 2 ^ 32
      → IsRegular src_icg dst_icg t.xfer
      → device_transfer src_icg dst_icg fails chip v ch t h ≡ (some d, ch', h')
      → IsBuilt ch.ll_max d
        × Asks src_icg dst_icg chip ch.config t.xfer t.direction (all_bursts (linked d))
  unfolding device_transfer
  device_transfer-IsBuilt ch t h pos big regular e = elim (Bool-cases (is_accepted chip ch t)) [
    | inl passed ↦
        let (built, all) =
          build_desc-IsBuilt src_icg dst_icg fails chip ch.dir ch.id ch.ll_max ch.config t.xfer
            t.direction h pos big (queued-some ch _ (rw passed at e)) in
        (
          built,
          subst (Asks src_icg dst_icg chip ch.config t.xfer t.direction) (sym all) (
              emitted-Asks src_icg dst_icg chip ch.config t.xfer t.direction regular
                (is_accepted-direction ch t passed)),
        )
    | inr refused ↦ cc (ap (λ (r : Option Desc × Chan Vc × Heap). r.0) (rw refused at e))
  ]
