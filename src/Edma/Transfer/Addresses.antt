-- ===== src/Edma/Transfer/Addresses.antt =====
-- The bursts that a transfer asks for, described without the loop of `dw_edma_device_transfer`.
use akida_dw_edma.Base.{
  ℕ, zero, suc, ◌+◌, ◌*◌, ◌%◌, ◌^◌, ◌<◌, List, [], ◌∷◌, Bool, true, false, ◌≡◌, refl, sym, ap,
  subst, ◌∙◌, take, arith, u32, u64, replicate, length, get_or, if◌then◌else◌, none, some, inl, inr,
  ap₂, ◌⊎◌,
}
use akida_dw_edma.Edma.{
  Burst, Chip, SlaveConfig, XferDirection, mem_to_dev, dev_to_mem, mem_to_mem, dev_to_dev,
}
use akida_dw_edma.Edma.Transfer.Repeated.{repeated, get_or-repeated, length-repeated}
use akida_dw_edma.Edma.Transfer.{
  SgEntry, DataChunk, Template, Xfer, scatter_gather, cyclic, interleaved, Cursor, burst_at,
  advance, data_at, zero_data, start_cursor, start_addresses, burst_count, get_pci_address,
}
use akida_dw_edma.Edma.Transfer.Contents.{emitted}

-- One burst for each entry, from device memory that runs on without gaps from address `a`.
abbrev pub FromDevice : ℕ → List SgEntry → List Burst → Type 0
FromDevice a [] bs = bs ≡ []
FromDevice a (e ∷ sg) [] = ⊥
FromDevice a (e ∷ sg) (b ∷ bs) =
    (b.sar ≡ a) × (b.dar ≡ e.address) × (b.sz ≡ e.len) × FromDevice (u64 (a + e.len)) sg bs

-- One burst for each entry, into device memory that runs on without gaps from address `a`.
abbrev pub ToDevice : ℕ → List SgEntry → List Burst → Type 0
ToDevice a [] bs = bs ≡ []
ToDevice a (e ∷ sg) [] = ⊥
ToDevice a (e ∷ sg) (b ∷ bs) =
    (b.dar ≡ a) × (b.sar ≡ e.address) × (b.sz ≡ e.len) × ToDevice (u64 (a + e.len)) sg bs

-- The bus address that the device has at an address of its own.
abbrev pub bus_address : Chip → ℕ → ℕ
bus_address chip a = elim chip.pci_address [ none ↦ a | some f ↦ f a ]

module _ (src_icg dst_icg : Template → DataChunk → ℕ) where
  -- One burst for each piece of data, each of its size. Behind each the addresses go on by the
  -- size, and over the gap of the piece on a side that has gaps.
  abbrev pub Strided : Template → ℕ → ℕ → List DataChunk → List Burst → Type 0
  Strided il a d [] bs = bs ≡ []
  Strided il a d (c ∷ cs) [] = ⊥
  Strided il a d (c ∷ cs) (b ∷ bs) =
      (b.sar ≡ a)
      × (b.dar ≡ d)
      × (b.sz ≡ u32 c.size)
      × Strided il (u64 (u64 (a + u32 c.size) + (if il.src_sgl then src_icg il c else 0)))
          (u64 (u64 (d + u32 c.size) + (if il.dst_sgl then dst_icg il c else 0))) cs bs

  -- What a transfer asks for. The device's side of each burst begins at its address in the
  -- configuration of the channel, or at that of the template, on the bus. A scatterlist asks for
  -- its entries in order, as many as it counts; a cyclic transfer for all its periods in the same
  -- buffer; a template for its frames, each with all its entries in order.
  abbrev pub Asks : Chip → SlaveConfig → Xfer → XferDirection → List Burst → Type 0
  Asks chip config (scatter_gather sgl n) dev_to_mem bs =
      FromDevice (bus_address chip config.src_addr) (take (n % 2 ^ 32) sgl) bs
  Asks chip config (scatter_gather sgl n) mem_to_dev bs =
      ToDevice (bus_address chip config.dst_addr) (take (n % 2 ^ 32) sgl) bs
  Asks chip config (cyclic paddr len n) dev_to_mem bs =
      bs
      ≡ replicate (n % 2 ^ 32)
          (record { sar = bus_address chip config.src_addr; dar = paddr; sz = len % 2 ^ 32 })
  Asks chip config (cyclic paddr len n) mem_to_dev bs =
      bs
      ≡ replicate (n % 2 ^ 32)
          (record { sar = paddr; dar = bus_address chip config.dst_addr; sz = len % 2 ^ 32 })
  Asks chip config (interleaved il) dev_to_mem bs =
      Strided il (bus_address chip il.src_start) il.dst_start (repeated il.numf il.sgl) bs
  Asks chip config (interleaved il) mem_to_dev bs =
      Strided il il.src_start (bus_address chip il.dst_start) (repeated il.numf il.sgl) bs
  Asks chip config x mem_to_mem bs = ⊥
  Asks chip config x dev_to_dev bs = ⊥

  -- A template has `frame_size` entries, and its bursts are counted in 32 bits.
  abbrev pub IsRegular : Xfer → Type 0
  IsRegular (scatter_gather sgl n) = Unit
  IsRegular (cyclic paddr len n) = Unit
  IsRegular (interleaved il) = (length il.sgl ≡ il.frame_size) × (il.numf * il.frame_size < 2 ^ 32)

  module _ (sgl : List SgEntry) (len : ℕ) where
    emitted-FromDevice :
        (n i a dst : ℕ) (sg : List SgEntry)
        → FromDevice a (take n sg) (
            emitted src_icg dst_icg
              (scatter_gather sgl len)
              dev_to_mem
              n
              i
              (record { src = a; dst = dst; sg = sg }))
    unfolding emitted burst_at advance
    emitted-FromDevice zero i a dst sg = refl
    emitted-FromDevice (suc n) i a dst [] = refl
    emitted-FromDevice (suc n) i a dst (e ∷ sg) =
        (refl, refl, refl, emitted-FromDevice n (suc i) (u64 (a + e.len)) dst sg)

    emitted-ToDevice :
        (n i a src : ℕ) (sg : List SgEntry)
        → ToDevice a (take n sg) (
            emitted src_icg dst_icg
              (scatter_gather sgl len)
              mem_to_dev
              n
              i
              (record { src = src; dst = a; sg = sg }))
    unfolding emitted burst_at advance
    emitted-ToDevice zero i a src sg = refl
    emitted-ToDevice (suc n) i a src [] = refl
    emitted-ToDevice (suc n) i a src (e ∷ sg) =
        (refl, refl, refl, emitted-ToDevice n (suc i) (u64 (a + e.len)) src sg)

  -- A cyclic transfer asks for the same burst over and over.
  emitted-cyclic :
      (paddr len cnt n i : ℕ) (dir : XferDirection) (c : Cursor)
      → emitted src_icg dst_icg (cyclic paddr len cnt) dir n i c
        ≡ replicate n (burst_at (cyclic paddr len cnt) dir i c)
  unfolding emitted burst_at advance
  emitted-cyclic paddr len cnt zero i dir c = refl
  emitted-cyclic paddr len cnt (suc n) i dir c =
      ap (◌∷◌ (burst_at (cyclic paddr len cnt) dir i c))
        (emitted-cyclic paddr len cnt n (suc i) dir c)

  -- A gap of 0 is no gap.
  gap_lem :
      (on : Bool) (x g : ℕ)
      → (if on then u64 (u64 x + g) else u64 x) ≡ u64 (u64 x + (if on then g else 0))
  gap_lem true x g = refl
  gap_lem false x g = omega arith

  -- Where the addresses are behind a piece of data.
  abbrev beyond : Bool → ℕ → ℕ → ℕ → ℕ
  beyond on x size gap = u64 (u64 (x + size) + (if on then gap else 0))

  advance_lem :
      (il : Template) (dir : XferDirection) (i a d : ℕ) (sg : List SgEntry) (c : DataChunk)
      → data_at il i ≡ c
      → advance src_icg dst_icg (interleaved il) dir i (record { src = a; dst = d; sg = sg })
        ≡ record {
          src = beyond il.src_sgl a (u32 c.size) (src_icg il c);
          dst = beyond il.dst_sgl d (u32 c.size) (dst_icg il c);
          sg = sg;
        }
  unfolding advance
  advance_lem il dir i a d sg c here =
      ap
        (λ (x : DataChunk). record {
          src =
              if il.src_sgl
              then u64 (u64 (a + u32 x.size) + src_icg il x)
              else u64 (a + u32 x.size);
          dst =
              if il.dst_sgl
              then u64 (u64 (d + u32 x.size) + dst_icg il x)
              else u64 (d + u32 x.size);
          sg = sg;
        })
        here
      ∙ (λ j. record {
        src = gap_lem il.src_sgl (a + u32 c.size) (src_icg il c) j;
        dst = gap_lem il.dst_sgl (d + u32 c.size) (dst_icg il c) j;
        sg = sg;
      })

  -- The rounds from round `i` on ask for these pieces of data, where `data_at` finds them there.
  emitted-Strided :
      (il : Template) (dir : XferDirection) (ds : List DataChunk) (i a d : ℕ) (sg : List SgEntry)
      → ((k : ℕ) → k < length ds → data_at il (k + i) ≡ get_or ds k zero_data)
      → Strided il a d ds (
          emitted src_icg dst_icg
            (interleaved il)
            dir
            (length ds)
            i
            (record { src = a; dst = d; sg = sg }))
  unfolding emitted burst_at
  emitted-Strided il dir [] i a d sg h = refl
  emitted-Strided il dir (c ∷ ds) i a d sg h =
      let here : data_at il i ≡ c = ap (data_at il) (omega arith) ∙ h 0 (omega arith) in
      let a' = beyond il.src_sgl a (u32 c.size) (src_icg il c) in
      let d' = beyond il.dst_sgl d (u32 c.size) (dst_icg il c) in
      let rest : Strided il a' d' ds (
          emitted src_icg dst_icg (interleaved il) dir (length ds) (suc i)
            (record { src = a'; dst = d'; sg = sg })) =
        emitted-Strided il dir ds (suc i) a' d' sg
          (λ k l. ap (data_at il) (omega arith) ∙ h (suc k) (omega arith)) in
      (
        refl,
        refl,
        ap (λ (x : DataChunk). u32 x.size) here,
        subst
            (λ q.
              Strided il a' d' ds
                (emitted src_icg dst_icg (interleaved il) dir (length ds) (suc i) q))
            (sym (advance_lem il dir i a d sg c here)) rest,
      )

  -- The pieces of all frames.
  data_at-repeated :
      (il : Template) (k : ℕ)
      → length il.sgl ≡ il.frame_size
      → k < length (repeated il.numf il.sgl)
      → data_at il (k + 0) ≡ get_or (repeated il.numf il.sgl) k zero_data
  data_at-repeated il k h l =
      ap₂ (λ m n. get_or il.sgl (m % n) zero_data) (omega arith) (sym h)
      ∙ sym (get_or-repeated il.numf il.sgl k zero_data l)

  interleaved-Strided :
      (il : Template) (dir : XferDirection) (a d : ℕ) (sg : List SgEntry)
      → IsRegular (interleaved il)
      → Strided il a d (repeated il.numf il.sgl) (
          emitted src_icg dst_icg
            (interleaved il)
            dir
            (burst_count (interleaved il))
            0
            (record { src = a; dst = d; sg = sg }))
  unfolding burst_count
  interleaved-Strided il dir a d sg (sized, small) =
      let counted : length (repeated il.numf il.sgl) ≡ u32 (il.numf * il.frame_size) =
        length-repeated il.numf il.sgl ∙ ap (λ n. il.numf * n) sized ∙ omega (arith, small) in
      subst
        (λ n.
          Strided il a d (repeated il.numf il.sgl) (
            emitted src_icg dst_icg (interleaved il) dir n 0
              (record { src = a; dst = d; sg = sg })))
        counted
        (emitted-Strided il dir (repeated il.numf il.sgl) 0 a d sg
          (λ k l. data_at-repeated il k sized l))

  -- What the rounds ask for is what the transfer asks for.
  pub emitted-Asks :
      (chip : Chip) (config : SlaveConfig) (x : Xfer) (dir : XferDirection)
      → IsRegular x
      → (dir ≡ dev_to_mem) ⊎ (dir ≡ mem_to_dev)
      → Asks chip config x dir
          (emitted src_icg dst_icg x dir (burst_count x) 0 (start_cursor chip config x dir))
  unfolding start_cursor start_addresses burst_count burst_at get_pci_address
  emitted-Asks chip config x mem_to_mem r (inl e) = cc e
  emitted-Asks chip config x mem_to_mem r (inr e) = cc e
  emitted-Asks chip config x dev_to_dev r (inl e) = cc e
  emitted-Asks chip config x dev_to_dev r (inr e) = cc e
  emitted-Asks chip config (scatter_gather sgl n) dev_to_mem r e =
      emitted-FromDevice sgl n (u32 n) 0 _ _ sgl
  emitted-Asks chip config (scatter_gather sgl n) mem_to_dev r e =
      emitted-ToDevice sgl n (u32 n) 0 _ _ sgl
  emitted-Asks chip config (cyclic paddr len n) dev_to_mem r e =
      emitted-cyclic paddr len n (u32 n) 0 dev_to_mem _
  emitted-Asks chip config (cyclic paddr len n) mem_to_dev r e =
      emitted-cyclic paddr len n (u32 n) 0 mem_to_dev _
  emitted-Asks chip config (interleaved il) dev_to_mem r e =
      interleaved-Strided il dev_to_mem _ _ [] r
  emitted-Asks chip config (interleaved il) mem_to_dev r e =
      interleaved-Strided il mem_to_dev _ _ [] r
