-- ===== src/Akida/File.antt =====
-- akida-pcie-core.c: `akida_is_allowed`, and the loops of `akida_read` and `akida_write`.
pub mod Pieces
pub mod Moves
use akida_dw_edma.Base.{
  ℕ, zero, suc, ◌+◌, ◌-◌, ◌*◌, ◌%◌, ◌<◌, ◌≤◌, Bool, true, false, ◌||◌, not, ◌==◌, ltb, leb, u64,
  if◌then◌else◌, ◌≡◌, refl, ◌⊎◌, inl, inr, arith, Bool-cases,
}
use akida_dw_edma.Edma.{
  Errno, success, is_success, einval, enomem, efault, XferDirection, dev_to_mem, mem_to_dev,
}
use akida_dw_edma.Akida.Transfer.{DmaEngine, dma_transfer}

-- The reserved memory of a build without CFG_AKIDA_DMA_RAM_PHY.
abbrev pub ram_addr : ℕ
ram_addr = 0x20000000

abbrev pub ram_size : ℕ
ram_size = 0x100

abbrev pub xfer_max : ℕ
xfer_max = 1024

-- `akida_is_allowed`; the sum of an address and a size is one of 64 bits.
unfoldable pub is_allowed : ℕ → ℕ → Bool
is_allowed addr size = ltb (u64 (addr + size)) ram_addr || leb (ram_addr + ram_size) addr

-- The size of the next piece.
unfoldable pub piece : ℕ → ℕ
piece left = if ltb xfer_max left then xfer_max else left

-- What a loop leaves: its error, the file position and the state.
pub record Moved (S : Type 0) : Type 0 where
  pub err : Errno
  pub ppos : ℕ
  pub state : S

module _ {S : Type 0} (round : ℕ → ℕ → S → Errno × S) where
  -- `while (left)`, with a round for each piece of at most `xfer_max` bytes.
  unfoldable pub move : ℕ → ℕ → ℕ → S → Moved S
  move zero left ppos s = record { err = success; ppos = ppos; state = s }
  move (suc fuel) left ppos s =
      let size = piece left in
      let (err, s') = round ppos size s in
      let later = move fuel (left - size) (u64 (ppos + size)) s' in
      if left == 0
      then record { err = success; ppos = ppos; state = s }
      else (if is_success err then later else record { err = err; ppos = ppos; state = s' })

-- The rest of the kernel that the two functions call: `kmalloc` and `kfree` of the buffer, the
-- acquisition of a channel (an error when a signal interrupts it) and its release, and the copy
-- to or from the user's buffer, which says whether it succeeded.
pub record FileOps (S : Type 0) : Type 0 where
  pub kmalloc : S → Bool × S
  pub kfree : S → S
  pub acquire : S → Errno × S
  pub release : S → S
  pub copy_user : ℕ → ℕ → S → Bool × S

module _ {S : Type 0} (f : FileOps S) where
  open f use {kmalloc, kfree, acquire, release}

  -- What the two functions share around the loop, with a round for each byte at most.
  unfoldable pub guarded : (ℕ → ℕ → S → Errno × S) → ℕ → ℕ → S → Moved S
  guarded round sz ppos s =
      let (ok, s₁) = kmalloc s in
      let (err, s₂) = acquire s₁ in
      let m = move round sz sz ppos s₂ in
      if not (is_allowed ppos sz)
      then record { err = einval; ppos = ppos; state = s }
      else (if not ok
          then record { err = enomem; ppos = ppos; state = s₁ }
          else (if is_success err
              then record m { state = kfree (release m.state) }
              else record { err = err; ppos = ppos; state = kfree s₂ }))

module _ {S : Type 0} (e : DmaEngine S) (f : FileOps S) where
  open f use {copy_user}

  -- The body of the loop of `akida_read`: the transfer, then the copy.
  unfoldable pub read_round : ℕ → ℕ → S → Errno × S
  read_round ppos size s =
      let (err, s₁) = dma_transfer e dev_to_mem ppos size s in
      let (ok, s₂) = copy_user ppos size s₁ in
      if is_success err then (if ok then (success, s₂) else (efault, s₂)) else (err, s₁)

  -- The body of the loop of `akida_write`: the copy, then the transfer.
  unfoldable pub write_round : ℕ → ℕ → S → Errno × S
  write_round ppos size s =
      let (ok, s₁) = copy_user ppos size s in
      if ok then dma_transfer e mem_to_dev ppos size s₁ else (efault, s₁)

  -- `akida_read`; on success it returns `sz`.
  unfoldable pub akida_read : ℕ → ℕ → S → Moved S
  akida_read sz ppos s = guarded f read_round sz ppos s

  -- `akida_write`; on success it returns `sz`.
  unfoldable pub akida_write : ℕ → ℕ → S → Moved S
  akida_write sz ppos s = guarded f write_round sz ppos s
