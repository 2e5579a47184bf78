-- ===== src/V0/Debugfs/Reads.antt =====
-- akida-dw-edma/dw-edma-v0-debugfs.c: a file is read as the driver reads the register.
use Prim.Native.Nat.{bit_or}
use akida_dw_edma.Base.{
  ℕ, zero, suc, ◌+◌, ◌%◌, ◌<◌, Bool, true, false, ◌&&◌, leb, if◌then◌else◌, List, [], ◌∷◌, ◌++◌,
  map, ◌≡◌, refl, arith, All,
}
use akida_dw_edma.Base.Bits.{bit}
use akida_dw_edma.Mmio.{Bus}
use akida_dw_edma.Edma.{
  Dir, write, read, MapFormat, edma_legacy, edma_unroll, hdma_compat, hdma_native,
}
use akida_dw_edma.V0.Regs.{ch_regs, offset, pwr_en}
use akida_dw_edma.V0.Control.{is_legacy, is_compat, select}
use akida_dw_edma.V0.Debugfs.{
  Entry, u32_get, ch_offsets, regs_ch, global_regs, unroll_regs, legacy_ch,
}

-- The viewport's word for a write and for a read channel, its parts in either order.
viewport_eq : (c : ℕ) → c < 8 → (bit_or 0 c ≡ c) × (bit_or (bit 31) c ≡ bit_or c (bit 31))
viewport_eq zero h = (refl, refl)
viewport_eq (suc zero) h = (refl, refl)
viewport_eq (suc (suc zero)) h = (refl, refl)
viewport_eq (suc (suc (suc zero))) h = (refl, refl)
viewport_eq (suc (suc (suc (suc zero)))) h = (refl, refl)
viewport_eq (suc (suc (suc (suc (suc zero))))) h = (refl, refl)
viewport_eq (suc (suc (suc (suc (suc (suc zero)))))) h = (refl, refl)
viewport_eq (suc (suc (suc (suc (suc (suc (suc zero))))))) h = (refl, refl)
viewport_eq (suc (suc (suc (suc (suc (suc (suc (suc c)))))))) h = absurd (omega arith)

All-of {ℓ κ} : {A : Type ℓ} (P : A → Type κ) (xs : List A) → ((x : A) → P x) → All P xs
All-of P [] f = tt
All-of P (x ∷ xs) f = (f x, All-of P xs f)

module _ {H : Type 0} (bus : Bus H) (base : ℕ) (local : Bool) where
  abbrev pub ReadsChannel : MapFormat → Dir → ℕ → Entry → Type 0
  ReadsChannel mf dir ch e =
      (h : H)
      → u32_get bus base mf e h ≡ bus.readl (base + e.reg) (select bus base local mf dir ch h)

  abbrev pub ReadsPlain : MapFormat → Entry → Type 0
  ReadsPlain mf e = (h : H) → u32_get bus base mf e h ≡ bus.readl (base + e.reg) h

  shown : (r : ℕ) → leb legacy_ch (legacy_ch + r) ≡ true
  shown r = ground arith

  channel_file :
      (mf : MapFormat) (dir : Dir) (ch r : ℕ)
      → ReadsChannel mf dir ch (record { reg = ch_regs mf dir ch + r; dir = dir; ch = ch })
  unfolding u32_get select ch_regs
  channel_file edma_legacy write ch r h = rw (shown r, (viewport_eq (ch % 8) (omega arith)).0) refl
  channel_file edma_legacy read ch r h = rw (shown r, (viewport_eq (ch % 8) (omega arith)).1) refl
  channel_file edma_unroll dir ch r h = refl
  channel_file hdma_compat dir ch r h = refl
  channel_file hdma_native dir ch r h = refl

  channel_files :
      (mf : MapFormat) (dir : Dir) (ch : ℕ) (rs : List ℕ)
      → All
          (ReadsChannel mf dir ch)
          (map (λ r. record { reg = ch_regs mf dir ch + r; dir = dir; ch = ch }) rs)
  channel_files mf dir ch [] = tt
  channel_files mf dir ch (r ∷ rs) = (channel_file mf dir ch r, channel_files mf dir ch rs)

  -- Registers below the window of the legacy format, and all registers of the other formats.
  plain_files :
      (mf : MapFormat) (es : List Entry)
      → All (λ (e : Entry). (is_legacy mf && leb legacy_ch e.reg) ≡ false) es
      → All (ReadsPlain mf) es
  unfolding u32_get
  plain_files mf [] h = tt
  plain_files mf (e ∷ es) h = ((λ s. rw h.0 refl), plain_files mf es h.1)

  global_files :
      (mf : MapFormat) (dir : Dir)
      → All
          (λ (e : Entry). (is_legacy mf && leb legacy_ch e.reg) ≡ false)
          (global_regs dir ++ (if is_compat mf then unroll_regs dir else []))
  unfolding global_regs offset unroll_regs pwr_en
  global_files edma_legacy write = ground arith
  global_files edma_legacy read = ground arith
  global_files edma_unroll dir = All-of _ _ (λ e. refl)
  global_files hdma_compat dir = All-of _ _ (λ e. refl)
  global_files hdma_native dir = All-of _ _ (λ e. refl)

  -- A read of a channel's debugfs file makes the accesses that `readl_ch` makes for its register,
  -- with the viewport on that channel in the legacy format. A read of any other file
  -- of a direction is one read of its register, and leaves the viewport alone.
  pub u32_get-reads :
      (mf : MapFormat) (dir : Dir) (ch : ℕ)
      → All (ReadsChannel mf dir ch) (regs_ch mf dir ch)
        × All (ReadsPlain mf) (global_regs dir ++ (if is_compat mf then unroll_regs dir else []))
  unfolding regs_ch
  u32_get-reads mf dir ch =
      (channel_files mf dir ch ch_offsets, plain_files mf _ (global_files mf dir))
