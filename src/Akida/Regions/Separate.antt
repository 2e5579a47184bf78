-- ===== src/Akida/Regions/Separate.antt =====
-- akida-pcie-core.c: the linked lists of the channels are apart from each other and from the memory
-- that readers and writers reach.
use akida_dw_edma.Base.{
  ℕ, zero, suc, ◌+◌, ◌*◌, ◌<◌, ◌≤◌, true, ◌≡◌, ◌≢◌, ◌⊎◌, inl, inr, refl, arith, get_or,
}
use akida_dw_edma.Edma.{Dir, write, read, Region, Chip, MapFormat}
use akida_dw_edma.Edma.Alloc.{zero_region}
use akida_dw_edma.Edma.Setup.{ll_max_of}
use akida_dw_edma.Akida.File.{is_allowed, ram_addr}
use akida_dw_edma.Akida.File.Moves.{is_allowed-beside}
use akida_dw_edma.Akida.Regions.{edma_chip}

-- The linked list memory that the core uses for a channel.
abbrev pub region_of : Chip → Dir → ℕ → Region
region_of chip write id = get_or chip.ll_region_wr id zero_region
region_of chip read id = get_or chip.ll_region_rd id zero_region

-- Two ranges have no address in common.
abbrev pub Apart : ℕ → ℕ → ℕ → ℕ → Type 0
Apart a n b m = (a + n ≤ b) ⊎ (b + m ≤ a)

abbrev pub AreApart : Region → Region → Type 0
AreApart r s = Apart r.paddr r.sz s.paddr s.sz × Apart r.vaddr r.sz s.vaddr s.sz

-- A chunk has one burst, and the channel's memory is apart from every range that a reader or writer
-- may name, whose end does not wrap, and from the memory of every other channel.
pub record IsSeparate (chip : Chip) (dir : Dir) (id : ℕ) : Type 0 where
  pub one_burst : ll_max_of chip dir id ≡ 1
  pub guarded :
      (addr size : ℕ)
      → is_allowed addr size ≡ true
      → addr + size < 18446744073709551616
      → Apart addr size (region_of chip dir id).paddr (region_of chip dir id).sz
  pub own :
      (dir' : Dir) (id' : ℕ)
      → id' < 2
      → (dir ≢ dir') ⊎ (id ≢ id')
      → AreApart (region_of chip dir id) (region_of chip dir' id')

module _ (bar4 : ℕ) (irq_vector : ℕ → ℕ) (mf : MapFormat) where
  abbrev chip : Chip
  chip = edma_chip bar4 irq_vector mf

  abbrev slot : Dir → ℕ → ℕ
  slot write id = 64 * id
  slot read id = 128 + 64 * id

  -- The regions stand in the reserved area one after the other.
  region_of-slot :
      (dir : Dir) (id : ℕ)
      → id < 2
      → region_of chip dir id
        ≡ record { paddr = ram_addr + slot dir id; vaddr = bar4 + slot dir id; sz = 64 }
  unfolding edma_chip
  region_of-slot write zero h = refl
  region_of-slot write (suc zero) h = refl
  region_of-slot read zero h = refl
  region_of-slot read (suc zero) h = refl
  region_of-slot write (suc (suc id)) h = absurd (omega arith)
  region_of-slot read (suc (suc id)) h = absurd (omega arith)

  slots-Apart :
      (dir dir' : Dir) (id id' base : ℕ)
      → id < 2
      → id' < 2
      → (dir ≢ dir') ⊎ (id ≢ id')
      → Apart (base + slot dir id) 64 (base + slot dir' id') 64
  slots-Apart dir dir' id id' base h h' (inl ne) = by_dir dir dir' ne
    where
      by_dir : (d d' : Dir) → d ≢ d' → Apart (base + slot d id) 64 (base + slot d' id') 64
      by_dir write write ne = absurd (ne refl)
      by_dir write read ne = inl (omega arith)
      by_dir read write ne = inr (omega arith)
      by_dir read read ne = absurd (ne refl)
  slots-Apart write write id id' base h h' (inr ne) = grind (arith, ne)
  slots-Apart write read id id' base h h' (inr ne) = inl (omega arith)
  slots-Apart read write id id' base h h' (inr ne) = inr (omega arith)
  slots-Apart read read id id' base h h' (inr ne) = grind (arith, ne)

  ll_max_of-one : (dir : Dir) (id : ℕ) → id < 2 → ll_max_of chip dir id ≡ 1
  unfolding ll_max_of
  ll_max_of-one write id h = rw (region_of-slot write id h) refl
  ll_max_of-one read id h = rw (region_of-slot read id h) refl

  -- For either of the two channels of a direction: a chunk has one burst, and the memory of the
  -- channel's linked list is apart from every range that akida_read and akida_write let through,
  -- whose end does not wrap, and from the memory of every other channel.
  pub edma_chip-IsSeparate :
      (dir : Dir) (id : ℕ) → id < 2 → IsSeparate (edma_chip bar4 irq_vector mf) dir id
  edma_chip-IsSeparate dir id h = record {
    one_burst = ll_max_of-one dir id h;
    guarded = λ addr size ok fits.
        let place = region_of-slot dir id h in rw place (beside dir addr size ok fits);
    own = λ dir' id' h' ne.
        let place = region_of-slot dir id h in
        let place' = region_of-slot dir' id' h' in
        rw (place, place')
          (slots-Apart dir dir' id id' ram_addr h h' ne, slots-Apart dir dir' id id' bar4 h h' ne);
  }
    where
      beside :
          (d : Dir) (addr size : ℕ)
          → is_allowed addr size ≡ true
          → addr + size < 18446744073709551616
          → Apart addr size (ram_addr + slot d id) 64
      beside write addr size ok fits = elim (is_allowed-beside addr size ok fits) [
        | inl low ↦ inl (omega (arith, low))
        | inr high ↦ inr (omega (arith, high, h))
      ]
      beside read addr size ok fits = elim (is_allowed-beside addr size ok fits) [
        | inl low ↦ inl (omega (arith, low))
        | inr high ↦ inr (omega (arith, high, h))
      ]
