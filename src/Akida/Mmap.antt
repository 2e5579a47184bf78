-- ===== src/Akida/Mmap.antt =====
-- akida-pcie-core.c: `akida_1000_mmap`, `akida_1500_mmap` and `akida_mmap`: which device memory a
-- process may map. Offsets and sizes are in pages of 2 ^ 12 bytes, and unsigned long has 64 bits.
use akida_dw_edma.Base.{
  ℕ, ◌+◌, ◌-◌, ◌/◌, ◌≤◌, ◌<◌, Bool, ◌&&◌, not, ◌==◌, leb, ltb, u64, if◌then◌else◌, arith, Option,
  none, some, if-elim, ◌≡◌, true, ◌*◌, ◌^◌, ◌%◌, ◌⊎◌, inl, inr, false,
}

pub data Bar : Type 0 where
  bar_0 bar_2 bar_4 : Bar

-- `pci_resource_start`, `pci_resource_len` and `pci_resource_flags & IORESOURCE_MEM`, and the size
-- of the host memory.
pub record Resources : Type 0 where
  pub bar_start : Bar → ℕ
  pub bar_len : Bar → ℕ
  pub is_mem : Bar → Bool
  pub ddr_size : ℕ

-- What is mapped: the pages of a BAR from an offset on, given to `io_remap_pfn_range` as a page
-- frame; or pages of the host memory from an offset on, by `dma_mmap_attrs`, which is also given the
-- size of that memory.
pub data Mapping : Type 0 where
  io_remap : Bar → (offset pfn : ℕ) → Mapping
  dma_mmap : (offset size : ℕ) → Mapping

-- `((len - 1) >> PAGE_SHIFT) + 1`, where 0 - 1 wraps.
abbrev pub pages_of : ℕ → ℕ
pages_of len = u64 (len + 18446744073709551615) / 4096 + 1

-- `akida_mmap`
unfoldable pub akida_mmap : Resources → Bar → ℕ → Mapping
akida_mmap r bar pgoff = io_remap bar pgoff (u64 (pgoff + r.bar_start bar / 4096))

-- `akida_1000_mmap`; `none` is -EINVAL.
unfoldable pub mmap_1000 : Resources → ℕ → ℕ → Option Mapping
mmap_1000 r pgoff pages =
    if not (r.is_mem bar_0)
    then none
    else (if ltb (pages_of (r.bar_len bar_0)) (u64 (pgoff + pages))
        then none
        else some (akida_mmap r bar_0 pgoff))

-- The first page of each window of `akida_1500_mmap`.
abbrev pub start_bar_2 : ℕ
start_bar_2 = 0xfcc00

abbrev pub start_bar_4 : ℕ
start_bar_4 = 0x20000

abbrev pub start_ddr : ℕ
start_ddr = 0xc0000

-- Whether the pages lie in a window.
abbrev pub in_window : ℕ → ℕ → ℕ → ℕ → Bool
in_window start size pgoff pages = leb start pgoff && leb (u64 (pgoff + pages)) (u64 (start + size))

abbrev pub mmap_bar : Resources → Bar → ℕ → Option Mapping
mmap_bar r bar pgoff = if not (r.is_mem bar) then none else some (akida_mmap r bar pgoff)

-- `akida_1500_mmap`; `none` is -EINVAL.
unfoldable pub mmap_1500 : Resources → ℕ → ℕ → Option Mapping
mmap_1500 r pgoff pages =
    if in_window start_bar_2 (pages_of (r.bar_len bar_2)) pgoff pages
    then mmap_bar r bar_2 (pgoff - start_bar_2)
    else (if in_window start_bar_4 (pages_of (r.bar_len bar_4)) pgoff pages
        then mmap_bar r bar_4 (pgoff - start_bar_4)
        else (if not (r.ddr_size == 0) && in_window start_ddr (pages_of r.ddr_size) pgoff pages
            then some (dma_mmap (pgoff - start_ddr) 0xc0000000)
            else none))

-- The first page of the device that shows a BAR, and of the one that shows the host memory.
abbrev first_page : Bar → ℕ
first_page bar_0 = 0
first_page bar_2 = 0xfcc00
first_page bar_4 = 0x20000

-- A request for so many pages of the device from page `pgoff` on maps just these: those of a BAR
-- of memory, from the frames at the distance from the start of the BAR that the request has from
-- the page of the device that shows it, and no page after the last of the BAR; or those of the host
-- memory in the same way. An empty BAR counts 2 ^ 52 pages, as in the code. The size of the host
-- memory that the code passes on is no size of it, but the address at which the device shows it.
abbrev pub IsInside : Type 0 → Resources → ℕ → ℕ → Option Mapping → Type 0
IsInside refused r pgoff pages none = refused
IsInside refused r pgoff pages (some (io_remap bar off pfn)) =
    (first_page bar + off ≡ pgoff)
    × (pfn ≡ (r.bar_start bar / 4096 + off) % 2 ^ 64)
    × (off + pages ≤ pages_of (r.bar_len bar))
    × (r.is_mem bar ≡ true)
IsInside refused r pgoff pages (some (dma_mmap off size)) =
    (0xc0000 + off ≡ pgoff)
    × (off + pages ≤ pages_of r.ddr_size)
    × (0 < r.ddr_size)
    × (size ≡ 0xc0000 * 4096)

-- The pages lie among so many from a first one on.
abbrev Among : ℕ → ℕ → ℕ → ℕ → Type 0
Among start size pgoff pages = (start ≤ pgoff) × (pgoff + pages ≤ start + size)

abbrev AmongBar : Resources → ℕ → ℕ → Bar → Type 0
AmongBar r pgoff pages bar = Among (first_page bar) (pages_of (r.bar_len bar)) pgoff pages

-- A request is refused that lies in a BAR that is no memory, or in no BAR and not in the host
-- memory.
abbrev pub Refused1500 : Resources → ℕ → ℕ → Type 0
Refused1500 r pgoff pages =
    ((bar : Bar) × AmongBar r pgoff pages bar × (r.is_mem bar ≡ false))
    ⊎ ((¬ AmongBar r pgoff pages bar_2)
        × (¬ AmongBar r pgoff pages bar_4)
        × (0 < r.ddr_size → ¬ Among 0xc0000 (pages_of r.ddr_size) pgoff pages))

abbrev pub Refused1000 : Resources → ℕ → ℕ → Type 0
Refused1000 r pgoff pages = (r.is_mem bar_0 ≡ false) ⊎ (¬ AmongBar r pgoff pages bar_0)

-- The same for the older device, whose pages are those of BAR 0.
pub mmap_1000-IsInside :
    (r : Resources) (pgoff pages : ℕ)
    → pgoff + pages < 18446744073709551616
    → IsInside (Refused1000 r pgoff pages) r pgoff pages (mmap_1000 r pgoff pages)
unfolding mmap_1000 akida_mmap
mmap_1000-IsInside r pgoff pages h =
    let P = IsInside (Refused1000 r pgoff pages) r pgoff pages in
    if-elim P (not (r.is_mem bar_0)) (λ n. inl (ground arith))
      (λ m.
        if-elim P (ltb (pages_of (r.bar_len bar_0)) (u64 (pgoff + pages)))
          (λ out. inr (λ w. ground arith))
          (λ fits. (ground arith, ground arith, ground arith, ground arith)))
