-- ===== src/Akida/Regions.antt =====
-- akida-pcie-core.c: what `akida_probe` tells the eDMA core, with the linked list memory of each
-- channel.
pub mod Separate
use akida_dw_edma.Base.{ℕ, zero, suc, ◌+◌, List, [], ◌∷◌, Option, none, some}
use akida_dw_edma.Edma.{Dir, write, read, Region, Chip, MapFormat}
use akida_dw_edma.Akida.File.{ram_addr}

-- In a build without CFG_AKIDA_DMA_RAM_PHY: AKIDA_DMA_RAM_PHY_LL_OFFSET, with TX for the write and RX for the read channels.
unfoldable pub ll_offset : Dir → ℕ → ℕ
ll_offset write zero = 0x00
ll_offset write (suc id) = 0x40
ll_offset read zero = 0x80
ll_offset read (suc id) = 0xc0

-- AKIDA_DMA_RAM_PHY_LL_SIZE, in such a build
abbrev pub ll_size : ℕ
ll_size = 0x40

-- A linked list region and a data region of a channel, in the memory at BAR 4.
abbrev pub ll_region : ℕ → Dir → ℕ → Region
ll_region bar4 dir id = record {
  paddr = ram_addr + ll_offset dir id;
  vaddr = bar4 + ll_offset dir id;
  sz = ll_size;
}

abbrev pub dt_region : ℕ → Region
dt_region bar4 = record { paddr = ram_addr; vaddr = bar4; sz = 0 }

-- `edma_chip` of a device, from zero, with the address of BAR 4 and `pci_irq_vector`.
unfoldable pub edma_chip : ℕ → (ℕ → ℕ) → MapFormat → Chip
unfolding ll_offset
edma_chip bar4 irq_vector mf = record {
  nr_irqs = 1;
  irq_vector = some irq_vector;
  pci_address = none;
  flags = 0;
  ll_wr_cnt = 2;
  ll_rd_cnt = 2;
  ll_region_wr = ll_region bar4 write 0 ∷ ll_region bar4 write 1 ∷ [];
  ll_region_rd = ll_region bar4 read 0 ∷ ll_region bar4 read 1 ∷ [];
  dt_region_wr = dt_region bar4 ∷ dt_region bar4 ∷ [];
  dt_region_rd = dt_region bar4 ∷ dt_region bar4 ∷ [];
  mf = mf;
}
