-- ===== src/Tests/Carried.antt =====
-- Transfers of the PCIe driver through the eDMA core.
use akida_dw_edma.Base.{◌+◌, [], ◌≡◌, refl, false, true}
use akida_dw_edma.Edma.{
  write, read, dev_to_mem, mem_to_dev, Chunk, edma_legacy, is_complete, MsiMsg, SlaveConfig,
}
use akida_dw_edma.Akida.Transfer.{dma_transfer}
use akida_dw_edma.Akida.Regions.{edma_chip}
use akida_dw_edma.Akida.Engine.{engine}
use akida_dw_edma.Akida.Engine.Carried.{at_rest, system, IsCarried, dma_transfer-IsCarried}
use akida_dw_edma.Akida.Engine.Late.{IsLate, dma_transfer-IsLate}
use akida_dw_edma.V0.Control.{v0_core, ch_status, readl_ch, select}
use akida_dw_edma.Tests.Data.{core, heap}

abbrev message : MsiMsg
message = record { address_lo = 0xfee00000; address_hi = 0; msg_data = 0x21 }

abbrev no_config : SlaveConfig
no_config = record { src_addr = 0; dst_addr = 0 }

-- The eDMA core reads 256 bytes of the device on its second write channel.
dma_transfer-IsCarried_example :
    IsCarried core 0x80000
      (λ i. 32 + i)
      edma_legacy
      0x7000
      write
      1
      (record { sar = 0xfcc00000; dar = 0x7000; sz = 256 })
      []
      []
      0
      (dma_transfer
        (engine core (edma_chip 0x80000 (λ i. 32 + i) edma_legacy) (λ n. false) 0x7000 1)
        dev_to_mem
        0xfcc00000
        256
        (system core 0x80000
          (λ i. 32 + i)
          edma_legacy
          0x7000
          1
          (at_rest write 1 message no_config false [])
          []
          heap
          0))
dma_transfer-IsCarried_example =
    dma_transfer-IsCarried core 0x80000 (λ i. 32 + i) edma_legacy 0x7000 write 1 0xfcc00000 256
      message no_config false [] [] heap 0

-- The status registers of a device read 0: its channels are still running.
still_runs :
    (c : Chunk) → is_complete (core.ch_status read 0 (core.start read 0 c true [])).0 ≡ false
unfolding v0_core ch_status readl_ch select
still_runs c = refl

-- It is to write 64 bytes to the device, on its first read channel, and no interrupt comes.
dma_transfer-IsLate_example :
    IsLate core 0x80000
      (λ i. 32 + i)
      edma_legacy
      0x7000
      64
      []
      0
      (dma_transfer
        (engine core (edma_chip 0x80000 (λ i. 32 + i) edma_legacy) (λ n. false) 0x7000 0)
        mem_to_dev
        0xfcc00000
        64
        (system core 0x80000
          (λ i. 32 + i)
          edma_legacy
          0x7000
          0
          (at_rest read 0 message no_config false [])
          []
          heap
          0))
dma_transfer-IsLate_example =
    dma_transfer-IsLate core 0x80000 (λ i. 32 + i) edma_legacy 0x7000 read 0 0xfcc00000 64 message
      no_config false [] [] heap 0 still_runs
