-- ===== src/Tests/Bindings.antt =====
-- Probes of a board and its removal.
use akida_dw_edma.Base.{List, [], none, some, true, false, ◌≡◌, ◌<◌, refl, arith}
use akida_dw_edma.Mmio.{Access, Bus, observer}
use akida_dw_edma.Vchan.Lists.{Lists}
use akida_dw_edma.Edma.{read, Desc, edma_legacy}
use akida_dw_edma.Edma.Setup.{ch_cnt_of}
use akida_dw_edma.Edma.Setup.Masks.{cnt_of}
use akida_dw_edma.Edma.Probe.{Dw, probe}
use akida_dw_edma.Edma.Probe.Served.{IsServed}
use akida_dw_edma.V0.Control.{v0_core, ch_count}
use akida_dw_edma.Akida.Kernel.{akida_1000, held_by}
use akida_dw_edma.Akida.Channels.{dma_init}
use akida_dw_edma.Akida.Filter.{dma_chan_filter}
use akida_dw_edma.Akida.Iatu.{setup_iatu_1000}
use akida_dw_edma.Akida.Regions.{edma_chip}
use akida_dw_edma.Akida.Probe.{AkidaDev, Bound, v0_of, hdma_of, akida_probe, akida_remove}
use akida_dw_edma.Akida.Probe.Acquires.{IsAllOrNothing}
use akida_dw_edma.Akida.Probe.Unwind.{akida_probe-IsAllOrNothing}
use akida_dw_edma.Akida.Probe.Removal.{akida_remove-akida_probe}
use akida_dw_edma.Akida.Probe.Served.{akida_probe-IsServed}
use akida_dw_edma.Tests.Data.{config, empty_vc}
use akida_dw_edma.Tests.Boards.{ops, pci_ops, unbound}

-- Its control register says that there are two channels in either direction.
abbrev two_channels : Bus (List Access)
two_channels = observer (λ h a. 0x20002)

-- No device number is free: all is given back.
akida_probe-IsAllOrNothing_example :
    IsAllOrNothing
      (pci_ops false)
      two_channels
      empty_vc
      config
      unbound
      ((refl, refl), (refl, (refl, refl)))
      (akida_probe (pci_ops false) two_channels empty_vc config 0 unbound [])
akida_probe-IsAllOrNothing_example =
    akida_probe-IsAllOrNothing (pci_ops false) two_channels empty_vc config unbound
      ((refl, refl), (refl, (refl, refl))) 0 unbound [] refl

abbrev probed : Bound (pci_ops true) two_channels empty_vc config
probed = akida_probe (pci_ops true) two_channels empty_vc config 0 unbound []

abbrev no_dw : Dw (Lists Desc)
no_dw = record { wr_ch_cnt = 0; rd_ch_cnt = 0; nr_irqs = 0; irqs = []; chans = [] }

-- The device of the successful probe, and its core.
abbrev dev : AkidaDev (Lists Desc)
dev = elim probed.dev [
  | none ↦ record {
    board = akida_1000;
    host_ddr = record { area = none; size = 0 };
    mmio_bar0 = none;
    reg_base = 0;
    chip = edma_chip 0 (λ n. n) edma_legacy;
    chip_dev = false;
    dw = none;
    chans = record { rx = []; tx = [] };
    devno = 0;
  }
  | some a ↦ a
]

abbrev dw : Dw (Lists Desc)
dw = elim dev.dw [ none ↦ no_dw | some d ↦ d ]

stored : probed.dev ≡ some dev
unfolding akida_probe setup_iatu_1000 probe ch_cnt_of edma_chip v0_core ch_count dma_init
    dma_chan_filter
stored = refl

core_stored : dev.dw ≡ some dw
unfolding akida_probe setup_iatu_1000 probe ch_cnt_of edma_chip v0_core ch_count dma_init
    dma_chan_filter
core_stored = refl

second : 1 < cnt_of dw.wr_ch_cnt dw.rd_ch_cnt read
unfolding akida_probe setup_iatu_1000 probe ch_cnt_of edma_chip v0_core ch_count dma_init
    dma_chan_filter
second = omega arith

akida_remove-akida_probe_example :
    held_by ops
      (λ k. k.pci)
      (akida_remove (pci_ops true) two_channels empty_vc config dev probed.kernel probed.hw).0
    ≡ unbound
akida_remove-akida_probe_example =
    akida_remove-akida_probe (pci_ops true) two_channels empty_vc config unbound
      ((refl, refl), (refl, (refl, refl))) 0 unbound [] dev refl stored

akida_probe-IsServed_example :
    IsServed ops
      (v0_of (pci_ops true) two_channels empty_vc config dev.reg_base dev.chip)
      (hdma_of (pci_ops true) two_channels empty_vc config dev.reg_base dev.chip)
      empty_vc
      config
      dev.chip
      dw
      probed.kernel
      read
      1
akida_probe-IsServed_example =
    akida_probe-IsServed (pci_ops true) two_channels empty_vc config unbound
      ((refl, refl), (refl, (refl, refl))) 0 unbound [] dev dw read 1 refl stored core_stored second
