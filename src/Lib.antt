-- ===== src/Lib.antt =====
-- The Akida PCIe driver and its DesignWare eDMA engine.
--
-- The program is a Linux driver for the Akida neural processors. `akida-pcie-core.c` is the PCIe
-- driver: it sets up a device, offers it as a file, and moves data by the dmaengine interface of the
-- kernel. `akida-dw-edma/dw-edma-core.c` implements that interface: it builds a descriptor for a
-- transfer, hands it to the hardware chunk by chunk, and goes on at each done interrupt. It reaches
-- the hardware by a table of operations, which `dw-edma-v0-core.c` and `dw-hdma-v0-core.c` in the same
-- directory implement for the two kinds of engine.
--
-- Base holds the shared helpers: Boolean tests, lists over the native numbers, fixed-width words and
-- bits. Vchan is the virtual channel of the kernel's virt-dma layer as an interface with its
-- documented behaviour, with an implementation by lists in Vchan.Lists. Mmio is the access to
-- registers and memory; its `observer` records all accesses, and lets a read answer anything.
--
-- Edma has the types of `dw-edma-core.h` and `kernel/common/include/edma.h`. Edma.Alloc models
-- `dw_edma_alloc_*` and `dw_edma_free_*` over an allocator that counts live objects and may fail at
-- any call. Edma.Transfer models the checks, addresses and sizes of a transfer, and
-- Edma.Transfer.Build the loop of `dw_edma_device_transfer`. Edma.Channel models the callbacks of a
-- channel and the two interrupt handlers, each as a function that runs to its end. Edma.Channel.Steps
-- has these calls and the two interrupts as the steps of a channel, in any order. Of the calls, those
-- that configure, pause, resume and terminate take no lock, and the abort handler stores after it has
-- given its lock back: there, single stores of what they write and single starts of a chunk are steps
-- as well. What a start of a chunk that takes no lock, in a resumption, leaves halfway is not
-- modelled. Edma.Interrupts runs the interrupt service routines over all channels of a core. Edma.Setup
-- models the distribution of the interrupt vectors and the set-up of the channels, and Edma.Probe the
-- request of the vectors, `akida_dw_edma_probe` and `akida_dw_edma_remove` in a kernel whose calls may
-- fail. Backport.Setup models where the copy of the core for Linux 5.4, in
-- `kernel/5.4/akida-dw-edma/dw-edma-core.c`, sets the channels up differently, with a DMA device for
-- each direction, and Backport.Probe its probe and its removal.
--
-- V0 models `dw-edma-v0-core.c` with the layout of `dw-edma-v0-regs.h`; V0.LinkedList is the list that
-- the hardware reads, V0.Control the operations, V0.Interrupt the interrupt handler, V0.Debugfs the
-- registers and the files of `dw-edma-v0-debugfs.c`. Hdma does the same for `dw-hdma-v0-core.c`,
-- `dw-hdma-v0-regs.h` and `dw-hdma-v0-debugfs.c`.
--
-- Akida models `akida-pcie-core.c`: Pool is the sharing of the channels, Transfer is
-- `akida_dma_transfer`, Engine puts a channel of the eDMA core behind the dmaengine interface that
-- Transfer calls, File is `akida_read` and `akida_write`, Mmap is the mapping of device memory,
-- HostDdr the host memory of the newer device, Regions what the probe tells the eDMA core, Iatu the
-- address translation, Filter and Channels the search for DMA channels (`akida_dma_init` and
-- `akida_dma_exit`), and Probe composes them and the probe of the core to `akida_probe` and
-- `akida_remove`. Kernel is what these call, with what the kernel holds for the driver after each
-- call. Tests holds concrete runs, and the results below at concrete inputs.
--
-- A pointer to the chunk or the burst that was linked last is the last element of a list. Integers of
-- the C code are natural numbers, reduced modulo their width where the code can wrap; unsigned
-- subtraction wraps. Pointers are 64 bits wide.
--
-- Loops that the code bounds by a count recurse on that count. Other loops run on fuel: the
-- distribution of vectors has one unit for each vector and gives one away in each round; the loop of a
-- read or a write has one unit for each byte and moves at least one in each round; the search for host
-- memory has 6 units and halves 16 MB until it is below 1 MB, which are 5 rounds. The wait in
-- `dw_edma_free_chan_resources` runs on the number of rounds that the clock allows. The results of
-- `dw_edma_add_irq_mask` are never used; its fuel is a parameter.
--
-- Not modelled: of the driver for Linux 5.4, what is the same text as in the current one; the headers
-- of the Linux kernel under `kernel`, whose calls are parameters; the test programs; scripts. Of `akida-pcie-core.c`, the constants are
-- those of a build without `CFG_AKIDA_DMA_RAM_PHY`; a build that sets it chooses its own regions.
pub mod Base
pub mod Vchan
pub mod Mmio
pub mod Edma
pub mod V0
pub mod Hdma
pub mod Akida
pub mod Backport
pub mod Tests
