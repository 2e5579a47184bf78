-- ===== src/Akida/Filter.antt =====
-- akida-pcie-core.c: the filter by which the driver finds its channels.
use Prim.Native.Nat.{bit_and}
use akida_dw_edma.Base.{ℕ, Bool, true, false, not, ◌==◌, if◌then◌else◌, ◌≡◌, refl}
use akida_dw_edma.Edma.{
  Dir, write, read, Chan, MapFormat, XferDirection, mem_to_mem, mem_to_dev, dev_to_mem, dev_to_dev,
  Errno, success, is_success, is_write, is_read,
}
use akida_dw_edma.Edma.Channel.{device_caps}
use akida_dw_edma.Akida.Regions.{edma_chip}

-- `akida_dma_chan_filter`: whether the channel is one of this device's engine, and the answer of
-- `dma_get_slave_caps` with the channel's directions.
unfoldable pub dma_chan_filter : Bool → Errno × ℕ → ℕ → ℕ → Bool
dma_chan_filter same_dev (err, directions) dir_mask dir_exp =
    if not same_dev
    then false
    else (if not (is_success err) then false else bit_and directions dir_mask == dir_exp)

-- `BIT` of the kernel's direction, a place in `enum dma_transfer_direction`.
abbrev pub dir_bit : XferDirection → ℕ
dir_bit mem_to_mem = 1
dir_bit mem_to_dev = 2
dir_bit dev_to_mem = 4
dir_bit dev_to_dev = 8

-- The filter's mask in `akida_dma_init`.
abbrev pub both_dirs : ℕ
both_dirs = 6

-- With the capabilities that the eDMA core reports for a channel of the device, the filter takes
-- exactly the write channels for reception, from the device to memory, and exactly the read
-- channels for transmission.
pub dma_chan_filter-device_caps :
    {V : Type 0} (bar4 : ℕ) (irq_vector : ℕ → ℕ) (mf : MapFormat) (ch : Chan V)
    → let caps : Errno × ℕ = (success, dir_bit (device_caps (edma_chip bar4 irq_vector mf) ch)) in
      (dma_chan_filter true caps both_dirs (dir_bit dev_to_mem) ≡ is_write ch.dir)
      × (dma_chan_filter true caps both_dirs (dir_bit mem_to_dev) ≡ is_read ch.dir)
unfolding dma_chan_filter device_caps edma_chip
dma_chan_filter-device_caps bar4 irq_vector mf ch = by_dir ch.dir
  where
    by_dir :
        (d : Dir)
        → let bits = dir_bit (if is_write d then dev_to_mem else mem_to_dev) in
          ((bit_and bits both_dirs == dir_bit dev_to_mem) ≡ is_write d)
          × ((bit_and bits both_dirs == dir_bit mem_to_dev) ≡ is_read d)
    by_dir write = (refl, refl)
    by_dir read = (refl, refl)
