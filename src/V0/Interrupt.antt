-- ===== src/V0/Interrupt.antt =====
-- akida-dw-edma/dw-edma-v0-core.c: `dw_edma_v0_core_handle_int`. The core's state is any `W` that
-- holds the hardware; `done` and `abort` are the handlers of a channel, by its place in `dw->chan`.
pub mod Handled
pub mod Events
pub mod Traced
use Prim.Native.Nat.{bit_and}
use akida_dw_edma.Base.{ℕ, zero, suc, ◌+◌, ◌/◌, ◌%◌, Bool, true, false, ◌||◌, if◌then◌else◌}
use akida_dw_edma.Base.Bits.{test_bit}
use akida_dw_edma.Mmio.{Bus}
use akida_dw_edma.Edma.{Dir, MapFormat, is_write}
use akida_dw_edma.V0.Regs.{int_status, int_clear}
use akida_dw_edma.V0.Control.{set_rw, get_rw, done_bit, abort_bit}

-- A state that holds the hardware.
pub record Holds (H W : Type 0) : Type 0 where
  pub hw : W → H
  pub put_hw : H → W → W

-- The fields of `struct dw_edma` and `struct dw_edma_irq` that the handler reads.
pub record IrqLine : Type 0 where
  pub wr_ch_cnt : ℕ
  pub rd_ch_cnt : ℕ
  pub wr_mask : ℕ
  pub rd_mask : ℕ

abbrev pub total_of : IrqLine → Dir → ℕ
total_of line dir = if is_write dir then line.wr_ch_cnt else line.rd_ch_cnt

abbrev pub off_of : IrqLine → Dir → ℕ
off_of line dir = if is_write dir then 0 else line.wr_ch_cnt

abbrev pub mask_of : IrqLine → Dir → ℕ
mask_of line dir = if is_write dir then line.wr_mask else line.rd_mask

-- `for_each_set_bit`: `n` positions are left, from `pos` on. The result says whether a bit was set.
unfoldable pub for_set_bits : {W : Type 0} → ℕ → ℕ → ℕ → (ℕ → W → W) → W → Bool × W
for_set_bits zero pos val body w = (false, w)
for_set_bits (suc n) pos val body w =
    let w' = if test_bit pos val then body pos w else w in
    let (later, w'') = for_set_bits n (suc pos) val body w' in (test_bit pos val || later, w'')

module _ {H W : Type 0} (bus : Bus H) (base : ℕ) (local : Bool) (mf : MapFormat)
    (in_state : Holds H W) where
  open in_state use {hw, put_hw}

  -- `dw_edma_v0_core_clear_done_int` and `dw_edma_v0_core_clear_abort_int`
  unfoldable pub clear_done_int : Dir → ℕ → W → W
  clear_done_int dir id w = put_hw (set_rw bus base local mf dir int_clear (done_bit id) (hw w)) w

  unfoldable pub clear_abort_int : Dir → ℕ → W → W
  clear_abort_int dir id w = put_hw (set_rw bus base local mf dir int_clear (abort_bit id) (hw w)) w

  -- `GET_RW_32(dw, dir, int_status)`
  unfoldable pub read_status : Dir → W → ℕ × W
  read_status dir w = let (x, h) = get_rw bus base local mf dir int_status (hw w) in (x, put_hw h w)

  -- `dw_edma_v0_core_handle_int`: whether it returns IRQ_HANDLED.
  unfoldable pub handle_int : (ℕ → W → W) → (ℕ → W → W) → IrqLine → Dir → W → Bool × W
  handle_int done abort line dir w =
      let (x, w₁) = read_status dir w in
      let (dones, w₂) =
        for_set_bits (total_of line dir) 0 (bit_and (x % 256) (mask_of line dir))
          (λ pos u. done (pos + off_of line dir) (clear_done_int dir pos u)) w₁ in
      let (y, w₃) = read_status dir w₂ in
      let (aborts, w₄) =
        for_set_bits (total_of line dir) 0 (bit_and (y / 65536 % 256) (mask_of line dir))
          (λ pos u. abort (pos + off_of line dir) (clear_abort_int dir pos u)) w₃ in
      (dones || aborts, w₄)
