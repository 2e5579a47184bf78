-- ===== src/Tests/Device.antt =====
-- The PCIe driver.
use akida_dw_edma.Base.{ℕ, zero, suc, List, [], ◌∷◌, some, Bool, true, false, ◌≡◌, refl, arith, All}
use akida_dw_edma.Edma.{Errno, success, etimedout, read, hdma_native}
use akida_dw_edma.Akida.Pool.{
  at_start, acquires, count, used, acquire_chan, get_unsused_chan, Reaches-exclusive,
}
use akida_dw_edma.Akida.File.{FileOps, guarded, move}
use akida_dw_edma.Akida.File.Pieces.{MovedAll}
use akida_dw_edma.Akida.File.Moves.{move-MovedAll, guarded-keeps, Beside}
use akida_dw_edma.Akida.Mmap.{Resources}
use akida_dw_edma.Akida.Regions.{edma_chip}
use akida_dw_edma.Akida.Regions.Separate.{IsSeparate, edma_chip-IsSeparate}

-- Two channels, both taken, one given back.
abbrev both_free : List Bool
both_free = false ∷ false ∷ []

first_taken : acquire_chan both_free ≡ some (0, true ∷ false ∷ [])
unfolding acquire_chan get_unsused_chan
first_taken = refl

second_taken : acquire_chan (true ∷ false ∷ []) ≡ some (1, true ∷ true ∷ [])
unfolding acquire_chan get_unsused_chan
second_taken = refl

both_unused : (i : ℕ) → used both_free i ≡ 0
both_unused zero = refl
both_unused (suc zero) = refl
both_unused (suc (suc i)) = refl

Reaches-exclusive_example : count 1 (1 ∷ 0 ∷ []) ≡ used (true ∷ true ∷ []) 1
Reaches-exclusive_example =
    Reaches-exclusive both_unused (acquires (acquires at_start first_taken) second_taken) 1

-- A round that fails at the third piece.
abbrev third_fails : ℕ → ℕ → ℕ → Errno × ℕ
third_fails p n zero = (etimedout, zero)
third_fails p n (suc s) = (success, s)

move-MovedAll_example : MovedAll third_fails 4000 0x1000 2 (move third_fails 4000 4000 0x1000 2)
move-MovedAll_example = move-MovedAll third_fails 4000 4000 0x1000 2 (omega arith) (omega arith)

-- The state lists the rounds.
abbrev files : FileOps (List (ℕ × ℕ))
files = record {
  kmalloc = λ s. (true, s);
  kfree = λ s. s;
  acquire = λ s. (success, s);
  release = λ s. s;
  copy_user = λ p n s. (true, s);
}

abbrev listed : ℕ → ℕ → List (ℕ × ℕ) → Errno × List (ℕ × ℕ)
listed p n s = (success, (p, n) ∷ s)

guarded-keeps_example : All (λ r. Beside r.0 r.1) (guarded files listed 4000 0x1000 []).state
guarded-keeps_example =
    guarded-keeps files (λ s. All (λ r. Beside r.0 r.1) s) listed (λ s h. h) (λ s h. h) (λ s h. h)
      (λ s h. h) (λ p n s b l h x. (b, x)) 4000 0x1000 [] (omega arith) tt

abbrev resources : Resources
resources = record {
  bar_start = λ b. 0xf0000000;
  bar_len = λ b. 0x400000;
  is_mem = λ b. true;
  ddr_size = 0x1000000;
}

edma_chip-IsSeparate_example : IsSeparate (edma_chip 0x5000 (λ n. n) hdma_native) read 1
edma_chip-IsSeparate_example = edma_chip-IsSeparate 0x5000 (λ n. n) hdma_native read 1 (omega arith)
