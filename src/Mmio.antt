-- ===== src/Mmio.antt =====
-- Access to device registers and to linked list memory. What the hardware does with an access is
-- a parameter; so is the order of memory, which only the barriers and the order of the accesses
-- fix. `writel`, `writeq` and `readl` are the kernel's accessors, `store32` and `store64` are plain
-- stores to memory, and `dma_wmb` is the kernel's barrier.
use akida_dw_edma.Base.{ℕ, ◌+◌, ◌/◌, ◌%◌, List, [], ◌∷◌, ◌++◌, ◌==◌, if◌then◌else◌, ◌≡◌, ◌≢◌, arith}

pub record Bus (H : Type 0) : Type 0 where
  pub writel : ℕ → ℕ → H → H
  pub writeq : ℕ → ℕ → H → H
  pub readl : ℕ → H → ℕ × H
  pub store32 : ℕ → ℕ → H → H
  pub store64 : ℕ → ℕ → H → H
  pub dma_wmb : H → H

-- An access, with its address and the value written.
pub data Access : Type 0 where
  wrote32 wrote64 stored32 stored64 : ℕ → ℕ → Access
  got32 : ℕ → Access
  barrier : Access

-- The hardware as an observer of accesses, the latest last. What a read returns may depend on all
-- that went before: any device is such an `answer`.
abbrev pub observer : (List Access → ℕ → ℕ) → Bus (List Access)
observer answer = record {
  writel = λ a x h. h ++ wrote32 a x ∷ [];
  writeq = λ a x h. h ++ wrote64 a x ∷ [];
  readl = λ a h. (answer h a, h ++ got32 a ∷ []);
  store32 = λ a x h. h ++ stored32 a x ∷ [];
  store64 = λ a x h. h ++ stored64 a x ∷ [];
  dma_wmb = λ h. h ++ barrier ∷ [];
}

-- Registers that keep what is written to them, by their addresses.
abbrev pub put : ℕ → ℕ → (ℕ → ℕ) → ℕ → ℕ
put a x h b = if b == a then x else h b

abbrev pub registers : Bus (ℕ → ℕ)
registers = record {
  writel = put;
  writeq = λ a x h. put (a + 4) (x / 4294967296 % 4294967296) (put a (x % 4294967296) h);
  readl = λ a h. (h a, h);
  store32 = put;
  store64 = λ a x h. put (a + 4) (x / 4294967296 % 4294967296) (put a (x % 4294967296) h);
  dma_wmb = λ h. h;
}

pub put_same : (a x : ℕ) (h : ℕ → ℕ) → put a x h a ≡ x
put_same a x h = ground arith

pub put_other : (a b x : ℕ) (h : ℕ → ℕ) → b ≢ a → put a x h b ≡ h b
put_other a b x h ne = ground (arith, ne)
