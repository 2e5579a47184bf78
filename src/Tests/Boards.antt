-- ===== src/Tests/Boards.antt =====
-- A board in a kernel with four DMA channels that may refuse a device number.
use akida_dw_edma.Base.{
  ℕ, ◌+◌, ◌-◌, List, [], ◌∷◌, Option, none, some, Bool, true, false, ◌&&◌, ◌==◌, ltb, if◌then◌else◌,
  ◌≡◌, refl, sym, subst, ◌∙◌, arith, if-elim, Bool-cases, inl, inr,
}
use akida_dw_edma.Edma.{Errno, success, ebusy, is_success}
use akida_dw_edma.Edma.Probe.{KernelOps}
use akida_dw_edma.Akida.Kernel.{
  Candidate, Held, more, less, taking, releasing, with_refs, with_vectors, with_devnos, with_misc,
  PciOps,
}
use akida_dw_edma.Tests.Probes.{kernel, nothing}

-- The kernel of the core's probes, with the rest of what is held.
abbrev pub ops : KernelOps Held
ops =
    let core = kernel (λ i. false) in
    record {
      table = λ k. k.core;
      kcalloc = λ k. (true, k);
      request_irq = λ irq isr i k.
          let (e, c) = core.request_irq irq isr i k.core in (e, record k { core = c });
      free_irq = λ irq i k. record k { core = core.free_irq irq i k.core };
      msi_msg = λ irq k. none;
      register = λ c k. (success, record k { core = record k.core { registered = true } });
      unregister = λ k. record k { core = record k.core { registered = false } };
      table-kcalloc = λ k. refl;
      table-request_irq = λ irq isr i k. core.table-request_irq irq isr i k.core;
      table-free_irq = λ l ls k e. core.table-free_irq l ls k.core e;
      table-register = λ c k. refl;
      table-unregister = λ k. refl;
    }

-- The channels 0 and 1 carry data to memory, 2 and 3 from memory.
abbrev candidate : ℕ → Candidate
candidate c = record { same_dev = true; caps = (success, if ltb c 2 then 4 else 2) }

-- The first of the channels that passes.
abbrev pick : (ℕ → Bool) → List ℕ → Option ℕ
pick f [] = none
pick f (c ∷ cs) = if f c then some c else pick f cs

pub pick-passes : (f : ℕ → Bool) (cs : List ℕ) (c : ℕ) → pick f cs ≡ some c → f c ≡ true
pick-passes f [] c e = cc e
pick-passes f (x ∷ xs) c e = elim (Bool-cases (f x)) [
  | inl t ↦
      let same : some x ≡ some c = sym (rw t refl) ∙ e in
      subst (λ (o : Option ℕ). elim o [ none ↦ Unit | some y ↦ f y ≡ true ]) same t
  | inr t ↦ pick-passes f xs c (sym (rw t refl) ∙ e)
]

abbrev is_free : (Candidate → Bool) → Held → ℕ → Bool
is_free f k c = (k.pci.channels c == 0) && f (candidate c)

pub is_free-passes :
    (f : Candidate → Bool) (k : Held) (c : ℕ) → is_free f k c ≡ true → f (candidate c) ≡ true
is_free-passes f k c h = ground (h, arith)

abbrev request : (Candidate → Bool) → Held → Option ℕ
request f k = pick (is_free f k) (0 ∷ 1 ∷ 2 ∷ 3 ∷ [])

abbrev take : Option ℕ → Held → Held
take none k = k
take (some c) k = taking c k

pub take_lem : (o : Option ℕ) (k : Held) → take o k ≡ (elim o [ none ↦ k | some c ↦ taking c k ])
take_lem none k = refl
take_lem (some c) k = refl

-- Whether the device numbers are not exhausted.
abbrev pub pci_ops : Bool → PciOps ops
pci_ops numbers = record {
  pci = λ k. k.pci;
  candidate = candidate;
  kzalloc = λ k. (true, k);
  disable_link_state = λ k. k;
  enable_device = λ k. (success, k);
  set_master = λ k. k;
  set_dma_mask = λ n k. (success, k);
  set_coherent_mask = λ n k. (success, k);
  dmam_alloc = λ n k. (some (1, 2), k);
  write_config = λ a x k. (success, k);
  msleep = λ n k. k;
  iomap_regions = λ bars k. (success, k);
  iounmap_regions = λ bars k. k;
  iomap_table = λ k bar. bar + 0x1000;
  irq_vector = λ k i. i + 40;
  alloc_irq_vectors = λ lo hi k. (success, (lo, with_vectors true true k));
  free_irq_vectors = λ k. with_vectors false false k;
  request_channel = λ f k. (request f k, take (request f k) k);
  release_channel = λ c k. releasing c k;
  terminate_sync = λ c k. k;
  module_put = λ k. with_refs (k.pci.module_refs - 1) k;
  module_get = λ k. with_refs (k.pci.module_refs + 1) k;
  ida_alloc =
      λ k. if numbers then (success, (7, with_devnos (more 7 k.pci.devnos) k)) else (ebusy, (0, k));
  ida_free = λ n k. with_devnos (less n k.pci.devnos) k;
  misc_register = λ m k. (success, with_misc (some m) k);
  misc_deregister = λ k. with_misc none k;
  core-keeps = record {
    keeps_requests = record {
      keeps-kcalloc = λ k. refl;
      keeps-request_irq = λ irq isr i k. refl;
      keeps-free_irq = λ irq i k. refl;
    };
    keeps-register = λ c k. refl;
    keeps-unregister = λ k. refl;
  };
  held-kzalloc = λ k. refl;
  held-disable_link_state = λ k. refl;
  held-enable_device = λ k. refl;
  held-set_master = λ k. refl;
  held-set_dma_mask = λ n k. refl;
  held-set_coherent_mask = λ n k. refl;
  held-dmam_alloc = λ n k. refl;
  held-write_config = λ a x k. refl;
  held-msleep = λ n k. refl;
  held-iomap_regions = λ bars k. refl;
  held-iounmap_regions = λ bars k. refl;
  held-terminate_sync = λ c k. refl;
  alloc_irq_vectors-least = λ lo hi k e. omega arith;
  held-alloc_irq_vectors = λ lo hi k. refl;
  held-free_irq_vectors = λ k e. refl;
  request_channel-passes =
      λ f k c e. is_free-passes f k c (pick-passes (is_free f k) (0 ∷ 1 ∷ 2 ∷ 3 ∷ []) c e);
  held-request_channel = λ f k. take_lem (request f k) k;
  held-release_channel = λ c k. refl;
  held-module_put = λ k. refl;
  held-module_get = λ k. refl;
  held-ida_alloc = λ k.
      if-elim
        (λ (r : Errno × (ℕ × Held)).
          r.1.1 ≡ (if is_success r.0 then with_devnos (more r.1.0 k.pci.devnos) k else k))
        numbers (λ _. refl) (λ _. refl);
  held-ida_free = λ n k. refl;
  held-misc_register = λ m k. refl;
  held-misc_deregister = λ k. refl;
}

-- Nothing is held, but the module is in use by its own loader.
abbrev pub unbound : Held
unbound = record {
  core = nothing;
  pci = record {
    vectors = false;
    msi = false;
    channels = λ c. 0;
    module_refs = 1;
    devnos = λ n. if n == 0 then 1 else 0;
    misc = none;
  };
}
