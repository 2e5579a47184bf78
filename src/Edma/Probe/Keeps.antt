-- ===== src/Edma/Probe/Keeps.antt =====
-- akida-dw-edma/dw-edma-core.c: what no call of the core's probe and removal changes, neither do
-- they.
use akida_dw_edma.Base.{
  ℕ, zero, suc, ◌+◌, Bool, not, ◌&&◌, ◌||◌, ◌==◌, ltb, if◌then◌else◌, List, Option, none, some,
  replicate, ◌≡◌, refl, ◌∙◌, if-elim,
}
use akida_dw_edma.Edma.{write, read, Chip, CoreOps, SlaveConfig, Errno, is_success}
use akida_dw_edma.Edma.Setup.{Irq, zero_irq, irq_alloc, nr_irqs_of, ch_cnt_of}
use akida_dw_edma.Edma.Probe.{
  Isr, isr_common, isr_write, isr_read, KernelOps, DmaCaps, dma_caps, Dw, vector_of, has_vector,
  cache_msi, irq_free, request_from, request_common, irq_request, Probed, core_of,
  setup_and_register, probe_channels, probe, remove,
}

-- The part `f` of the kernel's state is not touched by an allocation or by a request of an interrupt.
pub record KeepsRequests {K A : Type 0} (ops : KernelOps K) (f : K → A) : Type 0 where
  pub keeps-kcalloc : (k : K) → f (KernelOps.kcalloc ops k).1 ≡ f k
  pub keeps-request_irq :
      (irq : ℕ) (isr : Isr) (i : ℕ) (k : K) → f (KernelOps.request_irq ops irq isr i k).1 ≡ f k
  pub keeps-free_irq : (irq i : ℕ) (k : K) → f (KernelOps.free_irq ops irq i k) ≡ f k

-- Nor by any other call that the core makes.
pub record Keeps {K A : Type 0} (ops : KernelOps K) (f : K → A) : Type 0 where
  pub keeps_requests : KeepsRequests ops f
  pub keeps-register : (c : DmaCaps) (k : K) → f (KernelOps.register ops c k).1 ≡ f k
  pub keeps-unregister : (k : K) → f (KernelOps.unregister ops k) ≡ f k

module _ {K A : Type 0} (ops : KernelOps K) (f : K → A) (keeps : KeepsRequests ops f)
    (chip : Chip) where
  open keeps use {keeps-kcalloc, keeps-request_irq, keeps-free_irq}
  open ops use {kcalloc, request_irq, free_irq}

  pub irq_free-keeps : (n : ℕ) (k : K) → f (irq_free ops chip n k) ≡ f k
  unfolding irq_free
  irq_free-keeps zero k = refl
  irq_free-keeps (suc n) k =
      irq_free-keeps n (free_irq (vector_of chip n) n k) ∙ keeps-free_irq (vector_of chip n) n k

  request_from-keeps :
      (wr n i : ℕ) (irqs : List Irq) (k : K) → f (request_from ops chip wr n i irqs k).1.1 ≡ f k
  unfolding request_from
  request_from-keeps wr zero i irqs k = refl
  request_from-keeps wr (suc n) i irqs k =
      let isr = if ltb i wr then isr_write else isr_read in
      let r = request_irq (vector_of chip i) isr i k in
      let asked = keeps-request_irq (vector_of chip i) isr i k in
      if-elim (λ (x : Errno × (List Irq × K)). f x.1.1 ≡ f k) (is_success r.0)
        (λ _. request_from-keeps wr n (suc i) (cache_msi ops chip i r.1 irqs) r.1 ∙ asked)
        (λ _. irq_free-keeps i r.1 ∙ asked)

  pub irq_request-keeps :
      (wr_cnt rd_cnt : ℕ) (k : K) → f (irq_request ops chip wr_cnt rd_cnt k).1.1 ≡ f k
  unfolding irq_request request_common
  irq_request-keeps wr_cnt rd_cnt k =
      let Same : Errno × (List Irq × K) → Type 0 = λ x. f x.1.1 ≡ f k in
      let a = irq_alloc chip.nr_irqs wr_cnt rd_cnt in
      let (ok, k₁) = kcalloc k in
      let r = request_irq (vector_of chip 0) isr_common 0 k₁ in
      let asked = keeps-request_irq (vector_of chip 0) isr_common 0 k₁ ∙ keeps-kcalloc k in
      let irqs = replicate chip.nr_irqs zero_irq in
      if-elim Same (ltb chip.nr_irqs 1 || not (has_vector chip)) (λ _. refl)
        (λ _.
          if-elim Same (not ok) (λ _. keeps-kcalloc k)
            (λ _.
              if-elim Same (chip.nr_irqs == 1)
                (λ _. if-elim Same (is_success r.0) (λ _. asked) (λ _. asked))
                (λ _. request_from-keeps a.wr (a.wr + a.rd) 0 irqs k₁ ∙ keeps-kcalloc k)))

module _ {K A V H : Type 0} (ops : KernelOps K) (f : K → A) (keeps : Keeps ops f)
    (v0 hdma : CoreOps H) (vc : V) (config : SlaveConfig) where
  open keeps use {keeps_requests, keeps-register, keeps-unregister}
  open keeps_requests use {keeps-kcalloc}
  open ops use {kcalloc, register}

  probe_channels-keeps :
      (chip : Chip) (wr_cnt rd_cnt : ℕ) (h : H) (k : K)
      → f (probe_channels ops v0 hdma vc config chip wr_cnt rd_cnt h k).kernel ≡ f k
  unfolding probe_channels setup_and_register
  probe_channels-keeps chip wr_cnt rd_cnt h k =
      let Same : Probed ops v0 hdma vc config → Type 0 = λ r. f r.kernel ≡ f k in
      let a = irq_alloc chip.nr_irqs wr_cnt rd_cnt in
      let (ok, k₁) = kcalloc k in
      let k₂ = (irq_request ops chip wr_cnt rd_cnt k₁).1.1 in
      let asked = irq_request-keeps ops f keeps_requests chip wr_cnt rd_cnt k₁ ∙ keeps-kcalloc k in
      let r = register dma_caps k₂ in
      let registered = keeps-register dma_caps k₂ ∙ asked in
      if-elim Same (not ok) (λ _. keeps-kcalloc k)
        (λ _.
          if-elim Same (is_success (irq_request ops chip wr_cnt rd_cnt k₁).0)
            (λ _.
              if-elim Same (is_success r.0) (λ _. registered)
                (λ _.
                  irq_free-keeps ops f keeps_requests chip (nr_irqs_of chip.nr_irqs a) r.1
                  ∙ registered))
            (λ _. asked))

  -- Whatever part of the kernel's state none of the calls that the core makes touches is after a
  -- probe of the core as it was before.
  pub probe-keeps :
      (has_dev has_ops : Bool) (chip : Chip) (h : H) (k : K)
      → f (probe ops v0 hdma vc config has_dev has_ops (some chip) h k).kernel ≡ f k
  unfolding probe
  probe-keeps has_dev has_ops chip h k =
      let Same : Probed ops v0 hdma vc config → Type 0 = λ r. f r.kernel ≡ f k in
      let core = core_of ops v0 hdma vc config chip.mf in
      let (ok, k₁) = kcalloc k in
      let (wr_hw, h₁) = core.ch_count write h in
      let (rd_hw, h₂) = core.ch_count read h₁ in
      let wr_cnt = ch_cnt_of chip.ll_wr_cnt wr_hw in
      let rd_cnt = ch_cnt_of chip.ll_rd_cnt rd_hw in
      if-elim Same (not (has_dev && has_ops)) (λ _. refl)
        (λ _.
          if-elim Same (not ok) (λ _. keeps-kcalloc k)
            (λ _.
              if-elim Same (wr_cnt == 0 && rd_cnt == 0) (λ _. keeps-kcalloc k)
                (λ _. probe_channels-keeps chip wr_cnt rd_cnt h₂ k₁ ∙ keeps-kcalloc k)))

  pub remove-keeps :
      (chip : Chip) (o : Option (Dw V)) (h : H) (k : K)
      → f (remove ops v0 hdma vc config chip o h k).1.1 ≡ f k
  unfolding remove
  remove-keeps chip none h k = refl
  remove-keeps chip (some dw) h k =
      keeps-unregister (irq_free ops chip dw.nr_irqs k)
      ∙ irq_free-keeps ops f keeps_requests chip dw.nr_irqs k
