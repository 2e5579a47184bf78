-- ===== src/Akida/Transfer.antt =====
-- akida-pcie-core.c: `akida_dma_transfer`, over the kernel's dmaengine client interface.
use akida_dw_edma.Base.{
  ℕ, suc, ◌-◌, arith, if-elim, ◌∙◌, sym, ap, subst, Option, none, some, Bool, true, false, ◌≡◌,
  refl, if◌then◌else◌, not,
}
use akida_dw_edma.Edma.{
  XferDirection, mem_to_mem, mem_to_dev, dev_to_mem, dev_to_dev, SlaveConfig, Errno, success,
  einval, etimedout, is_success,
}

-- The kernel functions that it calls, over a state `S` of the kernel and of the device. The wait
-- is given the callback of the transaction that was issued, which its completion runs.
pub record DmaEngine (S : Type 0) : Type 0 where
  pub map_single : ℕ → S → ℕ × S
  pub mapping_error : ℕ → Bool
  pub slave_config : SlaveConfig → S → Errno × S
  pub prep_slave_single : ℕ → ℕ → XferDirection → S → Option ℕ × S
  pub reinit_completion : S → S
  pub submit : ℕ → S → Errno × S
  pub issue_pending : S → S
  pub complete : S → S
  pub wait_for_completion : (S → S) → S → Bool × S
  pub terminate_all : S → S
  pub unmap_single : ℕ → ℕ → S → S

module _ {S : Type 0} (e : DmaEngine S) where
  open e use {
    map_single, mapping_error, slave_config, prep_slave_single, reinit_completion, submit,
    issue_pending, complete, wait_for_completion, terminate_all, unmap_single,
  }

  -- Both addresses of the configuration: the device's and the buffer's.
  unfoldable pub sconfig : XferDirection → ℕ → ℕ → SlaveConfig
  sconfig mem_to_dev dev_addr buf = record { src_addr = buf; dst_addr = dev_addr }
  sconfig dev_to_mem dev_addr buf = record { src_addr = dev_addr; dst_addr = buf }
  sconfig mem_to_mem dev_addr buf = record { src_addr = 0; dst_addr = buf }
  sconfig dev_to_dev dev_addr buf = record { src_addr = 0; dst_addr = buf }

  -- `akida_dma_callback` on the buffer of the channel
  unfoldable pub dma_callback : ℕ → ℕ → S → S
  dma_callback buf len s = complete (unmap_single buf len s)

  -- From the wait on: a transfer that does not complete in time is stopped.
  unfoldable pub await : (S → S) → S → Errno × S
  await callback s =
      let (in_time, s₁) = wait_for_completion callback s in
      if in_time then (success, s₁) else (etimedout, terminate_all s₁)

  -- The transaction of a prepared descriptor.
  unfoldable pub submitted : (S → S) → ℕ → S → Errno × S
  submitted callback txdesc s =
      let (err, s₁) = submit txdesc (reinit_completion s) in
      if is_success err then await callback (issue_pending s₁) else (err, s₁)

  -- What is between the mapping and the label `err`: an error is what leads there.
  unfoldable pub transact : XferDirection → ℕ → ℕ → ℕ → S → Errno × S
  transact dir dev_addr len buf s =
      let (err, s₁) = slave_config (sconfig dir dev_addr buf) s in
      let (txdesc, s₂) = prep_slave_single buf len dir s₁ in
      if is_success err
      then (elim txdesc [ none ↦ (einval, s₂) | some tx ↦ submitted (dma_callback buf len) tx s₂ ])
      else (err, s₁)

  abbrev pub is_slave : XferDirection → Bool
  is_slave mem_to_dev = true
  is_slave dev_to_mem = true
  is_slave mem_to_mem = false
  is_slave dev_to_dev = false

  -- `akida_dma_transfer`. On success the callback of the transaction unmaps the buffer.
  unfoldable pub dma_transfer : XferDirection → ℕ → ℕ → S → Errno × S
  dma_transfer dir dev_addr len s =
      let (buf, s₁) = map_single len s in
      let (err, s₂) = transact dir dev_addr len buf s₁ in
      if not (is_slave dir)
      then (einval, s)
      else (if mapping_error buf
          then (einval, s₁)
          else (if is_success err then (success, s₂) else (err, unmap_single buf len s₂)))

-- How many buffers are mapped in a state, and what the kernel's calls do to that number: mapping
-- adds one unless it fails, and unmapping takes one away. A wait that ends in time has run the
-- callback, once, on a state with as many mappings; one that times out has not run it.
pub record Mappings {S : Type 0} (e : DmaEngine S) : Type 0 where
  pub live : S → ℕ
  pub live-map_failed :
      (n : ℕ) (s : S)
      → e.mapping_error (e.map_single n s).0 ≡ true
      → live (e.map_single n s).1 ≡ live s
  pub live-map_single :
      (n : ℕ) (s : S)
      → e.mapping_error (e.map_single n s).0 ≡ false
      → live (e.map_single n s).1 ≡ suc (live s)
  pub live-unmap_single : (b n : ℕ) (s : S) → live (e.unmap_single b n s) ≡ live s - 1
  pub live-slave_config : (c : SlaveConfig) (s : S) → live (e.slave_config c s).1 ≡ live s
  pub live-prep :
      (b n : ℕ) (d : XferDirection) (s : S) → live (e.prep_slave_single b n d s).1 ≡ live s
  pub live-reinit : (s : S) → live (e.reinit_completion s) ≡ live s
  pub live-submit : (t : ℕ) (s : S) → live (e.submit t s).1 ≡ live s
  pub live-issue : (s : S) → live (e.issue_pending s) ≡ live s
  pub live-terminate : (s : S) → live (e.terminate_all s) ≡ live s
  pub live-complete : (s : S) → live (e.complete s) ≡ live s
  pub live-timeout :
      (cb : S → S) (s : S)
      → (e.wait_for_completion cb s).0 ≡ false
      → live (e.wait_for_completion cb s).1 ≡ live s
  pub live-completed :
      (cb : S → S) (s : S)
      → (e.wait_for_completion cb s).0 ≡ true
      → (s' : S) × (live s' ≡ live s) × ((e.wait_for_completion cb s).1 ≡ cb s')

module _ {S : Type 0} (e : DmaEngine S) (m : Mappings e) where
  open m use {
    live, live-map_failed, live-map_single, live-unmap_single, live-slave_config, live-prep,
    live-reinit, live-submit, live-issue, live-terminate, live-complete, live-timeout,
    live-completed,
  }

  -- Of `n` buffers one is unmapped by a success, and none by a failure.
  abbrev Settled : ℕ → Errno × S → Type 0
  Settled n r = live r.1 ≡ (if is_success r.0 then n - 1 else n)

  dma_callback-live : (buf len : ℕ) (s : S) → live (dma_callback e buf len s) ≡ live s - 1
  unfolding dma_callback
  dma_callback-live buf len s =
      live-complete (e.unmap_single buf len s) ∙ live-unmap_single buf len s

  await-Settled : (buf len : ℕ) (s : S) → Settled (live s) (await e (dma_callback e buf len) s)
  unfolding await
  await-Settled buf len s =
      let cb = dma_callback e buf len in
      if-elim (Settled (live s)) (e.wait_for_completion cb s).0
        (λ h.
          let (s', same, ran) = live-completed cb s h in
          ap live ran ∙ dma_callback-live buf len s' ∙ ap (λ n. n - 1) same)
        (λ h. live-terminate (e.wait_for_completion cb s).1 ∙ live-timeout cb s h)

  failed-Settled :
      (err : Errno) (s : S) (n : ℕ) → is_success err ≡ false → live s ≡ n → Settled n (err, s)
  failed-Settled err s n h k = k ∙ ap (λ b. if b then n - 1 else n) (sym h)

  submitted-Settled :
      (buf len tx : ℕ) (s : S) → Settled (live s) (submitted e (dma_callback e buf len) tx s)
  unfolding submitted
  submitted-Settled buf len tx s =
      let s₁ = e.reinit_completion s in
      let s₂ = (e.submit tx s₁).1 in
      let same : live s₂ ≡ live s = live-submit tx s₁ ∙ live-reinit s in
      if-elim (Settled (live s)) (is_success (e.submit tx s₁).0)
        (λ h.
          subst (λ n. Settled n (await e (dma_callback e buf len) (e.issue_pending s₂)))
            (live-issue s₂ ∙ same) (await-Settled buf len (e.issue_pending s₂)))
        (λ h. failed-Settled (e.submit tx s₁).0 s₂ (live s) h same)

  prepared-Settled :
      (buf len : ℕ) (txdesc : Option ℕ) (s : S) (n : ℕ)
      → live s ≡ n
      → Settled n
          (elim txdesc [ none ↦ (einval, s) | some tx ↦ submitted e (dma_callback e buf len) tx s ])
  prepared-Settled buf len none s n h = h
  prepared-Settled buf len (some tx) s n h =
      subst (λ k. Settled k (submitted e (dma_callback e buf len) tx s)) h
        (submitted-Settled buf len tx s)

  transact-Settled :
      (dir : XferDirection) (dev_addr len buf : ℕ) (s : S)
      → Settled (live s) (transact e dir dev_addr len buf s)
  unfolding transact
  transact-Settled dir dev_addr len buf s =
      let s₁ = (e.slave_config (sconfig e dir dev_addr buf) s).1 in
      let r = e.prep_slave_single buf len dir s₁ in
      let same : live s₁ ≡ live s = live-slave_config (sconfig e dir dev_addr buf) s in
      let same' : live r.1 ≡ live s = live-prep buf len dir s₁ ∙ same in
      if-elim (Settled (live s)) (is_success (e.slave_config (sconfig e dir dev_addr buf) s).0)
        (λ h. prepared-Settled buf len r.0 r.1 (live s) same')
        (λ h. failed-Settled (e.slave_config (sconfig e dir dev_addr buf) s).0 s₁ (live s) h same)

  -- Every buffer that `akida_dma_transfer` maps is unmapped once, on success and on every error,
  -- where a wait that ends in time has run the callback once and one that times out has not.
  pub dma_transfer-unmaps :
      (dir : XferDirection) (dev_addr len : ℕ) (s : S)
      → live (dma_transfer e dir dev_addr len s).1 ≡ live s
  unfolding dma_transfer
  dma_transfer-unmaps dir dev_addr len s =
      let (buf, s₁) = e.map_single len s in
      let r = transact e dir dev_addr len buf s₁ in
      let settled = transact-Settled dir dev_addr len buf s₁ in
      let Kept : Errno × S → Type 0 = λ q. live q.1 ≡ live s in
      if-elim Kept (not (is_slave e dir)) (λ h. refl)
        (λ h.
          if-elim Kept (e.mapping_error buf) (λ k. live-map_failed len s k)
            (λ k.
              if-elim Kept (is_success r.0)
                (λ ok. grind (arith, settled, ok, live-map_single len s k))
                (λ bad.
                  grind
                    (arith, settled, bad, live-map_single len s k, live-unmap_single buf len r.1))))
