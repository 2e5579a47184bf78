-- ===== src/Akida/Channels/Taken.antt =====
-- akida-pcie-core.c: which channels the driver holds after `akida_dma_init` and `akida_dma_exit`.
use mathlib.Core.Path.{fun_ext}
use akida_dw_edma.Base.{
  ℕ, zero, suc, ◌+◌, ◌-◌, Bool, true, not, if◌then◌else◌, List, [], ◌∷◌, Option, none, some, ◌≡◌,
  ◌⊎◌, inl, inr, refl, sym, ap, ap₂, ◌∙◌, arith, if-elim, length, All,
}
use akida_dw_edma.Edma.{XferDirection, dev_to_mem, mem_to_dev, Errno, is_success}
use akida_dw_edma.Edma.Probe.{KernelOps}
use akida_dw_edma.Akida.Kernel.{Held, more, less, held_by, taking, releasing, with_refs, PciOps}
use akida_dw_edma.Akida.Pool.{count}
use akida_dw_edma.Akida.Channels.{
  Chans, filter_for, request_from, release_all, dma_init, exit_all, dma_exit,
}

-- With these channels taken besides.
abbrev pub with_chans : List ℕ → Held → Held
with_chans cs t = record t { pci = record t.pci { channels = λ a. count a cs + t.pci.channels a } }

abbrev set_chans : Held → (ℕ → ℕ) → ℕ → Held
set_chans t f n = record t { pci = record t.pci { channels = f; module_refs = n } }

with_chans-taken :
    (c : ℕ) (t : Held)
    → let t' = taking c t in with_refs (t'.pci.module_refs - 1) t' ≡ with_chans (c ∷ []) t
with_chans-taken c t =
    let same : (a : ℕ) → more c t.pci.channels a ≡ count a (c ∷ []) + t.pci.channels a =
      λ a. ground arith in
    ap₂ (set_chans t) (fun_ext same) (omega arith)

with_chans-released :
    (c : ℕ) (cs : List ℕ) (t : Held)
    → let t' = with_chans (c ∷ cs) t in
      releasing c (with_refs (t'.pci.module_refs + 1) t') ≡ with_chans cs t
with_chans-released c cs t =
    let same : (a : ℕ)
        → less c (λ b. count b (c ∷ cs) + t.pci.channels b) a ≡ count a cs + t.pci.channels a =
      λ a. ground arith in
    ap₂ (set_chans t) (fun_ext same) (omega arith)

with_chans-nil : (t : Held) → with_chans [] t ≡ t
with_chans-nil t =
    let same : (a : ℕ) → 0 + t.pci.channels a ≡ t.pci.channels a = λ a. omega arith in
    ap (λ f. set_chans t f t.pci.module_refs) (fun_ext same)

with_chans-cons :
    (c : ℕ) (cs : List ℕ) (t : Held) → with_chans cs (with_chans (c ∷ []) t) ≡ with_chans (c ∷ cs) t
with_chans-cons c cs t =
    let same : (a : ℕ)
        → count a cs + (count a (c ∷ []) + t.pci.channels a) ≡ count a (c ∷ cs) + t.pci.channels a =
      λ a. omega arith in
    ap (λ f. set_chans t f t.pci.module_refs) (fun_ext same)

Option-cases {ℓ} : {A : Type ℓ} (o : Option A) → (o ≡ none) ⊎ ((a : A) × (o ≡ some a))
Option-cases none = inl refl
Option-cases (some a) = inr (a, refl)

module _ {K : Type 0} {ops : KernelOps K} (pci_ops : PciOps ops) where
  open pci_ops use {
    pci, candidate, request_channel, release_channel, terminate_sync, module_put, module_get,
    request_channel-passes, held-request_channel, held-release_channel, held-terminate_sync,
    held-module_put, held-module_get,
  }

  abbrev held : K → Held
  held k = held_by ops pci k

  -- A channel of this device's engine that carries data in the direction, and in no other.
  abbrev pub Carries : XferDirection → ℕ → Type 0
  Carries dir c = filter_for dir (candidate c) ≡ true

  -- What a loop over a direction leaves: the channels that it set, all `n` if it says so.
  abbrev HasRequested : XferDirection → ℕ → Held → Bool × (List ℕ × K) → Type 0
  HasRequested dir n t r =
      (held r.1.1 ≡ with_chans r.1.0 t)
      × (All (Carries dir) r.1.0 × (r.0 ≡ true → length r.1.0 ≡ n))

  request_from-HasRequested :
      (dir : XferDirection) (n : ℕ) (k : K) (t : Held)
      → held k ≡ t
      → HasRequested dir n t (request_from pci_ops dir n k)
  unfolding request_from
  request_from-HasRequested dir zero k t h = (h ∙ sym (with_chans-nil t), (tt, λ _. refl))
  request_from-HasRequested dir (suc n) k t h =
      let (c, k₁) = request_channel (filter_for dir) k in
      let got = held-request_channel (filter_for dir) k in
      elim (Option-cases c) [
        | inl e ↦ rw (request_from, e) (got ∙ rw e (h ∙ sym (with_chans-nil t)), (tt, λ x. cc x))
        | inr (a, e) ↦
            let put : held (module_put k₁) ≡ with_chans (a ∷ []) t =
              held-module_put k₁
              ∙ ap (λ (x : Held). with_refs (x.pci.module_refs - 1) x)
                  (got ∙ rw e (ap (taking a) h))
              ∙ with_chans-taken a t in
            let (later, (pass, all)) =
              request_from-HasRequested dir n (module_put k₁) (with_chans (a ∷ []) t) put in
            rw (request_from, e)
              (
                later ∙ with_chans-cons a _ t,
                ((request_channel-passes (filter_for dir) k a e, pass), λ x. ap suc (all x)),
              )
      ]

  -- Releasing the first of the channels that are set.
  release-held :
      (c : ℕ) (cs : List ℕ) (k : K) (t : Held)
      → held k ≡ with_chans (c ∷ cs) t
      → held (release_channel c (module_get k)) ≡ with_chans cs t
  release-held c cs k t h =
      held-release_channel c (module_get k)
      ∙ ap (releasing c)
          (held-module_get k ∙ ap (λ (x : Held). with_refs (x.pci.module_refs + 1) x) h)
      ∙ with_chans-released c cs t

  release_all-held :
      (cs : List ℕ) (k : K) (t : Held)
      → held k ≡ with_chans cs t
      → held (release_all pci_ops cs k) ≡ t
  unfolding release_all
  release_all-held [] k t h = h ∙ with_chans-nil t
  release_all-held (c ∷ cs) k t h =
      release_all-held cs (release_channel c (module_get k)) t (release-held c cs k t h)

  exit_all-held :
      (cs : List ℕ) (k : K) (t : Held) → held k ≡ with_chans cs t → held (exit_all pci_ops cs k) ≡ t
  unfolding exit_all
  exit_all-held [] k t h = h ∙ with_chans-nil t
  exit_all-held (c ∷ cs) k t h =
      exit_all-held cs (release_channel c (module_get (terminate_sync c k))) t
        (release-held c cs (terminate_sync c k) t (held-terminate_sync c k ∙ h))

  -- Two channels of either direction, besides what was held; or an error and nothing more.
  abbrev pub IsTaken : Held → Errno × (Chans × K) → Type 0
  IsTaken t (err, (c, k)) =
      if is_success err
      then (held k ≡ with_chans c.tx (with_chans c.rx t))
        × (((length c.rx ≡ 2) × All (Carries dev_to_mem) c.rx)
            × ((length c.tx ≡ 2) × All (Carries mem_to_dev) c.tx))
      else held k ≡ t

  -- `akida_dma_init` takes two channels of this device's engine for reception and two for
  -- transmission, each of the direction, or it fails and holds no more than before. In either case
  -- the driver's module has as many references as before.
  pub dma_init-IsTaken : (k : K) → IsTaken (held k) (dma_init pci_ops k)
  unfolding dma_init
  dma_init-IsTaken k =
      let rx = request_from pci_ops dev_to_mem 2 k in
      let tx = request_from pci_ops mem_to_dev 2 rx.1.1 in
      let (held_rx, (pass_rx, all_rx)) = request_from-HasRequested dev_to_mem 2 k (held k) refl in
      let (held_tx, (pass_tx, all_tx)) =
        request_from-HasRequested mem_to_dev 2 rx.1.1 (with_chans rx.1.0 (held k)) held_rx in
      if-elim (IsTaken (held k)) (not rx.0) (λ _. release_all-held rx.1.0 rx.1.1 (held k) held_rx)
        (λ e.
          if-elim (IsTaken (held k)) (not tx.0)
            (λ _.
              release_all-held rx.1.0 (release_all pci_ops tx.1.0 tx.1.1) (held k)
                (release_all-held tx.1.0 tx.1.1 (with_chans rx.1.0 (held k)) held_tx))
            (λ f. (
              held_tx,
              ((all_rx (ground (e, arith)), pass_rx), (all_tx (ground (f, arith)), pass_tx)),
            )))

  -- `akida_dma_exit` gives back the channels that it is given, after ending their transfers.
  pub dma_exit-held :
      (c : Chans) (k : K) (t : Held)
      → held k ≡ with_chans c.tx (with_chans c.rx t)
      → held (dma_exit pci_ops c k) ≡ t
  unfolding dma_exit
  dma_exit-held c k t h =
      exit_all-held c.rx (exit_all pci_ops c.tx k) t (exit_all-held c.tx k (with_chans c.rx t) h)
