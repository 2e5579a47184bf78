-- ===== src/Vchan.antt =====
-- The virtual channel of the kernel's virt-dma layer, as the driver calls it: an interface with
-- the behaviour that virt-dma.h documents, and one implementation of it by lists.
pub mod Lists
use akida_dw_edma.Base.{
  ℕ, List, [], ◌∷◌, ◌++◌, Option, none, some, Bool, true, not, ◌≡◌, is_empty, All, subst, ap,
}

-- The first element (`list_first_entry_or_null`).
abbrev pub first {ℓ} : {A : Type ℓ} → List A → Option A
first [] = none
first (x ∷ xs) = some x

-- All but the first element (`list_del` of the first entry).
abbrev pub rest {ℓ} : {A : Type ℓ} → List A → List A
rest [] = []
rest (x ∷ xs) = xs

-- The first entry written anew.
abbrev pub put_first {ℓ} : {A : Type ℓ} → A → List A → List A
put_first d [] = []
put_first d (x ∷ xs) = d ∷ xs

-- `struct virt_dma_chan` holding descriptors `D`. `issued`, `submitted`, `allocated` and
-- `completed` observe its lists, oldest first. `write_first` is a store through the pointer that
-- `vchan_next_desc` gave, and `complete` is `list_del` of that entry followed by
-- `vchan_cookie_complete`. `submit` is the client's submission of a descriptor that `tx_prep` gave
-- it, and `find_desc` looks among the issued ones.
pub record VchanOps (D : Type 0) : Type 1 where
  pub Vc : Type 0
  pub issued : Vc → List D
  pub submitted : Vc → List D
  pub allocated : Vc → List D
  pub completed : Vc → List D
  pub init : Vc → Vc
  pub next_desc : Vc → Option D
  pub find_desc : ℕ → Vc → Option D
  pub tx_prep : D → Vc → Vc
  pub submit : D → Vc → Vc
  pub issue_pending : Vc → Vc × Bool
  pub write_first : D → Vc → Vc
  pub complete : D → Vc → Vc
  pub next_desc_lem : (v : Vc) → next_desc v ≡ first (issued v)
  pub allocated-tx_prep : (d : D) (v : Vc) → allocated (tx_prep d v) ≡ allocated v ++ d ∷ []
  pub issued-issue_pending : (v : Vc) → issued (issue_pending v).0 ≡ issued v ++ submitted v
  pub submitted-issue_pending : (v : Vc) → submitted (issue_pending v).0 ≡ []
  pub issue_pending_lem :
      (v : Vc) → (issue_pending v).1 ≡ not (is_empty (issued (issue_pending v).0))
  pub issued-write_first : (d : D) (v : Vc) → issued (write_first d v) ≡ put_first d (issued v)
  pub completed-write_first : (d : D) (v : Vc) → completed (write_first d v) ≡ completed v
  pub issued-complete : (d : D) (v : Vc) → issued (complete d v) ≡ rest (issued v)
  pub completed-complete : (d : D) (v : Vc) → completed (complete d v) ≡ completed v ++ d ∷ []
  pub submitted-write_first : (d : D) (v : Vc) → submitted (write_first d v) ≡ submitted v
  pub submitted-complete : (d : D) (v : Vc) → submitted (complete d v) ≡ submitted v
  pub completed-issue_pending : (v : Vc) → completed (issue_pending v).0 ≡ completed v
  pub issued-submit : (d : D) (v : Vc) → issued (submit d v) ≡ issued v
  pub submitted-submit : (d : D) (v : Vc) → submitted (submit d v) ≡ submitted v ++ d ∷ []
  pub completed-submit : (d : D) (v : Vc) → completed (submit d v) ≡ completed v
  pub find_desc_lem :
      (P : D → Type 0) (cookie : ℕ) (v : Vc) (d : D)
      → All P (issued v)
      → find_desc cookie v ≡ some d
      → P d

module _ {D : Type 0} (P : D → Type 0) where
  pub All-rest : (xs : List D) → All P xs → All P (rest xs)
  All-rest [] h = h
  All-rest (x ∷ xs) h = h.1

  pub All-put_first : (d : D) (xs : List D) → P d → All P xs → All P (put_first d xs)
  All-put_first d [] p h = h
  All-put_first d (x ∷ xs) p h = (p, h.1)

  pub All-first : (xs : List D) (d : D) → All P xs → first xs ≡ some d → P d
  All-first [] d h e = cc e
  All-first (x ∷ xs) d h e = subst P (ap (λ o. elim o [ none ↦ x | some y ↦ y ]) e) h.0
