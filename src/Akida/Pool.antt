-- ===== src/Akida/Pool.antt =====
-- akida-pcie-core.c: the two channels of a direction, which the readers (or the writers) share.
-- The lock of the wait queue makes each function one step.
use akida_dw_edma.Base.{
  ℕ, zero, suc, ◌+◌, ◌==◌, ◌<◌, List, [], ◌∷◌, Option, none, some, Bool, true, false, ◌≡◌, refl,
  sym, ap, ◌∙◌, get_or, set, arith, if◌then◌else◌, inl, inr, Bool-cases,
}

-- `akida_get_unsused_chan` over the `is_used` flags of the table: the place of the channel.
unfoldable pub get_unsused_chan : List Bool → Option ℕ
get_unsused_chan [] = none
get_unsused_chan (false ∷ tab) = some 0
get_unsused_chan (true ∷ tab) = elim (get_unsused_chan tab) [ none ↦ none | some i ↦ some (suc i) ]

abbrev pub grab : List Bool → Option ℕ → Option (ℕ × List Bool)
grab tab none = none
grab tab (some i) = some (i, set tab i true)

-- `akida_acquire_chan`: `none` while the caller waits for a channel. A caller that a signal
-- interrupts leaves without one and changes nothing.
unfoldable pub acquire_chan : List Bool → Option (ℕ × List Bool)
acquire_chan tab = grab tab (get_unsused_chan tab)

-- `akida_release_chan`
unfoldable pub release_chan : ℕ → List Bool → List Bool
release_chan i tab = set tab i false

-- The channels that some call of `akida_read` or `akida_write` has and has not given back yet.
abbrev pub count : ℕ → List ℕ → ℕ
count i [] = 0
count i (j ∷ held) = (if i == j then 1 else 0) + count i held

abbrev pub remove : ℕ → List ℕ → List ℕ
remove i [] = []
remove i (j ∷ held) = if i == j then held else j ∷ remove i held

-- What the callers do, in any order: a caller acquires a channel, or gives back one that it has.
pub data Reaches (start : List Bool) : List Bool → List ℕ → Type 0 where
  at_start : Reaches start start []
  acquires :
      {tab tab' : List Bool} {held : List ℕ} {i : ℕ}
      → Reaches start tab held
      → acquire_chan tab ≡ some (i, tab')
      → Reaches start tab' (i ∷ held)
  releases :
      {tab : List Bool} {held : List ℕ} (i : ℕ)
      → Reaches start tab held
      → 0 < count i held
      → Reaches start (release_chan i tab) (remove i held)

-- 1 if the channel is marked used, 0 if not or if there is no such channel.
abbrev pub used : List Bool → ℕ → ℕ
used tab i = if get_or tab i false then 1 else 0

abbrev pub unwrap : Option ℕ → ℕ
unwrap none = 0
unwrap (some i) = i

used-set_later :
    (tab : List Bool) (o : Option ℕ) (i j : ℕ)
    → ((k : ℕ)
        → o ≡ some k
        → (l : ℕ) → used (set tab k true) l ≡ (if l == k then 1 else 0) + used tab l)
    → (elim o [ none ↦ none | some k ↦ some (suc k) ]) ≡ some i
    → used (set (true ∷ tab) i true) j ≡ (if j == i then 1 else 0) + used (true ∷ tab) j
used-set_later tab none i j ih e = absurd (cc e)
used-set_later tab (some k) zero j ih e = absurd (omega (arith, ap unwrap e))
used-set_later tab (some k) (suc i) zero ih e = ground arith
used-set_later tab (some k) (suc i) (suc j) ih e =
    ground (arith, ih i (ap some (omega (arith, ap unwrap e))) j)

used-set-true :
    (tab : List Bool) (i j : ℕ)
    → get_unsused_chan tab ≡ some i
    → used (set tab i true) j ≡ (if j == i then 1 else 0) + used tab j
unfolding get_unsused_chan
used-set-true [] i j e = absurd (cc e)
used-set-true (false ∷ tab) zero zero e = refl
used-set-true (false ∷ tab) zero (suc j) e = ground arith
used-set-true (false ∷ tab) (suc i) j e = absurd (omega (arith, ap unwrap e))
used-set-true (true ∷ tab) i j e =
    used-set_later tab (get_unsused_chan tab) i j (λ k h l. used-set-true tab k l h) e

used-set-false :
    (tab : List Bool) (i j : ℕ)
    → 0 < used tab i
    → (if j == i then 1 else 0) + used (set tab i false) j ≡ used tab j
used-set-false [] i j h = absurd (omega arith)
used-set-false (true ∷ tab) zero zero h = refl
used-set-false (false ∷ tab) zero zero h = absurd (omega arith)
used-set-false (b ∷ tab) zero (suc j) h = ground arith
used-set-false (b ∷ tab) (suc i) zero h = ground arith
used-set-false (b ∷ tab) (suc i) (suc j) h = ground (arith, used-set-false tab i j h)

count-remove :
    (i j : ℕ) (held : List ℕ)
    → 0 < count i held
    → (if j == i then 1 else 0) + count j (remove i held) ≡ count j held
count-remove i j [] h = absurd (omega arith)
count-remove i j (k ∷ held) h = elim (Bool-cases (i == k)) [
  | inl e ↦ ground arith
  | inr e ↦ ground (arith, count-remove i j held (ground arith))
]

abbrev pub taken : Option (ℕ × List Bool) → ℕ × List Bool
taken none = (0, [])
taken (some x) = x

used-acquire :
    (tab tab' : List Bool) (i j : ℕ) (o : Option ℕ)
    → get_unsused_chan tab ≡ o
    → grab tab o ≡ some (i, tab')
    → used tab' j ≡ (if j == i then 1 else 0) + used tab j
used-acquire tab tab' i j none h e = absurd (cc e)
used-acquire tab tab' i j (some k) h e =
    ap (λ (o : Option (ℕ × List Bool)). used (taken o).1 j) (sym e)
    ∙ used-set-true tab k j h
    ∙ ap (λ (o : Option (ℕ × List Bool)). (if j == (taken o).0 then 1 else 0) + used tab j) e

-- In every state that the callers reach from a table of unused channels, a channel is held by
-- exactly one caller if it is marked used, and by none if it is not.
pub Reaches-exclusive :
    {start tab : List Bool} {held : List ℕ}
    → ((i : ℕ) → used start i ≡ 0)
    → Reaches start tab held
    → (i : ℕ) → count i held ≡ used tab i
unfolding acquire_chan release_chan
Reaches-exclusive clear at_start i = sym (clear i)
Reaches-exclusive clear (acquires {tab = tab} {tab' = tab'} {i = k} r e) i =
    omega
      (arith, used-acquire tab tab' k i (get_unsused_chan tab) refl e, Reaches-exclusive clear r i)
Reaches-exclusive clear (releases {tab = tab} {held = held} k r h) i = omega (
  arith,
  used-set-false tab k i (omega (arith, Reaches-exclusive clear r k)),
  count-remove k i held h,
  Reaches-exclusive clear r i,
)
