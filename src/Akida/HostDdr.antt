-- ===== src/Akida/HostDdr.antt =====
-- akida-pcie-core.c: `akida_1500_setup_host_ddr`, which tries smaller and smaller areas.
use akida_dw_edma.Base.{
  ℕ, zero, suc, ◌*◌, ◌/◌, leb, if◌then◌else◌, ◌≡◌, refl, ◌∙◌, if-elim, Option, none, some, List, [],
  ◌∷◌, map,
}

-- SZ_16M and SZ_1M
abbrev pub size_max : ℕ
size_max = 0x1000000

abbrev pub size_min : ℕ
size_min = 0x100000

-- `host_ddr`: `cpu_addr` and `dma_addr` as `dmam_alloc_attrs` leaves them, and the size.
pub record HostDdr : Type 0 where
  pub area : Option (ℕ × ℕ)
  pub size : ℕ

-- `alloc` stands for `dmam_alloc_attrs`, by the size asked for.
module _ {S : Type 0} (alloc : ℕ → S → Option (ℕ × ℕ) × S) where
  -- The loop, from a size on; `fuel` bounds the rounds.
  unfoldable pub try_from : ℕ → ℕ → S → HostDdr × S
  try_from zero size s = (record { area = none; size = 0 }, s)
  try_from (suc fuel) size s =
      let (area, s') = alloc size s in
      let later = try_from fuel (size / 2) s' in
      if leb size_min size
      then (elim area [ none ↦ later | some a ↦ (record { area = some a; size = size }, s') ])
      else (record { area = none; size = 0 }, s)

  -- `akida_1500_setup_host_ddr`; it always returns 0.
  unfoldable pub setup_host_ddr : S → HostDdr × S
  unfolding try_from
  setup_host_ddr s = try_from 6 size_max s

  -- The first of the sizes for which there is an area, asked for one after the other.
  abbrev pub largest : List ℕ → S → HostDdr × S
  largest [] s = (record { area = none; size = 0 }, s)
  largest (n ∷ ns) s =
      let (area, s') = alloc n s in
      elim area [ none ↦ largest ns s' | some a ↦ (record { area = some a; size = n }, s') ]

  -- The loop ends with the first of 16, 8, 4, 2 and 1 MB for which there is memory, and where there
  -- is none with no area and the size 0, which disables the feature.
  pub setup_host_ddr-largest :
      (s : S) → setup_host_ddr s ≡ largest (map (λ n. n * 0x100000) (16 ∷ 8 ∷ 4 ∷ 2 ∷ 1 ∷ [])) s
  unfolding setup_host_ddr
  setup_host_ddr-largest s = refl

  -- What no attempt changes is kept.
  try_from-keeps :
      {A : Type 0} (f : S → A)
      → ((n : ℕ) (s : S) → f (alloc n s).1 ≡ f s)
      → (fuel size : ℕ) (s : S) → f (try_from fuel size s).1 ≡ f s
  unfolding try_from
  try_from-keeps f keeps zero size s = refl
  try_from-keeps f keeps (suc fuel) size s =
      let (area, s') = alloc size s in
      if-elim (λ (r : HostDdr × S). f r.1 ≡ f s) (leb size_min size)
        (λ _.
          by_area area s' (try_from-keeps f keeps fuel (size / 2) s' ∙ keeps size s) (keeps size s))
        (λ _. refl)
    where
      by_area :
          (o : Option (ℕ × ℕ)) (s' : S)
          → f (try_from fuel (size / 2) s').1 ≡ f s
          → f s' ≡ f s
          → let r : HostDdr × S = elim o [
            | none ↦ try_from fuel (size / 2) s'
            | some a ↦ (record { area = some a; size = size }, s')
          ] in
            f r.1 ≡ f s
      by_area none s' h k = h
      by_area (some a) s' h k = k

  pub setup_host_ddr-keeps :
      {A : Type 0} (f : S → A)
      → ((n : ℕ) (s : S) → f (alloc n s).1 ≡ f s)
      → (s : S) → f (setup_host_ddr s).1 ≡ f s
  unfolding setup_host_ddr
  setup_host_ddr-keeps f keeps s = try_from-keeps f keeps 6 size_max s
