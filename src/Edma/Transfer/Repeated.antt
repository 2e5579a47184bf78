-- ===== src/Edma/Transfer/Repeated.antt =====
-- A list that is gone through several times.
use akida_dw_edma.Base.{
  ℕ, zero, suc, ◌*◌, ◌%◌, ◌<◌, List, [], ◌∷◌, ◌++◌, ◌≡◌, refl, sym, ap, ◌∙◌, arith, length, get_or,
  Bool-cases, inl, inr, ltb, ◌-◌, ◌≤◌, length-append,
}
use native.Mathlib.Nat.{mod-eq_of_lt, mod-eq-sub-mod}

-- The entries of a list, gone through so many times.
abbrev pub repeated : {A : Type 0} → ℕ → List A → List A
repeated zero xs = []
repeated (suc n) xs = xs ++ repeated n xs

get_or-append_left :
    {A : Type 0} (xs ys : List A) (k : ℕ) (d : A)
    → k < length xs
    → get_or (xs ++ ys) k d ≡ get_or xs k d
get_or-append_left [] ys k d h = absurd (omega (arith, h))
get_or-append_left (x ∷ xs) ys zero d h = refl
get_or-append_left (x ∷ xs) ys (suc k) d h = get_or-append_left xs ys k d (omega (arith, h))

get_or-append_right :
    {A : Type 0} (xs ys : List A) (k : ℕ) (d : A)
    → length xs ≤ k
    → get_or (xs ++ ys) k d ≡ get_or ys (k - length xs) d
get_or-append_right [] ys k d h = ap (λ i. get_or ys i d) (omega arith)
get_or-append_right (x ∷ xs) ys zero d h = absurd (omega (arith, h))
get_or-append_right (x ∷ xs) ys (suc k) d h =
    get_or-append_right xs ys k d (omega (arith, h)) ∙ ap (λ i. get_or ys i d) (omega arith)

pub get_or-repeated :
    {A : Type 0} (n : ℕ) (xs : List A) (k : ℕ) (d : A)
    → k < length (repeated n xs)
    → get_or (repeated n xs) k d ≡ get_or xs (k % length xs) d
get_or-repeated zero xs k d h = absurd (omega (arith, h))
get_or-repeated (suc n) xs k d h = elim (Bool-cases (ltb k (length xs))) [
  | inl below ↦
      let l : k < length xs = ground (arith, below) in
      get_or-append_left xs (repeated n xs) k d l ∙ ap (λ i. get_or xs i d) (sym (mod-eq_of_lt l))
  | inr above ↦
      let l : length xs ≤ k = ground (arith, above) in
      get_or-append_right xs (repeated n xs) k d l
      ∙ get_or-repeated n xs (k - length xs) d (omega (arith, h, length-append xs (repeated n xs)))
      ∙ ap (λ i. get_or xs i d) (sym (mod-eq-sub-mod l))
]

pub length-repeated : {A : Type 0} (n : ℕ) (xs : List A) → length (repeated n xs) ≡ n * length xs
length-repeated zero xs = omega arith
length-repeated (suc n) xs = grind (arith, length-append xs (repeated n xs), length-repeated n xs)
