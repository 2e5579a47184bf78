-- ===== src/V0/Control/Bits.antt =====
-- akida-dw-edma/dw-edma-v0-core.c: the bits of the words that are written to the interrupt mask and
-- to the MSI data registers.
use Prim.Native.Nat.{bit_and}
use akida_dw_edma.Base.{
  ℕ, ◌+◌, ◌-◌, ◌*◌, ◌%◌, ◌<◌, Bool, true, false, not, ◌&&◌, ◌||◌, ◌==◌, ltb, if◌then◌else◌, ◌≡◌,
  refl, ap, ◌∙◌, arith, Bool-cases, inl, inr,
}
use akida_dw_edma.Base.Bits.{
  bit, not32, digit-zero, digit-lt, test_bit, test_bit-bit, test_bit-bit_and, test_bit-bit_or,
}
use akida_dw_edma.Base.Bits.Fields.{digit-shift, digit-mod, digit-complement}
use akida_dw_edma.Mmio.{Bus}
use akida_dw_edma.Edma.{MapFormat}
use akida_dw_edma.V0.Control.{done_bit, abort_bit, unmasked, msi_data}

test_bit-high :
    (p x : ℕ) → test_bit p (x * 65536) ≡ (if ltb p 16 then false else test_bit (p - 16) x)
test_bit-high p x = ground (arith, digit-shift 16 p x)

test_bit-low : (p x : ℕ) → test_bit p (x % 65536) ≡ (if ltb p 16 then test_bit p x else false)
test_bit-low p x = ground (arith, digit-mod 16 p x)

test_bit-byte : (p x : ℕ) → test_bit p (x % 256) ≡ (if ltb p 8 then test_bit p x else false)
test_bit-byte p x = ground (arith, digit-mod 8 p x)

test_bit-not32 : (p x : ℕ) → p < 32 → x < 4294967296 → test_bit p (not32 x) ≡ not (test_bit p x)
test_bit-not32 p x h k = ground (arith, digit-complement 32 p x h k, digit-lt p x)

test_bit-low_mask : (p : ℕ) → test_bit p 0xffff ≡ ltb p 16
test_bit-low_mask p = elim (Bool-cases (ltb p 16)) [
  | inl e ↦
      ground (arith, e, digit-complement 16 p 0 (ground (arith, e)) (omega arith), digit-zero p)
  | inr e ↦ ground (arith, e, digit-mod 16 p 0xffff)
]

test_bit-high_mask : (p : ℕ) → p < 32 → test_bit p 0xffff0000 ≡ not (ltb p 16)
test_bit-high_mask p h =
    let shifted : test_bit p 0xffff0000 ≡ (if ltb p 16 then false else test_bit (p - 16) 0xffff) =
      test_bit-high p 0xffff in
    ground (arith, shifted, test_bit-low_mask (p - 16), h)

-- The half of a pair's MSI data register that belongs to a channel, from its lowest bit on.
abbrev pub half_bit : ℕ → ℕ → ℕ → Bool
half_bit id p x = test_bit (if id % 2 == 1 then p + 16 else p) x

pub done_bit-bits : (id p : ℕ) → id < 8 → test_bit p (done_bit id) ≡ (p == id)
done_bit-bits id p h = ground (arith, test_bit-byte p (bit id), test_bit-bit p id, h)

abort_bit-bits : (id p : ℕ) → id < 8 → test_bit p (abort_bit id) ≡ (p == id + 16)
abort_bit-bits id p h = ground (arith, test_bit-high p (bit id % 256), done_bit-bits id (p - 16) h)

module _ {H : Type 0} (bus : Bus H) (base : ℕ) (local : Bool) (mf : MapFormat) where
  pub msi_data-bits :
      (id payload tmp p : ℕ)
      → p < 32
      → test_bit p (msi_data bus base local mf id payload tmp) ≡ (
          if id % 2 == 1
          then (if ltb p 16 then test_bit p tmp else test_bit (p - 16) payload)
          else (if ltb p 16 then test_bit p payload else test_bit p tmp))
  msi_data-bits id payload tmp p h = elim (Bool-cases (id % 2 == 1)) [
    | inl e ↦ rw e (
        test_bit-bit_or p (bit_and tmp 0xffff) (payload % 65536 * 65536)
        ∙ ground (
          arith,
          test_bit-bit_and p tmp 0xffff,
          test_bit-low_mask p,
          test_bit-high p (payload % 65536),
          test_bit-low (p - 16) payload,
          h,
        ))
    | inr e ↦ rw e (
        test_bit-bit_or p (bit_and tmp 0xffff0000) (payload % 65536)
        ∙ ground (
          arith,
          test_bit-bit_and p tmp 0xffff0000,
          test_bit-high_mask p h,
          test_bit-low p payload,
        ))
  ]

  -- The channel's half is the message's low 16 bits, and the other half is kept.
  pub msi_data-halves :
      (id payload tmp p : ℕ)
      → p < 16
      → (half_bit id p (msi_data bus base local mf id payload tmp) ≡ test_bit p payload)
        × (half_bit (id + 1) p (msi_data bus base local mf id payload tmp)
            ≡ half_bit (id + 1) p tmp)
  msi_data-halves id payload tmp p h =
      let x = msi_data bus base local mf id payload tmp in
      let low = msi_data-bits id payload tmp p (omega arith) in
      let high = msi_data-bits id payload tmp (p + 16) (omega arith) in
      let small : ltb p 16 ≡ true = ground (arith, h) in
      let big : ltb (p + 16) 16 ≡ false = ground arith in
      let back : p + 16 - 16 ≡ p = omega arith in
      elim (Bool-cases (id % 2 == 1)) [
        | inl e ↦
            let even : ((id + 1) % 2 == 1) ≡ false = ground (arith, e) in
            (
              ap (λ (b : Bool). test_bit (if b then p + 16 else p) x) e
                  ∙ high
                  ∙ rw (e, big, back) refl,
              ap (λ (b : Bool). test_bit (if b then p + 16 else p) x) even
                  ∙ low
                  ∙ rw (e, small, even) refl,
            )
        | inr e ↦
            let odd : ((id + 1) % 2 == 1) ≡ true = ground (arith, e) in
            (
              ap (λ (b : Bool). test_bit (if b then p + 16 else p) x) e ∙ low ∙ rw (e, small) refl,
              ap (λ (b : Bool). test_bit (if b then p + 16 else p) x) odd
                  ∙ high
                  ∙ rw (e, big, odd) refl,
            )
      ]

  -- In the interrupt mask, a start clears the bits of the channel's two interrupts and no other.
  pub unmasked-bits :
      (id tmp p : ℕ)
      → id < 8
      → p < 32
      → test_bit p (unmasked bus base local mf id tmp)
        ≡ (test_bit p tmp && not (p == id || p == id + 16))
  unmasked-bits id tmp p h k =
      let small : done_bit id < 4294967296 = omega arith in
      let small' : abort_bit id < 4294967296 = omega arith in
      test_bit-bit_and p (bit_and tmp (not32 (done_bit id))) (not32 (abort_bit id))
      ∙ ground (
        arith,
        test_bit-bit_and p tmp (not32 (done_bit id)),
        test_bit-not32 p (done_bit id) k small,
        test_bit-not32 p (abort_bit id) k small',
        done_bit-bits id p h,
        abort_bit-bits id p h,
      )
