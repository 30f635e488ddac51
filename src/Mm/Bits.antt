-- ===== src/Mm/Bits.antt =====
-- The bits of a word: the one that is set, and the lowest one that is clear.
use osdev.Prelude.{
  ℕ, zero, suc, ◌+◌, ◌-◌, ◌*◌, ◌/◌, ◌%◌, ◌^◌, ◌≤◌, ◌<◌, ◌≡◌, ◌≢◌, ap, inl, inr, true, false, ◌==◌,
  if◌then◌else◌, arith, Bool-cases,
}
use native.Mathlib.Nat.{two-pow-succ, pow-zero, one-le-pow}
use osdev.Mm.{bit, or_bit, lowest_clear}

-- Setting a bit sets that bit and leaves the others.
pub bit-or_bit : (w k j : ℕ) → bit (or_bit w k) j ≡ (if j == k then true else bit w j)
unfolding bit or_bit
bit-or_bit w zero zero = ground arith
bit-or_bit w zero (suc j) = ground (arith, ap (λ (v : ℕ). bit v j) halved)
  where
    halved : (if w % 2 == 1 then w else w + 1) / 2 ≡ w / 2
    halved = ground arith
bit-or_bit w (suc k) zero = ground arith
bit-or_bit w (suc k) (suc j) =
    ground (arith, ap (λ (v : ℕ). bit v j) halved, bit-or_bit (w / 2) k j)
  where
    halved : (w % 2 + 2 * or_bit (w / 2) k) / 2 ≡ or_bit (w / 2) k
    halved = omega arith

-- In a word of n bits that is not all ones, the lowest clear bit is one of the n, it is clear,
-- and the bits below it are set.
pub lowest_clear_lem :
    (n w : ℕ)
    → w < 2 ^ n
    → w ≢ 2 ^ n - 1
    → (lowest_clear n w < n)
      × (bit w (lowest_clear n w) ≡ false)
      × ((j : ℕ) → j < lowest_clear n w → bit w j ≡ true)
unfolding lowest_clear bit
lowest_clear_lem zero w small ne = absurd (ground (arith, pow-zero 2))
lowest_clear_lem (suc n) w small ne = elim (Bool-cases (w % 2 == 1)) [
  | inl odd ↦
      let (below, clear, ones) =
        lowest_clear_lem n (w / 2) (omega (arith, two-pow-succ n))
          (λ e. ne (ground (arith, two-pow-succ n, e))) in
      rw odd (omega arith, clear, lower odd ones)
  | inr even ↦ rw even (omega arith, even, λ j h. absurd (omega arith))
]
  where
    lower :
        w % 2 == 1 ≡ true
        → ((j : ℕ) → j < lowest_clear n (w / 2) → bit (w / 2) j ≡ true)
        → (j : ℕ) → j < suc (lowest_clear n (w / 2))
        → bit w j ≡ true
    lower odd ones zero h = odd
    lower odd ones (suc j) h = ones j (omega arith)

-- In a word of n ones every bit is set.
pub bit-ones : (n w j : ℕ) → w ≡ 2 ^ n - 1 → j < n → bit w j ≡ true
unfolding bit
bit-ones zero w j e h = absurd (omega arith)
bit-ones (suc n) w zero e h = ground (arith, two-pow-succ n, positive)
  where
    positive : 1 ≤ 2 ^ n
    positive = one-le-pow n 2 (omega arith)
bit-ones (suc n) w (suc j) e h =
    bit-ones n (w / 2) j (omega (arith, two-pow-succ n, one-le-pow n 2 (omega arith))) (omega arith)
