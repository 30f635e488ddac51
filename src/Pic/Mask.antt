-- ===== src/Pic/Mask.antt =====
-- Masking one interrupt.
use osdev.Prelude.{
  subst, ℕ, ◌%◌, ◌^◌, ◌<◌, ◌≡◌, ◌≢◌, sym, ap, ◌∙◌, inl, inr, ◌⊎◌, true, false, arith, test_bit,
  set_bit, clear_bit,
}
use osdev.Io.{Ports}
use osdev.Pic.{mask_port, mask_bit, pic_mask, pic_unmask}

-- What holds of the numbers of the eight bits holds of every number below 8.
bits_cases :
    (P : ℕ → Type 0) → P 0 → P 1 → P 2 → P 3 → P 4 → P 5 → P 6 → P 7 → (k : ℕ) → k < 8 → P k
bits_cases P p0 p1 p2 p3 p4 p5 p6 p7 k lt = elim cases as (λ _. P k) [
  | inl (inl (inl p)) ↦ subst P (sym p) p0
  | inl (inl (inr p)) ↦ subst P (sym p) p1
  | inl (inr (inl p)) ↦ subst P (sym p) p2
  | inl (inr (inr p)) ↦ subst P (sym p) p3
  | inr (inl (inl p)) ↦ subst P (sym p) p4
  | inr (inl (inr p)) ↦ subst P (sym p) p5
  | inr (inr (inl p)) ↦ subst P (sym p) p6
  | inr (inr (inr p)) ↦ subst P (sym p) p7
]
  where
    cases : ((k ≡ 0 ⊎ k ≡ 1) ⊎ (k ≡ 2 ⊎ k ≡ 3)) ⊎ ((k ≡ 4 ⊎ k ≡ 5) ⊎ (k ≡ 6 ⊎ k ≡ 7))
    cases = grind arith

-- A bit of a byte that was set, and one that was cleared.
set_bit-test : (v k : ℕ) → k < 8 → test_bit (set_bit v k % 2 ^ 8) k ≡ true
set_bit-test v k lt =
    bits_cases (λ k. test_bit (set_bit v k % 2 ^ 8) k ≡ true) (ground arith) (ground arith)
      (ground arith) (ground arith) (ground arith) (ground arith) (ground arith) (ground arith) k lt

clear_bit-test : (v k : ℕ) → k < 8 → test_bit (clear_bit v k % 2 ^ 8) k ≡ false
clear_bit-test v k lt =
    bits_cases (λ k. test_bit (clear_bit v k % 2 ^ 8) k ≡ false) (ground arith) (ground arith)
      (ground arith) (ground arith) (ground arith) (ground arith) (ground arith) (ground arith) k lt

-- The bit of an interrupt is one of the eight of its port.
mask_bit-bound : (irq : ℕ) → irq < 16 → mask_bit irq < 8
mask_bit-bound irq lt = ground arith

-- The controllers keep the masks that are written to their ports, and return them.
pub record IsPic {H : Type 0} (ports : Ports H) (mask : H → ℕ → ℕ) : Type 0 where
  pub read : (h : H) (p : ℕ) → (ports.inb h p).0 ≡ mask h p
  pub kept : (h : H) (p q : ℕ) → mask (ports.inb h p).1 q ≡ mask h q
  pub written : (h : H) (p v : ℕ) → mask (ports.outb h p v) p ≡ v
  pub apart : (h : H) (p q v : ℕ) → p ≢ q → mask (ports.outb h p v) q ≡ mask h q

module _ {H : Type 0} (ports : Ports H) (mask : H → ℕ → ℕ) (pic : IsPic ports mask) where
  pic_mask-value :
      (irq : ℕ) (h : H)
      → mask (pic_mask ports irq h) (mask_port irq)
        ≡ set_bit (mask h (mask_port irq)) (mask_bit irq) % 2 ^ 8
  unfolding pic_mask
  pic_mask-value irq h =
      pic.written _ (mask_port irq) _
      ∙ ap (λ v. set_bit v (mask_bit irq) % 2 ^ 8) (pic.read h (mask_port irq))

  pic_unmask-value :
      (irq : ℕ) (h : H)
      → mask (pic_unmask ports irq h) (mask_port irq)
        ≡ clear_bit (mask h (mask_port irq)) (mask_bit irq) % 2 ^ 8
  unfolding pic_unmask
  pic_unmask-value irq h =
      pic.written _ (mask_port irq) _
      ∙ ap (λ v. clear_bit v (mask_bit irq) % 2 ^ 8) (pic.read h (mask_port irq))

  -- An interrupt of one of the two controllers that is masked has its bit set in the mask of its
  -- controller, and one that is unmasked has it clear.
  pic_mask-set :
      (irq : ℕ) (h : H)
      → irq < 16
      → test_bit (mask (pic_mask ports irq h) (mask_port irq)) (mask_bit irq) ≡ true
  pic_mask-set irq h lt =
      ap (λ v. test_bit v (mask_bit irq)) (pic_mask-value irq h)
      ∙ set_bit-test _ (mask_bit irq) (mask_bit-bound irq lt)

  pic_unmask-clear :
      (irq : ℕ) (h : H)
      → irq < 16
      → test_bit (mask (pic_unmask ports irq h) (mask_port irq)) (mask_bit irq) ≡ false
  pic_unmask-clear irq h lt =
      ap (λ v. test_bit v (mask_bit irq)) (pic_unmask-value irq h)
      ∙ clear_bit-test _ (mask_bit irq) (mask_bit-bound irq lt)
