-- ===== src/CString/Move.antt =====
-- The copies of lib/string, overlapping or not.
use osdev.Prelude.{
  ℕ, zero, suc, ◌+◌, ◌-◌, ◌%◌, ◌≤◌, ◌<◌, ◌≡◌, ap, true, sym, ◌∙◌, ◌⊎◌, inl, inr, ◌&&◌, ltb, leb,
  if◌then◌else◌, arith, Bool-cases,
}
use osdev.CString.{Bytes, poke, copy_up, copy_down, memcpy, memmove, memset}

-- `r` is `mem` with the n bytes from `src` also at `dst`.
abbrev pub Copied : Bytes → ℕ → ℕ → ℕ → Bytes → Type 0
Copied mem dst src n r =
    (a : ℕ) → r a ≡ (if leb dst a && ltb a (dst + n) then mem (src + (a - dst)) else mem a)

copy_up-Copied :
    (n : ℕ) (mem : Bytes) (dst src : ℕ)
    → (dst ≤ src) ⊎ (src + n ≤ dst)
    → Copied mem dst src n (copy_up n mem dst src)
unfolding copy_up
copy_up-Copied zero mem dst src h a = ground arith
copy_up-Copied (suc n) mem dst src h a =
    ground (arith, copy_up-Copied n (poke mem dst (mem src)) (dst + 1) (src + 1) (later h) a)
  where
    later : (dst ≤ src) ⊎ (src + suc n ≤ dst) → (dst + 1 ≤ src + 1) ⊎ (src + 1 + n ≤ dst + 1)
    later (inl p) = inl (omega arith)
    later (inr p) = inr (omega arith)

copy_down-Copied :
    (n : ℕ) (mem : Bytes) (dst src : ℕ) → src ≤ dst → Copied mem dst src n (copy_down n mem dst src)
unfolding copy_down
copy_down-Copied zero mem dst src h a = ground arith
copy_down-Copied (suc n) mem dst src h a =
    copy_down-Copied n (poke mem (dst + n) (mem (src + n))) dst src h a ∙ ground arith

-- `memmove` leaves at the destination the bytes that the source held before the call, however the
-- two overlap, and changes no other byte.
pub memmove-moves :
    (mem : Bytes) (dst src n a : ℕ)
    → memmove mem dst src n a
      ≡ (if leb dst a && ltb a (dst + n) then mem (src + (a - dst)) else mem a)
unfolding memmove
memmove-moves mem dst src n a = elim (Bool-cases (ltb dst src)) [
  | inl p ↦ rw p (copy_up-Copied n mem dst src (inl (ground arith)) a)
  | inr p ↦ rw p (copy_down-Copied n mem dst src (ground arith) a)
]

-- `memcpy` leaves what `memmove` leaves, where the source and the destination do not overlap or the
-- destination is not above the source.
pub memcpy-memmove :
    (mem : Bytes) (dst src n a : ℕ)
    → (dst ≤ src) ⊎ (src + n ≤ dst)
    → memcpy mem dst src n a ≡ memmove mem dst src n a
unfolding memcpy
memcpy-memmove mem dst src n a apart =
    copy_up-Copied n mem dst src apart a ∙ sym (memmove-moves mem dst src n a)

-- The bytes at the destination, where it is above the source.
pub memcpy-copies :
    (mem : Bytes) (dst src n i : ℕ)
    → src + n ≤ dst
    → i < n
    → memcpy mem dst src n (dst + i) ≡ mem (src + i)
memcpy-copies mem dst src n i apart lt =
    memcpy-memmove mem dst src n (dst + i) (inr apart)
    ∙ memmove-moves mem dst src n (dst + i)
    ∙ ap (λ b. if b then mem (src + (dst + i - dst)) else mem (dst + i)) inside
    ∙ ap (λ j. mem (src + j)) (omega arith)
  where
    inside : (leb dst (dst + i) && ltb (dst + i) (dst + n)) ≡ true
    inside = ground arith

-- `memset` fills its block with the low byte of the value, and changes no other byte.
pub memset-fill :
    (n : ℕ) (mem : Bytes) (buf val a : ℕ)
    → memset n mem buf val a ≡ (if leb buf a && ltb a (buf + n) then val % 256 else mem a)
unfolding memset
memset-fill zero mem buf val a = ground arith
memset-fill (suc n) mem buf val a =
    ground (arith, memset-fill n (poke mem buf (val % 256)) (buf + 1) val a)
