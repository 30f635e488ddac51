-- ===== src/Kmalloc/Serve.antt =====
-- Where first fit and a release leave the blocks in use, on lists of blocks.
use osdev.Prelude.{
  ℕ, ◌+◌, ◌-◌, ◌≤◌, ◌≡◌, refl, sym, ◌∙◌, ap, inl, inr, true, List, [], ◌∷◌, ◌++◌, arith, leb,
  Bool-cases,
}
use mathlib.Core.List.{append_assoc}
use osdev.Kmalloc.Blocks.{
  Block, free, used, extent, span, place, alloc, alloc_offset, merge_right, merge_left, release,
  span-append,
}

-- A block in use at `offset` from the start of the list.
abbrev pub UsedAt : ℕ → ℕ → ℕ → List Block → Type 0
UsedAt offset size flags bs =
    (xs : List Block) × (ys : List Block) × (bs ≡ xs ++ (used size flags ∷ ys)) × (span xs ≡ offset)

UsedAt-cons :
    (b : Block) (offset size flags : ℕ) (bs : List Block)
    → UsedAt offset size flags bs
    → UsedAt (extent b + offset) size flags (b ∷ bs)
UsedAt-cons b offset size flags bs (xs, ys, e, at) =
    (b ∷ xs, ys, ap (λ l. b ∷ l) e, ap (λ n. extent b + n) at)

place-UsedAt :
    (size a flags : ℕ) (bs : List Block)
    → a ≤ size
    → (s : ℕ) × UsedAt 0 s flags (place size a flags ++ bs) × (a ≤ s)
place-UsedAt size a flags bs fit = elim (Bool-cases (leb 20 (size - a))) [
  | inl p ↦ rw p (a, ([], free (size - a - 12) ∷ bs, refl, refl), omega arith)
  | inr p ↦ rw p (size, ([], bs, refl, refl), fit)
]

pub alloc-UsedAt :
    (a flags : ℕ) (bs : List Block)
    → (s : ℕ) × UsedAt (alloc_offset a bs) s flags (alloc a flags bs) × (a ≤ s)
unfolding alloc alloc_offset
alloc-UsedAt a flags [] = (a, ([], [], refl, refl), omega arith)
alloc-UsedAt a flags (used size f ∷ bs) =
    let (s, at, fit) = alloc-UsedAt a flags bs in
    (s, UsedAt-cons (used size f) (alloc_offset a bs) s flags (alloc a flags bs) at, fit)
alloc-UsedAt a flags (free size ∷ bs) = elim (Bool-cases (leb a size)) [
  | inl p ↦ rw p (place-UsedAt size a flags bs (ground arith))
  | inr p ↦
      let (s, at, fit) = alloc-UsedAt a flags bs in
      rw p (s, UsedAt-cons (free size) (alloc_offset a bs) s flags (alloc a flags bs) at, fit)
]

-- First fit neither moves nor resizes a block in use.
pub alloc-keeps :
    (a flags : ℕ) (xs ys : List Block) (size f : ℕ)
    → UsedAt (span xs) size f (alloc a flags (xs ++ (used size f ∷ ys)))
unfolding alloc
alloc-keeps a flags [] ys size f = ([], alloc a flags ys, refl, refl)
alloc-keeps a flags (used s g ∷ xs) ys size f =
    UsedAt-cons (used s g) (span xs) size f (alloc a flags (xs ++ (used size f ∷ ys)))
      (alloc-keeps a flags xs ys size f)
alloc-keeps a flags (free s ∷ xs) ys size f = elim (Bool-cases (leb a s)) [
  | inl p ↦ rw p (
    place s a flags ++ xs,
    ys,
    sym (append_assoc (place s a flags) xs (used size f ∷ ys)),
    span-append (place s a flags) xs ∙ ap (λ n. n + span xs) (span-place p),
  )
  | inr p ↦ rw p (
      UsedAt-cons (free s) (span xs) size f (alloc a flags (xs ++ (used size f ∷ ys)))
        (alloc-keeps a flags xs ys size f))
]
  where
    span-place : leb a s ≡ true → span (place s a flags) ≡ 12 + s
    span-place p = ground arith

span-merge_right : (size : ℕ) (ys : List Block) → span (merge_right size ys) ≡ 12 + size + span ys
span-merge_right size [] = omega arith
span-merge_right size (used r f ∷ ys) = omega arith
span-merge_right size (free r ∷ ys) = ground arith

span-merge_left : (b : Block) (bs : List Block) → span (merge_left b bs) ≡ extent b + span bs
span-merge_left (used l f) bs = omega arith
span-merge_left (free l) [] = omega arith
span-merge_left (free l) (used r f ∷ bs) = omega arith
span-merge_left (free l) (free r ∷ bs) = ground arith

-- A release loses no byte of the heap.
pub span-release :
    (xs : List Block) (size : ℕ) (ys : List Block)
    → span (release xs size ys) ≡ span xs + (12 + size) + span ys
unfolding release
span-release [] size ys = omega (arith, span-merge_right size ys)
span-release (x ∷ []) size ys =
    omega (arith, span-merge_right size ys, span-merge_left x (merge_right size ys))
span-release (x ∷ y ∷ xs) size ys = omega (arith, span-release (y ∷ xs) size ys)

-- First fit adds at most one block.
pub span-alloc : (a flags : ℕ) (bs : List Block) → span (alloc a flags bs) ≤ span bs + (12 + a)
unfolding alloc
span-alloc a flags [] = omega arith
span-alloc a flags (used size f ∷ bs) = omega (arith, span-alloc a flags bs)
span-alloc a flags (free size ∷ bs) = elim (Bool-cases (leb a size)) [
  | inl p ↦ rw p (omega (arith, span-append (place size a flags) bs, placed p))
  | inr p ↦ rw p (omega (arith, span-alloc a flags bs))
]
  where
    placed : leb a size ≡ true → span (place size a flags) ≡ 12 + size
    placed p = ground arith
