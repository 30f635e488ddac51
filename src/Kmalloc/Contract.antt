-- ===== src/Kmalloc/Contract.antt =====
-- What the callers of `kmalloc` and `kfree` rely on.
use osdev.Prelude.{
  ℕ, ◌+◌, ◌%◌, ◌^◌, ◌≤◌, ◌<◌, ◌≡◌, sym, ◌∙◌, ap, subst, ◌≢◌, ◌⊎◌, inl, inr, List, ◌∷◌, ◌++◌, arith,
  some, dec_lt, set_bit,
}
use osdev.Kmalloc.{Kheap, flags_of, kmalloc, kfree, heap_index, round_size}
use osdev.Kmalloc.Blocks.{Block, used, extent, span, alloc, alloc_offset, release, span-append}
use osdev.Kmalloc.Layout.{Stands, Layout, Layout-end, Layout-split}
use osdev.Kmalloc.State.{IsHeap}
use osdev.Kmalloc.Alloc.{kmalloc-FirstFit}
use osdev.Kmalloc.Free.{kfree-release}
use osdev.Kmalloc.Serve.{UsedAt, alloc-UsedAt, alloc-keeps, span-release, span-alloc}

-- The header at `hdr` is that of a block in use, inside heap `idx`.
pub record InUse (k : Kheap) (idx hdr size flags : ℕ) : Type 0 where
  pub sized : k.mem hdr ≡ size
  pub flagged : flags_of k.mem hdr ≡ flags
  pub after : k.heap_base idx ≤ hdr
  pub before : hdr + 12 + size ≤ k.heap_ptr idx

UsedAt-InUse :
    (k : Kheap) (idx : ℕ) (bs : List Block) (offset size flags : ℕ)
    → Layout k.mem (k.heap_base idx) (k.heap_ptr idx) bs
    → UsedAt offset size flags bs
    → InUse k idx (k.heap_base idx + offset) size flags
UsedAt-InUse k idx bs offset size flags l (xs, ys, e, at) = record {
  sized = subst (λ n. k.mem (k.heap_base idx + n) ≡ size) at block.sized;
  flagged = subst (λ n. flags_of k.mem (k.heap_base idx + n) ≡ flags) at block.marked.0;
  after = omega arith;
  before = omega (arith, at, reach);
}
  where
    tail : Layout k.mem (k.heap_base idx + span xs) (k.heap_ptr idx) (used size flags ∷ ys)
    tail =
        (Layout-split k.mem (k.heap_base idx) (k.heap_ptr idx) xs (used size flags ∷ ys)
          (subst (Layout k.mem (k.heap_base idx) (k.heap_ptr idx)) e l)).1

    block : Stands k.mem (k.heap_base idx + span xs) (used size flags)
    block = tail.0

    reach : k.heap_base idx + span xs + extent (used size flags) + span ys ≡ k.heap_ptr idx
    reach =
        Layout-end k.mem (k.heap_base idx + span xs + extent (used size flags)) (k.heap_ptr idx) ys
          tail.1

-- A size is rounded up to a multiple of 8, unless it is within 7 of the end of `size_t`: then it
-- wraps to 0.
pub round_size_cases :
    (size : ℕ)
    → size < 2 ^ 32
    → ((size + 7 < 2 ^ 32)
        × (size ≤ round_size size)
        × (round_size size < size + 8)
        × (round_size size % 8 ≡ 0))
      ⊎ ((2 ^ 32 ≤ size + 7) × (round_size size ≡ 0))
unfolding round_size
round_size_cases size small = elim (dec_lt (size + 7) (2 ^ 32)) [
  | yes p ↦ inl (p, omega arith, omega arith, omega arith)
  | no p ↦ inr (omega arith, omega arith)
]

-- In a heap that is a list of blocks, with room for one more block of the rounded size below the
-- end of the address space, `kmalloc` of a size that is not 0 and does not wrap when it is rounded
-- returns the address behind a header in this heap that is in use with the
-- requested flags, of a block with room for the size.
pub kmalloc-serves :
    (k : Kheap) (size flags : ℕ) (bs : List Block)
    → size ≢ 0
    → size + 7 < 2 ^ 32
    → IsHeap k (heap_index flags) bs
    → k.heap_ptr (heap_index flags) + 12 + round_size size ≤ 2 ^ 32
    → (hdr : ℕ) × (k' : Kheap) × (room : ℕ) × (kmalloc k size flags ≡ some (hdr + 8, k'))
      × InUse k' (heap_index flags) hdr room (set_bit flags 0)
      × (size ≤ room)
kmalloc-serves k size flags bs ne small heap below =
    let (k', result, laid, keeps) = kmalloc-FirstFit k size flags bs ne heap below in
    let (room, at, fit) = alloc-UsedAt (round_size size) (set_bit flags 0) bs in
    (
      k.heap_base (heap_index flags) + alloc_offset (round_size size) bs,
      k',
      room,
      result,
      subst
          (λ b.
            InUse k' (heap_index flags) (b + alloc_offset (round_size size) bs) room
              (set_bit flags 0))
          (keeps.bases (heap_index flags))
          (UsedAt-InUse k' (heap_index flags) (alloc (round_size size) (set_bit flags 0) bs)
            (alloc_offset (round_size size) bs) room (set_bit flags 0) laid at),
      omega (arith, rounded),
    )
  where
    rounded : size ≤ round_size size
    rounded = elim (round_size_cases size (omega arith)) [
      | inl (_, le, _, _) ↦ le
      | inr (wraps, _) ↦ absurd (omega arith)
    ]

-- In a heap that is a list of blocks, with room for one more block of the rounded size below the
-- end of the address space, a block that was in use before a `kmalloc` of a size that is
-- not 0 is in use after it, at the same address, with the same size and flags.
pub kmalloc-keeps :
    (k : Kheap) (size flags : ℕ) (xs : List Block) (s f : ℕ) (ys : List Block)
    → size ≢ 0
    → IsHeap k (heap_index flags) (xs ++ (used s f ∷ ys))
    → k.heap_ptr (heap_index flags) + 12 + round_size size ≤ 2 ^ 32
    → (addr : ℕ) × (k' : Kheap) × (kmalloc k size flags ≡ some (addr, k'))
      × InUse k' (heap_index flags) (k.heap_base (heap_index flags) + span xs) s f
kmalloc-keeps k size flags xs s f ys ne heap below =
    let bs = xs ++ (used s f ∷ ys) in
    let (k', result, laid, keeps) = kmalloc-FirstFit k size flags bs ne heap below in
    (
      k.heap_base (heap_index flags) + alloc_offset (round_size size) bs + 8,
      k',
      result,
      subst (λ b. InUse k' (heap_index flags) (b + span xs) s f) (keeps.bases (heap_index flags))
          (UsedAt-InUse k' (heap_index flags) (alloc (round_size size) (set_bit flags 0) bs)
            (span xs) s f laid (alloc-keeps (round_size size) (set_bit flags 0) xs ys s f)),
    )

same_heap : (flags : ℕ) → heap_index (set_bit flags 0) ≡ heap_index flags
same_heap flags = ground arith

-- In a heap that is a list of blocks, `kmalloc` of a size that is not 0 and then `kfree` of the
-- address returned leave a heap that is again a list of blocks: those after the `kmalloc`, with
-- the allocated one released, over the same number of bytes. It needs room for one more block
-- below the end of the address space.
pub kmalloc-kfree :
    (k : Kheap) (size flags : ℕ) (bs : List Block)
    → size ≢ 0
    → IsHeap k (heap_index flags) bs
    → k.heap_ptr (heap_index flags) + 12 + round_size size ≤ 2 ^ 32
    → (addr : ℕ) × (k' : Kheap) × (xs : List Block) × (room : ℕ) × (ys : List Block) × (kmalloc k
          size flags
        ≡ some (addr, k'))
      × (alloc (round_size size) (set_bit flags 0) bs ≡ xs ++ (used room (set_bit flags 0) ∷ ys))
      × IsHeap (kfree k' addr) (heap_index flags) (release xs room ys)
      × (span (release xs room ys) ≡ span (alloc (round_size size) (set_bit flags 0) bs))
kmalloc-kfree k size flags bs ne heap below =
    let (k', result, laid, keeps) = kmalloc-FirstFit k size flags bs ne heap below in
    let (room, (xs, ys, split, at), fit) = alloc-UsedAt a f bs in
    let reach = Layout-end k'.mem (k'.heap_base idx) (k'.heap_ptr idx) (alloc a f bs) laid in
    let top : k'.heap_ptr idx ≤ 2 ^ 32 =
      omega (arith, reach, keeps.bases idx, span-alloc a f bs, start) in
    let heap' : IsHeap k' idx (xs ++ (used room f ∷ ys)) = record {
      layout = subst (Layout k'.mem (k'.heap_base idx) (k'.heap_ptr idx)) split laid;
      below = top;
    } in
    let (released, base_same, ptr_same, same) =
      kfree-release k' xs room f ys
        (subst (λ i. IsHeap k' i (xs ++ (used room f ∷ ys))) (sym (same_heap flags)) heap') in
    (
      k'.heap_base (heap_index f) + span xs + 8,
      k',
      xs,
      room,
      ys,
      result
          ∙ ap (λ n. some (n + 8, k'))
              (omega (arith, keeps.bases idx, at, ap k'.heap_base (same_heap flags))),
      split,
      subst
          (λ i.
            IsHeap (kfree k' (k'.heap_base (heap_index f) + span xs + 8)) i (release xs room ys))
          (same_heap flags)
          (record {
            layout = released;
            below =
                subst (λ (p : ℕ → ℕ). p (heap_index f) ≤ 2 ^ 32) (sym ptr_same)
                  (subst (λ i. k'.heap_ptr i ≤ 2 ^ 32) (sym (same_heap flags)) top);
          }),
      span-release xs room ys
          ∙ sym (ap span split ∙ span-append xs (used room f ∷ ys) ∙ omega arith),
    )
  where
    idx : ℕ
    idx = heap_index flags

    a : ℕ
    a = round_size size

    f : ℕ
    f = set_bit flags 0

    start : k.heap_base idx + span bs ≡ k.heap_ptr idx
    start = Layout-end k.mem (k.heap_base idx) (k.heap_ptr idx) bs heap.layout
