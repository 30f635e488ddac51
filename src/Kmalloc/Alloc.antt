-- ===== src/Kmalloc/Alloc.antt =====
-- `kmalloc` is the first fit of the block list, and leaves everything else alone.
use osdev.Prelude.{
  ℕ, suc, ◌+◌, ◌-◌, ◌%◌, ◌^◌, ◌≤◌, ◌<◌, ◌≡◌, refl, sym, ◌∙◌, ap, subst, ◌≢◌, ◌⊎◌, inl, inr, true,
  false, List, [], ◌∷◌, ◌++◌, arith, ◌==◌, leb, length, some, set_bit,
}
use osdev.Kmalloc.{
  Mem, Kheap, Search, found, exhausted, write, find_free, take_block, add_block, round_size,
  kmalloc, heap_index,
}
use osdev.Kmalloc.Blocks.{Block, free, used, extent, span, place, alloc, alloc_offset}
use osdev.Kmalloc.Layout.{
  Stands, Layout, Layout-end, Layout-frame, Layout-append, Layout-split, write-same, write-other,
}
use osdev.Kmalloc.State.{IsHeap, Keeps}
use osdev.Kmalloc.Walk.{Outcome, hit, miss, find_free-Outcome}
use osdev.Kmalloc.Place.{
  SameOutside, take_block-other, take_block-Layout, add_block-Stands, add_block-other,
  round_size-aligned,
}

length-le-span : (bs : List Block) → length bs ≤ span bs
length-le-span [] = omega arith
length-le-span (b ∷ bs) = omega (arith, length-le-span bs)

-- The answer of `kmalloc` that first fit on the block list gives.
abbrev pub FirstFit : Kheap → ℕ → ℕ → List Block → Type 0
FirstFit k size flags bs =
    let idx = heap_index flags in
    let a_size = round_size size in
    (k' : Kheap) × (kmalloc k size flags ≡ some (k.heap_base idx + alloc_offset a_size bs + 8, k'))
    × Layout k'.mem (k'.heap_base idx) (k'.heap_ptr idx) (alloc a_size (set_bit flags 0) bs)
    × Keeps k k' idx

kmalloc-found :
    (k : Kheap) (size flags : ℕ) (hdr : ℕ)
    → size ≢ 0
    → find_free
        (suc (k.heap_ptr (heap_index flags) - k.heap_base (heap_index flags)))
        k.mem
        (k.heap_ptr (heap_index flags))
        (round_size size)
        (k.heap_base (heap_index flags))
      ≡ found hdr
    → kmalloc k size flags
      ≡ some (hdr + 8, record k { mem = take_block k.mem hdr (round_size size) flags })
unfolding kmalloc
kmalloc-found k size flags hdr ne e = rw (nonzero, e)
  where
    nonzero : (size == 0) ≡ false
    nonzero = ground arith

-- The state after a new block has been put at the end of heap `idx`.
abbrev grown : Kheap → ℕ → ℕ → ℕ → Kheap
grown k idx a_size flags = record k {
  mem = add_block k.mem (k.heap_ptr idx) a_size flags;
  heap_ptr = write k.heap_ptr idx (k.heap_ptr idx + 8 + a_size + 4);
}

kmalloc-exhausted :
    (k : Kheap) (size flags : ℕ)
    → size ≢ 0
    → find_free
        (suc (k.heap_ptr (heap_index flags) - k.heap_base (heap_index flags)))
        k.mem
        (k.heap_ptr (heap_index flags))
        (round_size size)
        (k.heap_base (heap_index flags))
      ≡ exhausted
    → k.heap_ptr (heap_index flags) + 12 + round_size size ≤ 2 ^ 32
    → kmalloc k size flags
      ≡ some (k.heap_ptr (heap_index flags) + 8, grown k (heap_index flags) (round_size size) flags)
unfolding kmalloc
kmalloc-exhausted k size flags ne e room = rw (nonzero, e, fits)
  where
    nonzero : (size == 0) ≡ false
    nonzero = ground arith

    fits : leb (k.heap_ptr (heap_index flags) + 8 + round_size size + 4) (2 ^ 32) ≡ true
    fits = ground (arith, room)

take_block-heap :
    (mem : Mem) (base end a flags size hdr : ℕ) (xs ys : List Block)
    → Layout mem base end (xs ++ (free size ∷ ys))
    → end ≤ 2 ^ 32
    → hdr ≡ base + span xs
    → a ≤ size
    → a % 4 ≡ 0
    → Layout (take_block mem hdr a flags) base end (xs ++ (place size a (set_bit flags 0) ++ ys))
      × SameOutside base end mem (take_block mem hdr a flags)
take_block-heap mem base end a flags size hdr xs ys l below at fit al = (
  Layout-append new base hdr end xs (place size a (set_bit flags 0) ++ ys) front (
      Layout-append new hdr (hdr + 12 + size) end (place size a (set_bit flags 0)) ys
        (take_block-Layout mem hdr a flags size s fit small al) back),
  λ x out. other x (wider out),
)
  where
    new : Mem
    new = take_block mem hdr a flags

    parts : Layout mem base hdr xs × Layout mem hdr end (free size ∷ ys)
    parts =
        subst (λ n. Layout mem base n xs × Layout mem n end (free size ∷ ys)) (sym at)
          (Layout-split mem base end xs (free size ∷ ys) l)

    s : Stands mem hdr (free size)
    s = parts.1.0

    reach : hdr + extent (free size) + span ys ≡ end
    reach = Layout-end mem (hdr + extent (free size)) end ys parts.1.1

    small : size < 2 ^ 32
    small = omega (arith, reach)

    other : SameOutside hdr (hdr + 12 + size) mem new
    other = take_block-other mem hdr a flags size s fit small

    front : Layout new base hdr xs
    front = Layout-frame mem new base hdr xs (λ x lo hi. other x (inl hi)) parts.0

    back : Layout new (hdr + 12 + size) end ys
    back =
        Layout-frame mem new (hdr + 12 + size) end ys (λ x lo hi. other x (inr lo))
          (subst (λ n. Layout mem n end ys) (omega arith) parts.1.1)

    wider : {x : ℕ} → (x < base) ⊎ (end ≤ x) → (x < hdr) ⊎ (hdr + 12 + size ≤ x)
    wider (inl p) = inl (omega arith)
    wider (inr p) = inr (omega (arith, reach))

add_block-heap :
    (mem : Mem) (base end a flags : ℕ) (bs : List Block)
    → Layout mem base end bs
    → a % 4 ≡ 0
    → Layout
        (add_block mem end a flags)
        base
        (end + 8 + a + 4)
        (bs ++ (used a (set_bit flags 0) ∷ []))
add_block-heap mem base end a flags bs l al =
    Layout-append new base end (end + 8 + a + 4) bs (used a (set_bit flags 0) ∷ []) front
      (add_block-Stands mem end a flags al, omega arith)
  where
    new : Mem
    new = add_block mem end a flags

    front : Layout new base end bs
    front =
        Layout-frame mem new base end bs (λ x lo hi. add_block-other mem end a flags x (inl hi)) l

-- In a heap that is a list of blocks, with room for one more block of the rounded size below the
-- end of the address space, `kmalloc` of a size that is not 0 returns the address that first fit gives, leaves the heap as first fit leaves the list, and changes neither the other
-- heap's bounds nor any byte outside this heap.
pub kmalloc-FirstFit :
    (k : Kheap) (size flags : ℕ) (bs : List Block)
    → size ≢ 0
    → IsHeap k (heap_index flags) bs
    → k.heap_ptr (heap_index flags) + 12 + round_size size ≤ 2 ^ 32
    → FirstFit k size flags bs
kmalloc-FirstFit k size flags bs ne heap room = answer _ refl searched
  where
    idx : ℕ
    idx = heap_index flags

    a : ℕ
    a = round_size size

    base : ℕ
    base = k.heap_base idx

    end : ℕ
    end = k.heap_ptr idx

    reach : base + span bs ≡ end
    reach = Layout-end k.mem base end bs heap.layout

    searched : Outcome base a (set_bit flags 0) bs (find_free (suc (end - base)) k.mem end a base)
    searched =
        find_free-Outcome a (set_bit flags 0) (suc (end - base)) k.mem base end bs heap.layout
          (omega (arith, length-le-span bs, reach))

    answer :
        (r : Search)
        → find_free (suc (end - base)) k.mem end a base ≡ r
        → Outcome base a (set_bit flags 0) bs r
        → FirstFit k size flags bs
    answer _ e (hit xs ys s hdr at split fit result offset) =
        let (laid, same) =
          take_block-heap k.mem base end a flags s hdr xs ys
            (subst (Layout k.mem base end) split heap.layout) heap.below at fit
            (round_size-aligned size) in
        (
          record k { mem = take_block k.mem hdr a flags },
          kmalloc-found k size flags hdr ne e
              ∙ ap (λ n. some (n + 8, record k { mem = take_block k.mem hdr a flags }))
                  (at ∙ ap (λ n. base + n) (sym offset)),
          subst (Layout (take_block k.mem hdr a flags) base end) (sym result) laid,
          record { bases = λ i. refl; other_ptr = λ i p. refl; outside = same },
        )
    answer _ e (miss result offset) = (
      grown k idx a flags,
      kmalloc-exhausted k size flags ne e room
          ∙ ap (λ n. some (n + 8, grown k idx a flags))
              (sym reach ∙ ap (λ n. base + n) (sym offset)),
      rw (result, write-same k.heap_ptr idx (end + 8 + a + 4))
          (add_block-heap k.mem base end a flags bs heap.layout (round_size-aligned size)),
      record {
        bases = λ i. refl;
        other_ptr = λ i p. write-other k.heap_ptr idx (end + 8 + a + 4) i p;
        outside = rw (write-same k.heap_ptr idx (end + 8 + a + 4)) outside;
      },
    )
      where
        outside :
            (x : ℕ) → (x < base) ⊎ (end + 8 + a + 4 ≤ x) → add_block k.mem end a flags x ≡ k.mem x
        outside x (inl p) = add_block-other k.mem end a flags x (inl (omega (arith, reach)))
        outside x (inr p) = add_block-other k.mem end a flags x (inr (omega arith))
