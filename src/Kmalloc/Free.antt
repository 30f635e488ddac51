-- ===== src/Kmalloc/Free.antt =====
-- `kfree` releases the block, joins its free neighbours, and leaves everything else alone.
use osdev.Prelude.{
  ℕ, ◌+◌, ◌-◌, ◌^◌, ◌≤◌, ◌<◌, ◌≡◌, refl, sym, ◌∙◌, ap, subst, ◌≢◌, ◌⊎◌, inl, inr, true, false, List,
  [], ◌∷◌, ◌++◌, arith, ◌==◌, ltb, clear_bit,
}
use osdev.Kmalloc.{
  Mem, Kheap, write, flags_of, is_present, join_right, join_left, kfree, heap_index,
}
use osdev.Kmalloc.Blocks.{Block, free, used, extent, span, merge_left, release, release-snoc}
use osdev.Kmalloc.Layout.{
  Stands, Layout, Layout-end, Layout-frame, Layout-append, Layout-split, write-same, write-other,
}
use osdev.Kmalloc.Place.{SameOutside, present-clear_bit}
use osdev.Kmalloc.State.{IsHeap}
use osdev.Kmalloc.Join.{JoinedRight, join_right-JoinedRight}
use osdev.Kmalloc.JoinLeft.{join_left-merge_left}

-- A list is empty, or has a last element.
snoc_cases :
    (xs : List Block) → (xs ≡ []) ⊎ ((ws : List Block) × (w : Block) × (xs ≡ ws ++ (w ∷ [])))
snoc_cases [] = inl refl
snoc_cases (x ∷ xs) = elim (snoc_cases xs) [
  | inl e ↦ inr ([], x, ap (λ l. x ∷ l) e)
  | inr (ws, w, e) ↦ inr (x ∷ ws, w, ap (λ l. x ∷ l) e)
]

-- The join on the left, at the first block of a heap and at a later one.
module _ (mem : Mem) (base end size hdr : ℕ) (ys rest : List Block) (s : Stands mem hdr (free size))
    (follow : Layout mem (hdr + extent (free size)) end rest) (below : end ≤ 2 ^ 32) where
  join_left-none : base ≡ hdr → join_left mem base hdr (hdr + 8 + size) ≡ mem
  unfolding join_left
  join_left-none e = rw first
    where
      first : ltb base hdr ≡ false
      first = ground arith

  join_left-first :
      base ≡ hdr
      → Layout (join_left mem base hdr (hdr + 8 + size)) base end (free size ∷ rest)
        × SameOutside base end mem (join_left mem base hdr (hdr + 8 + size))
  join_left-first e =
      subst (λ m. Layout m base end (free size ∷ rest) × SameOutside base end mem m)
        (sym (join_left-none e))
        (subst (λ n. Layout mem n end (free size ∷ rest)) (sym e) (s, follow), λ x out. refl)

  join_left-later :
      (ws : List Block) (w : Block)
      → Layout mem base hdr (ws ++ (w ∷ []))
      → Layout
          (join_left mem base hdr (hdr + 8 + size))
          base
          end
          (ws ++ merge_left w (free size ∷ rest))
        × SameOutside base end mem (join_left mem base hdr (hdr + 8 + size))
  join_left-later ws w l = (
    Layout-append new base at end ws (merge_left w (free size ∷ rest))
        (Layout-frame mem new base at ws (λ x lo hi. joined.1 x (inl hi)) parts.0) joined.0,
    λ x out. joined.1 x (wider out),
  )
    where
      at : ℕ
      at = base + span ws

      new : Mem
      new = join_left mem base hdr (hdr + 8 + size)

      parts : Layout mem base at ws × Layout mem at hdr (w ∷ [])
      parts = Layout-split mem base hdr ws (w ∷ []) l

      joined : Layout new at end (merge_left w (free size ∷ rest)) × SameOutside at end mem new
      joined =
          subst
            (λ n.
              Layout (join_left mem base n (n + 8 + size)) at end (merge_left w (free size ∷ rest))
              × SameOutside at end mem (join_left mem base n (n + 8 + size)))
            parts.1.1
            (join_left-merge_left mem base at end size w rest parts.1.0
              (subst (λ n. Stands mem n (free size)) (sym parts.1.1) s)
              (subst (λ n. Layout mem (n + extent (free size)) end rest) (sym parts.1.1) follow)
              below (omega arith))

      wider : {x : ℕ} → (x < base) ⊎ (end ≤ x) → (x < at) ⊎ (end ≤ x)
      wider (inl p) = inl (omega arith)
      wider (inr p) = inr p

-- The end of `kfree`: the memory after both joins of the block at `hdr`.
abbrev both_joins : Mem → ℕ → ℕ → ℕ → ℕ → Mem
both_joins mem base end hdr size =
    let r = join_right mem end hdr (hdr + 8 + size) in join_left r.0 base hdr r.1

-- Both joins, after the flags of the block at `hdr` have been cleared.
module _ (mem : Mem) (base end size hdr : ℕ) (xs ys : List Block) (front : Layout mem base hdr xs)
    (s : Stands mem hdr (free size)) (follow : Layout mem (hdr + extent (free size)) end ys)
    (below : end ≤ 2 ^ 32) where
  abbrev Released : Mem → Type 0
  Released m = Layout m base end (release xs size ys) × SameOutside base end mem m

  reach : base + span xs + extent (free size) + span ys ≡ end
  reach = omega (
    arith,
    Layout-end mem base hdr xs front,
    Layout-end mem (hdr + extent (free size)) end ys follow,
  )

  joined-Released : Released (both_joins mem base end hdr size)
  unfolding release
  joined-Released = elim (snoc_cases xs) [
    | inl none_left ↦ first none_left
    | inr (ws, w, some_left) ↦ later ws w some_left
  ]
    where
      right : JoinedRight mem hdr end size ys (join_right mem end hdr (hdr + 8 + size))
      right = join_right-JoinedRight mem hdr end size s below ys follow

      mem2 : Mem
      mem2 = (join_right mem end hdr (hdr + 8 + size)).0

      start : base + span xs ≡ hdr
      start = Layout-end mem base hdr xs front

      kept : Layout mem2 base hdr xs
      kept = Layout-frame mem mem2 base hdr xs (λ x lo hi. right.same x (inl hi)) front

      wider : {x : ℕ} → (x < base) ⊎ (end ≤ x) → (x < hdr) ⊎ (end ≤ x)
      wider (inl p) = inl (omega (arith, start))
      wider (inr p) = inr p

      first : xs ≡ [] → Released (both_joins mem base end hdr size)
      first e =
          let at : base ≡ hdr = omega (arith, start, ap span e) in
          let (l, same) =
            join_left-first mem2 base end right.new_size hdr ys right.rest right.stands right.follow
              below at in
          rw (right.footer, e, release, right.merged)
            (l, λ x out. same x out ∙ right.same x (wider out))

      later :
          (ws : List Block) (w : Block)
          → xs ≡ ws ++ (w ∷ [])
          → Released (both_joins mem base end hdr size)
      later ws w e =
          let (l, same) =
            join_left-later mem2 base end right.new_size hdr ys right.rest right.stands right.follow
              below ws w (subst (Layout mem2 base hdr) e kept) in
          rw (right.footer, e, release-snoc ws w size ys, right.merged)
            (l, λ x out. same x out ∙ right.same x (wider out))

-- What `kfree` leaves of a heap in which the block was in use.
abbrev pub Freed : Kheap → ℕ → ℕ → List Block → ℕ → List Block → Type 0
Freed k addr idx xs size ys =
    let k' = kfree k addr in
    Layout k'.mem (k'.heap_base idx) (k'.heap_ptr idx) (release xs size ys)
    × (k'.heap_base ≡ k.heap_base)
    × (k'.heap_ptr ≡ k.heap_ptr)
    × SameOutside (k.heap_base idx) (k.heap_ptr idx) k.mem k'.mem

kfree-present :
    (k : Kheap) (hdr flags size : ℕ)
    → flags_of k.mem hdr ≡ flags
    → k.mem hdr ≡ size
    → is_present flags ≡ true
    → kfree k (hdr + 8) ≡ record k {
      mem =
          both_joins
            (write k.mem (hdr + 4) (clear_bit flags 0))
            (k.heap_base (heap_index flags))
            (k.heap_ptr (heap_index flags))
            hdr
            size;
    }
unfolding kfree
kfree-present k hdr flags size marks sized present = rw (nonzero, back, marks, present, sized)
  where
    nonzero : (hdr + 8 == 0) ≡ false
    nonzero = ground arith

    back : hdr + 8 - 8 ≡ hdr
    back = omega arith

-- In a heap that is a list of blocks, `kfree` of the address of a block in use leaves that list
-- with the block released: it is free, it has taken in the free block on its right if that is no
-- larger than MAX_COALESCE, and the block on its left, if free and no larger, has taken in both.
-- The bounds of the heaps and all memory outside this heap stay as they were.
pub kfree-release :
    (k : Kheap) (xs : List Block) (size flags : ℕ) (ys : List Block)
    → IsHeap k (heap_index flags) (xs ++ (used size flags ∷ ys))
    → Freed k (k.heap_base (heap_index flags) + span xs + 8) (heap_index flags) xs size ys
kfree-release k xs size flags ys heap =
    rw (kfree-present k hdr flags size block.marked.0 block.sized block.marked.1) (
      released.0,
      refl,
      refl,
      λ x out. released.1 x out ∙ write-other k.mem (hdr + 4) (clear_bit flags 0) x (apart out),
    )
  where
    base : ℕ
    base = k.heap_base (heap_index flags)

    end : ℕ
    end = k.heap_ptr (heap_index flags)

    hdr : ℕ
    hdr = base + span xs

    parts : Layout k.mem base hdr xs × Layout k.mem hdr end (used size flags ∷ ys)
    parts = Layout-split k.mem base end xs (used size flags ∷ ys) heap.layout

    block : Stands k.mem hdr (used size flags)
    block = parts.1.0

    reach : hdr + extent (used size flags) + span ys ≡ end
    reach = Layout-end k.mem (hdr + extent (used size flags)) end ys parts.1.1

    mem1 : Mem
    mem1 = write k.mem (hdr + 4) (clear_bit flags 0)

    cleared : Stands mem1 hdr (free size)
    cleared = record {
      sized = write-other k.mem (hdr + 4) (clear_bit flags 0) hdr (omega arith) ∙ block.sized;
      marked = rw (write-same k.mem (hdr + 4) (clear_bit flags 0)) (present-clear_bit flags);
      footed =
          write-other k.mem (hdr + 4) (clear_bit flags 0) (hdr + 8 + size) (omega arith)
          ∙ block.footed;
      aligned = block.aligned;
    }

    apart : {x : ℕ} → (x < base) ⊎ (end ≤ x) → x ≢ hdr + 4
    apart (inl p) = omega arith
    apart (inr p) = omega (arith, reach)

    released :
        Layout (both_joins mem1 base end hdr size) base end (release xs size ys)
        × SameOutside base end mem1 (both_joins mem1 base end hdr size)
    released =
        joined-Released mem1 base end size hdr xs ys
          (Layout-frame k.mem mem1 base hdr xs
            (λ x lo hi. write-other k.mem (hdr + 4) (clear_bit flags 0) x (omega arith)) parts.0)
          cleared
          (Layout-frame k.mem mem1 (hdr + extent (used size flags)) end ys
            (λ x lo hi. write-other k.mem (hdr + 4) (clear_bit flags 0) x (omega arith)) parts.1.1)
          heap.below
