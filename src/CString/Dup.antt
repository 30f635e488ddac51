-- ===== src/CString/Dup.antt =====
-- lib/string/strdup.c: copies in a new block of the kernel heap.
use osdev.Prelude.{
  ℕ, zero, suc, ◌+◌, ◌<◌, ◌≤◌, ◌%◌, ◌^◌, ◌≡◌, ◌≢◌, ap, ◌∙◌, false, Option, none, some, List, ◌==◌,
  if◌then◌else◌, arith,
}
use osdev.CString.{Bytes, memcpy}
use osdev.CString.Move.{memcpy-copies}
use osdev.Kmalloc.{Kheap, kmalloc, round_size}
use osdev.Kmalloc.Blocks.{Block, alloc_offset}
use osdev.Kmalloc.State.{IsHeap}
use osdev.Kmalloc.Alloc.{kmalloc-FirstFit}

-- `strlen` in memory, `none` where there is no terminator within the fuel.
unfoldable pub strlen_at : ℕ → Bytes → ℕ → Option ℕ
strlen_at zero mem s = none
strlen_at (suc fuel) mem s =
    if mem s == 0
    then some 0
    else elim (strlen_at fuel mem (s + 1)) [ none ↦ none | some n ↦ some (suc n) ]

-- The pointer that is returned, and the heap and the memory afterwards.
unfoldable pub strndup : Kheap → Bytes → ℕ → ℕ → Option (ℕ × Kheap × Bytes)
unfolding kmalloc memcpy
strndup k mem s len = elim (kmalloc k len 0) [
  | none ↦ none
  | some (d, k') ↦ some (if d == 0 then (0, k', mem) else (d, k', memcpy mem d s len))
]

-- `strdup` is `strndup` with the terminator counted.
unfoldable pub strdup : ℕ → Kheap → Bytes → ℕ → Option (ℕ × Kheap × Bytes)
unfolding strlen_at strndup
strdup fuel k mem s = elim (strlen_at fuel mem s) [
  | none ↦ none
  | some n ↦ strndup k mem s ((n + 1) % 2 ^ 32)
]

after_kmalloc : Bytes → ℕ → ℕ → Option (ℕ × Kheap) → Option (ℕ × Kheap × Bytes)
after_kmalloc mem s len none = none
after_kmalloc mem s len (some (d, k')) =
    some (if d == 0 then (0, k', mem) else (d, k', memcpy mem d s len))

-- In a kernel heap that is a list of blocks, stands above the bytes and has room for one more block
-- of the rounded length below the end of the address space: `strndup` of a length that is not 0
-- succeeds, and its bytes are those that were at the source.
pub strndup-copies :
    (k : Kheap) (mem : Bytes) (s len : ℕ) (bs : List Block)
    → len ≢ 0
    → IsHeap k 0 bs
    → k.heap_ptr 0 + 12 + round_size len ≤ 2 ^ 32
    → s + len ≤ k.heap_base 0
    → (d : ℕ) × (k' : Kheap) × (mem' : Bytes) × (strndup k mem s len ≡ some (d, k', mem'))
      × ((i : ℕ) → i < len → mem' (d + i) ≡ mem (s + i))
unfolding strndup after_kmalloc
strndup-copies k mem s len bs some_bytes heap room below =
    let (k', result, laid, keeps) = kmalloc-FirstFit k len 0 bs some_bytes heap room in
    let d = k.heap_base 0 + alloc_offset (round_size len) bs + 8 in
    (
      d,
      k',
      memcpy mem d s len,
      ap (after_kmalloc mem s len) result
          ∙ ap (λ b. some (if b then (0, k', mem) else (d, k', memcpy mem d s len))) (nonzero _),
      λ i lt. memcpy-copies mem d s len i (omega arith) lt,
    )
  where
    nonzero : (n : ℕ) → (n + 8 == 0) ≡ false
    nonzero n = ground arith

-- In a kernel heap that is a list of blocks, stands above the string and has room for one more block
-- of its rounded size, terminator included, below the end of the address space: `strdup` of a string whose terminator is found
-- after n characters, within the fuel, succeeds, and the bytes at the new address, the terminator
-- included, are those of the string.
pub strdup-copies :
    (fuel : ℕ) (k : Kheap) (mem : Bytes) (s n : ℕ) (bs : List Block)
    → strlen_at fuel mem s ≡ some n
    → n + 1 < 2 ^ 32
    → IsHeap k 0 bs
    → k.heap_ptr 0 + 12 + round_size (n + 1) ≤ 2 ^ 32
    → s + n + 1 ≤ k.heap_base 0
    → (d : ℕ) × (k' : Kheap) × (mem' : Bytes) × (strdup fuel k mem s ≡ some (d, k', mem'))
      × ((i : ℕ) → i < n + 1 → mem' (d + i) ≡ mem (s + i))
unfolding strdup
strdup-copies fuel k mem s n bs text small heap room below =
    let (d, k', mem', result, copied) =
      strndup-copies k mem s (n + 1) bs (omega arith) heap room (omega arith) in
    (d, k', mem', ap step text ∙ ap (strndup k mem s) (omega (arith, small)) ∙ result, copied)
  where
    step : Option ℕ → Option (ℕ × Kheap × Bytes)
    step r = elim r [ none ↦ none | some n ↦ strndup k mem s ((n + 1) % 2 ^ 32) ]
