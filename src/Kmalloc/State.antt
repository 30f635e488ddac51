-- ===== src/Kmalloc/State.antt =====
-- The two heaps as lists of blocks.
use osdev.Prelude.{ℕ, ◌^◌, ◌≤◌, ◌<◌, ◌≡◌, ◌≢◌, ◌⊎◌, List}
use osdev.Kmalloc.{Kheap}
use osdev.Kmalloc.Blocks.{Block}
use osdev.Kmalloc.Layout.{Layout}

-- The state in which heap `idx` is the list `bs` of blocks, below the end of the address space.
pub record IsHeap (k : Kheap) (idx : ℕ) (bs : List Block) : Type 0 where
  pub layout : Layout k.mem (k.heap_base idx) (k.heap_ptr idx) bs
  pub below : k.heap_ptr idx ≤ 2 ^ 32

-- A call that leaves every other address and the other heap's bounds as they were.
pub record Keeps (k k' : Kheap) (idx : ℕ) : Type 0 where
  pub bases : (i : ℕ) → k'.heap_base i ≡ k.heap_base i
  pub other_ptr : (i : ℕ) → i ≢ idx → k'.heap_ptr i ≡ k.heap_ptr i
  pub outside : (x : ℕ) → (x < k.heap_base idx) ⊎ (k'.heap_ptr idx ≤ x) → k'.mem x ≡ k.mem x
