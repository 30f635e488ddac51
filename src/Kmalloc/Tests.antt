-- ===== src/Kmalloc/Tests.antt =====
-- A kernel heap of two blocks, one in use and one free.
use osdev.Prelude.{
  ℕ, ◌+◌, ◌^◌, ◌≤◌, ◌<◌, ◌≡◌, ◌⊎◌, ◌%◌, refl, some, List, [], ◌∷◌, ◌++◌, arith, if◌then◌else◌, ◌==◌,
}
use osdev.Kmalloc.{Mem, Kheap, kmalloc, kfree, round_size}
use osdev.Kmalloc.Blocks.{Block, free, used, span, alloc, release}
use osdev.Kmalloc.State.{IsHeap}
use osdev.Kmalloc.Alloc.{FirstFit, kmalloc-FirstFit}
use osdev.Kmalloc.Free.{Freed, kfree-release}
use osdev.Kmalloc.Contract.{InUse, round_size_cases, kmalloc-serves, kmalloc-keeps, kmalloc-kfree}

abbrev two_blocks_mem : Mem
two_blocks_mem a =
    if a == 4096
    then 16
    else if a == 4100
    then 1
    else if a == 4120
    then 4096
    else if a == 4124
    then 64
    else if a == 4196
    then 4124
    else 0

abbrev two_blocks : Kheap
two_blocks = record { mem = two_blocks_mem; heap_base = λ _. 4096; heap_ptr = λ _. 4200 }

two_blocks-IsHeap : IsHeap two_blocks 0 (used 16 1 ∷ free 64 ∷ [])
two_blocks-IsHeap = record {
  layout = (
    record { sized = refl; marked = (refl, refl); footed = refl; aligned = refl },
    (record { sized = refl; marked = refl; footed = refl; aligned = refl }, refl),
  );
  below = omega arith;
}

room_20 : 4200 + 12 + round_size 20 ≤ 2 ^ 32
unfolding round_size
room_20 = omega arith

kmalloc-FirstFit_example : FirstFit two_blocks 20 0 (used 16 1 ∷ free 64 ∷ [])
kmalloc-FirstFit_example =
    kmalloc-FirstFit two_blocks 20 0 (used 16 1 ∷ free 64 ∷ []) (ground arith) two_blocks-IsHeap
      room_20

kfree-release_example : Freed two_blocks 4104 0 [] 16 (free 64 ∷ [])
kfree-release_example = kfree-release two_blocks [] 16 1 (free 64 ∷ []) two_blocks-IsHeap

kmalloc-serves_example :
    (hdr : ℕ) × (k' : Kheap) × (room : ℕ) × (kmalloc two_blocks 20 0 ≡ some (hdr + 8, k'))
    × InUse k' 0 hdr room 1
    × (20 ≤ room)
kmalloc-serves_example =
    kmalloc-serves two_blocks 20 0 (used 16 1 ∷ free 64 ∷ []) (ground arith) (omega arith)
      two_blocks-IsHeap room_20

kmalloc-keeps_example :
    (addr : ℕ) × (k' : Kheap) × (kmalloc two_blocks 20 0 ≡ some (addr, k')) × InUse k' 0 4096 16 1
kmalloc-keeps_example =
    kmalloc-keeps two_blocks 20 0 [] 16 1 (free 64 ∷ []) (ground arith) two_blocks-IsHeap room_20

kmalloc-kfree_example :
    (addr : ℕ) × (k' : Kheap) × (xs : List Block) × (room : ℕ) × (ys : List Block) × (kmalloc
        two_blocks 20 0
      ≡ some (addr, k'))
    × (alloc (round_size 20) 1 (used 16 1 ∷ free 64 ∷ []) ≡ xs ++ (used room 1 ∷ ys))
    × IsHeap (kfree k' addr) 0 (release xs room ys)
    × (span (release xs room ys) ≡ span (alloc (round_size 20) 1 (used 16 1 ∷ free 64 ∷ [])))
unfolding round_size
kmalloc-kfree_example =
    kmalloc-kfree two_blocks 20 0 (used 16 1 ∷ free 64 ∷ []) (ground arith) two_blocks-IsHeap
      (omega arith)

round_size_cases_example :
    ((4294967295 + 7 < 2 ^ 32)
      × (4294967295 ≤ round_size 4294967295)
      × (round_size 4294967295 < 4294967295 + 8)
      × (round_size 4294967295 % 8 ≡ 0))
    ⊎ ((2 ^ 32 ≤ 4294967295 + 7) × (round_size 4294967295 ≡ 0))
round_size_cases_example = round_size_cases 4294967295 (omega arith)
