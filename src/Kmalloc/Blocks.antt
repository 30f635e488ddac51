-- ===== src/Kmalloc/Blocks.antt =====
-- What a heap promises, with memory left out: the list of its blocks from the lowest address on,
-- first fit for an allocation, and a release that joins a free neighbour on each side.
use osdev.Prelude.{ℕ, ◌+◌, ◌-◌, ◌≡◌, refl, ap, List, [], ◌∷◌, ◌++◌, arith, leb, if◌then◌else◌}
use osdev.Kmalloc.{min_split, max_coalesce}

pub data Block : Type 0 where
  free : ℕ → Block
  -- A block's size and the flags in its header.
  used : ℕ → ℕ → Block

abbrev pub size_of : Block → ℕ
size_of (free size) = size
size_of (used size flags) = size

-- The bytes from one header to the next, and over a list of blocks.
abbrev pub extent : Block → ℕ
extent b = 12 + size_of b

abbrev pub span : List Block → ℕ
span [] = 0
span (b ∷ bs) = extent b + span bs

-- A free block of `size` bytes, taken for `a_size` of them.
abbrev pub place : ℕ → ℕ → ℕ → List Block
place size a_size flags =
    if leb min_split (size - a_size)
    then used a_size flags ∷ free (size - a_size - 12) ∷ []
    else used size flags ∷ []

-- First fit; a new block at the end if none fits.
unfoldable pub alloc : ℕ → ℕ → List Block → List Block
alloc a_size flags [] = used a_size flags ∷ []
alloc a_size flags (free size ∷ bs) =
    if leb a_size size then place size a_size flags ++ bs else free size ∷ alloc a_size flags bs
alloc a_size flags (used size f ∷ bs) = used size f ∷ alloc a_size flags bs

-- How far from the base of the heap the allocated block begins.
unfoldable pub alloc_offset : ℕ → List Block → ℕ
alloc_offset a_size [] = 0
alloc_offset a_size (free size ∷ bs) =
    if leb a_size size then 0 else extent (free size) + alloc_offset a_size bs
alloc_offset a_size (used size f ∷ bs) = extent (used size f) + alloc_offset a_size bs

-- A block of `size` bytes that is free now, before the blocks `bs`.
abbrev pub merge_right : ℕ → List Block → List Block
merge_right size (free r ∷ bs) =
    if leb r max_coalesce then free (size + (12 + r)) ∷ bs else free size ∷ free r ∷ bs
merge_right size bs = free size ∷ bs

-- The blocks `bs` after the block `b`, if the first of them is free and may join `b`.
abbrev pub merge_left : Block → List Block → List Block
merge_left (free l) (free size ∷ bs) =
    if leb l max_coalesce then free (l + (12 + size)) ∷ bs else free l ∷ free size ∷ bs
merge_left b bs = b ∷ bs

pub span-append : (xs ys : List Block) → span (xs ++ ys) ≡ span xs + span ys
span-append [] ys = omega arith
span-append (x ∷ xs) ys = omega (arith, span-append xs ys)

-- The block of `size` bytes between `xs` and `ys` is released.
unfoldable pub release : List Block → ℕ → List Block → List Block
release [] size ys = merge_right size ys
release (x ∷ []) size ys = merge_left x (merge_right size ys)
release (x ∷ y ∷ xs) size ys = x ∷ release (y ∷ xs) size ys

pub release-snoc :
    (xs : List Block) (x : Block) (size : ℕ) (ys : List Block)
    → release (xs ++ (x ∷ [])) size ys ≡ xs ++ merge_left x (merge_right size ys)
unfolding release
release-snoc [] x size ys = refl
release-snoc (y ∷ []) x size ys = refl
release-snoc (y ∷ z ∷ xs) x size ys = ap (λ l. y ∷ l) (release-snoc (z ∷ xs) x size ys)
