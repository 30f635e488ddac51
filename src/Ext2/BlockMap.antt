-- ===== src/Ext2/BlockMap.antt =====
-- `get_block_iter`: one path through the tree of pointer blocks.
use osdev.Prelude.{
  ℕ, suc, ◌+◌, ◌*◌, ◌/◌, ◌%◌, ◌^◌, ◌≤◌, ◌<◌, ◌≡◌, ◌≢◌, refl, sym, ap, subst, ◌∙◌, false, List, [],
  ◌∷◌, ◌==◌, if◌then◌else◌, length, leb, arith, ℕ_discrete,
}
use native.Mathlib.Nat.{mod-eq_of_lt, mod-lt, pow-le-pow_right}
use osdev.Ext2.{Ext2, block_offset, pointers, get_block_iter}
use osdev.Ext2.Disk.{HoldsImage, disk_read-image}
use osdev.Ext2.Path.{
  word_at, follow, path_number, AllBelow, Fits, path_number-bound, digit, le32-bytes_from,
}

-- One level: the pointer read, and what is done with it.
get_block_iter-level :
    (image : ℕ → ℕ) (fs : Ext2) (iter lb b : ℕ)
    → HoldsImage fs.dev image
    → Fits fs
    → b ≢ 0
    → pointers fs ^ iter < 2 ^ 32
    → lb / pointers fs ^ iter < pointers fs
    → get_block_iter (suc iter) fs lb b ≡ (
        let ptr = word_at image (block_offset fs b + 4 * (lb / pointers fs ^ iter)) in
        if iter == 0 then ptr else get_block_iter iter fs (lb % pointers fs ^ iter) ptr)
unfolding get_block_iter
get_block_iter-level image fs iter lb b holds fits some_block below inside =
    rw
      (
        is_block,
        is_full,
        disk_read-image fs.dev image (block_offset fs b) fs.block_size holds full readable,
        mod-eq_of_lt {n = pointers fs ^ iter} {m = 2 ^ 32} below,
        has_slot,
        le32-bytes_from image (block_offset fs b) (4 * (lb / pointers fs ^ iter)) fs.block_size
            (omega (arith, fits.whole)),
      )
      refl
  where
    full : 0 < fs.block_size
    full = omega (arith, fits.whole, fits.some_pointers)

    is_block : (b == 0) ≡ false
    is_block = ground arith

    is_full : (fs.block_size == 0) ≡ false
    is_full = ground arith

    has_slot : leb (pointers fs) (lb / pointers fs ^ iter) ≡ false
    has_slot = ground arith

    readable : block_offset fs b % fs.dev.sector_size + fs.block_size + fs.dev.sector_size ≤ 2 ^ 32
    readable = omega (arith, fits.below, mod-lt (block_offset fs b) holds.sectors)

get_block_iter-hole : (fs : Ext2) (iter lb : ℕ) → get_block_iter (suc iter) fs lb 0 ≡ 0
unfolding get_block_iter
get_block_iter-hole fs iter lb = refl

-- One level along a path.
get_block_iter-slot :
    (image : ℕ → ℕ) (fs : Ext2) (slot : ℕ) (path : List ℕ) (b : ℕ)
    → HoldsImage fs.dev image
    → Fits fs
    → b ≢ 0
    → AllBelow (pointers fs) (slot ∷ path)
    → pointers fs ^ length path < 2 ^ 32
    → get_block_iter (suc (length path)) fs (path_number (pointers fs) (slot ∷ path)) b ≡ (
        let ptr = word_at image (block_offset fs b + 4 * slot) in
        if length path == 0
        then ptr
        else get_block_iter (length path) fs (path_number (pointers fs) path) ptr)
get_block_iter-slot image fs slot path b holds fits some_block slots below =
    get_block_iter-level image fs (length path) lb b holds fits some_block below
      (subst (λ d. d < pointers fs) (sym digits.0) slots.0)
    ∙ ap (λ d. one d (lb % pointers fs ^ length path)) digits.0
    ∙ ap (one slot) digits.1
  where
    lb : ℕ
    lb = path_number (pointers fs) (slot ∷ path)

    digits :
        (lb / pointers fs ^ length path ≡ slot)
        × (lb % pointers fs ^ length path ≡ path_number (pointers fs) path)
    digits =
        digit slot (pointers fs ^ length path) (path_number (pointers fs) path)
          (path_number-bound (pointers fs) path slots.1)

    one : ℕ → ℕ → ℕ
    one d r =
        let ptr = word_at image (block_offset fs b + 4 * d) in
        if length path == 0 then ptr else get_block_iter (length path) fs r ptr

follow-slot :
    (image : ℕ → ℕ) (fs : Ext2) (slot : ℕ) (path : List ℕ) (b : ℕ)
    → b ≢ 0
    → follow image fs (word_at image (block_offset fs b + 4 * slot)) path
      ≡ follow image fs b (slot ∷ path)
follow-slot image fs slot path b some_block = rw (is_block) refl
  where
    is_block : (b == 0) ≡ false
    is_block = ground arith

-- A path from the path below its first slot.
follow-step :
    (image : ℕ → ℕ) (fs : Ext2) (slot : ℕ) (path : List ℕ) (b : ℕ)
    → HoldsImage fs.dev image
    → Fits fs
    → AllBelow (pointers fs) (slot ∷ path)
    → pointers fs ^ length path < 2 ^ 32
    → (let ptr = word_at image (block_offset fs b + 4 * slot) in
        (if length path == 0
          then ptr
          else get_block_iter (length path) fs (path_number (pointers fs) path) ptr)
        ≡ follow image fs ptr path)
    → get_block_iter (suc (length path)) fs (path_number (pointers fs) (slot ∷ path)) b
      ≡ follow image fs b (slot ∷ path)
follow-step image fs slot path b holds fits slots below rest = elim (ℕ_discrete b 0) [
  | yes hole ↦
      subst
        (λ b.
          get_block_iter (suc (length path)) fs (path_number (pointers fs) (slot ∷ path)) b
          ≡ follow image fs b (slot ∷ path))
        (sym hole) (get_block_iter-hole fs (length path) (path_number (pointers fs) (slot ∷ path)))
  | no some_block ↦
      get_block_iter-slot image fs slot path b holds fits some_block slots below
      ∙ rest
      ∙ follow-slot image fs slot path b some_block
]

-- `get_block_iter` returns the block that a path leads to, given the path's number, on a device
-- that holds the image, if the blocks below a slot are fewer than 2 ^ 32.
pub get_block_iter-follow :
    (image : ℕ → ℕ) (fs : Ext2) (slot : ℕ) (path : List ℕ) (b : ℕ)
    → HoldsImage fs.dev image
    → Fits fs
    → AllBelow (pointers fs) (slot ∷ path)
    → pointers fs ^ length path < 2 ^ 32
    → get_block_iter (suc (length path)) fs (path_number (pointers fs) (slot ∷ path)) b
      ≡ follow image fs b (slot ∷ path)
get_block_iter-follow image fs slot [] b holds fits slots below =
    follow-step image fs slot [] b holds fits slots below refl
get_block_iter-follow image fs slot (next ∷ path) b holds fits slots below =
    follow-step image fs slot (next ∷ path) b holds fits slots below (
      rw (more) (
        get_block_iter-follow image fs next path (word_at image (block_offset fs b + 4 * slot))
          holds fits slots.1 below'))
  where
    more : (suc (length path) == 0) ≡ false
    more = ground arith

    below' : pointers fs ^ length path < 2 ^ 32
    below' = omega (
      arith,
      below,
      pow-le-pow_right {n = pointers fs} fits.some_pointers {i = length path}
          {j = suc (length path)} (omega arith),
    )
