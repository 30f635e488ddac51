-- ===== src/Ext2/Path.antt =====
-- The paths through the tree of pointer blocks, and the numbers that `get_block_iter` takes apart.
use osdev.Prelude.{
  ℕ, zero, suc, ◌+◌, ◌*◌, ◌/◌, ◌%◌, ◌^◌, ◌≤◌, ◌<◌, ◌≡◌, ◌∙◌, List, [], ◌∷◌, ◌==◌, if◌then◌else◌,
  length, arith,
}
use native.Mathlib.Nat.{
  mod-eq_of_lt, pow-succ', pow-zero, div-eq_of_lt, mul-add-div_right, mul-add-mod_self_right,
}
use osdev.Ext2.{Ext2, le32, block_offset, pointers}
use osdev.Ext2.Disk.{bytes_from, get_or-bytes_from}

-- The word of an image at a byte address.
abbrev pub word_at : (ℕ → ℕ) → ℕ → ℕ
word_at image at =
    image at + 0x100 * image (at + 1) + 0x10000 * (image (at + 2) + 0x100 * image (at + 2 + 1))

-- The block that a path of pointer slots leads to from block b. Block 0 is a hole at each level.
abbrev pub follow : (ℕ → ℕ) → Ext2 → ℕ → List ℕ → ℕ
follow image fs b [] = b
follow image fs b (slot ∷ path) =
    if b == 0 then 0 else follow image fs (word_at image (block_offset fs b + 4 * slot)) path

-- The number of a path, its slots as digits to the base p.
abbrev pub path_number : ℕ → List ℕ → ℕ
path_number p [] = 0
path_number p (slot ∷ path) = slot * p ^ length path + path_number p path

-- Every slot of the path is below p.
abbrev pub AllBelow : ℕ → List ℕ → Type 0
AllBelow p [] = Unit
AllBelow p (slot ∷ path) = (slot < p) × AllBelow p path

-- The volume lies below the wrap of `size_t`, and its blocks are not empty.
pub record Fits (fs : Ext2) : Type 0 where
  pub some_pointers : 0 < pointers fs
  pub whole : fs.block_size ≡ 4 * pointers fs
  pub below : fs.block_size + 2 * fs.dev.sector_size ≤ 2 ^ 32
  pub cube : pointers fs * pointers fs * pointers fs < 2 ^ 32

pub row_bound : (a b p : ℕ) → a < p → a * b + b ≤ p * b
row_bound a b zero h = absurd (omega arith)
row_bound zero b (suc p) h = omega arith
row_bound (suc a) b (suc p) h = omega (arith, row_bound a b p (omega arith))

pub path_number-bound :
    (p : ℕ) (path : List ℕ) → AllBelow p path → path_number p path < p ^ length path
path_number-bound p [] h = omega (arith, pow-zero p)
path_number-bound p (slot ∷ path) h = omega (
  arith,
  row_bound slot (p ^ length path) p h.0,
  path_number-bound p path h.1,
  pow-succ' p (length path),
)

-- The first digit, and what is left of the number.
pub digit : (d q r : ℕ) → r < q → ((d * q + r) / q ≡ d) × ((d * q + r) % q ≡ r)
digit d q r h = (
  omega (arith, mul-add-div_right {m = q} (omega arith) d r, div-eq_of_lt {n = r} {m = q} h),
  mul-add-mod_self_right d q r ∙ mod-eq_of_lt h,
)

-- A word of a block that was read.
pub le32-bytes_from :
    (image : ℕ → ℕ) (at i n : ℕ)
    → i + 4 ≤ n
    → le32 (bytes_from image at n) i ≡ word_at image (at + i)
le32-bytes_from image at i n h =
    rw
      (
        get_or-bytes_from image at i n (omega arith),
        get_or-bytes_from image at (i + 1) n (omega arith),
        get_or-bytes_from image at (i + 2) n (omega arith),
        get_or-bytes_from image at (i + 2 + 1) n (omega arith),
      )
      (assoc image at i)
  where
    assoc :
        (image : ℕ → ℕ) (at i : ℕ)
        → image (at + i)
            + 256 * image (at + (i + 1))
            + 65536 * (image (at + (i + 2)) + 256 * image (at + (i + 2 + 1)))
          ≡ word_at image (at + i)
    assoc image at i = grind arith
