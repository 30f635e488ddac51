-- ===== src/Ext2/Read.antt =====
-- `ext2_read_inode`: any run of bytes of a file, by reads of whole blocks.
use osdev.Prelude.{
  List, [], Bool, Option, none, ℕ, zero, suc, ◌+◌, ◌-◌, ◌*◌, ◌/◌, ◌%◌, ◌^◌, ◌≤◌, ◌<◌, ◌≡◌, ◌≢◌,
  refl, sym, ap, ◌∙◌, true, false, some, ◌∷◌, ◌++◌, ◌==◌, if◌then◌else◌, ltb, leb, arith, dec_lt,
  ℕ_discrete, replicate,
}
use native.Mathlib.Nat.{mod-eq_of_lt, mod-lt, div-add-mod'}
use osdev.Ext2.{Ext2, Inode, block_offset, get_block, disk_read, read_blocks, ext2_read_inode, got}
use osdev.Ext2.Disk.{HoldsImage, bytes_from, bytes_from-append, window-bytes_from, disk_read-image}
use osdev.Ext2.Path.{Fits, digit}

-- The byte of a file at an offset: 0 in a hole, else the byte of its block.
abbrev pub file_byte : (ℕ → ℕ) → Ext2 → Inode → ℕ → ℕ
file_byte image fs inode at =
    let block = get_block fs inode (at / fs.block_size) in
    if block == 0 then 0 else image (block_offset fs block + at % fs.block_size)

bytes_from-cong :
    (f g : ℕ → ℕ) (a b n : ℕ)
    → ((k : ℕ) → k < n → f (a + k) ≡ g (b + k))
    → bytes_from f a n ≡ bytes_from g b n
bytes_from-cong f g a b zero same = refl
bytes_from-cong f g a b (suc n) same =
    ap (λ x. x ∷ bytes_from f (a + 1) n)
      (ap f (omega arith) ∙ same 0 (omega arith) ∙ ap g (omega arith))
    ∙ ap (λ l. g b ∷ l) (bytes_from-cong f g (a + 1) (b + 1) n later)
  where
    later : (k : ℕ) → k < n → f (a + 1 + k) ≡ g (b + 1 + k)
    later k h = ap f (omega arith) ∙ same (suc k) (omega arith) ∙ ap g (omega arith)

replicate-bytes_from : (a n : ℕ) → replicate n 0 ≡ bytes_from (λ k. 0) a n
replicate-bytes_from a zero = refl
replicate-bytes_from a (suc n) = ap (λ l. 0 ∷ l) (replicate-bytes_from (a + 1) n)

-- The bytes of one block, as `read_blocks` gets them.
block_bytes :
    (image : ℕ → ℕ) (fs : Ext2) (inode : Inode) (i : ℕ)
    → HoldsImage fs.dev image
    → Fits fs
    → (let block = get_block fs inode i in
        (if block == 0
          then some (replicate fs.block_size 0)
          else disk_read fs.dev (block_offset fs block) fs.block_size)
        ≡ some (bytes_from (file_byte image fs inode) (i * fs.block_size) fs.block_size))
block_bytes image fs inode i holds fits = elim (ℕ_discrete block 0) [
  | yes hole ↦ rw (is_hole hole) (
      ap some (
        replicate-bytes_from 0 bs
        ∙ bytes_from-cong (λ k. 0) (file_byte image fs inode) 0 (i * bs) bs
            (λ k h. sym (here k h ∙ rw (is_hole hole) refl))))
  | no disk ↦ rw (is_disk disk) (
      disk_read-image fs.dev image (block_offset fs block) bs holds full readable
      ∙ ap some (
          bytes_from-cong image (file_byte image fs inode) (block_offset fs block) (i * bs) bs
            (λ k h. sym (here k h ∙ rw (is_disk disk) refl))))
]
  where
    bs : ℕ
    bs = fs.block_size

    block : ℕ
    block = get_block fs inode i

    full : 0 < bs
    full = omega (arith, fits.whole, fits.some_pointers)

    readable : block_offset fs block % fs.dev.sector_size + bs + fs.dev.sector_size ≤ 2 ^ 32
    readable = omega (arith, fits.below, mod-lt (block_offset fs block) holds.sectors)

    is_hole : block ≡ 0 → (block == 0) ≡ true
    is_hole hole = ground arith

    is_disk : block ≢ 0 → (block == 0) ≡ false
    is_disk disk = ground arith

    here :
        (k : ℕ)
        → k < bs
        → file_byte image fs inode (i * bs + k)
          ≡ (if block == 0 then 0 else image (block_offset fs block + k))
    here k h =
        ap
          (λ b.
            if get_block fs inode b == 0
            then 0
            else image (block_offset fs (get_block fs inode b) + (i * bs + k) % bs))
          (digit i bs k h).0
        ∙ ap (λ r. if block == 0 then 0 else image (block_offset fs block + r)) (digit i bs k h).1

pub read_blocks-file :
    (image : ℕ → ℕ) (fs : Ext2) (inode : Inode) (n i : ℕ)
    → HoldsImage fs.dev image
    → Fits fs
    → read_blocks n fs inode i
      ≡ (bytes_from (file_byte image fs inode) (i * fs.block_size) (n * fs.block_size), false)
unfolding read_blocks
read_blocks-file image fs inode zero i holds fits =
    ap (λ n. (bytes_from (file_byte image fs inode) (i * fs.block_size) n, false))
      (none_left fs.block_size)
  where
    none_left : (b : ℕ) → 0 ≡ 0 * b
    none_left b = omega arith
read_blocks-file image fs inode (suc n) i holds fits =
    ap (go_on (read_blocks n fs inode (i + 1))) (block_bytes image fs inode i holds fits)
    ∙ ap
        (λ r. (bytes_from (file_byte image fs inode) (i * fs.block_size) fs.block_size ++ r.0, r.1))
        (read_blocks-file image fs inode n (i + 1) holds fits)
    ∙ (ap (λ l. (l, false))
        (ap
            (λ a.
              bytes_from (file_byte image fs inode) (i * fs.block_size) fs.block_size
              ++ bytes_from (file_byte image fs inode) a (n * fs.block_size))
            (next i fs.block_size)
          ∙ bytes_from-append (file_byte image fs inode) (i * fs.block_size) fs.block_size
              (n * fs.block_size)
          ∙ ap (bytes_from (file_byte image fs inode) (i * fs.block_size))
              (one_more n fs.block_size)))
  where
    go_on : List ℕ × Bool → Option (List ℕ) → List ℕ × Bool
    go_on later none = ([], true)
    go_on later (some b) = (let (rest, failed) = later in (b ++ rest, failed))

    next : (i b : ℕ) → (i + 1) * b ≡ i * b + b
    next i b = grind arith

    one_more : (n b : ℕ) → b + n * b ≡ suc n * b
    one_more n b = grind arith

-- What the source computes of a request.
blocks_cover : (b r len : ℕ) → 0 < b → r < b → r + len ≤ (len + r + b - 1) / b * b
blocks_cover b r len full h =
    omega (arith, div-add-mod' (len + r + b - 1) b, mod-lt (len + r + b - 1) full)

-- The bytes that a request asks for, cut off at the end of the file.
abbrev pub asked : Inode → ℕ → ℕ → ℕ
asked inode off len = if ltb (inode.size - off) len then inode.size - off else len

asked_cases :
    (inode : Inode) (off len : ℕ)
    → off < inode.size
    → 0 < len
    → (0 < asked inode off len) × (asked inode off len ≤ len)
asked_cases inode off len inside some_bytes = (ground arith, ground arith)

read_inside :
    (image : ℕ → ℕ) (fs : Ext2) (inode : Inode) (off len : ℕ)
    → HoldsImage fs.dev image
    → Fits fs
    → off < inode.size
    → 0 < asked inode off len
    → asked inode off len + 2 * fs.block_size ≤ 2 ^ 32
    → ext2_read_inode fs inode off len
      ≡ got (bytes_from (file_byte image fs inode) off (asked inode off len))
unfolding ext2_read_inode
read_inside image fs inode off len holds fits inside some_bytes below =
    rw (within, small, exact, nonzero, read_blocks-file image fs inode blocks (off / bs) holds fits)
      (ap got (
        window-bytes_from (file_byte image fs inode) (off / bs * bs) r n (blocks * bs) cover
        ∙ ap (λ a. bytes_from (file_byte image fs inode) a n) (div-add-mod' off bs)))
  where
    bs : ℕ
    bs = fs.block_size

    n : ℕ
    n = asked inode off len

    r : ℕ
    r = off % bs

    blocks : ℕ
    blocks = (n + r + bs - 1) / bs

    full : 0 < bs
    full = omega (arith, fits.whole, fits.some_pointers)

    r_below : r < bs
    r_below = mod-lt off full

    cover : r + n ≤ blocks * bs
    cover = blocks_cover bs r n full r_below

    at_most : blocks * bs ≤ n + r + bs - 1
    at_most = omega (arith, div-add-mod' (n + r + bs - 1) bs)

    within : leb inode.size off ≡ false
    within = ground arith

    small : ltb (2 ^ 32 - 1 - r - (bs - 1)) n ≡ false
    small = ground (arith, r_below, below, full)

    exact : (n + r + bs - 1) % 2 ^ 32 ≡ n + r + bs - 1
    exact = mod-eq_of_lt (omega (arith, r_below, below, full))

    nonzero : (blocks * bs % 2 ^ 32 == 0) ≡ false
    nonzero =
        rw
          (mod-eq_of_lt {n = blocks * bs} {m = 2 ^ 32}
            (omega (arith, at_most, r_below, below, full)))
          (ground (arith, cover, some_bytes))

past_end :
    (image : ℕ → ℕ) (fs : Ext2) (inode : Inode) (off len : ℕ)
    → inode.size ≤ off
    → ext2_read_inode fs inode off len
      ≡ got (bytes_from (file_byte image fs inode) off (asked inode off len))
unfolding ext2_read_inode
past_end image fs inode off len beyond =
    rw (ended) (ap (λ n. got (bytes_from (file_byte image fs inode) off n)) (sym nothing))
  where
    ended : leb inode.size off ≡ true
    ended = ground arith

    nothing : asked inode off len ≡ 0
    nothing = ground arith

-- On a device that holds an image, and a volume whose blocks are not empty, hold whole pointers
-- and, like the cube of the number of pointers in one, lie below the wrap of `size_t`: reading at
-- least one byte of a file returns the bytes of the file from the offset on (0 in a hole), up to
-- the length asked for or the end of the file, if that length and two blocks lie below the wrap as
-- well.
pub ext2_read_inode-file :
    (image : ℕ → ℕ) (fs : Ext2) (inode : Inode) (off len : ℕ)
    → HoldsImage fs.dev image
    → Fits fs
    → 0 < len
    → len + 2 * fs.block_size ≤ 2 ^ 32
    → ext2_read_inode fs inode off len
      ≡ got (bytes_from (file_byte image fs inode) off (asked inode off len))
ext2_read_inode-file image fs inode off len holds fits some_bytes below =
    elim (dec_lt off inode.size) [
      | yes inside ↦
          read_inside image fs inode off len holds fits inside
            (asked_cases inode off len inside some_bytes).0
            (omega (arith, (asked_cases inode off len inside some_bytes).1))
      | no beyond ↦ past_end image fs inode off len (omega arith)
    ]
