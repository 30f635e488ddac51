-- ===== src/Ext2.antt =====
-- fs/ext2.c, include/fs/ext2.h and include/fs/vfs.h: a read-only ext2 driver over a block device.
-- The device is a parameter: `read lba count` is what `dev->ops->read` puts into the buffer, `none`
-- if it returns an error. `size_t` and the disk's words are 32 bits wide. A buffer is the list of
-- its bytes; `kmalloc` returns NULL exactly for the size 0, and what `kfree` gives back is left out.
-- Where the source divides by zero the processor faults; the quotient is 0 here.
pub mod Disk
pub mod Path
pub mod BlockMap
pub mod GetBlock
pub mod Read
pub mod Directory
pub mod Find
pub mod Node
pub mod Stat
mod Tests
use osdev.Prelude.{
  ℕ, zero, suc, ◌+◌, ◌-◌, ◌*◌, ◌/◌, ◌%◌, ◌^◌, Bool, true, false, not, ◌&&◌, ◌||◌, Option, none,
  some, List, [], ◌∷◌, ◌++◌, ◌==◌, ltb, leb, if◌then◌else◌, length, take, drop, get_or, replicate,
}

-- The members of `blkdev_t` that the driver uses.
pub record BlockDevice : Type 0 where
  pub sector_size : ℕ
  pub read : ℕ → ℕ → Option (List ℕ)

-- Little-endian words of a byte array.
abbrev pub le16 : List ℕ → ℕ → ℕ
le16 bytes at = get_or bytes at 0 + 0x100 * get_or bytes (at + 1) 0

abbrev pub le32 : List ℕ → ℕ → ℕ
le32 bytes at = le16 bytes at + 0x10000 * le16 bytes (at + 2)

-- `ext2_sb_t`
pub record Superblock : Type 0 where
  pub inodes_count : ℕ
  pub blocks_count : ℕ
  pub r_blocks_count : ℕ
  pub free_blocks_count : ℕ
  pub free_inodes_count : ℕ
  pub first_data_block : ℕ
  pub log_block_size : ℕ
  pub log_frag_size : ℕ
  pub blocks_per_group : ℕ
  pub frags_per_group : ℕ
  pub inodes_per_group : ℕ
  pub mtime : ℕ
  pub wtime : ℕ
  pub mnt_count : ℕ
  pub max_mnt_count : ℕ
  pub magic : ℕ
  pub state : ℕ
  pub errors : ℕ
  pub minor_rev_level : ℕ
  pub lastcheck : ℕ
  pub checkinterval : ℕ
  pub creator_os : ℕ
  pub rev_level : ℕ
  pub def_resuid : ℕ
  pub def_resgid : ℕ

-- The packed structure over the bytes that were read.
unfoldable pub superblock_of : List ℕ → Superblock
superblock_of b = record {
  inodes_count = le32 b 0;
  blocks_count = le32 b 4;
  r_blocks_count = le32 b 8;
  free_blocks_count = le32 b 12;
  free_inodes_count = le32 b 16;
  first_data_block = le32 b 20;
  log_block_size = le32 b 24;
  log_frag_size = le32 b 28;
  blocks_per_group = le32 b 32;
  frags_per_group = le32 b 36;
  inodes_per_group = le32 b 40;
  mtime = le32 b 44;
  wtime = le32 b 48;
  mnt_count = le16 b 52;
  max_mnt_count = le16 b 54;
  magic = le16 b 56;
  state = le16 b 58;
  errors = le16 b 60;
  minor_rev_level = le16 b 62;
  lastcheck = le32 b 64;
  checkinterval = le32 b 68;
  creator_os = le32 b 72;
  rev_level = le32 b 76;
  def_resuid = le16 b 80;
  def_resgid = le16 b 82;
}

abbrev pub superblock_size : ℕ
superblock_size = 84

-- `ext2_inode_t`; `size` is `r0_size`, and the union of the file and directory ACL is `acl`.
pub record Inode : Type 0 where
  pub mode : ℕ
  pub uid : ℕ
  pub size : ℕ
  pub atime : ℕ
  pub ctime : ℕ
  pub mtime : ℕ
  pub dtime : ℕ
  pub gid : ℕ
  pub links_count : ℕ
  pub blocks : ℕ
  pub flags : ℕ
  pub osd1 : ℕ
  pub block : ℕ → ℕ
  pub generation : ℕ
  pub acl : ℕ
  pub faddr : ℕ

unfoldable pub inode_of : List ℕ → Inode
inode_of b = record {
  mode = le16 b 0;
  uid = le16 b 2;
  size = le32 b 4;
  atime = le32 b 8;
  ctime = le32 b 12;
  mtime = le32 b 16;
  dtime = le32 b 20;
  gid = le16 b 24;
  links_count = le16 b 26;
  blocks = le32 b 28;
  flags = le32 b 32;
  osd1 = le32 b 36;
  block = λ i. le32 b (40 + 4 * i);
  generation = le32 b 100;
  acl = le32 b 104;
  faddr = le32 b 108;
}

-- sizeof(ext2_inode_t): its last field, `osd2[3]`, ends here.
abbrev pub inode_struct_size : ℕ
inode_struct_size = 124

-- The file's variables after `ext2_init`. `inode_size` is that of the extended superblock, and
-- `inode_tables` the `inode_table` of each group descriptor.
pub record Ext2 : Type 0 where
  pub sb : Superblock
  pub inode_size : ℕ
  pub inode_tables : List ℕ
  pub vol_start : ℕ
  pub dev : BlockDevice
  pub block_size : ℕ

-- `read(buf, off, len)`: the bytes put into `buf`, or `none` where it returns 1.
unfoldable pub disk_read : BlockDevice → ℕ → ℕ → Option (List ℕ)
disk_read dev off len =
    let offset = off % dev.sector_size in
    let count = (offset + len + dev.sector_size - 1) % 2 ^ 32 / dev.sector_size in
    if count * dev.sector_size % 2 ^ 32 == 0
    then none
    else elim (dev.read (off / dev.sector_size) count) [
      | none ↦ none
      | some dbuf ↦ some (take len (drop offset dbuf))
    ]

abbrev pub block_offset : Ext2 → ℕ → ℕ
block_offset fs block = (fs.vol_start + block * fs.block_size) % 2 ^ 32

-- The block pointers that a block holds.
abbrev pub pointers : Ext2 → ℕ
pointers fs = fs.block_size / 4

-- `iter` levels of indirection below block `bnum`.
unfoldable pub get_block_iter : ℕ → Ext2 → ℕ → ℕ → ℕ
unfolding disk_read
get_block_iter zero fs log_block bnum = 0
get_block_iter (suc iter) fs log_block bnum =
    let div = pointers fs ^ iter % 2 ^ 32 in
    let below = λ (ptr : ℕ). get_block_iter iter fs (log_block % div) ptr in
    if bnum == 0
    then 0
    else if fs.block_size == 0
    then 0
    else elim (disk_read fs.dev (block_offset fs bnum) fs.block_size) [
      | none ↦ 0
      | some ptrs ↦
          if leb (pointers fs) (log_block / div)
          then 0
          else if iter == 0
          then le32 ptrs (4 * (log_block / div))
          else below (le32 ptrs (4 * (log_block / div)))
    ]

unfoldable pub get_block : Ext2 → Inode → ℕ → ℕ
get_block fs inode log_block =
    let p = pointers fs in
    let p2 = p * p % 2 ^ 32 in
    let p3 = p * p * p % 2 ^ 32 in
    if ltb log_block 12
    then inode.block log_block
    else let l1 = log_block - 12 in
      if ltb l1 p
      then get_block_iter 1 fs l1 (inode.block 12)
      else let l2 = l1 - p in
        if ltb l2 p2
        then get_block_iter 2 fs l2 (inode.block 13)
        else let l3 = l2 - p2 in if ltb l3 p3 then get_block_iter 3 fs l3 (inode.block 14) else 0

-- `sizeof(ext2_inode_t)` in revision 0, the superblock's size from revision 1 on.
abbrev pub inode_size_of : Ext2 → ℕ
inode_size_of fs = if leb 1 fs.sb.rev_level then fs.inode_size else inode_struct_size

-- NULL is `none`, as for a size of 0, for which there is no buffer.
unfoldable pub get_inode : Ext2 → ℕ → Option Inode
unfolding disk_read inode_of
get_inode fs in_num =
    if in_num == 0
    then none
    else let bg = (in_num - 1) / fs.sb.inodes_per_group in
      let l_id = (in_num - 1) % fs.sb.inodes_per_group in
      let size = inode_size_of fs in
      let off = (block_offset fs (get_or fs.inode_tables bg 0) + l_id * size) % 2 ^ 32 in
      if size == 0
      then none
      else elim (disk_read fs.dev off size) [ none ↦ none | some bytes ↦ some (inode_of bytes) ]

-- What `ext2_read_inode` returns: the bytes read (their number is its return value), -E2BIG or
-- -EMEM.
pub data ReadResult : Type 0 where
  got : List ℕ → ReadResult
  too_big no_memory : ReadResult

-- The loop over the blocks from logical block `i` on, `n` of them: the buffer, and whether a
-- read failed in it. A block number 0 is a hole.
unfoldable pub read_blocks : ℕ → Ext2 → Inode → ℕ → List ℕ × Bool
read_blocks zero fs inode i = ([], false)
read_blocks (suc n) fs inode i =
    let block = get_block fs inode i in
    let hole = some (replicate fs.block_size 0) in
    let bytes =
      if block == 0 then hole else disk_read fs.dev (block_offset fs block) fs.block_size in
    elim bytes [
      | none ↦ ([], true)
      | some b ↦ (let (rest, failed) = read_blocks n fs inode (i + 1) in (b ++ rest, failed))
    ]

-- After a failed read the bytes before the failing block are handed over, the first `r_off` of
-- them excepted.
unfoldable pub ext2_read_inode : Ext2 → Inode → ℕ → ℕ → ReadResult
ext2_read_inode fs inode off len =
    if leb inode.size off
    then got []
    else let len' = if ltb (inode.size - off) len then inode.size - off else len in
      let b_off = off / fs.block_size in
      let r_off = off % fs.block_size in
      if ltb (2 ^ 32 - 1 - r_off - (fs.block_size - 1)) len'
      then too_big
      else let b_len = (len' + r_off + fs.block_size - 1) % 2 ^ 32 / fs.block_size in
        if b_len * fs.block_size % 2 ^ 32 == 0
        then no_memory
        else let (buf, failed) = read_blocks b_len fs inode b_off in
          got (take len' (drop r_off buf))
