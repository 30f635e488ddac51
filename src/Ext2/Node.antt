-- ===== src/Ext2/Node.antt =====
-- `ext2_open`, `ext2_close`, `ext2_read`, `ext2_stat`, `ext2_fstat` and `ext2_init` of fs/ext2.c,
-- with the structures of include/fs/vfs.h.
use osdev.Prelude.{
  ℕ, zero, suc, ◌+◌, ◌-◌, ◌*◌, ◌/◌, ◌%◌, ◌^◌, Option, none, some, List, [], ◌∷◌, ◌==◌, leb,
  if◌then◌else◌, not, ◌&&◌, ◌||◌, test_bit,
}
use osdev.Ext2.{
  Ext2, Inode, Superblock, BlockDevice, superblock_of, superblock_size, ReadResult, got, le16, le32,
  disk_read, block_offset, get_inode, ext2_read_inode,
}
use osdev.Ext2.Directory.{get_fp_num}

-- `vnode_t`; `private` is its `ext2_priv_t`, the inode and its number.
pub record Vnode : Type 0 where
  pub flags : ℕ
  pub mode : ℕ
  pub private : Option (Inode × ℕ)

-- What `ext2_open` returns: 0 and the node, -ENOENT, -EEXIST or -EISDIR. `null_inode` is the read
-- through the null pointer, where a file is to be created.
pub data OpenResult : Type 0 where
  opened : Vnode → OpenResult
  no_entry exists is_directory null_inode : OpenResult

-- O_WRONLY is bit 1 of the flags, O_CREAT bit 3, O_EXCL bit 5 and O_TMPFILE bit 7; EXT2_S_IFDIR is
-- bit 14 of the mode. `arg` is the argument after the flags. `none`: an overrun.
unfoldable pub ext2_open : Ext2 → List ℕ → ℕ → ℕ → Option OpenResult
ext2_open fs filename flags arg = elim (get_fp_num fs filename) [
  | none ↦ none
  | some i_num ↦
      let create = test_bit flags 3 || test_bit flags 7 in
      elim (get_inode fs i_num) [
        | none ↦ some (if create then null_inode else no_entry)
        | some inode ↦
            if test_bit flags 5
            then some exists
            else if test_bit inode.mode 14 && test_bit flags 1
            then some is_directory
            else some (
                opened (record {
                  flags = flags;
                  mode = if create then arg else inode.mode;
                  private = some (inode, i_num);
                }))
      ]
]

-- `ext2_close` gives the memory back and returns 0; the node itself stays as it was.
unfoldable pub ext2_close : Vnode → ℕ × Vnode
ext2_close node = (0, node)

-- `none`: there is no inode behind the node.
unfoldable pub ext2_read : Ext2 → Vnode → ℕ → ℕ → Option ReadResult
ext2_read fs node off len = if len == 0 then some (got []) else elim node.private [
  | none ↦ none
  | some (inode, i_num) ↦ some (ext2_read_inode fs inode off len)
]

-- `stat_t`
pub record Stat : Type 0 where
  pub st_ino : ℕ
  pub st_mode : ℕ
  pub st_nlink : ℕ
  pub st_uid : ℕ
  pub st_gid : ℕ
  pub st_size : ℕ
  pub st_blksize : ℕ
  pub st_blocks : ℕ
  pub st_atime : ℕ
  pub st_mtime : ℕ
  pub st_ctime : ℕ

-- What `ext2_stat` does: 0 and the buffer, -ENOENT, or the read through a null pointer where the
-- inode cannot be read.
pub data StatResult : Type 0 where
  filled : Stat → StatResult
  missing null_stat : StatResult

unfoldable pub ext2_stat : Ext2 → List ℕ → Option StatResult
ext2_stat fs filename = elim (get_fp_num fs filename) [
  | none ↦ none
  | some i_num ↦ if i_num == 0 then some missing else elim (get_inode fs i_num) [
    | none ↦ some null_stat
    | some inode ↦ some (
        filled (record {
          st_ino = i_num;
          st_mode = inode.mode;
          st_nlink = inode.links_count;
          st_uid = inode.uid;
          st_gid = inode.gid;
          st_size = inode.size;
          st_blksize = fs.block_size;
          st_blocks = inode.blocks;
          st_atime = inode.atime;
          st_mtime = inode.mtime;
          st_ctime = inode.ctime;
        }))
  ]
]

unfoldable pub ext2_fstat : Ext2 → Vnode → Option Stat
ext2_fstat fs node = elim node.private [
  | none ↦ none
  | some (inode, i_num) ↦ some (record {
    st_ino = i_num;
    st_mode = inode.mode;
    st_nlink = inode.links_count;
    st_uid = inode.uid;
    st_gid = inode.gid;
    st_size = inode.size;
    st_blksize = fs.block_size;
    st_blocks = inode.blocks;
    st_atime = inode.atime;
    st_mtime = inode.mtime;
    st_ctime = inode.ctime;
  })
]

-- `inode_table` of each descriptor in the bytes of the table, 32 bytes each.
unfoldable pub tables_of : ℕ → List ℕ → ℕ → List ℕ
tables_of zero bytes at = []
tables_of (suc n) bytes at = le32 bytes (at + 8) ∷ tables_of n bytes (at + 32)

-- EXT2_SUPER_MAGIC, and sizeof(ext2_sb_ext_t)
abbrev pub super_magic : ℕ
super_magic = 0xEF53

abbrev pub superblock_ext_size : ℕ
superblock_ext_size = 177

abbrev pub groups_of : Superblock → ℕ
groups_of sb = (sb.blocks_count + sb.blocks_per_group - 1) % 2 ^ 32 / sb.blocks_per_group

-- `none` where `ext2_init` returns -1. C leaves a shift by 32 or more undefined; it leaves 0 here.
unfoldable pub ext2_init : BlockDevice → ℕ → Option Ext2
unfolding tables_of
ext2_init dev vol_start = elim (disk_read dev ((vol_start + 1024) % 2 ^ 32) superblock_size) [
  | none ↦ none
  | some bytes ↦
      let sb = superblock_of bytes in
      let extended = leb 1 sb.rev_level in
      let ext_bytes =
        if extended
        then disk_read dev ((vol_start + 1024 + superblock_size) % 2 ^ 32) superblock_ext_size
        else some [] in
      if not (sb.magic == super_magic) then none else elim ext_bytes [
        | none ↦ none
        | some ext ↦
            let fs : Ext2 = record {
              sb = sb;
              inode_size = le16 ext 4;
              inode_tables = [];
              vol_start = vol_start;
              dev = dev;
              block_size = 1024 * 2 ^ sb.log_block_size % 2 ^ 32;
            } in
            let bgdt_block : ℕ = if sb.log_block_size == 0 then 2 else 1 in
            elim (disk_read dev (block_offset fs bgdt_block) (32 * groups_of sb % 2 ^ 32)) [
              | none ↦ none
              | some table ↦ some (record fs { inode_tables = tables_of (groups_of sb) table 0 })
            ]
      ]
]
