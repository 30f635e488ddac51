-- ===== src/Ext2/Tests.antt =====
-- A volume of blocks of 1024 bytes on a device of sectors of 512, and a file of three blocks.
use osdev.Prelude.{ℕ, ◌+◌, ◌*◌, ◌<◌, ◌≡◌, refl, some, [], ◌∷◌, arith, if◌then◌else◌, ◌==◌}
use osdev.Ext2.{
  BlockDevice, Ext2, Inode, superblock_of, inode_of, disk_read, get_block, ext2_read_inode, got,
}
use osdev.Ext2.Disk.{HoldsImage, bytes_from, disk_read-image}
use osdev.Ext2.Path.{Fits, follow}
use osdev.Ext2.GetBlock.{get_block-follow}
use osdev.Ext2.Read.{file_byte, ext2_read_inode-file}
use osdev.Prelude.{drop, List}
use osdev.CString.{strtok_r, token_at, cut_token, span_set, in_set}
use osdev.Ext2.{get_inode}
use osdev.Ext2.Directory.{search_block, get_fp_num, follow_path_num}
use osdev.Ext2.Find.{Entry, Entries, FirstMatch, search_block-FirstMatch}
use osdev.Ext2.Node.{Vnode, opened, ext2_open}

abbrev image : ℕ → ℕ
image at = if at == 20480 then 9 else 5

abbrev disk : BlockDevice
disk = record {
  sector_size = 512;
  read = λ lba count. some (bytes_from image (lba * 512) (count * 512));
}

disk-HoldsImage : HoldsImage disk image
disk-HoldsImage = record { sectors = omega arith; reads = λ lba count. refl }

abbrev volume : Ext2
volume = record {
  sb = superblock_of [];
  inode_size = 128;
  inode_tables = [];
  vol_start = 0;
  dev = disk;
  block_size = 1024;
}

volume-Fits : Fits volume
volume-Fits = record {
  some_pointers = omega arith;
  whole = refl;
  below = omega arith;
  cube = omega arith;
}

abbrev file : Inode
file = record (inode_of []) { size = 2500; block = λ i. if i == 1 then 0 else 20 + i }

disk_read-image_example : disk_read disk 20470 30 ≡ some (bytes_from image 20470 30)
disk_read-image_example =
    disk_read-image disk image 20470 30 disk-HoldsImage (omega arith) (omega arith)

get_block-follow_example :
    (3 < 12 → get_block volume file 3 ≡ file.block 3)
    × (get_block volume file (12 + 3) ≡ follow image volume (file.block 12) (3 ∷ []))
    × (get_block volume file (12 + (256 + (2 * 256 + 3)))
        ≡ follow image volume (file.block 13) (2 ∷ 3 ∷ []))
    × (get_block volume file (12 + (256 + (256 * 256 + (1 * (256 * 256) + 2 * 256 + 3))))
        ≡ follow image volume (file.block 14) (1 ∷ 2 ∷ 3 ∷ []))
get_block-follow_example =
    get_block-follow image volume file 1 2 3 disk-HoldsImage volume-Fits (omega arith) (omega arith)
      (omega arith)

ext2_read_inode-file_example :
    ext2_read_inode volume file 1000 2000 ≡ got (bytes_from (file_byte image volume file) 1000 1500)
ext2_read_inode-file_example =
    ext2_read_inode-file image volume file 1000 2000 disk-HoldsImage volume-Fits (omega arith)
      (omega arith)

-- A block with the root's entry for itself and one for the file "ab".
abbrev dir_block : List ℕ
dir_block =
    2 ∷ 0 ∷ 0 ∷ 0 ∷ 12 ∷ 0 ∷ 1 ∷ 2 ∷ 46 ∷ 0 ∷ 0 ∷ 0 ∷ 7 ∷ 0 ∷ 0 ∷ 0 ∷ 12 ∷ 0 ∷ 2 ∷ 1 ∷ 97 ∷ 98 ∷ 0
    ∷ 0 ∷ []

abbrev dir_entries : List Entry
dir_entries =
    record { inode = 2; rec_len = 12; name = 46 ∷ [] }
    ∷ record { inode = 7; rec_len = 12; name = 97 ∷ 98 ∷ [] }
    ∷ []

dir_block-Entries : Entries dir_block 0 dir_entries
dir_block-Entries = (
  record {
    numbered = refl;
    sized = refl;
    name_sized = refl;
    inside = omega arith;
    holds = omega arith;
    behind = drop 9 dir_block;
    named = refl;
  },
  (
    record {
      numbered = refl;
      sized = refl;
      name_sized = refl;
      inside = omega arith;
      holds = omega arith;
      behind = 0 ∷ 0 ∷ [];
      named = refl;
    },
    refl,
  ),
)

search_block-FirstMatch_example :
    FirstMatch dir_entries (97 ∷ 98 ∷ []) (search_block 25 dir_block 0 2 (97 ∷ 98 ∷ 0 ∷ []))
search_block-FirstMatch_example =
    search_block-FirstMatch 25 dir_block 0 dir_entries (97 ∷ 98 ∷ []) (0 ∷ []) dir_block-Entries
      (omega arith)

-- The root directory, opened by the path "/".
abbrev root_volume : Ext2
root_volume = record volume {
  sb = record (superblock_of []) { inodes_per_group = 8; rev_level = 1 };
  inode_tables = 20 ∷ [];
}

abbrev root_node : Vnode
root_node = record {
  flags = 1;
  mode = 0x0505;
  private = some (inode_of (bytes_from image 20608 128), 2);
}

root_opened : ext2_open root_volume (47 ∷ 0 ∷ []) 1 0 ≡ some (opened root_node)
unfolding ext2_open get_fp_num follow_path_num strtok_r token_at cut_token span_set in_set get_inode
    disk_read inode_of superblock_of
root_opened = refl
