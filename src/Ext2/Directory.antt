-- ===== src/Ext2/Directory.antt =====
-- `lookup_inode`, `lookup_inode_num`, `get_fp` and `get_fp_num` of fs/ext2.c: the search of a
-- directory for a name, and of a path. Names and paths are C strings, as in CString.antt.
-- `overrun` is a read beyond the bytes that `ext2_read_inode` has put into the buffer, or beyond
-- the end of a name: what stands there is not of this program.
use osdev.Prelude.{
  ℕ, zero, suc, ◌+◌, ◌-◌, Bool, true, false, Option, none, some, List, [], ◌∷◌, ◌==◌, ltb,
  if◌then◌else◌, length, drop, get_or, not, ◌&&◌,
}
use osdev.CString.{less, equal, greater, strlen, memcmp, strtok_r}
use osdev.Ext2.{Ext2, Inode, got, too_big, no_memory, le16, le32, get_inode, ext2_read_inode}

pub data Search : Type 0 where
  hit : ℕ → Search
  miss overrun out_of_fuel : Search

-- The fields of the entry at `at`.
abbrev pub entry_inode : List ℕ → ℕ → ℕ
entry_inode buf at = le32 buf at

abbrev pub entry_rec_len : List ℕ → ℕ → ℕ
entry_rec_len buf at = le16 buf (at + 4)

abbrev pub entry_name_len : List ℕ → ℕ → ℕ
entry_name_len buf at = get_or buf (at + 6) 0

-- Whether the entry at `at` is in use and has the name; `none` for an overrun.
unfoldable pub entry_matches : List ℕ → ℕ → ℕ → List ℕ → Option Bool
entry_matches buf at name_len name =
    if not (entry_inode buf at == 0) && (entry_name_len buf at == name_len)
    then elim (memcmp name_len (drop (at + 8) buf) name) [
      | none ↦ none
      | some equal ↦ some true
      | some less ↦ some false
      | some greater ↦ some false
    ]
    else some false

-- The loop over the entries in the bytes of one block, from `at` on. An entry's header is eight
-- bytes.
unfoldable pub search_block : ℕ → List ℕ → ℕ → ℕ → List ℕ → Search
unfolding entry_matches
search_block zero buf at name_len name = out_of_fuel
search_block (suc fuel) buf at name_len name =
    let rest = search_block fuel buf (at + entry_rec_len buf at) name_len name in
    if not (ltb at (length buf))
    then miss
    else if ltb (length buf) (at + 8)
    then overrun
    else if entry_rec_len buf at == 0
    then miss
    else elim (entry_matches buf at name_len name) [
      | none ↦ overrun
      | some true ↦ hit (entry_inode buf at)
      | some false ↦ rest
    ]

-- The loop over the blocks of the directory, from `offset` on.
unfoldable pub search_dir : ℕ → Ext2 → Inode → ℕ → ℕ → List ℕ → Search
unfolding search_block
search_dir zero fs i_dir offset name_len name = out_of_fuel
search_dir (suc fuel) fs i_dir offset name_len name =
    let to_read =
      if ltb fs.block_size (i_dir.size - offset) then fs.block_size else i_dir.size - offset in
    let later = λ (n : ℕ). search_dir fuel fs i_dir (offset + n) name_len name in
    if not (ltb offset i_dir.size) then miss else elim (ext2_read_inode fs i_dir offset to_read) [
      | too_big ↦ miss
      | no_memory ↦ miss
      | got buf ↦
          if length buf == 0
          then miss
          else elim (search_block (suc (length buf)) buf 0 name_len name) [
            | hit n ↦ hit n
            | miss ↦ later (length buf)
            | overrun ↦ overrun
            | out_of_fuel ↦ out_of_fuel
          ]
    ]

-- The search that both lookups make, where there is a directory and a buffer.
unfoldable pub lookup : Ext2 → Option Inode → List ℕ → Search
unfolding search_dir
lookup fs none name = miss
lookup fs (some i_dir) name = if fs.block_size == 0 then miss else elim (strlen name) [
  | none ↦ overrun
  | some name_len ↦ search_dir (suc i_dir.size) fs i_dir 0 name_len name
]

-- The values returned, `none` for an overrun.
unfoldable pub lookup_inode : Ext2 → Option Inode → List ℕ → Option (Option Inode)
unfolding lookup
lookup_inode fs i_dir name = elim (lookup fs i_dir name) [
  | hit n ↦ some (get_inode fs n)
  | miss ↦ some none
  | overrun ↦ none
  | out_of_fuel ↦ none
]

unfoldable pub lookup_inode_num : Ext2 → Option Inode → List ℕ → Option ℕ
unfolding lookup
lookup_inode_num fs i_dir name = elim (lookup fs i_dir name) [
  | hit n ↦ some n
  | miss ↦ some 0
  | overrun ↦ none
  | out_of_fuel ↦ none
]

-- EXT2_ROOT_INO
abbrev pub root_ino : ℕ
root_ino = 2

abbrev pub slash : List ℕ
slash = 47 ∷ 0 ∷ []

-- The loops of `get_fp` and `get_fp_num` at the token `tok`, with `save` the rest of the path.
unfoldable pub follow_path :
    ℕ → Ext2 → Option Inode → Option (List ℕ) → List ℕ → Option (Option Inode)
unfolding lookup_inode
follow_path zero fs i tok save = none
follow_path (suc fuel) fs i none save = some i
follow_path (suc fuel) fs none (some tok) save = some none
follow_path (suc fuel) fs (some i) (some tok) save = elim (strtok_r save slash) [
  | none ↦ none
  | some (next, save') ↦ elim (lookup_inode fs (some i) tok) [
    | none ↦ none
    | some i_next ↦ follow_path fuel fs i_next next save'
  ]
]

unfoldable pub follow_path_num : ℕ → Ext2 → ℕ → Option (List ℕ) → List ℕ → Option ℕ
unfolding lookup_inode_num
follow_path_num zero fs i tok save = none
follow_path_num (suc fuel) fs i none save = some i
follow_path_num (suc fuel) fs zero (some tok) save = some 0
follow_path_num (suc fuel) fs (suc i) (some tok) save = elim (strtok_r save slash) [
  | none ↦ none
  | some (next, save') ↦ elim (lookup_inode_num fs (get_inode fs (suc i)) tok) [
    | none ↦ none
    | some i_next ↦ follow_path_num fuel fs i_next next save'
  ]
]

-- `path` is the copy that `strdup` makes.
unfoldable pub get_fp : Ext2 → List ℕ → Option (Option Inode)
unfolding follow_path
get_fp fs path = elim (strtok_r path slash) [
  | none ↦ none
  | some (tok, save) ↦ follow_path (suc (length path)) fs (get_inode fs root_ino) tok save
]

unfoldable pub get_fp_num : Ext2 → List ℕ → Option ℕ
unfolding follow_path_num
get_fp_num fs path = elim (strtok_r path slash) [
  | none ↦ none
  | some (tok, save) ↦ follow_path_num (suc (length path)) fs root_ino tok save
]
