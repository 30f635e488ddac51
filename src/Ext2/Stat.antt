-- ===== src/Ext2/Stat.antt =====
-- `ext2_stat` and `ext2_fstat` of the same file.
use osdev.Prelude.{
  ℕ, ◌≡◌, ◌≢◌, refl, sym, ap, ◌∙◌, inl, inr, Bool, true, false, ◌&&◌, ◌||◌, none, some, List, ◌==◌,
  if◌then◌else◌, arith, Option-cases, test_bit,
}
use osdev.Ext2.{Ext2, Inode, get_inode}
use osdev.Ext2.Directory.{get_fp_num}
use osdev.Ext2.Node.{
  Vnode, opened, null_inode, no_entry, exists, is_directory, ext2_open, ext2_stat, ext2_fstat, Stat,
  filled,
}

-- The fields that both assign.
stat_of : Ext2 → ℕ → Inode → Stat
stat_of fs i_num inode = record {
  st_ino = i_num;
  st_mode = inode.mode;
  st_nlink = inode.links_count;
  st_uid = inode.uid;
  st_gid = inode.gid;
  st_size = inode.size;
  st_blksize = fs.block_size;
  st_blocks = inode.blocks;
  st_atime = inode.atime;
  st_mtime = inode.mtime;
  st_ctime = inode.ctime;
}

get_inode-zero : (fs : Ext2) → get_inode fs 0 ≡ none
unfolding get_inode
get_inode-zero fs = refl

not_found :
    (create : Bool) (node : Vnode)
    → some (if create then null_inode else no_entry) ≢ some (opened node)
not_found true node e = absurd (cc)
not_found false node e = absurd (cc)

-- The last of the tests of `ext2_open`.
passed_tests :
    (excl dir : Bool) (made node : Vnode)
    → (if excl then some exists else if dir then some is_directory else some (opened made))
      ≡ some (opened node)
    → made ≡ node
passed_tests true dir made node e = absurd (cc)
passed_tests false true made node e = absurd (cc)
passed_tests false false made node e = cc

-- What an open that succeeds has found.
opened_from :
    (fs : Ext2) (filename : List ℕ) (flags arg : ℕ) (node : Vnode)
    → ext2_open fs filename flags arg ≡ some (opened node)
    → (i_num : ℕ) × (inode : Inode) × (get_fp_num fs filename ≡ some i_num)
      × (get_inode fs i_num ≡ some inode)
      × (node.private ≡ some (inode, i_num))
unfolding ext2_open
opened_from fs filename flags arg node ok = elim (Option-cases (get_fp_num fs filename)) [
  | inl p ↦ absurd (shut p)
  | inr (i_num, p) ↦ elim (Option-cases (get_inode fs i_num)) [
    | inl q ↦ absurd (not_found (test_bit flags 3 || test_bit flags 7) node (lost i_num p q))
    | inr (inode, q) ↦ (i_num, inode, p, q, sym (ap (λ n. n.private) (found i_num inode p q)))
  ]
]
  where
    nothing : none ≢ some (opened node)
    nothing e = absurd (cc)

    shut : get_fp_num fs filename ≡ none → ⊥
    shut p = nothing (rw (ext2_open, p) at ok)

    lost :
        (i_num : ℕ)
        → get_fp_num fs filename ≡ some i_num
        → get_inode fs i_num ≡ none
        → some (if test_bit flags 3 || test_bit flags 7 then null_inode else no_entry)
          ≡ some (opened node)
    lost i_num p q = rw (ext2_open, p, q) at ok

    made : ℕ → Inode → Vnode
    made i_num inode = record {
      flags = flags;
      mode = if test_bit flags 3 || test_bit flags 7 then arg else inode.mode;
      private = some (inode, i_num);
    }

    found :
        (i_num : ℕ) (inode : Inode)
        → get_fp_num fs filename ≡ some i_num
        → get_inode fs i_num ≡ some inode
        → made i_num inode ≡ node
    found i_num inode p q =
        passed_tests (test_bit flags 5) (test_bit inode.mode 14 && test_bit flags 1)
          (made i_num inode) node (rw (ext2_open, p, q) at ok)

-- Once `ext2_open` has opened a file, `ext2_fstat` of the node and `ext2_stat` of its name give the
-- same answer, on a device whose reads return again what they returned.
pub ext2_stat-fstat :
    (fs : Ext2) (filename : List ℕ) (flags arg : ℕ) (node : Vnode)
    → ext2_open fs filename flags arg ≡ some (opened node)
    → (st : Stat) × (ext2_fstat fs node ≡ some st) × (ext2_stat fs filename ≡ some (filled st))
unfolding ext2_stat ext2_fstat stat_of
ext2_stat-fstat fs filename flags arg node ok =
    let (i_num, inode, path, read, held) = opened_from fs filename flags arg node ok in
    (stat_of fs i_num inode, rw held refl, answer i_num inode path read)
  where
    nonzero : (i_num : ℕ) (inode : Inode) → get_inode fs i_num ≡ some inode → i_num ≢ 0
    nonzero i_num inode read e = apart (sym (get_inode-zero fs) ∙ ap (get_inode fs) (sym e) ∙ read)
      where
        apart : none ≢ some inode
        apart e = absurd (cc)

    answer :
        (i_num : ℕ) (inode : Inode)
        → get_fp_num fs filename ≡ some i_num
        → get_inode fs i_num ≡ some inode
        → ext2_stat fs filename ≡ some (filled (stat_of fs i_num inode))
    answer i_num inode path read = rw (ext2_stat, path, there (nonzero i_num inode read), read) refl
      where
        there : i_num ≢ 0 → (i_num == 0) ≡ false
        there ne = ground arith
