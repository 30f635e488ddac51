-- ===== src/Mm/Init.antt =====
-- `_mm_init`: what the processor's walk finds at first.
use osdev.Prelude.{
  ℕ, ◌+◌, ◌*◌, ◌/◌, ◌≡◌, ◌≢◌, ◌<◌, refl, sym, ap, ◌∙◌, Bool, true, false, Option, none, some, arith,
  ℕ_discrete, ◌==◌, if◌then◌else◌, test_bit, set_bit,
}
use osdev.Mm.{Mm, mm_init, i_pdir, i_ptab, frame_of, directory_entry, page_size}
use osdev.Mm.Map.{walk, IsApart}

-- The leaf that maps the page of an offset onto the same frame, but for page 0.
abbrev pub identity_leaf : ℕ → Option ℕ
identity_leaf offset =
    if offset / page_size == 0 then none else some (offset / page_size * page_size + 3)

abbrev entry_of : ℕ → ℕ
entry_of frame = set_bit (set_bit (frame * page_size) 0) 1

entry_of_lem :
    (frame : ℕ)
    → (entry_of frame ≡ frame * page_size + 3)
      × (test_bit (entry_of frame) 0 ≡ true)
      × (frame_of (entry_of frame) ≡ frame)
entry_of_lem frame = (ground arith, ground arith, ground arith)

read_only_lem :
    (frame : ℕ)
    → (test_bit (set_bit (frame * page_size) 0) 0 ≡ true)
      × (frame_of (set_bit (frame * page_size) 0) ≡ frame)
read_only_lem frame = (ground arith, ground arith)

walk-entry :
    (s : Mm) (v entry leaf : ℕ)
    → directory_entry s (i_pdir v) ≡ entry
    → test_bit entry 0 ≡ true
    → s.frames (frame_of entry) (i_ptab v) ≡ leaf
    → walk s v ≡ (if test_bit leaf 0 then some leaf else none)
unfolding walk
walk-entry s v entry leaf here present there = rw (here, present, there) refl

module _ (dir tab : ℕ) (s : Mm) (apart : dir ≢ tab) where
  start : Mm
  start = mm_init dir tab s

  identity-start : (i : ℕ) → start.frames tab i ≡ (if i == 0 then 0 else entry_of i)
  unfolding start mm_init
  identity-start i = ground (arith, apart)

  entries-start :
      (i : ℕ)
      → directory_entry start i ≡ (
          if i == 1023
          then entry_of dir
          else if i == 768
          then entry_of tab
          else if i == 0
          then set_bit (tab * page_size) 0
          else 0)
  unfolding start mm_init
  entries-start i = ground arith

  leaf_at : ℕ → ℕ
  leaf_at i = if i == 0 then 0 else entry_of i

  leaf_at_lem :
      (i : ℕ)
      → (if test_bit (leaf_at i) 0 then some (leaf_at i) else none)
        ≡ (if i == 0 then none else some (i * page_size + 3))
  unfolding leaf_at
  leaf_at_lem i = elim (ℕ_discrete i 0) [
    | yes e ↦ rw (is_zero e) refl
    | no ne ↦ rw (not_zero ne, (entry_of_lem i).1) (ap some (entry_of_lem i).0)
  ]
    where
      is_zero : i ≡ 0 → (i == 0) ≡ true
      is_zero e = ground arith

      not_zero : i ≢ 0 → (i == 0) ≡ false
      not_zero ne = ground arith

  -- The walk of an address whose directory entry points at the identity table.
  walk-identity :
      (v entry offset : ℕ)
      → directory_entry start (i_pdir v) ≡ entry
      → test_bit entry 0 ≡ true
      → frame_of entry ≡ tab
      → i_ptab v ≡ offset / page_size
      → walk start v ≡ identity_leaf offset
  unfolding leaf_at
  walk-identity v entry offset here present points slot =
      walk-entry start v entry (leaf_at (offset / page_size)) here present
        (ap (λ f. start.frames f (i_ptab v)) points ∙ identity-start (i_ptab v) ∙ ap leaf_at slot)
      ∙ leaf_at_lem (offset / page_size)

  low_walk : (offset : ℕ) → offset < 1024 * page_size → walk start offset ≡ identity_leaf offset
  low_walk offset below =
      walk-identity offset (set_bit (tab * page_size) 0) offset
        (entries-start (i_pdir offset) ∙ ground arith) (read_only_lem tab).0 (read_only_lem tab).1
        (omega arith)

  high_walk :
      (offset : ℕ)
      → offset < 1024 * page_size
      → walk start (0xC0000000 + offset) ≡ identity_leaf offset
  high_walk offset below =
      walk-identity (0xC0000000 + offset) (entry_of tab) offset
        (entries-start (i_pdir (0xC0000000 + offset)) ∙ ground arith) (entry_of_lem tab).1
        (entry_of_lem tab).2 (omega arith)

  no_walk : (v : ℕ) → i_pdir v ≢ 0 → i_pdir v ≢ 768 → i_pdir v ≢ 1023 → walk start v ≡ none
  unfolding walk
  no_walk v a b c = rw (nothing) refl
    where
      nothing : directory_entry start (i_pdir v) ≡ 0
      nothing = entries-start (i_pdir v) ∙ ground (arith, a, b, c)

-- A present entry below the last points at the identity table.
points :
    (dir tab i : ℕ) (last high low : Bool)
    → last ≡ false
    → let entry : ℕ =
        if last
        then entry_of dir
        else if high
        then entry_of tab
        else if low
        then set_bit (tab * page_size) 0
        else 0 in
      test_bit entry 0 ≡ true → frame_of entry ≡ tab
points dir tab i true high low off present = absurd (cc)
points dir tab i false true low off present = (entry_of_lem tab).2
points dir tab i false false true off present = (read_only_lem tab).1
points dir tab i false false false off present = absurd (ground arith)

-- After `_mm_init` no present entry below the last points at the directory.
pub mm_init-IsApart : (dir tab : ℕ) (s : Mm) → dir ≢ tab → IsApart (mm_init dir tab s)
unfolding mm_init start
mm_init-IsApart dir tab s apart = record {
  not_directory = λ i below present same. apart (
      sym same
      ∙ ap frame_of (entries-start dir tab s apart i)
      ∙ points dir tab i (i == 1023) (i == 768) (i == 0) (ground arith)
          (ap (λ e. test_bit e 0) (sym (entries-start dir tab s apart i)) ∙ present));
}

-- After `_mm_init`, the walk of an address in the first 4 MB, or at the same offset from 0xC0000000,
-- finds the frame at that offset, present and writable in its entry, but page 0 is not mapped at
-- either; the walk of any other address below the last 4 MB finds nothing.
pub mm_init-walk :
    (kpagedir pagetab_id : ℕ) (s : Mm) (offset : ℕ)
    → kpagedir ≢ pagetab_id
    → offset < 1024 * page_size
    → (walk (mm_init kpagedir pagetab_id s) offset ≡ identity_leaf offset)
      × (walk (mm_init kpagedir pagetab_id s) (0xC0000000 + offset) ≡ identity_leaf offset)
      × ((v : ℕ)
          → i_pdir v ≢ 0
          → i_pdir v ≢ 768
          → i_pdir v ≢ 1023
          → walk (mm_init kpagedir pagetab_id s) v ≡ none)
unfolding start
mm_init-walk dir tab s offset apart below = (
  low_walk dir tab s apart offset below,
  high_walk dir tab s apart offset below,
  no_walk dir tab s apart,
)
