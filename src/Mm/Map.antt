-- ===== src/Mm/Map.antt =====
-- `map_page` where the page table is there: which walks find the new page, and which are as before.
use osdev.Prelude.{
  ℕ, ◌*◌, ◌/◌, ◌<◌, ◌≡◌, ◌≢◌, refl, sym, ap, subst, ◌∙◌, ◌⊎◌, inl, inr, true, false, not, ◌&&◌,
  ◌||◌, ◌==◌, if◌then◌else◌, arith, Bool-cases, ℕ_discrete, Option, none, some, test_bit, set_bit,
}
use osdev.Mm.{
  Mm, Table, update, i_pdir, i_ptab, directory_entry, frame_of, store_word, user_if, rw_if,
  enter_page, map_page,
}

-- The walk of the processor: the page table entry for an address, if it is present.
unfoldable pub walk : Mm → ℕ → Option ℕ
walk s v =
    let entry = directory_entry s (i_pdir v) in
    let leaf = s.frames (frame_of entry) (i_ptab v) in
    if test_bit entry 0 then (if test_bit leaf 0 then some leaf else none) else none

-- No present entry of the directory, but the last, points at the directory itself.
pub record IsApart (s : Mm) : Type 0 where
  pub not_directory :
      (i : ℕ)
      → i < 1023
      → test_bit (directory_entry s i) 0 ≡ true
      → frame_of (directory_entry s i) ≢ s.directory

-- The page table entry that `map_page` writes.
abbrev pub leaf_entry : ℕ → ℕ → ℕ
leaf_entry phys flags = user_if flags (rw_if flags (set_bit (phys / 0x1000 * 0x1000) 0))

-- An entry that is present, with a frame and the RW and USER bits of flags.
abbrev pub IsLeaf : ℕ → ℕ → ℕ → Type 0
IsLeaf phys flags leaf =
    (test_bit leaf 0 ≡ true)
    × (frame_of leaf ≡ phys / 0x1000)
    × (test_bit leaf 1 ≡ test_bit flags 1)
    × (test_bit leaf 2 ≡ test_bit flags 2)

leaf_entry_lem : (phys flags : ℕ) → IsLeaf phys flags (leaf_entry phys flags)
leaf_entry_lem phys flags = ground arith

-- The frame of the page table for an address.
abbrev pub table_of : Mm → ℕ → ℕ
table_of s v = frame_of (directory_entry s (i_pdir v))

-- The walk of `u` reads another page table entry than that of `v`, or reads none.
abbrev pub ReadsOther : Mm → ℕ → ℕ → Type 0
ReadsOther s v u =
    (test_bit (directory_entry s (i_pdir u)) 0 ≡ false)
    ⊎ ((table_of s u ≢ table_of s v) ⊎ (i_ptab u ≢ i_ptab v))

-- The walk of `u` reads the same page table entry as that of `v`.
abbrev pub ReadsSame : Mm → ℕ → ℕ → Type 0
ReadsSame s v u =
    (test_bit (directory_entry s (i_pdir u)) 0 ≡ true)
    × (table_of s u ≡ table_of s v)
    × (i_ptab u ≡ i_ptab v)

module _ {A : Type 0} (f : ℕ → A) (at : ℕ) (v : A) where
  pub update-same : update f at v at ≡ v
  update-same = ground arith

  pub update-other : (a : ℕ) → a ≢ at → update f at v a ≡ f a
  update-other a ne = ground arith

module _ (s : Mm) (phys virt flags : ℕ) (low : i_pdir virt < 1023)
    (there : test_bit (directory_entry s (i_pdir virt)) 0 ≡ true) (apart : IsApart s) where
  abbrev entered : Mm
  unfolding enter_page
  entered = enter_page s phys virt flags

  abbrev table : ℕ
  table = frame_of (directory_entry s (i_pdir virt))

  directory-entered :
      (i : ℕ) → directory_entry (enter_page s phys virt flags) i ≡ directory_entry s i
  unfolding enter_page
  directory-entered i =
      ap (λ (t : Table). t i)
        (update-other s.frames table (update (s.frames table) (i_ptab virt) (leaf_entry phys flags))
          s.directory (λ e. apart.not_directory (i_pdir virt) low there (sym e)))

  enter_page-same :
      (u : ℕ)
      → ReadsSame s virt u
      → walk (enter_page s phys virt flags) u ≡ some (leaf_entry phys flags)
  unfolding walk
  enter_page-same u (present, same, slot) =
      rw (directory-entered, present, leaf, (leaf_entry_lem phys flags).0)
    where
      leaf : (enter_page s phys virt flags).frames (table_of s u) (i_ptab u) ≡ leaf_entry phys flags
      leaf =
          unfold enter_page in
          ap (λ f. (enter_page s phys virt flags).frames f (i_ptab u)) same
          ∙ ap (λ (t : Table). t (i_ptab u))
              (update-same s.frames table
                (update (s.frames table) (i_ptab virt) (leaf_entry phys flags)))
          ∙ ap (update (s.frames table) (i_ptab virt) (leaf_entry phys flags)) slot
          ∙ update-same (s.frames table) (i_ptab virt) (leaf_entry phys flags)

  enter_page-other :
      (u : ℕ) → ReadsOther s virt u → walk (enter_page s phys virt flags) u ≡ walk s u
  unfolding walk
  enter_page-other u (inl absent) = rw (directory-entered, absent)
  enter_page-other u (inr other) = rw (directory-entered, leaf other)
    where
      new : Table
      new = update (s.frames table) (i_ptab virt) (leaf_entry phys flags)

      same_slot :
          table_of s u ≡ table
          → i_ptab u ≢ i_ptab virt
          → update s.frames table new (table_of s u) (i_ptab u) ≡ s.frames (table_of s u) (i_ptab u)
      same_slot e ne =
          ap (λ f. update s.frames table new f (i_ptab u)) e
          ∙ ap (λ (t : Table). t (i_ptab u)) (update-same s.frames table new)
          ∙ update-other (s.frames table) (i_ptab virt) (leaf_entry phys flags) (i_ptab u) ne
          ∙ ap (λ f. s.frames f (i_ptab u)) (sym e)

      other_table :
          table_of s u ≢ table
          → update s.frames table new (table_of s u) (i_ptab u) ≡ s.frames (table_of s u) (i_ptab u)
      other_table ne =
          ap (λ (t : Table). t (i_ptab u)) (update-other s.frames table new (table_of s u) ne)

      leaf :
          (table_of s u ≢ table) ⊎ (i_ptab u ≢ i_ptab virt)
          → (enter_page s phys virt flags).frames (table_of s u) (i_ptab u)
            ≡ s.frames (table_of s u) (i_ptab u)
      leaf o =
          unfold enter_page in
          elim o [
            | inl ne ↦ other_table ne
            | inr ne ↦ elim (ℕ_discrete (table_of s u) table) [
              | yes e ↦ same_slot e ne
              | no off ↦ other_table off
            ]
          ]

-- The user bit added to a directory entry, as `map_page` does.
module _ (s : Mm) (k : ℕ) where
  abbrev opened : Mm
  opened = record s {
    frames =
        update s.frames s.directory
          (update (s.frames s.directory) k (set_bit (directory_entry s k) 2));
  }

  opened-entry :
      (j : ℕ)
      → directory_entry opened j
        ≡ (if j == k then set_bit (directory_entry s k) 2 else directory_entry s j)
  opened-entry j =
      ap (λ (t : Table). t j)
        (update-same s.frames s.directory
          (update (s.frames s.directory) k (set_bit (directory_entry s k) 2)))

  opened-present :
      (j : ℕ) → test_bit (directory_entry opened j) 0 ≡ test_bit (directory_entry s j) 0
  opened-present j = elim (ℕ_discrete j k) [
    | yes e ↦
        let here : (k == k) ≡ true = ground arith in
        let keeps : test_bit (set_bit (directory_entry s k) 2) 0
            ≡ test_bit (directory_entry s k) 0 =
          ground arith in
        rw (opened-entry, e, here, keeps)
    | no ne ↦ let away : (j == k) ≡ false = ground arith in rw (opened-entry, away)
  ]

  opened-frame : (j : ℕ) → frame_of (directory_entry opened j) ≡ frame_of (directory_entry s j)
  opened-frame j = elim (ℕ_discrete j k) [
    | yes e ↦
        let here : (k == k) ≡ true = ground arith in
        let keeps : frame_of (set_bit (directory_entry s k) 2) ≡ frame_of (directory_entry s k) =
          ground arith in
        rw (opened-entry, e, here, keeps)
    | no ne ↦ let away : (j == k) ≡ false = ground arith in rw (opened-entry, away)
  ]

  opened-IsApart : IsApart s → IsApart opened
  opened-IsApart a = record {
    not_directory =
        λ i hi pi e. a.not_directory i hi (sym (opened-present i) ∙ pi) (sym (opened-frame i) ∙ e);
  }

  opened-walk : (u : ℕ) → IsApart s → i_pdir u < 1023 → walk opened u ≡ walk s u
  unfolding walk
  opened-walk u a low = elim (Bool-cases (test_bit (directory_entry s (i_pdir u)) 0)) [
    | inl present ↦ rw (opened-present, present, opened-frame, leaf present)
    | inr absent ↦ rw (opened-present, absent)
  ]
    where
      leaf :
          test_bit (directory_entry s (i_pdir u)) 0 ≡ true
          → opened.frames (frame_of (directory_entry s (i_pdir u))) (i_ptab u)
            ≡ s.frames (frame_of (directory_entry s (i_pdir u))) (i_ptab u)
      leaf present =
          ap (λ (t : Table). t (i_ptab u))
            (update-other s.frames s.directory
              (update (s.frames s.directory) k (set_bit (directory_entry s k) 2))
              (frame_of (directory_entry s (i_pdir u))) (a.not_directory (i_pdir u) low present))

opened-ReadsSame : (s : Mm) (k v u : ℕ) → ReadsSame s v u → ReadsSame (opened s k) v u
opened-ReadsSame s k v u (present, same, slot) = (
  opened-present s k (i_pdir u) ∙ present,
  opened-frame s k (i_pdir u) ∙ same ∙ sym (opened-frame s k (i_pdir v)),
  slot,
)

opened-ReadsOther : (s : Mm) (k v u : ℕ) → ReadsOther s v u → ReadsOther (opened s k) v u
opened-ReadsOther s k v u (inl absent) = inl (opened-present s k (i_pdir u) ∙ absent)
opened-ReadsOther s k v u (inr (inl ne)) =
    inr (inl (λ e. ne (sym (opened-frame s k (i_pdir u)) ∙ e ∙ opened-frame s k (i_pdir v))))
opened-ReadsOther s k v u (inr (inr ne)) = inr (inr ne)

bitmap-entered : (s : Mm) (phys virt flags : ℕ) → (enter_page s phys virt flags).bitmap ≡ s.bitmap
unfolding enter_page
bitmap-entered s phys virt flags = refl

nonnull : (phys virt : ℕ) → phys ≢ 0 → virt ≢ 0 → (phys == 0 || virt == 0) ≡ false
nonnull phys virt pn vn = ground arith

map_page-grants :
    (s : Mm) (phys virt flags : ℕ)
    → phys ≢ 0
    → virt ≢ 0
    → test_bit (directory_entry s (i_pdir virt)) 0 ≡ true
    → (test_bit flags 2 && not (test_bit (directory_entry s (i_pdir virt)) 2)) ≡ true
    → map_page s phys virt flags ≡ (0, enter_page (opened s (i_pdir virt)) phys virt flags)
unfolding map_page store_word
map_page-grants s phys virt flags pn vn there grants =
    rw (map_page, nonnull phys virt pn vn, there, grants)

map_page-keeps :
    (s : Mm) (phys virt flags : ℕ)
    → phys ≢ 0
    → virt ≢ 0
    → test_bit (directory_entry s (i_pdir virt)) 0 ≡ true
    → (test_bit flags 2 && not (test_bit (directory_entry s (i_pdir virt)) 2)) ≡ false
    → map_page s phys virt flags ≡ (0, enter_page s phys virt flags)
unfolding map_page
map_page-keeps s phys virt flags pn vn there keeps =
    rw (map_page, nonnull phys virt pn vn, there, keeps)

-- What a mapping promises of the state after it.
abbrev pub Mapped : Mm → ℕ → ℕ → ℕ → ℕ × Mm → Type 0
Mapped s phys virt flags r =
    (r.0 ≡ 0)
    × (leaf : ℕ) × IsLeaf phys flags leaf
    × ((u : ℕ) → ReadsSame s virt u → walk r.1 u ≡ some leaf)
    × ((u : ℕ) → i_pdir u < 1023 → ReadsOther s virt u → walk r.1 u ≡ walk s u)
    × (r.1.bitmap ≡ s.bitmap)

-- Where the table for an address is present (and below the last, the recursive one) and no present
-- entry of the directory but the last points at the directory itself, `map_page` of non-null
-- addresses returns 0; the processor's walk of that address, and of each that reads the same page
-- table entry, as one 0xC0000000 higher may, finds a present entry with the frame of `phys` and the RW and USER bits of
-- `flags`; the walk of an address below the last table that reads another entry, or none, finds
-- what it did; and no page is allocated.
pub map_page-Mapped :
    (s : Mm) (phys virt flags : ℕ)
    → phys ≢ 0
    → virt ≢ 0
    → i_pdir virt < 1023
    → test_bit (directory_entry s (i_pdir virt)) 0 ≡ true
    → IsApart s
    → Mapped s phys virt flags (map_page s phys virt flags)
map_page-Mapped s phys virt flags pn vn low there apart =
    elim (Bool-cases (test_bit flags 2 && not (test_bit (directory_entry s (i_pdir virt)) 2))) [
      | inl grants ↦
          subst (Mapped s phys virt flags)
            (sym (map_page-grants s phys virt flags pn vn there grants))
            (
              refl,
              leaf_entry phys flags,
              leaf_entry_lem phys flags,
              λ u same.
                  enter_page-same wider phys virt flags low there' apart' u
                    (opened-ReadsSame s (i_pdir virt) virt u same),
              λ u below other.
                  enter_page-other wider phys virt flags low there' apart' u
                    (opened-ReadsOther s (i_pdir virt) virt u other)
                  ∙ opened-walk s (i_pdir virt) u apart below,
              bitmap-entered wider phys virt flags,
            )
      | inr keeps ↦
          subst (Mapped s phys virt flags)
            (sym (map_page-keeps s phys virt flags pn vn there keeps))
            (
              refl,
              leaf_entry phys flags,
              leaf_entry_lem phys flags,
              enter_page-same s phys virt flags low there apart,
              λ u below other. enter_page-other s phys virt flags low there apart u other,
              bitmap-entered s phys virt flags,
            )
    ]
  where
    wider : Mm
    wider = opened s (i_pdir virt)

    there' : test_bit (directory_entry wider (i_pdir virt)) 0 ≡ true
    there' = opened-present s (i_pdir virt) (i_pdir virt) ∙ there

    apart' : IsApart wider
    apart' = opened-IsApart s (i_pdir virt) apart
