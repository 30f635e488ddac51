-- ===== src/Ext2/Find.antt =====
-- The entries that a block of a directory holds, and the search among them.
use osdev.Prelude.{
  ℕ, zero, suc, ◌+◌, ◌≤◌, ◌<◌, ◌≡◌, ◌≢◌, refl, sym, ap, subst, ◌∙◌, ◌⊎◌, ◌↔◌, inl, inr, Bool, true,
  false, none, some, List, [], ◌∷◌, ◌++◌, ◌==◌, ltb, if◌then◌else◌, length, drop, not, ◌&&◌, arith,
  ℕ_discrete,
}
use osdev.CString.{Sign, less, equal, greater}
use osdev.CString.Text.{memcmp-eq}
use osdev.Ext2.Directory.{
  Search, hit, miss, entry_inode, entry_rec_len, entry_name_len, entry_matches, search_block,
}

pub record Entry : Type 0 where
  pub inode : ℕ
  pub rec_len : ℕ
  pub name : List ℕ

-- The entry `e` stands at `at`: its record holds its header and its name, and ends in the buffer.
pub record EntryAt (buf : List ℕ) (at : ℕ) (e : Entry) : Type 0 where
  pub numbered : entry_inode buf at ≡ e.inode
  pub sized : entry_rec_len buf at ≡ e.rec_len
  pub name_sized : entry_name_len buf at ≡ length e.name
  pub inside : at + e.rec_len ≤ length buf
  pub holds : 8 + length e.name ≤ e.rec_len
  pub behind : List ℕ
  pub named : drop (at + 8) buf ≡ e.name ++ behind

-- The records follow each other up to the end of the buffer.
abbrev pub Entries : List ℕ → ℕ → List Entry → Type 0
Entries buf at [] = at ≡ length buf
Entries buf at (e ∷ es) = EntryAt buf at e × Entries buf (at + e.rec_len) es

-- `r` is what a search for the name returns: the first entry that is in use and has it.
abbrev pub FirstMatch : List Entry → List ℕ → Search → Type 0
FirstMatch [] name r = r ≡ miss
FirstMatch (e ∷ es) name r =
    ((e.inode ≢ 0) × (e.name ≡ name) × (r ≡ hit e.inode))
    ⊎ (((e.inode ≡ 0) ⊎ (e.name ≢ name)) × FirstMatch es name r)

-- What `entry_matches` says of an entry.
abbrev Verdict : Entry → List ℕ → Bool → Type 0
Verdict e name m =
    ((m ≡ true) × (e.inode ≢ 0) × (e.name ≡ name))
    ⊎ ((m ≡ false) × ((e.inode ≡ 0) ⊎ (e.name ≢ name)))

compared :
    (name : List ℕ) (e : Entry) (r : Sign)
    → e.inode ≢ 0
    → (r ≡ equal) ↔ (e.name ≡ name)
    → (m : Bool) × ((elim (some r) [
      | none ↦ none
      | some equal ↦ some true
      | some less ↦ some false
      | some greater ↦ some false
    ])
        ≡ some m)
      × Verdict e name m
compared name e equal live iff = (true, refl, inl (refl, live, iff.0 refl))
compared name e less live iff = (false, refl, inr (refl, inr (λ q. less_ne (iff.1 q))))
  where
    less_ne : less ≢ equal
    less_ne p = cc
compared name e greater live iff = (false, refl, inr (refl, inr (λ q. greater_ne (iff.1 q))))
  where
    greater_ne : greater ≢ equal
    greater_ne p = cc

entry_matches-Verdict :
    (buf : List ℕ) (at : ℕ) (e : Entry) (name rest : List ℕ)
    → EntryAt buf at e
    → (m : Bool) × (entry_matches buf at (length name) (name ++ rest) ≡ some m) × Verdict e name m
unfolding entry_matches
entry_matches-Verdict buf at e name rest stands = elim (ℕ_discrete e.inode 0) [
  | yes dead ↦ (false, rw (refused (inl dead)) refl, inr (refl, inl dead))
  | no live ↦ elim (ℕ_discrete (length e.name) (length name)) [
    | no differ ↦
        (false, rw (refused (inr differ)) refl, inr (refl, inr (λ q. differ (ap length q))))
    | yes same ↦
        let (r, result, iff) = memcmp-eq e.name name stands.behind rest same in
        let (m, read, v) = compared name e r live iff in
        (m, rw (asked live same, stands.named, result) read, v)
  ]
]
  where
    refused :
        (e.inode ≡ 0) ⊎ (length e.name ≢ length name)
        → (not (entry_inode buf at == 0) && (entry_name_len buf at == length name)) ≡ false
    refused why = ground (arith, stands.numbered, stands.name_sized, why)

    asked :
        e.inode ≢ 0
        → length e.name ≡ length name
        → (not (entry_inode buf at == 0) && (entry_name_len buf at == length name)) ≡ true
    asked live same = ground (arith, stands.numbered, stands.name_sized, live, same)

Entries-end : (buf : List ℕ) (at : ℕ) (es : List Entry) → Entries buf at es → at ≤ length buf
Entries-end buf at [] stand = omega arith
Entries-end buf at (e ∷ es) stand = omega (arith, stand.0.inside)

-- One round of the loop, at an entry.
search_block-step :
    (fuel : ℕ) (buf : List ℕ) (at : ℕ) (e : Entry) (name rest : List ℕ) (m : Bool)
    → EntryAt buf at e
    → entry_matches buf at (length name) (name ++ rest) ≡ some m
    → search_block (suc fuel) buf at (length name) (name ++ rest) ≡ (
        if m
        then hit e.inode
        else search_block fuel buf (at + e.rec_len) (length name) (name ++ rest))
unfolding search_block
search_block-step fuel buf at e name rest m stands verdict =
    rw (starts, has_header, has_length, verdict) (chosen m)
  where
    starts : not (ltb at (length buf)) ≡ false
    starts = ground (arith, stands.inside, stands.holds)

    has_header : ltb (length buf) (at + 8) ≡ false
    has_header = ground (arith, stands.inside, stands.holds)

    has_length : (entry_rec_len buf at == 0) ≡ false
    has_length = ground (arith, stands.sized, stands.holds)

    chosen :
        (m : Bool)
        → (elim m [
          | true ↦ hit (entry_inode buf at)
          | false ↦ search_block fuel buf (at + entry_rec_len buf at) (length name) (name ++ rest)
        ])
          ≡ (if m
              then hit e.inode
              else search_block fuel buf (at + e.rec_len) (length name) (name ++ rest))
    chosen true = ap hit stands.numbered
    chosen false =
        ap (λ n. search_block fuel buf (at + n) (length name) (name ++ rest)) stands.sized

-- In a buffer that holds the records of a list of entries from `at` to its end, the search returns
-- the inode number of the first entry that is in use and has the name, and misses if there is
-- none; it reads nothing outside the buffer, and its fuel is enough.
pub search_block-FirstMatch :
    (fuel : ℕ) (buf : List ℕ) (at : ℕ) (es : List Entry) (name rest : List ℕ)
    → Entries buf at es
    → length buf < at + fuel
    → FirstMatch es name (search_block fuel buf at (length name) (name ++ rest))
search_block-FirstMatch zero buf at es name rest stand enough =
    absurd (omega (arith, Entries-end buf at es stand))
search_block-FirstMatch (suc fuel) buf at [] name rest stand enough = unfold search_block in ended
  where
    ended : search_block (suc fuel) buf at (length name) (name ++ rest) ≡ miss
    ended = unfold search_block in ground arith
search_block-FirstMatch (suc fuel) buf at (e ∷ es) name rest stand enough =
    let (m, read, v) = entry_matches-Verdict buf at e name rest stand.0 in
    let round = search_block-step fuel buf at e name rest m stand.0 read in
    let later =
      search_block-FirstMatch fuel buf (at + e.rec_len) es name rest stand.1
        (omega (arith, stand.0.holds, enough)) in
    elim v [
      | inl (hits, live, same) ↦ inl (
        live,
        same,
        round
            ∙ ap
                (λ m.
                  if m
                  then hit e.inode
                  else search_block fuel buf (at + e.rec_len) (length name) (name ++ rest))
                hits,
      )
      | inr (misses, why) ↦ inr (
        why,
        subst (FirstMatch es name)
            (sym (
              round
              ∙ ap
                  (λ m.
                    if m
                    then hit e.inode
                    else search_block fuel buf (at + e.rec_len) (length name) (name ++ rest))
                  misses))
            later,
      )
    ]
