-- ===== src/Mm/Alloc.antt =====
-- `alloc_page` takes the lowest free page.
use osdev.Prelude.{
  ℕ, zero, suc, ◌+◌, ◌*◌, ◌/◌, ◌%◌, ◌^◌, ◌≤◌, ◌<◌, ◌≡◌, ◌≢◌, refl, subst, ◌⊎◌, inl, inr, Bool, true,
  false, ◌==◌, if◌then◌else◌, arith, Bool-cases, dec_lt, ℕ_discrete,
}
use osdev.Mm.{
  Mm, Table, bit, or_bit, lowest_clear, alloc_loop, alloc_page, update, full_word, page_size,
  bitmap_words,
}
use osdev.Mm.Bits.{bit-or_bit, lowest_clear_lem, bit-ones}

-- The bit of page `p` in the bitmap.
abbrev pub used_page : Table → ℕ → Bool
used_page bitmap p = bit (bitmap (p / 32)) (p % 32)

-- The pages from `from` on, below `end`: the lowest free one is taken.
pub record Taken (bitmap : Table) (from end p : ℕ) (r : ℕ × Table) : Type 0 where
  pub range : (from ≤ p) × (p < end)
  pub free : used_page bitmap p ≡ false
  pub lowest : (q : ℕ) → from ≤ q → q < p → used_page bitmap q ≡ true
  pub address : r.0 ≡ p * page_size % 2 ^ 32
  pub marked : (q : ℕ) → used_page r.1 q ≡ (if q == p then true else used_page bitmap q)

abbrev pub NoneFree : Table → ℕ → ℕ → ℕ × Table → Type 0
NoneFree bitmap from end r =
    ((q : ℕ) → from ≤ q → q < end → used_page bitmap q ≡ true) × (r ≡ (0, bitmap))

abbrev pub LowestFree : Table → ℕ → ℕ → ℕ × Table → Type 0
LowestFree bitmap from end r = ((p : ℕ) × Taken bitmap from end p r) ⊎ NoneFree bitmap from end r

full_word-used :
    (bitmap : Table) (i q : ℕ)
    → bitmap i ≡ full_word
    → i * 32 ≤ q
    → q < (i + 1) * 32
    → used_page bitmap q ≡ true
full_word-used bitmap i q e lo hi = rw (word) (bit-ones 32 (bitmap i) (q % 32) e (omega arith))
  where
    word : q / 32 ≡ i
    word = omega arith

later-LowestFree :
    (bitmap : Table) (i end : ℕ) (r : ℕ × Table)
    → bitmap i ≡ full_word
    → LowestFree bitmap ((i + 1) * 32) end r
    → LowestFree bitmap (i * 32) end r
later-LowestFree bitmap i end r e (inl (p, t)) = inl (
  p,
  record {
    range = omega arith;
    free = t.free;
    lowest = λ q lo hi. elim (dec_lt q ((i + 1) * 32)) [
      | yes h ↦ full_word-used bitmap i q e lo h
      | no h ↦ t.lowest q (omega arith) hi
    ];
    address = t.address;
    marked = t.marked;
  },
)
later-LowestFree bitmap i end r e (inr (all, same)) = inr (
  λ q lo hi. elim (dec_lt q ((i + 1) * 32)) [
    | yes h ↦ full_word-used bitmap i q e lo h
    | no h ↦ all q (omega arith) hi
  ],
  same,
)

taken_here :
    (bitmap : Table) (i end : ℕ)
    → bitmap i < 2 ^ 32
    → bitmap i ≢ full_word
    → (i + 1) * 32 ≤ end
    → LowestFree bitmap (i * 32) end (
      (i * 32 + lowest_clear 32 (bitmap i)) * page_size % 2 ^ 32,
      update bitmap i (or_bit (bitmap i) (lowest_clear 32 (bitmap i))),
    )
taken_here bitmap i end small ne room = inl (
  i * 32 + k,
  record {
    range = omega (arith, found.0);
    free = rw (word, place) found.1;
    lowest = λ q lo hi. lower q lo hi;
    address = refl;
    marked = marked;
  },
)
  where
    k : ℕ
    k = lowest_clear 32 (bitmap i)

    found : (k < 32) × (bit (bitmap i) k ≡ false) × ((j : ℕ) → j < k → bit (bitmap i) j ≡ true)
    found = lowest_clear_lem 32 (bitmap i) small ne

    word : (i * 32 + k) / 32 ≡ i
    word = omega (arith, found.0)

    place : (i * 32 + k) % 32 ≡ k
    place = omega (arith, found.0)

    lower : (q : ℕ) → i * 32 ≤ q → q < i * 32 + k → used_page bitmap q ≡ true
    lower q lo hi =
        let w : q / 32 ≡ i = omega (arith, found.0) in
        rw w (found.2 (q % 32) (omega (arith, found.0)))

    marked :
        (q : ℕ)
        → used_page (update bitmap i (or_bit (bitmap i) k)) q
          ≡ (if q == i * 32 + k then true else used_page bitmap q)
    marked q = elim (ℕ_discrete (q / 32) i) [
      | yes e ↦
          let here : (i == i) ≡ true = ground arith in
          let same : (q == i * 32 + k) ≡ (q % 32 == k) = ground (arith, found.0) in
          rw (e, here, bit-or_bit, same)
      | no other ↦
          let away : (q / 32 == i) ≡ false = ground arith in
          let differs : (q == i * 32 + k) ≡ false = ground (arith, found.0) in rw (away, differs)
    ]

alloc_loop-LowestFree :
    (n : ℕ) (bitmap : Table) (i : ℕ)
    → ((j : ℕ) → bitmap j < 2 ^ 32)
    → LowestFree bitmap (i * 32) ((i + n) * 32) (alloc_loop n bitmap i)
unfolding alloc_loop
alloc_loop-LowestFree zero bitmap i small = inr (λ q lo hi. absurd (omega arith), refl)
alloc_loop-LowestFree (suc n) bitmap i small = elim (Bool-cases (bitmap i == full_word)) [
  | inl full ↦ rw full (
      later-LowestFree bitmap i ((i + suc n) * 32) (alloc_loop n bitmap (i + 1)) (ground arith) (
        subst (λ m. LowestFree bitmap ((i + 1) * 32) (m * 32) (alloc_loop n bitmap (i + 1)))
          (omega arith) (alloc_loop-LowestFree n bitmap (i + 1) small)))
  | inr room ↦
      rw room (taken_here bitmap i ((i + suc n) * 32) (small i) (ground arith) (omega arith))
]

-- With a bitmap of words below 2 ^ 32: where a page of the 2 ^ 20 is free, `alloc_page` returns
-- the address of the lowest one, which is marked, and every other page keeps its mark; where none
-- is, it returns 0 and changes nothing. The page tables stay as they were.
pub alloc_page-LowestFree :
    (s : Mm)
    → ((j : ℕ) → s.bitmap j < 2 ^ 32)
    → let (page, s') = alloc_page s in
      LowestFree s.bitmap 0 (2 ^ 20) (page, s'.bitmap)
      × (s'.directory ≡ s.directory)
      × (s'.frames ≡ s.frames)
unfolding alloc_page
alloc_page-LowestFree s small = (alloc_loop-LowestFree bitmap_words s.bitmap 0 small, refl, refl)
