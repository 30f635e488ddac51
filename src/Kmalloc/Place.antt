-- ===== src/Kmalloc/Place.antt =====
-- The two blocks that `kmalloc` can hand out: a free one, split if it is large, and a new one.
use osdev.Prelude.{
  ℕ, ◌+◌, ◌-◌, ◌%◌, ◌^◌, ◌≤◌, ◌<◌, ◌≡◌, ◌∙◌, subst, ◌≢◌, ◌⊎◌, inl, inr, true, false, arith, leb,
  Bool-cases, set_bit, clear_bit,
}
use osdev.Kmalloc.{Mem, write, is_present, split_block, take_block, add_block, round_size, sub_size}
use osdev.Kmalloc.Blocks.{free, used, place}
use osdev.Kmalloc.Layout.{Stands, Layout, write-other}

pub present-set_bit : (flags : ℕ) → is_present (set_bit flags 0) ≡ true
present-set_bit flags = ground arith

pub present-clear_bit : (flags : ℕ) → is_present (clear_bit flags 0) ≡ false
present-clear_bit flags = ground arith

module _ (mem : Mem) (h a flags : ℕ) where
  abbrev marked : Mem
  marked = write mem (h + 4) (set_bit flags 0)

  -- Marking a free block changes its flags alone.
  marked-Stands :
      (size : ℕ) → Stands mem h (free size) → Stands marked h (used size (set_bit flags 0))
  unfolding write
  marked-Stands size s = record {
    sized = ground (arith, s.sized);
    marked = (ground arith, present-set_bit flags);
    footed = ground (arith, s.footed);
    aligned = s.aligned;
  }

  marked-other : (x : ℕ) → x ≢ h + 4 → marked x ≡ mem x
  marked-other x ne = write-other mem (h + 4) (set_bit flags 0) x ne

module _ (mem : Mem) (h a size f : ℕ) (room : a + 20 ≤ size) (small : size < 2 ^ 32)
    (sized : mem h ≡ size) where
  split_block-front :
      mem (h + 4) ≡ f → is_present f ≡ true → a % 4 ≡ 0 → Stands (split_block mem h a) h (used a f)
  unfolding split_block
  split_block-front m p al = record {
    sized = ground arith;
    marked = (ground arith, p);
    footed = ground arith;
    aligned = al;
  }

  split_block-back :
      a % 4 ≡ 0 → size % 4 ≡ 0 → Stands (split_block mem h a) (h + 12 + a) (free (size - a - 12))
  unfolding split_block
  split_block-back al sl = record {
    sized = ground arith;
    marked = ground arith;
    footed = ground arith;
    aligned = omega arith;
  }

  split_block-other : (x : ℕ) → (x < h) ⊎ (h + 12 + size ≤ x) → split_block mem h a x ≡ mem x
  unfolding split_block
  split_block-other x (inl p) = ground arith
  split_block-other x (inr p) = ground arith

-- A write touches nothing outside the block that starts at `lo` and ends at `hi`.
abbrev pub SameOutside : ℕ → ℕ → Mem → Mem → Type 0
SameOutside lo hi mem mem' = (x : ℕ) → (x < lo) ⊎ (hi ≤ x) → mem' x ≡ mem x

module _ (mem : Mem) (h a flags size : ℕ) (s : Stands mem h (free size)) (fit : a ≤ size)
    (small : size < 2 ^ 32) where
  pub take_block-other : SameOutside h (h + 12 + size) mem (take_block mem h a flags)
  unfolding take_block
  take_block-other x out = elim (Bool-cases (leb 20 (sub_size (mem h) a))) [
    | inl p ↦ rw p (
        split_block-other (marked mem h a flags) h a size (set_bit flags 0)
          (ground (arith, s.sized)) small ((marked-Stands mem h a flags size s).sized) x out
        ∙ marked-other mem h a flags x (apart out))
    | inr p ↦ rw p (marked-other mem h a flags x (apart out))
  ]
    where
      apart : (x < h) ⊎ (h + 12 + size ≤ x) → x ≢ h + 4
      apart (inl p) = omega arith
      apart (inr p) = omega arith

  pub take_block-Layout :
      a % 4 ≡ 0
      → Layout (take_block mem h a flags) h (h + 12 + size) (place size a (set_bit flags 0))
  unfolding take_block
  take_block-Layout al = elim (Bool-cases (leb 20 (size - a))) [
    | inl p ↦
        let room : a + 20 ≤ size = ground arith in
        rw (p, split room)
          (
            split_block-front (marked mem h a flags) h a size (set_bit flags 0) room small m.sized
                m.marked.0 (present-set_bit flags) al,
            (
              subst (λ n. Stands (split_block (marked mem h a flags) h a) n (free (size - a - 12)))
                  (omega arith)
                  (split_block-back (marked mem h a flags) h a size (set_bit flags 0) room small
                    m.sized al s.aligned),
              omega arith,
            ),
          )
    | inr p ↦ rw (p, whole p) (m, omega arith)
  ]
    where
      m : Stands (marked mem h a flags) h (used size (set_bit flags 0))
      m = marked-Stands mem h a flags size s

      split : a + 20 ≤ size → leb 20 (sub_size (mem h) a) ≡ true
      split r = ground (arith, s.sized)

      whole : leb 20 (size - a) ≡ false → leb 20 (sub_size (mem h) a) ≡ false
      whole r = ground (arith, s.sized)

module _ (mem : Mem) (h a flags : ℕ) where
  pub add_block-Stands : a % 4 ≡ 0 → Stands (add_block mem h a flags) h (used a (set_bit flags 0))
  unfolding add_block
  add_block-Stands al = record {
    sized = ground arith;
    marked = (ground arith, present-set_bit flags);
    footed = ground arith;
    aligned = al;
  }

  pub add_block-other : SameOutside h (h + 12 + a) mem (add_block mem h a flags)
  unfolding add_block
  add_block-other x (inl p) = ground arith
  add_block-other x (inr p) = ground arith

pub round_size-aligned : (size : ℕ) → round_size size % 4 ≡ 0
unfolding round_size
round_size-aligned size = omega arith
