-- ===== src/Kmalloc/JoinLeft.antt =====
-- The join on the left of `kfree`, on memory that holds the blocks.
use osdev.Prelude.{
  ℕ, ◌+◌, ◌-◌, ◌%◌, ◌^◌, ◌≤◌, ◌<◌, ◌≡◌, refl, subst, ◌⊎◌, inl, inr, true, false, not, ◌&&◌, List,
  ◌∷◌, arith, ltb, leb, Bool-cases,
}
use osdev.Kmalloc.{Mem, write, flags_of, is_present, join_left, max_coalesce}
use osdev.Kmalloc.Blocks.{Block, free, used, extent, span, merge_left}
use osdev.Kmalloc.Layout.{Stands, Layout, Layout-end, Layout-frame}
use osdev.Kmalloc.Place.{SameOutside}

-- `w` is the block before the free one at `hdr`.
module _ (mem : Mem) (base at end size : ℕ) (w : Block) (rest : List Block)
    (before : Stands mem at w) (s : Stands mem (at + extent w) (free size))
    (follow : Layout mem (at + extent w + extent (free size)) end rest) (below : end ≤ 2 ^ 32)
    (inside : base ≤ at) where
  abbrev hdr : ℕ
  hdr = at + extent w

  abbrev ftr : ℕ
  ftr = hdr + 8 + size

  left_header : mem (hdr - 4) ≡ at
  left_header = subst (λ n. mem n ≡ at) (omega arith) before.footed

  left_ends : ltb base hdr ≡ true
  left_ends = ground (arith, inside)

  abbrev Joined : Mem → Type 0
  Joined m = Layout m at end (merge_left w (free size ∷ rest)) × SameOutside at end mem m

  join_left-nothing :
      (not (is_present (flags_of mem at)) && leb (mem at) max_coalesce) ≡ false
      → merge_left w (free size ∷ rest) ≡ w ∷ free size ∷ rest
      → Joined (join_left mem base hdr ftr)
  unfolding join_left
  join_left-nothing test whole =
      rw (left_ends, left_header, test, whole) ((before, (s, follow)), λ x out. refl)

-- The same where the block before is free and small enough.
module _ (mem : Mem) (base at end size l : ℕ) (rest : List Block) (before : Stands mem at (free l))
    (s : Stands mem (at + extent (free l)) (free size))
    (follow : Layout mem (at + extent (free l) + extent (free size)) end rest)
    (below : end ≤ 2 ^ 32) where
  abbrev merged : Mem
  merged = write (write mem at (l + (12 + size))) (at + extent (free l) + 8 + size) at

  merged-Stands : Stands merged at (free (l + (12 + size)))
  unfolding write
  merged-Stands = record {
    sized = ground arith;
    marked = ground (arith, before.marked);
    footed = ground arith;
    aligned = omega (arith, before.aligned, s.aligned);
  }

  merged-same : (x : ℕ) → (x < at) ⊎ (at + 12 + l + 12 + size ≤ x) → merged x ≡ mem x
  unfolding write
  merged-same x (inl p) = ground arith
  merged-same x (inr p) = ground arith

  reach : at + 12 + l + 12 + size + span rest ≡ end
  reach = omega (arith, Layout-end mem (at + extent (free l) + extent (free size)) end rest follow)

  sums : (mem at + (12 + mem (at + extent (free l))) % 2 ^ 32) % 2 ^ 32 ≡ l + (12 + size)
  sums = omega (arith, before.sized, s.sized, reach)

  join_left-free :
      base ≤ at
      → leb l max_coalesce ≡ true
      → Layout
          (join_left mem base (at + extent (free l)) (at + extent (free l) + 8 + size))
          at
          end
          (merge_left (free l) (free size ∷ rest))
        × SameOutside at end mem
            (join_left mem base (at + extent (free l)) (at + extent (free l) + 8 + size))
  unfolding join_left
  join_left-free inside fits =
      rw
        (
          left_ends mem base at end size (free l) rest before s follow below inside,
          left_header mem base at end size (free l) rest before s follow below inside,
          test,
          sums,
          fits,
        )
        ((merged-Stands, later), λ x out. merged-same x (wider out))
    where
      test : (not (is_present (flags_of mem at)) && leb (mem at) max_coalesce) ≡ true
      test = rw (before.marked, before.sized, fits)

      later : Layout merged (at + extent (free (l + (12 + size)))) end rest
      later =
          Layout-frame mem merged (at + extent (free (l + (12 + size)))) end rest
            (λ x lo hi. merged-same x (inr (omega arith)))
            (subst (λ n. Layout mem n end rest) (omega arith) follow)

      wider : {x : ℕ} → (x < at) ⊎ (end ≤ x) → (x < at) ⊎ (at + 12 + l + 12 + size ≤ x)
      wider (inl p) = inl p
      wider (inr p) = inr (omega (arith, reach))

pub join_left-merge_left :
    (mem : Mem) (base at end size : ℕ) (w : Block) (rest : List Block)
    → Stands mem at w
    → Stands mem (at + extent w) (free size)
    → Layout mem (at + extent w + extent (free size)) end rest
    → end ≤ 2 ^ 32
    → base ≤ at
    → Layout
        (join_left mem base (at + extent w) (at + extent w + 8 + size))
        at
        end
        (merge_left w (free size ∷ rest))
      × SameOutside at end mem (join_left mem base (at + extent w) (at + extent w + 8 + size))
join_left-merge_left mem base at end size (used l f) rest before s follow below inside =
    join_left-nothing mem base at end size (used l f) rest before s follow below inside
      (rw (before.marked.0, before.marked.1)) refl
join_left-merge_left mem base at end size (free l) rest before s follow below inside =
    elim (Bool-cases (leb l max_coalesce)) [
      | inl fits ↦ join_left-free mem base at end size l rest before s follow below inside fits
      | inr large ↦
          join_left-nothing mem base at end size (free l) rest before s follow below inside
            (rw (before.marked, before.sized, large)) (rw large)
    ]
