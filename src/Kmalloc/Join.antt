-- ===== src/Kmalloc/Join.antt =====
-- The two joins of `kfree`, on memory that holds the blocks.
use osdev.Prelude.{
  ℕ, ◌+◌, ◌%◌, ◌^◌, ◌≤◌, ◌<◌, ◌≡◌, refl, subst, ◌⊎◌, inl, inr, true, false, not, ◌&&◌, List, [],
  ◌∷◌, arith, ltb, leb, Bool-cases,
}
use osdev.Kmalloc.{Mem, write, flags_of, is_present, join_right, max_coalesce}
use osdev.Kmalloc.Blocks.{Block, free, used, extent, span, merge_right}
use osdev.Kmalloc.Layout.{Stands, Layout, Layout-end, Layout-frame}
use osdev.Kmalloc.Place.{SameOutside}

-- The memory and the footer's address after the join on the right, beside the list's own.
pub record JoinedRight (mem : Mem) (hdr end size : ℕ) (ys : List Block) (r : Mem × ℕ) : Type 0 where
  pub new_size : ℕ
  pub rest : List Block
  pub merged : merge_right size ys ≡ free new_size ∷ rest
  pub stands : Stands r.0 hdr (free new_size)
  pub follow : Layout r.0 (hdr + extent (free new_size)) end rest
  pub footer : r.1 ≡ hdr + 8 + new_size
  pub same : SameOutside hdr end mem r.0

module _ (mem : Mem) (hdr end size : ℕ) (s : Stands mem hdr (free size))
    (below : end ≤ 2 ^ 32) where
  abbrev right : ℕ
  right = hdr + 8 + size + 4

  join_right-nothing :
      (ys : List Block)
      → merge_right size ys ≡ free size ∷ ys
      → Layout mem (hdr + extent (free size)) end ys
      → (ltb right end && not (is_present (flags_of mem right)) && leb (mem right) max_coalesce)
        ≡ false
      → JoinedRight mem hdr end size ys (join_right mem end hdr (hdr + 8 + size))
  unfolding join_right
  join_right-nothing ys whole l test = rw test (record {
    new_size = size;
    rest = ys;
    merged = whole;
    stands = s;
    follow = l;
    footer = refl;
    same = λ x out. refl;
  })

  joined : ℕ → Mem
  unfolding write
  joined r = write (write mem hdr (size + (12 + r))) (right + 8 + r) hdr

  joined-Stands : (r : ℕ) → r % 4 ≡ 0 → Stands (joined r) hdr (free (size + (12 + r)))
  unfolding joined
  joined-Stands r al = record {
    sized = ground arith;
    marked = ground (arith, s.marked);
    footed = ground arith;
    aligned = omega (arith, s.aligned);
  }

  joined-same : (r x : ℕ) → (x < hdr) ⊎ (right + 12 + r ≤ x) → joined r x ≡ mem x
  unfolding joined
  joined-same r x (inl p) = ground arith
  joined-same r x (inr p) = ground arith

  join_right-free :
      (r : ℕ) (ys : List Block)
      → Layout mem (hdr + extent (free size)) end (free r ∷ ys)
      → leb r max_coalesce ≡ true
      → JoinedRight mem hdr end size (free r ∷ ys) (join_right mem end hdr (hdr + 8 + size))
  unfolding join_right joined
  join_right-free r ys l fits =
      rw (test, exact)
        (record {
          new_size = size + (12 + r);
          rest = ys;
          merged = rw fits;
          stands = joined-Stands r l.0.aligned;
          follow =
              subst (λ n. Layout (joined r) n end ys) (omega arith)
                (Layout-frame mem (joined r) (right + 12 + r) end ys
                  (λ x lo hi. joined-same r x (inr lo)) later);
          footer = omega (arith, neighbour.sized);
          same = λ x out. joined-same r x (wider out);
        })
    where
      at : hdr + extent (free size) ≡ right
      at = omega arith

      neighbour : Stands mem right (free r)
      neighbour = subst (λ n. Stands mem n (free r)) at l.0

      later : Layout mem (right + 12 + r) end ys
      later = subst (λ n. Layout mem n end ys) (omega arith) l.1

      reach : right + 12 + r + span ys ≡ end
      reach = Layout-end mem (right + 12 + r) end ys later

      test :
          (ltb right end && not (is_present (flags_of mem right)) && leb (mem right) max_coalesce)
          ≡ true
      test = ground (arith, neighbour.sized, neighbour.marked, reach)

      sum : (mem hdr + (12 + r) % 2 ^ 32) % 2 ^ 32 ≡ size + (12 + r)
      sum = omega (arith, s.sized, reach)

      exact :
          write
            (write mem hdr ((mem hdr + (12 + mem right) % 2 ^ 32) % 2 ^ 32))
            (right + 8 + mem right)
            hdr
          ≡ joined r
      exact = rw (neighbour.sized, sum)

      wider : {x : ℕ} → (x < hdr) ⊎ (end ≤ x) → (x < hdr) ⊎ (right + 12 + r ≤ x)
      wider (inl p) = inl p
      wider (inr p) = inr (omega (arith, reach))

  pub join_right-JoinedRight :
      (ys : List Block)
      → Layout mem (hdr + extent (free size)) end ys
      → JoinedRight mem hdr end size ys (join_right mem end hdr (hdr + 8 + size))
  join_right-JoinedRight [] l = join_right-nothing [] refl l (ground arith)
  join_right-JoinedRight (used r f ∷ ys) l =
      join_right-nothing (used r f ∷ ys) refl l (ground (arith, neighbour.marked))
    where
      neighbour : Stands mem right (used r f)
      neighbour = subst (λ n. Stands mem n (used r f)) (omega arith) l.0
  join_right-JoinedRight (free r ∷ ys) l = elim (Bool-cases (leb r max_coalesce)) [
    | inl fits ↦ join_right-free r ys l fits
    | inr large ↦ join_right-nothing (free r ∷ ys) (rw large) l (ground (arith, neighbour.sized))
  ]
    where
      neighbour : Stands mem right (free r)
      neighbour = subst (λ n. Stands mem n (free r)) (omega arith) l.0
