-- ===== src/Kmalloc/Walk.antt =====
-- The search of `kmalloc` is the first fit of the block list, and it ends.
use osdev.Prelude.{
  ℕ, zero, suc, ◌+◌, ◌≤◌, ◌<◌, ◌≡◌, refl, ◌∙◌, ap, inl, inr, Bool, true, false, not, ◌&&◌, List, [],
  ◌∷◌, ◌++◌, arith, if◌then◌else◌, leb, length, Bool-cases, lt→ltb,
}
use osdev.Kmalloc.{Mem, Search, found, exhausted, find_free, flags_of, is_present}
use osdev.Kmalloc.Blocks.{Block, free, used, extent, span, place, alloc, alloc_offset}
use osdev.Kmalloc.Layout.{Stands, Layout, Layout-end}

-- What the search finds in the blocks `bs` from `h` on, beside the first fit of the list.
pub data Outcome (h a_size flags : ℕ) (bs : List Block) : Search → Type 0 where
  hit :
      (xs ys : List Block) (size hdr : ℕ)
      → hdr ≡ h + span xs
      → bs ≡ xs ++ (free size ∷ ys)
      → a_size ≤ size
      → alloc a_size flags bs ≡ xs ++ (place size a_size flags ++ ys)
      → alloc_offset a_size bs ≡ span xs
      → Outcome h a_size flags bs (found hdr)
  miss :
      alloc a_size flags bs ≡ bs ++ (used a_size flags ∷ [])
      → alloc_offset a_size bs ≡ span bs
      → Outcome h a_size flags bs exhausted

module _ (a_size flags : ℕ) where
  -- A block that is passed over: in use, or too small.
  abbrev Passed : Block → Type 0
  Passed (free size) = leb a_size size ≡ false
  Passed (used size f) = Unit

  alloc-Passed :
      (b : Block) (bs : List Block)
      → Passed b
      → alloc a_size flags (b ∷ bs) ≡ b ∷ alloc a_size flags bs
  unfolding alloc
  alloc-Passed (free size) bs small = rw small
  alloc-Passed (used size f) bs _ = refl

  alloc_offset-Passed :
      (b : Block) (bs : List Block)
      → Passed b
      → alloc_offset a_size (b ∷ bs) ≡ extent b + alloc_offset a_size bs
  unfolding alloc_offset
  alloc_offset-Passed (free size) bs small = rw small
  alloc_offset-Passed (used size f) bs _ = refl

  Outcome-Passed :
      (h : ℕ) (b : Block) (bs : List Block) {r : Search}
      → Passed b
      → Outcome (h + extent b) a_size flags bs r
      → Outcome h a_size flags (b ∷ bs) r
  Outcome-Passed h b bs p (hit xs ys size hdr at split fits result offset) =
      hit (b ∷ xs) ys size hdr (omega arith) (ap (λ l. b ∷ l) split) fits
        (alloc-Passed b bs p ∙ ap (λ l. b ∷ l) result)
        (alloc_offset-Passed b bs p ∙ ap (λ n. extent b + n) offset)
  Outcome-Passed h b bs p (miss result offset) =
      miss (alloc-Passed b bs p ∙ ap (λ l. b ∷ l) result)
        (alloc_offset-Passed b bs p ∙ ap (λ n. extent b + n) offset)

  fits : Mem → ℕ → Bool
  fits mem c = not (is_present (flags_of mem c)) && leb a_size (mem c)

  fits-free : (mem : Mem) (h size : ℕ) → Stands mem h (free size) → fits mem h ≡ leb a_size size
  unfolding fits
  fits-free mem h size s = rw (s.marked, s.sized)

  fits-used : (mem : Mem) (h size f : ℕ) → Stands mem h (used size f) → fits mem h ≡ false
  unfolding fits
  fits-used mem h size f s = rw (s.marked.0, s.marked.1)

  first_fits :
      (h size : ℕ) (bs : List Block)
      → leb a_size size ≡ true
      → Outcome h a_size flags (free size ∷ bs) (found h)
  unfolding alloc alloc_offset
  first_fits h size bs p = hit [] bs size h (omega arith) refl (ground arith) (rw p) (rw p)

  find_free-step :
      (fuel : ℕ) (mem : Mem) (end h : ℕ)
      → h < end
      → find_free (suc fuel) mem end a_size h
        ≡ (if fits mem h then found h else find_free fuel mem end a_size (h + 8 + mem h + 4))
  unfolding find_free fits
  find_free-step fuel mem end h p = rw (lt→ltb h end p)

  find_free-end :
      (fuel : ℕ) (mem : Mem) (h end : ℕ)
      → h ≡ end
      → find_free (suc fuel) mem end a_size h ≡ exhausted
  unfolding find_free
  find_free-end fuel mem h end p = ground arith

  pub find_free-Outcome :
      (fuel : ℕ) (mem : Mem) (h end : ℕ) (bs : List Block)
      → Layout mem h end bs
      → length bs < fuel
      → Outcome h a_size flags bs (find_free fuel mem end a_size h)
  unfolding alloc alloc_offset
  find_free-Outcome zero mem h end bs l f = absurd (omega arith)
  find_free-Outcome (suc fuel) mem h end [] l f =
      rw (find_free-end fuel mem h end l) (miss refl refl)
  find_free-Outcome (suc fuel) mem h end (free size ∷ bs) l f =
      elim (Bool-cases (leb a_size size)) [
        | inl p ↦
            rw (find_free-step fuel mem end h before, fits-free mem h size l.0, p)
              (first_fits h size bs p)
        | inr p ↦
            rw (find_free-step fuel mem end h before, fits-free mem h size l.0, p, next)
              (Outcome-Passed h (free size) bs p
                (find_free-Outcome fuel mem (h + extent (free size)) end bs l.1 (omega arith)))
      ]
    where
      before : h < end
      before = omega (arith, Layout-end mem (h + extent (free size)) end bs l.1)

      next : h + 8 + mem h + 4 ≡ h + extent (free size)
      next = omega (arith, l.0.sized)
  find_free-Outcome (suc fuel) mem h end (used size g ∷ bs) l f =
      rw (find_free-step fuel mem end h before, fits-used mem h size g l.0, next)
        (Outcome-Passed h (used size g) bs tt
          (find_free-Outcome fuel mem (h + extent (used size g)) end bs l.1 (omega arith)))
    where
      before : h < end
      before = omega (arith, Layout-end mem (h + extent (used size g)) end bs l.1)

      next : h + 8 + mem h + 4 ≡ h + extent (used size g)
      next = omega (arith, l.0.sized)
