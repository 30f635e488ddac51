-- ===== src/Kmalloc/Layout.antt =====
-- Memory that holds a list of blocks, and what a write elsewhere leaves of it.
use osdev.Prelude.{
  ℕ, ◌+◌, ◌%◌, ◌≤◌, ◌<◌, ◌≡◌, sym, ◌∙◌, subst, ◌≢◌, true, false, List, [], ◌∷◌, ◌++◌, arith,
}
use osdev.Kmalloc.{Mem, write, flags_of, is_present}
use osdev.Kmalloc.Blocks.{Block, free, used, size_of, extent, span}

-- The header's flags say whether the block is in use.
abbrev pub Marks : Block → ℕ → Type 0
Marks (free size) f = is_present f ≡ false
Marks (used size flags) f = (f ≡ flags) × (is_present flags ≡ true)

-- The block `b` stands at `h`: header, flags, and a footer that points back.
pub record Stands (mem : Mem) (h : ℕ) (b : Block) : Type 0 where
  pub sized : mem h ≡ size_of b
  pub marked : Marks b (flags_of mem h)
  pub footed : mem (h + 8 + size_of b) ≡ h
  pub aligned : size_of b % 4 ≡ 0

-- The blocks follow each other from `h` up to `end`.
abbrev pub Layout : Mem → ℕ → ℕ → List Block → Type 0
Layout mem h end [] = h ≡ end
Layout mem h end (b ∷ bs) = Stands mem h b × Layout mem (h + extent b) end bs

-- The two memories agree from `lo` up to `hi`.
abbrev pub Agree : ℕ → ℕ → Mem → Mem → Type 0
Agree lo hi mem mem' = (a : ℕ) → lo ≤ a → a < hi → mem' a ≡ mem a

pub Layout-end : (mem : Mem) (h end : ℕ) (bs : List Block) → Layout mem h end bs → h + span bs ≡ end
Layout-end mem h end [] l = omega arith
Layout-end mem h end (b ∷ bs) l = omega (arith, Layout-end mem (h + extent b) end bs l.1)

Stands-frame :
    (mem mem' : Mem) (h : ℕ) (b : Block)
    → Agree h (h + extent b) mem mem'
    → Stands mem h b
    → Stands mem' h b
Stands-frame mem mem' h b same s = record {
  sized = same h (omega arith) (omega arith) ∙ s.sized;
  marked = subst (Marks b) (sym (same (h + 4) (omega arith) (omega arith))) s.marked;
  footed = same (h + 8 + size_of b) (omega arith) (omega arith) ∙ s.footed;
  aligned = s.aligned;
}

pub Layout-frame :
    (mem mem' : Mem) (h end : ℕ) (bs : List Block)
    → Agree h end mem mem'
    → Layout mem h end bs
    → Layout mem' h end bs
Layout-frame mem mem' h end [] same l = l
Layout-frame mem mem' h end (b ∷ bs) same l =
    let reach = Layout-end mem (h + extent b) end bs l.1 in
    (
      Stands-frame mem mem' h b (λ a lo hi. same a lo (omega arith)) l.0,
      Layout-frame mem mem' (h + extent b) end bs (λ a lo hi. same a (omega arith) hi) l.1,
    )

pub Layout-append :
    (mem : Mem) (h m end : ℕ) (xs ys : List Block)
    → Layout mem h m xs
    → Layout mem m end ys
    → Layout mem h end (xs ++ ys)
Layout-append mem h m end [] ys l r = subst (λ a. Layout mem a end ys) (sym l) r
Layout-append mem h m end (x ∷ xs) ys l r =
    (l.0, Layout-append mem (h + extent x) m end xs ys l.1 r)

pub Layout-split :
    (mem : Mem) (h end : ℕ) (xs ys : List Block)
    → Layout mem h end (xs ++ ys)
    → Layout mem h (h + span xs) xs × Layout mem (h + span xs) end ys
Layout-split mem h end [] ys l = (omega arith, subst (λ a. Layout mem a end ys) (omega arith) l)
Layout-split mem h end (x ∷ xs) ys l =
    let (front, back) = Layout-split mem (h + extent x) end xs ys l.1 in
    (
      (l.0, subst (λ a. Layout mem (h + extent x) a xs) (omega arith) front),
      subst (λ a. Layout mem a end ys) (omega arith) back,
    )

-- A value that is written is read back, and every other address keeps its own.
pub write-same : (mem : Mem) (at v : ℕ) → write mem at v at ≡ v
unfolding write
write-same mem at v = ground arith

pub write-other : (mem : Mem) (at v a : ℕ) → a ≢ at → write mem at v a ≡ mem a
unfolding write
write-other mem at v a ne = ground arith
