-- ===== src/Ata/Filled.antt =====
-- Words that were stored to memory one behind the other.
use osdev.Prelude.{
  ℕ, zero, suc, ◌+◌, ◌-◌, ◌*◌, ◌/◌, ◌%◌, ◌^◌, ◌≤◌, ◌<◌, ◌≡◌, refl, sym, ap, ◌∙◌, ◌⊎◌, inl, inr,
  arith, dec_lt,
}
use osdev.Ata.{Memory, store_word, load_word}

-- `mem'` is `mem` but for n words from an address on.
pub record Filled (mem mem' : Memory) (at n : ℕ) (word : ℕ → ℕ) : Type 0 where
  pub inside : (i : ℕ) → i < n → load_word mem' (at + 2 * i) ≡ word i
  pub outside : (x : ℕ) → (x < at) ⊎ (at + 2 * n ≤ x) → mem' x ≡ mem x

pub Filled-none : (mem : Memory) (at : ℕ) (word : ℕ → ℕ) → Filled mem mem at 0 word
Filled-none mem at word = record { inside = λ i h. elim h [ ]; outside = λ x h. refl }

pub Filled-cong :
    (mem mem' : Memory) (at n : ℕ) (word word' : ℕ → ℕ)
    → ((i : ℕ) → i < n → word i ≡ word' i)
    → Filled mem mem' at n word
    → Filled mem mem' at n word'
Filled-cong mem mem' at n word word' same f = record {
  inside = λ i h. f.inside i h ∙ same i h;
  outside = f.outside;
}

stored :
    (mem : Memory) (at w : ℕ)
    → w < 2 ^ 16
    → at + 2 < 2 ^ 32
    → (store_word mem at w at ≡ w % 2 ^ 8)
      × (store_word mem at w (at + 1) ≡ w / 2 ^ 8 % 2 ^ 8)
      × ((x : ℕ) → (x < at) ⊎ (at + 2 ≤ x) → store_word mem at w x ≡ mem x)
stored mem at w small fits = (ground arith, ground arith, λ x h. ground arith)

load_word-same :
    (mem mem' : Memory) (at : ℕ)
    → mem' at ≡ mem at
    → mem' ((at + 1) % 2 ^ 32) ≡ mem ((at + 1) % 2 ^ 32)
    → load_word mem' at ≡ load_word mem at
load_word-same mem mem' at low high = omega (arith, low, high)

load_word-stored :
    (mem : Memory) (at w : ℕ)
    → w < 2 ^ 16
    → at + 2 < 2 ^ 32
    → load_word (store_word mem at w) at ≡ w
load_word-stored mem at w small fits =
    let (low, high, apart) = stored mem at w small fits in
    omega (arith, small, low, ap (store_word mem at w) (next at fits), high)
  where
    next : (at : ℕ) → at + 2 < 2 ^ 32 → (at + 1) % 2 ^ 32 ≡ at + 1
    next at fits = omega arith

-- One word, and the words behind it.
pub Filled-cons :
    (mem mem' : Memory) (at n w : ℕ) (word : ℕ → ℕ)
    → w < 2 ^ 16
    → at + 2 * suc n < 2 ^ 32
    → Filled (store_word mem at w) mem' (at + 2) n (λ i. word (suc i))
    → word 0 ≡ w
    → Filled mem mem' at (suc n) word
Filled-cons mem mem' at n w word small fits rest first = record {
  inside = inside;
  outside = outside;
}
  where
    inside : (i : ℕ) → i < suc n → load_word mem' (at + 2 * i) ≡ word i
    inside zero h =
        ap (load_word mem') (omega arith)
        ∙ load_word-same (store_word mem at w) mem' at (rest.outside at (inl (omega arith)))
            (rest.outside ((at + 1) % 2 ^ 32) (inl (omega arith)))
        ∙ load_word-stored mem at w small (omega arith)
        ∙ sym first
    inside (suc i) h = ap (load_word mem') (omega arith) ∙ rest.inside i (omega arith)

    outside : (x : ℕ) → (x < at) ⊎ (at + 2 * suc n ≤ x) → mem' x ≡ mem x
    outside x (inl h) =
        rest.outside x (inl (omega arith)) ∙ (stored mem at w small (omega arith)).2 x (inl h)
    outside x (inr h) =
        rest.outside x (inr (omega arith))
        ∙ (stored mem at w small (omega arith)).2 x (inr (omega arith))

-- Words, and the words behind them.
pub Filled-append :
    (mem mem' mem'' : Memory) (at n k : ℕ) (word : ℕ → ℕ)
    → at + 2 * (n + k) < 2 ^ 32
    → Filled mem mem' at n word
    → Filled mem' mem'' (at + 2 * n) k (λ i. word (n + i))
    → Filled mem mem'' at (n + k) word
Filled-append mem mem' mem'' at n k word fits a b = record { inside = inside; outside = outside }
  where
    inside : (i : ℕ) → i < n + k → load_word mem'' (at + 2 * i) ≡ word i
    inside i h = elim (dec_lt i n) [
      | yes p ↦
          load_word-same mem' mem'' (at + 2 * i) (b.outside (at + 2 * i) (inl (omega arith)))
            (b.outside ((at + 2 * i + 1) % 2 ^ 32) (inl (omega arith)))
          ∙ a.inside i p
      | no p ↦
          ap (load_word mem'') (omega arith)
          ∙ b.inside (i - n) (omega arith)
          ∙ ap word (omega arith)
    ]

    outside : (x : ℕ) → (x < at) ⊎ (at + 2 * (n + k) ≤ x) → mem'' x ≡ mem x
    outside x (inl h) = b.outside x (inl (omega arith)) ∙ a.outside x (inl h)
    outside x (inr h) = b.outside x (inr (omega arith)) ∙ a.outside x (inr (omega arith))
