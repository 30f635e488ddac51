-- ===== src/RingBuffer/Slots.antt =====
-- The bytes of one slot of a ring, read and written.
use osdev.Prelude.{
  ℕ, zero, suc, ◌+◌, ◌≤◌, ◌<◌, ◌≡◌, refl, ap, ◌∙◌, ◌⊎◌, inl, inr, List, [], ◌∷◌, arith, length,
  get_or, set, length-set, get_or-set_self, get_or-set_ne,
}
use osdev.RingBuffer.{store_bytes, load_bytes}

pub length-store_bytes :
    (storage : List ℕ) (at : ℕ) (bs : List ℕ) → length (store_bytes storage at bs) ≡ length storage
unfolding store_bytes
length-store_bytes storage at [] = refl
length-store_bytes storage at (b ∷ bs) =
    length-store_bytes (set storage at b) (at + 1) bs ∙ length-set storage at b

pub length-load_bytes : (storage : List ℕ) (at n : ℕ) → length (load_bytes storage at n) ≡ n
unfolding load_bytes
length-load_bytes storage at zero = refl
length-load_bytes storage at (suc n) = ap suc (length-load_bytes storage (at + 1) n)

get_or-store_bytes_before :
    (storage : List ℕ) (at i : ℕ) (bs : List ℕ)
    → i < at
    → get_or (store_bytes storage at bs) i 0 ≡ get_or storage i 0
unfolding store_bytes
get_or-store_bytes_before storage at i [] h = refl
get_or-store_bytes_before storage at i (b ∷ bs) h =
    get_or-store_bytes_before (set storage at b) (at + 1) i bs (omega arith)
    ∙ get_or-set_ne storage b 0 (omega arith)

get_or-store_bytes_after :
    (storage : List ℕ) (at i : ℕ) (bs : List ℕ)
    → at + length bs ≤ i
    → get_or (store_bytes storage at bs) i 0 ≡ get_or storage i 0
unfolding store_bytes
get_or-store_bytes_after storage at i [] h = refl
get_or-store_bytes_after storage at i (b ∷ bs) h =
    get_or-store_bytes_after (set storage at b) (at + 1) i bs (omega arith)
    ∙ get_or-set_ne storage b 0 (omega arith)

-- A slot that was written reads back.
pub load_bytes-store_bytes :
    (storage : List ℕ) (at : ℕ) (bs : List ℕ)
    → at + length bs ≤ length storage
    → load_bytes (store_bytes storage at bs) at (length bs) ≡ bs
unfolding store_bytes load_bytes
load_bytes-store_bytes storage at [] h = refl
load_bytes-store_bytes storage at (b ∷ bs) h =
    λ i. first i ∷ load_bytes-store_bytes (set storage at b) (at + 1) bs rest_fits i
  where
    first : get_or (store_bytes (set storage at b) (at + 1) bs) at 0 ≡ b
    first =
        get_or-store_bytes_before (set storage at b) (at + 1) at bs (omega arith)
        ∙ get_or-set_self storage at b 0 (omega arith)

    rest_fits : at + 1 + length bs ≤ length (set storage at b)
    rest_fits = omega (arith, length-set storage at b)

-- A slot apart from the one written is as it was.
pub load_bytes-store_bytes_apart :
    (storage : List ℕ) (at from n : ℕ) (bs : List ℕ)
    → (from + n ≤ at) ⊎ (at + length bs ≤ from)
    → load_bytes (store_bytes storage at bs) from n ≡ load_bytes storage from n
unfolding load_bytes
load_bytes-store_bytes_apart storage at from zero bs h = refl
load_bytes-store_bytes_apart storage at from (suc n) bs h =
    λ i. first h i ∷ load_bytes-store_bytes_apart storage at (from + 1) n bs (later h) i
  where
    first :
        (from + suc n ≤ at) ⊎ (at + length bs ≤ from)
        → get_or (store_bytes storage at bs) from 0 ≡ get_or storage from 0
    first (inl p) = get_or-store_bytes_before storage at from bs (omega arith)
    first (inr p) = get_or-store_bytes_after storage at from bs (omega arith)

    later :
        (from + suc n ≤ at) ⊎ (at + length bs ≤ from)
        → (from + 1 + n ≤ at) ⊎ (at + length bs ≤ from + 1)
    later (inl p) = inl (omega arith)
    later (inr p) = inr (omega arith)
