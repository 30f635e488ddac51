-- ===== src/Ext2/GetBlock.antt =====
-- `get_block`: the direct blocks and the three trees behind the inode's pointers.
use osdev.Prelude.{
  ℕ, zero, suc, ◌+◌, ◌-◌, ◌*◌, ◌%◌, ◌^◌, ◌≤◌, ◌<◌, ◌≡◌, refl, ap, subst, ◌∙◌, true, false, [], ◌∷◌,
  ltb, arith,
}
use native.Mathlib.Nat.{mod-eq_of_lt, pow-succ', pow-zero}
use osdev.Ext2.{Ext2, Inode, pointers, get_block_iter, get_block}
use osdev.Ext2.Disk.{HoldsImage}
use osdev.Ext2.BlockMap.{get_block_iter-follow}
use osdev.Ext2.Path.{follow, path_number, Fits, row_bound, path_number-bound}

-- The powers of the number of pointers, as the source multiplies them out.
square_below : (p : ℕ) → 0 < p → p * p * p < 2 ^ 32 → p * p < 2 ^ 32
square_below zero h k = absurd (omega arith)
square_below (suc p) h k = omega (arith, k, at_least (suc p * suc p) p)
  where
    at_least : (n m : ℕ) → n ≤ n * suc m
    at_least n m = grind arith

-- The block behind each kind of pointer.
get_block-regions :
    (fs : Ext2) (inode : Inode) (l : ℕ)
    → Fits fs
    → (let p = pointers fs in
        (l < 12 → get_block fs inode l ≡ inode.block l)
        × (l < p → get_block fs inode (12 + l) ≡ get_block_iter 1 fs l (inode.block 12))
        × (l < p * p → get_block fs inode (12 + (p + l)) ≡ get_block_iter 2 fs l (inode.block 13))
        × (l < p * p * p
            → get_block fs inode (12 + (p + (p * p + l))) ≡ get_block_iter 3 fs l (inode.block 14)))
unfolding get_block
get_block-regions fs inode l fits = (direct, single, double, triple)
  where
    p : ℕ
    p = pointers fs

    square : p * p % 2 ^ 32 ≡ p * p
    square = mod-eq_of_lt (square_below p fits.some_pointers fits.cube)

    cubed : p * p * p % 2 ^ 32 ≡ p * p * p
    cubed = mod-eq_of_lt fits.cube

    less : (m n : ℕ) → m < n → ltb m n ≡ true
    less m n h = ground arith

    more : (m n : ℕ) → n ≤ m → ltb m n ≡ false
    more m n h = ground arith

    past : (m n : ℕ) → m + n - m ≡ n
    past m n = omega arith

    direct : l < 12 → get_block fs inode l ≡ inode.block l
    direct h = rw (less l 12 h) refl

    single : l < p → get_block fs inode (12 + l) ≡ get_block_iter 1 fs l (inode.block 12)
    single h = rw (more (12 + l) 12 (omega arith), past 12 l, less l p h) refl

    double : l < p * p → get_block fs inode (12 + (p + l)) ≡ get_block_iter 2 fs l (inode.block 13)
    double h =
        rw
          (
            more (12 + (p + l)) 12 (omega arith),
            past 12 (p + l),
            more (p + l) p (omega arith),
            past p l,
            square,
            less l (p * p) h,
          )
          refl

    triple :
        l < p * p * p
        → get_block fs inode (12 + (p + (p * p + l))) ≡ get_block_iter 3 fs l (inode.block 14)
    triple h =
        rw
          (
            more (12 + (p + (p * p + l))) 12 (omega arith),
            past 12 (p + (p * p + l)),
            more (p + (p * p + l)) p (omega arith),
            past p (p * p + l),
            square,
            more (p * p + l) (p * p) (omega arith),
            past (p * p) l,
            cubed,
            less l (p * p * p) h,
          )
          refl

-- On a device that holds an image, and a volume whose blocks are not empty, hold whole pointers
-- and, like the cube of the number of pointers in one, lie below the wrap of `size_t`: `get_block`
-- returns the block that the inode names for a logical block: the first twelve directly, then
-- those behind one, two and three levels of pointer blocks, each slot of a path being a digit of
-- the block's number.
pub get_block-follow :
    (image : ℕ → ℕ) (fs : Ext2) (inode : Inode) (i j k : ℕ)
    → HoldsImage fs.dev image
    → Fits fs
    → i < pointers fs
    → j < pointers fs
    → k < pointers fs
    → (let p = pointers fs in
        (k < 12 → get_block fs inode k ≡ inode.block k)
        × (get_block fs inode (12 + k) ≡ follow image fs (inode.block 12) (k ∷ []))
        × (get_block fs inode (12 + (p + (j * p + k)))
            ≡ follow image fs (inode.block 13) (j ∷ k ∷ []))
        × (get_block fs inode (12 + (p + (p * p + (i * (p * p) + j * p + k))))
            ≡ follow image fs (inode.block 14) (i ∷ j ∷ k ∷ [])))
get_block-follow image fs inode i j k holds fits hi hj hk = (
  (get_block-regions fs inode k fits).0,
  (get_block-regions fs inode k fits).1 hk ∙ single,
  (get_block-regions fs inode (j * p + k) fits).2 two_below ∙ double,
  (get_block-regions fs inode (i * (p * p) + j * p + k) fits).3 three_below ∙ triple,
)
  where
    p : ℕ
    p = pointers fs

    one_p : p ^ 1 ≡ p
    one_p = pow-succ' p 0 ∙ ap (λ q. p * q) (pow-zero p) ∙ omega arith

    two_p : p ^ 2 ≡ p * p
    two_p = pow-succ' p 1 ∙ ap (λ q. p * q) one_p

    three_p : p ^ 3 ≡ p * p * p
    three_p = pow-succ' p 2 ∙ ap (λ q. p * q) two_p ∙ grind arith

    number_1 : path_number p (k ∷ []) ≡ k
    number_1 = ap (λ q. k * q + 0) (pow-zero p) ∙ omega arith

    number_2 : path_number p (j ∷ k ∷ []) ≡ j * p + k
    number_2 = ap (λ q. j * q + path_number p (k ∷ [])) one_p ∙ ap (λ r. j * p + r) number_1

    number_3 : path_number p (i ∷ j ∷ k ∷ []) ≡ i * (p * p) + j * p + k
    number_3 =
        ap (λ q. i * q + path_number p (j ∷ k ∷ [])) two_p
        ∙ ap (λ r. i * (p * p) + r) number_2
        ∙ omega arith

    square : p * p < 2 ^ 32
    square = square_below p fits.some_pointers fits.cube

    one_below : p ^ 1 < 2 ^ 32
    one_below = omega (arith, one_p, square, row_bound 0 p p fits.some_pointers)

    two_below : j * p + k < p * p
    two_below = omega (arith, number_2, two_p, path_number-bound p (j ∷ k ∷ []) (hj, (hk, tt)))

    three_below : i * (p * p) + j * p + k < p * p * p
    three_below =
        omega (arith, number_3, three_p, path_number-bound p (i ∷ j ∷ k ∷ []) (hi, (hj, (hk, tt))))

    single : get_block_iter 1 fs k (inode.block 12) ≡ follow image fs (inode.block 12) (k ∷ [])
    single =
        subst
          (λ n. get_block_iter 1 fs n (inode.block 12) ≡ follow image fs (inode.block 12) (k ∷ []))
          number_1
          (get_block_iter-follow image fs k [] (inode.block 12) holds fits (hk, tt)
            (omega (arith, pow-zero p)))

    double :
        get_block_iter 2 fs (j * p + k) (inode.block 13)
        ≡ follow image fs (inode.block 13) (j ∷ k ∷ [])
    double =
        subst
          (λ n.
            get_block_iter 2 fs n (inode.block 13) ≡ follow image fs (inode.block 13) (j ∷ k ∷ []))
          number_2
          (get_block_iter-follow image fs j (k ∷ []) (inode.block 13) holds fits (hj, (hk, tt))
            (one_below))

    triple :
        get_block_iter 3 fs (i * (p * p) + j * p + k) (inode.block 14)
        ≡ follow image fs (inode.block 14) (i ∷ j ∷ k ∷ [])
    triple =
        subst
          (λ n.
            get_block_iter 3 fs n (inode.block 14)
            ≡ follow image fs (inode.block 14) (i ∷ j ∷ k ∷ []))
          number_3
          (get_block_iter-follow image fs i (j ∷ k ∷ []) (inode.block 14) holds fits
            (hi, (hj, (hk, tt))) (omega (arith, two_p, square)))
