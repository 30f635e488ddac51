-- ===== src/CString/Text.antt =====
-- `strlen`, `strcmp`, `strncpy` and `strnlen` on arrays that hold a text and its terminator.
use osdev.Prelude.{
  ℕ, zero, suc, ◌+◌, ◌-◌, ◌%◌, ◌^◌, ◌<◌, ◌≡◌, ◌≢◌, refl, ap, true, false, not, ◌&&◌, ◌==◌,
  if◌then◌else◌, arith, List, [], ◌∷◌, ◌++◌, length, take, replicate, some, ◌↔◌, ℕ_discrete,
}
use osdev.CString.{memcmp, strlen, strcmp, strncpy, Sign, equal, sign_of, strnlen, strnlen_loop}

-- No character of a text is the terminator.
abbrev pub IsText : List ℕ → Type 0
IsText [] = Unit
IsText (c ∷ t) = (c ≢ 0) × IsText t

-- The array from the first character of the text `t` on, with what stands behind its terminator.
abbrev pub c_string : List ℕ → List ℕ → List ℕ
c_string t rest = t ++ (0 ∷ rest)

-- `strlen` is the length of the text, whatever stands behind it.
pub strlen-length : (t rest : List ℕ) → IsText t → strlen (c_string t rest) ≡ some (length t)
unfolding strlen
strlen-length [] rest h = refl
strlen-length (c ∷ t) rest h = rw (nonzero, strlen-length t rest h.1)
  where
    nonzero : (c == 0) ≡ false
    nonzero = ground (arith, h.0)

-- `strcmp` returns 0 exactly when the two texts are equal, and it always returns.
pub strcmp-eq :
    (t u rest rest' : List ℕ)
    → IsText t
    → IsText u
    → (r : Sign) × (strcmp (c_string t rest) (c_string u rest') ≡ some r) × ((r ≡ equal) ↔ (t ≡ u))
unfolding strcmp
strcmp-eq [] [] rest rest' h k = (equal, refl, ((λ _. refl), (λ _. refl)))
strcmp-eq [] (c ∷ u) rest rest' h k =
    (sign_of 0 c, refl, ((λ e. absurd (ground (arith, k.0, e))), (λ e. absurd (cc))))
strcmp-eq (c ∷ t) [] rest rest' h k =
    (sign_of c 0, ground (arith, h.0), ((λ e. absurd (ground (arith, h.0, e))), (λ e. absurd (cc))))
strcmp-eq (c ∷ t) (d ∷ u) rest rest' h k = elim (ℕ_discrete c d) [
  | yes e ↦
      let (r, result, iff) = strcmp-eq t u rest rest' h.1 k.1 in
      (r, ground (arith, h.0, e, result), ((λ q. cc (iff.0 q)), (λ q. iff.1 (tails q))))
  | no ne ↦ (
    sign_of c d,
    ground (arith, h.0, ne),
    ((λ q. absurd (ground (arith, ne, q))), (λ q. absurd (ne (cc)))),
  )
]
  where
    tails : c ∷ t ≡ d ∷ u → t ≡ u
    tails q = cc

-- `memcmp` of two runs of bytes of the length it is given returns 0 exactly when they are equal,
-- whatever stands behind them.
pub memcmp-eq :
    (s t rest rest' : List ℕ)
    → length s ≡ length t
    → (r : Sign) × (memcmp (length t) (s ++ rest) (t ++ rest') ≡ some r) × ((r ≡ equal) ↔ (s ≡ t))
unfolding memcmp
memcmp-eq [] [] rest rest' same = (equal, refl, ((λ _. refl), (λ _. refl)))
memcmp-eq [] (b ∷ t) rest rest' same = absurd (omega arith)
memcmp-eq (a ∷ s) [] rest rest' same = absurd (omega arith)
memcmp-eq (a ∷ s) (b ∷ t) rest rest' same = elim (ℕ_discrete a b) [
  | yes e ↦
      let (r, result, iff) = memcmp-eq s t rest rest' (omega arith) in
      (r, ground (arith, e, result), ((λ q. cc (iff.0 q)), (λ q. iff.1 (tails q))))
  | no ne ↦ (
    sign_of a b,
    ground (arith, ne),
    ((λ q. absurd (ground (arith, ne, q))), (λ q. absurd (ne (cc)))),
  )
]
  where
    tails : a ∷ s ≡ b ∷ t → s ≡ t
    tails q = cc

-- The `n` bytes that `strncpy` leaves: the text cut off at n, or filled up with terminators.
pub strncpy-pad :
    (n : ℕ) (t rest : List ℕ)
    → IsText t
    → strncpy n (c_string t rest) ≡ some (take n t ++ replicate (n - length t) 0)
unfolding strncpy
strncpy-pad zero t rest h = ap (λ k. some (replicate k 0)) (zero_sub (length t))
  where
    zero_sub : (k : ℕ) → 0 ≡ 0 - k
    zero_sub k = omega arith
strncpy-pad (suc n) [] rest h = ap (λ k. some (replicate k 0)) (whole n)
  where
    whole : (k : ℕ) → suc k ≡ suc k - 0
    whole k = omega arith
strncpy-pad (suc n) (c ∷ t) rest h =
    rw (nonzero, strncpy-pad n t rest h.1)
      (ap (λ k. some (c ∷ take n t ++ replicate k 0)) (omega arith))
  where
    nonzero : (c == 0) ≡ false
    nonzero = ground (arith, h.0)

strnlen_loop-zero : (fuel c : ℕ) → 0 < fuel → strnlen_loop fuel c 0 ≡ some 0
unfolding strnlen_loop
strnlen_loop-zero zero c h = absurd (omega arith)
strnlen_loop-zero (suc fuel) c h = ground arith

-- Its loop counts up to the wrap of `size_t`, and with enough fuel it ends.
strnlen_loop-wraps :
    (fuel c n : ℕ) → c ≢ 0 → n < 2 ^ 32 → 2 ^ 32 - n < fuel → strnlen_loop fuel c n ≡ some 0
unfolding strnlen_loop
strnlen_loop-wraps zero c n h small enough = absurd (omega arith)
strnlen_loop-wraps (suc fuel) c n h small enough = elim (ℕ_discrete n 0) [
  | yes e ↦ ground (arith, h, e)
  | no ne ↦ elim (ℕ_discrete (n + 1) (2 ^ 32)) [
    | yes e ↦
        let next : (n + 1) % 2 ^ 32 ≡ 0 = omega arith in
        rw (going ne, next) (strnlen_loop-zero fuel c (omega arith))
    | no more ↦
        let next : (n + 1) % 2 ^ 32 ≡ n + 1 = omega arith in
        rw (going ne, next) (strnlen_loop-wraps fuel c (n + 1) h (omega arith) (omega arith))
  ]
]
  where
    going : n ≢ 0 → (not (c == 0) && not (0 == n)) ≡ true
    going ne = ground (arith, h, ne)

-- `strnlen` returns 0 for every string that is not empty, and its limit for the empty one: never
-- the length of the string, but where that is the limit. It ends within 2 ^ 32 rounds.
pub strnlen-wraps :
    (fuel c n : ℕ) → n < 2 ^ 32 → 2 ^ 32 < fuel → strnlen fuel c n ≡ some (if c == 0 then n else 0)
unfolding strnlen
strnlen-wraps fuel c n small enough = elim (ℕ_discrete c 0) [
  | yes e ↦ ground (arith, e, empty fuel (omega arith))
  | no ne ↦ ground (arith, ne, strnlen_loop-wraps fuel c n ne small (omega arith))
]
  where
    empty : (fuel : ℕ) → 0 < fuel → strnlen_loop fuel 0 n ≡ some n
    empty zero h = absurd (omega arith)
    empty (suc fuel) h = unfold strnlen_loop in refl
