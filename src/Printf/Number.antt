-- ===== src/Printf/Number.antt =====
-- `__int_str`: the digits read back to the number.
use osdev.Prelude.{
  ◌⊎◌, ℕ, zero, suc, ◌+◌, ◌-◌, ◌*◌, ◌/◌, ◌%◌, ◌^◌, ◌≤◌, ◌<◌, ◌≡◌, inl, inr, refl, sym, ap, ◌∙◌,
  Bool, true, false, some, List, [], ◌∷◌, ◌++◌, ◌==◌, leb, if◌then◌else◌, length, replicate, arith,
  length-append, Bool-cases, map,
}
use native.Mathlib.Nat.{mod-lt, div-add-mod', two-pow-succ, pow-zero}
use osdev.Printf.{
  digit_char, table_size, digits, radix, max_digits, map_digits, magnitude, sign_text, padding,
  pad_text, int_str,
}

-- The number that a list of digits stands for, after `acc`.
unfoldable pub number_of : ℕ → ℕ → List ℕ → ℕ
number_of base acc [] = acc
number_of base acc (d ∷ ds) = number_of base (acc * base + d) ds

-- The digit that a character stands for.
abbrev pub read_char : ℕ → ℕ → ℕ
read_char base c = if leb c 57 then c - 48 else if base == 17 then c - 87 else c - 55

number_of-append :
    (base acc d : ℕ) (ds : List ℕ)
    → number_of base acc (ds ++ (d ∷ [])) ≡ number_of base acc ds * base + d
unfolding number_of
number_of-append base acc d [] = refl
number_of-append base acc d (e ∷ ds) = number_of-append base (acc * base + e) d ds

doubled : (q b : ℕ) → 2 ≤ b → q * 2 ≤ q * b
doubled zero b h = omega arith
doubled (suc q) b h = omega (arith, doubled q b h)

halved : (n base k : ℕ) → 2 ≤ base → n < 2 ^ suc k → n / base < 2 ^ k
halved n base k two h =
    omega (arith, doubled (n / base) base two, div-add-mod' n base, two-pow-succ k)

number_of-digits :
    (fuel base n : ℕ)
    → 2 ≤ base
    → n < 2 ^ fuel
    → 0 < fuel
    → number_of base 0 (digits fuel base n) ≡ n
unfolding digits
number_of-digits zero base n two below some_fuel = absurd (omega arith)
number_of-digits (suc fuel) base n two below some_fuel = elim (Bool-cases (n / base == 0)) [
  | inl p ↦ rw p (unfold number_of in single (zero_of p))
  | inr p ↦ rw p (
      number_of-append base 0 (n % base) (digits fuel base (n / base))
      ∙ ap (λ q. q * base + n % base)
          (number_of-digits fuel base (n / base) two (halved n base fuel two below)
            (positive fuel (halved n base fuel two below) p))
      ∙ div-add-mod' n base)
]
  where
    zero_of : (n / base == 0) ≡ true → n / base ≡ 0
    zero_of p = ground arith

    single : n / base ≡ 0 → 0 * base + n % base ≡ n
    single z = ap (λ q. q * base + n % base) (sym z) ∙ div-add-mod' n base

    positive : (k : ℕ) → n / base < 2 ^ k → (n / base == 0) ≡ false → 0 < k
    positive zero h p = absurd (ground (arith, pow-zero 2))
    positive (suc k) h p = omega arith

length-digits : (fuel base n : ℕ) → length (digits fuel base n) ≤ fuel
unfolding digits
length-digits zero base n = omega arith
length-digits (suc fuel) base n = elim (Bool-cases (n / base == 0)) [
  | inl p ↦ rw p (omega arith)
  | inr p ↦ rw p (
      omega (
        arith,
        length-append (digits fuel base (n / base)) (n % base ∷ []),
        length-digits fuel base (n / base),
      ))
]

length-map_digits : (base : ℕ) (ds : List ℕ) → length (map_digits base ds) ≡ length ds
unfolding map_digits
length-map_digits base [] = refl
length-map_digits base (d ∷ ds) = ap suc (length-map_digits base ds)

-- All digits are below a bound.
abbrev Below : ℕ → List ℕ → Type 0
Below n [] = Unit
Below n (d ∷ ds) = (d < n) × Below n ds

Below-append : (n d : ℕ) (ds : List ℕ) → Below n ds → d < n → Below n (ds ++ (d ∷ []))
Below-append n d [] h lt = (lt, tt)
Below-append n d (e ∷ ds) h lt = (h.0, Below-append n d ds h.1 lt)

digits-Below : (fuel base n m : ℕ) → 2 ≤ base → base ≤ m → Below m (digits fuel base n)
unfolding digits
digits-Below zero base n m two le = tt
digits-Below (suc fuel) base n m two le = elim (Bool-cases (n / base == 0)) [
  | inl p ↦ rw p (small, tt)
  | inr p ↦ rw p (
      Below-append m (n % base) (digits fuel base (n / base))
        (digits-Below fuel base (n / base) m two le) small)
]
  where
    small : n % base < m
    small = omega (arith, mod-lt n {m = base} (omega arith))

read-map_digits :
    (base : ℕ) (ds : List ℕ)
    → Below (table_size base) ds
    → map (read_char base) (map_digits base ds) ≡ ds
unfolding map_digits
read-map_digits base [] h = refl
read-map_digits base (d ∷ ds) h =
    ap (λ c. c ∷ map (read_char base) (map_digits base ds)) (one d h.0)
    ∙ ap (λ l. d ∷ l) (read-map_digits base ds h.1)
  where
    one : (d : ℕ) → d < table_size base → read_char base (digit_char base d) ≡ d
    one d lt = unfold digit_char in ground arith

length-sign_text : (value : ℕ) (plus space : Bool) → length (sign_text value plus space) ≤ 1
unfolding sign_text
length-sign_text value plus space = ground arith

padding-sub : (width len : ℕ) → width < 2 ^ 31 → len < 2 ^ 31 → padding width len ≡ width - len
unfolding padding
padding-sub width len w l = ground arith

-- The filling of a number's text up to the width, on the side that is asked for.
abbrev pub filled_to : ℕ → Bool → ℕ → List ℕ → List ℕ
filled_to width justify filler text =
    let fill = replicate (width - length text) filler in
    if justify then text ++ fill else fill ++ text

pad_text-filled :
    (width : ℕ) (justify zero_pad : Bool) (text : List ℕ)
    → width < 256
    → length text < 256
    → pad_text width justify zero_pad text
      ≡ some (filled_to width justify (if zero_pad then 48 else 32) text)
unfolding pad_text
pad_text-filled width justify zero_pad text w l =
    rw (padding-sub width (length text) (omega arith) (omega arith), fits) refl
  where
    fits : leb 256 (length text + (width - length text)) ≡ false
    fits = ground arith

magnitude-bound : (value : ℕ) → value < 2 ^ 64 → magnitude value < 2 ^ 64
unfolding magnitude
magnitude-bound value small = ground arith

-- For a width below 256, `__int_str` returns the sign followed by digits that read back, in the
-- base asked for (2 to 10, 16, or 17 for 16 with small letters), to the magnitude of the 64-bit value, filled up to the width with
-- spaces or zeros on the one side or the other; its 64 digits at most fit the buffer.
pub int_str-reads :
    (value base : ℕ) (plus space : Bool) (width : ℕ) (justify zero_pad : Bool)
    → value < 2 ^ 64
    → 2 ≤ base
    → (base ≤ 10) ⊎ ((base ≡ 16) ⊎ (base ≡ 17))
    → width < 256
    → (body : List ℕ) × (int_str value base plus space width justify zero_pad
        ≡ some (
            filled_to width justify
              (if zero_pad then 48 else 32)
              (sign_text value plus space ++ body)))
      × (number_of (radix base) 0 (map (read_char base) body) ≡ magnitude value)
unfolding int_str
int_str-reads value base plus space width justify zero_pad small two known fits = (
  map_digits base (digits max_digits (radix base) (magnitude value)),
  pad_text-filled width justify zero_pad
      (sign_text value plus space
        ++ map_digits base (digits max_digits (radix base) (magnitude value)))
      fits
      (omega (
        arith,
        length-append (sign_text value plus space)
            (map_digits base (digits max_digits (radix base) (magnitude value))),
        length-sign_text value plus space,
        length-map_digits base (digits max_digits (radix base) (magnitude value)),
        length-digits max_digits (radix base) (magnitude value),
      )),
  ap (number_of (radix base) 0) (
        read-map_digits base (digits max_digits (radix base) (magnitude value)) (
          digits-Below max_digits (radix base) (magnitude value) (table_size base) radix_two
            radix_table))
      ∙ number_of-digits max_digits (radix base) (magnitude value) radix_two
          (magnitude-bound value small) (omega arith),
)
  where
    radix_two : 2 ≤ radix base
    radix_two = ground (arith, two)

    radix_table : radix base ≤ table_size base
    radix_table = table known
      where
        table : (base ≤ 10) ⊎ ((base ≡ 16) ⊎ (base ≡ 17)) → radix base ≤ table_size base
        table (inl le) = ground (arith, le)
        table (inr (inl e)) = rw e (omega arith)
        table (inr (inr e)) = rw e (omega arith)
