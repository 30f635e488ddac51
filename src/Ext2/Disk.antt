-- ===== src/Ext2/Disk.antt =====
-- `read`: any run of bytes, by reads of whole sectors.
use osdev.Prelude.{
  ℕ, zero, suc, ◌+◌, ◌-◌, ◌*◌, ◌/◌, ◌%◌, ◌^◌, ◌≤◌, ◌<◌, ◌≡◌, refl, ap, ◌∙◌, false, some, List, [],
  ◌∷◌, ◌++◌, ◌==◌, length, take, drop, get_or, arith,
}
use native.Mathlib.Nat.{mod-eq_of_lt, div-add-mod', mod-lt}
use osdev.Ext2.{BlockDevice, disk_read}

-- The n bytes of an image from `at` on.
abbrev pub bytes_from : (ℕ → ℕ) → ℕ → ℕ → List ℕ
bytes_from image at zero = []
bytes_from image at (suc n) = image at ∷ bytes_from image (at + 1) n

-- The device holds the image: every read of sectors succeeds and returns their bytes.
pub record HoldsImage (dev : BlockDevice) (image : ℕ → ℕ) : Type 0 where
  pub sectors : 0 < dev.sector_size
  pub reads :
      (lba count : ℕ)
      → dev.read lba count
        ≡ some (bytes_from image (lba * dev.sector_size) (count * dev.sector_size))

pub length-bytes_from : (image : ℕ → ℕ) (at n : ℕ) → length (bytes_from image at n) ≡ n
length-bytes_from image at zero = refl
length-bytes_from image at (suc n) = ap suc (length-bytes_from image (at + 1) n)

pub bytes_from-append :
    (image : ℕ → ℕ) (at m n : ℕ)
    → bytes_from image at m ++ bytes_from image (at + m) n ≡ bytes_from image at (m + n)
bytes_from-append image at zero n =
    ap (λ a. bytes_from image a n) (omega arith) ∙ ap (bytes_from image at) (omega arith)
bytes_from-append image at (suc m) n =
    ap (λ l. image at ∷ l)
      (ap (λ a. bytes_from image (at + 1) m ++ bytes_from image a n) (omega arith)
        ∙ bytes_from-append image (at + 1) m n)
    ∙ ap (bytes_from image at) (later m)
  where
    later : (m : ℕ) → suc (m + n) ≡ suc m + n
    later m = omega arith

pub take-bytes_from :
    (image : ℕ → ℕ) (at m n : ℕ) → m ≤ n → take m (bytes_from image at n) ≡ bytes_from image at m
take-bytes_from image at zero n h = refl
take-bytes_from image at (suc m) zero h = absurd (omega arith)
take-bytes_from image at (suc m) (suc n) h =
    ap (λ l. image at ∷ l) (take-bytes_from image (at + 1) m n (omega arith))

pub drop-bytes_from :
    (image : ℕ → ℕ) (at m n : ℕ)
    → m ≤ n
    → drop m (bytes_from image at n) ≡ bytes_from image (at + m) (n - m)
drop-bytes_from image at zero n h =
    ap (bytes_from image at) (whole n) ∙ ap (λ a. bytes_from image a (n - 0)) (omega arith)
  where
    whole : (n : ℕ) → n ≡ n - 0
    whole n = omega arith
drop-bytes_from image at (suc m) zero h = absurd (omega arith)
drop-bytes_from image at (suc m) (suc n) h =
    drop-bytes_from image (at + 1) m n (omega arith)
    ∙ ap (λ a. bytes_from image a (n - m)) (omega arith)
    ∙ ap (bytes_from image (at + suc m)) (less m n)
  where
    less : (m n : ℕ) → n - m ≡ suc n - suc m
    less m n = omega arith

-- A window of a window.
pub window-bytes_from :
    (image : ℕ → ℕ) (at skip m n : ℕ)
    → skip + m ≤ n
    → take m (drop skip (bytes_from image at n)) ≡ bytes_from image (at + skip) m
window-bytes_from image at skip m n h =
    ap (take m) (drop-bytes_from image at skip n (omega arith))
    ∙ take-bytes_from image (at + skip) m (n - skip) (omega arith)

pub get_or-bytes_from :
    (image : ℕ → ℕ) (at i n : ℕ) → i < n → get_or (bytes_from image at n) i 0 ≡ image (at + i)
get_or-bytes_from image at i zero h = absurd (omega arith)
get_or-bytes_from image at zero (suc n) h = ap image (omega arith)
get_or-bytes_from image at (suc i) (suc n) h =
    get_or-bytes_from image (at + 1) i n (omega arith) ∙ ap image (omega arith)

-- The sectors that cover `len` bytes at `offset`.
sectors_cover :
    (s offset len : ℕ)
    → 0 < s
    → (offset + len ≤ (offset + len + s - 1) / s * s)
      × ((offset + len + s - 1) / s * s ≤ offset + len + s - 1)
sectors_cover s offset len pos =
    omega (arith, div-add-mod' (offset + len + s - 1) s, mod-lt (offset + len + s - 1) pos)

-- On a device that holds an image, `read` of at least one byte returns exactly the bytes asked
-- for, at any alignment, if the sectors that cover them lie below the wrap of `size_t`.
pub disk_read-image :
    (dev : BlockDevice) (image : ℕ → ℕ) (off len : ℕ)
    → HoldsImage dev image
    → 0 < len
    → off % dev.sector_size + len + dev.sector_size ≤ 2 ^ 32
    → disk_read dev off len ≡ some (bytes_from image off len)
unfolding disk_read
disk_read-image dev image off len holds some_bytes below =
    rw (exact, nonzero, holds.reads)
      (ap some (
        window-bytes_from image (q * s) offset len (count * s) cover.0
        ∙ ap (λ a. bytes_from image a len) (div-add-mod' off s)))
  where
    s : ℕ
    s = dev.sector_size

    offset : ℕ
    offset = off % s

    q : ℕ
    q = off / s

    count : ℕ
    count = (offset + len + s - 1) / s

    cover : (offset + len ≤ count * s) × (count * s ≤ offset + len + s - 1)
    cover = sectors_cover s offset len holds.sectors

    exact : (offset + len + s - 1) % 2 ^ 32 ≡ offset + len + s - 1
    exact = mod-eq_of_lt (omega (arith, holds.sectors))

    nonzero : (count * s % 2 ^ 32 == 0) ≡ false
    nonzero =
        rw (mod-eq_of_lt {n = count * s} {m = 2 ^ 32} (omega (arith, cover, holds.sectors)))
          (ground (arith, cover, holds.sectors))
