-- ===== src/CString/Tests.antt =====
-- Strings and blocks of a few bytes.
use osdev.Prelude.{
  ◌≤◌, ◌<◌, refl, ℕ, ◌+◌, ◌-◌, ◌^◌, ◌≡◌, ◌↔◌, ◌&&◌, ◌==◌, some, List, [], ◌∷◌, ltb, leb,
  if◌then◌else◌, arith,
}
use osdev.CString.{Bytes, Sign, equal, strcmp, strnlen, memmove}
use osdev.CString.Text.{IsText, c_string, strcmp-eq, strnlen-wraps}
use osdev.CString.Move.{memmove-moves}
use osdev.CString.Dup.{strlen_at, strdup, strdup-copies}
use osdev.Kmalloc.{Kheap, round_size}

abbrev abc : List ℕ
abc = 97 ∷ 98 ∷ 99 ∷ []

abbrev abd : List ℕ
abd = 97 ∷ 98 ∷ 100 ∷ []

abc-IsText : IsText abc
abc-IsText = (ground arith, (ground arith, (ground arith, tt)))

abd-IsText : IsText abd
abd-IsText = (ground arith, (ground arith, (ground arith, tt)))

strcmp-eq_example :
    (r : Sign) × (strcmp (c_string abc (7 ∷ [])) (c_string abd []) ≡ some r)
    × ((r ≡ equal) ↔ (abc ≡ abd))
strcmp-eq_example = strcmp-eq abc abd (7 ∷ []) [] abc-IsText abd-IsText

strnlen-wraps_example : strnlen (2 ^ 32 + 1) 97 8 ≡ some (if 97 == 0 then 8 else 0)
strnlen-wraps_example = strnlen-wraps (2 ^ 32 + 1) 97 8 (omega arith) (omega arith)

abbrev squares : Bytes
squares a = if a == 4 then 16 else a

memmove-moves_example :
    memmove squares 3 2 4 5
    ≡ (if leb 3 5 && ltb 5 (3 + 4) then squares (2 + (5 - 3)) else squares 5)
memmove-moves_example = memmove-moves squares 3 2 4 5

abbrev kernel_heap : Kheap
kernel_heap = record { mem = λ _. 0; heap_base = λ _. 0xC0400000; heap_ptr = λ _. 0xC0400000 }

-- "ab" at 16.
abbrev two_letters : Bytes
two_letters a = if a == 16 then 97 else if a == 17 then 98 else 0

two_letters-strlen : strlen_at 5 two_letters 16 ≡ some 2
unfolding strlen_at
two_letters-strlen = refl

room_3 : 0xC0400000 + 12 + round_size 3 ≤ 2 ^ 32
unfolding round_size
room_3 = omega arith

strdup-copies_example :
    (d : ℕ) × (k' : Kheap) × (mem' : Bytes) × (strdup 5 kernel_heap two_letters 16
      ≡ some (d, k', mem'))
    × ((i : ℕ) → i < 3 → mem' (d + i) ≡ two_letters (16 + i))
strdup-copies_example =
    strdup-copies 5 kernel_heap two_letters 16 2 [] two_letters-strlen (omega arith)
      (record { layout = refl; below = omega arith }) room_3 (omega arith)
