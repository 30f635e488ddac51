-- ===== src/Mm/Tests.antt =====
-- A directory in frame 5 with one table, in frame 6.
use osdev.Prelude.{
  ℕ, ◌^◌, ◌<◌, ◌≡◌, ◌≢◌, refl, some, none, true, ◌==◌, if◌then◌else◌, arith, test_bit,
}
use osdev.Mm.{Mm, Table, mm_init, i_pdir, alloc_page, map_page, directory_entry}
use osdev.Mm.Init.{mm_init-IsApart, mm_init-walk}
use osdev.Mm.Alloc.{LowestFree, alloc_page-LowestFree}
use osdev.Mm.Map.{walk, ReadsSame, Mapped, map_page-Mapped}

abbrev one_table_frames : ℕ → Table
one_table_frames f i = if f == 5 then (if i == 0 then 0x6007 else 0) else 0

abbrev one_table : Mm
one_table = record {
  bitmap = λ i. if i == 0 then 0xFFFFFFFF else 0;
  directory = 5;
  frames = one_table_frames;
}

bitmap_words-below : (j : ℕ) → one_table.bitmap j < 2 ^ 32
bitmap_words-below j = ground arith

alloc_page-LowestFree_example :
    let (page, s') = alloc_page one_table in
    LowestFree one_table.bitmap 0 (2 ^ 20) (page, s'.bitmap)
    × (s'.directory ≡ 5)
    × (s'.frames ≡ one_table_frames)
alloc_page-LowestFree_example = alloc_page-LowestFree one_table bitmap_words-below

first_present : test_bit (directory_entry (mm_init 5 6 one_table) 0) 0 ≡ true
unfolding mm_init
first_present = refl

-- A page of the first 4 MB, mapped after `_mm_init`; the page 0xC0000000 higher is the same.
map_page-Mapped_example :
    Mapped
      (mm_init 5 6 one_table)
      0x700000
      0x3000
      7
      (map_page (mm_init 5 6 one_table) 0x700000 0x3000 7)
map_page-Mapped_example =
    map_page-Mapped (mm_init 5 6 one_table) 0x700000 0x3000 7 (ground arith) (ground arith)
      (omega arith) first_present (mm_init-IsApart 5 6 one_table (ground arith))

shared_page : ReadsSame (mm_init 5 6 one_table) 0x3000 0xC0003000
unfolding mm_init
shared_page = (refl, refl, refl)

mm_init-walk_example :
    (walk (mm_init 5 6 one_table) 0x2345 ≡ some 0x2003)
    × (walk (mm_init 5 6 one_table) 0xC0002345 ≡ some 0x2003)
    × ((v : ℕ)
        → i_pdir v ≢ 0
        → i_pdir v ≢ 768
        → i_pdir v ≢ 1023
        → walk (mm_init 5 6 one_table) v ≡ none)
mm_init-walk_example = mm_init-walk 5 6 one_table 0x2345 (ground arith) (omega arith)
