-- ===== src/Mm.antt =====
-- arch/x86/mm.c: the bitmap of physical pages, and the two-level page tables.
-- `frames f` is the page-sized table in the physical frame f, as 1024 words of 32 bits. The page
-- directory is the table in the frame `directory`, whose last entry points at itself, so that
-- the table of directory entry i is read and written at PTAB(i).
pub mod Bits
pub mod Alloc
pub mod Map
pub mod Init
mod Tests
use osdev.Prelude.{
  ℕ, zero, suc, ◌+◌, ◌-◌, ◌*◌, ◌/◌, ◌%◌, ◌^◌, Bool, true, false, not, ◌&&◌, ◌||◌, ◌==◌, ltb,
  if◌then◌else◌, test_bit, set_bit,
}
use osdev.Kmalloc.{kmem_is_user}

-- Bit k of a word, and the word with bit k set: `w & (1 << k)` and `w | (1 << k)`.
unfoldable pub bit : ℕ → ℕ → Bool
bit w zero = w % 2 == 1
bit w (suc k) = bit (w / 2) k

unfoldable pub or_bit : ℕ → ℕ → ℕ
or_bit w zero = if w % 2 == 1 then w else w + 1
or_bit w (suc k) = w % 2 + 2 * or_bit (w / 2) k

-- `__builtin_ctz(~w)` over the `n` low bits: the lowest bit of w that is clear.
unfoldable pub lowest_clear : ℕ → ℕ → ℕ
lowest_clear zero w = 0
lowest_clear (suc n) w = let rest = suc (lowest_clear n (w / 2)) in if w % 2 == 1 then rest else 0

abbrev pub page_size : ℕ
page_size = 0x1000

-- MAX_PAGES / 32
abbrev pub bitmap_words : ℕ
bitmap_words = 32768

abbrev pub full_word : ℕ
full_word = 0xFFFFFFFF

abbrev pub Table : Type 0
Table = ℕ → ℕ

pub record Mm : Type 0 where
  pub bitmap : Table
  pub directory : ℕ
  pub frames : ℕ → Table

abbrev pub update {ℓ} : {A : Type ℓ} → (ℕ → A) → ℕ → A → ℕ → A
update f at v a = if a == at then v else f a

-- i_pdir and i_ptab
abbrev pub i_pdir : ℕ → ℕ
i_pdir n = n / 2 ^ 22 % 1024

abbrev pub i_ptab : ℕ → ℕ
i_ptab n = n / 2 ^ 12 % 1024

-- `_mm_init`, with the frames of `kpagedir` and `pagetab_id`: the first 4 MB are mapped at 0, but
-- for page 0, and at 0xC0000000, the directory at its last entry, and 1024 pages are marked.
unfoldable pub mm_init : ℕ → ℕ → Mm → Mm
mm_init kpagedir pagetab_id s =
    let entry_of = λ (frame : ℕ). set_bit (set_bit (frame * page_size) 0) 1 in
    let identity : Table = λ i. if i == 0 then 0 else entry_of i in
    let entries : Table = λ i.
      if i == 1023
      then entry_of kpagedir
      else if i == i_pdir 0xC0000000
      then entry_of pagetab_id
      else if i == 0
      then set_bit (pagetab_id * page_size) 0
      else 0 in
    record {
      bitmap = λ i. if ltb i (1024 / 32) then full_word else s.bitmap i;
      directory = kpagedir;
      frames = update (update s.frames pagetab_id identity) kpagedir entries;
    }

-- The loop of `alloc_page` at word `i`, with `n` words left: the address returned and the bitmap.
unfoldable pub alloc_loop : ℕ → Table → ℕ → ℕ × Table
alloc_loop zero bitmap i = (0, bitmap)
alloc_loop (suc n) bitmap i =
    let rest = alloc_loop n bitmap (i + 1) in
    if bitmap i == full_word
    then rest
    else (let k = lowest_clear 32 (bitmap i) in
        ((i * 32 + k) * page_size % 2 ^ 32, update bitmap i (or_bit (bitmap i) k)))

unfoldable pub alloc_page : Mm → ℕ × Mm
unfolding alloc_loop
alloc_page s =
    let (page, bitmap) = alloc_loop bitmap_words s.bitmap 0 in (page, record s { bitmap = bitmap })

abbrev pub directory_entry : Mm → ℕ → ℕ
directory_entry s i = s.frames s.directory i

-- The frame that an entry points at.
abbrev pub frame_of : ℕ → ℕ
frame_of entry = entry / page_size

unfoldable pub store_word : Mm → ℕ → ℕ → ℕ → Mm
store_word s frame i v = record s { frames = update s.frames frame (update (s.frames frame) i v) }

-- P_PRESENT is bit 0 of an entry, P_RW bit 1 and P_USER bit 2; so are MEM_PRESENT, MEM_RW and
-- MEM_USER of `flags`.
abbrev pub user_if : ℕ → ℕ → ℕ
user_if flags entry = if test_bit flags 2 then set_bit entry 2 else entry

abbrev pub rw_if : ℕ → ℕ → ℕ
rw_if flags entry = if test_bit flags 1 then set_bit entry 1 else entry

-- A new page table for directory entry `i`: a page, entered in the directory and cleared.
unfoldable pub add_table : Mm → ℕ → ℕ → ℕ → Mm
unfolding store_word
add_table s page i flags =
    let entered = store_word s s.directory i (user_if flags (set_bit (set_bit page 0) 1)) in
    record entered {
      frames = update entered.frames (frame_of (directory_entry entered i)) (λ _. 0);
    }

-- The entry for `vaddr` in its table, which is there.
unfoldable pub enter_page : Mm → ℕ → ℕ → ℕ → Mm
unfolding store_word
enter_page s phys vaddr flags =
    let table = frame_of (directory_entry s (i_pdir vaddr)) in
    store_word s table (i_ptab vaddr)
      (user_if flags (rw_if flags (set_bit (phys / 0x1000 * 0x1000) 0)))

-- The value returned and the new state.
unfoldable pub map_page : Mm → ℕ → ℕ → ℕ → ℕ × Mm
map_page s phys virt flags =
    if phys == 0 || virt == 0
    then (1, s)
    else let i = i_pdir virt in
      let entry = directory_entry s i in
      if not (test_bit entry 0)
      then (let (page, s1) = alloc_page s in
          if page == 0
          then (1, s1)
          else (0, enter_page (add_table s1 page i flags) phys virt flags))
      else if test_bit flags 2 && not (test_bit entry 2)
      then (0, enter_page (store_word s s.directory i (set_bit entry 2)) phys virt flags)
      else (0, enter_page s phys virt flags)

-- `page_fault`; what it prints of a fault that it cannot resolve is left out.
unfoldable pub page_fault : Mm → ℕ → ℕ → ℕ × Mm
page_fault s cr2 flags =
    if not (test_bit flags 0)
    then (let (page, s1) = alloc_page s in map_page s1 page cr2 (if kmem_is_user cr2 then 6 else 2))
    else (1, s)
