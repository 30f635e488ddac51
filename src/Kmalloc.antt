-- ===== src/Kmalloc.antt =====
-- kernel/kmalloc.c: two heaps (kernel and user) of blocks, each a header, its bytes and a footer
-- that points back at the header.
-- Memory is a map from the address of an object to its value: `size` of the header at `h` is at
-- `h`, its `flags` at `h + 4`, and a footer's pointer at its own address. Every such address is a
-- multiple of 4, so that two different ones do not overlap. `size_t` is 32 bits wide; a block that
-- would pass the end of the address space is a fault, `none`.
pub mod Blocks
pub mod Layout
pub mod Walk
pub mod Place
pub mod Alloc
pub mod Join
pub mod JoinLeft
pub mod State
pub mod Serve
pub mod Contract
pub mod Free
mod Tests
use osdev.Prelude.{
  ℕ, zero, suc, ◌+◌, ◌-◌, ◌*◌, ◌/◌, ◌%◌, ◌^◌, Bool, true, false, not, ◌&&◌, Option, none, some,
  ◌==◌, ltb, leb, if◌then◌else◌, test_bit, set_bit, clear_bit,
}

abbrev pub Mem : Type 0
Mem = ℕ → ℕ

unfoldable pub write : Mem → ℕ → ℕ → Mem
write mem at v a = if a == at then v else mem a

-- sizeof(kheap_header_t), sizeof(kheap_footer_t)
abbrev pub header_size : ℕ
header_size = 8

abbrev pub footer_size : ℕ
footer_size = 4

abbrev pub min_split : ℕ
min_split = header_size + 8 + footer_size

abbrev pub max_coalesce : ℕ
max_coalesce = 65536

-- `size_t` addition and subtraction.
abbrev pub add_size : ℕ → ℕ → ℕ
add_size a b = (a + b) % 2 ^ 32

abbrev pub sub_size : ℕ → ℕ → ℕ
sub_size a b = (2 ^ 32 + a - b) % 2 ^ 32

-- MEM_PRESENT is bit 0 of a header's flags, MEM_USER is bit 2.
abbrev pub is_present : ℕ → Bool
is_present flags = test_bit flags 0

-- `(flags & MEM_USER) ? 1 : 0`
abbrev pub heap_index : ℕ → ℕ
heap_index flags = if test_bit flags 2 then 1 else 0

abbrev pub flags_of : Mem → ℕ → ℕ
flags_of mem hdr = mem (hdr + 4)

pub record Kheap : Type 0 where
  pub mem : Mem
  pub heap_base : ℕ → ℕ
  pub heap_ptr : ℕ → ℕ

-- `kheap_start` is the address that the linker gives to `__kheap_start`.
unfoldable pub kheap_init : ℕ → Mem → Kheap
kheap_init kheap_start mem =
    let bases : ℕ → ℕ = write (λ _. 0x10000000) 0 (add_size kheap_start 0xFFF / 0x1000 * 0x1000) in
    record { mem = mem; heap_base = bases; heap_ptr = bases }

pub data Search : Type 0 where
  found : ℕ → Search
  exhausted : Search
  out_of_fuel : Search

-- The loop of `kmalloc` over the blocks from `c` up to `end`.
unfoldable pub find_free : ℕ → Mem → ℕ → ℕ → ℕ → Search
find_free zero mem end a_size c = out_of_fuel
find_free (suc fuel) mem end a_size c =
    let rest = find_free fuel mem end a_size (c + header_size + mem c + footer_size) in
    if ltb c end
    then (if not (is_present (flags_of mem c)) && leb a_size (mem c) then found c else rest)
    else exhausted

-- The block at `hdr` cut after `a_size` bytes, and a free block made of what is left.
unfoldable pub split_block : Mem → ℕ → ℕ → Mem
unfolding write
split_block mem hdr a_size =
    let addr = hdr + header_size in
    let size = mem hdr in
    let new_ftr = addr + a_size in
    let new_hdr = new_ftr + footer_size in
    let mem1 = write mem new_ftr hdr in
    let mem2 =
      write mem1 new_hdr (sub_size (sub_size (sub_size size a_size) header_size) footer_size) in
    let mem3 = write mem2 (new_hdr + 4) (clear_bit (flags_of mem2 new_hdr) 0) in
    let old_ftr = addr + size in let mem4 = write mem3 old_ftr new_hdr in write mem4 hdr a_size

-- What `kmalloc` does to the free block that it has found.
unfoldable pub take_block : Mem → ℕ → ℕ → ℕ → Mem
unfolding split_block
take_block mem hdr a_size flags =
    let marked = write mem (hdr + 4) (set_bit flags 0) in
    if leb min_split (sub_size (mem hdr) a_size) then split_block marked hdr a_size else marked

-- The new block that `kmalloc` puts at the end of the heap, where it ends in the address space.
unfoldable pub add_block : Mem → ℕ → ℕ → ℕ → Mem
unfolding write
add_block mem hdr a_size flags =
    write (write (write mem (hdr + 4) (set_bit flags 0)) hdr a_size) (hdr + header_size + a_size)
      hdr

-- `(size + 0x7) & ~0x7`
unfoldable pub round_size : ℕ → ℕ
round_size size = add_size size 7 / 8 * 8

-- The address returned, 0 for NULL, and the new state. `none`: the loop did not end, or a new block
-- would pass the end of the address space, where the source's pointers wrap and it writes outside
-- the heap.
unfoldable pub kmalloc : Kheap → ℕ → ℕ → Option (ℕ × Kheap)
unfolding find_free take_block add_block round_size write
kmalloc k size flags =
    if size == 0
    then some (0, k)
    else let idx = heap_index flags in
      let a_size = round_size size in
      let base = k.heap_base idx in
      let end = k.heap_ptr idx in
      elim (find_free (suc (end - base)) k.mem end a_size base) [
        | found hdr ↦ some (hdr + header_size, record k { mem = take_block k.mem hdr a_size flags })
        | exhausted ↦
            if leb (end + header_size + a_size + footer_size) (2 ^ 32)
            then some (
              end + header_size,
              record k {
                mem = add_block k.mem end a_size flags;
                heap_ptr = write k.heap_ptr idx (end + header_size + a_size + footer_size);
              },
            )
            else none
        | out_of_fuel ↦ none
      ]

-- `__kmem_is_user`
unfoldable pub kmem_is_user : ℕ → Bool
kmem_is_user addr = if addr == 0 then false else leb addr 0xC0000000 && leb 0x10000000 addr

-- The free block at `right` joins the block at `hdr`: the memory, and the address of the footer.
unfoldable pub join_right : Mem → ℕ → ℕ → ℕ → Mem × ℕ
unfolding write
join_right mem end hdr ftr =
    let right = ftr + footer_size in
    if ltb right end && not (is_present (flags_of mem right)) && leb (mem right) max_coalesce
    then (let ftr_right = right + header_size + mem right in
        let mem1 = write mem hdr (add_size (mem hdr) (add_size 12 (mem right))) in
        (write mem1 ftr_right hdr, ftr_right))
    else (mem, ftr)

-- The block at `hdr`, with its footer at `ftr`, joins the free block on its left.
unfoldable pub join_left : Mem → ℕ → ℕ → ℕ → Mem
unfolding write
join_left mem base hdr ftr =
    let left = mem (hdr - footer_size) in
    if ltb base hdr
    then (if not (is_present (flags_of mem left)) && leb (mem left) max_coalesce
        then write (write mem left (add_size (mem left) (add_size 12 (mem hdr)))) ftr left
        else mem)
    else mem

unfoldable pub kfree : Kheap → ℕ → Kheap
unfolding write join_right join_left
kfree k addr =
    if addr == 0
    then k
    else let hdr = addr - header_size in
      let flags = flags_of k.mem hdr in
      if not (is_present flags)
      then k
      else let idx = heap_index flags in
        let mem1 = write k.mem (hdr + 4) (clear_bit flags 0) in
        let (mem2, ftr) = join_right mem1 (k.heap_ptr idx) hdr (addr + k.mem hdr) in
        record k { mem = join_left mem2 (k.heap_base idx) hdr ftr }
