-- ===== src/Kcall/Exit.antt =====
-- The end of a thread by a system call, and the thread that joins it.
use osdev.Prelude.{
  ℕ, ◌+◌, ◌<◌, ◌≤◌, ◌^◌, ◌≡◌, ◌≢◌, refl, ap, ◌∙◌, Bool, true, false, Option, none, some, List, ◌==◌,
  if◌then◌else◌, arith, length, get_or-set_self,
}
use osdev.CString.{Bytes}
use osdev.CString.Move.{memcpy-copies}
use osdev.Kmalloc.{Kheap, round_size, kmem_is_user}
use osdev.Kmalloc.Blocks.{Block, alloc_offset}
use osdev.Kmalloc.State.{IsHeap}
use osdev.Kmalloc.Alloc.{kmalloc-FirstFit}
use osdev.Kthread.{Kthreads, KtContext, blank, kthread_ret, kthread_join}
use osdev.Kcall.{System, kcall_proc, kcall_exit, kcall_print, with_block, exit_with, print_with}

-- A call with an address outside user memory changes nothing, whichever call it is.
pub kcall_proc-refuses :
    {W : Type 0}
    → (puts : Bytes → ℕ → W → W) (s : System W) (id a1 a2 a3 a4 : ℕ) → kmem_is_user a1 ≡ false
    → kcall_proc puts s id a1 a2 a3 a4 ≡ some s
unfolding kcall_proc
kcall_proc-refuses puts s id a1 a2 a3 a4 kernel =
    ap
      (λ b.
        if id == kcall_exit
        then (if b then with_block s a2 (exit_with a1 a2) else some s)
        else if id == kcall_print
        then (if b then with_block s a2 (print_with puts a1 a2) else some s)
        else some s)
      kernel
    ∙ same (id == kcall_exit) (id == kcall_print)
  where
    same : (b c : Bool) → (if b then some s else if c then some s else some s) ≡ some s
    same true c = refl
    same false true = refl
    same false false = refl

kthread_ret-join :
    (s : Kthreads) (res : ℕ)
    → s.c_thread < length s.ctx_buf
    → kthread_join (kthread_ret s res) s.c_thread ≡ some res
unfolding kthread_ret kthread_join
kthread_ret-join s res lt = ap answer (get_or-set_self s.ctx_buf s.c_thread _ blank lt)
  where
    answer : KtContext → Option ℕ
    answer c = if c.state == 1 then none else some c.res

then_exit : {W : Type 0} → System W → ℕ → ℕ → Option (ℕ × Kheap) → Option (System W)
then_exit s a1 a2 none = none
then_exit s a1 a2 (some (res, heap')) =
    some (exit_with a1 a2 res (record s { threads = record s.threads { heap = heap' } }))

-- In a kernel heap that is a list of blocks, with room for one more block of the rounded length
-- below the end of the address space, a thread of the table that exits with a block of bytes in
-- user memory, which is not empty, ends below the kernel heap and has a length that does not wrap
-- when it is rounded: the call succeeds, and whoever joins the thread is handed the address of a
-- copy of these bytes.
pub kcall_proc-join :
    {W : Type 0}
    → (puts : Bytes → ℕ → W → W) (s : System W) (a1 a2 a3 a4 : ℕ) (bs : List Block)
    → kmem_is_user a1 ≡ true
    → a2 ≢ 0
    → a2 + 7 < 2 ^ 32
    → IsHeap s.threads.heap 0 bs
    → s.threads.heap.heap_ptr 0 + 12 + round_size a2 ≤ 2 ^ 32
    → a1 + a2 ≤ s.threads.heap.heap_base 0
    → s.threads.c_thread < length s.threads.ctx_buf
    → (res : ℕ) × (s' : System W) × (kcall_proc puts s kcall_exit a1 a2 a3 a4 ≡ some s')
      × (kthread_join s'.threads s.threads.c_thread ≡ some res)
      × ((i : ℕ) → i < a2 → s'.bytes (res + i) ≡ s.bytes (a1 + i))
unfolding kcall_proc with_block exit_with then_exit
kcall_proc-join puts s a1 a2 a3 a4 bs user some_bytes small heap room below thread =
    let (k', result, laid, keeps) = kmalloc-FirstFit s.threads.heap a2 0 bs some_bytes heap room in
    let res = s.threads.heap.heap_base 0 + alloc_offset (round_size a2) bs + 8 in
    let threads = record s.threads { heap = k' } in
    (
      res,
      exit_with a1 a2 res (record s { threads = threads }),
      ap (λ b. if b then with_block s a2 (exit_with a1 a2) else some s) user
          ∙ ap (then_exit s a1 a2) result,
      kthread_ret-join threads res thread,
      λ i lt. memcpy-copies s.bytes res a1 a2 i (omega arith) lt,
    )
