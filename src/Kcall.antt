-- ===== src/Kcall.antt =====
-- kernel/kcall.c: the system calls, over the heap, the threads and the bytes of memory. `puts` is a
-- parameter, and `W` what it acts on. The headers of the heap are kept apart from the bytes that
-- are handed out.
mod Exit
mod Tests
use osdev.Prelude.{ℕ, zero, suc, ◌+◌, Bool, true, false, Option, none, some, ◌==◌, if◌then◌else◌}
use osdev.CString.{Bytes, poke, memcpy, memset}
use osdev.Kmalloc.{Kheap, kmalloc, kmem_is_user}
use osdev.Kthread.{Kthreads, kthread_ret}

abbrev pub kcall_exit : ℕ
kcall_exit = 1

abbrev pub kcall_print : ℕ
kcall_print = 2

pub record System (W : Type 0) : Type 0 where
  pub threads : Kthreads
  pub bytes : Bytes
  pub world : W

-- `strncpy` in memory, where the source may change while it is read.
unfoldable pub strncpy_at : ℕ → Bytes → ℕ → ℕ → Bytes
unfolding memset poke
strncpy_at zero mem d s = mem
strncpy_at (suc n) mem d s =
    let rest = strncpy_at n (poke mem d (mem s)) (d + 1) (s + 1) in
    if mem s == 0 then memset (suc n) mem d 0 else rest

-- A block of the kernel heap, and what is done with its address; the search for it has fuel.
unfoldable pub with_block :
    {W : Type 0} → System W → ℕ → (ℕ → System W → System W) → Option (System W)
unfolding kmalloc
with_block s size act = elim (kmalloc s.threads.heap size 0) [
  | none ↦ none
  | some (res, heap') ↦ some (act res (record s { threads = record s.threads { heap = heap' } }))
]

unfoldable pub exit_with : {W : Type 0} → ℕ → ℕ → ℕ → System W → System W
unfolding kthread_ret memcpy
exit_with a1 a2 res s = record s {
  threads = kthread_ret s.threads res;
  bytes = memcpy s.bytes res a1 a2;
}

unfoldable pub print_with : {W : Type 0} → (Bytes → ℕ → W → W) → ℕ → ℕ → ℕ → System W → System W
unfolding strncpy_at
print_with puts a1 a2 string s =
    let bytes' = strncpy_at a2 s.bytes string a1 in
    record s { bytes = bytes'; world = puts bytes' string s.world }

-- A call with an address outside user memory is left without effect, as is an unknown one.
unfoldable pub kcall_proc :
    {W : Type 0} → (Bytes → ℕ → W → W) → System W → ℕ → ℕ → ℕ → ℕ → ℕ → Option (System W)
unfolding with_block exit_with print_with kmem_is_user
kcall_proc puts s id a1 a2 a3 a4 =
    if id == kcall_exit
    then (if kmem_is_user a1 then with_block s a2 (exit_with a1 a2) else some s)
    else if id == kcall_print
    then (if kmem_is_user a1 then with_block s a2 (print_with puts a1 a2) else some s)
    else some s
