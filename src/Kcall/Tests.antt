-- ===== src/Kcall/Tests.antt =====
-- A thread that exits with three bytes.
use osdev.Prelude.{ℕ, ◌+◌, ◌<◌, ◌≤◌, ◌^◌, ◌≡◌, true, refl, some, [], ◌∷◌, arith}
use osdev.CString.{Bytes}
use osdev.Kmalloc.{Kheap, kmem_is_user, round_size}
use osdev.Kmalloc.State.{IsHeap}
use osdev.Kthread.{blank, kthread_join}
use osdev.Kcall.{System, kcall_proc, kcall_exit}
use osdev.Kcall.Exit.{kcall_proc-join}

abbrev kernel_heap : Kheap
kernel_heap = record { mem = λ _. 0; heap_base = λ _. 0xC0400000; heap_ptr = λ _. 0xC0400000 }

abbrev one_thread : System ℕ
one_thread = record {
  threads = record {
    heap = kernel_heap;
    ctx_buf = record blank { state = 1 } ∷ [];
    c_thread = 0;
    max_t = 1;
    has_thread = true;
    interrupts = true;
    esp0 = 0;
  };
  bytes = λ a. a;
  world = 0;
}

kernel_heap-IsHeap : IsHeap kernel_heap 0 []
kernel_heap-IsHeap = record { layout = refl; below = omega arith }

room_3 : 0xC0400000 + 12 + round_size 3 ≤ 2 ^ 32
unfolding round_size
room_3 = omega arith

abbrev no_puts : Bytes → ℕ → ℕ → ℕ
no_puts mem string w = w

in_user : kmem_is_user 0x20000000 ≡ true
unfolding kmem_is_user
in_user = refl

kcall_proc-join_example :
    (res : ℕ) × (s' : System ℕ) × (kcall_proc no_puts one_thread kcall_exit 0x20000000 3 0 0
      ≡ some s')
    × (kthread_join s'.threads 0 ≡ some res)
    × ((i : ℕ) → i < 3 → s'.bytes (res + i) ≡ 0x20000000 + i)
kcall_proc-join_example =
    kcall_proc-join no_puts one_thread 0x20000000 3 0 0 [] in_user (omega arith) (omega arith)
      kernel_heap-IsHeap room_3 (omega arith) (omega arith)
