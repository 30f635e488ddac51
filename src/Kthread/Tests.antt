-- ===== src/Kthread/Tests.antt =====
-- Tables of three threads: the current one, one that has returned, and one that is running.
use osdev.Prelude.{ℕ, zero, suc, ◌<◌, ◌≡◌, ◌≢◌, ◌⊎◌, true, false, some, none, [], ◌∷◌, arith}
use osdev.Kmalloc.{Kheap}
use osdev.Kthread.{
  KtContext, Kthreads, blank, context, kt_init_context, kthread_create, kthread_schedule,
  ts_running, ts_unused,
}
use osdev.Kthread.Schedule.{Reaped}
use osdev.Kthread.RoundRobin.{Switched, Stayed, kthread_schedule-round_robin}
use osdev.Kthread.Create.{
  StackHolds, kernel_stack, user_stack, kthread_create-full, kt_init_context-frame,
}

abbrev no_heap : Kheap
no_heap = record { mem = λ _. 0; heap_base = λ _. 4096; heap_ptr = λ _. 4096 }

abbrev in_state : ℕ → KtContext
in_state st = record blank { state = st; ksp = 8192 }

abbrev three_threads : Kthreads
three_threads = record {
  heap = no_heap;
  ctx_buf = in_state 1 ∷ in_state 2 ∷ in_state 1 ∷ [];
  c_thread = 0;
  max_t = 3;
  has_thread = true;
  interrupts = true;
  esp0 = 0;
}

kthread_schedule-round_robin_example :
    (((j : ℕ) × (tn : ℕ) × Switched three_threads j tn (kthread_schedule three_threads))
      ⊎ Stayed three_threads (kthread_schedule three_threads))
    × ((t : ℕ) → Reaped (context three_threads t) (context (kthread_schedule three_threads).1 t))
kthread_schedule-round_robin_example =
    kthread_schedule-round_robin three_threads (omega arith) (omega arith)

all_busy : (i : ℕ) → i < 3 → (context three_threads i).state ≢ ts_unused
all_busy zero h = ground arith
all_busy (suc zero) h = ground arith
all_busy (suc (suc zero)) h = ground arith
all_busy (suc (suc (suc i))) h = absurd (omega arith)

kthread_create-full_example :
    kthread_create three_threads 0xC0100000 7 0
    ≡ some (1, none, record three_threads { interrupts = false })
kthread_create-full_example = kthread_create-full three_threads 0xC0100000 7 0 all_busy

abbrev new_thread : KtContext
new_thread = record blank { thread = 0xC0100000; state = ts_running; arg = 7; stack_base = 65536 }

abbrev user_mode : ℕ
user_mode = 3

kt_init_context-frame_example :
    ((user_mode ≡ 0)
      × StackHolds new_thread
          (kernel_stack new_thread)
          (kt_init_context (λ _. 0) new_thread user_mode))
    ⊎ ((user_mode ≢ 0)
        × StackHolds new_thread
            (user_stack new_thread)
            (kt_init_context (λ _. 0) new_thread user_mode))
kt_init_context-frame_example = kt_init_context-frame (λ _. 0) new_thread user_mode (omega arith)
