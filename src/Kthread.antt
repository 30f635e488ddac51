-- ===== src/Kthread.antt =====
-- kernel/kthread.c, include/kernel/kthread.h and arch/x86/kt_ctx.c: the table of kernel threads,
-- their creation, the round-robin scheduler and their end. Stacks are blocks of the kernel heap.
-- `interrupts` is the processor's interrupt flag, which `lock` clears and `unlock` sets.
pub mod Schedule
pub mod RoundRobin
pub mod Create
mod Tests
use osdev.Prelude.{
  ℕ, zero, suc, ◌+◌, ◌-◌, ◌*◌, ◌%◌, ◌^◌, Bool, true, false, not, ◌&&◌, ◌||◌, Option, none, some,
  List, [], ◌∷◌, ◌==◌, ltb, if◌then◌else◌, length, get_or, set, replicate,
}
use osdev.Kmalloc.{Kheap, Mem, write, kmalloc, kfree}

-- `enum ktask_state`, by its values.
abbrev pub ts_unused : ℕ
ts_unused = 0

abbrev pub ts_running : ℕ
ts_running = 1

abbrev pub ts_done : ℕ
ts_done = 2

abbrev pub thread_stack_size : ℕ
thread_stack_size = 16 * 1024

abbrev pub max_threads : ℕ
max_threads = 16

-- `kt_context_t`; pointers are addresses.
pub record KtContext : Type 0 where
  pub thread : ℕ
  pub state : ℕ
  pub arg : ℕ
  pub res : ℕ
  pub stack_base : ℕ
  pub kstack_base : ℕ
  pub sp : ℕ
  pub ksp : ℕ

-- What `memset` leaves in an entry.
abbrev pub blank : KtContext
blank = record {
  thread = 0;
  state = ts_unused;
  arg = 0;
  res = 0;
  stack_base = 0;
  kstack_base = 0;
  sp = 0;
  ksp = 0;
}

-- The file's variables, the heap, the interrupt flag and the kernel stack pointer of the TSS.
pub record Kthreads : Type 0 where
  pub heap : Kheap
  pub ctx_buf : List KtContext
  pub c_thread : ℕ
  pub max_t : ℕ
  pub has_thread : Bool
  pub interrupts : Bool
  pub esp0 : ℕ

abbrev pub context : Kthreads → ℕ → KtContext
context s t = get_or s.ctx_buf t blank

abbrev pub is_running : Kthreads → ℕ → Bool
is_running s t = (context s t).state == ts_running

-- sizeof(kt_context_t) and KSTACK_BASE
abbrev pub context_size : ℕ
context_size = 32

abbrev pub kernel_stack_base : ℕ
kernel_stack_base = 0xC0010000

-- `none` where `kmalloc` does not end, which it does on a heap of blocks.
unfoldable pub kthread_init : Kthreads → Option Kthreads
kthread_init s =
    let locked = record s { interrupts = false; max_t = max_threads } in
    elim (kmalloc s.heap (max_threads * context_size) 0) [
      | none ↦ none
      | some (buf, heap) ↦
          if buf == 0
          then some (record locked { heap = heap; ctx_buf = [] })
          else some (record locked {
            heap = heap;
            ctx_buf =
                record blank { state = ts_running; stack_base = kernel_stack_base }
                ∷ replicate (max_threads - 1) blank;
            c_thread = 0;
            interrupts = true;
          })
    ]

-- `*--sp = v` for each value in turn.
unfoldable pub push_all : Mem → ℕ → List ℕ → Mem
push_all mem sp [] = mem
push_all mem sp (v ∷ vs) = push_all (write mem (sp - 4) v) (sp - 4) vs

-- The values that `kt_init_context` pushes, in order: the argument and a return address, the
-- frame of an IRET (with SS and ESP where the privilege changes), the general registers and the
-- segment registers.
unfoldable pub first_frame : KtContext → ℕ → List ℕ
first_frame ctx priv =
    let sel_data : ℕ = if priv == 0 then 0x10 else 0x23 in
    let sel_code : ℕ = if priv == 0 then 0x08 else 0x1B in
    let top = ctx.stack_base + thread_stack_size in
    let segments = sel_data ∷ sel_data ∷ sel_data ∷ sel_data ∷ [] in
    let registers = 0 ∷ 0 ∷ 0 ∷ 0 ∷ 0 ∷ 0 ∷ 0 ∷ 0 ∷ segments in
    let iret = 0x0202 ∷ sel_code ∷ ctx.thread ∷ registers in
    ctx.arg ∷ 0 ∷ (if priv == 0 then iret else sel_data ∷ (top - 8) ∷ iret)

unfoldable pub kt_init_context : Mem → KtContext → ℕ → Mem × KtContext
unfolding push_all first_frame
kt_init_context mem ctx priv =
    let frame = first_frame ctx priv in
    let top = ctx.stack_base + thread_stack_size in
    (push_all mem top frame, record ctx { sp = top - 4 * length frame })

-- The search of `kthread_create` for an unused entry: `max_t` if there is none. The first
-- argument is the number of entries left.
unfoldable pub find_unused : ℕ → Kthreads → ℕ → ℕ
find_unused zero s t = t
find_unused (suc n) s t =
    let rest = find_unused n s (t + 1) in if (context s t).state == ts_unused then t else rest

-- The value returned, the index written through `fd`, and the new state.
unfoldable pub kthread_create : Kthreads → ℕ → ℕ → ℕ → Option (ℕ × Option ℕ × Kthreads)
unfolding find_unused kt_init_context
kthread_create s thread arg priv =
    let locked = record s { interrupts = false } in
    let t = find_unused s.max_t s 0 in
    if not (ltb t s.max_t)
    then some (1, none, locked)
    else elim (kmalloc s.heap thread_stack_size (if priv == 0 then 0 else 4)) [
      | none ↦ none
      | some (base, heap1) ↦ elim (kmalloc heap1 thread_stack_size 0) [
        | none ↦ none
        | some (kbase, heap2) ↦
            if base == 0 || kbase == 0
            then some
                (1, none, record locked { heap = if base == 0 then heap2 else kfree heap2 base })
            else let ctx = record (context s t) {
              thread = thread;
              state = ts_running;
              arg = arg;
              stack_base = base;
              kstack_base = kbase;
              sp = (base + thread_stack_size) % 2 ^ 32;
              ksp = (kbase + thread_stack_size) % 2 ^ 32;
            } in
              let (mem, ready) = kt_init_context heap2.mem ctx priv in
              some (
                0,
                some t,
                record s {
                  heap = record heap2 { mem = mem };
                  ctx_buf = set s.ctx_buf t ready;
                  has_thread = true;
                  interrupts = true;
                },
              )
      ]
    ]

-- A thread that has returned gives its stacks back; entry 0 has none of its own.
unfoldable pub reap : Kthreads → ℕ → Kthreads
reap s t =
    let ctx = context s t in
    if ctx.state == ts_done
    then record s {
      heap = if t == 0 then s.heap else kfree (kfree s.heap ctx.stack_base) ctx.kstack_base;
      ctx_buf = set s.ctx_buf t (record ctx { state = ts_unused });
    }
    else s

-- The loop of `kthread_schedule` at entry `tn`, with `max_t - i` rounds left.
unfoldable pub schedule_loop : ℕ → Kthreads → ℕ → Option ℕ × Kthreads
schedule_loop zero s tn = (none, s)
schedule_loop (suc n) s tn =
    let next = (tn + 1) % 2 ^ 32 % s.max_t in
    let rest = schedule_loop n (reap s next) next in
    if not (is_running s tn) || tn == s.c_thread
    then (if n == 0 then (none, s) else rest)
    else (some tn, s)

-- The entries whose `sp` the two pointers are set to, or `none` where they stay 0.
unfoldable pub kthread_schedule : Kthreads → Option (ℕ × ℕ) × Kthreads
unfolding schedule_loop reap
kthread_schedule s =
    if s.max_t == 0
    then (none, s)
    else let (found, s') = schedule_loop s.max_t s s.c_thread in
      elim found [
        | none ↦ (none, s')
        | some tn ↦ (some (s.c_thread, tn), record s' { esp0 = (context s' tn).ksp; c_thread = tn })
      ]

unfoldable pub kthread_ret : Kthreads → ℕ → Kthreads
kthread_ret s res = record s {
  ctx_buf = set s.ctx_buf s.c_thread (record (context s s.c_thread) { state = ts_done; res = res });
}

-- `kthread_join` where its busy wait ends at once, `none` while it goes on.
unfoldable pub kthread_join : Kthreads → ℕ → Option ℕ
kthread_join s fd = if is_running s fd then none else some (context s fd).res
