-- ===== src/Kthread/RoundRobin.antt =====
-- `kthread_schedule` hands the processor to the next running thread after the current one.
use osdev.Prelude.{
  ℕ, zero, suc, ◌+◌, ◌-◌, ◌%◌, ◌^◌, ◌<◌, ◌≡◌, ◌≢◌, refl, sym, ap, subst, ◌∙◌, ◌⊎◌, inl, inr, true,
  false, not, ◌||◌, Option, none, some, ◌==◌, arith,
}
use native.Mathlib.Nat.{mod-eq_of_lt}
use osdev.Kthread.{
  KtContext, Kthreads, context, is_running, reap, schedule_loop, kthread_schedule, ts_running,
}
use osdev.Kthread.Schedule.{
  Reaped, Walked, Stops, switches, stays, entry_at, entry_at-reap, is_running-reap, max_t-reap,
  c_thread-reap, running_same, Walked-step, Walked-refl, schedule_loop-on, schedule_loop-end,
  schedule_loop-Stops,
}

-- The switch to the entry `tn`, `j` steps on, past entries that are not running.
pub record Switched (s : Kthreads) (j tn : ℕ) (answer : Option (ℕ × ℕ) × Kthreads) : Type 0 where
  pub other : (0 < j) × (j < s.max_t) × (tn ≡ entry_at s j)
  pub running : is_running s tn ≡ true
  pub first : (i : ℕ) → 0 < i → i < j → is_running s (entry_at s i) ≡ false
  pub pointers : answer.0 ≡ some (s.c_thread, tn)
  pub current : answer.1.c_thread ≡ tn
  pub kernel_stack : answer.1.esp0 ≡ (context s tn).ksp
  pub kept : context answer.1 tn ≡ context s tn

-- No switch: no other entry is running.
pub record Stayed (s : Kthreads) (answer : Option (ℕ × ℕ) × Kthreads) : Type 0 where
  pub alone : (i : ℕ) → 0 < i → i < s.max_t → is_running s (entry_at s i) ≡ false
  pub pointers : answer.0 ≡ none
  pub current : answer.1.c_thread ≡ s.c_thread

abbrev Loop : Kthreads → Option ℕ × Kthreads → Type 0
Loop s r = Stops s 1 r.0 × Walked s r.1

Stops-reap : (s : Kthreads) (t k : ℕ) {r : Option ℕ} → Stops (reap s t) k r → Stops s k r
Stops-reap s t k (switches j tn from below at running before) =
    switches j tn from (omega (arith, max_t-reap s t)) (at ∙ entry_at-reap s t j)
      (sym (is_running-reap s t tn) ∙ running)
      (λ i lo hi. sym (running_same s t i) ∙ before i lo hi)
Stops-reap s t k (stays before) =
    stays (λ i lo hi. sym (running_same s t i) ∙ before i lo (omega (arith, max_t-reap s t)))

full_turn :
    (s : Kthreads) (n : ℕ)
    → suc n ≡ s.max_t
    → s.c_thread < s.max_t
    → s.max_t < 2 ^ 32
    → Loop s (schedule_loop (suc n) s s.c_thread)
full_turn s zero size c small =
    rw (schedule_loop-end s s.c_thread at_current)
      (stays (λ i lo hi. absurd (omega arith)), Walked-refl s)
  where
    at_current : (not (is_running s s.c_thread) || s.c_thread == s.c_thread) ≡ true
    at_current = ground arith
full_turn s (suc n) size c small =
    rw (schedule_loop-on (suc n) s s.c_thread at_current (omega arith))
      (Stops-reap s next 1 loop.0, Walked-step s _ next loop.1)
  where
    at_current : (not (is_running s s.c_thread) || s.c_thread == s.c_thread) ≡ true
    at_current = ground arith

    next : ℕ
    next = (s.c_thread + 1) % 2 ^ 32 % s.max_t

    start : next ≡ entry_at s 1
    start = ap (λ m. m % s.max_t) (mod-eq_of_lt (omega arith))

    loop : Loop (reap s next) (schedule_loop (suc n) (reap s next) next)
    loop =
        schedule_loop-Stops (suc n) (reap s next) 1 next
          (omega (arith, max_t-reap s next, c_thread-reap s next))
          (omega (arith, max_t-reap s next)) (omega arith) (omega (arith, max_t-reap s next))
          (omega (arith, max_t-reap s next)) (start ∙ sym (entry_at-reap s next 1))

running_kept : (c c' : KtContext) → Reaped c c' → (c.state == ts_running) ≡ true → c' ≡ c
running_kept c c' (inl e) running = e
running_kept c c' (inr (was, e)) running = absurd (ground (arith, was))

kthread_schedule-found :
    (s s' : Kthreads) (tn : ℕ)
    → s.max_t ≢ 0
    → schedule_loop s.max_t s s.c_thread ≡ (some tn, s')
    → kthread_schedule s
      ≡ (some (s.c_thread, tn), record s' { esp0 = (context s' tn).ksp; c_thread = tn })
unfolding kthread_schedule
kthread_schedule-found s s' tn ne e =
    rw (nonzero, ap (λ (r : Option ℕ × Kthreads). r.0) e)
      (ap
        (λ (x : Kthreads).
          (some (s.c_thread, tn), record x { esp0 = (context x tn).ksp; c_thread = tn }))
        (ap (λ (r : Option ℕ × Kthreads). r.1) e))
  where
    nonzero : (s.max_t == 0) ≡ false
    nonzero = ground arith

kthread_schedule-none :
    (s s' : Kthreads)
    → s.max_t ≢ 0
    → schedule_loop s.max_t s s.c_thread ≡ (none, s')
    → kthread_schedule s ≡ (none, s')
unfolding kthread_schedule
kthread_schedule-none s s' ne e =
    rw (nonzero, ap (λ (r : Option ℕ × Kthreads). r.0) e)
      (ap (λ (x : Kthreads). (none, x)) (ap (λ (r : Option ℕ × Kthreads). r.1) e))
  where
    nonzero : (s.max_t == 0) ≡ false
    nonzero = ground arith

-- In a table of fewer than 2 ^ 32 entries with a current entry, `kthread_schedule` switches from
-- it to the first running entry after it, going round, and gives that entry's kernel stack to the
-- processor; where no other entry is running it switches nowhere. In both cases a table entry is
-- left as it was, or was that of a thread that had returned and is unused now.
pub kthread_schedule-round_robin :
    (s : Kthreads)
    → s.c_thread < s.max_t
    → s.max_t < 2 ^ 32
    → (((j : ℕ) × (tn : ℕ) × Switched s j tn (kthread_schedule s)) ⊎ Stayed s (kthread_schedule s))
      × ((t : ℕ) → Reaped (context s t) (context (kthread_schedule s).1 t))
kthread_schedule-round_robin s c small = answer _ _ refl looped.0 looped.1
  where
    looped : Loop s (schedule_loop s.max_t s s.c_thread)
    looped =
        subst (λ n. Loop s (schedule_loop n s s.c_thread)) (omega arith)
          (full_turn s (s.max_t - 1) (omega arith) c small)

    answer :
        (r : Option ℕ) (s' : Kthreads)
        → schedule_loop s.max_t s s.c_thread ≡ (r, s')
        → Stops s 1 r
        → Walked s s'
        → (((j : ℕ) × (tn : ℕ) × Switched s j tn (kthread_schedule s))
            ⊎ Stayed s (kthread_schedule s))
          × ((t : ℕ) → Reaped (context s t) (context (kthread_schedule s).1 t))
    answer _ s' e (switches j tn from below at running before) w =
        rw (kthread_schedule-found s s' tn (omega arith) e) (
          inl (
            j,
            tn,
            record {
              other = (omega arith, below, at);
              running = running;
              first = λ i lo hi. before i (omega arith) hi;
              pointers = refl;
              current = refl;
              kernel_stack =
                  ap (λ (x : KtContext). x.ksp)
                    (running_kept (context s tn) (context s' tn) (w.entries tn) running);
              kept = running_kept (context s tn) (context s' tn) (w.entries tn) running;
            },
          ),
          w.entries,
        )
    answer _ s' e (stays before) w = rw (kthread_schedule-none s s' (omega arith) e) (
      inr (record {
        alone = λ i lo hi. before i (omega arith) hi;
        pointers = refl;
        current = w.same_current;
      }),
      w.entries,
    )
