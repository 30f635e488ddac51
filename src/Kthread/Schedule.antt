-- ===== src/Kthread/Schedule.antt =====
-- The loop of `kthread_schedule`: where it stops, and what it does to the table.
use osdev.Prelude.{
  ℕ, zero, suc, ◌+◌, ◌-◌, ◌%◌, ◌^◌, ◌≤◌, ◌<◌, ◌≡◌, ◌≢◌, refl, sym, ap, subst, ◌∙◌, ◌⊎◌, inl, inr,
  true, false, not, ◌||◌, Option, none, some, ◌==◌, length, arith, dec_lt, ℕ_discrete, Bool-cases,
  get_or-set_self, get_or-set_ne, set_beyond,
}
use native.Mathlib.Nat.{mod-eq_of_lt, mod-add-mod}
use osdev.Kthread.{
  KtContext, Kthreads, blank, context, is_running, reap, schedule_loop, ts_done, ts_unused,
}

-- What a scheduling round may do to a table entry: nothing, or free one whose thread has returned.
abbrev pub Reaped : KtContext → KtContext → Type 0
Reaped c c' = (c' ≡ c) ⊎ ((c.state ≡ ts_done) × (c' ≡ record c { state = ts_unused }))

pub reap-cases : (s : Kthreads) (t u : ℕ) → Reaped (context s u) (context (reap s t) u)
unfolding reap
reap-cases s t u = elim (Bool-cases ((context s t).state == ts_done)) [
  | inl p ↦ rw p (elim (ℕ_discrete t u) [
    | yes e ↦ elim (dec_lt t (length s.ctx_buf)) [
      | yes h ↦ inr (
        subst (λ n. (context s n).state ≡ ts_done) e (ground arith),
        rw (← e) (get_or-set_self s.ctx_buf t (record (context s t) { state = ts_unused }) blank h),
      )
      | no h ↦
          inl
            (rw (set_beyond s.ctx_buf t (record (context s t) { state = ts_unused }) (omega arith)))
    ]
    | no ne ↦ inl (get_or-set_ne s.ctx_buf (record (context s t) { state = ts_unused }) blank ne)
  ])
  | inr p ↦ rw p (inl refl)
]

pub is_running-reap : (s : Kthreads) (t u : ℕ) → is_running (reap s t) u ≡ is_running s u
is_running-reap s t u = same (reap-cases s t u)
  where
    same : Reaped (context s u) (context (reap s t) u) → is_running (reap s t) u ≡ is_running s u
    same (inl e) = rw e
    same (inr (was, e)) = rw (e, was)

pub max_t-reap : (s : Kthreads) (t : ℕ) → (reap s t).max_t ≡ s.max_t
unfolding reap
max_t-reap s t = ground arith

pub c_thread-reap : (s : Kthreads) (t : ℕ) → (reap s t).c_thread ≡ s.c_thread
unfolding reap
c_thread-reap s t = ground arith

Reaped-trans : (a b c : KtContext) → Reaped a b → Reaped b c → Reaped a c
Reaped-trans a b c (inl p) (inl q) = inl (q ∙ p)
Reaped-trans a b c (inl p) (inr (was, q)) = inr (rw (← p) was, rw (q, p))
Reaped-trans a b c (inr (was, p)) (inl q) = inr (was, q ∙ p)
Reaped-trans a b c (inr (was, p)) (inr (was', q)) =
    absurd (omega (arith, was', ap (λ (x : KtContext). x.state) p))

-- The entry that is `k` steps on from the current one, going round the table.
abbrev pub entry_at : Kthreads → ℕ → ℕ
entry_at s k = (s.c_thread + k) % s.max_t

-- Where the loop stops, started `k` steps on: the first running entry from there on, or nowhere.
pub data Stops (s : Kthreads) (k : ℕ) : Option ℕ → Type 0 where
  switches :
      (j tn : ℕ)
      → k ≤ j
      → j < s.max_t
      → tn ≡ entry_at s j
      → is_running s tn ≡ true
      → ((i : ℕ) → k ≤ i → i < j → is_running s (entry_at s i) ≡ false)
      → Stops s k (some tn)
  stays : ((i : ℕ) → k ≤ i → i < s.max_t → is_running s (entry_at s i) ≡ false) → Stops s k none

-- What a walk leaves of the state: entries reaped at most, all else but the heap as it was.
pub record Walked (s s' : Kthreads) : Type 0 where
  pub entries : (t : ℕ) → Reaped (context s t) (context s' t)
  pub same_max : s'.max_t ≡ s.max_t
  pub same_current : s'.c_thread ≡ s.c_thread

entry_at-ne :
    (s : Kthreads) (k : ℕ) → s.c_thread < s.max_t → 0 < k → k < s.max_t → entry_at s k ≢ s.c_thread
entry_at-ne s k c pos small = elim (dec_lt (s.c_thread + k) s.max_t) [
  | yes p ↦ omega (arith, mod-eq_of_lt p)
  | no p ↦ omega (arith, wrapped (omega arith))
]
  where
    wrapped : s.max_t ≤ s.c_thread + k → (s.c_thread + k) % s.max_t ≡ s.c_thread + k - s.max_t
    wrapped p = grind arith

pub entry_at-next :
    (s : Kthreads) (k : ℕ)
    → 0 < s.max_t
    → s.max_t < 2 ^ 32
    → (entry_at s k + 1) % 2 ^ 32 % s.max_t ≡ entry_at s (k + 1)
entry_at-next s k pos small = rw (exact, mod-add-mod) (ap (λ n. n % s.max_t) (omega arith))
  where
    exact : (entry_at s k + 1) % 2 ^ 32 ≡ entry_at s k + 1
    exact = mod-eq_of_lt (omega arith)

pub entry_at-reap : (s : Kthreads) (t k : ℕ) → entry_at (reap s t) k ≡ entry_at s k
entry_at-reap s t k = rw (c_thread-reap, max_t-reap)

pub running_same :
    (s : Kthreads) (t k : ℕ)
    → is_running (reap s t) (entry_at (reap s t) k) ≡ is_running s (entry_at s k)
running_same s t k =
    is_running-reap s t (entry_at (reap s t) k) ∙ ap (is_running s) (entry_at-reap s t k)

Stops-step :
    (s : Kthreads) (t k : ℕ) {r : Option ℕ}
    → is_running s (entry_at s k) ≡ false
    → Stops (reap s t) (k + 1) r
    → Stops s k r
Stops-step s t k idle (switches j tn from below at running before) =
    switches j tn (omega arith) (omega (arith, max_t-reap s t)) (at ∙ entry_at-reap s t j)
      (sym (is_running-reap s t tn) ∙ running)
      (λ i lo hi. elim (ℕ_discrete k i) [
        | yes e ↦ subst (λ n. is_running s (entry_at s n) ≡ false) e idle
        | no ne ↦ sym (running_same s t i) ∙ before i (omega arith) hi
      ])
Stops-step s t k idle (stays before) = stays (λ i lo hi. elim (ℕ_discrete k i) [
  | yes e ↦ subst (λ n. is_running s (entry_at s n) ≡ false) e idle
  | no ne ↦ sym (running_same s t i) ∙ before i (omega arith) (omega (arith, max_t-reap s t))
])

pub Walked-step : (s s' : Kthreads) (t : ℕ) → Walked (reap s t) s' → Walked s s'
Walked-step s s' t w = record {
  entries = λ u.
      Reaped-trans (context s u) (context (reap s t) u) (context s' u) (reap-cases s t u)
        (w.entries u);
  same_max = w.same_max ∙ max_t-reap s t;
  same_current = w.same_current ∙ c_thread-reap s t;
}

pub Walked-refl : (s : Kthreads) → Walked s s
Walked-refl s = record { entries = λ u. inl refl; same_max = refl; same_current = refl }

-- One round, at an entry that is not running and where the table is not exhausted.
pub schedule_loop-on :
    (n : ℕ) (s : Kthreads) (tn : ℕ)
    → (not (is_running s tn) || tn == s.c_thread) ≡ true
    → n ≢ 0
    → schedule_loop (suc n) s tn
      ≡ schedule_loop n (reap s ((tn + 1) % 2 ^ 32 % s.max_t)) ((tn + 1) % 2 ^ 32 % s.max_t)
unfolding schedule_loop
schedule_loop-on n s tn test ne = rw (test, more)
  where
    more : (n == 0) ≡ false
    more = ground arith

pub schedule_loop-end :
    (s : Kthreads) (tn : ℕ)
    → (not (is_running s tn) || tn == s.c_thread) ≡ true
    → schedule_loop 1 s tn ≡ (none, s)
unfolding schedule_loop
schedule_loop-end s tn test = rw test

schedule_loop-found :
    (n : ℕ) (s : Kthreads) (tn : ℕ)
    → is_running s tn ≡ true
    → tn ≢ s.c_thread
    → schedule_loop (suc n) s tn ≡ (some tn, s)
unfolding schedule_loop
schedule_loop-found n s tn running ne = rw (running, other)
  where
    other : (tn == s.c_thread) ≡ false
    other = ground arith

pub schedule_loop-Stops :
    (n : ℕ) (s : Kthreads) (k tn : ℕ)
    → s.c_thread < s.max_t
    → s.max_t < 2 ^ 32
    → 0 < k
    → k < s.max_t
    → k + n ≡ s.max_t
    → tn ≡ entry_at s k
    → Stops s k (schedule_loop n s tn).0 × Walked s (schedule_loop n s tn).1
schedule_loop-Stops zero s k tn c small pos below count at = absurd (omega arith)
schedule_loop-Stops (suc n) s k tn c small pos below count at =
    elim (Bool-cases (is_running s tn)) [
      | inl running ↦
          rw (schedule_loop-found n s tn running (λ e. entry_at-ne s k c pos below (sym at ∙ e))) (
            switches k tn (omega arith) below at running (λ i lo hi. absurd (omega arith)),
            Walked-refl s,
          )
      | inr idle ↦ elim (ℕ_discrete n 0) [
        | yes e ↦
            rw (e, schedule_loop-end s tn (test idle))
              (
                stays (λ i lo hi.
                    subst (λ m. is_running s (entry_at s m) ≡ false) (omega arith)
                      (ap (is_running s) (sym at) ∙ idle)),
                Walked-refl s,
              )
        | no ne ↦
            let next = (tn + 1) % 2 ^ 32 % s.max_t in
            let (stop, walked) =
              schedule_loop-Stops n (reap s next) (k + 1) next
                (omega (arith, max_t-reap s next, c_thread-reap s next))
                (omega (arith, max_t-reap s next)) (omega arith) (omega (arith, max_t-reap s next))
                (omega (arith, max_t-reap s next))
                (ap (λ m. (m + 1) % 2 ^ 32 % s.max_t) at
                  ∙ entry_at-next s k (omega arith) small
                  ∙ sym (entry_at-reap s next (k + 1))) in
            rw (schedule_loop-on n s tn (test idle) ne) (
              Stops-step s next k (ap (is_running s) (sym at) ∙ idle) stop,
              Walked-step s _ next walked,
            )
      ]
    ]
  where
    test : is_running s tn ≡ false → (not (is_running s tn) || tn == s.c_thread) ≡ true
    test idle = rw idle
