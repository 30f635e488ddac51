-- ===== src/Kthread/Create.antt =====
-- `kthread_create`: which entry it takes, what it leaves there, and what it does where there is none.
use osdev.Prelude.{
  ◌^◌, Bool, sym, if◌then◌else◌, ℕ, zero, suc, ◌+◌, ◌-◌, ◌*◌, ◌≤◌, ◌<◌, ◌≡◌, ◌≢◌, refl, ap, subst,
  ◌∙◌, ◌⊎◌, inl, inr, true, false, not, none, some, List, [], ◌∷◌, ◌++◌, ◌==◌, ltb, arith, length,
  Bool-cases, ℕ_discrete,
}
use mathlib.Core.Path.{ap₂}
use osdev.Kmalloc.{Mem, write}
use osdev.Kthread.{
  KtContext, Kthreads, context, find_unused, push_all, first_frame, kt_init_context, kthread_create,
  ts_unused, thread_stack_size,
}

-- The entry that the search returns: the first unused one, or the end of the table.
abbrev pub FirstUnused : Kthreads → ℕ → ℕ → ℕ → Type 0
FirstUnused s from end t =
    ((i : ℕ) → from ≤ i → i < t → (context s i).state ≢ ts_unused)
    × ((t ≡ end) ⊎ ((t < end) × ((context s t).state ≡ ts_unused)))

find_unused-FirstUnused :
    (n : ℕ) (s : Kthreads) (t end : ℕ) → t + n ≡ end → FirstUnused s t end (find_unused n s t)
unfolding find_unused
find_unused-FirstUnused zero s t end e = (λ i lo hi. absurd (omega arith), inl (omega arith))
find_unused-FirstUnused (suc n) s t end e = elim (Bool-cases ((context s t).state == ts_unused)) [
  | inl p ↦ rw p (λ i lo hi. absurd (omega arith), inr (omega arith, ground arith))
  | inr p ↦
      let (before, at) = find_unused-FirstUnused n s (t + 1) end (omega arith) in
      rw p (
        λ i lo hi. elim (ℕ_discrete t i) [
          | yes q ↦ subst (λ k. (context s k).state ≢ ts_unused) q (ground arith)
          | no ne ↦ before i (omega arith) hi
        ],
        at,
      )
]

-- Where no entry is unused, `kthread_create` returns 1 and changes nothing but the interrupt
-- flag, which it leaves cleared.
pub kthread_create-full :
    (s : Kthreads) (thread arg priv : ℕ)
    → ((i : ℕ) → i < s.max_t → (context s i).state ≢ ts_unused)
    → kthread_create s thread arg priv ≡ some (1, none, record s { interrupts = false })
unfolding kthread_create
kthread_create-full s thread arg priv full = rw at_end
  where
    at_end : not (ltb (find_unused s.max_t s 0) s.max_t) ≡ true
    at_end = elim (find_unused-FirstUnused s.max_t s 0 s.max_t (omega arith)).1 [
      | inl e ↦ ground arith
      | inr (below, unused) ↦ absurd (full (find_unused s.max_t s 0) below unused)
    ]

-- The words of memory from `at` up.
abbrev pub words : Mem → ℕ → ℕ → List ℕ
words mem at zero = []
words mem at (suc n) = mem at ∷ words mem (at + 4) n

-- The last value that is pushed is the first that is popped.
abbrev pub popped : List ℕ → List ℕ
popped [] = []
popped (v ∷ vs) = popped vs ++ (v ∷ [])

push_all-above :
    (mem : Mem) (sp a : ℕ) (vs : List ℕ)
    → 4 * length vs ≤ sp
    → sp ≤ a
    → push_all mem sp vs a ≡ mem a
unfolding push_all write
push_all-above mem sp a [] room above = refl
push_all-above mem sp a (v ∷ vs) room above =
    push_all-above (write mem (sp - 4) v) (sp - 4) a vs (omega arith) (omega arith) ∙ ground arith

words-snoc :
    (mem : Mem) (at n : ℕ) → words mem at (suc n) ≡ words mem at n ++ (mem (at + 4 * n) ∷ [])
words-snoc mem at zero = ap (λ m. mem m ∷ []) (omega arith)
words-snoc mem at (suc n) =
    ap (λ l. mem at ∷ l)
      (words-snoc mem (at + 4) n ∙ ap (λ m. words mem (at + 4) n ++ (mem m ∷ [])) (omega arith))

pub words-push_all :
    (mem : Mem) (sp : ℕ) (vs : List ℕ)
    → 4 * length vs ≤ sp
    → words (push_all mem sp vs) (sp - 4 * length vs) (length vs) ≡ popped vs
unfolding push_all
words-push_all mem sp [] room = refl
words-push_all mem sp (v ∷ vs) room =
    words-snoc new (sp - 4 * suc (length vs)) (length vs)
    ∙ ap₂ (λ (l : List ℕ) (w : ℕ). l ++ (w ∷ []))
        (ap (λ n. words new n (length vs)) (omega arith)
          ∙ words-push_all (write mem (sp - 4) v) (sp - 4) vs (omega arith))
        (ap new (omega arith)
          ∙ push_all-above (write mem (sp - 4) v) (sp - 4) (sp - 4) vs (omega arith) (omega arith)
          ∙ written)
  where
    new : Mem
    new = push_all (write mem (sp - 4) v) (sp - 4) vs

    written : write mem (sp - 4) v (sp - 4) ≡ v
    written = unfold write in ground arith

-- The words that a switch to a new thread pops, from its `sp` up: DS, ES, FS and GS, the eight
-- registers of POPA, and for the IRET the entry, the code segment and the flags (only the
-- interrupt flag is set). In the kernel the thread then finds a return address, 0, and its
-- argument; in user mode the IRET pops the stack pointer to these two, and the stack segment.
abbrev pub registers_from : ℕ → List ℕ → List ℕ
registers_from selector rest =
    selector ∷ selector ∷ selector ∷ selector ∷ 0 ∷ 0 ∷ 0 ∷ 0 ∷ 0 ∷ 0 ∷ 0 ∷ 0 ∷ rest

abbrev pub kernel_stack : KtContext → List ℕ
kernel_stack ctx = registers_from 0x10 (ctx.thread ∷ 0x08 ∷ 0x202 ∷ 0 ∷ ctx.arg ∷ [])

abbrev pub user_stack : KtContext → List ℕ
user_stack ctx =
    registers_from 0x23 (
      ctx.thread
      ∷ 0x1B
      ∷ 0x202
      ∷ (ctx.stack_base + thread_stack_size - 8)
      ∷ 0x23
      ∷ 0
      ∷ ctx.arg
      ∷ [])

-- The words from `sp` up to the top of the stack, which is inside the stack.
abbrev pub StackHolds : KtContext → List ℕ → Mem × KtContext → Type 0
StackHolds ctx stack r =
    (words r.0 r.1.sp (length stack) ≡ stack)
    × (r.1.sp + 4 * length stack ≡ ctx.stack_base + thread_stack_size)
    × (ctx.stack_base < r.1.sp)
    × (record r.1 { sp = ctx.sp } ≡ ctx)

-- In a stack below the end of the address space, `kt_init_context` leaves the words that the
-- switch to the thread pops: those for the kernel at the privilege 0, and those for user mode at
-- any other. They end at the top of the stack and fit into it, and the context is else unchanged.
pub kt_init_context-frame :
    (mem : Mem) (ctx : KtContext) (priv : ℕ)
    → ctx.stack_base + thread_stack_size < 2 ^ 32
    → ((priv ≡ 0) × StackHolds ctx (kernel_stack ctx) (kt_init_context mem ctx priv))
      ⊎ ((priv ≢ 0) × StackHolds ctx (user_stack ctx) (kt_init_context mem ctx priv))
unfolding kt_init_context first_frame
kt_init_context-frame mem ctx priv below = elim (ℕ_discrete priv 0) [
  | yes p ↦ inl (p, at_kernel (is_kernel p))
  | no p ↦ inr (p, at_user (is_user p))
]
  where
    top : ℕ
    top = ctx.stack_base + thread_stack_size

    frame : Bool → List ℕ
    frame b =
        let sel_data : ℕ = if b then 0x10 else 0x23 in
        let sel_code : ℕ = if b then 0x08 else 0x1B in
        let segments = sel_data ∷ sel_data ∷ sel_data ∷ sel_data ∷ [] in
        let registers = 0 ∷ 0 ∷ 0 ∷ 0 ∷ 0 ∷ 0 ∷ 0 ∷ 0 ∷ segments in
        let iret = 0x0202 ∷ sel_code ∷ ctx.thread ∷ registers in
        ctx.arg ∷ 0 ∷ (if b then iret else sel_data ∷ (top - 8) ∷ iret)

    pushed : Bool → Mem × KtContext
    pushed b = (push_all mem top (frame b), record ctx { sp = top - 4 * length (frame b) })

    is_kernel : priv ≡ 0 → (priv == 0) ≡ true
    is_kernel p = ground arith

    is_user : priv ≢ 0 → (priv == 0) ≡ false
    is_user p = ground arith

    at_kernel : (priv == 0) ≡ true → StackHolds ctx (kernel_stack ctx) (pushed (priv == 0))
    at_kernel p =
        subst (λ b. StackHolds ctx (kernel_stack ctx) (pushed b)) (sym p)
          (words-push_all mem top (frame true) (omega arith), omega arith, omega arith, refl)

    at_user : (priv == 0) ≡ false → StackHolds ctx (user_stack ctx) (pushed (priv == 0))
    at_user p =
        subst (λ b. StackHolds ctx (user_stack ctx) (pushed b)) (sym p)
          (words-push_all mem top (frame false) (omega arith), omega arith, omega arith, refl)
