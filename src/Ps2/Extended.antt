-- ===== src/Ps2/Extended.antt =====
-- The prefix 0xE0 of an extended scancode.
use osdev.Prelude.{
  ℕ, ◌≡◌, refl, ap, ◌∙◌, inl, inr, Bool, true, Option, none, some, List, [], ◌∷◌, if◌then◌else◌,
  Bool-cases, Option-cases, sym, ◌⊎◌,
}
use osdev.RingBuffer.{RingBuffer}
use osdev.Ps2.{Ps2, ps2_switch, key_event, emit, ps2_irq, ps2_irqs}

ps2_irq-ext :
    (junk : List ℕ) (st : Ps2) (sc : ℕ) (rb : RingBuffer)
    → st.ext ≡ true
    → ps2_irq junk st sc rb ≡ some (st, rb)
unfolding ps2_irq
ps2_irq-ext junk st sc rb on = ap branch on
  where
    branch : Bool → Option (Ps2 × RingBuffer)
    branch b =
        if b then some (st, rb) else elim (emit (key_event junk sc) (ps2_switch st sc).1 rb) [
          | none ↦ none
          | some rb' ↦ some ((ps2_switch st sc).0, rb')
        ]

then_irqs : List ℕ → List ℕ → Option (Ps2 × RingBuffer) → Option (Ps2 × RingBuffer)
then_irqs junk scs none = none
then_irqs junk scs (some (st, rb)) = ps2_irqs junk st scs rb

ps2_irqs-then :
    (junk : List ℕ) (st : Ps2) (sc : ℕ) (scs : List ℕ) (rb : RingBuffer)
    → ps2_irqs junk st (sc ∷ scs) rb ≡ then_irqs junk scs (ps2_irq junk st sc rb)
unfolding ps2_irqs then_irqs
ps2_irqs-then junk st sc scs rb = elim (Option-cases (ps2_irq junk st sc rb)) [
  | inl p ↦ rw (ps2_irqs, p) refl
  | inr (r, p) ↦ rw (ps2_irqs, p) refl
]

ps2_irqs-ext :
    (junk : List ℕ) (st : Ps2) (scs : List ℕ) (rb : RingBuffer)
    → st.ext ≡ true
    → ps2_irqs junk st scs rb ≡ some (st, rb)
unfolding ps2_irqs then_irqs
ps2_irqs-ext junk st [] rb on = refl
ps2_irqs-ext junk st (sc ∷ scs) rb on =
    ps2_irqs-then junk st sc scs rb
    ∙ ap (then_irqs junk scs) (ps2_irq-ext junk st sc rb on)
    ∙ ps2_irqs-ext junk st scs rb on

-- The interrupt of the prefix itself leaves `ext` set, whatever it was.
prefix-ext :
    (junk : List ℕ) (st : Ps2) (rb : RingBuffer)
    → (ps2_irq junk st 0xE0 rb ≡ none)
      ⊎ ((r : Ps2 × RingBuffer) × (ps2_irq junk st 0xE0 rb ≡ some r) × (r.0.ext ≡ true))
unfolding ps2_irq ps2_switch
prefix-ext junk st rb = elim (Bool-cases st.ext) [
  | inl on ↦ inr ((st, rb), ps2_irq-ext junk st 0xE0 rb on, on)
  | inr off ↦ elim (Option-cases (emit (key_event junk 0xE0) 0 rb)) [
    | inl fault ↦ inl (rw (ps2_irq, off, fault) refl)
    | inr (rb', sent) ↦ inr ((record st { ext = true }, rb'), rw (ps2_irq, off, sent) refl, refl)
  ]
]

-- `ext` is never reset: after the prefix of an extended scancode no further scancode sends an
-- event or changes the decoder's state, in whatever state the decoder was.
pub ps2_irqs-extended :
    (junk : List ℕ) (st : Ps2) (scs : List ℕ) (rb : RingBuffer)
    → ps2_irqs junk st (0xE0 ∷ scs) rb ≡ ps2_irq junk st 0xE0 rb
unfolding then_irqs
ps2_irqs-extended junk st scs rb = elim (prefix-ext junk st rb) [
  | inl fault ↦ ps2_irqs-then junk st 0xE0 scs rb ∙ ap (then_irqs junk scs) fault ∙ sym fault
  | inr ((st', rb'), ran, on) ↦
      ps2_irqs-then junk st 0xE0 scs rb
      ∙ ap (then_irqs junk scs) ran
      ∙ ps2_irqs-ext junk st' scs rb' on
      ∙ sym ran
]
