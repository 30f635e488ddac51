-- ===== src/Ps2/Typing.antt =====
-- From the scancodes of the keyboard to the events that wait, and to the line of the shell.
use osdev.Prelude.{
  ℕ, ◌+◌, ◌*◌, ◌≤◌, ◌<◌, ◌≡◌, refl, sym, ap, ◌∙◌, subst, inl, inr, Bool, true, false, Option, none,
  some, List, [], ◌∷◌, ◌++◌, arith, leb, if◌then◌else◌, length, length-append, drop, Bool-cases,
}
use mathlib.Core.List.{append_assoc, append-nil}
use osdev.RingBuffer.{RingBuffer}
use osdev.Kevent.{KeventInput}
use osdev.Kevent.Waiting.{IsEvent, Waiting, kinput-room}
use osdev.Ps2.{Ps2, ps2_switch, key_event, char_event, sent, emit, ps2_irq, ps2_irqs}

abbrev pub char_events : KeventInput → ℕ → List KeventInput
char_events evt c = if leb 1 c then char_event evt c ∷ [] else []

-- The events of one scancode, the union's bytes before being `junk`, and the state after it.
abbrev pub events_of : List ℕ → Ps2 → ℕ → List KeventInput
events_of junk st sc =
    if st.ext then [] else key_event junk sc ∷ char_events (key_event junk sc) (ps2_switch st sc).1

abbrev pub next_of : Ps2 → ℕ → Ps2
next_of st sc = if st.ext then st else (ps2_switch st sc).0

-- The events of a list of scancodes.
abbrev pub all_events : List ℕ → Ps2 → List ℕ → List KeventInput
all_events junk st [] = []
all_events junk st (sc ∷ scs) = events_of junk st sc ++ all_events junk (next_of st sc) scs

length-events_of : (junk : List ℕ) (st : Ps2) (sc : ℕ) → length (events_of junk st sc) ≤ 2
length-events_of junk st sc = from st.ext (leb 1 (ps2_switch st sc).1)
  where
    evt : KeventInput
    evt = key_event junk sc

    c : ℕ
    c = (ps2_switch st sc).1

    from :
        (b d : Bool)
        → length (if b then [] else evt ∷ (if d then char_event evt c ∷ [] else [])) ≤ 2
    from true d = omega arith
    from false true = omega arith
    from false false = omega arith

pub length-all_events :
    (junk : List ℕ) (st : Ps2) (scs : List ℕ) → length (all_events junk st scs) ≤ 2 * length scs
length-all_events junk st [] = omega arith
length-all_events junk st (sc ∷ scs) = omega (
  arith,
  length-append (events_of junk st sc) (all_events junk (next_of st sc) scs),
  length-events_of junk st sc,
  length-all_events junk (next_of st sc) scs,
)

module _ (junk : List ℕ) (junk_size : length junk ≡ 8) where
  key_event-IsEvent : (sc : ℕ) → IsEvent (key_event junk sc)
  unfolding key_event
  key_event-IsEvent sc = record {
    itype_small = omega arith;
    payload_size = omega (arith, sizes junk junk_size);
  }
    where
      sizes : (l : List ℕ) → length l ≡ 8 → 3 + length (drop 3 l) ≡ 8
      sizes [] h = absurd (omega arith)
      sizes (a ∷ []) h = absurd (omega arith)
      sizes (a ∷ b ∷ []) h = absurd (omega arith)
      sizes (a ∷ b ∷ c ∷ l) h = omega arith

  char_event-IsEvent : (sc c : ℕ) → IsEvent (char_event (key_event junk sc) c)
  unfolding char_event key_event
  char_event-IsEvent sc c = record {
    itype_small = omega arith;
    payload_size = (key_event-IsEvent sc).payload_size;
  }

  sent-room :
      (rb : RingBuffer) (es : List KeventInput) (evt : KeventInput)
      → Waiting rb es
      → IsEvent evt
      → length es < 15
      → (rb' : RingBuffer) × (sent rb evt ≡ some rb') × Waiting rb' (es ++ (evt ∷ []))
  sent-room rb es evt h k few =
      let (rb', accepted, after) = kinput-room rb es evt h k few in
      (rb', rw (sent, accepted), after)

  emit-room :
      (rb : RingBuffer) (es : List KeventInput) (sc c : ℕ)
      → Waiting rb es
      → length es + 2 ≤ 15
      → (rb' : RingBuffer) × (emit (key_event junk sc) c rb ≡ some rb')
        × Waiting rb' (es ++ (key_event junk sc ∷ char_events (key_event junk sc) c))
  unfolding emit
  emit-room rb es sc c h few =
      let evt : KeventInput = key_event junk sc in
      let (rb', key_sent, after) = sent-room rb es evt h (key_event-IsEvent sc) (omega arith) in
      elim (Bool-cases (leb 1 c)) [
        | inl some_char ↦
            let (rb'', char_sent, last) =
              sent-room rb' (es ++ (evt ∷ [])) (char_event evt c) after (char_event-IsEvent sc c)
                room in
            (
              rb'',
              rw (emit, key_sent, some_char) char_sent,
              subst (λ l. Waiting rb'' l)
                  (append_assoc es (evt ∷ []) (char_event evt c ∷ [])
                    ∙ ap (λ b. es ++ (evt ∷ (if b then char_event evt c ∷ [] else [])))
                        (sym some_char))
                  last,
            )
        | inr no_char ↦ (
          rb',
          rw (emit, key_sent, no_char) refl,
          subst (λ l. Waiting rb' l)
              (ap (λ b. es ++ (evt ∷ (if b then char_event evt c ∷ [] else []))) (sym no_char))
              after,
        )
      ]
    where
      room : length (es ++ (key_event junk sc ∷ [])) < 15
      room = omega (arith, length-append es (key_event junk sc ∷ []), few)

  abbrev pub Sends : Ps2 → ℕ → RingBuffer → List KeventInput → Type 0
  Sends st sc rb es =
      (rb' : RingBuffer) × (ps2_irq junk st sc rb ≡ some (next_of st sc, rb'))
      × Waiting rb' (es ++ events_of junk st sc)

  abbrev after_irq : Ps2 → RingBuffer → Option (Ps2 × RingBuffer)
  after_irq st rb = some (st, rb)

  -- With room for two events, an interrupt appends the events of its scancode.
  ps2_irq-Sends :
      (st : Ps2) (sc : ℕ) (rb : RingBuffer) (es : List KeventInput)
      → Waiting rb es
      → length es + 2 ≤ 15
      → Sends st sc rb es
  unfolding ps2_irq
  ps2_irq-Sends st sc rb es h few = branch st.ext
    where
      branch :
          (b : Bool)
          → (rb' : RingBuffer) × ((if b
                then some (st, rb)
                else elim (emit (key_event junk sc) (ps2_switch st sc).1 rb) [
                  | none ↦ none
                  | some rb' ↦ some ((ps2_switch st sc).0, rb')
                ])
              ≡ after_irq (if b then st else (ps2_switch st sc).0) rb')
            × Waiting rb' (
                es
                ++ (if b
                    then []
                    else key_event junk sc ∷ char_events (key_event junk sc) (ps2_switch st sc).1))
      branch true = (rb, refl, subst (λ l. Waiting rb l) (sym (append-nil es)) h)
      branch false =
          let (rb', emitted, after) = emit-room rb es sc (ps2_switch st sc).1 h few in
          (rb', rw emitted refl, after)

  pub ps2_irqs-send :
      (st : Ps2) (scs : List ℕ) (rb : RingBuffer) (es : List KeventInput)
      → Waiting rb es
      → length es + 2 * length scs ≤ 15
      → (st' : Ps2) × (rb' : RingBuffer) × (ps2_irqs junk st scs rb ≡ some (st', rb'))
        × Waiting rb' (es ++ all_events junk st scs)
  unfolding ps2_irqs
  ps2_irqs-send st [] rb es h few =
      (st, rb, refl, subst (λ l. Waiting rb l) (sym (append-nil es)) h)
  ps2_irqs-send st (sc ∷ scs) rb es h few =
      let (rb', sent_one, after) = ps2_irq-Sends st sc rb es h (omega arith) in
      let (st', rb'', sent_rest, last) =
        ps2_irqs-send (next_of st sc) scs rb' (es ++ events_of junk st sc) after (
          omega
            (arith, few, length-append es (events_of junk st sc), length-events_of junk st sc)) in
      (
        st',
        rb'',
        rw (sent_one, ps2_irqs) sent_rest,
        subst (λ l. Waiting rb'' l)
            (append_assoc es (events_of junk st sc) (all_events junk (next_of st sc) scs)) last,
      )
