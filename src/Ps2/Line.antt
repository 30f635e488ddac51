-- ===== src/Ps2/Line.antt =====
-- From the scancodes of the keyboard to the line of the shell, through the ring of events.
use osdev.Prelude.{
  ℕ, ◌+◌, ◌*◌, ◌≤◌, ◌≡◌, ◌≢◌, refl, ap, ◌∙◌, inl, inr, Bool, true, false, some, List, [], ◌∷◌, ◌++◌,
  arith, leb, if◌then◌else◌, length, Bool-cases,
}
use osdev.RingBuffer.{RingBuffer}
use osdev.Kevent.{KeventInput, KeventConsumer, kevent_drain, dispatch}
use osdev.Kevent.Waiting.{Waiting}
use osdev.Kevent.Delivery.{kevent_drain-ends, dispatch_all}
use osdev.Kshell.{Shell, other_key, kconsumer_shell, kconsumer_arrows}
use osdev.Kshell.Input.{shell_consumers, arrow_of}
use osdev.Ps2.{Ps2, ps2_switch, key_event, char_event, ps2_irqs}
use osdev.Ps2.Typing.{events_of, next_of, char_events, all_events, ps2_irqs-send, length-all_events}

-- The characters that a list of scancodes types.
abbrev pub chars_of : Ps2 → List ℕ → List ℕ
chars_of st [] = []
chars_of st (sc ∷ scs) =
    let rest = chars_of (next_of st sc) scs in
    if st.ext
    then rest
    else if leb 1 (ps2_switch st sc).1
    then (ps2_switch st sc).1 ∷ rest
    else rest

abbrev pub type_chars : Shell → List ℕ → Shell
type_chars s [] = s
type_chars s (c ∷ cs) = type_chars (kconsumer_shell s c) cs

-- No scancode of the list is the code of an arrow key.
abbrev pub NoArrows : List ℕ → Type 0
NoArrows [] = Unit
NoArrows (sc ∷ scs) = (sc ≢ 103) × (sc ≢ 108) × NoArrows scs

module _ {S : Type 0} where
  dispatch_all-append :
      (cs : List (KeventConsumer S)) (xs ys : List KeventInput) (w : S)
      → dispatch_all cs (xs ++ ys) w ≡ dispatch_all cs ys (dispatch_all cs xs w)
  dispatch_all-append cs [] ys w = refl
  dispatch_all-append cs (x ∷ xs) ys w = dispatch_all-append cs xs ys (dispatch cs x w)

no_arrow : (s : Shell) (b : Bool) → kconsumer_arrows s b other_key ≡ s
unfolding kconsumer_arrows
no_arrow s true = refl
no_arrow s false = refl

arrow_of-other : (sc : ℕ) → sc ≢ 103 → sc ≢ 108 → arrow_of (sc + 256 * 0) ≡ other_key
arrow_of-other sc up down = ground arith

module _ (junk : List ℕ) where
  dispatch-key :
      (s : Shell) (sc : ℕ)
      → sc ≢ 103
      → sc ≢ 108
      → dispatch shell_consumers (key_event junk sc) s ≡ s
  unfolding dispatch key_event
  dispatch-key s sc up down =
      ap (kconsumer_arrows s (leb 1 (if leb 0x80 sc then 0 else 1))) (arrow_of-other sc up down)
      ∙ no_arrow s (leb 1 (if leb 0x80 sc then 0 else 1))

  dispatch-char :
      (s : Shell) (sc c : ℕ)
      → dispatch shell_consumers (char_event (key_event junk sc) c) s ≡ kconsumer_shell s c
  unfolding dispatch char_event
  dispatch-char s sc c = refl

  dispatch-events :
      (st : Ps2) (s : Shell) (scs : List ℕ)
      → NoArrows scs
      → dispatch_all shell_consumers (all_events junk st scs) s ≡ type_chars s (chars_of st scs)
  dispatch-events st s [] h = refl
  dispatch-events st s (sc ∷ scs) h =
      dispatch_all-append shell_consumers (events_of junk st sc)
        (all_events junk (next_of st sc) scs) s
      ∙ dispatch-events (next_of st sc) (dispatch_all shell_consumers (events_of junk st sc) s) scs
          h.2
      ∙ one st.ext
    where
      rest : List ℕ
      rest = chars_of (next_of st sc) scs

      c : ℕ
      c = (ps2_switch st sc).1

      evt : KeventInput
      evt = key_event junk sc

      one :
          (b : Bool)
          → type_chars
              (dispatch_all shell_consumers (if b then [] else evt ∷ char_events evt c) s)
              rest
            ≡ type_chars s (if b then rest else if leb 1 c then c ∷ rest else rest)
      one true = refl
      one false = elim (Bool-cases (leb 1 c)) [
        | inl some_char ↦ rw (some_char) (
            ap (λ w. type_chars (dispatch shell_consumers (char_event evt c) w) rest)
              (dispatch-key s sc h.0 h.1)
            ∙ ap (λ w. type_chars w rest) (dispatch-char s sc c))
        | inr no_char ↦ rw (no_char) (ap (λ w. type_chars w rest) (dispatch-key s sc h.0 h.1))
      ]

-- At most seven scancodes, none of them an arrow's code, that arrive while no event waits, whatever
-- the eight bytes of the union were: no interrupt faults, the consumer thread's loop then ends without a fault with no event left, and
-- the shell has been handed the characters that the scancodes type, in order, and nothing else.
pub ps2_irqs-type_chars :
    (junk : List ℕ) (st : Ps2) (scs : List ℕ) (rb : RingBuffer) (s : Shell)
    → length junk ≡ 8
    → Waiting rb []
    → length scs ≤ 7
    → NoArrows scs
    → (st' : Ps2) × (rb' rb'' : RingBuffer) × (ps2_irqs junk st scs rb ≡ some (st', rb'))
      × (kevent_drain 16 shell_consumers rb' s ≡ some (rb'', type_chars s (chars_of st scs)))
      × Waiting rb'' []
ps2_irqs-type_chars junk st scs rb s size h few no_arrows =
    let (st', rb', ran, after) = ps2_irqs-send junk size st scs rb [] h (omega arith) in
    let (rb'', ended, empty) =
      kevent_drain-ends shell_consumers rb' (all_events junk st scs) s 16 after
        (omega (arith, few, length-all_events junk st scs)) in
    (
      st',
      rb',
      rb'',
      ran,
      ended ∙ ap (λ w. some (rb'', w)) (dispatch-events junk st s scs no_arrows),
      empty,
    )
