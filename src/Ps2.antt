-- ===== src/Ps2.antt =====
-- drivers/ps2.c: the scancodes of the keyboard, decoded into key and character events.
mod Keys
pub mod Typing
mod Line
mod Extended
mod Tests
use osdev.Prelude.{
  ℕ, ◌+◌, ◌-◌, ◌%◌, ◌^◌, Bool, true, false, not, ◌&&◌, ◌||◌, Option, none, some, List, [], ◌∷◌,
  ◌++◌, ◌==◌, ltb, leb, if◌then◌else◌, length, drop, get_or, replicate,
}
use osdev.RingBuffer.{RingBuffer}
use osdev.Kevent.{KeventInput, kevent_key, kevent_char, kinput}

abbrev pub ps2_sc1 : List ℕ
ps2_sc1 =
    0 ∷ 0 ∷ b'1' ∷ b'2' ∷ b'3' ∷ b'4' ∷ b'5' ∷ b'6' ∷ b'7' ∷ b'8' ∷ b'9' ∷ b'0' ∷ b'-' ∷ b'=' ∷ 8
    ∷ 9 ∷ b'q' ∷ b'w' ∷ b'e' ∷ b'r' ∷ b't' ∷ b'y' ∷ b'u' ∷ b'i' ∷ b'o' ∷ b'p' ∷ b'[' ∷ b']' ∷ 10 ∷ 0
    ∷ b'a' ∷ b's' ∷ b'd' ∷ b'f' ∷ b'g' ∷ b'h' ∷ b'j' ∷ b'k' ∷ b'l' ∷ b';' ∷ 39 ∷ b'`' ∷ 0 ∷ 92
    ∷ b'z' ∷ b'x' ∷ b'c' ∷ b'v' ∷ b'b' ∷ b'n' ∷ b'm' ∷ b',' ∷ b'.' ∷ b'/' ∷ 0 ∷ b'*' ∷ 0 ∷ b' ' ∷ 0
    ∷ 0 ∷ 0 ∷ 0 ∷ 0 ∷ 0 ∷ 0 ∷ 0 ∷ 0 ∷ 0 ∷ 0 ∷ 0 ∷ 0 ∷ b'7' ∷ b'8' ∷ b'9' ∷ b'-' ∷ b'4' ∷ b'5' ∷ b'6'
    ∷ b'+' ∷ b'1' ∷ b'2' ∷ b'3' ∷ b'0' ∷ b'.' ∷ 0 ∷ 0 ∷ 0 ∷ 0 ∷ []

abbrev pub upper : List ℕ
upper =
    34 ∷ b'(' ∷ b')' ∷ b'*' ∷ b'+' ∷ b'<' ∷ b'_' ∷ b'>' ∷ b'?' ∷ b')' ∷ b'!' ∷ b'@' ∷ b'#' ∷ b'$'
    ∷ b'%' ∷ b'^' ∷ b'&' ∷ b'*' ∷ b'(' ∷ b':' ∷ b':' ∷ b'<' ∷ b'+' ∷ []

pub record Ps2 : Type 0 where
  pub ext : Bool
  pub shift : Bool
  pub caps : Bool

-- `isalpha` of include/ctype.h.
abbrev pub isalpha : ℕ → Bool
isalpha c = (leb b'A' c && leb c b'Z') || (leb b'a' c && leb c b'z')

-- `a != b`
abbrev pub differ : Bool → Bool → Bool
differ a b = if a then not b else b

-- The switch on the character with a shift held; `c - '\''` is compared as a size_t.
unfoldable pub shifted : ℕ → ℕ
shifted c =
    if c == b'['
    then b'{'
    else if c == 92
    then b'|'
    else if c == b']'
    then b'}'
    else if c == b'`'
    then b'~'
    else if ltb ((2 ^ 32 + c - 39) % 2 ^ 32) (length upper)
    then get_or upper ((2 ^ 32 + c - 39) % 2 ^ 32) 0
    else c

-- The default case of the switch on the scancode, with the table's character c.
unfoldable pub cased : Ps2 → ℕ → ℕ
cased st c = if differ st.shift st.caps && isalpha c then c - 32 else c

unfoldable pub ps2_char : Ps2 → ℕ → ℕ
unfolding shifted cased
ps2_char st sc =
    if ltb sc (length ps2_sc1) && leb 1 (get_or ps2_sc1 sc 0)
    then cased st (if st.shift then shifted (get_or ps2_sc1 sc 0) else get_or ps2_sc1 sc 0)
    else 0

-- The switch on the scancode: the new state and `c`.
unfoldable pub ps2_switch : Ps2 → ℕ → Ps2 × ℕ
ps2_switch st sc =
    if sc == 0xE0
    then (record st { ext = true }, 0)
    else if (sc == 0x2A) || (sc == 0x36)
    then (record st { shift = true }, 0)
    else if (sc == 0xAA) || (sc == 0xB6)
    then (record st { shift = false }, 0)
    else if sc == 0x3A
    then (record st { caps = not st.caps }, 0)
    else (st, ps2_char st sc)

-- The event of the key, in a union whose eight bytes were `junk`: a code of two bytes and a flag.
unfoldable pub key_event : List ℕ → ℕ → KeventInput
key_event junk sc = record {
  itype = kevent_key;
  payload = sc ∷ 0 ∷ (if leb 0x80 sc then 0 else 1) ∷ drop 3 junk;
}

-- The same union with the character written over its first byte.
unfoldable pub char_event : KeventInput → ℕ → KeventInput
char_event evt c = record { itype = kevent_char; payload = c ∷ drop 1 evt.payload }

-- `kinput`, its return value dropped.
abbrev pub sent : RingBuffer → KeventInput → Option RingBuffer
sent rb evt = elim (kinput rb evt) [ none ↦ none | some (r, rb') ↦ some rb' ]

-- The event of the key, and that of a character other than 0. `none` is a fault of the ring.
unfoldable pub emit : KeventInput → ℕ → RingBuffer → Option RingBuffer
unfolding char_event
emit evt c rb = elim (sent rb evt) [
  | none ↦ none
  | some rb' ↦ if leb 1 c then sent rb' (char_event evt c) else some rb'
]

-- `sc` is the byte that `inb` reads.
unfoldable pub ps2_irq : List ℕ → Ps2 → ℕ → RingBuffer → Option (Ps2 × RingBuffer)
unfolding key_event emit
ps2_irq junk st sc rb =
    if st.ext then some (st, rb) else elim (emit (key_event junk sc) (ps2_switch st sc).1 rb) [
      | none ↦ none
      | some rb' ↦ some ((ps2_switch st sc).0, rb')
    ]

-- One interrupt for each scancode of a list.
unfoldable pub ps2_irqs : List ℕ → Ps2 → List ℕ → RingBuffer → Option (Ps2 × RingBuffer)
ps2_irqs junk st [] rb = some (st, rb)
ps2_irqs junk st (sc ∷ scs) rb = elim (ps2_irq junk st sc rb) [
  | none ↦ none
  | some (st', rb') ↦ ps2_irqs junk st' scs rb'
]
