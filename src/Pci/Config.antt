-- ===== src/Pci/Config.antt =====
-- What is read of a configuration space that holds bytes.
use osdev.Prelude.{
  ℕ, ◌+◌, ◌*◌, ◌/◌, ◌%◌, ◌^◌, ◌<◌, ◌≡◌, ap, ◌∙◌, inl, inr, ◌⊎◌, true, false, arith, if◌then◌else◌,
  test_bit, Bool-cases,
}
use osdev.Pci.{pci_address, pci_read_word, pci_read_short, pci_read_byte}

-- A device that is asked for a word returns the four bytes of its space there, the lowest first.
-- The bytes are given by bus, device, function and offset.
abbrev pub le_word : (ℕ → ℕ) → ℕ → ℕ
le_word byte at = byte at + 2 ^ 8 * byte (at + 1) + 2 ^ 16 * byte (at + 2) + 2 ^ 24 * byte (at + 3)

pub record HoldsConfig (config : ℕ → ℕ) (byte : ℕ → ℕ → ℕ → ℕ → ℕ) : Type 0 where
  pub bytes : (bus dev func off : ℕ) → byte bus dev func off < 256
  pub words :
      (bus dev func off : ℕ)
      → bus < 256
      → dev < 32
      → func < 8
      → off < 64
      → config (pci_address bus dev func (off * 4)) ≡ le_word (byte bus dev func) (off * 4)

-- The fields of an address can be read off it.
pub pci_address-fields :
    (bus dev func off : ℕ)
    → bus < 256
    → dev < 32
    → func < 8
    → off < 256
    → (pci_address bus dev func off / 2 ^ 16 % 2 ^ 8 ≡ bus)
      × (pci_address bus dev func off / 2 ^ 11 % 2 ^ 5 ≡ dev)
      × (pci_address bus dev func off / 2 ^ 8 % 2 ^ 3 ≡ func)
      × (pci_address bus dev func off % 2 ^ 8 ≡ off)
      × (pci_address bus dev func off < 2 ^ 32)
unfolding pci_address
pci_address-fields bus dev func off hb hd hf ho =
    (omega arith, omega arith, omega arith, omega arith, omega arith)

-- The configuration space that holds given bytes.
abbrev pub config_of : (ℕ → ℕ → ℕ → ℕ → ℕ) → ℕ → ℕ
config_of byte a =
    le_word (byte (a / 2 ^ 16 % 2 ^ 8) (a / 2 ^ 11 % 2 ^ 5) (a / 2 ^ 8 % 2 ^ 3)) (a % 2 ^ 8)

pub config_of-HoldsConfig :
    (byte : ℕ → ℕ → ℕ → ℕ → ℕ)
    → ((bus dev func off : ℕ) → byte bus dev func off < 256)
    → HoldsConfig (config_of byte) byte
config_of-HoldsConfig byte h = record {
  bytes = h;
  words = λ bus dev func off hb hd hf ho.
      let (b, d, f, o, small) = pci_address-fields bus dev func (off * 4) hb hd hf (omega arith) in
      ap
        (λ n.
          le_word
            (byte n (pci_address bus dev func (off * 4) / 2 ^ 11 % 2 ^ 5)
              (pci_address bus dev func (off * 4) / 2 ^ 8 % 2 ^ 3))
            (pci_address bus dev func (off * 4) % 2 ^ 8))
        b
      ∙ ap
          (λ n.
            le_word (byte bus n (pci_address bus dev func (off * 4) / 2 ^ 8 % 2 ^ 3))
              (pci_address bus dev func (off * 4) % 2 ^ 8))
          d
      ∙ ap (λ n. le_word (byte bus dev n) (pci_address bus dev func (off * 4) % 2 ^ 8)) f
      ∙ ap (λ n. le_word (byte bus dev func) n) o;
}

-- One byte and two bytes of a word.
pick :
    (a b c d : ℕ)
    → a < 256
    → b < 256
    → c < 256
    → d < 256
    → ((a + 2 ^ 8 * b + 2 ^ 16 * c + 2 ^ 24 * d) / 2 ^ 0 % 2 ^ 8 ≡ a)
      × ((a + 2 ^ 8 * b + 2 ^ 16 * c + 2 ^ 24 * d) / 2 ^ 8 % 2 ^ 8 ≡ b)
      × ((a + 2 ^ 8 * b + 2 ^ 16 * c + 2 ^ 24 * d) / 2 ^ 16 % 2 ^ 8 ≡ c)
      × ((a + 2 ^ 8 * b + 2 ^ 16 * c + 2 ^ 24 * d) / 2 ^ 24 % 2 ^ 8 ≡ d)
      × ((a + 2 ^ 8 * b + 2 ^ 16 * c + 2 ^ 24 * d) / 2 ^ 0 % 2 ^ 16 ≡ a + 2 ^ 8 * b)
      × ((a + 2 ^ 8 * b + 2 ^ 16 * c + 2 ^ 24 * d) / 2 ^ 16 % 2 ^ 16 ≡ c + 2 ^ 8 * d)
pick a b c d ha hb hc hd =
    (omega arith, omega arith, omega arith, omega arith, omega arith, omega arith)

pick_word :
    (b : ℕ → ℕ) (at : ℕ)
    → ((n : ℕ) → b n < 256)
    → (le_word b at / 2 ^ 0 % 2 ^ 8 ≡ b at)
      × (le_word b at / 2 ^ 8 % 2 ^ 8 ≡ b (at + 1))
      × (le_word b at / 2 ^ 16 % 2 ^ 8 ≡ b (at + 2))
      × (le_word b at / 2 ^ 24 % 2 ^ 8 ≡ b (at + 3))
      × (le_word b at / 2 ^ 0 % 2 ^ 16 ≡ b at + 2 ^ 8 * b (at + 1))
      × (le_word b at / 2 ^ 16 % 2 ^ 16 ≡ b (at + 2) + 2 ^ 8 * b (at + 3))
pick_word b at h =
    pick (b at) (b (at + 1)) (b (at + 2)) (b (at + 3)) (h at) (h (at + 1)) (h (at + 2)) (h (at + 3))

remainder_cases : (n : ℕ) → (n % 4 ≡ 0) ⊎ (n % 4 ≡ 1) ⊎ (n % 4 ≡ 2) ⊎ (n % 4 ≡ 3)
remainder_cases n = omega arith

module _ (config : ℕ → ℕ) (byte : ℕ → ℕ → ℕ → ℕ → ℕ) (holds : HoldsConfig config byte)
    (bus dev func : ℕ) (hb : bus < 256) (hd : dev < 32) (hf : func < 8) where
  word_at :
      (off : ℕ)
      → off < 256
      → pci_read_word config bus dev func off ≡ le_word (byte bus dev func) (off / 4 * 4)
  unfolding pci_read_word
  word_at off h =
      ap (λ n. config (pci_address bus dev func (n / 4 * 4))) small
      ∙ holds.words bus dev func (off / 4) hb hd hf (omega arith)
    where
      small : off % 2 ^ 8 ≡ off
      small = omega arith

  back : (off r : ℕ) → off % 4 ≡ r → off / 4 * 4 + r ≡ off
  back off r h = omega arith

  read_at :
      (off r v : ℕ)
      → off < 256
      → off % 4 ≡ r
      → le_word (byte bus dev func) (off / 4 * 4) / 2 ^ (r * 8) % 2 ^ 8 ≡ v
      → pci_read_byte config bus dev func off ≡ v
  unfolding pci_read_byte
  read_at off r v h rem got =
      ap (λ w. w / 2 ^ (off % 4 * 8) % 2 ^ 8) (word_at off h)
      ∙ ap (λ n. le_word (byte bus dev func) (off / 4 * 4) / 2 ^ (n * 8) % 2 ^ 8) rem
      ∙ got

  read_byte : (off : ℕ) → off < 256 → pci_read_byte config bus dev func off ≡ byte bus dev func off
  read_byte off h =
      let (b0, b1, b2, b3, s0, s1) =
        pick_word (byte bus dev func) (off / 4 * 4) (holds.bytes bus dev func) in
      elim (remainder_cases off) [
        | inl r ↦ read_at off 0 _ h r (b0 ∙ ap (byte bus dev func) (omega arith))
        | inr (inl r) ↦ read_at off 1 _ h r (b1 ∙ ap (byte bus dev func) (back off 1 r))
        | inr (inr (inl r)) ↦ read_at off 2 _ h r (b2 ∙ ap (byte bus dev func) (back off 2 r))
        | inr (inr (inr r)) ↦ read_at off 3 _ h r (b3 ∙ ap (byte bus dev func) (back off 3 r))
      ]

  pair : (ℕ → ℕ) → ℕ → ℕ
  pair b n = b n + 2 ^ 8 * b (n + 1)

  short_at :
      (off r v : ℕ)
      → off < 256
      → (if test_bit off 1 then 2 else 0) ≡ r
      → le_word (byte bus dev func) (off / 4 * 4) / 2 ^ (r * 8) % 2 ^ 16 ≡ v
      → pci_read_short config bus dev func off ≡ v
  unfolding pci_read_short
  short_at off r v h rem got =
      ap (λ w. w / 2 ^ ((if test_bit off 1 then 2 else 0) * 8) % 2 ^ 16) (word_at off h)
      ∙ ap (λ n. le_word (byte bus dev func) (off / 4 * 4) / 2 ^ (n * 8) % 2 ^ 16) rem
      ∙ got

  high : (off : ℕ) → off % 2 ≡ 0 → test_bit off 1 ≡ true → off / 4 * 4 + 2 ≡ off
  high off even t = ground arith

  low : (off : ℕ) → off % 2 ≡ 0 → test_bit off 1 ≡ false → off / 4 * 4 ≡ off
  low off even t = ground arith

  next_offset : (n : ℕ) → n + 3 ≡ n + 2 + 1
  next_offset n = omega arith

  read_short :
      (off : ℕ)
      → off < 256
      → off % 2 ≡ 0
      → pci_read_short config bus dev func off
        ≡ byte bus dev func off + 2 ^ 8 * byte bus dev func (off + 1)
  unfolding pair
  read_short off h even =
      let (b0, b1, b2, b3, s0, s1) =
        pick_word (byte bus dev func) (off / 4 * 4) (holds.bytes bus dev func) in
      elim (Bool-cases (test_bit off 1)) [
        | inl upper ↦ short_at off 2 _ h (ap (λ b. if b then 2 else 0) upper) (
            s1
            ∙ ap (λ n. byte bus dev func (off / 4 * 4 + 2) + 2 ^ 8 * byte bus dev func n)
                (next_offset (off / 4 * 4))
            ∙ ap (pair (byte bus dev func)) (high off even upper))
        | inr lower ↦
            short_at off 0 _ h (ap (λ b. if b then 2 else 0) lower)
              (s0 ∙ ap (pair (byte bus dev func)) (low off even lower))
      ]

-- Of a configuration space that returns the four bytes of its space at a word's offset, the lowest
-- first, for every bus below 256, device below 32 and function below 8: `pci_read_byte` returns the
-- byte at any offset below 256, and `pci_read_short` the two bytes at the even one of the pair.
pub pci_read-bytes :
    (config : ℕ → ℕ) (byte : ℕ → ℕ → ℕ → ℕ → ℕ) (bus dev func off : ℕ)
    → HoldsConfig config byte
    → bus < 256
    → dev < 32
    → func < 8
    → off < 256
    → (pci_read_byte config bus dev func off ≡ byte bus dev func off)
      × (pci_read_short config bus dev func (off / 2 * 2)
          ≡ byte bus dev func (off / 2 * 2) + 2 ^ 8 * byte bus dev func (off / 2 * 2 + 1))
pci_read-bytes config byte bus dev func off holds hb hd hf h = (
  read_byte config byte holds bus dev func hb hd hf off h,
  read_short config byte holds bus dev func hb hd hf (off / 2 * 2) (omega arith) (omega arith),
)
