-- ===== src/Pci.antt =====
-- drivers/pci.c and include/drivers/pci.h: the configuration space of the PCI bus.
-- `config` is what `inl(PCI_CONFIG_DATA)` returns after an address was written to PCI_CONFIG_ADDR.
-- Allocations are taken to succeed; what they return holds `junk`. `none` is a read through NULL.
pub mod Classes
pub mod Config
mod Enumerate
mod Tests
use osdev.Prelude.{
  ℕ, zero, suc, ◌+◌, ◌-◌, ◌*◌, ◌/◌, ◌%◌, ◌^◌, Bool, true, false, Option, none, some, List, [], ◌∷◌,
  ◌++◌, ◌==◌, ltb, leb, if◌then◌else◌, length, take, drop, get_or, test_bit, set,
}
use osdev.Drivers.{DeviceId, bus_type_pci}

-- `pci_config_address`, packed: the fields from the lowest bit up.
unfoldable pub pci_address : ℕ → ℕ → ℕ → ℕ → ℕ
pci_address bus dev func off =
    off % 2 ^ 8 + 2 ^ 8 * (func % 2 ^ 3) + 2 ^ 11 * (dev % 2 ^ 5) + 2 ^ 16 * (bus % 2 ^ 8) + 2 ^ 31

-- `offsetof(pci_hc_t, vid)` and `header_type`, and the sizes of the headers.
abbrev pub off_vid : ℕ
off_vid = 0

abbrev pub off_header_type : ℕ
off_header_type = 14

abbrev pub sizeof_hc : ℕ
sizeof_hc = 16

abbrev pub sizeof_h0 : ℕ
sizeof_h0 = 48

abbrev pub sizeof_h1 : ℕ
sizeof_h1 = 48

module _ (config : ℕ → ℕ) where
  -- `off & 0xFC`
  unfoldable pub pci_read_word : ℕ → ℕ → ℕ → ℕ → ℕ
  pci_read_word bus dev func off = config (pci_address bus dev func (off % 2 ^ 8 / 4 * 4))

  -- `off & 2`
  unfoldable pub pci_read_short : ℕ → ℕ → ℕ → ℕ → ℕ
  pci_read_short bus dev func off =
      pci_read_word bus dev func off / 2 ^ ((if test_bit off 1 then 2 else 0) * 8) % 2 ^ 16

  unfoldable pub pci_read_byte : ℕ → ℕ → ℕ → ℕ → ℕ
  pci_read_byte bus dev func off = pci_read_word bus dev func off / 2 ^ (off % 4 * 8) % 2 ^ 8

  unfoldable pub pci_get_vendor : ℕ → ℕ → ℕ → ℕ
  pci_get_vendor bus dev func = pci_read_short bus dev func off_vid

  -- The words of n bytes from an offset; `off` is a uint8_t.
  unfoldable pub read_words : ℕ → ℕ → ℕ → ℕ → ℕ → List ℕ
  read_words bus dev func off zero = []
  read_words bus dev func off (suc n) =
      pci_read_word bus dev func (off % 2 ^ 8) ∷ read_words bus dev func (off + 4) n

  -- The six words that are returned: those that are read, and then what the memory held.
  unfoldable pub pci_get_bars : List ℕ → ℕ → ℕ → ℕ → Option (List ℕ)
  unfolding pci_get_vendor
  pci_get_bars junk bus dev func =
      let kind = pci_read_byte bus dev func off_header_type % 2 ^ 7 in
      if pci_get_vendor bus dev func == 0xFFFF
      then none
      else if kind == 0
      then some (read_words bus dev func sizeof_hc 6)
      else if kind == 1
      then some (read_words bus dev func sizeof_hc 2 ++ drop 2 junk)
      else none

  -- The words of the common header, and the fields that are used.
  unfoldable pub common_header : ℕ → ℕ → ℕ → List ℕ
  common_header bus dev func = read_words bus dev func 0 (sizeof_hc / 4)

abbrev pub hc_vid : List ℕ → ℕ
hc_vid hc = get_or hc 0 0 % 2 ^ 16

abbrev pub hc_did : List ℕ → ℕ
hc_did hc = get_or hc 0 0 / 2 ^ 16 % 2 ^ 16

abbrev pub hc_prog_if : List ℕ → ℕ
hc_prog_if hc = get_or hc 2 0 / 2 ^ 8 % 2 ^ 8

abbrev pub hc_subclass : List ℕ → ℕ
hc_subclass hc = get_or hc 2 0 / 2 ^ 16 % 2 ^ 8

abbrev pub hc_class_code : List ℕ → ℕ
hc_class_code hc = get_or hc 2 0 / 2 ^ 24 % 2 ^ 8

abbrev pub hc_header_type : List ℕ → ℕ
hc_header_type hc = get_or hc 3 0 / 2 ^ 16 % 2 ^ 8

-- `pci_device_t`; `device.id` is that of the base.
pub record PciDevice : Type 0 where
  pub id : DeviceId
  pub bar : List ℕ
  pub mmio : List Bool
  pub prog_if : ℕ

-- The switch on a base address register, with `bar & 0x06` for the kind: the address, and whether
-- it is one of memory.
unfoldable pub decode_bar : ℕ → ℕ × Bool
decode_bar bar =
    let kind = bar / 2 % 4 * 2 in
    if bar % 2 == 0
    then (
      (if kind == 0
          then bar / 2 ^ 4 * 2 ^ 4
          else if kind == 1
          then bar % 2 ^ 16 / 2 ^ 4 * 2 ^ 4
          else bar),
      true,
    )
    else (bar / 4 * 4, false)

abbrev pub decode_bars : List ℕ → List ℕ × List Bool
decode_bars [] = ([], [])
decode_bars (bar ∷ bars) =
    ((decode_bar bar).0 ∷ (decode_bars bars).0, (decode_bar bar).1 ∷ (decode_bars bars).1)

-- One statement after another, up to the first fault.
abbrev pub then_do : {S : Type 0} → Option S → (S → Option S) → Option S
then_do none f = none
then_do (some s) f = f s

module _ (config : ℕ → ℕ) where
  -- The words of the common header and of the one behind it; `none` for NULL.
  unfoldable pub pci_get_data : ℕ → ℕ → ℕ → Option (List ℕ)
  unfolding pci_get_vendor
  pci_get_data bus dev func =
      let hc = common_header config bus dev func in
      let kind = hc_header_type hc % 2 ^ 7 in
      if pci_get_vendor config bus dev func == 0xFFFF
      then none
      else if kind == 0
      then some (hc ++ read_words config bus dev func sizeof_hc (sizeof_h0 / 4))
      else if kind == 1
      then some (hc ++ read_words config bus dev func sizeof_hc (sizeof_h1 / 4))
      else none

  -- The device that is published.
  unfoldable pub pci_device_of : List ℕ → List ℕ → PciDevice
  unfolding decode_bar
  pci_device_of hdr bars = record {
    id = record {
      bus_type = bus_type_pci;
      vid = hc_vid hdr;
      did = hc_did hdr;
      class_code = hc_class_code hdr;
      subclass = hc_subclass hdr;
    };
    bar = (decode_bars bars).0;
    mmio = (decode_bars bars).1;
    prog_if = hc_prog_if hdr;
  }

  module _ {S : Type 0} where
    -- `publish` is `device_publish`, on the state of the drivers.
    unfoldable pub pci_check_function : (PciDevice → S → S) → List ℕ → ℕ → ℕ → ℕ → S → Option S
    pci_check_function publish junk bus dev func s = elim (pci_get_data bus dev func) [
      | none ↦ none
      | some hdr ↦
          if hc_header_type hdr % 2 ^ 7 == 0
          then elim (pci_get_bars config junk bus dev func) [
            | none ↦ some s
            | some bars ↦ some (publish (pci_device_of hdr bars) s)
          ]
          else some s
    ]

    -- The loops of `pci_enumerate`, with `check` for `pci_check_function`; n is how many rounds are
    -- left.
    unfoldable pub check_funcs : (ℕ → ℕ → ℕ → S → Option S) → ℕ → ℕ → ℕ → ℕ → S → Option S
    unfolding pci_get_vendor
    check_funcs check bus dev func zero s = some s
    check_funcs check bus dev func (suc n) s =
        if pci_get_vendor config bus dev func == 0xFFFF
        then check_funcs check bus dev (func + 1) n s
        else then_do (check bus dev func s) (λ s'. check_funcs check bus dev (func + 1) n s')

    unfoldable pub check_device : (ℕ → ℕ → ℕ → S → Option S) → ℕ → ℕ → S → Option S
    unfolding pci_get_vendor
    check_device check bus dev s =
        if pci_get_vendor config bus dev 0 == 0xFFFF
        then some s
        else then_do (check bus dev 0 s) (λ s'.
          if test_bit (pci_read_byte config bus dev 0 off_header_type) 7
          then check_funcs check bus dev 1 7 s'
          else some s')

    unfoldable pub check_bus : (ℕ → ℕ → ℕ → S → Option S) → ℕ → ℕ → ℕ → S → Option S
    check_bus check bus dev zero s = some s
    check_bus check bus dev (suc n) s =
        then_do (check_device check bus dev s) (λ s'. check_bus check bus (dev + 1) n s')

    unfoldable pub check_buses : (ℕ → ℕ → ℕ → S → Option S) → ℕ → ℕ → S → Option S
    check_buses check bus zero s = some s
    check_buses check bus (suc n) s =
        then_do (check_bus check bus 0 32 s) (λ s'. check_buses check (bus + 1) n s')

    unfoldable pub pci_enumerate : (ℕ → ℕ → ℕ → S → Option S) → S → Option S
    pci_enumerate check s = check_buses check 0 256 s
