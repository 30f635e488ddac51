-- ===== src/Pci/Tests.antt =====
-- A bus with one device of two functions, and the bytes of a space that count up.
use osdev.Prelude.{
  ℕ, ◌+◌, ◌*◌, ◌%◌, ◌^◌, ◌≡◌, refl, Option, some, List, [], ◌∷◌, ◌++◌, ◌==◌, ◌&&◌, ◌||◌,
  if◌then◌else◌, arith,
}
use osdev.Pci.{pci_read_byte, pci_read_short, pci_enumerate, decode_bar}
use osdev.Pci.Config.{config_of, config_of-HoldsConfig, pci_read-bytes}
use osdev.Pci.Enumerate.{Slot, run_all, filter, is_visited, every_slot, pci_enumerate-visits}

abbrev counting : ℕ → ℕ → ℕ → ℕ → ℕ
counting bus dev func off = (bus + off) % 256

pci_read-bytes_example :
    (pci_read_byte (config_of counting) 1 2 3 14 ≡ 15)
    × (pci_read_short (config_of counting) 1 2 3 14 ≡ 15 + 2 ^ 8 * 16)
pci_read-bytes_example =
    pci_read-bytes (config_of counting) counting 1 2 3 14
      (config_of-HoldsConfig counting (λ bus dev func off. omega arith)) (omega arith) (omega arith)
      (omega arith) (omega arith)

-- Functions 0 and 2 of device 3 of bus 0 exist, and the header of function 0 has its top bit set.
abbrev one_device : ℕ → ℕ → ℕ → ℕ → ℕ
one_device bus dev func off =
    if (bus == 0) && (dev == 3) && ((func == 0) || (func == 2))
    then (if off == 14 then 128 else 0)
    else 255

abbrev noted_slot : ℕ → ℕ → ℕ → List Slot → Option (List Slot)
noted_slot bus dev func xs = some (xs ++ ((bus, dev, func) ∷ []))

pci_enumerate-visits_example :
    pci_enumerate (config_of one_device) noted_slot []
    ≡ run_all noted_slot (filter (is_visited (config_of one_device)) every_slot) []
pci_enumerate-visits_example = pci_enumerate-visits (config_of one_device) noted_slot []

-- A base address register of 64 bits keeps its flags.
decode_bar-wide : (decode_bar 0xFEBF0004).0 ≡ 0xFEBF0004
unfolding decode_bar
decode_bar-wide = refl
