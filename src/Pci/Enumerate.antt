-- ===== src/Pci/Enumerate.antt =====
-- Which functions `pci_enumerate` visits, and in which order.
use osdev.Prelude.{
  ℕ, zero, suc, ◌+◌, ◌≤◌, ◌≡◌, refl, sym, ap, ◌∙◌, inl, inr, Bool, true, false, not, ◌&&◌, ◌||◌,
  Option, none, some, List, [], ◌∷◌, ◌++◌, arith, ◌==◌, if◌then◌else◌, Bool-cases, test_bit,
}
use osdev.Pci.{
  pci_read_byte, pci_get_vendor, off_header_type, check_funcs, check_device, check_bus, check_buses,
  pci_enumerate, then_do,
}

-- Bus, device and function.
abbrev pub Slot : Type 0
Slot = ℕ × ℕ × ℕ

abbrev slots : ℕ → ℕ → ℕ → ℕ → List Slot
slots bus dev func zero = []
slots bus dev func (suc n) = (bus, dev, func) ∷ slots bus dev (func + 1) n

abbrev bus_slots : ℕ → ℕ → ℕ → List Slot
bus_slots bus dev zero = []
bus_slots bus dev (suc n) = slots bus dev 0 8 ++ bus_slots bus (dev + 1) n

abbrev buses_slots : ℕ → ℕ → List Slot
buses_slots bus zero = []
buses_slots bus (suc n) = bus_slots bus 0 32 ++ buses_slots (bus + 1) n

-- Every function that a configuration address can name, in the order of the numbers.
abbrev pub every_slot : List Slot
every_slot = buses_slots 0 256

abbrev pub filter : {A : Type 0} → (A → Bool) → List A → List A
filter p [] = []
filter p (x ∷ xs) = if p x then x ∷ filter p xs else filter p xs

if-append :
    {A : Type 0} (b : Bool) (x : A) (xs ys zs : List A)
    → xs ≡ ys ++ zs
    → (if b then x ∷ xs else xs) ≡ (if b then x ∷ ys else ys) ++ zs
if-append true x xs ys zs h = ap (λ l. x ∷ l) h
if-append false x xs ys zs h = h

filter-append :
    {A : Type 0} (p : A → Bool) (xs ys : List A) → filter p (xs ++ ys) ≡ filter p xs ++ filter p ys
filter-append p [] ys = refl
filter-append p (x ∷ xs) ys =
    if-append (p x) x (filter p (xs ++ ys)) (filter p xs) (filter p ys) (filter-append p xs ys)

module _ (config : ℕ → ℕ) where
  abbrev pub is_present : ℕ → ℕ → ℕ → Bool
  is_present bus dev func = not (pci_get_vendor config bus dev func == 0xFFFF)

  abbrev pub is_multi : ℕ → ℕ → Bool
  is_multi bus dev = test_bit (pci_read_byte config bus dev 0 off_header_type) 7

  -- Function 0 of a device that is present, and the present ones among the others of a device
  -- whose function 0 is present and says that the device has several.
  abbrev pub is_visited : Slot → Bool
  is_visited (bus, dev, func) =
      is_present bus dev func && ((func == 0) || (is_present bus dev 0 && is_multi bus dev))

  absent :
      (bus dev func : ℕ) → is_present bus dev func ≡ false → is_visited (bus, dev, func) ≡ false
  absent bus dev func h =
      ap (λ b. b && ((func == 0) || (is_present bus dev 0 && is_multi bus dev))) h

  -- The functions of a device from 1 on, where the device has several or does not.
  several :
      (bus dev func : ℕ)
      → (is_present bus dev 0 && is_multi bus dev) ≡ true
      → is_visited (bus, dev, func) ≡ is_present bus dev func
  several bus dev func h =
      ap (λ b. is_present bus dev func && ((func == 0) || b)) h
      ∙ from (is_present bus dev func) (func == 0)
    where
      from : (a b : Bool) → (a && (b || true)) ≡ a
      from true true = refl
      from true false = refl
      from false b = refl

  alone :
      (bus dev func : ℕ)
      → (is_present bus dev 0 && is_multi bus dev) ≡ false
      → 1 ≤ func
      → is_visited (bus, dev, func) ≡ false
  alone bus dev func h pos =
      ap (λ b. is_present bus dev func && ((func == 0) || b)) h
      ∙ ap (λ b. is_present bus dev func && (b || false)) not_zero
      ∙ from (is_present bus dev func)
    where
      not_zero : (func == 0) ≡ false
      not_zero = ground arith

      from : (a : Bool) → (a && false) ≡ false
      from true = refl
      from false = refl

  no_slots :
      (bus dev func n : ℕ)
      → (is_present bus dev 0 && is_multi bus dev) ≡ false
      → 1 ≤ func
      → filter is_visited (slots bus dev func n) ≡ []
  no_slots bus dev func zero h pos = refl
  no_slots bus dev func (suc n) h pos =
      ap
        (λ b.
          if b
          then (bus, dev, func) ∷ filter is_visited (slots bus dev (func + 1) n)
          else filter is_visited (slots bus dev (func + 1) n))
        (alone bus dev func h pos)
      ∙ no_slots bus dev (func + 1) n h (omega arith)

module _ {S : Type 0} where
  -- The steps of a list one after another, up to the first fault.
  abbrev pub run_all : (ℕ → ℕ → ℕ → S → Option S) → List Slot → S → Option S
  run_all check [] s = some s
  run_all check ((bus, dev, func) ∷ xs) s = then_do (check bus dev func s) (run_all check xs)

  run_all-append :
      (check : ℕ → ℕ → ℕ → S → Option S) (xs ys : List Slot) (s : S)
      → run_all check (xs ++ ys) s ≡ then_do (run_all check xs s) (run_all check ys)
  run_all-append check [] ys s = refl
  run_all-append check ((bus, dev, func) ∷ xs) ys s =
      step (check bus dev func s) (run_all-append check xs ys)
    where
      step :
          (o : Option S)
          → ((s : S) → run_all check (xs ++ ys) s ≡ then_do (run_all check xs s) (run_all check ys))
          → then_do o (run_all check (xs ++ ys))
            ≡ then_do (then_do o (run_all check xs)) (run_all check ys)
      step none h = refl
      step (some s) h = h s

  module _ (config : ℕ → ℕ) (check : ℕ → ℕ → ℕ → S → Option S) where
    abbrev visits : List Slot → S → Option S
    visits xs s = run_all check (filter (is_visited config) xs) s

    visits-append :
        (xs ys : List Slot) (s : S) → visits (xs ++ ys) s ≡ then_do (visits xs s) (visits ys)
    visits-append xs ys s =
        ap (λ l. run_all check l s) (filter-append (is_visited config) xs ys)
        ∙ run_all-append check (filter (is_visited config) xs) (filter (is_visited config) ys) s

    visits-skip :
        (x : Slot) (xs : List Slot) (s : S)
        → is_visited config x ≡ false
        → visits (x ∷ xs) s ≡ visits xs s
    visits-skip x xs s h =
        ap
          (λ b.
            run_all check
              (if b then x ∷ filter (is_visited config) xs else filter (is_visited config) xs) s)
          h

    visits-step :
        (bus dev func : ℕ) (xs : List Slot) (s : S)
        → is_visited config (bus, dev, func) ≡ true
        → visits ((bus, dev, func) ∷ xs) s ≡ then_do (check bus dev func s) (visits xs)
    visits-step bus dev func xs s h =
        ap
          (λ b.
            run_all check
              (if b
                then (bus, dev, func) ∷ filter (is_visited config) xs
                else filter (is_visited config) xs)
              s)
          h

    then_do-cong :
        (o : Option S) (f g : S → Option S) → ((s : S) → f s ≡ g s) → then_do o f ≡ then_do o g
    then_do-cong none f g h = refl
    then_do-cong (some s) f g h = h s

    -- A device's functions from `func` on, where it has several.
    check_funcs-visits :
        (bus dev func n : ℕ) (s : S)
        → (is_present config bus dev 0 && is_multi config bus dev) ≡ true
        → check_funcs config check bus dev func n s ≡ visits (slots bus dev func n) s
    unfolding check_funcs
    check_funcs-visits bus dev func zero s h = refl
    check_funcs-visits bus dev func (suc n) s h =
        elim (Bool-cases (pci_get_vendor config bus dev func == 0xFFFF)) [
          | inl gone ↦
              ap
                (λ b.
                  if b
                  then check_funcs config check bus dev (func + 1) n s
                  else then_do (check bus dev func s)
                      (λ s'. check_funcs config check bus dev (func + 1) n s'))
                gone
              ∙ check_funcs-visits bus dev (func + 1) n s h
              ∙ sym (
                  visits-skip (bus, dev, func) (slots bus dev (func + 1) n) s
                    (absent config bus dev func (ap not gone)))
          | inr here ↦
              ap
                (λ b.
                  if b
                  then check_funcs config check bus dev (func + 1) n s
                  else then_do (check bus dev func s)
                      (λ s'. check_funcs config check bus dev (func + 1) n s'))
                here
              ∙ then_do-cong (check bus dev func s) (check_funcs config check bus dev (func + 1) n)
                  (visits (slots bus dev (func + 1) n))
                  (λ s'. check_funcs-visits bus dev (func + 1) n s' h)
              ∙ sym (
                  visits-step bus dev func (slots bus dev (func + 1) n) s
                    (several config bus dev func h ∙ ap not here))
        ]

    -- A device whose function 0 is absent, or has no other functions.
    check_device-visits :
        (bus dev : ℕ) (s : S) → check_device config check bus dev s ≡ visits (slots bus dev 0 8) s
    unfolding check_device
    check_device-visits bus dev s = elim (Bool-cases (pci_get_vendor config bus dev 0 == 0xFFFF)) [
      | inl gone ↦
          ap (λ b. if b then some s else then_do (check bus dev 0 s) rest) gone
          ∙ ap (λ l. run_all check l s)
              (sym (
                no_slots config bus dev 1 7 (ap (λ b. not b && is_multi config bus dev) gone)
                  (omega arith)))
          ∙ sym (
              visits-skip (bus, dev, 0) (slots bus dev 1 7) s
                (absent config bus dev 0 (ap not gone)))
      | inr here ↦
          ap (λ b. if b then some s else then_do (check bus dev 0 s) rest) here
          ∙ then_do-cong (check bus dev 0 s) rest (visits (slots bus dev 1 7))
              (others (is_multi config bus dev) refl here)
          ∙ sym (visits-step bus dev 0 (slots bus dev 1 7) s (ap (λ b. not b && true) here))
    ]
      where
        rest : S → Option S
        rest s' =
            if is_multi config bus dev then check_funcs config check bus dev 1 7 s' else some s'

        others :
            (b : Bool)
            → is_multi config bus dev ≡ b
            → (pci_get_vendor config bus dev 0 == 0xFFFF) ≡ false
            → (s' : S) → rest s' ≡ visits (slots bus dev 1 7) s'
        others true p here s' =
            ap (λ b. if b then check_funcs config check bus dev 1 7 s' else some s') p
            ∙ check_funcs-visits bus dev 1 7 s'
                (ap (λ b. not b && is_multi config bus dev) here ∙ p)
        others false p here s' =
            ap (λ b. if b then check_funcs config check bus dev 1 7 s' else some s') p
            ∙ ap (λ l. run_all check l s')
                (sym (
                  no_slots config bus dev 1 7 (ap (λ b. not b && is_multi config bus dev) here ∙ p)
                    (omega arith)))

    check_bus-visits :
        (bus dev n : ℕ) (s : S)
        → check_bus config check bus dev n s ≡ visits (bus_slots bus dev n) s
    unfolding check_bus
    check_bus-visits bus dev zero s = refl
    check_bus-visits bus dev (suc n) s =
        ap (λ o. then_do o (check_bus config check bus (dev + 1) n)) (check_device-visits bus dev s)
        ∙ then_do-cong (visits (slots bus dev 0 8) s) (check_bus config check bus (dev + 1) n)
            (visits (bus_slots bus (dev + 1) n)) (check_bus-visits bus (dev + 1) n)
        ∙ sym (visits-append (slots bus dev 0 8) (bus_slots bus (dev + 1) n) s)

    check_buses-visits :
        (bus n : ℕ) (s : S) → check_buses config check bus n s ≡ visits (buses_slots bus n) s
    unfolding check_buses
    check_buses-visits bus zero s = refl
    check_buses-visits bus (suc n) s =
        ap (λ o. then_do o (check_buses config check (bus + 1) n)) (check_bus-visits bus 0 32 s)
        ∙ then_do-cong (visits (bus_slots bus 0 32) s) (check_buses config check (bus + 1) n)
            (visits (buses_slots (bus + 1) n)) (check_buses-visits (bus + 1) n)
        ∙ sym (visits-append (bus_slots bus 0 32) (buses_slots (bus + 1) n) s)

-- `pci_enumerate` checks, of the 65536 functions that an address can name, in the order of bus,
-- device and function, exactly function 0 of each device that is present and, where its header
-- says that the device has several, its other present functions; each once.
pub pci_enumerate-visits :
    {S : Type 0} (config : ℕ → ℕ) (check : ℕ → ℕ → ℕ → S → Option S) (s : S)
    → pci_enumerate config check s ≡ run_all check (filter (is_visited config) every_slot) s
unfolding pci_enumerate
pci_enumerate-visits config check s = check_buses-visits config check 0 256 s
