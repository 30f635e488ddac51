-- ===== src/Drivers/Publish.antt =====
-- Which driver gets a device.
use osdev.Prelude.{
  ℕ, ◌≡◌, refl, ap, ◌∙◌, inl, inr, ◌⊎◌, true, false, List, [], ◌∷◌, ◌++◌, ◌==◌, Bool-cases, arith,
}
use osdev.Drivers.{bus_type_pci, DeviceId, probe_ok, Driver, id_matches, try_ids, device_publish}

-- An entry is not for a device.
abbrev pub Differs : DeviceId → DeviceId → Type 0
Differs dev id = ((dev.bus_type == id.bus_type) ≡ false) ⊎ (id_matches id dev ≡ false)

abbrev pub NoMatch : DeviceId → List DeviceId → Type 0
NoMatch dev [] = Unit
NoMatch dev (id ∷ ids) = Differs dev id × NoMatch dev ids

is_pci : (n : ℕ) → n ≡ bus_type_pci → (n == bus_type_pci) ≡ true
is_pci n h = ground arith

module _ {D S : Type 0} where
  abbrev pub NoneMatches : DeviceId → List (Driver D S) → Type 0
  NoneMatches dev [] = Unit
  NoneMatches dev (drv ∷ drivers) = NoMatch dev drv.id_table × NoneMatches dev drivers

  module _ (id_of : D → DeviceId) (dev : D) (pci : (id_of dev).bus_type ≡ bus_type_pci) where
    try_ids-skip :
        (drv : Driver D S) (id : DeviceId) (ids : List DeviceId) (s : S)
        → Differs (id_of dev) id
        → try_ids id_of drv (id ∷ ids) dev s ≡ try_ids id_of drv ids dev s
    unfolding try_ids
    try_ids-skip drv id ids s (inl bus) = rw (try_ids, bus) refl
    try_ids-skip drv id ids s (inr field) =
        elim (Bool-cases ((id_of dev).bus_type == id.bus_type)) [
          | inl same ↦ rw (try_ids, same, is_pci (id_of dev).bus_type pci, field) refl
          | inr other ↦ rw (try_ids, other) refl
        ]

    try_ids-pass :
        (drv : Driver D S) (skipped ids : List DeviceId) (s : S)
        → NoMatch (id_of dev) skipped
        → try_ids id_of drv (skipped ++ ids) dev s ≡ try_ids id_of drv ids dev s
    try_ids-pass drv [] ids s none_fits = refl
    try_ids-pass drv (id ∷ skipped) ids s none_fits =
        try_ids-skip drv id (skipped ++ ids) s none_fits.0
        ∙ try_ids-pass drv skipped ids s none_fits.1

    try_ids-none :
        (drv : Driver D S) (ids : List DeviceId) (s : S)
        → NoMatch (id_of dev) ids
        → try_ids id_of drv ids dev s ≡ (false, s)
    unfolding try_ids
    try_ids-none drv [] s none_fits = refl
    try_ids-none drv (id ∷ ids) s none_fits =
        try_ids-skip drv id ids s none_fits.0 ∙ try_ids-none drv ids s none_fits.1

    try_ids-claim :
        (drv : Driver D S) (id : DeviceId) (ids : List DeviceId) (s s' : S)
        → ((id_of dev).bus_type == id.bus_type) ≡ true
        → id_matches id (id_of dev) ≡ true
        → drv.probe dev s ≡ (probe_ok, s')
        → try_ids id_of drv (id ∷ ids) dev s ≡ (true, s')
    unfolding try_ids
    try_ids-claim drv id ids s s' bus field claimed =
        rw (try_ids, bus, is_pci (id_of dev).bus_type pci, field, claimed)
          (ap (λ r. (true, r.1)) claimed)

    publish-pass :
        (before drivers : List (Driver D S)) (s : S)
        → NoneMatches (id_of dev) before
        → device_publish id_of (before ++ drivers) dev s ≡ device_publish id_of drivers dev s
    unfolding device_publish
    publish-pass [] drivers s none_fits = refl
    publish-pass (drv ∷ before) drivers s none_fits =
        rw (device_publish, try_ids-none drv drv.id_table s none_fits.0)
          (ap (λ r. device_publish id_of (before ++ drivers) dev r.1)
              (try_ids-none drv drv.id_table s none_fits.0)
            ∙ publish-pass before drivers s none_fits.1)

    publish-claim :
        (drv : Driver D S) (after : List (Driver D S)) (s s' : S)
        → try_ids id_of drv drv.id_table dev s ≡ (true, s')
        → device_publish id_of (drv ∷ after) dev s ≡ s'
    unfolding device_publish
    publish-claim drv after s s' claimed = rw (device_publish, claimed) (ap (λ r. r.1) claimed)

  -- A device of the PCI bus for which no entry of the drivers before is meant, and of the next
  -- driver's table none before one that is, is handed to that driver's probe alone: if the probe
  -- returns PROBE_OK, its state is what `device_publish` leaves.
  pub device_publish-first :
      (id_of : D → DeviceId) (dev : D) (before after : List (Driver D S)) (drv : Driver D S)
      (skipped ids : List DeviceId) (id : DeviceId) (s s' : S)
      → (id_of dev).bus_type ≡ bus_type_pci
      → NoneMatches (id_of dev) before
      → drv.id_table ≡ skipped ++ (id ∷ ids)
      → NoMatch (id_of dev) skipped
      → id.bus_type ≡ bus_type_pci
      → id_matches id (id_of dev) ≡ true
      → drv.probe dev s ≡ (probe_ok, s')
      → device_publish id_of (before ++ (drv ∷ after)) dev s ≡ s'
  device_publish-first id_of dev before after drv skipped ids id s s' pci none_before table
        none_skipped bus field claimed =
      publish-pass id_of dev pci before (drv ∷ after) s none_before
      ∙ publish-claim id_of dev pci drv after s s' (
          ap (λ t. try_ids id_of drv t dev s) table
          ∙ try_ids-pass id_of dev pci drv skipped (id ∷ ids) s none_skipped
          ∙ try_ids-claim id_of dev pci drv id ids s s' same_bus field claimed)
    where
      same_bus : ((id_of dev).bus_type == id.bus_type) ≡ true
      same_bus = ground (arith, pci, bus)
