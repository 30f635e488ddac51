-- ===== src/Drivers.antt =====
-- drivers/drivers.c and include/drivers/drivers.h: the drivers, and the devices offered to them.
-- `D` is the type of devices and `S` the state that probes act on. `drivers` is the first `d_idx`
-- entries of the array. Messages are left out.
mod Publish
mod Tests
use osdev.Prelude.{
  ℕ, Bool, true, false, ◌&&◌, ◌||◌, Option, none, some, List, [], ◌∷◌, ◌++◌, ◌==◌, leb,
  if◌then◌else◌, length,
}

abbrev pub bus_type_pci : ℕ
bus_type_pci = 1

-- `device_id_t` with the union's `pci`.
pub record DeviceId : Type 0 where
  pub bus_type : ℕ
  pub vid : ℕ
  pub did : ℕ
  pub class_code : ℕ
  pub subclass : ℕ

-- `probe_result_t`
pub data ProbeResult : Type 0 where
  probe_ok probe_skip probe_error : ProbeResult

-- `driver_t` at an address; `id_table` is up to the entry of BUS_TYPE_COUNT.
pub record Driver (D S : Type 0) : Type 0 where
  pub address : ℕ
  pub id_table : List DeviceId
  pub probe : D → S → ProbeResult × S

-- An entry with 0xFFFF in a field takes any value there.
abbrev pub field_matches : ℕ → ℕ → Bool
field_matches wanted value = (wanted == 0xFFFF) || (wanted == value)

abbrev pub id_matches : DeviceId → DeviceId → Bool
id_matches id dev =
    field_matches id.vid dev.vid
    && field_matches id.did dev.did
    && field_matches id.class_code dev.class_code
    && field_matches id.subclass dev.subclass

module _ {D S : Type 0} where
  -- `none` is a write behind the array of 256.
  unfoldable pub driver_register : List (Driver D S) → Driver D S → Option (List (Driver D S))
  driver_register drivers drv =
      if leb 256 (length drivers) then none else some (drivers ++ (drv ∷ []))

  -- `none` is the fault of `memmove`, which is handed the pointer at the entry, set to 0 before, for
  -- its destination, and at least one byte to move.
  unfoldable pub driver_unregister : List (Driver D S) → Driver D S → Option (List (Driver D S))
  driver_unregister [] drv = some []
  driver_unregister (d ∷ ds) drv =
      if d.address == drv.address
      then none
      else elim (driver_unregister ds drv) [ none ↦ none | some ds' ↦ some (d ∷ ds') ]

  module _ (id_of : D → DeviceId) where
    -- The loop over an id table. The result says whether `device_publish` returns.
    unfoldable pub try_ids : Driver D S → List DeviceId → D → S → Bool × S
    try_ids drv [] dev s = (false, s)
    try_ids drv (id ∷ ids) dev s =
        let (result, s') = drv.probe dev s in
        elim ((id_of dev).bus_type == id.bus_type) [
          | false ↦ try_ids drv ids dev s
          | true ↦ elim ((id_of dev).bus_type == bus_type_pci) [
            | false ↦ (true, s)
            | true ↦ elim (id_matches id (id_of dev)) [
              | false ↦ try_ids drv ids dev s
              | true ↦ elim result [
                | probe_ok ↦ (true, s')
                | probe_skip ↦ try_ids drv ids dev s'
                | probe_error ↦ try_ids drv ids dev s'
              ]
            ]
          ]
        ]

    unfoldable pub device_publish : List (Driver D S) → D → S → S
    unfolding try_ids
    device_publish [] dev s = s
    device_publish (drv ∷ drivers) dev s =
        let (claimed, s') = try_ids drv drv.id_table dev s in
        elim claimed [ true ↦ s' | false ↦ device_publish drivers dev s' ]
