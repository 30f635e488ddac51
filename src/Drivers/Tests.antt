-- ===== src/Drivers/Tests.antt =====
-- A driver for IDE controllers behind one for a single device.
use osdev.Prelude.{ℕ, suc, ◌≡◌, refl, inr, none, [], ◌∷◌, ◌++◌}
use osdev.Drivers.{DeviceId, probe_ok, probe_error, Driver, driver_unregister, device_publish}
use osdev.Drivers.Publish.{device_publish-first}

abbrev ide : DeviceId
ide = record { bus_type = 1; vid = 0xFFFF; did = 0xFFFF; class_code = 1; subclass = 1 }

abbrev network_card : DeviceId
network_card = record {
  bus_type = 1;
  vid = 0x8086;
  did = 0x100E;
  class_code = 0xFFFF;
  subclass = 0xFFFF;
}

abbrev device : DeviceId
device = record { bus_type = 1; vid = 0x8086; did = 0x7010; class_code = 1; subclass = 1 }

abbrev itself : DeviceId → DeviceId
itself d = d

abbrev refuser : Driver DeviceId ℕ
refuser = record { address = 16; id_table = network_card ∷ []; probe = λ d n. (probe_error, n) }

abbrev counter : Driver DeviceId ℕ
counter = record {
  address = 32;
  id_table = network_card ∷ ide ∷ [];
  probe = λ d n. (probe_ok, suc n);
}

device_publish-first_example :
    device_publish itself ((refuser ∷ []) ++ (counter ∷ refuser ∷ [])) device 0 ≡ 1
device_publish-first_example =
    device_publish-first itself device (refuser ∷ []) (refuser ∷ []) counter (network_card ∷ []) []
      ide 0 1 refl ((inr refl, tt), tt) refl (inr refl, tt) refl refl refl

driver_unregister-faults : driver_unregister (refuser ∷ counter ∷ []) counter ≡ none
unfolding driver_unregister
driver_unregister-faults = refl
