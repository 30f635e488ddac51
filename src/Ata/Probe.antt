-- ===== src/Ata/Probe.antt =====
-- drivers/ata.c: `ata_identify`, `ata_probe` and `_ata_init`.
-- Allocations but that of the controller are taken to succeed.
use osdev.Prelude.{
  ℕ, zero, suc, ◌+◌, ◌-◌, ◌*◌, ◌/◌, ◌%◌, ◌^◌, Bool, true, not, ◌&&◌, Option, none, some, List, [],
  ◌∷◌, ◌++◌, ◌==◌, if◌then◌else◌, get_or, test_bit,
}
use osdev.Io.{Ports, port}
use osdev.Drivers.{ProbeResult, probe_ok, probe_skip, probe_error, Driver, bus_type_pci}
use osdev.Pci.{PciDevice}
use osdev.Ata.{
  ata_data, ata_secs, ata_lbalow, ata_lbamid, ata_lbahigh, ata_drive, ata_status, ata_cmd,
  AtaController, Blkdev, ata_delay, ata_poll,
}

-- The results -2, -1 and 0 of `ata_identify`, the last with the words that it read.
pub data Identity : Type 0 where
  absent failed : Identity
  identified : List ℕ → Identity

-- What of `ata_disk_t` is set for a disk that is found.
pub record AtaDisk : Type 0 where
  pub id : ℕ
  pub name : List ℕ
  pub size : ℕ
  pub lba48 : Bool
  pub dma : Bool

-- The variables of the driver, what is behind the ports, and the block devices that were added.
pub record Ata (H : Type 0) : Type 0 where
  pub controllers : List AtaController
  pub num_controllers : ℕ
  pub disks : List AtaDisk
  pub devices : List Blkdev
  pub behind : H

-- The characters of 20 words from word 27 on, the upper byte of each first, and a terminator.
abbrev name_from : List ℕ → ℕ → ℕ → List ℕ
name_from identity i zero = 0 ∷ []
name_from identity i (suc n) =
    (get_or identity (27 + i) 0 / 2 ^ 8)
    ∷ (get_or identity (27 + i) 0 % 2 ^ 8)
    ∷ name_from identity (i + 1) n

-- `*(uint32_t*)&identity[i]`, and what a `size_t` keeps of 64 bits from there.
abbrev pub two_words : List ℕ → ℕ → ℕ
two_words identity i = get_or identity i 0 + 2 ^ 16 * get_or identity (i + 1) 0

-- `(identity[106] & 0xD000) == 0x5000`: bits 12 and 14 are set, bit 15 is not.
unfoldable pub block_size_of : List ℕ → ℕ
block_size_of identity =
    let flags = get_or identity 106 0 in
    if test_bit flags 12 && test_bit flags 14 && not (test_bit flags 15)
    then two_words identity 117
    else 512

unfoldable pub has_lba48 : List ℕ → Bool
has_lba48 identity = test_bit (get_or identity 86 0) 10

unfoldable pub nblocks_of : List ℕ → ℕ
nblocks_of identity = if has_lba48 identity then two_words identity 100 else two_words identity 60

unfoldable pub disk_of : List ℕ → ℕ → AtaDisk
unfolding block_size_of nblocks_of has_lba48
disk_of identity id = record {
  id = id;
  name = name_from identity 0 20;
  size = (nblocks_of identity * block_size_of identity) % 2 ^ 32;
  lba48 = has_lba48 identity;
  dma = test_bit (get_or identity 49 0) 8;
}

module _ {H : Type 0} (ports : Ports H) where
  unfoldable pub in_words : ℕ → ℕ → H → List ℕ × H
  in_words base zero h = ([], h)
  in_words base (suc n) h =
      let (w, h') = ports.inw h (port base ata_data) in
      let (ws, h'') = in_words base n h' in (w ∷ ws, h'')

  unfoldable pub ata_identify : ℕ → ℕ → H → Identity × H
  unfolding ata_delay ata_poll in_words
  ata_identify base disk h =
      let h1 = ata_delay ports base (ports.outb h (port base ata_drive) disk) in
      let h2 = ports.outb h1 (port base ata_secs) 0 in
      let h3 = ports.outb h2 (port base ata_lbalow) 0 in
      let h4 = ports.outb h3 (port base ata_lbamid) 0 in
      let h5 = ports.outb h4 (port base ata_lbahigh) 0 in
      let h6 = ports.outb h5 (port base ata_cmd) 0xEC in
      let (status, h7) = ports.inb h6 (port base ata_status) in
      let (ready, h8) = ata_poll ports base h7 in
      let (identity, h9) = in_words base 256 h8 in
      if status == 0
      then (absent, h7)
      else if ready
      then (identified identity, h9)
      else (failed, h8)

  -- The body of the loop over drives.
  unfoldable pub probe_drive : ℕ → ℕ → ℕ → Ata H → Ata H
  unfolding ata_identify disk_of block_size_of nblocks_of
  probe_drive base channel drive a =
      let (result, h) = ata_identify base (if drive == 0 then 0xA0 else 0xB0) a.behind in
      let id : ℕ = ((a.num_controllers - 1) * 2 ^ 2 + channel * 2 + drive) % 2 ^ 32 in
      elim result [
        | absent ↦ record a { behind = h }
        | failed ↦ record a { behind = h }
        | identified identity ↦ record a {
          behind = h;
          disks = a.disks ++ (disk_of identity id ∷ []);
          devices =
              a.devices
              ++ (record {
                id = id;
                block_size = block_size_of identity;
                nblocks = nblocks_of identity;
              }
                  ∷ []);
        }
      ]

  -- The base of a channel: `none` for an invalid register; the register is cut to 16 bits.
  unfoldable pub channel_base : PciDevice → ℕ → Option ℕ
  channel_base device channel =
      if test_bit device.prog_if 0
      then (if get_or device.bar (channel * 2) 0 == 0
          then none
          else some (get_or device.bar (channel * 2) 0 % 2 ^ 16))
      else some (if channel == 0 then 0x1F0 else 0x170)

  -- The body of the loop over channels: the base that is entered, 0 where none is.
  unfoldable pub probe_channel : PciDevice → ℕ → Ata H → ℕ × Ata H
  unfolding probe_drive channel_base
  probe_channel device channel a = elim (channel_base device channel) [
    | none ↦ (0, a)
    | some base ↦
        let (status, h) = ports.inb a.behind (port base ata_status) in
        let a' : Ata H = record a { behind = h } in
        if status == 0xFF
        then (0, a')
        else (base, probe_drive base channel 1 (probe_drive base channel 0 a'))
  ]

  -- `allocated` says whether the controller was.
  unfoldable pub ata_probe : Bool → PciDevice → Ata H → ProbeResult × Ata H
  unfolding probe_channel
  ata_probe allocated device a =
      let a0 : Ata H = record a { num_controllers = a.num_controllers + 1 } in
      let (base0, a1) = probe_channel device 0 a0 in
      let (base1, a2) = probe_channel device 1 a1 in
      if not (device.id.bus_type == bus_type_pci)
      then (probe_skip, a)
      else if not allocated
      then (probe_error, a)
      else (
        probe_ok,
        record a2 {
          controllers = a2.controllers ++ (record { base0 = base0; base1 = base1 } ∷ []);
        },
      )

  -- The driver that `_ata_init` registers, which takes IDE controllers.
  abbrev pub ata_driver : ℕ → Driver PciDevice (Ata H)
  ata_driver address = record {
    address = address;
    id_table =
        record { bus_type = bus_type_pci; vid = 0xFFFF; did = 0xFFFF; class_code = 1; subclass = 1 }
        ∷ [];
    probe = ata_probe true;
  }
