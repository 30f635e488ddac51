-- ===== src/Ata.antt =====
-- drivers/ata.c and include/drivers/ata.h: disks behind the ports of a controller.
-- Messages are left out. The list of controllers is the sequence that Dllist refines.
pub mod Drive
pub mod Filled
mod Wait
mod Read
mod Probe
mod Tests
use osdev.Prelude.{
  ℕ, zero, suc, ◌+◌, ◌-◌, ◌*◌, ◌/◌, ◌%◌, ◌^◌, Bool, true, false, not, ◌&&◌, Option, none, some,
  List, [], ◌∷◌, ◌++◌, ◌==◌, ltb, if◌then◌else◌, get_or, get_elem?, test_bit,
}
use osdev.Io.{Ports, port}

abbrev pub ata_timeout : ℕ
ata_timeout = 2500000

-- The registers, from the base of a channel.
abbrev pub ata_data : ℕ
ata_data = 0

abbrev pub ata_secs : ℕ
ata_secs = 2

abbrev pub ata_lbalow : ℕ
ata_lbalow = 3

abbrev pub ata_lbamid : ℕ
ata_lbamid = 4

abbrev pub ata_lbahigh : ℕ
ata_lbahigh = 5

abbrev pub ata_drive : ℕ
ata_drive = 6

abbrev pub ata_status : ℕ
ata_status = 7

abbrev pub ata_cmd : ℕ
ata_cmd = 7

-- ATA_STATUS_ERR, ATA_STATUS_DF, ATA_STATUS_DRQ and ATA_STATUS_BSY.
abbrev pub is_err : ℕ → Bool
is_err s = test_bit s 0

abbrev pub is_df : ℕ → Bool
is_df s = test_bit s 5

abbrev pub is_drq : ℕ → Bool
is_drq s = test_bit s 3

abbrev pub is_bsy : ℕ → Bool
is_bsy s = test_bit s 7

-- What of `ata_ctrl_t` and `blkdev_t` is used.
pub record AtaController : Type 0 where
  pub base0 : ℕ
  pub base1 : ℕ

pub record Blkdev : Type 0 where
  pub id : ℕ
  pub block_size : ℕ
  pub nblocks : ℕ

-- Memory by bytes, and a word of two bytes in it.
abbrev pub Memory : Type 0
Memory = ℕ → ℕ

abbrev pub store_word : Memory → ℕ → ℕ → Memory
store_word mem at w x =
    if x == at then w % 2 ^ 8 else if x == (at + 1) % 2 ^ 32 then w / 2 ^ 8 % 2 ^ 8 else mem x

abbrev pub load_word : Memory → ℕ → ℕ
load_word mem at = mem at + 2 ^ 8 * mem ((at + 1) % 2 ^ 32)

-- `controller->base[(dev->id >> 1) & 0x01]`; `none` is a controller that is not in the list.
unfoldable pub base_of : List AtaController → Blkdev → Option ℕ
base_of controllers dev = elim (get_elem? controllers (dev.id / 2 ^ 2)) [
  | none ↦ none
  | some c ↦ some (if dev.id / 2 % 2 == 0 then c.base0 else c.base1)
]

module _ {H : Type 0} (ports : Ports H) where
  unfoldable pub ata_delay : ℕ → H → H
  ata_delay base h =
      let h1 = (ports.inb h (port base ata_status)).1 in
      let h2 = (ports.inb h1 (port base ata_status)).1 in
      let h3 = (ports.inb h2 (port base ata_status)).1 in (ports.inb h3 (port base ata_status)).1

  -- The loops of `ata_wait_not_busy` and `ata_poll`, with n rounds left.
  unfoldable pub wait_loop : ℕ → ℕ → H → Bool × H
  wait_loop base zero h = (false, h)
  wait_loop base (suc n) h =
      let (s, h') = ports.inb h (port base ata_status) in
      elim (is_bsy s) [ true ↦ wait_loop base n h' | false ↦ (true, h') ]

  unfoldable pub ata_wait_not_busy : ℕ → H → Bool × H
  ata_wait_not_busy base h = wait_loop base ata_timeout h

  unfoldable pub poll_loop : ℕ → ℕ → H → Bool × H
  poll_loop base zero h = (false, h)
  poll_loop base (suc n) h =
      let (s, h') = ports.inb h (port base ata_status) in
      elim (is_err s) [
        | true ↦ (false, h')
        | false ↦ elim (is_df s) [
          | true ↦ (false, h')
          | false ↦ elim (not (is_bsy s) && is_drq s) [
            | true ↦ (true, h')
            | false ↦ poll_loop base n h'
          ]
        ]
      ]

  unfoldable pub ata_poll : ℕ → H → Bool × H
  unfolding ata_delay
  ata_poll base h = poll_loop base ata_timeout (ata_delay base h)

  -- The registers of a transfer: the drive with the top bits of the address, the count, and the
  -- rest of the address. The fields of the first byte do not overlap.
  unfoldable pub program_registers : ℕ → ℕ → ℕ → ℕ → H → H
  unfolding ata_delay
  program_registers base id lba count h =
      let h1 = ports.outb h (port base ata_drive) (0xE0 + lba / 2 ^ 24 % 2 ^ 4 + id % 2 * 2 ^ 4) in
      let h2 = ata_delay base h1 in
      let h3 = ports.outb h2 (port base ata_secs) (count % 2 ^ 8) in
      let h4 = ports.outb h3 (port base ata_lbalow) (lba % 2 ^ 8) in
      let h5 = ports.outb h4 (port base ata_lbamid) (lba / 2 ^ 8 % 2 ^ 8) in
      ports.outb h5 (port base ata_lbahigh) (lba / 2 ^ 16 % 2 ^ 8)

  unfoldable pub program : ℕ → ℕ → ℕ → ℕ → ℕ → H → H
  unfolding program_registers
  program base id lba count command h =
      ports.outb (program_registers base id lba count h) (port base ata_cmd) command

  -- n words from the port to memory, and back.
  unfoldable pub read_words : ℕ → ℕ → ℕ → H → Memory → H × Memory
  read_words base at zero h mem = (h, mem)
  read_words base at (suc n) h mem =
      let (w, h') = ports.inw h (port base ata_data) in
      read_words base ((at + 2) % 2 ^ 32) n h' (store_word mem at w)

  unfoldable pub write_words : ℕ → ℕ → ℕ → H → Memory → H
  write_words base at zero h mem = h
  write_words base at (suc n) h mem =
      write_words base ((at + 2) % 2 ^ 32) n (ports.outw h (port base ata_data) (load_word mem at))
        mem

  -- The loop over sectors: s is the first of the n that are left.
  unfoldable pub read_sectors : ℕ → Blkdev → ℕ → ℕ → ℕ → H → Memory → ℕ × H × Memory
  unfolding ata_poll read_words ata_delay
  read_sectors base dev buf s zero h mem = (0, h, mem)
  read_sectors base dev buf s (suc n) h mem =
      let (ready, h1) = ata_poll base h in
      let (h2, mem') = read_words base ((buf + s * dev.block_size) % 2 ^ 32) 256 h1 mem in
      elim ready [
        | false ↦ (1, h1, mem)
        | true ↦ read_sectors base dev buf (s + 1) n (ata_delay base h2) mem'
      ]

  unfoldable pub write_sectors : ℕ → ℕ → ℕ → ℕ → H → Memory → ℕ × H
  unfolding ata_poll write_words ata_delay
  write_sectors base buf s zero h mem = (0, h)
  write_sectors base buf s (suc n) h mem =
      let (ready, h1) = ata_poll base h in
      let h2 = write_words base ((buf + s * 512) % 2 ^ 32) 256 h1 mem in
      elim ready [
        | false ↦ (1, h1)
        | true ↦ write_sectors base buf (s + 1) n (ata_delay base h2) mem
      ]

  -- The return value, with what is behind the ports and the memory afterwards. `buf` is an address,
  -- 0 for NULL.
  unfoldable pub ata_read :
      List AtaController → Blkdev → ℕ → ℕ → ℕ → H → Memory → Option (ℕ × H × Memory)
  unfolding ata_wait_not_busy program read_sectors base_of
  ata_read controllers dev buf lba count h mem =
      if count == 0
      then some (0, h, mem)
      else if ltb dev.nblocks count
      then some (1, h, mem)
      else if buf == 0
      then some (1, h, mem)
      else elim (base_of controllers dev) [
        | none ↦ none
        | some base ↦
            let (idle, h1) = ata_wait_not_busy base h in
            if base == 0
            then some (1, h, mem)
            else if not idle
            then some (1, h1, mem)
            else some
                (read_sectors base dev buf 0 count (program base dev.id lba count 0x20 h1) mem)
      ]

  unfoldable pub ata_write : List AtaController → Blkdev → ℕ → ℕ → ℕ → H → Memory → Option (ℕ × H)
  unfolding ata_wait_not_busy program write_sectors base_of
  ata_write controllers dev buf lba count h mem = elim (base_of controllers dev) [
    | none ↦ none
    | some base ↦
        let (idle, h1) = ata_wait_not_busy base h in
        let (failed, h2) =
          write_sectors base buf 0 count (program base dev.id lba count 0x30 h1) mem in
        let (flushed, h3) = ata_wait_not_busy base (ports.outb h2 (port base ata_cmd) 0xE7) in
        if base == 0
        then some (1, h)
        else if count == 0
        then some (0, h)
        else if ltb dev.nblocks count
        then some (1, h)
        else if not idle
        then some (1, h1)
        else if failed == 1
        then some (1, h2)
        else if flushed
        then some (0, h3)
        else some (1, h3)
  ]
