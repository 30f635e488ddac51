-- ===== src/Ata/Drive.antt =====
-- What a drive does behind the registers of a channel, as the theorems on transfers ask for it.
use osdev.Prelude.{
  ℕ, ◌+◌, ◌-◌, ◌*◌, ◌^◌, ◌%◌, ◌≤◌, ◌<◌, ◌≡◌, Bool, true, false, not, ◌&&◌, ◌==◌, if◌then◌else◌,
}
use osdev.Io.{Ports, port}
use osdev.Ata.{
  ata_timeout, ata_data, ata_secs, ata_lbalow, ata_lbamid, ata_lbahigh, ata_drive, ata_status,
  ata_cmd, is_err, is_df, is_drq, is_bsy,
}

-- Idle, or handing over the sectors from `lba` on, of which `left` are left, with `pos` words of
-- the first handed over.
pub data Mode : Type 0 where
  idle : Mode
  serving : ℕ → ℕ → ℕ → Mode

-- What is in the registers that a command reads, and what the drive is at. `lag` is how many
-- reads of the status it takes until the drive is ready.
pub record View : Type 0 where
  pub select : ℕ
  pub secs : ℕ
  pub low : ℕ
  pub mid : ℕ
  pub high : ℕ
  pub mode : Mode
  pub lag : ℕ

-- The address of 28 bits in the registers.
abbrev pub address : View → ℕ
address v = v.low + 2 ^ 8 * v.mid + 2 ^ 16 * v.high + 2 ^ 24 * (v.select % 2 ^ 4)

-- The mode after one more word, and after the command to read.
abbrev pub next_mode : Mode → Mode
next_mode idle = idle
next_mode (serving lba left pos) =
    if pos == 255
    then (if left == 1 then idle else serving (lba + 1) (left - 1) 0)
    else serving lba left (pos + 1)

-- Whether a status says that there is data, and no error.
abbrev pub is_ready : ℕ → Bool
is_ready s = not (is_err s) && not (is_df s) && not (is_bsy s) && is_drq s

abbrev pub is_waiting : ℕ → Bool
is_waiting s = not (is_err s) && not (is_df s) && is_bsy s

-- A drive whose sectors hold the words `image`, behind the registers at a base. It keeps what is
-- written to its registers. The command to read makes it serve the sectors from the address there,
-- as many as the count says. A status says that the drive is busy for at most `slow` reads after
-- a command or a sector, and then that it is idle or has data. It hands over its words in order.
pub record IsDrive {H : Type 0} (ports : Ports H) (base slow : ℕ) (image : ℕ → ℕ → ℕ)
    (view : H → View) : Type 0 where
  pub quick : slow < ata_timeout
  pub small : (lba pos : ℕ) → image lba pos < 2 ^ 16
  pub out_select :
      (h : H) (v : ℕ) → view (ports.outb h (port base ata_drive) v) ≡ record (view h) { select = v }
  pub out_secs :
      (h : H) (v : ℕ) → view (ports.outb h (port base ata_secs) v) ≡ record (view h) { secs = v }
  pub out_low :
      (h : H) (v : ℕ) → view (ports.outb h (port base ata_lbalow) v) ≡ record (view h) { low = v }
  pub out_mid :
      (h : H) (v : ℕ) → view (ports.outb h (port base ata_lbamid) v) ≡ record (view h) { mid = v }
  pub out_high :
      (h : H) (v : ℕ) → view (ports.outb h (port base ata_lbahigh) v) ≡ record (view h) { high = v }
  pub status_view :
      (h : H)
      → view (ports.inb h (port base ata_status)).1 ≡ record (view h) { lag = (view h).lag - 1 }
  pub status_waiting :
      (h : H) → 0 < (view h).lag → is_waiting (ports.inb h (port base ata_status)).0 ≡ true
  pub status_idle :
      (h : H)
      → (view h).lag ≡ 0
      → (view h).mode ≡ idle
      → is_bsy (ports.inb h (port base ata_status)).0 ≡ false
  pub status_ready :
      (h : H) (lba left pos : ℕ)
      → (view h).lag ≡ 0
      → (view h).mode ≡ serving lba left pos
      → is_ready (ports.inb h (port base ata_status)).0 ≡ true
  pub command :
      (h : H)
      → (view h).mode ≡ idle
      → ((view (ports.outb h (port base ata_cmd) 0x20)).mode
          ≡ serving (address (view h)) (if (view h).secs == 0 then 256 else (view h).secs) 0)
        × ((view (ports.outb h (port base ata_cmd) 0x20)).lag ≤ slow)
  pub word :
      (h : H) (lba left pos : ℕ)
      → (view h).lag ≡ 0
      → (view h).mode ≡ serving lba left pos
      → ((ports.inw h (port base ata_data)).0 ≡ image lba pos)
        × ((view (ports.inw h (port base ata_data)).1).mode ≡ next_mode (serving lba left pos))
        × ((view (ports.inw h (port base ata_data)).1).lag ≤ (if pos == 255 then slow else 0))
