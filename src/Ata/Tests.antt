-- ===== src/Ata/Tests.antt =====
-- A drive at 0x1F0 that takes two reads of its status after each command and each sector.
use osdev.Prelude.{
  ℕ, ◌+◌, ◌-◌, ◌/◌, ◌%◌, ◌^◌, ◌≤◌, ◌<◌, ◌≡◌, refl, sym, ap, ◌∙◌, subst, true, false, some, List, [],
  ◌∷◌, arith, ◌==◌, if◌then◌else◌,
}
use osdev.Io.{Ports}
use osdev.Ata.{AtaController, Blkdev, Memory, ata_read, is_bsy, base_of}
use osdev.Ata.Drive.{Mode, idle, serving, View, address, next_mode, is_ready, is_waiting, IsDrive}
use osdev.Ata.Filled.{Filled}
use osdev.Ata.Read.{ata_read-Transferred}

abbrev sectors : ℕ → ℕ → ℕ
sectors lba pos = (lba + pos) % 2 ^ 16

abbrev mode_status : Mode → ℕ
mode_status idle = 0x40
mode_status (serving lba left pos) = 0x48

abbrev word_of : Mode → ℕ
word_of idle = 0
word_of (serving lba left pos) = sectors lba pos

abbrev next_lag : Mode → ℕ
next_lag idle = 0
next_lag (serving lba left pos) = if pos == 255 then 2 else 0

abbrev write_register : View → ℕ → ℕ → View
write_register v p x =
    if p == 0x1F6
    then record v { select = x }
    else if p == 0x1F2
    then record v { secs = x }
    else if p == 0x1F3
    then record v { low = x }
    else if p == 0x1F4
    then record v { mid = x }
    else if p == 0x1F5
    then record v { high = x }
    else record v { mode = serving (address v) (if v.secs == 0 then 256 else v.secs) 0; lag = 2 }

abbrev drive_ports : Ports View
drive_ports = record {
  inb = λ v p. ((if v.lag == 0 then mode_status v.mode else 0x80), record v { lag = v.lag - 1 });
  outb = write_register;
  inw = λ v p. (word_of v.mode, record v { mode = next_mode v.mode; lag = next_lag v.mode });
  outw = λ v p x. v;
}

abbrev itself : View → View
itself v = v

at_rest :
    (v : View) → v.lag ≡ 0 → (if v.lag == 0 then mode_status v.mode else 0x80) ≡ mode_status v.mode
at_rest v h = ap (λ n. if n == 0 then mode_status v.mode else 0x80) h

drive_ports-IsDrive : IsDrive drive_ports 0x1F0 2 sectors itself
drive_ports-IsDrive = record {
  quick = omega arith;
  small = λ lba pos. omega arith;
  out_select = λ v x. refl;
  out_secs = λ v x. refl;
  out_low = λ v x. refl;
  out_mid = λ v x. refl;
  out_high = λ v x. refl;
  status_view = λ v. refl;
  status_waiting = λ v h. busy v h;
  status_idle = λ v h m. ap is_bsy (at_rest v h) ∙ ap (λ m. is_bsy (mode_status m)) m;
  status_ready =
      λ v lba left pos h m. ap is_ready (at_rest v h) ∙ ap (λ m. is_ready (mode_status m)) m;
  command = λ v m. (refl, omega arith);
  word = λ v lba left pos h m. (
    ap word_of m,
    ap next_mode m,
    subst (λ m. next_lag m ≤ (if pos == 255 then 2 else 0)) (sym m) (omega arith),
  );
}
  where
    busy :
        (v : View) → 0 < v.lag → is_waiting (if v.lag == 0 then mode_status v.mode else 0x80) ≡ true
    busy v h = ap (λ b. is_waiting (if b then mode_status v.mode else 0x80)) not_zero
      where
        not_zero : (v.lag == 0) ≡ false
        not_zero = ground arith

abbrev one_controller : List AtaController
one_controller = record { base0 = 0x1F0; base1 = 0x170 } ∷ []

abbrev first_disk : Blkdev
first_disk = record { id = 0; block_size = 512; nblocks = 100 }

abbrev nothing : Memory
nothing x = 0

abbrev at_start : View
at_start = record { select = 0; secs = 0; low = 0; mid = 0; high = 0; mode = idle; lag = 0 }

ata_read-Transferred_example :
    (h' : View) × (mem' : Memory) × (ata_read drive_ports one_controller first_disk 0x1000 5 2
        at_start nothing
      ≡ some (0, h', mem'))
    × Filled nothing mem' 0x1000 512 (λ i. sectors (5 + i / 256) (i % 256))
    × (h'.mode ≡ idle)
unfolding base_of
ata_read-Transferred_example =
    ata_read-Transferred drive_ports 0x1F0 2 sectors itself one_controller first_disk 0x1000 5 2
      at_start nothing drive_ports-IsDrive refl (omega arith) refl (omega arith) refl (omega arith)
      (omega arith) (omega arith) (omega arith) (omega arith) (omega arith)
