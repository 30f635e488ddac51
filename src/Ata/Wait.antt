-- ===== src/Ata/Wait.antt =====
-- The loops on the status of a drive, and the programming of its registers.
use osdev.Prelude.{
  ℕ, zero, suc, ◌+◌, ◌-◌, ◌*◌, ◌/◌, ◌%◌, ◌^◌, ◌≤◌, ◌<◌, ◌≡◌, refl, ap, ◌∙◌, inl, inr, Bool, true,
  false, not, ◌&&◌, arith, ◌==◌, if◌then◌else◌, ◌⊎◌,
}
use osdev.Io.{Ports, port}
use osdev.Ata.{
  ata_timeout, ata_status, is_err, is_df, is_drq, is_bsy, ata_delay, wait_loop, ata_wait_not_busy,
  poll_loop, ata_poll, program_registers, program,
}
use osdev.Ata.Drive.{Mode, idle, serving, View, address, is_ready, is_waiting, IsDrive}

abbrev tick : View → View
tick v = record v { lag = v.lag - 1 }

waiting-facts :
    (s : ℕ) → is_waiting s ≡ true → (is_err s ≡ false) × (is_df s ≡ false) × (is_bsy s ≡ true)
waiting-facts s h = from (is_err s) (is_df s) (is_bsy s) h
  where
    from : (a b c : Bool) → (not a && not b && c) ≡ true → (a ≡ false) × (b ≡ false) × (c ≡ true)
    from false false true h = (refl, refl, refl)
    from false false false h = ground arith
    from false true c h = ground arith
    from true b c h = ground arith

ready-facts :
    (s : ℕ)
    → is_ready s ≡ true
    → (is_err s ≡ false) × (is_df s ≡ false) × ((not (is_bsy s) && is_drq s) ≡ true)
ready-facts s h = from (is_err s) (is_df s) (is_bsy s) (is_drq s) h
  where
    from :
        (a b c d : Bool)
        → (not a && not b && not c && d) ≡ true
        → (a ≡ false) × (b ≡ false) × ((not c && d) ≡ true)
    from false false false true h = (refl, refl, refl)
    from false false false false h = ground arith
    from false false true d h = ground arith
    from false true c d h = ground arith
    from true b c d h = ground arith

lag_cases : (n : ℕ) → (n ≡ 0) ⊎ (0 < n)
lag_cases zero = inl refl
lag_cases (suc n) = inr (omega arith)

module _ {H : Type 0} (ports : Ports H) (base slow : ℕ) (image : ℕ → ℕ → ℕ) (view : H → View)
    (drive : IsDrive ports base slow image view) where
  pub ata_delay-view : (h : H) → view (ata_delay ports base h) ≡ tick (tick (tick (tick (view h))))
  unfolding ata_delay
  ata_delay-view h =
      drive.status_view _
      ∙ ap tick
          (drive.status_view _ ∙ ap tick (drive.status_view _ ∙ ap tick (drive.status_view h)))

  -- What the wait for an idle drive, and the poll for data, come to.
  abbrev pub Done : (Bool × H) → Mode → Type 0
  Done r mode = (h' : H) × (r ≡ (true, h')) × ((view h').mode ≡ mode) × ((view h').lag ≡ 0)

  wait_loop-Done :
      (n : ℕ) (h : H)
      → (view h).mode ≡ idle
      → (view h).lag < n
      → Done (wait_loop ports base n h) idle
  unfolding wait_loop
  wait_loop-Done zero h m few = elim few [ ]
  wait_loop-Done (suc n) h m few = elim (lag_cases (view h).lag) [
    | inl now ↦ (
      (ports.inb h (port base ata_status)).1,
      rw (wait_loop, drive.status_idle h now m) refl,
      ap (λ v. v.mode) (drive.status_view h) ∙ m,
      ap (λ v. v.lag) (drive.status_view h) ∙ omega (arith, now),
    )
    | inr later ↦
        let (no_err, no_df, busy) =
          waiting-facts (ports.inb h (port base ata_status)).0 (drive.status_waiting h later) in
        let (h', ran, m', l') =
          wait_loop-Done n (ports.inb h (port base ata_status)).1
            (ap (λ v. v.mode) (drive.status_view h) ∙ m)
            (omega (arith, later, few, ap (λ v. v.lag) (drive.status_view h))) in
        (h', rw (wait_loop, busy) ran, m', l')
  ]

  poll_loop-Done :
      (n : ℕ) (h : H) (lba left pos : ℕ)
      → (view h).mode ≡ serving lba left pos
      → (view h).lag < n
      → Done (poll_loop ports base n h) (serving lba left pos)
  unfolding poll_loop
  poll_loop-Done zero h lba left pos m few = elim few [ ]
  poll_loop-Done (suc n) h lba left pos m few = elim (lag_cases (view h).lag) [
    | inl now ↦
        let (no_err, no_df, data_there) =
          ready-facts (ports.inb h (port base ata_status)).0
            (drive.status_ready h lba left pos now m) in
        (
          (ports.inb h (port base ata_status)).1,
          rw (poll_loop, no_err, no_df, data_there) refl,
          ap (λ v. v.mode) (drive.status_view h) ∙ m,
          ap (λ v. v.lag) (drive.status_view h) ∙ omega (arith, now),
        )
    | inr later ↦
        let (no_err, no_df, busy) =
          waiting-facts (ports.inb h (port base ata_status)).0 (drive.status_waiting h later) in
        let (h', ran, m', l') =
          poll_loop-Done n (ports.inb h (port base ata_status)).1 lba left pos
            (ap (λ v. v.mode) (drive.status_view h) ∙ m)
            (omega (arith, later, few, ap (λ v. v.lag) (drive.status_view h))) in
        (h', rw (poll_loop, no_err, no_df, busy) ran, m', l')
  ]

  pub ata_wait_not_busy-Done :
      (h : H)
      → (view h).mode ≡ idle
      → (view h).lag ≤ slow
      → Done (ata_wait_not_busy ports base h) idle
  unfolding ata_wait_not_busy
  ata_wait_not_busy-Done h m few = wait_loop-Done ata_timeout h m (omega (arith, drive.quick))

  pub ata_poll-Done :
      (h : H) (lba left pos : ℕ)
      → (view h).mode ≡ serving lba left pos
      → (view h).lag ≤ slow
      → Done (ata_poll ports base h) (serving lba left pos)
  unfolding ata_poll
  ata_poll-Done h lba left pos m few =
      poll_loop-Done ata_timeout (ata_delay ports base h) lba left pos
        (ap (λ v. v.mode) (ata_delay-view h) ∙ m)
        (omega (arith, drive.quick, ap (λ v. v.lag) (ata_delay-view h)))

  abbrev selected : ℕ → ℕ → View → View
  selected id lba v = record v { select = 0xE0 + lba / 2 ^ 24 % 2 ^ 4 + id % 2 * 2 ^ 4 }

  abbrev counted : ℕ → View → View
  counted count v = record v { secs = count % 2 ^ 8 }

  abbrev set_low : ℕ → View → View
  set_low lba v = record v { low = lba % 2 ^ 8 }

  abbrev set_mid : ℕ → View → View
  set_mid lba v = record v { mid = lba / 2 ^ 8 % 2 ^ 8 }

  abbrev set_high : ℕ → View → View
  set_high lba v = record v { high = lba / 2 ^ 16 % 2 ^ 8 }

  abbrev addressed : ℕ → View → View
  addressed lba v = set_high lba (set_mid lba (set_low lba v))

  -- The registers before the command.
  program_registers-view :
      (id lba count : ℕ) (h : H)
      → view (program_registers ports base id lba count h)
        ≡ addressed lba (counted count (tick (tick (tick (tick (selected id lba (view h)))))))
  unfolding program_registers
  program_registers-view id lba count h =
      drive.out_high _ _
      ∙ ap (set_high lba) (
          drive.out_mid _ _
          ∙ ap (set_mid lba) (
              drive.out_low _ _
              ∙ ap (set_low lba) (
                  drive.out_secs _ _
                  ∙ ap (counted count) (
                      ata_delay-view _
                      ∙ ap (λ v. tick (tick (tick (tick v)))) (drive.out_select _ _)))))

  address-lba :
      (id lba count : ℕ) (v : View)
      → lba < 2 ^ 28
      → address (addressed lba (counted count (tick (tick (tick (tick (selected id lba v)))))))
        ≡ lba
  address-lba id lba count v small = omega arith

  -- A drive that is idle is set going at the address and for the count that were asked for.
  pub program-started :
      (id lba count : ℕ) (h : H)
      → (view h).mode ≡ idle
      → lba < 2 ^ 28
      → 0 < count
      → count < 256
      → ((view (program ports base id lba count 0x20 h)).mode ≡ serving lba count 0)
        × ((view (program ports base id lba count 0x20 h)).lag ≤ slow)
  unfolding program
  program-started id lba count h m small pos few =
      let registers = program_registers-view id lba count h in
      let (mode, lag) =
        drive.command (program_registers ports base id lba count h)
          (ap (λ v. v.mode) registers ∙ m) in
      (
        mode
            ∙ ap (λ v. serving (address v) (if v.secs == 0 then 256 else v.secs) 0) registers
            ∙ ap (λ a. serving a (if count % 2 ^ 8 == 0 then 256 else count % 2 ^ 8) 0)
                (address-lba id lba count (view h) small)
            ∙ ap (λ n. serving lba n 0) whole,
        lag,
      )
    where
      whole : (if count % 2 ^ 8 == 0 then 256 else count % 2 ^ 8) ≡ count
      whole = ground arith
