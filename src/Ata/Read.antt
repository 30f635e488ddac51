-- ===== src/Ata/Read.antt =====
-- A read from a drive, from the guards of `ata_read` to the words in memory.
use osdev.Prelude.{
  ℕ, zero, suc, ◌+◌, ◌-◌, ◌*◌, ◌/◌, ◌%◌, ◌^◌, ◌≤◌, ◌<◌, ◌≡◌, ◌≢◌, refl, sym, ap, ◌∙◌, subst, Bool,
  true, false, some, List, arith, ◌==◌, ltb, if◌then◌else◌,
}
use osdev.Io.{Ports, port}
use osdev.Ata.{
  ata_data, AtaController, Blkdev, Memory, store_word, ata_delay, read_words, ata_poll,
  read_sectors, base_of, ata_read, ata_wait_not_busy, program,
}
use osdev.Ata.Drive.{Mode, idle, serving, View, next_mode, IsDrive}
use osdev.Ata.Filled.{Filled, Filled-none, Filled-cong, Filled-cons, Filled-append}
use osdev.Ata.Wait.{ata_delay-view, ata_wait_not_busy-Done, ata_poll-Done, program-started}

-- Serving the sectors from `lba` on, as many as are left.
abbrev from_sector : ℕ → ℕ → Mode
from_sector lba zero = idle
from_sector lba (suc n) = serving lba (suc n) 0

after_last : (lba n : ℕ) → next_mode (serving lba (suc n) 255) ≡ from_sector (lba + 1) n
after_last lba zero = refl
after_last lba (suc n) =
    ap (λ b. if b then idle else serving (lba + 1) (suc (suc n) - 1) 0) more
    ∙ ap (λ k. serving (lba + 1) k 0) one_less
  where
    more : (suc (suc n) == 1) ≡ false
    more = ground arith

    one_less : suc (suc n) - 1 ≡ suc n
    one_less = omega arith

not_last :
    (lba left pos : ℕ)
    → (pos == 255) ≡ false
    → next_mode (serving lba left pos) ≡ serving lba left (pos + 1)
not_last lba left pos h =
    ap
      (λ b.
        if b
        then (if left == 1 then idle else serving (lba + 1) (left - 1) 0)
        else serving lba left (pos + 1))
      h

module _ {H : Type 0} (ports : Ports H) (base slow : ℕ) (image : ℕ → ℕ → ℕ) (view : H → View)
    (drive : IsDrive ports base slow image view) where
  -- The words of a sector from `pos` on.
  read_words-Filled :
      (n at pos lba left : ℕ) (h : H) (mem : Memory)
      → pos + suc n ≡ 256
      → at + 2 * suc n < 2 ^ 32
      → (view h).mode ≡ serving lba (suc left) pos
      → (view h).lag ≡ 0
      → (h' : H) × (mem' : Memory) × (read_words ports base at (suc n) h mem ≡ (h', mem'))
        × Filled mem mem' at (suc n) (λ i. image lba (pos + i))
        × ((view h').mode ≡ from_sector (lba + 1) left)
        × ((view h').lag ≤ slow)
  unfolding read_words
  read_words-Filled zero at pos lba left h mem whole fits m now =
      let (w, m', l') = drive.word h lba (suc left) pos now m in
      let last : pos ≡ 255 = omega arith in
      (
        (ports.inw h (port base ata_data)).1,
        store_word mem at (ports.inw h (port base ata_data)).0,
        refl,
        Filled-cons mem _ at 0 (ports.inw h (port base ata_data)).0 (λ i. image lba (pos + i))
            (subst (λ x. x < 2 ^ 16) (sym w) (drive.small lba pos)) fits (Filled-none _ (at + 2) _)
            (ap (image lba) (omega arith) ∙ sym w),
        m' ∙ ap (λ p. next_mode (serving lba (suc left) p)) last ∙ after_last lba left,
        subst
            (λ p. (view (ports.inw h (port base ata_data)).1).lag ≤ (if p == 255 then slow else 0))
            last l',
      )
  read_words-Filled (suc n) at pos lba left h mem whole fits m now =
      let (w, m', l') = drive.word h lba (suc left) pos now m in
      let more : (pos == 255) ≡ false = ground arith in
      let lag0 : (view (ports.inw h (port base ata_data)).1).lag ≤ 0 =
        subst (λ b. (view (ports.inw h (port base ata_data)).1).lag ≤ (if b then slow else 0)) more
          l' in
      let (h', mem', ran, filled, mode, lag) =
        read_words-Filled n (at + 2) (pos + 1) lba left (ports.inw h (port base ata_data)).1
          (store_word mem at (ports.inw h (port base ata_data)).0) (omega arith) (omega arith)
          (m' ∙ not_last lba (suc left) pos more) (omega arith) in
      (
        h',
        mem',
        ap
              (λ a.
                read_words ports base a (suc n) (ports.inw h (port base ata_data)).1
                  (store_word mem at (ports.inw h (port base ata_data)).0))
              (omega arith)
            ∙ ran,
        Filled-cons mem mem' at (suc n) (ports.inw h (port base ata_data)).0
            (λ i. image lba (pos + i)) (subst (λ x. x < 2 ^ 16) (sym w) (drive.small lba pos)) fits
            (Filled-cong _ mem' (at + 2) (suc n) _ _ (λ i h. ap (image lba) (omega arith)) filled)
            (ap (image lba) (omega arith) ∙ sym w),
        mode,
        lag,
      )

  -- The words of the sectors from `lba` on, one sector behind the other.
  abbrev pub sector_words : ℕ → ℕ → ℕ
  sector_words lba i = image (lba + i / 256) (i % 256)

  abbrev pub Transferred : ℕ × H × Memory → Memory → ℕ → ℕ → ℕ → Type 0
  Transferred r mem at lba count =
      (h' : H) × (mem' : Memory) × (r ≡ (0, h', mem'))
      × Filled mem mem' at (count * 256) (sector_words lba)
      × ((view h').mode ≡ idle)
      × ((view h').lag ≤ slow)

  -- One round of the loop, given what the poll and the words come to.
  read_sectors-step :
      (n s buf at : ℕ) (dev : Blkdev) (h h1 h2 : H) (mem mem2 : Memory)
      → ata_poll ports base h ≡ (true, h1)
      → (buf + s * dev.block_size) % 2 ^ 32 ≡ at
      → read_words ports base at 256 h1 mem ≡ (h2, mem2)
      → read_sectors ports base dev buf s (suc n) h mem
        ≡ read_sectors ports base dev buf (s + 1) n (ata_delay ports base h2) mem2
  unfolding read_sectors
  read_sectors-step n s buf at dev h h1 h2 mem mem2 polled place ran =
      ap
        (λ r.
          body r.0 r.1 (read_words ports base ((buf + s * dev.block_size) % 2 ^ 32) 256 r.1 mem))
        polled
      ∙ ap (λ a. body true h1 (read_words ports base a 256 h1 mem)) place
      ∙ ap (body true h1) ran
    where
      body : Bool → H → H × Memory → ℕ × H × Memory
      body ready h1 r = elim ready [
        | false ↦ (1, h1, mem)
        | true ↦ read_sectors ports base dev buf (s + 1) n (ata_delay ports base r.0) r.1
      ]

  read_sectors-Transferred :
      (n s lba buf : ℕ) (dev : Blkdev) (h : H) (mem : Memory)
      → dev.block_size ≡ 512
      → buf + (s + n) * 512 < 2 ^ 32
      → (view h).mode ≡ from_sector lba n
      → (view h).lag ≤ slow
      → Transferred (read_sectors ports base dev buf s n h mem) mem (buf + s * 512) lba n
  unfolding read_sectors
  read_sectors-Transferred zero s lba buf dev h mem block fits m lag =
      (h, mem, refl, Filled-none mem (buf + s * 512) (sector_words lba), m, lag)
  read_sectors-Transferred (suc n) s lba buf dev h mem block fits m lag =
      let (h1, polled, m1, now) =
        ata_poll-Done ports base slow image view drive h lba (suc n) 0 m lag in
      let (h2, mem2, ran, filled, m2, l2) =
        read_words-Filled 255 (buf + s * 512) 0 lba n h1 mem (omega arith) (omega arith) m1 now in
      let delayed = ata_delay-view ports base slow image view drive h2 in
      let (h3, mem3, rest, filled_rest, m3, l3) =
        read_sectors-Transferred n (s + 1) (lba + 1) buf dev (ata_delay ports base h2) mem2 block
          (omega (arith, fits)) (ap (λ v. v.mode) delayed ∙ m2)
          (omega (arith, l2, ap (λ v. v.lag) delayed)) in
      (
        h3,
        mem3,
        read_sectors-step n s buf (buf + s * 512) dev h h1 h2 mem mem2 polled place ran ∙ rest,
        subst (λ k. Filled mem mem3 (buf + s * 512) k (sector_words lba)) (omega arith)
            (Filled-append mem mem2 mem3 (buf + s * 512) 256 (n * 256) (sector_words lba)
              (omega (arith, fits))
              (Filled-cong mem mem2 (buf + s * 512) 256 _ _ (λ i h. in_first i h) filled)
              (subst (λ a. Filled mem2 mem3 a (n * 256) (λ i. sector_words lba (256 + i)))
                (omega arith)
                (Filled-cong mem2 mem3 (buf + (s + 1) * 512) (n * 256) _ _ (λ i h. in_rest i)
                  filled_rest))),
        m3,
        l3,
      )
    where
      place : (buf + s * dev.block_size) % 2 ^ 32 ≡ buf + s * 512
      place = ap (λ k. (buf + s * k) % 2 ^ 32) block ∙ omega (arith, fits)

      in_first : (i : ℕ) → i < 256 → image lba (0 + i) ≡ sector_words lba i
      in_first i h = ap (image lba) (omega arith) ∙ ap (λ k. image k (i % 256)) (omega arith)

      in_rest : (i : ℕ) → sector_words (lba + 1) i ≡ sector_words lba (256 + i)
      in_rest i =
          ap (λ k. image k (i % 256)) (omega arith)
          ∙ ap (image (lba + (256 + i) / 256)) (omega arith)

  -- The guards of `ata_read`, passed.
  ata_read-passed :
      (controllers : List AtaController) (dev : Blkdev) (buf lba count : ℕ) (h h1 : H)
      (mem : Memory)
      → base_of controllers dev ≡ some base
      → base ≢ 0
      → 0 < count
      → count ≤ dev.nblocks
      → buf ≢ 0
      → ata_wait_not_busy ports base h ≡ (true, h1)
      → ata_read ports controllers dev buf lba count h mem
        ≡ some (
            read_sectors ports base dev buf 0 count
              (program ports base dev.id lba count 0x20 h1)
              mem)
  unfolding ata_read
  ata_read-passed controllers dev buf lba count h h1 mem found nonzero pos known real waited =
      rw (ata_read, some_count, in_range, a_buffer, found, waited, a_base) refl
    where
      some_count : (count == 0) ≡ false
      some_count = ground arith

      in_range : ltb dev.nblocks count ≡ false
      in_range = ground arith

      a_buffer : (buf == 0) ≡ false
      a_buffer = ground arith

      a_base : (base == 0) ≡ false
      a_base = ground arith

-- A read of 1 to 255 sectors of 512 bytes, at an address below 2 ^ 28, from a drive that is idle or
-- so after at most `slow` reads of its status, where the list has the device's controller with a
-- base that is not 0, the device has that many sectors at least, and the buffer is not NULL and
-- ends below the top of memory: `ata_read` returns 0, memory has the words of the sectors from
-- `lba` on from the buffer's address on and is else as it was, and the drive is idle.
pub ata_read-Transferred :
    {H : Type 0} (ports : Ports H) (base slow : ℕ) (image : ℕ → ℕ → ℕ) (view : H → View)
    (controllers : List AtaController) (dev : Blkdev) (buf lba count : ℕ) (h : H) (mem : Memory)
    → IsDrive ports base slow image view
    → (view h).mode ≡ idle
    → (view h).lag ≤ slow
    → base_of controllers dev ≡ some base
    → base ≢ 0
    → dev.block_size ≡ 512
    → 0 < count
    → count < 256
    → count ≤ dev.nblocks
    → lba < 2 ^ 28
    → buf ≢ 0
    → buf + count * 512 < 2 ^ 32
    → (h' : H) × (mem' : Memory) × (ata_read ports controllers dev buf lba count h mem
        ≡ some (0, h', mem'))
      × Filled mem mem' buf (count * 256) (λ i. image (lba + i / 256) (i % 256))
      × ((view h').mode ≡ idle)
ata_read-Transferred ports base slow image view controllers dev buf lba count h mem drive m lag
      found nonzero block pos few known small real fits =
    let (h1, waited, m1, now) = ata_wait_not_busy-Done ports base slow image view drive h m lag in
    let (m2, l2) =
      program-started ports base slow image view drive dev.id lba count h1 m1 small pos few in
    let (h', mem', ran, filled, m3, l3) =
      read_sectors-Transferred ports base slow image view drive count 0 lba buf dev
        (program ports base dev.id lba count 0x20 h1) mem block (omega arith)
        (m2 ∙ going lba count pos) l2 in
    (
      h',
      mem',
      ata_read-passed ports base slow image view drive controllers dev buf lba count h h1 mem found
            nonzero pos known real waited
          ∙ ap some ran,
      subst (λ a. Filled mem mem' a (count * 256) (λ i. image (lba + i / 256) (i % 256)))
          (omega arith) filled,
      m3,
    )
  where
    going : (lba count : ℕ) → 0 < count → serving lba count 0 ≡ from_sector lba count
    going lba zero h = absurd (omega arith)
    going lba (suc n) h = refl
