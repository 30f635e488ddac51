-- ===== src/Pic.antt =====
-- drivers/pic.c and drivers/pit.c: the two interrupt controllers and the timer, over the ports.
mod Mask
use osdev.Prelude.{ℕ, ◌-◌, ◌/◌, ◌%◌, ◌^◌, ltb, leb, if◌then◌else◌, set_bit, clear_bit}
use osdev.Io.{Ports}

-- The port of the mask with an interrupt's bit, and the number of the bit.
abbrev pub mask_port : ℕ → ℕ
mask_port irq = if ltb irq 8 then 0x21 else 0xA1

abbrev pub mask_bit : ℕ → ℕ
mask_bit irq = if ltb irq 8 then irq else irq - 8

module _ {H : Type 0} (ports : Ports H) where
  unfoldable pub iowait : H → H
  iowait h = ports.outb h 0x80 0

  unfoldable pub out_wait : H → ℕ → ℕ → H
  out_wait h p v = iowait (ports.outb h p v)

  -- ICW1 to ICW4, to the first controller and the second in turn.
  unfoldable pub pic_remap : ℕ → ℕ → H → H
  pic_remap vec1 vec2 h =
      let h1 = out_wait (out_wait h 0x20 0x11) 0xA0 0x11 in
      let h2 = out_wait (out_wait h1 0x21 vec1) 0xA1 vec2 in
      let h3 = out_wait (out_wait h2 0x21 2) 0xA1 2 in out_wait (out_wait h3 0x21 1) 0xA1 1

  unfoldable pub pic_eoi : ℕ → H → H
  pic_eoi irq h = ports.outb (if leb 8 irq then ports.outb h 0xA0 0x20 else h) 0x20 0x20

  unfoldable pub pic_setmask : ℕ → ℕ → H → H
  pic_setmask m_mask s_mask h = ports.outb (ports.outb h 0x21 m_mask) 0xA1 s_mask

  -- The value is a uint8_t.
  unfoldable pub pic_mask : ℕ → H → H
  pic_mask irq h =
      let (value, h') = ports.inb h (mask_port irq) in
      ports.outb h' (mask_port irq) (set_bit value (mask_bit irq) % 2 ^ 8)

  unfoldable pub pic_unmask : ℕ → H → H
  pic_unmask irq h =
      let (value, h') = ports.inb h (mask_port irq) in
      ports.outb h' (mask_port irq) (clear_bit value (mask_bit irq) % 2 ^ 8)

  -- The two bytes of the divisor; the interrupt flag that `lock` and `unlock` switch is left out.
  unfoldable pub pit_set : ℕ → H → H
  pit_set div h =
      ports.outb (ports.outb (ports.outb h 0x43 0x36) 0x40 (div % 2 ^ 8)) 0x40 (div / 2 ^ 8 % 2 ^ 8)
