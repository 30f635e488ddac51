-- ===== src/Io.antt =====
-- arch/x86/include/io.h: the ports of the machine, which are outside the program. `H` is what is behind them.
use osdev.Prelude.{ℕ, ◌+◌, ◌%◌, ◌^◌}

pub record Ports (H : Type 0) : Type 0 where
  pub inb : H → ℕ → ℕ × H
  pub outb : H → ℕ → ℕ → H
  pub inw : H → ℕ → ℕ × H
  pub outw : H → ℕ → ℕ → H

-- A port beside a base; ports are a uint16_t.
abbrev pub port : ℕ → ℕ → ℕ
port base off = (base + off) % 2 ^ 16
