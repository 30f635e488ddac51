-- ===== src/Block.antt =====
-- block/block.c: the registry of block devices, over the list. `entry` is the address that the heap
-- returns for a node, and `fuel` that of the list's loops. The message is left out.
mod Registry
use osdev.Prelude.{ℕ, ◌+◌, ◌%◌, ◌^◌, Option, none, some}
use osdev.Dllist.{Nodes, dllist_create, dllist_append, dllist_get}

pub record Blkdevs : Type 0 where
  pub nodes : Nodes
  pub devices : ℕ
  pub dev_count : ℕ

unfoldable pub blkdev_init : Nodes → ℕ → Blkdevs
unfolding dllist_create
blkdev_init nodes entry = record {
  nodes = dllist_create nodes entry;
  devices = entry;
  dev_count = 0;
}

unfoldable pub add_blkdev : ℕ → Blkdevs → ℕ → ℕ → Option Blkdevs
unfolding dllist_append
add_blkdev fuel s entry dev = elim (dllist_append fuel s.nodes s.devices entry dev) [
  | none ↦ none
  | some nodes' ↦ some (record s { nodes = nodes'; dev_count = (s.dev_count + 1) % 2 ^ 32 })
]

unfoldable pub default_blkdev : Blkdevs → ℕ
unfolding dllist_get
default_blkdev s = dllist_get s.nodes s.devices 0
