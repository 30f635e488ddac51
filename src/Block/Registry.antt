-- ===== src/Block/Registry.antt =====
-- The registered devices as a sequence.
use osdev.Prelude.{
  ℕ, ◌+◌, ◌%◌, ◌^◌, ◌<◌, ◌≡◌, ◌≢◌, refl, ap, ◌∙◌, Option, none, some, [], ◌∷◌, ◌++◌, length,
  length-append, arith, if◌then◌else◌,
}
use osdev.Dllist.{Nodes, dllist_create, put_node}
use osdev.Dllist.Chain.{Entries, Absent, put_node-same, not_equal}
use osdev.Dllist.Sequence.{IsList, data_at, dllist_append-sequence}
use osdev.Block.{Blkdevs, blkdev_init, add_blkdev, default_blkdev}

-- The list has the devices in the order in which they were added, and the count is right.
pub record IsRegistry (s : Blkdevs) (es : Entries) : Type 0 where
  pub list : IsList s.nodes s.devices es
  pub counted : s.dev_count ≡ length es % 2 ^ 32

pub blkdev_init-IsRegistry :
    (nodes : Nodes) (entry : ℕ) → entry ≢ 0 → IsRegistry (blkdev_init nodes entry) []
unfolding blkdev_init dllist_create
blkdev_init-IsRegistry nodes entry real = record {
  list = record {
    real = real;
    chain = ap (λ n. n.next) created;
    distinct = tt;
    first = ap (λ n. n.prev) created;
  };
  counted = refl;
}
  where
    created : dllist_create nodes entry entry ≡ record (nodes entry) { next = 0; prev = 0 }
    created =
        ap
          (λ b.
            (if b
                then nodes
                else put_node nodes entry (record (nodes entry) { next = 0; prev = 0 }))
              entry)
          (not_equal entry 0 real)
        ∙ put_node-same nodes entry (record (nodes entry) { next = 0; prev = 0 })

-- A device is added behind the others, with a node of its own, and the default device is the one
-- that was added first.
pub add_blkdev-IsRegistry :
    (s : Blkdevs) (fuel entry dev : ℕ) (es : Entries)
    → IsRegistry s es
    → s.devices ≢ entry
    → Absent entry es
    → entry ≢ 0
    → length es + 1 < fuel
    → length es + 1 < 2 ^ 32
    → (s' : Blkdevs) × (add_blkdev fuel s entry dev ≡ some s')
      × IsRegistry s' (es ++ ((entry, dev) ∷ []))
      × (default_blkdev s' ≡ data_at (es ++ ((entry, dev) ∷ [])) 0)
unfolding add_blkdev default_blkdev
add_blkdev-IsRegistry s fuel entry dev es h new absent real enough small =
    let (nodes', result, list, get, len) =
      dllist_append-sequence s.nodes s.devices entry dev fuel 0 es h.list new absent real enough
        small (omega arith) in
    let longer : length (es ++ ((entry, dev) ∷ [])) ≡ length es + 1 =
      length-append es ((entry, dev) ∷ []) in
    (
      record s { nodes = nodes'; dev_count = (s.dev_count + 1) % 2 ^ 32 },
      ap added result,
      record { list = list; counted = omega (arith, longer, h.counted) },
      get,
    )
  where
    added : Option Nodes → Option Blkdevs
    added r = elim r [
      | none ↦ none
      | some nodes' ↦ some (record s { nodes = nodes'; dev_count = (s.dev_count + 1) % 2 ^ 32 })
    ]
