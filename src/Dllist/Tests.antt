-- ===== src/Dllist/Tests.antt =====
-- A list of one node, and a second one.
use osdev.Prelude.{◌≡◌, ◌==◌, if◌then◌else◌, refl, some, none, [], ◌∷◌, arith}
use osdev.Dllist.{Nodes, steps, dllist_append, dllist_remove, dllist_get, dllist_len}
use osdev.Dllist.Chain.{Entries}
use osdev.Dllist.Sequence.{IsList, dllist_append-sequence}

abbrev no_nodes : Nodes
no_nodes x = record { data_of = 0; next = 0; prev = 0 }

abbrev one_node : Nodes
one_node x =
    if x == 8
    then record { data_of = 0; next = 24; prev = 0 }
    else if x == 24
    then record { data_of = 100; next = 0; prev = 8 }
    else no_nodes x

abbrev one_entry : Entries
one_entry = (24, 100) ∷ []

one_node-IsList : IsList one_node 8 one_entry
one_node-IsList = record {
  real = omega arith;
  chain = (refl, omega arith, refl, refl, refl);
  distinct = ((omega arith, tt), tt);
  first = refl;
}

dllist_append-sequence_example :
    (nodes' : Nodes) × (dllist_append 3 one_node 8 40 200 ≡ some nodes')
    × IsList nodes' 8 ((24, 100) ∷ (40, 200) ∷ [])
    × (dllist_get nodes' 8 1 ≡ 200)
    × (dllist_len 3 nodes' 8 ≡ some 2)
dllist_append-sequence_example =
    dllist_append-sequence one_node 8 40 200 3 1 one_entry one_node-IsList (omega arith)
      (omega arith, tt) (omega arith) (omega arith) (omega arith) (omega arith)

-- The last entry cannot be removed.
dllist_remove-last : dllist_remove one_node 8 0 ≡ none
unfolding dllist_remove steps
dllist_remove-last = refl
