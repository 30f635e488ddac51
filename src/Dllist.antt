-- ===== src/Dllist.antt =====
-- lib/list/dllist.c and include/kernel/dllist.h: a list of nodes linked both ways, over memory that
-- holds a node at each address; 0 is NULL. `entry` is the address that `kmalloc` returns. `none` is
-- an access through NULL, or the end of the fuel of a loop.
pub mod Chain
pub mod Sequence
mod Tests
use osdev.Prelude.{
  ℕ, zero, suc, ◌+◌, ◌%◌, ◌^◌, Bool, true, false, ◌||◌, Option, none, some, ◌==◌, if◌then◌else◌,
}

-- `dllist_t`
pub record Node : Type 0 where
  pub data_of : ℕ
  pub next : ℕ
  pub prev : ℕ

abbrev pub Nodes : Type 0
Nodes = ℕ → Node

abbrev pub put_node : Nodes → ℕ → Node → Nodes
put_node nodes at node x = if x == at then node else nodes x

-- The new list, 0 if there is no memory.
unfoldable pub dllist_create : Nodes → ℕ → Nodes
dllist_create nodes entry =
    if entry == 0 then nodes else put_node nodes entry (record (nodes entry) { next = 0; prev = 0 })

-- The loops to the last node and to the first.
unfoldable pub last_node : ℕ → Nodes → ℕ → Option ℕ
last_node zero nodes ptr = none
last_node (suc fuel) nodes ptr = elim ((nodes ptr).next == 0) [
  | true ↦ some ptr
  | false ↦ last_node fuel nodes (nodes ptr).next
]

unfoldable pub first_node : ℕ → Nodes → ℕ → Option ℕ
first_node zero nodes ptr = none
first_node (suc fuel) nodes ptr = elim ((nodes ptr).prev == 0) [
  | true ↦ some ptr
  | false ↦ first_node fuel nodes (nodes ptr).prev
]

abbrev pub set_next : Nodes → ℕ → ℕ → Nodes
set_next nodes at ptr = put_node nodes at (record (nodes at) { next = ptr })

abbrev pub set_prev : Nodes → ℕ → ℕ → Nodes
set_prev nodes at ptr = put_node nodes at (record (nodes at) { prev = ptr })

-- The links of a new node behind `ptr`, and of one before it.
unfoldable pub link_last : Nodes → ℕ → ℕ → Nodes
link_last nodes ptr entry = set_next (set_prev nodes entry ptr) ptr entry

unfoldable pub link_first : Nodes → ℕ → ℕ → Nodes
link_first nodes ptr entry = set_prev (set_next nodes entry ptr) ptr entry

-- The entry is filled before the walk to the last node, which reads its links.
unfoldable pub dllist_append : ℕ → Nodes → ℕ → ℕ → ℕ → Option Nodes
unfolding last_node link_last
dllist_append fuel nodes list entry value =
    let nodes' = put_node nodes entry (record (nodes entry) { data_of = value; next = 0 }) in
    if (entry == 0) || (list == 0) then none else elim (last_node fuel nodes' list) [
      | none ↦ none
      | some ptr ↦ some (link_last nodes' ptr entry)
    ]

unfoldable pub dllist_prepend : ℕ → Nodes → ℕ → ℕ → ℕ → Option Nodes
unfolding first_node link_first
dllist_prepend fuel nodes list entry value =
    let nodes' = put_node nodes entry (record (nodes entry) { data_of = value; prev = 0 }) in
    if (entry == 0) || (list == 0) then none else elim (first_node fuel nodes' list) [
      | none ↦ none
      | some ptr ↦ some (link_first nodes' ptr entry)
    ]

-- At most n steps along `next`, up to NULL.
unfoldable pub steps : Nodes → ℕ → ℕ → ℕ
steps nodes ptr zero = ptr
steps nodes ptr (suc n) = elim (ptr == 0) [ true ↦ 0 | false ↦ steps nodes (nodes ptr).next n ]

-- `idx + 1`, for the root, in a size_t.
unfoldable pub dllist_get : Nodes → ℕ → ℕ → ℕ
unfolding steps
dllist_get nodes list idx =
    let ptr = steps nodes list ((idx + 1) % 2 ^ 32) in if ptr == 0 then 0 else (nodes ptr).data_of

-- The nodes afterwards; what is freed is left as it was.
unfoldable pub dllist_remove : Nodes → ℕ → ℕ → Option Nodes
unfolding steps
dllist_remove nodes list idx =
    let ptr = steps nodes list ((idx + 1) % 2 ^ 32) in
    let before = (nodes ptr).prev in
    let nodes' = set_next nodes before (nodes ptr).next in
    let after = (nodes' ptr).next in
    if (ptr == 0) || (before == 0)
    then none
    else if after == 0
    then none
    else some (set_prev nodes' after (nodes' ptr).prev)

-- How many nodes there are from a pointer on, one way and the other.
unfoldable pub count_next : ℕ → Nodes → ℕ → Option ℕ
count_next zero nodes cur = none
count_next (suc fuel) nodes cur = elim (cur == 0) [
  | true ↦ some 0
  | false ↦ elim (count_next fuel nodes (nodes cur).next) [ none ↦ none | some n ↦ some (suc n) ]
]

unfoldable pub count_prev : ℕ → Nodes → ℕ → Option ℕ
count_prev zero nodes cur = none
count_prev (suc fuel) nodes cur = elim (cur == 0) [
  | true ↦ some 0
  | false ↦ elim (count_prev fuel nodes (nodes cur).prev) [ none ↦ none | some n ↦ some (suc n) ]
]

unfoldable pub dllist_len : ℕ → Nodes → ℕ → Option ℕ
unfolding count_next count_prev
dllist_len fuel nodes list = elim (count_next fuel nodes (nodes list).next) [
  | none ↦ none
  | some n ↦ elim (count_prev fuel nodes (nodes list).prev) [
    | none ↦ none
    | some m ↦ some ((n + m) % 2 ^ 32)
  ]
]
