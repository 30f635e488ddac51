-- ===== src/Dllist/Chain.antt =====
-- The nodes behind the root of a list, as a sequence of addresses with their data.
use osdev.Prelude.{
  ℕ, zero, suc, ◌<◌, ◌≡◌, ◌≢◌, refl, sym, ap, ◌∙◌, Bool, true, false, Option, some, List, [], ◌∷◌,
  ◌++◌, arith, ◌==◌, if◌then◌else◌, length, ℕ_discrete,
}
use osdev.Dllist.{Node, Nodes, put_node, set_prev, last_node, link_last}

abbrev pub Entries : Type 0
Entries = List (ℕ × ℕ)

-- From the node at p the links lead to the entries, and back, and no further.
abbrev pub Chain : Nodes → ℕ → Entries → Type 0
Chain nodes p [] = (nodes p).next ≡ 0
Chain nodes p (e ∷ es) =
    ((nodes p).next ≡ e.0)
    × (e.0 ≢ 0)
    × ((nodes e.0).data_of ≡ e.1)
    × ((nodes e.0).prev ≡ p)
    × Chain nodes e.0 es

abbrev pub Absent : ℕ → Entries → Type 0
Absent x [] = Unit
Absent x (e ∷ es) = (x ≢ e.0) × Absent x es

-- No node twice.
abbrev pub Distinct : ℕ → Entries → Type 0
Distinct p [] = Unit
Distinct p (e ∷ es) = Absent p (e ∷ es) × Distinct e.0 es

abbrev pub end_of : ℕ → Entries → ℕ
end_of p [] = p
end_of p (e ∷ es) = end_of e.0 es

pub not_equal : (x y : ℕ) → x ≢ y → (x == y) ≡ false
not_equal x y h = ground arith

pub put_node-other :
    (nodes : Nodes) (at x : ℕ) (node : Node) → x ≢ at → put_node nodes at node x ≡ nodes x
put_node-other nodes at x node h = ap (λ b. if b then node else nodes x) (not_equal x at h)

pub put_node-same : (nodes : Nodes) (at : ℕ) (node : Node) → put_node nodes at node at ≡ node
put_node-same nodes at node = ap (λ b. if b then node else nodes at) same
  where
    same : (at == at) ≡ true
    same = ground arith

pub Absent-end_of : (x p : ℕ) (es : Entries) → x ≢ p → Absent x es → x ≢ end_of p es
Absent-end_of x p [] h a = h
Absent-end_of x p (e ∷ es) h a = Absent-end_of x e.0 es a.0 a.1

pub Chain-put_node :
    (nodes : Nodes) (at p : ℕ) (node : Node) (es : Entries)
    → p ≢ at
    → Absent at es
    → Chain nodes p es
    → Chain (put_node nodes at node) p es
Chain-put_node nodes at p node [] h a c = ap (λ n. n.next) (put_node-other nodes at p node h) ∙ c
Chain-put_node nodes at p node (e ∷ es) h a (next, real, value, prev, rest) = (
  ap (λ n. n.next) (put_node-other nodes at p node h) ∙ next,
  real,
  ap (λ n. n.data_of) (put_node-other nodes at e.0 node (λ q. a.0 (sym q))) ∙ value,
  ap (λ n. n.prev) (put_node-other nodes at e.0 node (λ q. a.0 (sym q))) ∙ prev,
  Chain-put_node nodes at e.0 node es (λ q. a.0 (sym q)) a.1 rest,
)

pub last_node-end_of :
    (fuel : ℕ) (nodes : Nodes) (p : ℕ) (es : Entries)
    → Chain nodes p es
    → length es < fuel
    → last_node fuel nodes p ≡ some (end_of p es)
unfolding last_node
last_node-end_of zero nodes p es c enough = absurd (omega arith)
last_node-end_of (suc fuel) nodes p [] c enough = rw (last_node, c) refl
last_node-end_of (suc fuel) nodes p (e ∷ es) (next, real, value, prev, rest) enough =
    ap step (ap (λ q. q == 0) next ∙ not_equal e.0 0 real)
    ∙ ap (last_node fuel nodes) next
    ∙ last_node-end_of fuel nodes e.0 es rest (omega arith)
  where
    step : Bool → Option ℕ
    step b = elim b [ true ↦ some p | false ↦ last_node fuel nodes (nodes p).next ]

-- The node at the end gets a new link, and no other node than the new one changes.
module _ (nodes : Nodes) (ptr entry : ℕ) (apart : ptr ≢ entry) where
  link_last-other : (x : ℕ) → x ≢ ptr → x ≢ entry → link_last nodes ptr entry x ≡ nodes x
  unfolding link_last
  link_last-other x h k =
      put_node-other (set_prev nodes entry ptr) ptr x
        (record (set_prev nodes entry ptr ptr) { next = entry }) h
      ∙ put_node-other nodes entry x (record (nodes entry) { prev = ptr }) k

  link_last-ptr : link_last nodes ptr entry ptr ≡ record (nodes ptr) { next = entry }
  unfolding link_last
  link_last-ptr =
      put_node-same (set_prev nodes entry ptr) ptr
        (record (set_prev nodes entry ptr ptr) { next = entry })
      ∙ ap with_next (put_node-other nodes entry ptr (record (nodes entry) { prev = ptr }) apart)
    where
      with_next : Node → Node
      with_next n = record n { next = entry }

  link_last-entry : link_last nodes ptr entry entry ≡ record (nodes entry) { prev = ptr }
  unfolding link_last
  link_last-entry =
      put_node-other (set_prev nodes entry ptr) ptr entry
        (record (set_prev nodes entry ptr ptr) { next = entry }) (λ q. apart (sym q))
      ∙ put_node-same nodes entry (record (nodes entry) { prev = ptr })

  -- The data and the link back of an old node.
  pub link_last-keeps :
      (x : ℕ)
      → x ≢ entry
      → ((link_last nodes ptr entry x).data_of ≡ (nodes x).data_of)
        × ((link_last nodes ptr entry x).prev ≡ (nodes x).prev)
  link_last-keeps x k = elim (ℕ_discrete x ptr) [
    | yes at ↦ (
      ap (λ y. (link_last nodes ptr entry y).data_of) at
          ∙ ap (λ n. n.data_of) link_last-ptr
          ∙ ap (λ y. (nodes y).data_of) (sym at),
      ap (λ y. (link_last nodes ptr entry y).prev) at
          ∙ ap (λ n. n.prev) link_last-ptr
          ∙ ap (λ y. (nodes y).prev) (sym at),
    )
    | no off ↦
        (ap (λ n. n.data_of) (link_last-other x off k), ap (λ n. n.prev) (link_last-other x off k))
  ]

pub link_last-Chain :
    (nodes : Nodes) (p entry : ℕ) (es : Entries)
    → Chain nodes p es
    → Distinct p es
    → p ≢ entry
    → Absent entry es
    → entry ≢ 0
    → (nodes entry).next ≡ 0
    → Chain (link_last nodes (end_of p es) entry) p (es ++ ((entry, (nodes entry).data_of) ∷ []))
link_last-Chain nodes p entry [] c d new absent real last = (
  ap (λ n. n.next) (link_last-ptr nodes p entry new),
  real,
  ap (λ n. n.data_of) (link_last-entry nodes p entry new),
  ap (λ n. n.prev) (link_last-entry nodes p entry new),
  ap (λ n. n.next) (link_last-entry nodes p entry new) ∙ last,
)
link_last-Chain nodes p entry (e ∷ es) (next, here, value, prev, rest) d new absent real last =
    let e_new : e.0 ≢ entry = λ q. absent.0 (sym q) in
    let end_new : end_of e.0 es ≢ entry =
      λ q. Absent-end_of entry e.0 es absent.0 absent.1 (sym q) in
    let (same_value, same_prev) = link_last-keeps nodes (end_of e.0 es) entry end_new e.0 e_new in
    (
      ap (λ n. n.next)
            (link_last-other nodes (end_of e.0 es) entry end_new p
              (Absent-end_of p e.0 es d.0.0 d.0.1) new)
          ∙ next,
      here,
      same_value ∙ value,
      same_prev ∙ prev,
      link_last-Chain nodes e.0 entry es rest d.1 e_new absent.1 real last,
    )
