-- ===== src/Dllist/Sequence.antt =====
-- A list behaves as the sequence of its data.
use osdev.Prelude.{
  ℕ, zero, suc, ◌+◌, ◌%◌, ◌^◌, ◌<◌, ◌≡◌, ◌≢◌, refl, sym, ap, ◌∙◌, subst, some, [], ◌∷◌, ◌++◌, map,
  arith, ◌==◌, if◌then◌else◌, length, length-append, get_or,
}
use osdev.Dllist.{
  Nodes, put_node, link_last, dllist_append, steps, dllist_get, count_next, count_prev, dllist_len,
}
use osdev.Dllist.Chain.{
  Entries, Chain, Absent, Distinct, end_of, not_equal, put_node-same, put_node-other, Absent-end_of,
  link_last-keeps, Chain-put_node, last_node-end_of, link_last-Chain,
}

abbrev pub data_at : Entries → ℕ → ℕ
data_at es i = get_or (map (λ e. e.1) es) i 0

abbrev value_at : Nodes → ℕ → ℕ
value_at nodes ptr = if ptr == 0 then 0 else (nodes ptr).data_of

steps-null : (nodes : Nodes) (n : ℕ) → steps nodes 0 n ≡ 0
unfolding steps
steps-null nodes zero = refl
steps-null nodes (suc n) = refl

steps-step :
    (nodes : Nodes) (ptr n : ℕ) → ptr ≢ 0 → steps nodes ptr (suc n) ≡ steps nodes (nodes ptr).next n
unfolding steps
steps-step nodes ptr n real = rw (steps, not_equal ptr 0 real) refl

steps-Chain :
    (nodes : Nodes) (p i : ℕ) (es : Entries)
    → p ≢ 0
    → Chain nodes p es
    → value_at nodes (steps nodes p (suc i)) ≡ data_at es i
unfolding steps
steps-Chain nodes p i [] real c =
    ap (value_at nodes)
      (steps-step nodes p i real ∙ ap (λ q. steps nodes q i) c ∙ steps-null nodes i)
steps-Chain nodes p zero (e ∷ es) real (next, here, value, prev, rest) =
    ap (value_at nodes) (steps-step nodes p 0 real ∙ ap (λ q. steps nodes q 0) next)
    ∙ ap (λ b. if b then 0 else (nodes e.0).data_of) (not_equal e.0 0 here)
    ∙ value
steps-Chain nodes p (suc i) (e ∷ es) real (next, here, value, prev, rest) =
    ap (value_at nodes) (steps-step nodes p (suc i) real ∙ ap (λ q. steps nodes q (suc i)) next)
    ∙ steps-Chain nodes e.0 i es here rest

count_next-length :
    (fuel : ℕ) (nodes : Nodes) (p : ℕ) (es : Entries)
    → Chain nodes p es
    → length es < fuel
    → count_next fuel nodes (nodes p).next ≡ some (length es)
unfolding count_next
count_next-length zero nodes p es c enough = absurd (omega arith)
count_next-length (suc fuel) nodes p [] c enough = rw (c) refl
count_next-length (suc fuel) nodes p (e ∷ es) (next, here, value, prev, rest) enough =
    ap (count_next (suc fuel) nodes) next
    ∙ rw (count_next, not_equal e.0 0 here, count_next-length fuel nodes e.0 es rest (omega arith))
        refl

Absent-append :
    (x entry value : ℕ) (es : Entries)
    → Absent x es
    → x ≢ entry
    → Absent x (es ++ ((entry, value) ∷ []))
Absent-append x entry value [] a h = (h, tt)
Absent-append x entry value (e ∷ es) a h = (a.0, Absent-append x entry value es a.1 h)

Distinct-append :
    (p entry value : ℕ) (es : Entries)
    → Distinct p es
    → p ≢ entry
    → Absent entry es
    → Distinct p (es ++ ((entry, value) ∷ []))
Distinct-append p entry value [] d new absent = ((new, tt), tt)
Distinct-append p entry value (e ∷ es) d new absent = (
  (d.0.0, Absent-append p entry value es d.0.1 new),
  Distinct-append e.0 entry value es d.1 (λ q. absent.0 (sym q)) absent.1,
)

-- The state of a list in use: its nodes are distinct, and none stands before the root.
pub record IsList (nodes : Nodes) (root : ℕ) (es : Entries) : Type 0 where
  pub real : root ≢ 0
  pub chain : Chain nodes root es
  pub distinct : Distinct root es
  pub first : (nodes root).prev ≡ 0

-- The entry, filled.
abbrev filled : Nodes → ℕ → ℕ → Nodes
filled nodes entry value = put_node nodes entry (record (nodes entry) { data_of = value; next = 0 })

module _ (nodes : Nodes) (root entry value : ℕ) (es : Entries) (h : IsList nodes root es)
    (new : root ≢ entry) (absent : Absent entry es) (some_entry : entry ≢ 0) where
  filled-Chain : Chain (filled nodes entry value) root es
  filled-Chain =
      Chain-put_node nodes entry root (record (nodes entry) { data_of = value; next = 0 }) es new
        absent h.chain

  appended : Nodes
  appended = link_last (filled nodes entry value) (end_of root es) entry

  appended-IsList : IsList appended root (es ++ ((entry, value) ∷ []))
  unfolding appended
  appended-IsList = record {
    real = h.real;
    chain =
        subst (λ v. Chain appended root (es ++ ((entry, v) ∷ []))) (ap (λ n. n.data_of) same)
          (link_last-Chain (filled nodes entry value) root entry es filled-Chain h.distinct new
            absent some_entry (ap (λ n. n.next) same));
    distinct = Distinct-append root entry value es h.distinct new absent;
    first =
        (link_last-keeps (filled nodes entry value) (end_of root es) entry end_new root new).1
        ∙ ap (λ n. n.prev)
            (put_node-other nodes entry root (record (nodes entry) { data_of = value; next = 0 })
              new)
        ∙ h.first;
  }
    where
      same : filled nodes entry value entry ≡ record (nodes entry) { data_of = value; next = 0 }
      same = put_node-same nodes entry (record (nodes entry) { data_of = value; next = 0 })

      end_new : end_of root es ≢ entry
      end_new q = Absent-end_of entry root es (λ r. new (sym r)) absent (sym q)

  dllist_append-appended :
      (fuel : ℕ) → length es < fuel → dllist_append fuel nodes root entry value ≡ some appended
  unfolding dllist_append appended
  dllist_append-appended fuel enough =
      rw
        (
          dllist_append,
          not_equal entry 0 some_entry,
          not_equal root 0 h.real,
          last_node-end_of fuel (filled nodes entry value) root es filled-Chain enough,
        )
        refl

dllist_get-IsList :
    (nodes : Nodes) (root idx : ℕ) (es : Entries)
    → IsList nodes root es
    → idx + 1 < 2 ^ 32
    → dllist_get nodes root idx ≡ data_at es idx
unfolding dllist_get
dllist_get-IsList nodes root idx es h small =
    ap (λ n. value_at nodes (steps nodes root n)) in_range
    ∙ steps-Chain nodes root idx es h.real h.chain
  where
    in_range : (idx + 1) % 2 ^ 32 ≡ suc idx
    in_range = omega (arith, small)

dllist_len-IsList :
    (fuel : ℕ) (nodes : Nodes) (root : ℕ) (es : Entries)
    → IsList nodes root es
    → length es < fuel
    → length es < 2 ^ 32
    → dllist_len fuel nodes root ≡ some (length es)
unfolding dllist_len count_prev
dllist_len-IsList zero nodes root es h enough small = absurd (omega arith)
dllist_len-IsList (suc fuel) nodes root es h enough small =
    rw (dllist_len, count_next-length (suc fuel) nodes root es h.chain enough, h.first)
      (ap some (omega arith))

-- On a list in use, whose data are a sequence, with a new node that is no node of it, and where the
-- loops may make one round more than there are nodes: `dllist_append` succeeds and leaves a list
-- whose sequence has the value at its end. `dllist_get` returns that sequence's element at an
-- index, and NULL behind its end; `dllist_len` returns its length.
pub dllist_append-sequence :
    (nodes : Nodes) (root entry value fuel idx : ℕ) (es : Entries)
    → IsList nodes root es
    → root ≢ entry
    → Absent entry es
    → entry ≢ 0
    → length es + 1 < fuel
    → length es + 1 < 2 ^ 32
    → idx + 1 < 2 ^ 32
    → (nodes' : Nodes) × (dllist_append fuel nodes root entry value ≡ some nodes')
      × IsList nodes' root (es ++ ((entry, value) ∷ []))
      × (dllist_get nodes' root idx ≡ data_at (es ++ ((entry, value) ∷ [])) idx)
      × (dllist_len fuel nodes' root ≡ some (length es + 1))
dllist_append-sequence nodes root entry value fuel idx es h new absent some_entry enough small
      in_range =
    let after = appended-IsList nodes root entry value es h new absent some_entry in
    let longer : length (es ++ ((entry, value) ∷ [])) ≡ length es + 1 =
      length-append es ((entry, value) ∷ []) in
    (
      appended nodes root entry value es h new absent some_entry,
      dllist_append-appended nodes root entry value es h new absent some_entry fuel (omega arith),
      after,
      dllist_get-IsList _ root idx _ after in_range,
      dllist_len-IsList fuel _ root _ after (omega (arith, longer, enough))
            (omega (arith, longer, small))
          ∙ ap some longer,
    )
