-- ===== src/Legacy/Connections/Insert.antt =====
-- Insertion at the end of the list of connections.
use lazy_tcp.Prelude.{
  ℕ, ◌+◌, ◌%◌, ◌^◌, ◌≤◌, ◌≡◌, refl, arith, true, false, Option, none, some, [], ◌∷◌, ◌++◌, inl, inr,
  ◌==◌, ==_iff, Returns, Bool-cases, Option-cases, ap, sym, ◌∙◌,
}
use lazy_tcp.Word.{u32}
use lazy_tcp.Legacy.Block.{Address, Nodes, TcbNode, TcpConnectionId, put_node, tcp_compare_id}
use lazy_tcp.Legacy.Connections.{TcpServerInstance, link, tcp_insert_tcb}
use lazy_tcp.Legacy.Connections.Chain.{
  Entries, has, lookup, count, cell, Chain, nil, cons, Represents, deref_node-ok, node_at,
}
use lazy_tcp.Legacy.Connections.Walks.{last_of, insert_walk-absent, insert_walk-present}

-- a block but for its `next`
abbrev pub body : Option TcbNode → Option TcbNode
body none = none
body (some t) = some (record t { next = none })

-- The identity is kept already and nothing changes, or the block is now the last; the other fields
-- of every block are as before.
pub data IsInserted (s : TcpServerInstance) (es : Entries) (q : Address) (a : TcpConnectionId)
    (r : TcpServerInstance) : Type 0 where
  kept : (p : Address) → lookup a es ≡ some p → r ≡ s → IsInserted s es q a r
  appended :
      lookup a es ≡ none
      → Represents r (es ++ (q, a) ∷ [])
      → ((p : Address) → body (r.nodes p) ≡ body (s.nodes p))
      → r.nodes q ≡ s.nodes q
      → IsInserted s es q a r

compare_sym : (a b : TcpConnectionId) → tcp_compare_id a b ≡ tcp_compare_id b a
unfolding tcp_compare_id
compare_sym a b = ground arith

has-append :
    (p q : Address) (a : TcpConnectionId) (es : Entries)
    → has p es ≡ false
    → (q == p) ≡ false
    → has p (es ++ (q, a) ∷ []) ≡ false
has-append p q a [] out ne = ground arith
has-append p q a ((r, b) ∷ es) out ne = ground (arith, has-append p q a es)

lookup-append :
    (id : TcpConnectionId) (q : Address) (a : TcpConnectionId) (es : Entries)
    → lookup id es ≡ none
    → tcp_compare_id a id ≡ false
    → lookup id (es ++ (q, a) ∷ []) ≡ none
lookup-append id q a [] out ne = ground arith
lookup-append id q a ((r, b) ∷ es) out ne = ground (arith, lookup-append id q a es)

pub count-append :
    (q : Address) (a : TcpConnectionId) (es : Entries) → count (es ++ (q, a) ∷ []) ≡ count es + 1
count-append q a [] = refl
count-append q a (e ∷ es) = omega (arith, count-append q a es)

last_has :
    (p l : Address) (id : TcpConnectionId) (es : Entries)
    → last_of (some p) es ≡ some l
    → has l ((p, id) ∷ es) ≡ true
last_has p l id [] e = ground arith
last_has p l id ((r, b) ∷ es) e = ground (arith, last_has r l b es)

pub ne_of_has :
    (p l : Address) (es : Entries) → has l es ≡ true → has p es ≡ false → (p == l) ≡ false
ne_of_has p l es i out = elim (Bool-cases (p == l)) [
  | inl e ↦ absurd (ground (arith, ap (λ (r : Address). has r es) ((==_iff p l).0 e)))
  | inr e ↦ e
]

module _ (h : Nodes) (q : Address) (a : TcpConnectionId) (l : Address) (u : TcbNode)
    (at : h l ≡ some u) (fresh : cell (h q) ≡ some (a, none)) where
  abbrev linked : Nodes
  linked = put_node h l (some (record u { next = some q }))

  link-Chain :
      (o : Option Address) (es : Entries)
      → Chain h o es
      → last_of none es ≡ some l
      → has q es ≡ false
      → lookup a es ≡ none
      → Chain linked o (es ++ (q, a) ∷ [])
  link-Chain _ _ nil last out new = absurd (ground arith)
  link-Chain _ _ (cons {p} {id} e own first nil) last out new =
      let at_l : cell (linked p) ≡ some (id, some q) = ground arith in
      let at_q : cell (linked q) ≡ some (a, none) = ground arith in
      cons at_l (ground arith) (ground (arith, compare_sym a id)) (cons at_q refl refl nil)
  link-Chain _ _ (cons {p} {id} e own first (cons {p = r} {id = b} {es = es} e' own' first' rest))
        last out new =
      let apart : (p == l) ≡ false =
        ne_of_has p l ((r, b) ∷ es) (last_has r l b es (ground arith)) own in
      let here : cell (linked p) ≡ cell (h p) = rw apart in
      cons (here ∙ e) (has-append p q a ((r, b) ∷ es) own (ground arith))
        (lookup-append id q a ((r, b) ∷ es) first (ground (arith, compare_sym a id)))
        (link-Chain _ _ (cons e' own' first' rest) (ground arith) (ground arith) (ground arith))

last_some :
    (p : Address) (id : TcpConnectionId) (es : Entries)
    → (l : Address) × (last_of (some p) es ≡ some l) × (has l ((p, id) ∷ es) ≡ true)
last_some p id [] = (p, refl, ground arith)
last_some p id ((r, b) ∷ es) = let (l, last, i) = last_some r b es in (l, last, ground (arith, i))

pub Chain-node :
    {h : Nodes} {o : Option Address} {es : Entries} (l : Address)
    → Chain h o es
    → has l es ≡ true
    → (u : TcbNode) × (h l ≡ some u)
Chain-node l nil i = absurd (ground arith)
Chain-node {h} l (cons {p} {es = es} e own first rest) i = elim (Bool-cases (p == l)) [
  | inl same ↦ let (u, at, _, _) = node_at h p e in (u, ap h (sym ((==_iff p l).0 same)) ∙ at)
  | inr other ↦ Chain-node l rest (ground arith)
]

module _ (s : TcpServerInstance) (q : Address) (t : TcbNode) (at : s.nodes q ≡ some t)
    (alone : t.next ≡ none) where
  -- the list with the block behind its last one
  record IsLinked (es : Entries) (r : TcpServerInstance) : Type 0 where
    pub chain : Chain r.nodes r.head (es ++ (q, t.id) ∷ [])
    pub size : r.size ≡ u32 (s.size + 1)
    pub others : (p : Address) → body (r.nodes p) ≡ body (s.nodes p)
    pub own : r.nodes q ≡ s.nodes q

  link-IsLinked :
      (o : Option Address) (es : Entries)
      → s.head ≡ o
      → Chain s.nodes o es
      → has q es ≡ false
      → lookup t.id es ≡ none
      → Returns (link (some q) (last_of none es) s) (IsLinked es)
  unfolding link
  link-IsLinked _ _ start nil out new = (
    record s { head = some q; size = u32 (s.size + 1) },
    rw start,
    record {
      chain = cons (rw (at, alone)) refl refl nil;
      size = refl;
      others = λ p. refl;
      own = refl;
    },
  )
  link-IsLinked _ _ start (cons {p} {id} {es = es} e own first rest) out new =
      let all = cons e own first rest in
      let (l, last, i) = last_some p id es in
      let (u, at_l) = Chain-node l all i in
      let apart : (q == l) ≡ false = ne_of_has q l ((p, id) ∷ es) i out in
      (
        record s {
          nodes = linked s.nodes q t.id l u at_l (rw (at, alone));
          size = u32 (s.size + 1);
        },
        rw (start, last, deref_node-ok s.nodes l at_l),
        record {
          chain =
              rw start (link-Chain s.nodes q t.id l u at_l (rw (at, alone)) _ _ all last out new);
          size = refl;
          others = λ x. elim (Bool-cases (x == l)) [
            | inl same ↦ rw (same, (==_iff x l).0 same, at_l)
            | inr other ↦ rw other
          ];
          own = rw apart;
        },
      )

  -- For a list that stands for `es`, steps for all of them and a block outside the list with no
  -- `next`, `tcp_insert_tcb` meets no fault and inserts the block as `IsInserted` says.
  pub tcp_insert_tcb-IsInserted :
      (steps : ℕ) (es : Entries)
      → Represents s es
      → count es ≤ steps
      → has q es ≡ false
      → Returns (tcp_insert_tcb steps (some q) s) (IsInserted s es q t.id)
  unfolding tcp_insert_tcb
  tcp_insert_tcb-IsInserted steps es r enough out = elim (Option-cases (lookup t.id es)) [
    | inr (p, there) ↦
        let (last, run) = insert_walk-present steps q t none p r.chain enough at there in
        (s, rw run, kept p there refl)
    | inl new ↦
        let (s', run, k) = link-IsLinked s.head es refl r.chain out new in
        let size : s'.size ≡ count (es ++ (q, t.id) ∷ []) % 2 ^ 32 =
          omega (arith, k.size, r.size, count-append q t.id es) in
        (
          s',
          rw (insert_walk-absent steps q t none r.chain enough at new) run,
          appended new (record { chain = k.chain; size = size }) k.others k.own,
        )
  ]
