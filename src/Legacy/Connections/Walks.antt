-- ===== src/Legacy/Connections/Walks.antt =====
-- The walks along the list of connections that look for an identity.
use lazy_tcp.Prelude.{
  ℕ, zero, suc, ◌≤◌, ◌≡◌, refl, arith, Bool, true, false, Option, none, some, [], ◌∷◌, inl, inr,
  if◌then◌else◌, ok, Bool-cases, ◌∙◌,
}
use lazy_tcp.Legacy.Block.{Address, Nodes, TcbNode, TcpConnectionId, tcp_compare_id}
use lazy_tcp.Legacy.Connections.{TcpServerInstance, insert_walk, search_walk, tcp_get_state}
use lazy_tcp.Legacy.Connections.Chain.{
  Entries, lookup, count, Chain, nil, cons, Represents, node_at, load_node-ok, deref_node-ok,
}

if_ok : {A : Type 0} (x y : A) (c : Bool) → (if c then ok x else ok y) ≡ ok (if c then x else y)
if_ok x y true = refl
if_ok x y false = refl

search_step :
    (h : Nodes) {p : Address} {t : TcbNode} (steps : ℕ) (id : TcpConnectionId)
    → h p ≡ some t
    → search_walk (suc steps) id h (some p)
      ≡ (if tcp_compare_id t.id id then ok (some p) else search_walk steps id h t.next)
unfolding search_walk
search_step h {p} steps id at = rw (load_node-ok h p at)

search_walk-lookup :
    {h : Nodes} {o : Option Address} {es : Entries} (steps : ℕ) (id : TcpConnectionId)
    → Chain h o es
    → count es ≤ steps
    → search_walk steps id h o ≡ ok (lookup id es)
unfolding search_walk
search_walk-lookup zero id nil enough = refl
search_walk-lookup (suc steps) id nil enough = refl
search_walk-lookup zero id (cons e out new rest) enough = absurd (omega arith)
search_walk-lookup {h} (suc steps) id (cons {p} {id = a} e out new rest) enough =
    let (t, at, same, next) = node_at h p e in
    search_step h steps id at
    ∙ rw (same, next, search_walk-lookup steps id rest (omega arith))
        (if_ok _ _ (tcp_compare_id a id))

-- For a list that stands for `es` and steps for all of them, `tcp_get_state` returns the block
-- that is kept under the identity, NULL if there is none.
pub tcp_get_state-lookup :
    (steps : ℕ) (id : TcpConnectionId) (s : TcpServerInstance) (es : Entries)
    → Represents s es
    → count es ≤ steps
    → tcp_get_state steps id s ≡ ok (lookup id es)
unfolding tcp_get_state
tcp_get_state-lookup steps id s es r enough = search_walk-lookup steps id r.chain enough

-- the last address of a list, with what stands for the last of an empty one
abbrev pub last_of : Option Address → Entries → Option Address
last_of tail [] = tail
last_of tail ((p, id) ∷ es) = last_of (some p) es

pub insert_walk-absent :
    {h : Nodes} {o : Option Address} {es : Entries} (steps : ℕ) (q : Address) (t : TcbNode)
    (tail : Option Address)
    → Chain h o es
    → count es ≤ steps
    → h q ≡ some t
    → lookup t.id es ≡ none
    → insert_walk steps h (some q) o tail ≡ ok (false, last_of tail es)
unfolding insert_walk
insert_walk-absent zero q t tail nil enough at none_yet = refl
insert_walk-absent (suc steps) q t tail nil enough at none_yet = refl
insert_walk-absent zero q t tail (cons e out new rest) enough at none_yet = absurd (omega arith)
insert_walk-absent {h} (suc steps) q t tail (cons {p} {id} {es = es} e out new rest) enough at
      none_yet =
    let (u, at', same, next) = node_at h p e in
    let other : tcp_compare_id id t.id ≡ false = ground arith in
    let later : lookup t.id es ≡ none = ground arith in
    rw (load_node-ok h p at', deref_node-ok h q at, same, next, other)
      (insert_walk-absent steps q t (some p) rest (omega arith) at later)

pub insert_walk-present :
    {h : Nodes} {o : Option Address} {es : Entries} (steps : ℕ) (q : Address) (t : TcbNode)
    (tail : Option Address) (p : Address)
    → Chain h o es
    → count es ≤ steps
    → h q ≡ some t
    → lookup t.id es ≡ some p
    → (last : Option Address) × (insert_walk steps h (some q) o tail ≡ ok (true, last))
unfolding insert_walk
insert_walk-present steps q t tail p nil enough at there = absurd (ground arith)
insert_walk-present zero q t tail p (cons e out new rest) enough at there = absurd (omega arith)
insert_walk-present {h} (suc steps) q t tail p (cons {p = p'} {id} {es = es} e out new rest) enough
      at there =
    let (u, at', same, next) = node_at h p' e in
    elim (Bool-cases (tcp_compare_id id t.id)) [
      | inl here ↦ (tail, rw (load_node-ok h p' at', deref_node-ok h q at, same, here))
      | inr other ↦
          let later : lookup t.id es ≡ some p = ground arith in
          let (last, run) = insert_walk-present steps q t (some p') p rest (omega arith) at later in
          (last, rw (load_node-ok h p' at', deref_node-ok h q at, same, next, other) run)
    ]
