-- ===== src/Legacy/Connections/Chain.antt =====
-- What the list of connections stands for: addresses and identities in order, all distinct.
use lazy_tcp.Prelude.{
  ℕ, suc, ◌%◌, ◌^◌, ◌≡◌, ◌↔◌, refl, arith, Bool, true, false, ◌||◌, Option, none, some, List, [],
  ◌∷◌, inl, inr, ◌==◌, ==_iff, if◌then◌else◌, ok, ap, Bool-cases,
}
use lazy_tcp.Legacy.Block.{
  Address, Nodes, TcbNode, TcpConnectionId, put_node, load_node, deref_node, free_node,
  tcp_compare_id,
}
use lazy_tcp.Legacy.Connections.{TcpServerInstance}

abbrev pub Entries : Type 0
Entries = List (Address × TcpConnectionId)

abbrev pub has : Address → Entries → Bool
has p [] = false
has p ((q, a) ∷ es) = q == p || has p es

-- the address that is kept under an identity
abbrev pub lookup : TcpConnectionId → Entries → Option Address
lookup id [] = none
lookup id ((p, a) ∷ es) = if tcp_compare_id a id then some p else lookup id es

abbrev pub count : Entries → ℕ
count [] = 0
count (e ∷ es) = suc (count es)

-- the part of a block that holds the list together
abbrev pub cell : Option TcbNode → Option (TcpConnectionId × Option Address)
cell none = none
cell (some t) = some (t.id, t.next)

-- from the pointer the `next` pointers lead through the blocks of the entries, which are distinct
pub data Chain (h : Nodes) : Option Address → Entries → Type 0 where
  nil : Chain h none []
  cons :
      {p : Address} {id : TcpConnectionId} {next : Option Address} {es : Entries}
      → cell (h p) ≡ some (id, next)
      → has p es ≡ false
      → lookup id es ≡ none
      → Chain h next es
      → Chain h (some p) ((p, id) ∷ es)

pub record Represents (s : TcpServerInstance) (es : Entries) : Type 0 where
  pub chain : Chain s.nodes s.head es
  pub size : s.size ≡ count es % 2 ^ 32

-- `tcp_compare_id` holds exactly if its two identities are equal.
pub tcp_compare_id_iff : (a b : TcpConnectionId) → (tcp_compare_id a b ≡ true) ↔ (a ≡ b)
unfolding tcp_compare_id
tcp_compare_id_iff a b = (λ h. ground arith, λ e. ground arith)

pub node_at :
    (h : Nodes) (p : Address) {id : TcpConnectionId} {next : Option Address}
    → cell (h p) ≡ some (id, next)
    → (t : TcbNode) × (h p ≡ some t) × (t.id ≡ id) × (t.next ≡ next)
node_at h p {id} {next} e = go (h p) refl
  where
    go :
        (o : Option TcbNode)
        → h p ≡ o
        → (t : TcbNode) × (h p ≡ some t) × (t.id ≡ id) × (t.next ≡ next)
    go none e' = absurd (ground arith)
    go (some t) e' = (t, e', ground arith, ground arith)

module _ (h : Nodes) (p : Address) {t : TcbNode} (at : h p ≡ some t) where
  pub load_node-ok : load_node h p ≡ ok t
  unfolding load_node
  load_node-ok = rw (at, load_node)

  pub deref_node-ok : deref_node h (some p) ≡ ok (p, t)
  unfolding deref_node
  deref_node-ok = rw (at, deref_node)

  pub free_node-ok : free_node h p ≡ ok (put_node h p none)
  unfolding free_node
  free_node-ok = rw (at, free_node)

-- A chain survives any change that keeps identity and `next` of its own blocks.
pub frame :
    {h : Nodes} (g : Nodes) {o : Option Address} {es : Entries}
    → Chain h o es
    → ((q : Address) → has q es ≡ true → cell (g q) ≡ cell (h q))
    → Chain g o es
frame g nil same = nil
frame g (cons {p} e out new rest) same =
    cons (ground (arith, same p)) out new (frame g rest (λ q i. same q (ground arith)))

pub frame-put :
    {h : Nodes} {o : Option Address} {es : Entries} (p : Address) (c : Option TcbNode)
    → Chain h o es
    → has p es ≡ false
    → Chain (put_node h p c) o es
frame-put {h} {es} p c chain out = frame (put_node h p c) chain (λ q i. elim (Bool-cases (q == p)) [
  | inl e ↦ absurd (ground (arith, ap (λ (a : Address). has a es) ((==_iff q p).0 e)))
  | inr e ↦ rw e
])

-- The blocks of a chain are allocated.
pub has_not_free :
    {h : Nodes} {o : Option Address} {es : Entries} (p : Address)
    → Chain h o es
    → h p ≡ none
    → has p es ≡ false
has_not_free p nil free = refl
has_not_free p (cons {p = q} e out new rest) free = ground (arith, has_not_free p rest free)

pub lookup-has :
    (id : TcpConnectionId) (es : Entries) (p : Address) → lookup id es ≡ some p → has p es ≡ true
lookup-has id [] p e = absurd (ground arith)
lookup-has id ((q, a) ∷ es) p e = ground (arith, lookup-has id es p)
