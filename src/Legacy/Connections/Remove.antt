-- ===== src/Legacy/Connections/Remove.antt =====
-- Removal from the list of connections.
use lazy_tcp.Prelude.{
  ℕ, zero, suc, ◌+◌, ◌%◌, ◌^◌, ◌≤◌, ◌≡◌, refl, arith, true, false, Option, none, some, [], ◌∷◌, inl,
  inr, ◌==◌, ==_iff, if◌then◌else◌, ok, Returns, Bool-cases, ap, sym, ◌∙◌,
}
use lazy_tcp.Word.{sub32}
use lazy_tcp.Legacy.Block.{Address, Nodes, TcbNode, TcpConnectionId, put_node}
use lazy_tcp.Legacy.Connections.{
  TcpServerInstance, points_to, prev_walk, unlink, tcp_remove_connection,
}
use lazy_tcp.Legacy.Connections.Chain.{
  Entries, has, lookup, count, cell, Chain, nil, cons, Represents, node_at, load_node-ok,
  free_node-ok, frame-put,
}
use lazy_tcp.Legacy.Connections.Insert.{body, ne_of_has, Chain-node}

-- the entries without the one of an address
abbrev pub drop : Address → Entries → Entries
drop p [] = []
drop p ((q, a) ∷ es) = if q == p then es else (q, a) ∷ drop p es

-- The entry is gone and its block is freed; of the others only `next` may have changed.
pub record IsRemoved (s : TcpServerInstance) (es : Entries) (p : Address) (r : TcpServerInstance)
    : Type 0 where
  pub list : Represents r (drop p es)
  pub gone : r.nodes p ≡ none
  pub others : (q : Address) → (q == p) ≡ false → body (r.nodes q) ≡ body (s.nodes q)

pub has-drop : (q p : Address) (es : Entries) → has q es ≡ false → has q (drop p es) ≡ false
has-drop q p [] out = refl
has-drop q p ((r, b) ∷ es) out = ground (arith, has-drop q p es)

pub lookup-drop :
    (id : TcpConnectionId) (p : Address) (es : Entries)
    → lookup id es ≡ none
    → lookup id (drop p es) ≡ none
lookup-drop id p [] out = refl
lookup-drop id p ((r, b) ∷ es) out = ground (arith, lookup-drop id p es)

count-drop : (p : Address) (es : Entries) → has p es ≡ true → count (drop p es) + 1 ≡ count es
count-drop p [] i = absurd (ground arith)
count-drop p ((r, b) ∷ es) i = ground (arith, count-drop p es)

pub count-drop-le : (p : Address) (es : Entries) → count (drop p es) ≤ count es
count-drop-le p [] = omega arith
count-drop-le p ((r, b) ∷ es) = ground (arith, count-drop-le p es)

module _ (h : Nodes) (p : Address) (t : TcbNode) (at : h p ≡ some t) where
  -- the blocks once `prev` has been led around `p` and `p` is freed
  abbrev cut : Address → TcbNode → Nodes
  cut prev u = put_node (put_node h prev (some (record u { next = t.next }))) p none

  record Precedes (steps : ℕ) (o : Option Address) (es : Entries) (prev : Address) (u : TcbNode)
      : Type 0 where
    pub walk : prev_walk steps p h o ≡ ok (some prev)
    pub before : h prev ≡ some u
    pub apart : (prev == p) ≡ false
    pub inside : has prev es ≡ true
    pub chain : Chain (cut prev u) o (drop p es)

  prev_step :
      {q : Address} {u : TcbNode} (steps : ℕ)
      → h q ≡ some u
      → prev_walk (suc steps) p h (some q)
        ≡ (if points_to u.next p then ok (some q) else prev_walk steps p h u.next)
  unfolding prev_walk
  prev_step {q} steps e = rw (load_node-ok h q e)

  prev_walk-Precedes :
      (steps : ℕ) (q : Address) (a : TcpConnectionId) (o : Option Address) (es : Entries)
      → cell (h q) ≡ some (a, o)
      → has q es ≡ false
      → lookup a es ≡ none
      → Chain h o es
      → (q == p) ≡ false
      → has p es ≡ true
      → count es ≤ steps
      → (prev : Address) × (u : TcbNode) × Precedes steps (some q) ((q, a) ∷ es) prev u
  prev_walk-Precedes _ _ _ _ _ e own first nil ne i enough = absurd (ground arith)
  prev_walk-Precedes zero _ _ _ _ e own first (cons e' own' first' rest) ne i enough =
      absurd (omega arith)
  prev_walk-Precedes (suc steps) q a _ _ e own first
        (cons {p = r} {id = b} {next = o} {es = es} e' own' first' rest) ne i enough =
      let (u, at_q, same, next_q) = node_at h q e in
      let step = prev_step steps at_q in
      elim (Bool-cases (r == p)) [
        | inl here ↦
            let eq : r ≡ p = (==_iff r p).0 here in
            let own_p : cell (h p) ≡ some (b, o) = ap (λ (x : Address). cell (h x)) (sym eq) ∙ e' in
            let next_p : t.next ≡ o = ground (arith, own_p) in
            let out_p : has p es ≡ false = ap (λ (x : Address). has x es) (sym eq) ∙ own' in
            let out_q : has q es ≡ false = ground arith in
            let led : cell (cut q u q) ≡ some (a, o) = ground (arith, same, next_p, ne) in
            (
              q,
              u,
              record {
                walk = step ∙ rw (next_q, here);
                before = at_q;
                apart = ne;
                inside = ground arith;
                chain =
                    rw (ne, here)
                      (cons {es = es} led out_q (ground arith)
                        (frame-put p none (frame-put q _ rest out_q) out_p));
              },
            )
        | inr other ↦
            let (prev, v, k) =
              prev_walk-Precedes steps r b o es e' own' first' rest other (ground arith)
                (omega arith) in
            let away : (q == prev) ≡ false = ne_of_has q prev ((r, b) ∷ es) k.inside own in
            (
              prev,
              v,
              record {
                walk = step ∙ rw (next_q, other) k.walk;
                before = k.before;
                apart = k.apart;
                inside = ground (arith, k.inside);
                chain = rw ne (
                    cons (rw (ne, away) e) (has-drop q p ((r, b) ∷ es) own)
                      (lookup-drop a p ((r, b) ∷ es) first) k.chain);
              },
            )
      ]

module _ (steps : ℕ) (s : TcpServerInstance) (p : Address) (t : TcbNode)
    (at : s.nodes p ≡ some t) where
  behind :
      (o : Option Address) (es : Entries) (prev : Address) (u : TcbNode)
      → Precedes s.nodes p t at steps o es prev u
      → s.head ≡ o
      → points_to s.head p ≡ false
      → sub32 s.size 1 ≡ count (drop p es) % 2 ^ 32
      → Returns (tcp_remove_connection steps s p) (IsRemoved s es p)
  unfolding tcp_remove_connection unlink
  behind o es prev u k start other smaller =
      let led = put_node s.nodes prev (some (record u { next = t.next })) in
      let apart : (p == prev) ≡ false = ground (arith, k.apart) in
      let still : led p ≡ some t = rw apart at in
      let walk : prev_walk steps p s.nodes s.head ≡ ok (some prev) = rw start k.walk in
      (
        record s { nodes = cut s.nodes p t at prev u; size = sub32 s.size 1 },
        rw (
          other,
          walk,
          load_node-ok s.nodes p at,
          load_node-ok s.nodes prev k.before,
          free_node-ok led p still,
        ),
        record {
          list = record { chain = rw start k.chain; size = smaller };
          gone = ground arith;
          others = λ x ne. elim (Bool-cases (x == prev)) [
            | inl same ↦ rw (ne, same, (==_iff x prev).0 same, k.before)
            | inr apart' ↦ rw (ne, apart')
          ];
        },
      )

  removed :
      (o : Option Address) (es : Entries)
      → s.head ≡ o
      → Chain s.nodes o es
      → has p es ≡ true
      → count es ≤ suc steps
      → s.size ≡ count es % 2 ^ 32
      → Returns (tcp_remove_connection steps s p) (IsRemoved s es p)
  unfolding tcp_remove_connection unlink
  removed _ _ start nil i enough size = absurd (ground arith)
  removed _ _ start (cons {p = q} {id} {next = o} {es = es} e own first rest) i enough size =
      let smaller : sub32 s.size 1 ≡ count (drop p ((q, id) ∷ es)) % 2 ^ 32 =
        omega (arith, size, count-drop p ((q, id) ∷ es) i) in
      elim (Bool-cases (q == p)) [
        | inl here ↦
            let eq : q ≡ p = (==_iff q p).0 here in
            let out_p : has p es ≡ false = ap (λ (x : Address). has x es) (sym eq) ∙ own in
            let own_p : cell (s.nodes p) ≡ some (id, o) =
              ap (λ (x : Address). cell (s.nodes x)) (sym eq) ∙ e in
            let next_p : t.next ≡ o = ground (arith, own_p) in
            (
              record s { nodes = put_node s.nodes p none; head = t.next; size = sub32 s.size 1 },
              rw (start, here, load_node-ok s.nodes p at, free_node-ok s.nodes p at),
              record {
                list = record {
                  chain = rw (here, next_p) (frame-put p none rest out_p);
                  size = smaller;
                };
                gone = ground arith;
                others = λ x ne. rw ne;
              },
            )
        | inr other ↦
            let (prev, u, k) =
              prev_walk-Precedes s.nodes p t at steps q id o es e own first rest other
                (ground arith) (omega arith) in
            behind (some q) ((q, id) ∷ es) prev u k start (rw start other) smaller
      ]

-- For a list that stands for `es`, a block in it and steps for the entries,
-- `tcp_remove_connection` meets no fault, takes the entry out and frees its block.
pub tcp_remove_connection-IsRemoved :
    (steps : ℕ) (s : TcpServerInstance) (es : Entries) (p : Address)
    → Represents s es
    → has p es ≡ true
    → count es ≤ steps
    → Returns (tcp_remove_connection steps s p) (IsRemoved s es p)
tcp_remove_connection-IsRemoved steps s es p r i enough =
    let (t, at) = Chain-node p r.chain i in
    removed steps s p t at s.head es refl r.chain i (omega arith) r.size
