-- ===== src/Dispatch/Good.antt =====
-- The state that every segment keeps: a valid table, and only connections on the heap.
use lazy_tcp.Prelude.{
  ◌≡◌, inl, inr, refl, arith, true, Option, some, ◌==◌, Bool-cases, ==_iff, some_inj, ap, sym, ◌∙◌,
}
use mathlib.Core.Path.{subst}
use lazy_tcp.Tcb.{Ptr, Tcb, ConId, write, new_tcb}
use lazy_tcp.Tcb.Ids.{id_at, block_at, id_at-write}
use lazy_tcp.Hash.{Table}
use lazy_tcp.Hash.Laws.{IsTable, Holds}
use lazy_tcp.Hash.Blocks.{Covers, with_heap-IsTable, with_heap-Holds}
use lazy_tcp.State.{set_tcb}
use lazy_tcp.State.Connection.{
  IsConnection, AllConnections, AllConnections-write, new_tcb-IsConnection,
}
use lazy_tcp.Transport.{Env}
use lazy_tcp.Dispatch.Find.{Obtains, known, made, out_of_memory}

-- The state between packets: a valid table, and only connections on the heap.
pub record IsGood (s : Table) : Type 0 where
  pub table : IsTable s
  pub blocks : AllConnections s.heap

-- a block that the table holds, with what is known of it
pub record HasBlock (s : Table) (id : ConId) (p : Ptr) (t : Tcb) : Type 0 where
  pub holds : Holds s id p
  pub at : s.heap p ≡ some t
  pub named : t.id ≡ id
  pub connection : IsConnection t

pub has_block :
    (s : Table) (id : ConId) (p : Ptr) → IsGood s → Holds s id p → (t : Tcb) × HasBlock s id p t
has_block s id p good holds =
    let (t, at, named) = block_at s.heap p holds.present.named in
    (t, record { holds = holds; at = at; named = named; connection = good.blocks p t at })

-- Obtaining a block keeps the state good.
pub Obtains-IsGood :
    {env : Env} {id : ConId} {s : Table} (r : Option Ptr × Table)
    → IsGood s
    → Obtains env id s r
    → IsGood r.1
Obtains-IsGood r good (known p holds) = good
Obtains-IsGood {id} {s} r good (made p s' mem absent heap valid entries) = record {
  table = valid;
  blocks =
      subst AllConnections (sym heap)
        (AllConnections-write s.heap p (new_tcb id) good.blocks (new_tcb-IsConnection id));
}
Obtains-IsGood r good (out_of_memory s' short absent heap valid entries) = record {
  table = valid;
  blocks = subst AllConnections (sym heap) good.blocks;
}

-- the block of the segment is in the table
pub Obtains-Holds :
    {env : Env} {id : ConId} {s s' : Table} (p : Ptr)
    → Obtains env id s (some p, s')
    → Holds s' id p
Obtains-Holds p (known q holds) = holds
Obtains-Holds p (made q s' mem absent heap valid entries) = (entries _ _).1 (inr (refl, refl))

-- Writing a block under its own identity keeps the table.
module _ (s : Table) (id : ConId) (p : Ptr) (t u : Tcb) (good : IsGood s) (b : HasBlock s id p t)
    (same : u.id ≡ id) where
  written-Covers : Covers s (write s.heap p (some u))
  written-Covers a q holds = elim (Bool-cases (q == p)) [
    | inl hit ↦
        let e : q ≡ p = (==_iff q p).0 hit in
        let at : id_at s.heap p ≡ some a = ap (id_at s.heap) (sym e) ∙ holds.present.named in
        let named : id ≡ a = some_inj (sym b.holds.present.named ∙ at) in
        rw (hit, id_at) (ap some (same ∙ named))
    | inr miss ↦ id_at-write s.heap p (some u) q (ground arith) ∙ holds.present.named
  ]

  pub written-IsGood : IsConnection u → IsGood (set_tcb s p u)
  written-IsGood c = record {
    table = with_heap-IsTable s (write s.heap p (some u)) good.table written-Covers;
    blocks = AllConnections-write s.heap p u good.blocks c;
  }

  pub written-HasBlock : IsConnection u → HasBlock (set_tcb s p u) id p u
  written-HasBlock c = record {
    holds = (with_heap-Holds s (write s.heap p (some u)) good.table written-Covers id p).1 b.holds;
    at = let e : (p == p) ≡ true = ground arith in rw e;
    named = same;
    connection = c;
  }
