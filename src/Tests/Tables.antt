-- ===== src/Tests/Tables.antt =====
-- A table that is not set up, one that holds one block, and an environment.
use lazy_tcp.Prelude.{
  ◌≡◌, inl, inr, refl, arith, true, false, none, some, some_inj, Bool-cases, ◌==◌, if◌then◌else◌,
  sym, ap, ◌∙◌,
}
use lazy_tcp.Tcb.{Ptr, Heap, ConId, Tcb, new_tcb}
use lazy_tcp.Tcb.Ids.{id_at}
use lazy_tcp.Vector.{Vector}
use lazy_tcp.Vector.Laws.{IsVector, Absent}
use lazy_tcp.Hash.{Table, hash_id}
use lazy_tcp.Hash.Laws.{IsTable, Holds}
use lazy_tcp.Hash.Insert.{HasRoom}
use lazy_tcp.State.Connection.{AllConnections, new_tcb-IsConnection}
use lazy_tcp.Transport.{Env}
use lazy_tcp.Dispatch.Good.{IsGood, HasBlock}
use lazy_tcp.Dispatch.Safe.{IsReady}

abbrev pub client : ConId
client = record { src_port = 4660; dst_port = 8080; src_ip = 167772161; dst_ip = 167772162 }

abbrev pub other_client : ConId
other_client = record { src_port = 4661; dst_port = 8080; src_ip = 167772161; dst_ip = 167772162 }

abbrev pub cold_table : Table
cold_table = record {
  heap = λ _. none;
  buckets = λ _. record { slots = λ _. 0; capacity = 0; size = 0 };
  size = 0;
  init = false;
}

-- `malloc` returns the address 7, and memory of zeros
abbrev pub env : Env
env = record {
  tv_sec = 3;
  tv_usec = 4;
  rand = 5;
  tcb_mem = some 7;
  bucket_mem = λ _. some (λ _. 0);
  grow_mem = some (λ _. 0);
  stack = λ _. 0;
  unset_seq_no = 0;
  unset_ack_no = 0;
  unset_pl_flags = 0;
}

pub cold_table-IsTable : IsTable cold_table
cold_table-IsTable ready = cc ready

pub cold_table-IsGood : IsGood cold_table
cold_table-IsGood = record { table = cold_table-IsTable; blocks = λ q t e. cc e }

pub cold_table-IsReady : IsReady env cold_table
cold_table-IsReady = record {
  fresh = λ p e. refl;
  stack = λ i. omega arith;
  room = λ ready. cc ready;
}

pub cold_table-absent : (q : Ptr) → ¬ Holds cold_table client q
cold_table-absent q holds = cc holds.init

-- the block of `client` at the address 5, in its bucket
abbrev pub held_block : Tcb
held_block = new_tcb client

abbrev held_heap : Heap
held_heap q = if q == 5 then some held_block else none

abbrev pub held_table : Table
held_table = record {
  heap = held_heap;
  buckets =
      λ k. record { slots = λ _. 5; capacity = 16; size = if k == hash_id client then 1 else 0 };
  size = 1;
  init = true;
}

pub held_id : id_at held_table.heap 5 ≡ some client
unfolding new_tcb
held_id = refl

pub held_table-IsTable : IsTable held_table
held_table-IsTable ready k less = record {
  vector = record {
    within = ground arith;
    roomy = omega arith;
    small = omega arith;
    live = λ i below. (client, held_id);
    distinct = λ i j bi bj e. ground (arith, bi, bj);
  };
  home = λ i below a e.
      let same : client ≡ a = some_inj (sym held_id ∙ e) in
      let here : k ≡ hash_id client = ground (arith, below) in ap hash_id (sym same) ∙ sym here;
}

pub held_table-Holds : Holds held_table client 5
held_table-Holds = record {
  init = refl;
  present = record {
    index = 0;
    above = omega arith;
    below = ground arith;
    holds = refl;
    named = held_id;
  };
}

pub held_table-IsGood : IsGood held_table
held_table-IsGood = record { table = held_table-IsTable; blocks = blocks }
  where
    blocks : AllConnections held_table.heap
    blocks q t e = elim (Bool-cases (q == 5)) [
      | inl hit ↦
          let e' : some held_block ≡ some t = rw hit at e in
          rw (sym (some_inj e')) (new_tcb-IsConnection client)
      | inr miss ↦ let e' : none ≡ some t = rw miss at e in cc e'
    ]

-- the bucket of `client`
abbrev pub held_bucket : Vector
held_bucket = record { slots = λ _. 5; capacity = 16; size = 1 }

pub held_bucket-IsVector : IsVector held_table.heap held_bucket
held_bucket-IsVector = record {
  within = omega arith;
  roomy = omega arith;
  small = omega arith;
  live = λ i below. (client, held_id);
  distinct = λ i j bi bj e. omega arith;
}

-- the block is on the heap, but in no table
abbrev pub loose_table : Table
loose_table = record {
  heap = held_heap;
  buckets = λ _. record { slots = λ _. 0; capacity = 0; size = 0 };
  size = 0;
  init = false;
}

pub loose_table-IsTable : IsTable loose_table
loose_table-IsTable ready = cc ready

pub loose_table-HasRoom : HasRoom loose_table
loose_table-HasRoom ready = cc ready

pub loose_table-absent : (q : Ptr) → ¬ Holds loose_table client q
loose_table-absent q holds = cc holds.init

abbrev pub empty_bucket : Vector
empty_bucket = record { slots = λ _. 0; capacity = 16; size = 0 }

pub empty_bucket-IsVector : IsVector held_table.heap empty_bucket
empty_bucket-IsVector = record {
  within = omega arith;
  roomy = omega arith;
  small = omega arith;
  live = λ i below. absurd (omega arith);
  distinct = λ i j below. absurd (omega arith);
}

pub empty_bucket-Absent : Absent held_table.heap empty_bucket client 0
empty_bucket-Absent j lo below = absurd (omega arith)

pub held_table-HasBlock : HasBlock held_table client 5 held_block
unfolding new_tcb
held_table-HasBlock = record {
  holds = held_table-Holds;
  at = refl;
  named = refl;
  connection = new_tcb-IsConnection client;
}
