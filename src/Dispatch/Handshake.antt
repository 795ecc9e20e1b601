-- ===== src/Dispatch/Handshake.antt =====
-- The three-way handshake: a request is answered from SYN_RECEIVED, and the right acknowledgment
-- establishes the connection.
use lazy_tcp.Prelude.{
  ℕ, ◌+◌, ◌≤◌, ◌≡◌, refl, arith, true, false, Option, some, none, ok, Returns, ◌==◌, ==_iff, ap,
  ◌∙◌, sym, some_inj, inl, inr,
}
use lazy_tcp.Buf.{Buf, word16}
use lazy_tcp.Buf.Access.{load8-ok, load16-ok, load32-ok}
use lazy_tcp.Ip.Laws.{IsPacket}
use lazy_tcp.Tcb.{Ptr, Heap, Tcb, new_tcb, ConId, ConState, Edge}
use lazy_tcp.Tcb.Ids.{load-ok}
use lazy_tcp.Hash.{Table, hash_find}
use lazy_tcp.Hash.Laws.{Holds, Holds-unique, Looks, nothing, block, hash_find-Looks}
use lazy_tcp.State.Connection.{IsAcknowledged, new_tcb-IsConnection}
use lazy_tcp.State.Update.{ack_of}
use lazy_tcp.Transport.{Env, Flags, tcp_listen_port}
use lazy_tcp.Transport.Sum.{tcp_sum, tcp_checksum-ok}
use lazy_tcp.Segment.SynAck.{IsSynAck}
use lazy_tcp.Dispatch.{edge_of, find_or_insert, tcp_parse_edge, tcp_accept, tcp_dispatch}
use lazy_tcp.Dispatch.Edges.{Expects}
use lazy_tcp.Dispatch.Good.{IsGood, HasBlock, Obtains-IsGood}
use lazy_tcp.Dispatch.Find.{Obtains, known, made, out_of_memory, find_or_insert-Obtains}
use lazy_tcp.Hash.Ready.{OutOfMemory}
use lazy_tcp.Dispatch.Accept.{Handles, synced, acked, not_acked, AfterSyn, step_of}
use lazy_tcp.Dispatch.Safe.{IsReady, IsIntact, con_id, flags_at}

module _ (env : Env) (b : Buf) (len offset : ℕ) (pkt : IsPacket b len offset)
    (room : offset + 60 ≤ b.size) (s : Table) (good : IsGood s) (ready : IsReady env s)
    (intact : IsIntact b len offset) where
  abbrev id : ConId
  id = con_id b offset

  abbrev f : Flags
  f = flags_at b offset

  -- The answer to a request, and the block that the table then holds.
  pub record IsSynced (t : Tcb) (p : Ptr) (r : ℕ × Buf × Table) : Type 0 where
    pub block : Tcb
    pub after : AfterSyn env b offset t block
    pub answer : IsSynAck b len offset block (r.0, r.1)
    pub held : HasBlock r.2 id p block

  -- No answer, and the established block that the table then holds.
  pub record IsEstablished (t : Tcb) (p : Ptr) (r : ℕ × Buf × Table) : Type 0 where
    pub block : Tcb
    pub after : IsAcknowledged (ack_of b offset) t block
    pub silent : r.0 ≡ 0
    pub held : HasBlock r.2 id p block

  -- An intact segment whose block is known goes through the step of its event.
  stepped :
      (s1 : Table) (p : Ptr) (t : Tcb) (e : Edge)
      → IsGood s1
      → HasBlock s1 id p t
      → find_or_insert env id s ≡ ok (some p, s1)
      → edge_of f id t.state ≡ e
      → Expects e t.state
      → Returns
          (tcp_dispatch env b len offset s)
          (λ r. Handles env b len offset id s1 p t e r × IsGood r.2)
  unfolding tcp_dispatch tcp_accept tcp_parse_edge
  stepped s1 p t e good1 blk run edge h =
      let (r, all, spec) = step_of env b len offset pkt room ready.stack id s1 p t good1 blk e h in
      let same : (word16 b.at (offset + 16) == tcp_sum b.at len offset) ≡ true =
        (==_iff (word16 b.at (offset + 16)) (tcp_sum b.at len offset)).1 intact in
      (
        r,
        rw
            (
              tcp_checksum-ok env.stack b len offset ready.stack pkt (omega arith),
              load16-ok b (offset + 16) (omega arith),
              same,
              load16-ok b (offset + 0) (omega arith),
              load16-ok b (offset + 2) (omega arith),
              load32-ok b 12 (omega (arith, pkt.long)),
              load32-ok b 16 (omega (arith, pkt.long)),
              load8-ok b (offset + 13) (omega arith),
              run,
              load-ok s1.heap p blk.at,
              edge,
            )
            all,
        spec,
      )

  finds_block : (p : Ptr) → Holds s id p → hash_find s id ≡ ok (some p)
  finds_block p holds = let (r, run, looks) = hash_find-Looks s id good.table in run ∙ go r looks
    where
      go : (r : Option Ptr) → Looks s id r → ok r ≡ ok (some p)
      go none (nothing absent) = absurd (absent p holds)
      go (some _) (block q held) =
          ap (λ (x : Ptr). ok (some x)) (Holds-unique s id q p good.table held holds)

  pub found_again : (p : Ptr) → Holds s id p → find_or_insert env id s ≡ ok (some p, s)
  unfolding find_or_insert
  found_again p holds = rw (finds_block p holds)

  -- a request whose block is closed
  answered_from :
      (s1 : Table) (p : Ptr) (t : Tcb)
      → IsGood s1
      → HasBlock s1 id p t
      → find_or_insert env id s ≡ ok (some p, s1)
      → t.state ≡ ConState.con_closed
      → id.dst_port ≡ tcp_listen_port
      → f.rst ≡ false
      → f.syn ≡ true
      → f.ack ≡ false
      → Returns (tcp_dispatch env b len offset s) (IsSynced t p)
  unfolding edge_of
  answered_from s1 p t good1 blk run e port rst syn ack =
      let edge : edge_of f id t.state ≡ Edge.evt_syn = rw e (ground arith) in
      go (stepped s1 p t Edge.evt_syn good1 blk run edge e)
    where
      go :
          Returns
            (tcp_dispatch env b len offset s)
            (λ r. Handles env b len offset id s1 p t Edge.evt_syn r × IsGood r.2)
          → Returns (tcp_dispatch env b len offset s) (IsSynced t p)
      go (r, run', (synced n c s' u after spec blk', good')) =
          ((n, c, s'), run', record { block = u; after = after; answer = spec; held = blk' })

  -- the block that was made for a new connection
  new_block :
      (p : Ptr)
      → env.tcb_mem ≡ some p
      → ¬ OutOfMemory env.bucket_mem env.grow_mem s id
      → ((q : Ptr) → ¬ Holds s id q)
      → Returns
          (find_or_insert env id s)
          λ r. (r.0 ≡ some p) × IsGood r.1 × HasBlock r.1 id p (new_tcb id)
  unfolding new_tcb
  new_block p mem enough absent =
      go (find_or_insert-Obtains env id s good.table ready.room ready.fresh)
    where
      go :
          Returns (find_or_insert env id s) (Obtains env id s)
          → Returns
              (find_or_insert env id s)
              λ r. (r.0 ≡ some p) × IsGood r.1 × HasBlock r.1 id p (new_tcb id)
      go (_, run, known q holds) = absurd (absent q holds)
      go (_, run, out_of_memory s' (inl none_there) _ _ _ _) = cc (mem, none_there)
      go (_, run, out_of_memory s' (inr out) _ _ _ _) = absurd (enough out)
      go (_, run, made q s' mem' absent' heap valid entries) =
          let same : q ≡ p = some_inj (sym mem' ∙ mem) in
          let at : s'.heap p ≡ some (new_tcb id) =
            ap (λ (h : Heap). h p) heap
            ∙ rw same (let e : (p == p) ≡ true = ground arith in rw e) in
          (
            (some q, s'),
            run,
            (
              ap (λ (x : Ptr). some x) same,
              Obtains-IsGood {env = env} (some q, s') good
                  (made q s' mem' absent' heap valid entries),
              record {
                holds = (entries id p).1 (inr (refl, sym same));
                at = at;
                named = refl;
                connection = new_tcb-IsConnection id;
              },
            ),
          )

  -- For an intact segment to the listening port with SYN but neither ACK nor RST, a good state,
  -- surroundings as `IsReady` says, a connection that the table does not hold, and memory for its
  -- block and its entry, `tcp_dispatch` answers with the SYN-ACK of the block that `IsRequested`
  -- says of a new one, and the table then holds that block.
  pub request_answered :
      (p : Ptr)
      → env.tcb_mem ≡ some p
      → ¬ OutOfMemory env.bucket_mem env.grow_mem s id
      → ((q : Ptr) → ¬ Holds s id q)
      → id.dst_port ≡ tcp_listen_port
      → f.rst ≡ false
      → f.syn ≡ true
      → f.ack ≡ false
      → Returns (tcp_dispatch env b len offset s) (IsSynced (new_tcb id) p)
  unfolding new_tcb
  request_answered p mem enough absent port rst syn ack =
      let ((o, s1), run, (got, good1, blk)) = new_block p mem enough absent in
      answered_from s1 p (new_tcb id) good1 blk (run ∙ ap (λ (x : Option Ptr). ok (x, s1)) got) refl
        port rst syn ack

  -- For an intact segment to the listening port with ACK but neither SYN nor RST, a good state,
  -- surroundings as `IsReady` says, and a block in SYN_RECEIVED whose next number the segment
  -- acknowledges, `tcp_dispatch` answers nothing and the table then holds the established block
  -- that `IsAcknowledged` says.
  pub acknowledgment_establishes :
      (p : Ptr) (t : Tcb)
      → HasBlock s id p t
      → t.state ≡ ConState.con_syn_received
      → id.dst_port ≡ tcp_listen_port
      → f.rst ≡ false
      → f.syn ≡ false
      → f.ack ≡ true
      → ack_of b offset ≡ t.send.next
      → Returns (tcp_dispatch env b len offset s) (IsEstablished t p)
  unfolding edge_of
  acknowledgment_establishes p t blk e port rst syn ack right =
      let edge : edge_of f id t.state ≡ Edge.evt_ack = rw e (ground arith) in
      go (stepped s p t Edge.evt_ack good blk (found_again p blk.holds) edge e)
    where
      go :
          Returns
            (tcp_dispatch env b len offset s)
            (λ r. Handles env b len offset id s p t Edge.evt_ack r × IsGood r.2)
          → Returns (tcp_dispatch env b len offset s) (IsEstablished t p)
      go (r, run', (acked s' u same after blk', good')) =
          ((0, b, s'), run', record { block = u; after = after; silent = refl; held = blk' })
      go (r, run', (not_acked ne, good')) = absurd (ne right)
