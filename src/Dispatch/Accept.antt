-- ===== src/Dispatch/Accept.antt =====
-- What a segment whose checksum is right does: its event, the table, and the answer.
use lazy_tcp.Prelude.{
  ℕ, ◌+◌, ◌≤◌, ◌≡◌, ◌≢◌, refl, arith, some, none, Run, ◌>>=◌, Returns, if◌then◌else◌, sym, ◌∙◌,
}
use mathlib.Core.Path.{subst}
use lazy_tcp.Buf.{Buf, IsBytes}
use lazy_tcp.Ip.Laws.{IsPacket}
use lazy_tcp.Tcb.{Ptr, Tcb, ConId, ConState, Edge}
use lazy_tcp.Hash.{Table}
use lazy_tcp.Hash.Delete.{Deletes}
use lazy_tcp.State.{tcb_state_update, set_tcb}
use lazy_tcp.State.Connection.{
  IsConnection, closed, syn_received, established, AllConnections, AllConnections-free, IsRequested,
  IsAcknowledged, IsRequested-IsConnection, IsAcknowledged-IsConnection, IsConnection-HasWindow,
}
use lazy_tcp.State.Update.{
  Updates, requested, acknowledged, not_acknowledged, reset, not_reset, unchanged, deref-ok,
  tcb_state_update-Updates, seq_of, ack_of, window_of, InWindow,
}
use lazy_tcp.Transport.{Env, Flags, tcp_gen_iss}
use lazy_tcp.Segment.SynAck.{IsSynAck, tcp_syn_ack-IsSynAck}
use lazy_tcp.Segment.Reset.{IsReset, tcp_rst-IsReset}
use lazy_tcp.Dispatch.{respond, unless_dropped}
use lazy_tcp.Dispatch.Find.{Obtains}
use lazy_tcp.Dispatch.Edges.{Classifies, Expects}
use lazy_tcp.Dispatch.Good.{IsGood, HasBlock, written-IsGood, written-HasBlock}

-- the blocks that a request leads to from `t`
abbrev pub AfterSyn : Env → Buf → ℕ → Tcb → Tcb → Type 0
AfterSyn env b offset t u = IsRequested (tcp_gen_iss env) (seq_of b offset) (window_of b offset) t u

-- What an event does, for the connection `id` whose block is `t` at `p`: the length of the answer
-- (0 for none), the buffer, and the table.
pub data Handles (env : Env) (b : Buf) (len offset : ℕ) (id : ConId) (s : Table) (p : Ptr) (t : Tcb)
    : Edge → ℕ × Buf × Table → Type 0 where
  synced :
      (n : ℕ) (c : Buf) (s' : Table) (u : Tcb)
      → AfterSyn env b offset t u
      → IsSynAck b len offset u (n, c)
      → HasBlock s' id p u
      → Handles env b len offset id s p t Edge.evt_syn (n, c, s')
  acked :
      (s' : Table) (u : Tcb)
      → ack_of b offset ≡ t.send.next
      → IsAcknowledged (ack_of b offset) t u
      → HasBlock s' id p u
      → Handles env b len offset id s p t Edge.evt_ack (0, b, s')
  not_acked :
      ack_of b offset ≢ t.send.next → Handles env b len offset id s p t Edge.evt_ack (0, b, s)
  closes :
      (s' : Table)
      → InWindow (seq_of b offset) t
      → Deletes s id p s'
      → Handles env b len offset id s p t Edge.evt_rst (0, b, s')
  not_closes :
      ¬ InWindow (seq_of b offset) t → Handles env b len offset id s p t Edge.evt_rst (0, b, s)
  refused :
      (r : ℕ × Buf × Table)
      → IsReset env b offset s id p r
      → Handles env b len offset id s p t Edge.evt_send_rst r
  content : Handles env b len offset id s p t Edge.evt_data (0, b, s)

-- A segment of `id`, with flags `f`: memory ran out for its block, as `IsShort` says, or its block, its event and what the
-- event does.
pub data Accepts (env : Env) (b : Buf) (len offset : ℕ) (id : ConId) (f : Flags) (s : Table)
    : ℕ × Buf × Table → Type 0 where
  no_memory :
      (s' : Table) → Obtains env id s (none, s') → Accepts env b len offset id f s (0, b, s')
  handled :
      (s1 : Table) (p : Ptr) (t : Tcb) (e : Edge) (r : ℕ × Buf × Table)
      → Obtains env id s (some p, s1)
      → HasBlock s1 id p t
      → Classifies f id.dst_port t.state e
      → Handles env b len offset id s1 p t e r
      → Accepts env b len offset id f s r

Deletes-IsGood : {s s' : Table} {a : ConId} {p : Ptr} → IsGood s → Deletes s a p s' → IsGood s'
Deletes-IsGood {s} {p} good d = record {
  table = d.valid;
  blocks = subst AllConnections (sym d.heap) (AllConnections-free s.heap p good.blocks);
}

module _ (env : Env) (b : Buf) (len offset : ℕ) (pkt : IsPacket b len offset)
    (room : offset + 60 ≤ b.size) (stack : IsBytes env.stack) (id : ConId) (s : Table) (p : Ptr)
    (t : Tcb) (good : IsGood s) (block : HasBlock s id p t) where
  -- the update and the answer
  abbrev step : Edge → Run (ℕ × Buf × Table)
  step e = do
    (valid, s2) ← tcb_state_update env b offset (unless_dropped e p) e s
    respond env (if valid then e else Edge.evt_drop) (unless_dropped e p) b len offset s2

  -- what a step does, and that the state stays good
  abbrev Steps : Edge → ℕ × Buf × Table → Type 0
  Steps e r = Handles env b len offset id s p t e r × IsGood r.2

  update :
      (e : Edge)
      → Returns (tcb_state_update env b offset (some p) e s) (Updates env b offset s id p t e)
  update e =
      tcb_state_update-Updates env b offset s id p t e (omega arith) good.table block.holds block.at
        (IsConnection-HasWindow t block.connection)

  closed_window :
      (u : Tcb) → t.state ≡ ConState.con_closed → AfterSyn env b offset t u → IsConnection u
  closed_window u e after = go block.connection
    where
      go : IsConnection t → IsConnection u
      go (closed e' w _) =
          IsRequested-IsConnection (tcp_gen_iss env) (seq_of b offset) (window_of b offset) t u e w
            after
      go (syn_received e' w n _) = absurd (ground arith)
      go (established e' w n _) = absurd (ground arith)

  step_syn : t.state ≡ ConState.con_closed → Returns (step Edge.evt_syn) (Steps Edge.evt_syn)
  unfolding respond
  step_syn e = go (update Edge.evt_syn)
    where
      go :
          Returns
            (tcb_state_update env b offset (some p) Edge.evt_syn s)
            (Updates env b offset s id p t Edge.evt_syn)
          → Returns (step Edge.evt_syn) (Steps Edge.evt_syn)
      go (r, run, requested u after) =
          let c = closed_window u e after in
          let same : u.id ≡ id = after.id ∙ block.named in
          let written = written-HasBlock s id p t u good block same c in
          let ((n, d), answered, spec) =
            tcp_syn_ack-IsSynAck b len offset pkt room u env.stack (set_tcb s p u) (some p) p stack
              (deref-ok (set_tcb s p u).heap p written.at) in
          (
            (n, d, set_tcb s p u),
            rw (run, answered),
            (
              synced n d (set_tcb s p u) u after spec written,
              written-IsGood s id p t u good block same c,
            ),
          )
      go (r, run, unchanged _ a _ _) = absurd (a refl)

  step_ack : t.state ≡ ConState.con_syn_received → Returns (step Edge.evt_ack) (Steps Edge.evt_ack)
  unfolding respond
  step_ack e = go (update Edge.evt_ack)
    where
      go :
          Returns
            (tcb_state_update env b offset (some p) Edge.evt_ack s)
            (Updates env b offset s id p t Edge.evt_ack)
          → Returns (step Edge.evt_ack) (Steps Edge.evt_ack)
      go (r, run, acknowledged u hit after) =
          let same : u.id ≡ id = after.id ∙ block.named in
          let c = IsAcknowledged-IsConnection (ack_of b offset) t u e hit after block.connection in
          (
            (0, b, set_tcb s p u),
            rw run,
            (
              acked (set_tcb s p u) u hit after (written-HasBlock s id p t u good block same c),
              written-IsGood s id p t u good block same c,
            ),
          )
      go (r, run, not_acknowledged miss) = ((0, b, s), rw run, (not_acked miss, good))
      go (r, run, unchanged _ _ a _) = absurd (a refl)

  step_rst : Returns (step Edge.evt_rst) (Steps Edge.evt_rst)
  unfolding respond
  step_rst = go (update Edge.evt_rst)
    where
      go :
          Returns
            (tcb_state_update env b offset (some p) Edge.evt_rst s)
            (Updates env b offset s id p t Edge.evt_rst)
          → Returns (step Edge.evt_rst) (Steps Edge.evt_rst)
      go (r, run, reset s' inside deletes) =
          ((0, b, s'), rw run, (closes s' inside deletes, Deletes-IsGood good deletes))
      go (r, run, not_reset outside) = ((0, b, s), rw run, (not_closes outside, good))
      go (r, run, unchanged _ _ _ a) = absurd (a refl)

  step_refused : Returns (step Edge.evt_send_rst) (Steps Edge.evt_send_rst)
  unfolding respond tcb_state_update
  step_refused =
      let (r, run, spec) =
        tcp_rst-IsReset env b len offset pkt (omega arith) s id p good.table block.holds in
      (r, run, (refused r spec, Deletes-IsGood good spec.table))

  step_content : Returns (step Edge.evt_data) (Steps Edge.evt_data)
  unfolding respond tcb_state_update
  step_content = ((0, b, s), refl, (content, good))

  pub step_of : (e : Edge) → Expects e t.state → Returns (step e) (Steps e)
  step_of Edge.evt_syn h = step_syn h
  step_of Edge.evt_data h = step_content
  step_of Edge.evt_ack h = step_ack h
  step_of Edge.evt_fin h = absurd h
  step_of Edge.evt_rst h = step_rst
  step_of Edge.evt_drop h = absurd h
  step_of Edge.evt_send_rst h = step_refused
