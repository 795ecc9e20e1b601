-- ===== src/Dispatch/Safe.antt =====
-- The whole of the dispatcher: a segment with the right checksum is handled, any other is ignored.
use lazy_tcp.Prelude.{
  ℕ, ◌+◌, ◌≤◌, ◌≡◌, inl, inr, refl, arith, not, Option, some, none, ok, Run, ◌>>=◌, Returns,
  if◌then◌else◌, Bool-cases, ◌==◌, ==_iff, ◌∙◌,
}
use lazy_tcp.Buf.{Buf, IsBytes, word16, word32}
use lazy_tcp.Buf.Access.{load8-ok, load16-ok, load32-ok}
use lazy_tcp.Word.{ntohs, ntohl}
use lazy_tcp.Layout.{Ipv4, ip_at, Tcp, tcp_at}
use lazy_tcp.Ip.Laws.{IsPacket}
use lazy_tcp.Tcb.{Ptr, ConId, Edge}
use lazy_tcp.Tcb.Ids.{load-ok}
use lazy_tcp.Hash.{Table}
use lazy_tcp.Hash.Insert.{HasRoom}
use lazy_tcp.State.{tcb_state_update}
use lazy_tcp.Transport.{Env, Flags}
use lazy_tcp.Transport.Sum.{tcp_sum, tcp_checksum-ok}
use lazy_tcp.Dispatch.{
  edge_of, find_or_insert, tcp_parse_edge, respond, tcp_accept, tcp_dispatch, flags_of,
}
use lazy_tcp.Dispatch.Find.{IsFreshMem, Obtains, find_or_insert-Obtains}
use lazy_tcp.Dispatch.Edges.{edge_of-Classifies, Classifies-Expects}
use lazy_tcp.Dispatch.Good.{IsGood, has_block, Obtains-IsGood, Obtains-Holds}
use lazy_tcp.Dispatch.Accept.{Accepts, no_memory, handled, step_of}

-- The connection that a segment names, and its flags.
abbrev pub con_id : Buf → ℕ → ConId
con_id b offset = record {
  src_port = ntohs (word16 b.at (offset + tcp_at Tcp.src_port));
  dst_port = ntohs (word16 b.at (offset + tcp_at Tcp.dst_port));
  src_ip = ntohl (word32 b.at (ip_at Ipv4.src));
  dst_ip = ntohl (word32 b.at (ip_at Ipv4.dst));
}

abbrev pub flags_at : Buf → ℕ → Flags
flags_at b offset = flags_of (b.at (offset + tcp_at Tcp.flags))

-- What a server may assume of its surroundings when a packet comes in: `malloc` returns unused
-- memory, memory holds bytes, and no bucket is near 2 ^ 32 blocks.
pub record IsReady (env : Env) (s : Table) : Type 0 where
  pub fresh : IsFreshMem env s.heap
  pub stack : IsBytes env.stack
  pub room : HasRoom s

-- The segment carries the checksum of its bytes.
abbrev pub IsIntact : Buf → (len offset : ℕ) → Type 0
IsIntact b len offset = word16 b.at (offset + tcp_at Tcp.checksum) ≡ tcp_sum b.at len offset

-- The result of a dispatch: a segment with the right checksum is accepted, any other ignored.
pub data Dispatches (env : Env) (b : Buf) (len offset : ℕ) (s : Table)
    : ℕ × Buf × Table → Type 0 where
  accepted :
      (r : ℕ × Buf × Table)
      → IsIntact b len offset
      → Accepts env b len offset (con_id b offset) (flags_at b offset) s r
      → Dispatches env b len offset s r
  ignored : ¬ IsIntact b len offset → Dispatches env b len offset s (0, b, s)

module _ (env : Env) (b : Buf) (len offset : ℕ) (pkt : IsPacket b len offset)
    (room : offset + 60 ≤ b.size) (s : Table) (good : IsGood s) (ready : IsReady env s) where
  abbrev id : ConId
  id = con_id b offset

  abbrev f : Flags
  f = flags_at b offset

  abbrev IsAccepted : ℕ × Buf × Table → Type 0
  IsAccepted r = Accepts env b len offset id f s r × IsGood r.2

  -- what follows `tcp_parse_edge`
  abbrev proceed : Edge × Option Ptr × Table → Run (ℕ × Buf × Table)
  proceed (edge, tcb, s1) = do
    (valid, s2) ← tcb_state_update env b offset tcb edge s1
    respond env (if valid then edge else Edge.evt_drop) tcb b len offset s2

  parsed :
      (r : Option Ptr × Table)
      → Obtains env id s r
      → find_or_insert env id s ≡ ok r
      → Returns (do e ← tcp_parse_edge env f id s; proceed e) IsAccepted
  unfolding tcp_parse_edge
  parsed (none, s1) o run = (
    (0, b, s1),
    rw run (unfold tcb_state_update respond in refl),
    (no_memory s1 o, Obtains-IsGood (none, s1) good o),
  )
  parsed (some p, s1) o run =
      let good1 = Obtains-IsGood (some p, s1) good o in
      let (t, block) = has_block s1 id p good1 (Obtains-Holds p o) in
      let e = edge_of f id t.state in
      let c = edge_of-Classifies f id t block.connection in
      let (r, stepped, (h, good2)) =
        step_of env b len offset pkt room ready.stack id s1 p t good1 block e
          (Classifies-Expects t.state e c) in
      (r, rw (run, load-ok s1.heap p block.at) stepped, (handled s1 p t e r o block c h, good2))

  pub tcp_accept-Accepts : Returns (tcp_accept env b len offset s) IsAccepted
  unfolding tcp_accept
  tcp_accept-Accepts =
      let (r, run, o) = find_or_insert-Obtains env id s good.table ready.room ready.fresh in
      let (out, all, spec) = parsed r o run in
      (
        out,
        rw
            (
              load16-ok b (offset + 0) (omega arith),
              load16-ok b (offset + 2) (omega arith),
              load32-ok b 12 (omega (arith, pkt.long)),
              load32-ok b 16 (omega (arith, pkt.long)),
              load8-ok b (offset + 13) (omega arith),
            )
            all,
        spec,
      )

  -- For a packet with room for both headers, a good state and surroundings as `IsReady` says,
  -- `tcp_dispatch` meets no fault, its result is one of the cases of `Dispatches`, without an
  -- answer for want of memory only where memory ran out, and the state after it is good.
  pub tcp_dispatch-Dispatches :
      Returns (tcp_dispatch env b len offset s) λ r. Dispatches env b len offset s r × IsGood r.2
  unfolding tcp_dispatch
  tcp_dispatch-Dispatches =
      let at = word16 b.at (offset + 16) in
      let run : tcp_dispatch env b len offset s ≡ (
          if not (at == tcp_sum b.at len offset)
          then ok (0, b, s)
          else tcp_accept env b len offset s) =
        rw (
          tcp_checksum-ok env.stack b len offset ready.stack pkt (omega arith),
          load16-ok b (offset + 16) (omega arith),
        ) in
      elim (Bool-cases (at == tcp_sum b.at len offset)) [
        | inl hit ↦
            let (r, taken, (a, kept)) = tcp_accept-Accepts in
            let intact = (==_iff at (tcp_sum b.at len offset)).0 hit in
            (r, run ∙ rw hit taken, (accepted r intact a, kept))
        | inr miss ↦
            let broken : ¬ IsIntact b len offset = λ e. ground arith in
            ((0, b, s), run ∙ rw miss, (ignored broken, good))
      ]
