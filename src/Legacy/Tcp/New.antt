-- ===== src/Legacy/Tcp/New.antt =====
-- A segment of no known connection.
use lazy_tcp.Prelude.{
  ℕ, ◌+◌, ◌≡◌, ◌≢◌, refl, arith, true, false, not, ◌&&◌, Option, none, some, [], ◌∷◌, ◌++◌, inl,
  inr, ◌==◌, ==_iff, ok, Returns, Bool-cases, ap, ◌∙◌,
}
use lazy_tcp.Buf.{Buf}
use lazy_tcp.Layout.{Tcp, tcp_at}
use lazy_tcp.Transport.{syn_flag, rst_flag, ack_flag}
use lazy_tcp.Segment.Reset.{flag}
use lazy_tcp.Legacy.Block.{Address, TcbNode, put_node, new_node, tcp_init_tcb}
use lazy_tcp.Legacy.Connections.{TcpServerInstance, tcp_insert_tcb}
use lazy_tcp.Legacy.Connections.Chain.{Entries, lookup, Represents, frame, frame-put, has_not_free}
use lazy_tcp.Legacy.Connections.Insert.{body, IsInserted, kept, appended, tcp_insert_tcb-IsInserted}
use lazy_tcp.Legacy.Segment.{World, tcp_null_syn_ack}
use lazy_tcp.Legacy.Segment.Answer.{IsReceived}
use lazy_tcp.Legacy.Segment.Reset.{tcp_null_rst-IsAnswer}
use lazy_tcp.Legacy.Segment.SynAck.{requested, requested-kept, Greets, tcp_null_syn_ack-Greets}
use lazy_tcp.Legacy.Tcp.{answered, new_connection, set_node}
use lazy_tcp.Legacy.Tcp.Cases.{connection, NewCase, reset_unknown, opened, refused, IsReady}

-- A block is written over with the same identity and `next`.
pub Represents-set :
    (s : TcpServerInstance) (es : Entries) (p : Address) (t u : TcbNode)
    → Represents s es
    → s.nodes p ≡ some t
    → u.id ≡ t.id
    → u.next ≡ t.next
    → Represents (set_node s p u) es
Represents-set s es p t u r at id next = record {
  chain = frame (put_node s.nodes p (some u)) r.chain (λ q i. elim (Bool-cases (q == p)) [
    | inl same ↦ rw (same, (==_iff q p).0 same, at, id, next)
    | inr other ↦ rw other
  ]);
  size = r.size;
}

module _ (w : World) (b : Buf) (offset : ℕ) (r : IsReceived b offset) (s : TcpServerInstance)
    (es : Entries) (list : Represents s es) (ready : IsReady w b s es)
    (absent : lookup (connection b offset) es ≡ none) where
  abbrev fresh : TcbNode
  fresh = new_node (connection b offset)

  abbrev with_fresh : Address → TcpServerInstance
  with_fresh p = record s { nodes = put_node s.nodes p (some fresh) }

  -- the new block at the end of the list
  record IsOpened (p : Address) (s1 : TcpServerInstance) : Type 0 where
    pub longer : Represents s1 (es ++ (p, connection b offset) ∷ [])
    pub own : s1.nodes p ≡ some fresh
    pub others : (q : Address) → q ≢ p → body (s1.nodes q) ≡ body (s.nodes q)

  open_list :
      (p : Address)
      → s.nodes p ≡ none
      → Returns (tcp_insert_tcb w.steps (some p) (with_fresh p)) (IsOpened p)
  unfolding new_node
  open_list p free =
      let out = has_not_free p list.chain free in
      let list' : Represents (with_fresh p) es = record {
        chain = frame-put p (some fresh) list.chain out;
        size = list.size;
      } in
      let own : (with_fresh p).nodes p ≡ some fresh = ground arith in
      let (s1, run, is) =
        tcp_insert_tcb-IsInserted (with_fresh p) p fresh own refl w.steps es list' ready.steps
          out in
      (s1, run, go s1 own is)
    where
      go :
          (s1 : TcpServerInstance)
          → (with_fresh p).nodes p ≡ some fresh
          → IsInserted (with_fresh p) es p fresh.id s1
          → IsOpened p s1
      go s1 own (kept q there same) = absurd (ground (arith, absent))
      go s1 own (appended new list'' others same) = record {
        longer = list'';
        own = same ∙ own;
        others = λ q ne. let e : (q == p) ≡ false = ground arith in others q ∙ rw e refl;
      }

  made :
      (p : Address)
      → w.tcb_mem ≡ some p
      → tcp_init_tcb w.tcb_mem (connection b offset) s.nodes ≡ (some p, (with_fresh p).nodes)
  unfolding tcp_init_tcb
  made p mem = ap (λ (m : Option Address). tcp_init_tcb m (connection b offset) s.nodes) mem

  run_opened :
      (p : Address) (s1 : TcpServerInstance) (g : Buf × TcpServerInstance)
      → flag b offset rst_flag ≡ false
      → (flag b offset syn_flag && not (flag b offset ack_flag)) ≡ true
      → w.tcb_mem ≡ some p
      → tcp_insert_tcb w.steps (some p) (with_fresh p) ≡ ok s1
      → tcp_null_syn_ack w b offset (some p) s1 ≡ ok g
      → new_connection w b offset (b.at (offset + tcp_at Tcp.flags)) (connection b offset) s
        ≡ ok (answered, g.0, g.1)
  unfolding new_connection
  run_opened p s1 g rst syn mem inserts answers = rw (rst, syn, made p mem, inserts, answers)

  -- the outcome where the block was opened and the answer made
  opened_case :
      (p : Address) (s1 : TcpServerInstance) (g : Buf × TcpServerInstance)
      → flag b offset rst_flag ≡ false
      → (flag b offset syn_flag && not (flag b offset ack_flag)) ≡ true
      → s.nodes p ≡ none
      → IsOpened p s1
      → Greets b offset s1 p (requested w b offset fresh) g
      → NewCase w b offset s es (answered, g.0, g.1)
  opened_case p s1 g rst syn free o greets =
      let (id, next) = requested-kept w b offset fresh in
      let t = requested w b offset fresh in
      let longer =
        Represents-set s1 (es ++ (p, connection b offset) ∷ []) p fresh t o.longer o.own id next in
      let own : g.1.nodes p ≡ some t = rw greets.states (ground arith) in
      let others : (q : Address) → q ≢ p → body (g.1.nodes q) ≡ body (s.nodes q) = λ q ne.
        let apart : (q == p) ≡ false = ground arith in rw (greets.states, apart) (o.others q ne) in
      opened p g.0 g.1 rst syn free greets.answer (rw greets.states longer) own others

  -- For a received TCP packet of no known connection, a list that stands for `es` and surroundings
  -- as `IsReady` says, `new_connection` meets no fault and does what `NewCase` says.
  pub new_connection-NewCase :
      Returns
        (new_connection w b offset (b.at (offset + tcp_at Tcp.flags)) (connection b offset) s)
        (NewCase w b offset s es)
  unfolding new_connection
  new_connection-NewCase = elim (Bool-cases (flag b offset rst_flag)) [
    | inl rst ↦ (_, rw rst, reset_unknown rst)
    | inr rst ↦ elim (Bool-cases (flag b offset syn_flag && not (flag b offset ack_flag))) [
      | inl syn ↦
          let (p, mem, free) = ready.mem in
          let (s1, run, o) = open_list p free in
          let (g, run', greets) =
            tcp_null_syn_ack-Greets w b offset r s1 p fresh o.own ready.stack in
          (
            (answered, g.0, g.1),
            run_opened p s1 g rst syn mem run run',
            opened_case p s1 g rst syn free o greets,
          )
      | inr syn ↦
          let (c, run, answer) = tcp_null_rst-IsAnswer w.stack b offset r ready.stack in
          (_, rw (rst, syn, run), refused c rst syn answer)
    ]
  ]
