-- ===== src/Legacy/Tcp/Safe.antt =====
-- The dispatcher of the older server on every segment, and what each handling keeps.
use lazy_tcp.Prelude.{ℕ, ◌+◌, ◌≤◌, ◌≡◌, ◌⊎◌, refl, arith, some, inl, inr, Returns, Option-cases}
use lazy_tcp.Word.{ntohs}
use lazy_tcp.Buf.{Buf, IsBytes, word16}
use lazy_tcp.Buf.Access.{load8-ok, load16-ok, load32-ok}
use lazy_tcp.Layout.{Ipv4, ip_at}
use lazy_tcp.Segment.Prepared.{tcp_hlen}
use lazy_tcp.Legacy.Block.{Address, TcbNode}
use lazy_tcp.Legacy.Connections.{TcpServerInstance}
use lazy_tcp.Legacy.Connections.Chain.{Entries, lookup, count, Represents, lookup-has}
use lazy_tcp.Legacy.Connections.Walks.{tcp_get_state-lookup}
use lazy_tcp.Legacy.Connections.Insert.{count-append, Chain-node}
use lazy_tcp.Legacy.Connections.Remove.{drop, count-drop-le}
use lazy_tcp.Legacy.Segment.{World, on_sent}
use lazy_tcp.Legacy.Segment.Bytes.{Wanted}
use lazy_tcp.Legacy.Segment.Answer.{IsAnswer, IsReceived}
use lazy_tcp.Legacy.Segment.SynAck.{requested, requested-kept}
use lazy_tcp.Legacy.Tcp.{tcp_silent, answered, tcp_dispatch, set_node}
use lazy_tcp.Legacy.Tcp.Cases.{
  connection, NewCase, reset_unknown, opened, refused, KnownCase, removed, reset_outside, repeated,
  established, not_established, closing, answered_data, no_data, waiting, Handles, new, known,
  IsReady, acknowledged,
}
use lazy_tcp.Legacy.Tcp.New.{Represents-set, new_connection-NewCase}
use lazy_tcp.Legacy.Tcp.Known.{known_connection-KnownCase}

-- The list stays one of distinct blocks and identities and grows by at most one, the packet stays
-- one of bytes in the buffer, and an answer's total length fits the buffer.
pub record Keeps (b : Buf) (es : Entries) (r : ℕ × Buf × TcpServerInstance) : Type 0 where
  pub after : Entries
  pub list : Represents r.2 after
  pub longer : count after ≤ count es + 1
  pub size : r.1.size ≡ b.size
  pub bytes : IsBytes r.1.at
  pub code :
      (r.0 ≡ tcp_silent) ⊎ ((r.0 ≡ answered) × (ntohs (word16 r.1.at (ip_at Ipv4.len)) ≤ b.size))

module _ (w : World) (b : Buf) (offset : ℕ) (r : IsReceived b offset) (s : TcpServerInstance)
    (es : Entries) (list : Represents s es) (ready : IsReady w b s es)
    (framed : ntohs (word16 b.at (ip_at Ipv4.len)) ≤ b.size) where
  -- For a received TCP packet whose total length fits the buffer, a list that stands for `es` and
  -- surroundings as `IsReady` says, `tcp_dispatch` meets no fault and does what `Handles` says.
  pub tcp_dispatch-Handles : Returns (tcp_dispatch w b offset s) (Handles w b offset s es)
  unfolding tcp_dispatch
  tcp_dispatch-Handles =
      let room : offset + 60 ≤ b.size = r.room in
      let low : 20 ≤ offset = r.long in
      let found = tcp_get_state-lookup w.steps (connection b offset) s es list ready.steps in
      elim (Option-cases (lookup (connection b offset) es)) [
        | inl absent ↦
            let (x, run, case) = new_connection-NewCase w b offset r s es list ready absent in
            (
              x,
              rw
                  (
                    load32-ok b 12 (omega arith),
                    load32-ok b 16 (omega arith),
                    load16-ok b (offset + 0) (omega arith),
                    load16-ok b (offset + 2) (omega arith),
                    load8-ok b (offset + 13) (omega arith),
                    found,
                    absent,
                  )
                  run,
              new absent case,
            )
        | inr (p, there) ↦
            let inside = lookup-has (connection b offset) es p there in
            let (t, held) = Chain-node p list.chain inside in
            let (x, run, case) =
              known_connection-KnownCase w b offset r s es list ready framed p t inside held in
            (
              x,
              rw
                  (
                    load32-ok b 12 (omega arith),
                    load32-ok b 16 (omega arith),
                    load16-ok b (offset + 0) (omega arith),
                    load16-ok b (offset + 2) (omega arith),
                    load8-ok b (offset + 13) (omega arith),
                    found,
                    there,
                  )
                  run,
              known p t there held case,
            )
      ]

  -- nothing was changed
  Keeps-quiet : Keeps b es (tcp_silent, b, s)
  Keeps-quiet = record {
    after = es;
    list = list;
    longer = omega arith;
    size = refl;
    bytes = r.bytes;
    code = inl refl;
  }

  -- an answer with a body that fits behind the headers
  Keeps-answer :
      (want : Wanted) (c : Buf) (s' : TcpServerInstance) (es' : Entries)
      → IsAnswer b offset (tcp_hlen b offset) want c
      → want.body_len + 120 ≤ b.size
      → Represents s' es'
      → count es' ≤ count es + 1
      → Keeps b es (answered, c, s')
  Keeps-answer want c s' es' answer fits list' longer =
      let data_byte = r.bytes (offset + 12) in
      let head : offset ≤ 60 = omega (arith, r.header) in
      record {
        after = es';
        list = list';
        longer = longer;
        size = answer.size;
        bytes = answer.bytes;
        code = inr (refl, omega (arith, answer.total));
      }

  Keeps-new : (x : ℕ × Buf × TcpServerInstance) → NewCase w b offset s es x → Keeps b es x
  Keeps-new _ (reset_unknown rst) = Keeps-quiet
  Keeps-new _ (opened p c s' rst syn free answer list' own others) =
      Keeps-answer _ c s' _ answer (omega (arith, ready.room)) list'
        (omega (arith, count-append p (connection b offset) es))
  Keeps-new _ (refused c rst syn answer) =
      Keeps-answer _ c s es answer (omega (arith, ready.room)) list (omega arith)

  module _ (p : Address) (t : TcbNode) (held : s.nodes p ≡ some t) where
    kept_by : (u : TcbNode) → u.id ≡ t.id → u.next ≡ t.next → Represents (set_node s p u) es
    kept_by u id next = Represents-set s es p t u list held id next

    Keeps-known : (x : ℕ × Buf × TcpServerInstance) → KnownCase w b offset s es p t x → Keeps b es x
    unfolding on_sent
    Keeps-known _ (removed s' rst within gone) = record {
      after = drop p es;
      list = gone.list;
      longer = omega (arith, count-drop-le p es);
      size = refl;
      bytes = r.bytes;
      code = inl refl;
    }
    Keeps-known _ (reset_outside rst without) = Keeps-quiet
    Keeps-known _ (repeated c s' rst e syn greets) = record {
      after = es;
      list =
          let (id, next) = requested-kept w b offset t in
          rw greets.states (kept_by (requested w b offset t) id next);
      longer = omega arith;
      size = greets.answer.size;
      bytes = greets.answer.bytes;
      code = inl refl;
    }
    Keeps-known _ (established rst e ack right) = record {
      after = es;
      list = kept_by (acknowledged b offset t) refl refl;
      longer = omega arith;
      size = refl;
      bytes = r.bytes;
      code = inl refl;
    }
    Keeps-known _ (not_established rst e syn wrong) = Keeps-quiet
    Keeps-known _ (closing c rst e fin answer) =
        Keeps-answer _ c _ es answer (omega (arith, ready.room)) (kept_by _ refl refl) (omega arith)
    Keeps-known _ (answered_data m c rst e fin more message answer) =
        Keeps-answer _ c _ es answer (omega (arith, message.fits, ready.room))
          (kept_by _ (ground arith) (ground arith)) (omega arith)
    Keeps-known _ (no_data rst e fin none_left) = Keeps-quiet
    Keeps-known _ (waiting rst received ready') = Keeps-quiet

  pub Handles-Keeps : (x : ℕ × Buf × TcpServerInstance) → Handles w b offset s es x → Keeps b es x
  Handles-Keeps x (new absent case) = Keeps-new x case
  Handles-Keeps x (known p t there held case) = Keeps-known p t held x case

  -- For a received TCP packet whose total length fits the buffer, a list that stands for `es` and
  -- surroundings as `IsReady` says, `tcp_dispatch` meets no fault and keeps what `Keeps` says.
  pub tcp_dispatch-Keeps : Returns (tcp_dispatch w b offset s) (Keeps b es)
  tcp_dispatch-Keeps = let (x, run, is) = tcp_dispatch-Handles in (x, run, Handles-Keeps x is)
