-- ===== src/Legacy/Tcp/Known.antt =====
-- A segment of a known connection.
use lazy_tcp.Prelude.{
  ℕ, ◌+◌, ◌-◌, ◌≤◌, ◌≡◌, ◌≢◌, refl, arith, true, false, not, ◌&&◌, ltb, none, some, inl, inr, ◌==◌,
  ==_iff, ok, Returns, Bool-cases, sym, ◌∙◌,
}
use lazy_tcp.Word.{ntohs}
use lazy_tcp.Buf.{Buf, word16}
use lazy_tcp.Buf.Access.{load8-ok, load16-ok, load32-ok}
use lazy_tcp.Layout.{Ipv4, ip_at, Tcp, tcp_at}
use lazy_tcp.Transport.{fin_flag, syn_flag, rst_flag, ack_flag}
use lazy_tcp.State.Update.{ack_of}
use lazy_tcp.Segment.Prepared.{tcp_hlen}
use lazy_tcp.Segment.Reset.{flag}
use lazy_tcp.Legacy.Block.{Address, TcbNode, TcpState}
use lazy_tcp.Legacy.Connections.{TcpServerInstance}
use lazy_tcp.Legacy.Connections.Chain.{Entries, has, Represents, load_node-ok}
use lazy_tcp.Legacy.Connections.Remove.{tcp_remove_connection-IsRemoved}
use lazy_tcp.Legacy.Http.Response.{http_handle_request-IsMessage}
use lazy_tcp.Legacy.Segment.{World, on_sent}
use lazy_tcp.Legacy.Segment.Answer.{IsReceived}
use lazy_tcp.Legacy.Segment.SynAck.{tcp_null_syn_ack-Greets}
use lazy_tcp.Legacy.Segment.Ack.{tcp_send_ack-IsAnswer}
use lazy_tcp.Legacy.Tcp.{
  answered, tcp_silent, tcp_got_rst, tcp_handle_data, on_state, known_connection, set_node,
}
use lazy_tcp.Legacy.Tcp.Cases.{
  KnownCase, removed, reset_outside, repeated, established, not_established, closing, answered_data,
  no_data, waiting, IsReady, reset_in_window, data_len, taken, finished,
}

module _ (w : World) (b : Buf) (offset : ℕ) (r : IsReceived b offset) (s : TcpServerInstance)
    (es : Entries) (list : Represents s es) (ready : IsReady w b s es)
    (framed : ntohs (word16 b.at (ip_at Ipv4.len)) ≤ b.size) (p : Address) (t : TcbNode)
    (inside : has p es ≡ true) (held : s.nodes p ≡ some t) where
  abbrev flags : ℕ
  flags = b.at (offset + tcp_at Tcp.flags)

  abbrev Case : ℕ × Buf × TcpServerInstance → Type 0
  Case = KnownCase w b offset s es p t

  got_rst : flag b offset rst_flag ≡ true → Returns (known_connection w b offset flags p s) Case
  unfolding known_connection tcp_got_rst
  got_rst rst = elim (Bool-cases (reset_in_window b offset t)) [
    | inl within ↦
        let (s', run, gone) =
          tcp_remove_connection-IsRemoved w.steps s es p list inside ready.steps in
        (
          _,
          rw (
            rst,
            load32-ok b (offset + 4) (omega (arith, r.room)),
            load_node-ok s.nodes p held,
            within,
            run,
          ),
          removed s' rst within gone,
        )
    | inr without ↦ (
      _,
      rw (
        rst,
        load32-ok b (offset + 4) (omega (arith, r.room)),
        load_node-ok s.nodes p held,
        without,
      ),
      reset_outside rst without,
    )
  ]

  module _ (rst : flag b offset rst_flag ≡ false) where
    on_syn_received :
        t.state ≡ TcpState.tcp_syn_received
        → Returns (on_state w b offset flags p t TcpState.tcp_syn_received s) Case
    unfolding on_state
    on_syn_received e = elim (Bool-cases (flag b offset syn_flag && not (flag b offset ack_flag))) [
      | inl syn ↦
          let (g, run, greets) = tcp_null_syn_ack-Greets w b offset r s p t held ready.stack in
          (_, rw (syn, run), repeated g.0 g.1 rst e syn greets)
      | inr syn ↦ elim (Bool-cases (flag b offset ack_flag && not (flag b offset syn_flag))) [
        | inl ack ↦ elim (Bool-cases (ack_of b offset == t.send.next)) [
          | inl right ↦ (
            _,
            rw (syn, ack, load32-ok b (offset + 8) (omega (arith, r.room)), right),
            established rst e ack ((==_iff (ack_of b offset) t.send.next).0 right),
          )
          | inr wrong ↦ (
            _,
            rw (syn, ack, load32-ok b (offset + 8) (omega (arith, r.room)), wrong),
            not_established rst e syn
                (λ _ same. ground (arith, ==_iff (ack_of b offset) t.send.next)),
          )
        ]
        | inr ack ↦ (_, rw (syn, ack), not_established rst e syn (λ other. absurd (ground arith)))
      ]
    ]

    on_established :
        t.state ≡ TcpState.tcp_established
        → Returns (on_state w b offset flags p t TcpState.tcp_established s) Case
    unfolding on_state tcp_handle_data on_sent
    on_established e =
        let data_byte = r.bytes (offset + 12) in
        let low : offset + 60 ≤ b.size = r.room in
        let head : offset ≤ 60 = omega (arith, r.header) in
        let size = ready.small in
        let room = ready.room in
        elim (Bool-cases (flag b offset fin_flag)) [
          | inl fin ↦
              let (c, run, answer) =
                tcp_send_ack-IsAnswer w.stack b offset r (finished b offset t) none 0 ready.stack
                  refl (omega arith) (omega arith) in
              (_, rw (fin, load32-ok b (offset + 4) (omega arith), run), closing c rst e fin answer)
          | inr fin ↦ elim (Bool-cases (ltb 0 (data_len b offset))) [
            | inl more ↦
                let (m, reply, message) =
                  http_handle_request-IsMessage (b.size - 120) w.http_mem ready.http (omega arith)
                    (omega arith) w.file ready.servable b (offset + tcp_hlen b offset)
                    (data_len b offset) (ground arith) in
                let (c, run, answer) =
                  tcp_send_ack-IsAnswer w.stack b offset r (taken b offset t) (some m) m.size
                    ready.stack (message.bytes, message.some_bytes, omega arith)
                    (omega (arith, message.fits)) (omega (arith, message.fits)) in
                (
                  (answered, c, set_node s p (on_sent (some m) m.size (taken b offset t))),
                  rw (
                    fin,
                    load8-ok b 0 (omega arith),
                    load8-ok b (offset + 12) (omega arith),
                    load16-ok b 2 (omega arith),
                    r.header,
                    more,
                    reply,
                    load_node-ok s.nodes p held,
                    run,
                  ),
                  answered_data m c rst e fin (ground arith) message answer,
                )
            | inr more ↦ (
              _,
              rw (
                fin,
                load8-ok b 0 (omega arith),
                load8-ok b (offset + 12) (omega arith),
                load16-ok b 2 (omega arith),
                r.header,
                more,
              ),
              no_data rst e fin (ground arith),
            )
          ]
        ]

    idle :
        (c : TcpState)
        → t.state ≡ c
        → on_state w b offset flags p t c s ≡ ok (tcp_silent, b, s)
        → c ≢ TcpState.tcp_syn_received
        → c ≢ TcpState.tcp_established
        → Returns (on_state w b offset flags p t c s) Case
    idle c e run received ready' =
        (_, run, waiting rst (λ x. received (sym e ∙ x)) (λ x. ready' (sym e ∙ x)))

    opened_state : Returns (on_state w b offset flags p t t.state s) Case
    unfolding on_state
    opened_state = go t.state refl
      where
        go : (c : TcpState) → t.state ≡ c → Returns (on_state w b offset flags p t c s) Case
        go TcpState.tcp_syn_received e = on_syn_received e
        go TcpState.tcp_established e = on_established e
        go TcpState.tcp_close_wait e = idle TcpState.tcp_close_wait e refl (λ x. cc) (λ x. cc)
        go TcpState.tcp_closing e = idle TcpState.tcp_closing e refl (λ x. cc) (λ x. cc)
        go TcpState.tcp_last_ack e = idle TcpState.tcp_last_ack e refl (λ x. cc) (λ x. cc)
        go TcpState.tcp_time_wait e = idle TcpState.tcp_time_wait e refl (λ x. cc) (λ x. cc)

  -- For a received TCP packet whose total length fits the buffer, a list that stands for `es`, a
  -- block in it and surroundings as `IsReady` says, `known_connection` meets no fault and does what
  -- `KnownCase` says.
  pub known_connection-KnownCase : Returns (known_connection w b offset flags p s) Case
  unfolding known_connection
  known_connection-KnownCase = elim (Bool-cases (flag b offset rst_flag)) [
    | inl rst ↦ got_rst rst
    | inr rst ↦
        let (x, run, case) = opened_state rst in
        (x, rw (rst, load_node-ok s.nodes p held) run, case)
  ]
