-- ===== src/Legacy/Block.antt =====
-- A connection's block in the older server and its allocation (network/tcp/tcp.h,
-- network/tcp/tcp.c). An `int` field is its 32-bit pattern; the addresses and ports of an identity
-- are the raw words of the packet.
use lazy_tcp.Prelude.{ℕ, Bool, false, true, Option, none, some, ◌==◌, if◌then◌else◌, Run, ok, fault}

pub data TcpState : Type 0 where
  tcp_syn_received tcp_established tcp_close_wait tcp_closing tcp_last_ack tcp_time_wait : TcpState

pub record TcpConnectionId : Type 0 where
  pub src_ip : ℕ
  pub src_port : ℕ
  pub dst_ip : ℕ
  pub dst_port : ℕ

pub record TcpSendState : Type 0 where
  pub unac : ℕ
  pub next : ℕ
  pub window : ℕ
  pub iss : ℕ

pub record TcpReceiveState : Type 0 where
  pub next : ℕ
  pub window : ℕ
  pub irs : ℕ

abbrev pub Address : Type 0
Address = ℕ

pub record TcbNode : Type 0 where
  pub id : TcpConnectionId
  pub state : TcpState
  pub send : TcpSendState
  pub recv : TcpReceiveState
  pub recv_buffer : ℕ → ℕ
  pub recv_size : ℕ
  pub recv_consumed : ℕ
  pub next : Option Address

-- the blocks that were allocated and not freed
abbrev pub Nodes : Type 0
Nodes = Address → Option TcbNode

abbrev pub put_node : Nodes → Address → Option TcbNode → Nodes
put_node h p c q = if q == p then c else h q

-- `*p`
unfoldable pub load_node : Nodes → Address → Run TcbNode
load_node h p = elim (h p) [ none ↦ fault | some t ↦ ok t ]

-- a pointer that may be NULL, and what it points to
unfoldable pub deref_node : Nodes → Option Address → Run (Address × TcbNode)
deref_node h none = fault
deref_node h (some p) = elim (h p) [ none ↦ fault | some t ↦ ok (p, t) ]

-- `free(p)`: a pointer that is not allocated is a fault
unfoldable pub free_node : Nodes → Address → Run Nodes
free_node h p = elim (h p) [ none ↦ fault | some t ↦ ok (put_node h p none) ]

unfoldable pub tcp_compare_id : TcpConnectionId → TcpConnectionId → Bool
tcp_compare_id a b =
    if a.src_ip == b.src_ip
    then (if a.src_port == b.src_port
        then (if a.dst_ip == b.dst_ip
            then (if a.dst_port == b.dst_port then true else false)
            else false)
        else false)
    else false

-- the block that `tcp_init_tcb` fills in
unfoldable pub new_node : TcpConnectionId → TcbNode
new_node id = record {
  id = record {
    src_ip = id.src_ip;
    src_port = id.src_port;
    dst_ip = id.dst_ip;
    dst_port = id.dst_port;
  };
  state = TcpState.tcp_syn_received;
  send = record { unac = 0; next = 0; window = 0; iss = 0 };
  recv = record { next = 0; window = 8192; irs = 0 };
  recv_buffer = λ _. 0;
  recv_size = 0;
  recv_consumed = 0;
  next = none;
}

-- `mem` is what `malloc` returns: `none` for NULL
unfoldable pub tcp_init_tcb :
    (mem : Option Address) → TcpConnectionId → Nodes → Option Address × Nodes
tcp_init_tcb none id h = (none, h)
tcp_init_tcb (some p) id h = (some p, put_node h p (some (new_node id)))
