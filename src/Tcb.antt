-- ===== src/Tcb.antt =====
-- The transmission control block (refactor/network/tcp/tcb.h, refactor/network/tcp/tcb.c): its
-- data, the identity test, and its allocation on a heap of blocks.
pub mod Ids
use lazy_tcp.Prelude.{ℕ, Bool, true, false, Option, none, some, ◌&&◌, ◌==◌, if◌then◌else◌}
use lazy_tcp.Prelude.{Run, ok, fault}

-- `TCP_WIN_DEF`
abbrev pub tcp_win_def : ℕ
tcp_win_def = 8192

pub data Edge : Type 0 where
  evt_syn evt_data evt_ack evt_fin evt_rst evt_drop evt_send_rst : Edge

pub data ConState : Type 0 where
  con_closed con_syn_received con_established con_close_wait con_closing con_last_ack
        con_time_wait :
      ConState

pub record ConId : Type 0 where
  pub src_port : ℕ
  pub dst_port : ℕ
  pub src_ip : ℕ
  pub dst_ip : ℕ

pub record SendState : Type 0 where
  pub unac : ℕ
  pub next : ℕ
  pub window : ℕ
  pub iss : ℕ

pub record ReceiveState : Type 0 where
  pub next : ℕ
  pub window : ℕ
  pub irs : ℕ

pub record Tcb : Type 0 where
  pub id : ConId
  pub send : SendState
  pub recv : ReceiveState
  pub recv_buf : ℕ → ℕ
  pub recv_size : ℕ
  pub recv_consumed : ℕ
  pub state : ConState

-- An address of a block. The heap holds the blocks that were allocated and not freed.
abbrev pub Ptr : Type 0
Ptr = ℕ

abbrev pub Heap : Type 0
Heap = Ptr → Option Tcb

abbrev pub write : Heap → Ptr → Option Tcb → Heap
write h p c q = if q == p then c else h q

-- `*p`
unfoldable pub load : Heap → Ptr → Run Tcb
load h p = elim (h p) [ none ↦ fault | some t ↦ ok t ]

-- `free(p)`: a pointer that is not allocated is a fault
unfoldable pub free : Heap → Ptr → Run Heap
free h p = elim (h p) [ none ↦ fault | some t ↦ ok (write h p none) ]

unfoldable pub tcb_id_match : ConId → ConId → Bool
tcb_id_match a b =
    a.src_ip == b.src_ip
    && a.dst_ip == b.dst_ip
    && a.src_port == b.src_port
    && a.dst_port == b.dst_port

-- the block that `tcb_init` fills in
unfoldable pub new_tcb : ConId → Tcb
new_tcb id = record {
  id = record {
    src_port = id.src_port;
    dst_port = id.dst_port;
    src_ip = id.src_ip;
    dst_ip = id.dst_ip;
  };
  send = record { unac = 0; next = 0; window = 0; iss = 0 };
  recv = record { next = 0; window = tcp_win_def; irs = 0 };
  recv_buf = λ _. 0;
  recv_size = 0;
  recv_consumed = 0;
  state = ConState.con_closed;
}

-- `mem` is what `malloc` returns: `none` for NULL
unfoldable pub tcb_init : (mem : Option Ptr) → ConId → Heap → Option Ptr × Heap
tcb_init none id h = (none, h)
tcb_init (some p) id h = (some p, write h p (some (new_tcb id)))
