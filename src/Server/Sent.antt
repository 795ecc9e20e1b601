-- ===== src/Server/Sent.antt =====
-- What any packet's handling leaves in the buffer: bytes, of the same size, with an answer that
-- is no longer than the MTU.
use lazy_tcp.Prelude.{ℕ, ◌+◌, ◌≤◌, ◌≡◌, refl, arith}
use lazy_tcp.Buf.{Buf, IsBytes}
use lazy_tcp.Ip.Laws.{header_length}
use lazy_tcp.Icmp.{mtu_size}
use lazy_tcp.Icmp.Dispatch.{IsDispatched, answered, invalid, no_request}
use lazy_tcp.Hash.{Table}
use lazy_tcp.Tcb.{Ptr, Tcb, ConId, Edge}
use lazy_tcp.Transport.{Env, Flags}
use lazy_tcp.Dispatch.Accept.{
  Handles, synced, acked, not_acked, closes, not_closes, refused, content, Accepts, no_memory,
  handled,
}
use lazy_tcp.Dispatch.Safe.{Dispatches, accepted, ignored}
use lazy_tcp.Network.Demux.{Demuxes, icmp, tcp, other}

pub record IsSent (b : Buf) (n : ℕ) (c : Buf) : Type 0 where
  pub size : c.size ≡ b.size
  pub bytes : IsBytes c.at
  pub short : n ≤ mtu_size

module _ (b : Buf) (len : ℕ) (bytes : IsBytes b.at) (fits : len ≤ mtu_size) where
  unsent : IsSent b 0 b
  unsent = record { size = refl; bytes = bytes; short = omega arith }

  Handles-IsSent :
      {env : Env} {id : ConId} {s : Table} {p : Ptr} {t : Tcb} {e : Edge} (r : ℕ × Buf × Table)
      → Handles env b len (header_length b) id s p t e r
      → IsSent b r.0 r.1
  Handles-IsSent r (synced n c s' u after spec block) = record {
    size = spec.size;
    bytes = spec.bytes;
    short = omega (arith, spec.length, bytes (header_length b + 12));
  }
  Handles-IsSent r (acked s' u same after block) = unsent
  Handles-IsSent r (not_acked ne) = unsent
  Handles-IsSent r (closes s' inside deletes) = unsent
  Handles-IsSent r (not_closes outside) = unsent
  Handles-IsSent r (refused q spec) = record {
    size = spec.size;
    bytes = spec.bytes;
    short = omega (arith, spec.length, bytes (header_length b + 12));
  }
  Handles-IsSent r content = unsent

  Accepts-IsSent :
      {env : Env} {id : ConId} {f : Flags} {s : Table} (r : ℕ × Buf × Table)
      → Accepts env b len (header_length b) id f s r
      → IsSent b r.0 r.1
  Accepts-IsSent r (no_memory s' o) = unsent
  Accepts-IsSent r (handled s1 p t e q o block c h) = Handles-IsSent r h

  Dispatches-IsSent :
      {env : Env} {s : Table} (r : ℕ × Buf × Table)
      → Dispatches env b len (header_length b) s r
      → IsSent b r.0 r.1
  Dispatches-IsSent r (accepted q intact a) = Accepts-IsSent r a
  Dispatches-IsSent r (ignored broken) = unsent

  IsDispatched-IsSent :
      (n : ℕ) (c : Buf) → IsDispatched b len (header_length b) (n, c) → IsSent b n c
  IsDispatched-IsSent n c (answered r valid echo reply) = record {
    size = reply.size;
    bytes = reply.bytes;
    short = omega (arith, reply.length);
  }
  IsDispatched-IsSent n c (invalid bad) = unsent
  IsDispatched-IsSent n c (no_request valid ne) = unsent

  pub Demuxes-IsSent :
      {env : Env} {s : Table} (r : ℕ × Buf × Table) → Demuxes env b len s r → IsSent b r.0 r.1
  Demuxes-IsSent r (Demuxes.invalid bad) = unsent
  Demuxes-IsSent r (icmp n c valid proto d) = IsDispatched-IsSent n c d
  Demuxes-IsSent r (tcp q valid proto d) = Dispatches-IsSent r d
  Demuxes-IsSent r (other n c valid p q u) = record {
    size = u.size;
    bytes = u.bytes;
    short = u.short;
  }
