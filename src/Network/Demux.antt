-- ===== src/Network/Demux.antt =====
-- Every packet is handled: what is valid by its protocol, and the rest not at all.
use lazy_tcp.Prelude.{
  ℕ, ◌/◌, ◌^◌, ◌≤◌, ◌<◌, ◌≡◌, ◌≢◌, inl, inr, refl, arith, true, false, ok, Run, Returns,
  if◌then◌else◌, Bool-cases, ◌==◌, ==_iff, ltb, ◌||◌, ◌∙◌,
}
use lazy_tcp.Word.{not16}
use lazy_tcp.Buf.{Buf, IsBytes}
use lazy_tcp.Buf.Access.{load8-ok}
use lazy_tcp.Checksum.{fold_carry}
use lazy_tcp.Checksum.Sum.{word_sum, checksum-ok}
use lazy_tcp.Layout.{Ipv4, ip_at}
use lazy_tcp.Ip.{ip_validate}
use lazy_tcp.Ip.Laws.{IsPacket, header_length}
use lazy_tcp.Icmp.{proto_icmp, icmp_dispatch, icmp_dest_unreachable, mtu_size}
use lazy_tcp.Icmp.Dispatch.{IsDispatched, icmp_dispatch-IsDispatched}
use lazy_tcp.Icmp.Unreachable.{IsUnreachable, icmp_dest_unreachable-IsUnreachable}
use lazy_tcp.Hash.{Table}
use lazy_tcp.Transport.{Env}
use lazy_tcp.Dispatch.{tcp_dispatch}
use lazy_tcp.Dispatch.Good.{IsGood}
use lazy_tcp.Dispatch.Safe.{IsReady, Dispatches, tcp_dispatch-Dispatches}
use lazy_tcp.Network.{proto_tcp, keeping, net_demux}

-- For any bytes in a buffer of at least 20, and any length within it below 2 ^ 16, `ip_validate`
-- meets no fault, and what it accepts is a packet whose header lies inside it.
pub ip_validate-decides :
    (b : Buf) (len : ℕ)
    → IsBytes b.at
    → len ≤ b.size
    → len < 2 ^ 16
    → 20 ≤ b.size
    → Returns (ip_validate b len) λ v. v ≡ true → IsPacket b len (header_length b)
unfolding ip_validate
ip_validate-decides b len bytes fits small room = elim (Bool-cases (ltb len 20)) [
  | inl short ↦ (false, rw short, λ e. cc)
  | inr long ↦ elim (Bool-cases (ltb (header_length b) 20 || ltb len (header_length b))) [
    | inl bad ↦ (false, rw (long, load8-ok b 0 (omega arith), bad), λ e. cc)
    | inr fine ↦ elim (Bool-cases (b.at 0 / 16 == 4)) [
      | inr old ↦ (false, rw (long, load8-ok b 0 (omega arith), fine, old), λ e. cc)
      | inl four ↦ (
        not16 (fold_carry (word_sum b.at 0 (header_length b))) == 0,
        rw (
          long,
          load8-ok b 0 (omega arith),
          fine,
          four,
          checksum-ok b 0 (header_length b) bytes (ground arith) (ground arith),
        ),
        λ e. record {
          bytes = bytes;
          version = (==_iff (b.at 0 / 16) 4).0 four;
          header = refl;
          long = ground arith;
          inside = ground arith;
          fits = fits;
          small = small;
        },
      )
    ]
  ]
]

-- What becomes of a packet of `len` bytes.
pub data Demuxes (env : Env) (b : Buf) (len : ℕ) (s : Table) : ℕ × Buf × Table → Type 0 where
  invalid : ip_validate b len ≡ ok false → Demuxes env b len s (0, b, s)
  icmp :
      (n : ℕ) (c : Buf)
      → ip_validate b len ≡ ok true
      → b.at (ip_at Ipv4.proto) ≡ proto_icmp
      → IsDispatched b len (header_length b) (n, c)
      → Demuxes env b len s (n, c, s)
  tcp :
      (r : ℕ × Buf × Table)
      → ip_validate b len ≡ ok true
      → b.at (ip_at Ipv4.proto) ≡ proto_tcp
      → Dispatches env b len (header_length b) s r
      → Demuxes env b len s r
  other :
      (n : ℕ) (c : Buf)
      → ip_validate b len ≡ ok true
      → b.at (ip_at Ipv4.proto) ≢ proto_icmp
      → b.at (ip_at Ipv4.proto) ≢ proto_tcp
      → IsUnreachable b len (header_length b) (n, c)
      → Demuxes env b len s (n, c, s)

module _ (env : Env) (b : Buf) (len : ℕ) (s : Table) (bytes : IsBytes b.at) (fits : len ≤ b.size)
    (mtu : mtu_size ≤ b.size) (small : len < 2 ^ 16) (good : IsGood s) (ready : IsReady env s) where
  abbrev ihl : ℕ
  ihl = header_length b

  abbrev by_proto : Run (ℕ × Buf × Table)
  by_proto =
      if b.at 9 == proto_icmp
      then keeping s (icmp_dispatch b len ihl)
      else if b.at 9 == proto_tcp
      then tcp_dispatch env b len ihl s
      else keeping s (icmp_dest_unreachable env.stack b len ihl)

  ran : ip_validate b len ≡ ok true → net_demux env b len s ≡ by_proto
  unfolding net_demux
  ran valid = rw (valid, load8-ok b 9 (omega arith), load8-ok b 0 (omega arith))

  abbrev pub IsHandled : ℕ × Buf × Table → Type 0
  IsHandled r = Demuxes env b len s r × IsGood r.2

  on_valid :
      ip_validate b len ≡ ok true → IsPacket b len ihl → Returns (net_demux env b len s) IsHandled
  on_valid valid pkt = elim (Bool-cases (b.at 9 == proto_icmp)) [
    | inl hit ↦
        let ((n, c), run, d) = icmp_dispatch-IsDispatched b len ihl pkt in
        let e = (==_iff (b.at 9) proto_icmp).0 hit in
        ((n, c, s), ran valid ∙ rw (hit, run), (icmp n c valid e d, good))
    | inr miss ↦ elim (Bool-cases (b.at 9 == proto_tcp)) [
      | inl hit ↦
          let (r, run, (d, kept)) =
            tcp_dispatch-Dispatches env b len ihl pkt (omega (arith, pkt.small)) s good ready in
          let e = (==_iff (b.at 9) proto_tcp).0 hit in
          (r, ran valid ∙ rw (miss, hit) run, (tcp r valid e d, kept))
      | inr miss' ↦
          let ((n, c), run, d) =
            icmp_dest_unreachable-IsUnreachable env.stack b len ihl ready.stack pkt mtu in
          (
            (n, c, s),
            ran valid ∙ rw (miss, miss', run),
            (other n c valid (ground arith) (ground arith) d, good),
          )
    ]
  ]

  -- For any bytes in a buffer of at least the MTU, any length within it below 2 ^ 16, a good state
  -- and surroundings as `IsReady` says, `net_demux` meets no fault, its result is one of the cases
  -- of `Demuxes`, and the state after it is good.
  pub net_demux-Demuxes : Returns (net_demux env b len s) IsHandled
  unfolding net_demux
  net_demux-Demuxes = go (ip_validate-decides b len bytes fits small (omega arith))
    where
      go :
          Returns (ip_validate b len) (λ v. v ≡ true → IsPacket b len ihl)
          → Returns (net_demux env b len s) IsHandled
      go (true, valid, pkt) = on_valid valid (pkt refl)
      go (false, valid, pkt) = ((0, b, s), rw valid, (invalid valid, good))
