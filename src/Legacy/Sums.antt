-- ===== src/Legacy/Sums.antt =====
-- The checksums of the older server are those of `Checksum`, and its updates store them.
use lazy_tcp.Prelude.{ℕ, ◌+◌, ◌≡◌, refl}
use lazy_tcp.Buf.{Buf}
use lazy_tcp.Checksum.{checksum}
use lazy_tcp.Checksum.Stamp.{stamp}
use lazy_tcp.Legacy.{packet_checksum}
use lazy_tcp.Legacy.Ip.{ip_update_checksum}
use lazy_tcp.Legacy.Icmp.{icmp_update_checksum}

pub packet_checksum-checksum :
    (b : Buf) (raw_pack pack_len : ℕ)
    → packet_checksum b raw_pack pack_len ≡ checksum b raw_pack pack_len
unfolding packet_checksum checksum
packet_checksum-checksum b raw_pack pack_len = refl

pub ip_update_checksum-stamp :
    (b : Buf) (pack_len : ℕ) → ip_update_checksum b pack_len ≡ stamp b 0 10 pack_len
unfolding ip_update_checksum packet_checksum checksum
ip_update_checksum-stamp b pack_len = refl

pub icmp_update_checksum-stamp :
    (b : Buf) (icmp pack_len : ℕ)
    → icmp_update_checksum b icmp pack_len ≡ stamp b icmp (icmp + 2) pack_len
unfolding icmp_update_checksum packet_checksum checksum
icmp_update_checksum-stamp b icmp pack_len = refl
