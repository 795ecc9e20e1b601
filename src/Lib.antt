-- ===== src/Lib.antt =====
-- A user-space TCP/IP server: packets are read from a TUN device into one buffer, handled in place,
-- and the answer is written back from the same buffer. This library models, on bytes, the
-- server under refactor/ and the older server beside it.
--
-- The parts and where they are modelled:
--   Word      machine words, byte order (`htons`, `ntohl`, ...), `SEQ_LT` and `SEQ_GEQ` of
--             refactor/network/tcp/tcb.h, on a little-endian host
--   Buf       the packet buffer: an access out of its size is a fault
--   Checksum  `checksum` of refactor/network/network.c
--   Layout    the packed structs of ip.h, icmp/icmp.h and tcp/tcp.h, as offsets
--   Ip        refactor/network/ip.c
--   Icmp      refactor/network/icmp/icmp.c
--   Tcb       the block of a connection (refactor/network/tcp/tcb.h, tcb.c), on a heap where a
--             pointer that is not allocated is a fault
--   Vector    refactor/network/tcp/vector.c, a growing array of block pointers
--   Hash      refactor/network/tcp/hash.c, the table of connections; its static variables and the
--             heap are the record `Table`
--   Transport constants, flags, `tcp_gen_iss` and `tcp_checksum` of refactor/network/tcp/tcp.c
--   State     `tcb_state_update` of refactor/network/tcp/tcb.c
--   Segment   refactor/network/tcp/segment.c, the answers
--   Dispatch  `tcp_parse_edge` and `tcp_dispatch` of refactor/network/tcp/tcp.c
--   Network   `net_demux` of refactor/network/network.c
--   Device    refactor/tun/tun_device.c: descriptors and memory on every path
--   Server    `server_run` and `main` of refactor/main.c, `log_event` and `log_init` of
--             refactor/log/log.c
--   Legacy    the older server of the repository's root. Its modules: Legacy (network/network.c),
--             Ip, Icmp and Ping (network/ip/ip.c, network/icmp/icmp.c), Block and Connections (the
--             linked list of blocks of network/tcp/tcp.c), Segment (its answers), Tcp (its
--             dispatcher), Http (network/http/http.c), Device (v_device/v_device.c), Main (`parse_packet`,
--             the loop and `main` of main.c)
--   Pool      thread_pool/thread_pool.c of the older server: its queue of jobs
-- Prelude has what all share: tests on numbers, and the monad `Run` of a computation that may meet
-- undefined behaviour. Tests has concrete packets and tables.
--
-- State is passed explicitly: a handler takes the buffer and the table, and returns the length of
-- the answer (0 for none), the buffer, and the table. What the code takes from outside is the
-- record `Env`: the clock, `rand`, what `malloc` and `realloc` return, what stands in memory that
-- the code does not set. A `malloc` returns NULL or memory that is not in use (`IsFreshMem`).
--
-- Loops over a vector or over the buckets recurse on the number of rounds that are left, the loop
-- that folds a checksum recurses on its accessible sum, so no fuel is needed. A walk along the older
-- server's linked list takes the number of steps that it may make (`World.steps`), and as many steps
-- as the list has blocks are enough.
--
-- Bounds: the buffer has at least 1500 bytes, as in refactor/main.c; a packet is shorter than
-- 2 ^ 16; no bucket has a capacity of 2 ^ 31, from which doubling would wrap.
--
-- An `int` of the older server is its 32-bit pattern, and its sums wrap, where C leaves the overflow
-- undefined. Its file, `malloc` and `strdup` are parameters (`File`, `HttpMemory`, `World`).
--
-- The two `main` functions track descriptors and the memory that they or the device allocate; the
-- blocks of connections and their arrays are in the table or the list that they end with, and
-- nothing frees these.
--
-- Not modelled: what is printed, with debug/debug.c of the older server, and the handlers of
-- signals of refactor/main.c: a run of the loop has the passes up to the signal.
pub mod Prelude
pub mod Word
pub mod Buf
pub mod Checksum
pub mod Layout
pub mod Ip
pub mod Icmp
pub mod Tcb
pub mod Vector
pub mod Hash
pub mod Transport
pub mod State
pub mod Segment
pub mod Dispatch
pub mod Network
pub mod Device
pub mod Pool
pub mod Server
pub mod Legacy
pub mod Tests
