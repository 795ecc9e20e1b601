-- ===== src/Legacy/Main/Start.antt =====
-- The start and the end of the older server: `main` (main.c) with its arguments, its allocations,
-- the device and the loop. `verbose` and the messages on stderr are left out.
pub mod Target
pub mod Clean
pub mod Exits
use lazy_tcp.Prelude.{ℕ, zero, ◌+◌, Bool, true, false, not, Option, none, some, List, []}
use lazy_tcp.Prelude.{ltb, leb, if◌then◌else◌, Run, ok, ◌>>=◌}
use lazy_tcp.Buf.{Buf, memcpy}
use lazy_tcp.Tcb.{Ptr}
use lazy_tcp.Device.{Sys, allocated, release}
use lazy_tcp.Legacy.Device.{
  Kernel, VirtualDevice, ifnamsiz, c_string, tun_alloc, tun_init, virtual_device_destroy,
}
use lazy_tcp.Legacy.Connections.{TcpServerInstance, tcp_init_server_instance}
use lazy_tcp.Legacy.Main.{Arrival, mtu, serve}

-- `argc`, and the memory from `argv[1]` and from `argv[2]` on
pub record Arguments : Type 0 where
  pub argc : ℕ
  pub ip_arg : Buf
  pub dev_arg : Buf

-- the results of the three calls of `calloc` and of the system calls, `IFF_TUN | IFF_NO_PI`, what
-- the state of the connections holds before it is set up, and the reads
pub record Environment : Type 0 where
  pub ip_mem : Option Ptr
  pub dev_mem : Option Ptr
  pub tu_mem : Option Ptr
  pub kernel : Kernel
  pub flags : ℕ
  pub states : TcpServerInstance
  pub reads : List Arrival

-- the exit status, the commands that were run, the packets that were written, the connections at the
-- end, whose blocks nothing frees, and the descriptors and the memory of `main` then
pub record Exit : Type 0 where
  pub success : Bool
  pub commands : List (List ℕ)
  pub written : List Buf
  pub states : Option TcpServerInstance
  pub sys : Sys

-- `calloc(n, sizeof(char))`
abbrev pub zeroed : ℕ → Buf
zeroed n = record { size = n; at = λ _. 0 }

-- the first `ifnamsiz` bytes of an argument, in fresh memory
unfoldable pub copy_argument : Buf → Run Buf
copy_argument arg = memcpy (zeroed (ifnamsiz + 1)) 0 arg 0 ifnamsiz

abbrev pub failure : List (List ℕ) → Sys → Exit
failure commands s = record {
  success = false;
  commands = commands;
  written = [];
  states = none;
  sys = s;
}

-- `main` from the call of `tun_init` on
unfoldable pub run_device : Environment → VirtualDevice → Sys → Run Exit
run_device e vd s = do
  (failed, commands) ← tun_init e.kernel vd
  if failed then ok (failure commands (virtual_device_destroy vd s)) else elim e.tu_mem [
    | none ↦ ok (failure commands (virtual_device_destroy vd s))
    | some tu ↦ do
      (broken, written, _, states) ←
          serve e.reads (zeroed (mtu + 1)) (tcp_init_server_instance e.states)
      ok (record {
        success = not broken;
        commands = commands;
        written = written;
        states = some states;
        sys = release (some tu) (virtual_device_destroy vd (allocated (some tu) s));
      })
  ]

-- `main` from the call of `tun_alloc` on
unfoldable pub open_device :
    Environment → (ip dev : Ptr) → (ip_addr tun_name : Buf) → Sys → Run Exit
open_device e ip dev ip_addr tun_name s = do
  (made, s1) ← tun_alloc e.kernel (c_string tun_name.at tun_name.size 0) e.flags s
  elim made [
    | none ↦ ok (failure [] (release (some dev) (release (some ip) s1)))
    | some (fd, name) ↦
        run_device e
          (record {
            dev = dev;
            dev_name = name;
            ip = ip;
            ip_addr = c_string ip_addr.at ip_addr.size 0;
            flags = e.flags;
            fd = fd;
          })
          s1
  ]

unfoldable pub main : Environment → Arguments → Sys → Run Exit
main e a s = if ltb a.argc 2 then ok (failure [] s) else elim e.ip_mem [
  | none ↦ ok (failure [] s)
  | some ip ↦ do
    ip_addr ← copy_argument a.ip_arg
    elim e.dev_mem [
      | none ↦ ok (failure [] (release (some ip) (allocated (some ip) s)))
      | some dev ↦ do
        tun_name ← if leb 3 a.argc then copy_argument a.dev_arg else ok (zeroed (ifnamsiz + 1))
        open_device e ip dev ip_addr tun_name (allocated (some dev) (allocated (some ip) s))
    ]
]
