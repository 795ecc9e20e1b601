-- ===== src/Legacy/Main/Start/Exits.antt =====
-- Every exit of the older server's `main`.
use lazy_tcp.Prelude.{ℕ, ◌+◌, ◌≤◌, ◌<◌, ◌≡◌, Option, none, some, List}
use lazy_tcp.Buf.{Buf}
use lazy_tcp.Device.{Sys, opened}
use lazy_tcp.Legacy.Http.{length}
use lazy_tcp.Legacy.Connections.{tcp_init_server_instance}
use lazy_tcp.Legacy.Main.{mtu}
use lazy_tcp.Legacy.Main.Serve.{Prepared}
use lazy_tcp.Legacy.Main.Start.{Arguments, Environment, zeroed}

-- 16 bytes can be read at each argument that there is, the kernel's name and its NUL fit
-- `ifnamsiz` bytes, and the reads are prepared.
pub record IsStart (e : Environment) (a : Arguments) : Type 0 where
  pub ip_arg : 2 ≤ a.argc → 16 ≤ a.ip_arg.size
  pub dev_arg : 3 ≤ a.argc → 16 ≤ a.dev_arg.size
  pub named :
      (flags : ℕ) (name chosen : List ℕ)
      → e.kernel.ioctl flags name ≡ some chosen
      → length chosen < 16
  pub reads : Prepared e.reads (zeroed (mtu + 1)) (tcp_init_server_instance e.states)

module _ (e : Environment) (a : Arguments) (h : IsStart e a) where
  -- the result of `tun_alloc`, from the descriptor and the name
  made : Option ℕ → Option (List ℕ) → Sys → Option (ℕ × List ℕ) × Sys
  made none name s = (none, s)
  made (some fd) none s = (none, s)
  made (some fd) (some name) s = (some (fd, name), opened fd s)
