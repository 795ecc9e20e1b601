-- ===== src/Device.antt =====
-- The TUN device (refactor/tun/tun_device.h, refactor/tun/tun_device.c): what is opened, allocated
-- and released on every path. The results of the system calls are parameters; names and addresses
-- are left out.
pub mod Release
use lazy_tcp.Prelude.{ℕ, ◌==◌, if◌then◌else◌, Bool, true, false, Option, none, some, List, [], ◌∷◌}
use lazy_tcp.Tcb.{Ptr}

-- the descriptors that are open, and the memory that is allocated, the latest first
pub record Sys : Type 0 where
  pub files : List ℕ
  pub blocks : List Ptr

-- the list without the first `x`
unfoldable pub erase : ℕ → List ℕ → List ℕ
erase x [] = []
erase x (y ∷ ys) = let rest = erase x ys in if x == y then ys else y ∷ rest

abbrev pub opened : ℕ → Sys → Sys
opened fd s = record s { files = fd ∷ s.files }

-- `close`
abbrev pub close : ℕ → Sys → Sys
close fd s = record s { files = erase fd s.files }

-- `malloc` or `strdup`: NULL, or an address
abbrev pub allocated : Option Ptr → Sys → Sys
allocated none s = s
allocated (some p) s = record s { blocks = p ∷ s.blocks }

-- `free`, which ignores NULL
abbrev pub release : Option Ptr → Sys → Sys
release none s = s
release (some p) s = record s { blocks = erase p s.blocks }

-- what `socket`, `inet_pton` and `send` do for one request to the kernel
pub record Netlink : Type 0 where
  pub sock : Option ℕ
  pub inet : Bool
  pub sent : Bool

-- the results of the calls that `tun_init` makes
pub record Calls : Type 0 where
  pub clone_fd : Option ℕ
  pub ioctl : Bool
  pub tun_mem : Option Ptr
  pub name_mem : Option Ptr
  pub ip_mem : Option Ptr
  pub add : Netlink
  pub wake : Netlink

pub data TunError : Type 0 where
  tun_file_error tun_kwrite_error tun_dsock_error tun_send_error tun_inet_error : TunError

pub record Tun : Type 0 where
  pub at : Ptr
  pub name : Option Ptr
  pub ip : Option Ptr
  pub fd : ℕ

-- `none` is the code's 0
unfoldable pub tun_ip_wake : Netlink → Sys → Option TunError × Sys
tun_ip_wake c s = elim c.sock [
  | none ↦ (some TunError.tun_dsock_error, s)
  | some sock ↦
      if c.sent
      then (none, close sock (opened sock s))
      else (some TunError.tun_send_error, close sock (opened sock s))
]

unfoldable pub tun_ip_add : Netlink → Sys → Option TunError × Sys
tun_ip_add c s = elim c.sock [
  | none ↦ (some TunError.tun_dsock_error, s)
  | some sock ↦
      if c.inet
      then (if c.sent
          then (none, close sock (opened sock s))
          else (some TunError.tun_send_error, close sock (opened sock s)))
      else (some TunError.tun_inet_error, close sock (opened sock s))
]

pub data Alloc : Type 0 where
  device : (fd : ℕ) → Alloc
  failed : TunError → Alloc

unfoldable pub tun_alloc : Calls → Sys → Alloc × Sys
tun_alloc c s = elim c.clone_fd [
  | none ↦ (failed TunError.tun_file_error, s)
  | some fd ↦
      if c.ioctl
      then (device fd, opened fd s)
      else (failed TunError.tun_kwrite_error, close fd (opened fd s))
]

unfoldable pub tun_destroy : Option Tun → Sys → Sys
tun_destroy none s = s
tun_destroy (some tun) s =
    release (some tun.at) (close tun.fd (release tun.ip (release tun.name s)))

abbrev pub is_error : TunError → Option TunError → Bool
is_error TunError.tun_dsock_error (some TunError.tun_dsock_error) = true
is_error TunError.tun_send_error (some TunError.tun_send_error) = true
is_error TunError.tun_inet_error (some TunError.tun_inet_error) = true
is_error _ _ = false

-- `tun_init` from the two requests on
unfoldable pub configure : Calls → Tun → Sys → Option Tun × Sys
configure c tun s =
    let (ip_add, s1) = tun_ip_add c.add s in
    let (ip_wake, s2) = tun_ip_wake c.wake s1 in
    let either : TunError → Bool = λ e. if is_error e ip_add then true else is_error e ip_wake in
    if either TunError.tun_dsock_error
    then (none, tun_destroy (some tun) s2)
    else if either TunError.tun_send_error
    then (none, tun_destroy (some tun) s2)
    else if is_error TunError.tun_inet_error ip_add
    then (none, tun_destroy (some tun) s2)
    else (some tun, s2)

unfoldable pub tun_init : Calls → Sys → Option Tun × Sys
unfolding configure
tun_init c s =
    let (a, s1) = tun_alloc c s in
    elim a [
      | failed e ↦ (none, s1)
      | device fd ↦ elim c.tun_mem [
        | none ↦ (none, close fd s1)
        | some p ↦
            configure c (record { at = p; name = c.name_mem; ip = c.ip_mem; fd = fd })
              (allocated c.ip_mem (allocated c.name_mem (allocated (some p) s1)))
      ]
    ]
