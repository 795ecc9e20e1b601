-- ===== src/Legacy/Device.antt =====
-- The virtual device of the older server (v_device/v_device.h, v_device/v_device.c): what is
-- opened, allocated and released, and the commands that bind the device to its address. The results
-- of the system calls are parameters; a text is the bytes before its NUL.
pub mod Texts
use lazy_tcp.Prelude.{ℕ, zero, suc, ◌+◌, Bool, true, false, not, Option, none, some}
use lazy_tcp.Prelude.{List, [], ◌∷◌, ◌++◌, leb, ◌==◌, if◌then◌else◌, Run, ok, fault, ◌>>=◌}
use lazy_tcp.Tcb.{Ptr}
use lazy_tcp.Device.{Sys, opened, close, release}
use lazy_tcp.Legacy.Http.{codes, length}

-- what `open` of the clone device, `ioctl` for the flags and a name, and `system` return: `none`
-- and false for a failure, and the name that the kernel chose
pub record Kernel : Type 0 where
  pub clone_fd : Option ℕ
  pub ioctl : (flags : ℕ) → (name : List ℕ) → Option (List ℕ)
  pub system : (command : List ℕ) → Bool

-- `IFNAMSIZ` of linux/if.h
abbrev pub ifnamsiz : ℕ
ifnamsiz = 16

-- the two allocations, with the texts that stand there
pub record VirtualDevice : Type 0 where
  pub dev : Ptr
  pub dev_name : List ℕ
  pub ip : Ptr
  pub ip_addr : List ℕ
  pub flags : ℕ
  pub fd : ℕ

-- the bytes before the first NUL, at most `left`
unfoldable pub c_string : (ℕ → ℕ) → (left i : ℕ) → List ℕ
c_string f zero i = []
c_string f (suc left) i = let rest = c_string f left (i + 1) in if f i == 0 then [] else f i ∷ rest

-- what `strncpy` copies
unfoldable pub take : ℕ → List ℕ → List ℕ
take zero cs = []
take (suc n) [] = []
take (suc n) (c ∷ cs) = c ∷ take n cs

-- `strcpy` or `sprintf` into memory of that size: the text and its NUL have to fit
unfoldable pub put_text : (room : ℕ) → List ℕ → Run (List ℕ)
put_text room cs = if leb (length cs + 1) room then ok cs else fault

-- The descriptor and the device's name, or `none` for a negative result. The caller's memory has
-- `ifnamsiz + 1` bytes.
unfoldable pub tun_alloc :
    Kernel → (dev : List ℕ) → (flags : ℕ) → Sys → Run (Option (ℕ × List ℕ) × Sys)
tun_alloc k dev flags s = elim k.clone_fd [
  | none ↦ ok (none, s)
  | some fd ↦ elim (k.ioctl flags (take ifnamsiz dev)) [
    | none ↦ ok (none, close fd (opened fd s))
    | some chosen ↦ do name ← put_text (ifnamsiz + 1) chosen; ok (some (fd, name), opened fd s)
  ]
]

abbrev pub add_command : (ip dev_name : List ℕ) → List ℕ
add_command ip dev_name = codes "ip addr add " ++ (ip ++ (codes " dev " ++ dev_name))

abbrev pub up_command : (dev_name : List ℕ) → List ℕ
up_command dev_name = codes "ip link set " ++ (dev_name ++ codes " up")

-- whether it failed, and the commands that were run
unfoldable pub tun_init : Kernel → VirtualDevice → Run (Bool × List (List ℕ))
tun_init k vd = do
  add ← put_text 256 (add_command vd.ip_addr vd.dev_name)
  if not (k.system add)
      then ok (true, add ∷ [])
      else (do up ← put_text 256 (up_command vd.dev_name); ok (not (k.system up), add ∷ up ∷ []))

unfoldable pub virtual_device_destroy : VirtualDevice → Sys → Sys
virtual_device_destroy vd s = release (some vd.dev) (release (some vd.ip) (close vd.fd s))
