-- ===== src/Device/Release.antt =====
-- Nothing leaks: what `tun_init` acquires, `tun_destroy` gives back, and a failure keeps nothing.
use lazy_tcp.Prelude.{
  Option-cases, ℕ, ◌≡◌, inl, inr, refl, arith, Bool, true, false, Option, none, some, List, ◌∷◌,
  ◌==◌, Bool-cases, ==_iff, if◌then◌else◌, ap, ◌∙◌,
}
use lazy_tcp.Tcb.{Ptr}
use lazy_tcp.Device.{
  Sys, Netlink, Calls, Tun, TunError, erase, opened, allocated, is_error, tun_ip_wake, tun_ip_add,
  tun_alloc, tun_destroy, tun_init, configure,
}

pub erase_first : (x : ℕ) (xs : List ℕ) → erase x (x ∷ xs) ≡ xs
unfolding erase
erase_first x xs = let e : (x == x) ≡ true = ground arith in rw e

pub erase_second : (x y : ℕ) (xs : List ℕ) → erase y (erase x (y ∷ x ∷ xs)) ≡ xs
unfolding erase
erase_second x y xs = elim (Bool-cases (x == y)) [
  | inl hit ↦
      let e : x ≡ y = (==_iff x y).0 hit in let e' : (y == x) ≡ true = ground arith in rw (hit, e')
  | inr miss ↦
      let a : (x == x) ≡ true = ground arith in
      let b : (y == y) ≡ true = ground arith in rw (miss, a, b)
]

-- The requests to the kernel leave no descriptor open.
tun_ip_wake-kept : (c : Netlink) (s : Sys) → (tun_ip_wake c s).1 ≡ s
unfolding tun_ip_wake
tun_ip_wake-kept c s = elim (Option-cases c.sock) [
  | inl e ↦ rw e
  | inr (sock, e) ↦ elim (Bool-cases c.sent) [
    | inl sent ↦ rw (e, sent, erase_first sock s.files)
    | inr lost ↦ rw (e, lost, erase_first sock s.files)
  ]
]

tun_ip_add-kept : (c : Netlink) (s : Sys) → (tun_ip_add c s).1 ≡ s
unfolding tun_ip_add
tun_ip_add-kept c s = elim (Option-cases c.sock) [
  | inl e ↦ rw e
  | inr (sock, e) ↦ elim (Bool-cases c.inet) [
    | inr bad ↦ rw (e, bad, erase_first sock s.files)
    | inl good ↦ elim (Bool-cases c.sent) [
      | inl sent ↦ rw (e, good, sent, erase_first sock s.files)
      | inr lost ↦ rw (e, good, lost, erase_first sock s.files)
    ]
  ]
]

-- Destroying a device that was just filled in gives everything back.
filled_destroyed :
    (s : Sys) (p : Ptr) (name ip : Option Ptr) (fd : ℕ)
    → tun_destroy
        (some (record { at = p; name = name; ip = ip; fd = fd }))
        (allocated ip (allocated name (allocated (some p) (opened fd s))))
      ≡ s
unfolding tun_destroy
filled_destroyed s p none none fd = rw (erase_first p s.blocks, erase_first fd s.files)
filled_destroyed s p none (some i) fd =
    rw (erase_first i (p ∷ s.blocks), erase_first p s.blocks, erase_first fd s.files)
filled_destroyed s p (some n) none fd =
    rw (erase_first n (p ∷ s.blocks), erase_first p s.blocks, erase_first fd s.files)
filled_destroyed s p (some n) (some i) fd =
    rw (erase_second n i (p ∷ s.blocks), erase_first p s.blocks, erase_first fd s.files)

-- Whichever request failed, the device is destroyed once.
judged : (a b d : Bool) (tun : Tun) (s : Sys) → Option Tun × Sys
judged a b d tun s =
    if a
    then (none, tun_destroy (some tun) s)
    else if b
    then (none, tun_destroy (some tun) s)
    else if d
    then (none, tun_destroy (some tun) s)
    else (some tun, s)

judged_destroyed :
    (a b d : Bool) (tun : Tun) (s : Sys)
    → tun_destroy (judged a b d tun s).0 (judged a b d tun s).1 ≡ tun_destroy (some tun) s
unfolding judged tun_destroy
judged_destroyed true b d tun s = refl
judged_destroyed false true d tun s = refl
judged_destroyed false false true tun s = refl
judged_destroyed false false false tun s = refl

configured_destroyed :
    (c : Calls) (tun : Tun) (s : Sys)
    → tun_destroy (configure c tun s).0 (configure c tun s).1 ≡ tun_destroy (some tun) s
unfolding configure judged
configured_destroyed c tun s =
    let kept : (tun_ip_wake c.wake (tun_ip_add c.add s).1).1 ≡ s =
      tun_ip_wake-kept c.wake (tun_ip_add c.add s).1 ∙ tun_ip_add-kept c.add s in
    let ip_add = (tun_ip_add c.add s).0 in
    let ip_wake = (tun_ip_wake c.wake (tun_ip_add c.add s).1).0 in
    let either : TunError → Bool = λ e. if is_error e ip_add then true else is_error e ip_wake in
    judged_destroyed (either TunError.tun_dsock_error) (either TunError.tun_send_error)
      (is_error TunError.tun_inet_error ip_add) tun (tun_ip_wake c.wake (tun_ip_add c.add s).1).1
    ∙ ap (tun_destroy (some tun)) kept

abbrev back : Option Tun × Sys → Sys
back r = tun_destroy r.0 r.1

-- Whatever the system calls return, `tun_destroy` of what `tun_init` returns restores the open
-- descriptors and the allocated memory; where that is NULL, nothing was kept.
pub tun_destroy-tun_init : (c : Calls) (s : Sys) → tun_destroy (tun_init c s).0 (tun_init c s).1 ≡ s
unfolding tun_init tun_alloc tun_destroy
tun_destroy-tun_init c s = elim (Option-cases c.clone_fd) [
  | inl e ↦ ap back (let run : tun_init c s ≡ (none, s) = rw e in run)
  | inr (fd, e) ↦ elim (Bool-cases c.ioctl) [
    | inr refused ↦
        ap back
          (let run : tun_init c s ≡ (none, s) = rw (e, refused, erase_first fd s.files) in run)
    | inl accepted ↦ elim (Option-cases c.tun_mem) [
      | inl out ↦ ap back (
          let run : tun_init c s ≡ (none, s) = rw (e, accepted, out, erase_first fd s.files) in run)
      | inr (p, at) ↦
          let tun : Tun = record { at = p; name = c.name_mem; ip = c.ip_mem; fd = fd } in
          let start =
            allocated c.ip_mem (allocated c.name_mem (allocated (some p) (opened fd s))) in
          let run : tun_init c s ≡ configure c tun start = rw (e, accepted, at) in
          ap back run
          ∙ configured_destroyed c tun start
          ∙ filled_destroyed s p c.name_mem c.ip_mem fd
    ]
  ]
]
