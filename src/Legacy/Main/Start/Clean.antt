-- ===== src/Legacy/Main/Start/Clean.antt =====
-- What the older server opens and allocates is given back, whatever fails.
use lazy_tcp.Prelude.{
  ℕ, ◌+◌, ◌≤◌, ◌≡◌, inl, inr, refl, arith, Bool, true, false, not, ◌&&◌, Option, none, some, List,
  [], ◌∷◌, ◌==◌, ==_iff, Bool-cases, Option-cases, some_inj, ok, Returns, ap, sym, ◌∙◌,
}
use mathlib.Core.Path.{subst}
use lazy_tcp.Tcb.{Ptr}
use lazy_tcp.Device.{Sys, erase, opened, allocated, release}
use lazy_tcp.Device.Release.{erase_first}
use lazy_tcp.Legacy.Http.{length}
use lazy_tcp.Legacy.Device.{Kernel, VirtualDevice, tun_init, virtual_device_destroy}
use lazy_tcp.Legacy.Device.Texts.{bound, tun_init-ok}
use lazy_tcp.Buf.{Buf}
use lazy_tcp.Legacy.Connections.{TcpServerInstance, tcp_init_server_instance}
use lazy_tcp.Legacy.Connections.Chain.{Entries, Represents, nil}
use lazy_tcp.Legacy.Main.{mtu, serve}
use lazy_tcp.Legacy.Main.Serve.{Prepared, AllWithin, none_sent, IsServing, serve-IsServing}
use lazy_tcp.Legacy.Main.Start.{Environment, Exit, zeroed, failure, run_device}

erase_twice : (x y : ℕ) (zs : List ℕ) → erase x (erase y zs) ≡ erase y (erase x zs)
unfolding erase
erase_twice x y [] = refl
erase_twice x y (z ∷ zs) = elim (Bool-cases (x == z)) [
  | inl a ↦ elim (Bool-cases (y == z)) [
    | inl b ↦
        let e : x ≡ y = (==_iff x z).0 a ∙ sym ((==_iff y z).0 b) in
        subst (λ (w : ℕ). erase x (erase w (z ∷ zs)) ≡ erase w (erase x (z ∷ zs))) e refl
    | inr b ↦ rw (a, b, a)
  ]
  | inr a ↦ elim (Bool-cases (y == z)) [
    | inl b ↦ rw (a, b)
    | inr b ↦ rw (a, b, a) (ap (λ us. z ∷ us) (erase_twice x y zs))
  ]
]

-- the state with the two allocations, and with the device
abbrev pub two_blocks : (ip dev : Ptr) → Sys → Sys
two_blocks ip dev s = allocated (some dev) (allocated (some ip) s)

abbrev pub with_device : (ip dev : Ptr) → (fd : ℕ) → Sys → Sys
with_device ip dev fd s = opened fd (two_blocks ip dev s)

pub one_released : (ip : Ptr) (s : Sys) → release (some ip) (allocated (some ip) s) ≡ s
one_released ip s = rw (erase_first ip s.blocks)

pub two_released :
    (ip dev : Ptr) (s : Sys) → release (some dev) (release (some ip) (two_blocks ip dev s)) ≡ s
two_released ip dev s = rw (
  erase_twice dev ip (dev ∷ ip ∷ s.blocks),
  erase_first dev (ip ∷ s.blocks),
  erase_first ip s.blocks,
)

module _ (vd : VirtualDevice) (s : Sys) where
  pub destroyed : virtual_device_destroy vd (with_device vd.ip vd.dev vd.fd s) ≡ s
  unfolding virtual_device_destroy
  destroyed = rw (erase_first vd.fd s.files) (two_released vd.ip vd.dev s)

  destroyed_with_unit :
      (tu : Ptr)
      → release
          (some tu)
          (virtual_device_destroy vd (allocated (some tu) (with_device vd.ip vd.dev vd.fd s)))
        ≡ s
  unfolding virtual_device_destroy
  destroyed_with_unit tu =
      let bs = vd.dev ∷ vd.ip ∷ s.blocks in
      rw
        (
          erase_first vd.fd s.files,
          erase_twice tu vd.dev (erase vd.ip (tu ∷ bs)),
          erase_twice tu vd.ip (tu ∷ bs),
          erase_first tu bs,
        )
        (two_released vd.ip vd.dev s)

abbrev pub is_some : Option Ptr → Bool
is_some none = false
is_some (some p) = true

-- whether the device is bound, and the commands that are run: the second if the first could be run
abbrev pub binding : Kernel → Option (List ℕ × List ℕ) → Bool × List (List ℕ)
binding k none = (false, [])
binding k (some (ip_addr, name)) = bound k ip_addr name

-- An exit after the device was bound or was not: everything is given back, it is a success if the
-- device is bound and the unit is allocated, and only then packets are written.
pub record IsExit (bound : Bool × List (List ℕ)) (tu : Option Ptr) (s : Sys) (x : Exit)
    : Type 0 where
  pub restored : x.sys ≡ s
  pub success : x.success ≡ (bound.0 && is_some tu)
  pub commands : x.commands ≡ bound.1
  pub sizes : AllWithin (mtu + 1) x.written
  pub quiet : x.success ≡ false → x.written ≡ []
  pub list : (t : TcpServerInstance) → x.states ≡ some t → (es : Entries) × Represents t es

pub failure-IsExit :
    (tu : Option Ptr) (s s' : Sys) (commands : List (List ℕ))
    → s' ≡ s
    → IsExit (false, commands) tu s (failure commands s')
failure-IsExit tu s s' commands e = record {
  restored = e;
  success = refl;
  commands = refl;
  sizes = none_sent;
  quiet = λ _. refl;
  list = λ t e. cc e;
}

module _ (e : Environment)
    (reads : Prepared e.reads (zeroed (mtu + 1)) (tcp_init_server_instance e.states)) where
  loop_serves :
      Returns
        (serve e.reads (zeroed (mtu + 1)) (tcp_init_server_instance e.states))
        λ r. (r.0 ≡ false) × AllWithin (mtu + 1) r.1 × IsServing r.2 r.3
  unfolding tcp_init_server_instance
  loop_serves =
      serve-IsServing e.reads (zeroed (mtu + 1)) (tcp_init_server_instance e.states) reads (record {
        size = refl;
        bytes = λ i. omega arith;
        entries = [];
        list = record { chain = nil; size = refl };
      })

  module _ (vd : VirtualDevice) (s : Sys) where
    at_end : List (List ℕ) → Bool × List Buf × Buf × TcpServerInstance → Ptr → Exit
    at_end commands r tu = record {
      success = not r.0;
      commands = commands;
      written = r.1;
      states = some r.3;
      sys =
          release (some tu)
            (virtual_device_destroy vd (allocated (some tu) (with_device vd.ip vd.dev vd.fd s)));
    }

    run_device_serves :
        (commands : List (List ℕ)) (r : Bool × List Buf × Buf × TcpServerInstance) (tu : Ptr)
        → tun_init e.kernel vd ≡ ok (false, commands)
        → e.tu_mem ≡ some tu
        → serve e.reads (zeroed (mtu + 1)) (tcp_init_server_instance e.states) ≡ ok r
        → run_device e vd (with_device vd.ip vd.dev vd.fd s) ≡ ok (at_end commands r tu)
    unfolding run_device at_end
    run_device_serves commands r tu run at served = rw (run, at, served)

    run_device_at :
        (b : Bool) (commands : List (List ℕ))
        → tun_init e.kernel vd ≡ ok (not b, commands)
        → Returns
            (run_device e vd (with_device vd.ip vd.dev vd.fd s))
            (IsExit (b, commands) e.tu_mem s)
    unfolding run_device at_end
    run_device_at false commands run = (
      failure commands (virtual_device_destroy vd (with_device vd.ip vd.dev vd.fd s)),
      rw run,
      failure-IsExit e.tu_mem s _ commands (destroyed vd s),
    )
    run_device_at true commands run = elim (Option-cases e.tu_mem) [
      | inl out ↦ (
        failure commands (virtual_device_destroy vd (with_device vd.ip vd.dev vd.fd s)),
        rw (run, out),
        record {
          restored = destroyed vd s;
          success = ap is_some (sym out);
          commands = refl;
          sizes = none_sent;
          quiet = λ _. refl;
          list = λ t e. cc e;
        },
      )
      | inr (tu, at) ↦
          let (r, served, (fine, within, end)) = loop_serves in
          (
            at_end commands r tu,
            run_device_serves commands r tu run at served,
            record {
              restored = destroyed_with_unit vd s tu;
              success = ap not fine ∙ ap is_some (sym at);
              commands = refl;
              sizes = within;
              quiet = λ failed. ground (arith, fine, failed);
              list = λ t e. (end.entries, rw (← some_inj e) end.list);
            },
          )
    ]

    pub run_device-IsExit :
        length vd.ip_addr ≤ 16
        → length vd.dev_name ≤ 16
        → Returns
            (run_device e vd (with_device vd.ip vd.dev vd.fd s))
            (IsExit (bound e.kernel vd.ip_addr vd.dev_name) e.tu_mem s)
    run_device-IsExit address name =
        let b = bound e.kernel vd.ip_addr vd.dev_name in
        run_device_at b.0 b.1 (tun_init-ok vd address name e.kernel)
