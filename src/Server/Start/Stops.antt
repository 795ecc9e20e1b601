-- ===== src/Server/Start/Stops.antt =====
-- What is still open when the server stops.
use lazy_tcp.Prelude.{
  ℕ, ◌≡◌, ◌⊎◌, inl, inr, refl, Bool, true, false, ◌||◌, ◌&&◌, Option, none, some, ◌∷◌, ltb, leb,
  Bool-cases, some_inj, ok, Returns, ap, sym, ◌∙◌,
}
use lazy_tcp.Device.{Sys, Tun, opened, tun_init, tun_destroy}
use lazy_tcp.Device.Release.{erase_first, tun_destroy-tun_init}
use lazy_tcp.Server.Serving.{booted, booted-IsServing}
use lazy_tcp.Server.Start.{
  Startup, log_init, stopped, close_log, is_open, run_server, after_log, with_log, main,
}
use lazy_tcp.Server.Start.Loop.{none_written, server_run-ok}
use lazy_tcp.Server.Start.Ways.{
  Way, way_of, way, succeeds, log_left, left_open, IsStop, IsStartup, destroy_under,
}

-- what `log_init` returns and opens, from the results of its calls
abbrev log_from : Option ℕ → (mkfifo : Bool) → Option ℕ → Sys → Option ℕ × Sys
log_from none fifo log s = (none, s)
log_from (some f) false log s = (none, opened f s)
log_from (some f) true none s = (none, opened f s)
log_from (some f) true (some fd) s = (some fd, opened fd (opened f s))

module _ (c : Startup) (s : Sys) (h : IsStartup c s) where
  stopped-IsStop :
      (w : Way) (s' : Sys)
      → succeeds c w ≡ false
      → s' ≡ left_open c w false s
      → IsStop c s w (stopped s')
  stopped-IsStop w s' fails left = record {
    success = sym fails;
    sys = left;
    sent = none_written;
    quiet = λ _. refl;
    held = λ t e. cc e;
  }

  module _ (tun : Tun) (s1 : Sys) (made : tun_init c.tun_calls s ≡ (some tun, s1)) where
    given_back : tun_destroy (some tun) s1 ≡ s
    given_back =
        ap (λ (r : Option Tun × Sys). tun_destroy r.0 r.1) (sym made)
        ∙ tun_destroy-tun_init c.tun_calls s

    left_under :
        (fd : ℕ)
        → (c.fifo_end ≡ some fd) ⊎ (c.log_open ≡ some fd)
        → (s2 : Sys) → tun_destroy (some tun) (opened fd s2) ≡ opened fd (tun_destroy (some tun) s2)
    left_under fd e s2 =
        destroy_under tun fd s2 (h.apart tun (ap (λ (r : Option Tun × Sys). r.0) made) fd e)

    run_server-IsStop :
        (w : Way) (log_fd : Option ℕ) (s2 : Sys)
        → succeeds c w ≡ true
        → ((logging : Bool)
            → tun_destroy (some tun) (close_log log_fd logging s2) ≡ left_open c w logging s)
        → Returns (run_server c tun log_fd s2) (IsStop c s w)
    unfolding run_server
    run_server-IsStop w log_fd s2 fine left =
        let ((sent, end), run, (all, serving)) =
          server_run-ok c.rounds c.shutdown_logged (booted (is_open log_fd))
            (h.rounds (is_open log_fd)) (booted-IsServing (is_open log_fd)) in
        (
          record {
            success = true;
            sent = sent;
            logging = end.verbose;
            held = some end.table;
            sys = tun_destroy (some tun) (close_log log_fd end.verbose s2);
          },
          rw run,
          record {
            success = sym fine;
            sys = left end.verbose;
            sent = all;
            quiet = λ failed. cc failed;
            held = λ t e. rw (← some_inj e) serving.good;
          },
        )

    with_log-plain :
        (leb 4 c.argc && c.vb) ≡ false → Returns (with_log c tun s1) (IsStop c s Way.plain)
    unfolding with_log
    with_log-plain off =
        let (x, run, stop) = run_server-IsStop Way.plain none s1 refl (λ logging. given_back) in
        (x, rw off run, stop)

    with_log-after_log :
        (r : Option ℕ × Sys)
        → (leb 4 c.argc && c.vb) ≡ true
        → log_init c s1 ≡ r
        → with_log c tun s1 ≡ after_log c tun r
    unfolding with_log
    with_log-after_log r on run = rw on (ap (after_log c tun) run)

    log_init-from :
        (stream : Option ℕ) (fifo : Bool) (log : Option ℕ)
        → c.fifo_end ≡ stream
        → c.mkfifo ≡ fifo
        → c.log_open ≡ log
        → log_init c s1 ≡ log_from stream fifo log s1
    unfolding log_init
    log_init-from none fifo log e m l = rw e
    log_init-from (some f) false log e m l = rw (e, m)
    log_init-from (some f) true none e m l = rw (e, m, l)
    log_init-from (some f) true (some fd) e m l = rw (e, m, l)

    with_log-logged :
        (stream : Option ℕ) (fifo : Bool) (log : Option ℕ)
        → c.fifo_end ≡ stream
        → c.mkfifo ≡ fifo
        → c.log_open ≡ log
        → (leb 4 c.argc && c.vb) ≡ true
        → Returns (with_log c tun s1) (IsStop c s Way.logged)
    unfolding after_log
    with_log-logged none fifo log e m l on = (
      stopped (tun_destroy (some tun) s1),
      with_log-after_log _ on (log_init-from none fifo log e m l),
      stopped-IsStop Way.logged _ (rw e refl) (rw e given_back),
    )
    with_log-logged (some f) false log e m l on = (
      stopped (tun_destroy (some tun) (opened f s1)),
      with_log-after_log _ on (log_init-from (some f) false log e m l),
      stopped-IsStop Way.logged _ (rw (e, m) refl)
          (left_under f (inl e) s1 ∙ rw (e, m) (ap (opened f) given_back)),
    )
    with_log-logged (some f) true none e m l on = (
      stopped (tun_destroy (some tun) (opened f s1)),
      with_log-after_log _ on (log_init-from (some f) true none e m l),
      stopped-IsStop Way.logged _ (rw (e, m, l) refl)
          (left_under f (inl e) s1 ∙ rw (e, m, l) (ap (opened f) given_back)),
    )
    with_log-logged (some f) true (some fd) e m l on =
        let under : tun_destroy (some tun) (opened f s1) ≡ opened f s =
          left_under f (inl e) s1 ∙ ap (opened f) given_back in
        let left : (logging : Bool)
            → tun_destroy (some tun) (close_log (some fd) logging (opened fd (opened f s1)))
              ≡ log_left (some f) true (some fd) logging s =
          λ logging.
            elim logging
              as (λ b.
                tun_destroy (some tun) (close_log (some fd) b (opened fd (opened f s1)))
                ≡ log_left (some f) true (some fd) b s) [
                  | true ↦ rw (erase_first fd (f ∷ s1.files)) under
                  | false ↦ left_under fd (inr l) (opened f s1) ∙ ap (opened fd) under
                ] in
        let (x, run, stop) =
          run_server-IsStop Way.logged (some fd) (opened fd (opened f s1)) (rw (e, m, l) refl)
            (λ logging. rw (e, m, l) (left logging)) in
        (x, with_log-after_log _ on (log_init-from (some f) true (some fd) e m l) ∙ run, stop)

    with_log-IsStop : Returns (with_log c tun s1) (IsStop c s (way_of c (some tun)))
    with_log-IsStop = elim (Bool-cases (leb 4 c.argc && c.vb)) [
      | inl on ↦ rw on (with_log-logged c.fifo_end c.mkfifo c.log_open refl refl refl on)
      | inr off ↦ rw off (with_log-plain off)
    ]

  made_at :
      (made : Option Tun) (s1 : Sys)
      → tun_init c.tun_calls s ≡ (made, s1)
      → Returns
          (elim made [ none ↦ ok (stopped s1) | some tun ↦ with_log c tun s1 ])
          (IsStop c s (way_of c made))
  unfolding tun_destroy
  made_at none s1 e = (
    stopped s1,
    refl,
    stopped-IsStop Way.refused s1 refl (
        ap (λ (r : Option Tun × Sys). tun_destroy r.0 r.1) (sym e)
        ∙ tun_destroy-tun_init c.tun_calls s),
  )
  made_at (some tun) s1 e = with_log-IsStop tun s1 e

  -- Whatever the calls return, `main` meets no fault: it succeeds as `succeeds` says of the `way`
  -- that it goes, writes only packets that a pass may write, none if it fails, the device's
  -- descriptor and memory are given back, and open stays what `left_open` says. The connections
  -- that the table holds at the end are good, and not freed. The descriptors and the passes are as
  -- `IsStartup` says.
  pub main-IsStop : Returns (main c s) (IsStop c s (way c s))
  unfolding main
  main-IsStop = elim (Bool-cases (ltb c.argc 3)) [
    | inl few ↦ rw few (stopped s, refl, stopped-IsStop Way.refused s refl refl)
    | inr enough ↦ elim (Bool-cases (leb 16 c.ip_len || leb 16 c.name_len)) [
      | inl long ↦ rw (enough, long) (stopped s, refl, stopped-IsStop Way.refused s refl refl)
      | inr short ↦
          rw (enough, short) (made_at (tun_init c.tun_calls s).0 (tun_init c.tun_calls s).1 refl)
    ]
  ]
