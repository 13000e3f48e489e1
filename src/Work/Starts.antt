-- ===== src/Work/Starts.antt =====
-- gear/work.c: what the program holds from its start on.
use sawang.Prelude.{
  if-split, OnSome, bind-OnSome, ℕ, ◌≡◌, ap, Bool, true, false, Option, none, some, List, [], ◌∷◌,
  if◌then◌else◌, arith,
}
use sawang.Work.Stops.{shut_down-IsReleased, IsReleased, IsLive}
use sawang.Work.Main.{
  shut_down, return_after, run_main, run_threads, pauses, and_start, watch_gonggo, start_threads,
  start_subscribe, start_gonggo, start_comm, start_channel, pause, activate,
}
use sawang.Work.{
  error_start, waits, returns, Outcome, stop_request, watches, signal, Pause, handler, World,
  Program,
}
use sawang.Posix.{paused, gonggo_thread, thread_created}
use sawang.Work.Ledger.{safe, made, loop-kept, runs, loop-ledger}
use sawang.Posix.Counts.{held}
use sawang.AliveMutex.{alive_mutex_lock}
use sawang.Proxy.{Env}

module _ (e : Env) (g : Program e) where
  pub watch-IsLive : (n : ℕ) (w : World e) → IsLive e w → IsLive e (watch_gonggo e g n w)
  unfolding watch_gonggo
  watch-IsLive n w o =
      let l = loop-ledger g.posix n w.watch w.calls in
      let k = loop-kept g.posix n w.watch w.calls in
      ground (
        arith,
        o,
        ap (λ x. x.channel_held) l,
        ap (λ x. x.subscribe_held) l,
        ap (λ x. x.alive_held) l,
        ap (λ x. x.gonggo_held) l,
        ap (λ x. x.channel_runs) l,
        ap (λ x. x.subscribe_runs) l,
        ap (λ x. x.gonggo_runs) l,
        ap (λ x. x.comm_runs) l,
        ap (λ x. x.made_subscribe_lock) l,
        ap (λ x. x.made_subscribe_wakeup) l,
        ap (λ x. x.made_comm_lock) l,
        ap (λ x. x.made_comm_wakeup) l,
        ap (λ x. x.made_log_lock) l,
        ap (λ x. x.made_uuid_lock) l,
        ap (λ x. x.is_safe) l,
        ap (λ x. x.channel_path) k,
        ap (λ x. x.channel_shm) k,
        ap (λ x. x.subscribe_path) k,
        ap (λ x. x.subscribe_shm) k,
        ap (λ x. x.alive_path) k,
        ap (λ x. x.alive_shm) k,
        ap (λ x. x.gonggo_shm) k,
        ap (λ x. x.gonggo_started) k,
      )

  -- the flags of the threads that are still to be started
  abbrev pub Before3 : World e → Type 0
  Before3 w = IsLive e w × (w.proxy_comm_started ≡ false)

  abbrev pub Before2 : World e → Type 0
  Before2 w = Before3 w × (w.watch.gonggo_alive_started ≡ false)

  abbrev pub Before1 : World e → Type 0
  Before1 w = Before2 w × (w.proxy_subscribe_started ≡ false)

  pub start_channel-Before1 :
      (w : World e) → Before1 w → w.proxy_channel_started ≡ false → Before1 (start_channel e g w).0
  unfolding start_channel held runs made safe
  start_channel-Before1 w o n = ground arith

  pub start_subscribe-Before2 : (w : World e) → Before1 w → Before2 (start_subscribe e g w).0
  unfolding start_subscribe held runs made safe
  start_subscribe-Before2 w o = ground arith

  pub gonggo_created-Before3 :
      (ok : Bool) (n : ℕ) (w : World e)
      → Before2 w
      → (let h = thread_created gonggo_thread ok ∷ w.calls in
          Before3 (
            if ok
            then watch_gonggo e g n
                (record w { watch = record w.watch { gonggo_alive_started = true }; calls = h })
            else record w { calls = h }))
  unfolding watch_gonggo held runs made safe
  gonggo_created-Before3 true n w o = (
    watch-IsLive n
        (record w {
          watch = record w.watch { gonggo_alive_started = true };
          calls = thread_created gonggo_thread true ∷ w.calls;
        })
        (ground arith),
    ground arith,
  )
  gonggo_created-Before3 false n w o = ground arith

  pub start_gonggo-Before3 : (w : World e) → Before2 w → Before3 (start_gonggo e g w).0
  unfolding start_gonggo
  start_gonggo-Before3 w o =
      let ok = g.posix.creates_thread w.calls gonggo_thread in
      let n = g.looks_by_then (thread_created gonggo_thread ok ∷ w.calls) in
      gonggo_created-Before3 ok n w o

  pub start_comm-IsLive : (w : World e) → Before3 w → IsLive e (start_comm e g w).0
  unfolding start_comm held runs made safe
  start_comm-IsLive w o = ground arith

  and_start-keeps :
      (P Q : World e → Type 0) (start : World e → World e × Bool) (x : World e × Bool)
      → P x.0
      → ((w : World e) → P w → Q w)
      → ((w : World e) → P w → Q (start w).0)
      → Q (and_start e g start x).0
  and_start-keeps P Q start (w, true) h k l = l w h
  and_start-keeps P Q start (w, false) h k l = k w h

  pub start_threads-IsLive :
      (w : World e) → Before1 w → w.proxy_channel_started ≡ false → IsLive e (start_threads e g w).0
  unfolding start_threads
  start_threads-IsLive w o n =
      and_start-keeps Before3 (IsLive e) (start_comm e g) _
        (and_start-keeps Before2 Before3 (start_gonggo e g) _
          (and_start-keeps Before1 Before2 (start_subscribe e g) (start_channel e g w)
            (start_channel-Before1 w o n) (λ v h. h.0) start_subscribe-Before2)
          (λ v h. h.0) start_gonggo-Before3)
        (λ v h. h.0) start_comm-IsLive

  pub activate-IsLive :
      (x : World e × Bool) → IsLive e x.0 → OnSome (λ y. IsLive e y.0) (activate e g x)
  unfolding activate alive_mutex_lock held runs made safe
  activate-IsLive (w, true) o = ground arith
  activate-IsLive (w, false) o = o

  pub pause-IsLive : (x : Pause) (w : World e) → IsLive e w → IsLive e (pause e g x w)
  unfolding pause handler held runs made safe
  pause-IsLive (signal s) w o = ground arith
  pause-IsLive stop_request w o = o
  pause-IsLive (watches n) w o = watch-IsLive n (record w { calls = paused ∷ w.calls }) o

  pub pauses-IsLive : (xs : List Pause) (w : World e) → IsLive e w → IsLive e (pauses e g xs w).0
  unfolding pauses
  pauses-IsLive [] w o = o
  pauses-IsLive (x ∷ xs) w o =
      if-split (λ y. IsLive e y.0) w.watch.proxy_exit (w, true) (pauses e g xs (pause e g x w))
        (λ _. o) (λ _. pauses-IsLive xs (pause e g x w) (pause-IsLive x w o))

  -- What the program leaves where it has ended, and that it still holds everything where it waits.
  abbrev pub Ends : Outcome e → Type 0
  Ends (returns code w) = IsReleased e w
  Ends (waits w) = IsLive e w

  pub return_after-Ends :
      (code : ℕ) (o : Option (World e))
      → OnSome (IsReleased e) o
      → OnSome Ends (return_after e g code o)
  return_after-Ends code none h = tt
  return_after-Ends code (some w) h = h

  pub run_main-Ends : (xs : List Pause) (w : World e) → IsLive e w → OnSome Ends (run_main e g xs w)
  unfolding run_main
  run_main-Ends xs w0 o =
      let (w, exits) = pauses e g xs w0 in
      let live = pauses-IsLive xs w0 o in
      if-split (OnSome Ends) exits (return_after e g 0 (shut_down e g w)) (some (waits w))
        (λ _. return_after-Ends 0 (shut_down e g w) (shut_down-IsReleased e g w live)) (λ _. live)

  pub run_threads-Ends :
      (xs : List Pause) (w : World e)
      → Before1 w
      → w.proxy_channel_started ≡ false
      → OnSome Ends (run_threads e g xs w)
  unfolding run_threads
  run_threads-Ends xs w o n =
      bind-OnSome (λ y. IsLive e y.0) Ends (activate e g (start_threads e g w)) _
        (activate-IsLive _ (start_threads-IsLive w o n))
        (λ (v, started) l.
          let stopping = record v { watch = record v.watch { proxy_exit = true } } in
          if-split (OnSome Ends) started (run_main e g xs v)
            (return_after e g error_start (shut_down e g stopping)) (λ _. run_main-Ends xs v l)
            (λ _.
              return_after-Ends error_start (shut_down e g stopping)
                (shut_down-IsReleased e g stopping l)))
