-- ===== src/Work/Main.antt =====
-- gear/work.c: the starts and stops of the threads, and `work`.
use sawang.Prelude.{
  ◌>>=◌, ℕ, Bool, true, false, not, ◌||◌, Option, none, some, List, [], ◌∷◌, if◌then◌else◌,
}
use sawang.Work.{
  proxy_comm_context_init, error_termhandler, stop_request, watches, error_start, proxy_uuid_init,
  proxy_comm_context_destroy, enable_subscribe, waits, stop_gonggo, returns, proxy_log_context_init,
  gonggo_destroy, enable_channel, clean_up, subscribe_destroy, stop_subscribe, signal, Outcome,
  stop_channel, join, handler, create_tables, channel_destroy, World, Pause, Program,
}
use sawang.Posix.{
  subscribe_shm, locked, handles_term, channel_shm, comm_wakeup, signalled, killed, alive_shm,
  thread_created, paused, comm_lock, unlocked, subscribe_thread, gonggo_thread, comm_thread,
  channel_thread,
}
use sawang.ProxySubscribe.Context.{proxy_subscribe_context_init}
use sawang.GonggoAlive.{gonggo_alive_context_init, gonggo_loop}
use sawang.ProxyChannel.Context.{proxy_channel_context_init}
use sawang.AliveMutex.{alive_mutex_create, alive_mutex_lock, alive_mutex_die}
use sawang.Proxy.{Env}

module _ (e : Env) (g : Program e) where
  unfoldable pub stop_comm : World e → World e
  stop_comm w =
      if w.proxy_comm_started
      then record w {
        calls =
            unlocked comm_lock
            ∷ signalled comm_wakeup
            ∷ locked comm_lock (g.posix.lock_status w.calls comm_lock)
            ∷ w.calls;
      }
      else w

  unfoldable pub join_all : World e → World e
  unfolding join
  join_all w = record w {
    calls = join e w.proxy_comm_started comm_thread (
        join e w.watch.gonggo_alive_started gonggo_thread (
          join e w.proxy_subscribe_started subscribe_thread
            (join e w.proxy_channel_started channel_thread w.calls)));
  }

  unfoldable pub destroy_contexts : World e → World e
  unfolding channel_destroy subscribe_destroy gonggo_destroy proxy_comm_context_destroy
  destroy_contexts w =
      proxy_comm_context_destroy e (gonggo_destroy e (subscribe_destroy e (channel_destroy e w)))

  unfoldable pub threads_stop : World e → Option (World e)
  unfolding stop_channel stop_subscribe stop_gonggo stop_comm join_all destroy_contexts
  threads_stop w = do
    w ← stop_channel e g w
    w ← stop_subscribe e g w
    some (destroy_contexts (join_all (stop_comm (stop_gonggo e g w))))

  unfoldable pub start_channel : World e → World e × Bool
  start_channel w =
      let ok = g.posix.creates_thread w.calls channel_thread in
      (
        record w {
          proxy_channel_started = w.proxy_channel_started || ok;
          calls = thread_created channel_thread ok ∷ w.calls;
        },
        ok,
      )

  unfoldable pub start_subscribe : World e → World e × Bool
  start_subscribe w =
      let ok = g.posix.creates_thread w.calls subscribe_thread in
      (
        record w {
          proxy_subscribe_started = w.proxy_subscribe_started || ok;
          calls = thread_created subscribe_thread ok ∷ w.calls;
        },
        ok,
      )

  -- what the thread that watches Gonggo has done after a number of looks
  unfoldable pub watch_gonggo : ℕ → World e → World e
  watch_gonggo n w =
      let (v, h) = gonggo_loop g.posix n w.watch w.calls in record w { watch = v; calls = h }

  unfoldable pub start_gonggo : World e → World e × Bool
  unfolding watch_gonggo
  start_gonggo w =
      let ok = g.posix.creates_thread w.calls gonggo_thread in
      let h = thread_created gonggo_thread ok ∷ w.calls in
      (
        if ok
            then watch_gonggo (g.looks_by_then h)
                (record w { watch = record w.watch { gonggo_alive_started = true }; calls = h })
            else record w { calls = h },
        ok,
      )

  unfoldable pub start_comm : World e → World e × Bool
  start_comm w =
      let ok = g.posix.creates_thread w.calls comm_thread in
      (
        record w {
          proxy_comm_started = w.proxy_comm_started || ok;
          calls = thread_created comm_thread ok ∷ w.calls;
        },
        ok,
      )

  -- the next start, where the one before it has succeeded
  abbrev pub and_start : (World e → World e × Bool) → World e × Bool → World e × Bool
  and_start start (w, false) = (w, false)
  and_start start (w, true) = start w

  unfoldable pub start_threads : World e → World e × Bool
  unfolding start_channel start_subscribe start_gonggo start_comm
  start_threads w =
      and_start start_comm (and_start start_gonggo (and_start start_subscribe (start_channel w)))

  -- the lock of the life sign is taken once all threads have started
  unfoldable pub activate : World e × Bool → Option (World e × Bool)
  activate (w, false) = some (w, false)
  activate (w, true) = do
    h ← alive_mutex_lock g.posix 0 w.watch.alive w.calls
    some (record w { calls = h }, g.proxy_activate h)

  -- alive_mutex_die, threads_stop and clean_up
  unfoldable pub shut_down : World e → Option (World e)
  unfolding threads_stop
  shut_down w = do
    (alive, h) ← alive_mutex_die w.watch.alive w.calls
    w ← threads_stop (record w { watch = record w.watch { alive = alive }; calls = h })
    some (clean_up e w)

  unfoldable pub pause : Pause → World e → World e
  unfolding watch_gonggo handler
  pause (signal sigterm) w = record w { watch = handler sigterm w.watch; calls = paused ∷ w.calls }
  pause stop_request w = record w {
    watch = record w.watch { proxy_exit = true };
    calls = killed ∷ paused ∷ w.calls;
  }
  pause (watches n) w = watch_gonggo n (record w { calls = paused ∷ w.calls })

  -- the loop of the main thread: true if the program is to exit
  unfoldable pub pauses : List Pause → World e → World e × Bool
  unfolding pause
  pauses [] w = (w, w.watch.proxy_exit)
  pauses (x ∷ xs) w =
      let rest = pauses xs (pause x w) in if w.watch.proxy_exit then (w, true) else rest

  abbrev pub return_after : ℕ → Option (World e) → Option (Outcome e)
  return_after code none = none
  return_after code (some w) = some (returns code w)

  unfoldable pub run_main : List Pause → World e → Option (Outcome e)
  unfolding pauses shut_down
  run_main xs w0 =
      let (w, exits) = pauses xs w0 in
      if exits then return_after 0 (shut_down w) else some (waits w)

  unfoldable pub run_threads : List Pause → World e → Option (Outcome e)
  unfolding start_threads activate run_main
  run_threads xs w0 = do
    (w, started) ← activate (start_threads w0)
    if started
        then run_main xs w
        else return_after error_start
            (shut_down (record w { watch = record w.watch { proxy_exit = true } }))

  -- from the context of the watch on
  unfoldable pub start_watch : List Pause → World e → Option (Outcome e)
  unfolding run_threads channel_destroy subscribe_destroy enable_channel enable_subscribe
  start_watch xs w0 = do
    (ok, v, h) ← gonggo_alive_context_init g.posix g.gonggo_name w0.watch w0.calls
    let w = record w0 { watch = v; calls = h }
    if ok
        then run_threads xs (proxy_comm_context_init e w)
        else some (
            returns error_start (
              clean_up e (
                subscribe_destroy e (enable_subscribe e (channel_destroy e (enable_channel e w))))))

  -- from the context of the subscribe thread on
  unfoldable pub start_subscription : List Pause → World e → Option (Outcome e)
  unfolding start_watch channel_destroy enable_channel
  start_subscription xs w0 = do
    (ok, c, h) ←
        proxy_subscribe_context_init g.posix (g.size subscribe_shm) g.subscribe_found g.proxy_name
          w0.watch.subscribe w0.calls
    let w = record w0 { watch = record w0.watch { subscribe = c }; calls = h }
    if ok
        then start_watch xs w
        else some (returns error_start (clean_up e (channel_destroy e (enable_channel e w))))

  -- from the context of the channel thread on
  unfoldable pub start_contexts : List Pause → World e → Option (Outcome e)
  unfolding start_subscription
  start_contexts xs w0 = do
    (ok, c, h) ←
        proxy_channel_context_init g.posix (g.size channel_shm) g.channel_found g.proxy_name
          w0.watch.channel w0.calls
    let w = record w0 { watch = record w0.watch { channel = c }; calls = h }
    if ok then start_subscription xs w else some (returns error_start (clean_up e w))

  unfoldable pub start_resources : List Pause → World e → Option (Outcome e)
  unfolding start_contexts create_tables
  start_resources xs w0 =
      let w = create_tables e w0 in
      let (ok, c, h) =
        alive_mutex_create g.posix (g.size alive_shm) g.proxy_name true w.watch.alive w.calls in
      let w1 = record w { watch = record w.watch { alive = c }; calls = h } in
      if ok then start_contexts xs w1 else some (returns error_start (clean_up e w1))

  unfoldable pub work : List Pause → World e → Option (Outcome e)
  unfolding start_resources
  work xs w0 =
      let w = proxy_log_context_init e g.pid g.log_path (proxy_uuid_init e w0) in
      if not g.has_payload_parse
      then some (returns error_start w)
      else if not g.has_run
      then some (returns error_start w)
      else (let ok = g.posix.handles w.calls in
          let w1 = record w { calls = handles_term ok ∷ w.calls } in
          if ok then start_resources xs w1 else some (returns error_termhandler (clean_up e w1)))
