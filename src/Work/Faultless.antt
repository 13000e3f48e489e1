-- ===== src/Work/Faultless.antt =====
-- gear/work.c: the parts of the program do not fault where the system can map memory.
use sawang.Prelude.{
  bind-is_some, if-split, ℕ, ◌≡◌, refl, Bool, true, false, Option, none, some, List, CString,
  is_some, arith,
}
use sawang.Work.{error_start, waits, Pause, stop_subscribe, stop_channel, World, Outcome, Program}
use sawang.Posix.{ShmContext, shm_open, mmap, Region, Calls, Posix}
use sawang.Work.Main.{
  start_threads, pauses, return_after, threads_stop, shut_down, run_main, run_threads, activate,
}
use sawang.Work.Stops.{
  threads_stop-IsBare, stop_subscribe-IsLive, IsBare, stop_channel-IsLive, die-IsLive, IsLive,
}
use sawang.Work.Starts.{activate-IsLive, pauses-IsLive, start_threads-IsLive, Before1}
use sawang.ProxySubscribe.Context.{
  proxy_subscribe_shm_stop, proxy_subscribe_shm_create, proxy_subscribe_context_init,
}
use sawang.ProxyChannel.Context.{
  proxy_channel_shm_stop, proxy_channel_shm_create, proxy_channel_context_init,
}
use sawang.AliveMutex.{alive_mutex_lock, alive_mutex_die, alive_path}
use sawang.Proxy.{Env}
use sawang.ProxySubscribe.Owned.{subscribe_path_create-some}
use sawang.ProxyChannel.Owned.{channel_path_create-some}
use sawang.Shm.{ProxySubscribeShm, ProxyChannelShm}
use sawang.GonggoAlive.{Watch, gonggo_alive_create_shm, gonggo_alive_context_init}

module _ (p : Posix) (maps_all : (h : Calls) (r : Region) → p.maps h r ≡ true) where
  pub channel_init-is_some :
      (size : ℕ) (found : ProxyChannelShm) (name : CString) (c : ShmContext ProxyChannelShm)
      (h : Calls)
      → is_some (proxy_channel_context_init p size found name c h) ≡ true
  unfolding proxy_channel_context_init proxy_channel_shm_create mmap
  channel_init-is_some size found name c h =
      grind (arith, channel_path_create-some p size found name, maps_all)

  pub subscribe_init-is_some :
      (size : ℕ) (found : ProxySubscribeShm) (name : CString) (c : ShmContext ProxySubscribeShm)
      (h : Calls)
      → is_some (proxy_subscribe_context_init p size found name c h) ≡ true
  unfolding proxy_subscribe_context_init proxy_subscribe_shm_create mmap
  subscribe_init-is_some size found name c h =
      grind (arith, subscribe_path_create-some p size found name, maps_all)

  pub gonggo_init-is_some :
      (name : CString) (w : Watch) (h : Calls)
      → p.opens h (alive_path name) false ≡ true
      → is_some (gonggo_alive_context_init p name w h) ≡ true
  unfolding gonggo_alive_context_init gonggo_alive_create_shm shm_open mmap
  gonggo_init-is_some name w h o = grind (arith, o, maps_all)

module _ (e : Env) (g : Program e) where
  stop_channel-is_some : (w : World e) → IsLive e w → is_some (stop_channel e g w) ≡ true
  unfolding stop_channel proxy_channel_shm_stop
  stop_channel-is_some w o = ground arith

  stop_subscribe-is_some : (w : World e) → IsLive e w → is_some (stop_subscribe e g w) ≡ true
  unfolding stop_subscribe proxy_subscribe_shm_stop
  stop_subscribe-is_some w o = ground arith

  threads_stop-is_some : (w : World e) → IsLive e w → is_some (threads_stop e g w) ≡ true
  unfolding threads_stop
  threads_stop-is_some w o =
      bind-is_some (IsLive e) (stop_channel e g w) _ (stop_channel-IsLive e g w o)
        (stop_channel-is_some w o)
        (λ v l.
          bind-is_some (IsLive e) (stop_subscribe e g v) _ (stop_subscribe-IsLive e g v l)
            (stop_subscribe-is_some v l) (λ u k. refl))

  die-is_some : (w : World e) → IsLive e w → is_some (alive_mutex_die w.watch.alive w.calls) ≡ true
  unfolding alive_mutex_die
  die-is_some w o = ground arith

  pub shut_down-is_some : (w : World e) → IsLive e w → is_some (shut_down e g w) ≡ true
  unfolding shut_down
  shut_down-is_some w o =
      bind-is_some _ (alive_mutex_die w.watch.alive w.calls) _ (die-IsLive e g w o)
        (die-is_some w o)
        (λ (alive, h) l.
          bind-is_some (IsBare e)
            (threads_stop e g (record w { watch = record w.watch { alive = alive }; calls = h })) _
            (threads_stop-IsBare e g _ l) (threads_stop-is_some _ l) (λ u k. refl))

  return_after-is_some :
      (code : ℕ) (o : Option (World e))
      → is_some o ≡ true
      → is_some (return_after e g code o) ≡ true
  return_after-is_some code none h = cc
  return_after-is_some code (some w) h = refl

  abbrev pub Goes : Option (Outcome e) → Type 0
  Goes o = is_some o ≡ true

  run_main-is_some : (xs : List Pause) (w : World e) → IsLive e w → Goes (run_main e g xs w)
  unfolding run_main
  run_main-is_some xs w0 o =
      let (w, exits) = pauses e g xs w0 in
      if-split Goes exits (return_after e g 0 (shut_down e g w)) (some (waits w))
        (λ _.
          return_after-is_some 0 (shut_down e g w)
            (shut_down-is_some w (pauses-IsLive e g xs w0 o)))
        (λ _. refl)

  activate-is_some : (x : World e × Bool) → IsLive e x.0 → is_some (activate e g x) ≡ true
  unfolding activate alive_mutex_lock
  activate-is_some (w, true) o = ground arith
  activate-is_some (w, false) o = refl

  pub run_threads-is_some :
      (xs : List Pause) (w : World e)
      → Before1 e g w
      → w.proxy_channel_started ≡ false
      → Goes (run_threads e g xs w)
  unfolding run_threads
  run_threads-is_some xs w o n =
      let live = start_threads-IsLive e g w o n in
      bind-is_some (λ y. IsLive e y.0) (activate e g (start_threads e g w)) _
        (activate-IsLive e g _ live) (activate-is_some _ live)
        (λ (v, started) l.
          let stopping = record v { watch = record v.watch { proxy_exit = true } } in
          if-split Goes started (run_main e g xs v)
            (return_after e g error_start (shut_down e g stopping)) (λ _. run_main-is_some xs v l)
            (λ _.
              return_after-is_some error_start (shut_down e g stopping)
                (shut_down-is_some stopping l)))
