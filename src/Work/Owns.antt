-- ===== src/Work/Owns.antt =====
-- gear/work.c: what the program holds at each point of its life.
use sawang.Prelude.{OnSome, ℕ, ◌≡◌, Bool, true, false, none, CString, is_some, arith}
use sawang.ProxySubscribe.Owned.{subscribe_path_create-some}
use sawang.ProxyChannel.Owned.{channel_path_create-some}
use sawang.Work.{
  subscribe_destroy, proxy_comm_context_init, proxy_comm_context_destroy, gonggo_destroy,
  channel_destroy, World,
}
use sawang.Shm.{ProxySubscribeShm, ProxyChannelShm}
use sawang.ProxyChannel.Context.{
  proxy_channel_context_destroy, proxy_channel_shm_create, proxy_channel_context_init,
}
use sawang.Posix.{
  Thread, channel_thread, subscribe_thread, gonggo_thread, comm_thread, subscribe_lock,
  subscribe_wakeup, comm_lock, comm_wakeup, log_lock, uuid_lock, Posix, shm_open, shared_mutex_init,
  mmap, shm_open_or_create, gonggo_shm, alive_shm, subscribe_shm, channel_shm,
}
use sawang.GonggoAlive.{
  check_alive, gonggo_alive_create_shm, gonggo_alive_context_destroy, gonggo_alive_context_init,
}
use sawang.ProxySubscribe.Context.{
  proxy_subscribe_shm_create, proxy_subscribe_context_destroy, proxy_subscribe_context_init,
}
use sawang.AliveMutex.{alive_mutex_create}
use sawang.Work.Ledger.{safe, made, runs}
use sawang.Posix.Counts.{count, held}
use sawang.Proxy.{Env}

abbrev pub no_threads : Thread → Bool
no_threads t = false

module _ (e : Env) where
  -- The program holds what its variables say: the memory of each context that has a path, its own
  -- locks, and the threads given. The first argument says whether the communication thread's lock and
  -- condition are made.
  abbrev pub Owns : Bool → (Thread → Bool) → World e → Type 0
  Owns comm threads w =
      (held channel_shm w.calls ≡ count (is_some w.watch.channel.path))
      × (held subscribe_shm w.calls ≡ count (is_some w.watch.subscribe.path))
      × (held alive_shm w.calls ≡ count (is_some w.watch.alive.path))
      × (held gonggo_shm w.calls ≡ count w.watch.gonggo_alive_shm)
      × (made log_lock w.calls ≡ w.has_proxy_log_lock)
      × (made uuid_lock w.calls ≡ w.proxy_uuid_has_lock)
      × (made subscribe_lock w.calls ≡ is_some w.watch.subscribe.path)
      × (made subscribe_wakeup w.calls ≡ is_some w.watch.subscribe.path)
      × (made comm_lock w.calls ≡ comm)
      × (made comm_wakeup w.calls ≡ comm)
      × (runs channel_thread w.calls ≡ threads channel_thread)
      × (runs subscribe_thread w.calls ≡ threads subscribe_thread)
      × (runs gonggo_thread w.calls ≡ threads gonggo_thread)
      × (runs comm_thread w.calls ≡ threads comm_thread)
      × (safe w.calls ≡ true)
      × (is_some w.watch.channel.shm ≡ is_some w.watch.channel.path)
      × (is_some w.watch.subscribe.shm ≡ is_some w.watch.subscribe.path)
      × (is_some w.watch.alive.shm ≡ is_some w.watch.alive.path)

  pub channel_destroy-Owns :
      (w : World e) (c : Bool)
      → Owns c no_threads w
      → Owns c no_threads (channel_destroy e w) × ((channel_destroy e w).watch.channel.path ≡ none)
  unfolding channel_destroy proxy_channel_context_destroy held runs made safe
  channel_destroy-Owns w c o = ground arith

  pub subscribe_destroy-Owns :
      (w : World e) (c : Bool)
      → is_some w.watch.subscribe.path ≡ true
      → Owns c no_threads w
      → Owns c no_threads (subscribe_destroy e w)
        × ((subscribe_destroy e w).watch.subscribe.path ≡ none)
  unfolding subscribe_destroy proxy_subscribe_context_destroy held runs made safe
  subscribe_destroy-Owns w c s o = ground arith

  pub gonggo_destroy-Owns :
      (w : World e) (c : Bool)
      → Owns c no_threads w
      → Owns c no_threads (gonggo_destroy e w)
        × ((gonggo_destroy e w).watch.gonggo_alive_shm ≡ false)
  unfolding gonggo_destroy gonggo_alive_context_destroy held runs made safe
  gonggo_destroy-Owns w c o = ground arith

  pub comm_init-Owns :
      (w : World e) (t : Thread → Bool) → Owns false t w → Owns true t (proxy_comm_context_init e w)
  unfolding proxy_comm_context_init held runs made safe
  comm_init-Owns w t o = ground arith

  pub comm_destroy-Owns :
      (w : World e)
      → Owns true no_threads w
      → Owns false no_threads (proxy_comm_context_destroy e w)
  unfolding proxy_comm_context_destroy held runs made safe
  comm_destroy-Owns w o = ground arith

  pub alive_create-Owns :
      (p : Posix) (size : ℕ) (name : CString) (w : World e) (c : Bool) (t : Thread → Bool)
      → w.watch.alive.path ≡ none
      → Owns c t w
      → (let (ok, c', h) = alive_mutex_create p size name true w.watch.alive w.calls in
          Owns c t (record w { watch = record w.watch { alive = c' }; calls = h })
          × (is_some c'.path ≡ ok))
  unfolding alive_mutex_create shm_open_or_create mmap shared_mutex_init held runs made safe
  alive_create-Owns p size name w c t n o = ground arith

  pub channel_init-Owns :
      (p : Posix) (size : ℕ) (found : ProxyChannelShm) (name : CString) (w : World e) (c : Bool)
      (t : Thread → Bool)
      → w.watch.channel.path ≡ none
      → Owns c t w
      → OnSome
          (λ (ok, c', h).
            Owns c t (record w { watch = record w.watch { channel = c' }; calls = h })
            × (is_some c'.path ≡ ok))
          (proxy_channel_context_init p size found name w.watch.channel w.calls)
  unfolding proxy_channel_context_init proxy_channel_shm_create shm_open_or_create mmap
      shared_mutex_init held runs made safe
  channel_init-Owns p size found name w c t n o =
      ground (arith, channel_path_create-some p size found name)

  pub subscribe_init-Owns :
      (p : Posix) (size : ℕ) (found : ProxySubscribeShm) (name : CString) (w : World e) (c : Bool)
      (t : Thread → Bool)
      → w.watch.subscribe.path ≡ none
      → Owns c t w
      → OnSome
          (λ (ok, c', h).
            Owns c t (record w { watch = record w.watch { subscribe = c' }; calls = h })
            × (is_some c'.path ≡ ok))
          (proxy_subscribe_context_init p size found name w.watch.subscribe w.calls)
  unfolding proxy_subscribe_context_init proxy_subscribe_shm_create shm_open_or_create mmap
      shared_mutex_init held runs made safe
  subscribe_init-Owns p size found name w c t n o =
      ground (arith, subscribe_path_create-some p size found name)

  pub gonggo_init-Owns :
      (p : Posix) (name : CString) (w : World e) (c : Bool)
      → w.watch.gonggo_alive_shm ≡ false
      → Owns c no_threads w
      → OnSome
          (λ (ok, v, h).
            Owns c no_threads (record w { watch = v; calls = h })
            × (v ≡ record w.watch { gonggo_alive_shm = ok }))
          (gonggo_alive_context_init p name w.watch w.calls)
  unfolding gonggo_alive_context_init gonggo_alive_create_shm check_alive shm_open mmap held runs
      made safe
  gonggo_init-Owns p name w c n o = ground arith
