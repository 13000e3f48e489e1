-- ===== src/Work/Stops.antt =====
-- gear/work.c: what the program holds while its threads start and stop.
use sawang.Prelude.{Bool, OnSome, bind-OnSome, ◌≡◌, true, false, none, is_some, arith}
use sawang.Work.Owns.{
  no_threads, comm_destroy-Owns, gonggo_destroy-Owns, subscribe_destroy-Owns, channel_destroy-Owns,
  Owns,
}
use sawang.GonggoAlive.{gonggo_alive_context_destroy, gonggo_alive_stop}
use sawang.Work.{
  proxy_comm_context_destroy, gonggo_destroy, subscribe_destroy, channel_destroy,
  proxy_log_context_destroy, proxy_uuid_destroy, join, stop_subscribe, stop_gonggo, stop_channel,
  clean_up, World, Program,
}
use sawang.ParseQueue.{parse_queue_destroy}
use sawang.ReplyQueue.{reply_queue_destroy}
use sawang.ProxySubscribe.Context.{proxy_subscribe_shm_stop}
use sawang.ProxyChannel.Context.{proxy_channel_shm_stop}
use sawang.AliveMutex.{alive_mutex_destroy, alive_mutex_die}
use sawang.Work.Main.{threads_stop, shut_down, destroy_contexts, stop_comm, join_all}
use sawang.Posix.{
  Thread, channel_thread, subscribe_thread, gonggo_thread, comm_thread, subscribe_lock,
  subscribe_wakeup, comm_lock, comm_wakeup, log_lock, uuid_lock, gonggo_shm, alive_shm,
  subscribe_shm, robust_lock, channel_shm,
}
use sawang.Work.Ledger.{safe, made, runs}
use sawang.Posix.Counts.{held}
use sawang.RespondTable.{respond_table_destroy}
use sawang.Proxy.{Env}

module _ (e : Env) where
  -- a thread that has started
  abbrev pub threads_of : World e → Thread → Bool
  threads_of w channel_thread = w.proxy_channel_started
  threads_of w subscribe_thread = w.proxy_subscribe_started
  threads_of w gonggo_thread = w.watch.gonggo_alive_started
  threads_of w comm_thread = w.proxy_comm_started

  -- All contexts are there, and the threads that have started run.
  abbrev pub IsLive : World e → Type 0
  IsLive w =
      Owns e true (threads_of w) w
      × (is_some w.watch.channel.path ≡ true)
      × (is_some w.watch.subscribe.path ≡ true)
      × (is_some w.watch.alive.path ≡ true)

  -- The program has given everything back: memory, threads and its own locks. It has done so while
  -- no thread ran. No path, table or queue is left.
  abbrev pub IsReleased : World e → Type 0
  IsReleased w =
      (held channel_shm w.calls ≡ 0)
      × (held subscribe_shm w.calls ≡ 0)
      × (held alive_shm w.calls ≡ 0)
      × (held gonggo_shm w.calls ≡ 0)
      × (runs channel_thread w.calls ≡ false)
      × (runs subscribe_thread w.calls ≡ false)
      × (runs gonggo_thread w.calls ≡ false)
      × (runs comm_thread w.calls ≡ false)
      × (made subscribe_lock w.calls ≡ false)
      × (made subscribe_wakeup w.calls ≡ false)
      × (made comm_lock w.calls ≡ false)
      × (made comm_wakeup w.calls ≡ false)
      × (made log_lock w.calls ≡ false)
      × (made uuid_lock w.calls ≡ false)
      × (safe w.calls ≡ true)
      × (w.watch.channel.path ≡ none)
      × (w.watch.subscribe.path ≡ none)
      × (w.watch.alive.path ≡ none)
      × (w.tables.respond_table_has_table ≡ false)
      × (w.reply_queue ≡ none)
      × (w.parse_queue ≡ none)

  abbrev pub IsBare : World e → Type 0
  IsBare w =
      Owns e false no_threads w
      × (w.watch.channel.path ≡ none)
      × (w.watch.subscribe.path ≡ none)
      × (w.watch.gonggo_alive_shm ≡ false)

  pub clean_up-IsReleased : (w : World e) → IsBare w → IsReleased (clean_up e w)
  unfolding clean_up alive_mutex_destroy proxy_uuid_destroy proxy_log_context_destroy
      reply_queue_destroy parse_queue_destroy held runs made safe respond_table_destroy
  clean_up-IsReleased w o = ground arith

  module _ (g : Program e) where
    pub stop_channel-IsLive : (w : World e) → IsLive w → OnSome IsLive (stop_channel e g w)
    unfolding stop_channel proxy_channel_shm_stop robust_lock held runs made safe
    stop_channel-IsLive w o = ground arith

    pub stop_subscribe-IsLive : (w : World e) → IsLive w → OnSome IsLive (stop_subscribe e g w)
    unfolding stop_subscribe proxy_subscribe_shm_stop robust_lock held runs made safe
    stop_subscribe-IsLive w o = ground arith

    pub stop_gonggo-IsLive : (w : World e) → IsLive w → IsLive (stop_gonggo e g w)
    unfolding stop_gonggo gonggo_alive_stop held runs made safe
    stop_gonggo-IsLive w o = ground arith

    pub stop_comm-IsLive : (w : World e) → IsLive w → IsLive (stop_comm e g w)
    unfolding stop_comm held runs made safe
    stop_comm-IsLive w o = ground arith

    pub join_all-Owns :
        (w : World e)
        → IsLive w
        → Owns e true no_threads (join_all e g w) × (is_some w.watch.subscribe.path ≡ true)
    unfolding join_all join held runs made safe
    join_all-Owns w o = ground arith

    pub destroy_contexts-IsBare :
        (w : World e)
        → Owns e true no_threads w
        → is_some w.watch.subscribe.path ≡ true
        → IsBare (destroy_contexts e g w)
    unfolding destroy_contexts channel_destroy subscribe_destroy gonggo_destroy
        proxy_comm_context_destroy gonggo_alive_context_destroy
    destroy_contexts-IsBare w o s =
        let (a, c) = channel_destroy-Owns e w true o in
        let v = channel_destroy e w in
        let (b, d) = subscribe_destroy-Owns e v true s a in
        let (f, h) = gonggo_destroy-Owns e (subscribe_destroy e v) true b in
        (
          comm_destroy-Owns e (gonggo_destroy e (subscribe_destroy e v)) f,
          ground (arith, c),
          ground (arith, d),
          ground (arith, h),
        )

    pub threads_stop-IsBare : (w : World e) → IsLive w → OnSome IsBare (threads_stop e g w)
    unfolding threads_stop
    threads_stop-IsBare w o =
        bind-OnSome IsLive IsBare (stop_channel e g w) _ (stop_channel-IsLive w o) (λ v l.
          bind-OnSome IsLive IsBare (stop_subscribe e g v) _ (stop_subscribe-IsLive v l) (λ u k.
            let x = stop_comm e g (stop_gonggo e g u) in
            let (joined, s) = join_all-Owns x (stop_comm-IsLive _ (stop_gonggo-IsLive u k)) in
            destroy_contexts-IsBare (join_all e g x) joined s))

    pub die-IsLive :
        (w : World e)
        → IsLive w
        → OnSome
            (λ (alive, h).
              IsLive (record w { watch = record w.watch { alive = alive }; calls = h }))
            (alive_mutex_die w.watch.alive w.calls)
    unfolding alive_mutex_die held runs made safe
    die-IsLive w o = ground arith

    pub shut_down-IsReleased : (w : World e) → IsLive w → OnSome IsReleased (shut_down e g w)
    unfolding shut_down
    shut_down-IsReleased w o =
        bind-OnSome _ IsReleased (alive_mutex_die w.watch.alive w.calls) _ (die-IsLive w o)
          (λ (alive, h) l.
            bind-OnSome IsBare IsReleased
              (threads_stop e g (record w { watch = record w.watch { alive = alive }; calls = h }))
              _ (threads_stop-IsBare _ l) clean_up-IsReleased)
