-- ===== src/Threads/Wakes/Moves.antt =====
-- Every move of the threads keeps what is owed.
use sawang.Prelude.{◌≡◌, refl, Bool, true, Option, List, if◌then◌else◌, is_some, arith}
use sawang.Threads.Machine.{steps-Kept, started_system, steps, can, move}
use sawang.Threads.Wakes.{
  SubscribeIsServed, subscribe-signal, subscribe-wakes, comm-signal, SubscribeIsWoken, CommIsWoken,
  Left, IsWoken,
}
use sawang.ReplyQueue.{ReplyQueueTask}
use sawang.Threads.System.{
  subscribe_terminates, subscribe_wakes, subscribe_returns, subscribe_takes, subscribe_locks,
  comm_stops, comm_wakes, comm_takes, comm_locks, subscribe_stops, subscribe_ends, CommAt, author,
  answers, channel, finishes, calls, Event, call, SubscribeAt, returning, System, exchanging,
  taking, draining,
}
use sawang.Threads.Owed.{reply_calls-IsPaying}
use sawang.Proxy.{Proxy, Callbacks, Env}
use sawang.Threads.Owed.Exchanges.{finish_calls-IsPaying}
use sawang.ProxySubscribe.{Subscribe}
use sawang.Threads.Calls.{over}
use sawang.ProxyChannel.{ChannelCalls}
use sawang.Threads.Wakes.Called.{called-IsWoken}
use sawang.Threads.Wakes.Loops.{
  given-IsWoken, comm_moved, comm_take-IsWoken, subscribe_lock-IsWoken, subscribe_take-IsWoken,
  end_of-IsWoken, subscribe_return-IsWoken, locked-CommIsWoken,
}

module _ (e : Env) (cb : Callbacks e) (calls_of : ChannelCalls e) where
  move-IsWoken :
      (s : System e) (x : Event e)
      → can e cb calls_of s x ≡ true
      → IsWoken e s
      → IsWoken e (move e cb calls_of s x)
  unfolding move can call
  move-IsWoken s (calls c) g h = called-IsWoken e s c (s.left c) refl g (h.paying c) h
  move-IsWoken s (finishes read left) g h =
      given-IsWoken e cb calls_of s channel _ g (finish_calls-IsPaying e cb calls_of read left) h
  move-IsWoken s (answers i arg headers payload) g h =
      given-IsWoken e cb calls_of s (author i) _ g
        (reply_calls-IsPaying e arg headers payload over tt) h
  move-IsWoken s comm_locks g h =
      comm_moved e cb calls_of s (if s.proxy_comm_end then CommAt.gone else draining)
        s.proxy.parse_queue
        (locked-CommIsWoken e cb calls_of s.proxy_comm_end s.proxy.parse_queue s.left) h
  move-IsWoken s comm_takes g h = comm_take-IsWoken e cb calls_of s g h
  move-IsWoken s comm_wakes g h = record {
    comm_woken = comm-signal e s.comm_at s.proxy.parse_queue s.left;
    subscribe_woken = h.subscribe_woken;
    paying = h.paying;
    has_queue = h.has_queue;
  }
  move-IsWoken s comm_stops g h = record {
    comm_woken = comm-signal e s.comm_at s.proxy.parse_queue s.left;
    subscribe_woken = h.subscribe_woken;
    paying = h.paying;
    has_queue = h.has_queue;
  }
  move-IsWoken s subscribe_locks g h = subscribe_lock-IsWoken e cb calls_of s h
  move-IsWoken s subscribe_takes g h = subscribe_take-IsWoken e cb calls_of s h
  move-IsWoken s (subscribe_ends a) g h = end_of-IsWoken e cb calls_of a s.subscribe_at s g h
  move-IsWoken s subscribe_returns g h =
      subscribe_return-IsWoken e cb calls_of s.subscribe_at s refl g h
  move-IsWoken s subscribe_wakes g h = record {
    comm_woken = h.comm_woken;
    subscribe_woken =
        subscribe-wakes e s.subscribe_at s.subscribe.alive s.put_back s.proxy.reply_queue s.left
          h.subscribe_woken;
    paying = h.paying;
    has_queue = h.has_queue;
  }
  move-IsWoken s subscribe_terminates g h = record {
    comm_woken = h.comm_woken;
    subscribe_woken = h.subscribe_woken;
    paying = h.paying;
    has_queue = h.has_queue;
  }
  move-IsWoken s subscribe_stops g h = record {
    comm_woken = h.comm_woken;
    subscribe_woken =
        subscribe-signal e s.subscribe_at s.subscribe.alive s.put_back s.proxy.reply_queue s.left
          (ground arith);
    paying = h.paying;
    has_queue = h.has_queue;
  }

  woken-served :
      (at : SubscribeAt) (alive : Bool) (back : List ReplyQueueTask) (q : Option e.reply.Queue)
      (left : Left e)
      → SubscribeIsWoken e at alive back q left
      → SubscribeIsServed e at back q left
  woken-served SubscribeAt.asleep alive back q left h = h
  woken-served SubscribeAt.awake alive back q left h = tt
  woken-served taking alive back q left h = tt
  woken-served returning alive back q left h = tt
  woken-served SubscribeAt.gone alive back q left h = tt
  woken-served (exchanging t) alive back q left h = tt

  -- No wake-up is lost between the threads, however they are interleaved. After any events, while the
  -- communication thread sleeps and nobody has signalled it, there is no task on the parse queue, or
  -- some thread still has to signal it before its calls are over. While the subscribe thread sleeps
  -- so, the reply queue has only the answers that it has itself put back since it took its lock, which
  -- Gonggo has not taken, or some thread still has to signal it. The reply queue exists at the start.
  pub steps-woken :
      (xs : List (Event e)) (proxy : Proxy e) (subscribe : Subscribe e.reply)
      → is_some proxy.reply_queue ≡ true
      → let t = steps e cb calls_of (started_system e cb calls_of proxy subscribe) xs in
        CommIsWoken e t.comm_at t.proxy.parse_queue t.left
        × SubscribeIsServed e t.subscribe_at t.put_back t.proxy.reply_queue t.left
  steps-woken xs proxy subscribe there =
      let t = steps e cb calls_of (started_system e cb calls_of proxy subscribe) xs in
      let h =
        steps-Kept e cb calls_of (IsWoken e) move-IsWoken xs
          (started_system e cb calls_of proxy subscribe)
          (record { comm_woken = tt; subscribe_woken = tt; paying = λ c. tt; has_queue = there }) in
      (
        h.comm_woken,
        woken-served t.subscribe_at t.subscribe.alive t.put_back t.proxy.reply_queue t.left
            h.subscribe_woken,
      )
