-- ===== src/Threads/Machine.antt =====
-- The machine of the threads: which events can happen in a state, and what each does.
use sawang.Prelude.{
  ◌+◌, ◌≡◌, Bool, true, false, not, ◌&&◌, none, some, List, [], ◌∷◌, if◌then◌else◌, Bool-cases, inl,
  inr,
}
use sawang.Threads.System.{
  subscribe_stops, subscribe_terminates, subscribe_wakes, subscribe_returns, subscribe_takes,
  subscribe_locks, comm_stops, signal_subscribe, comm_wakes, subscribe_return, comm_takes,
  subscribe_take, comm_locks, subscribe_lock, subscribe_holds, subscribe_ends, signal_comm,
  draining, comm_holds, is_awake, author, answers, is_over, comm, channel, set_left, finishes,
  subscribe_end, can_call, call, CommAt, taking, returning, exchanging, calls, Event, System,
  SubscribeAt,
}
use sawang.Shm.{ProxySubscribeState, ProxyChannelShm}
use sawang.Threads.Comm.{reply_calls, task_calls}
use sawang.Threads.Channel.{exchange_calls}
use sawang.Threads.Calls.{fault, over, Script}
use sawang.ProxyChannel.{exchange_read, ChannelCalls}
use sawang.ProxySubscribe.{Subscribe, Attempt}
use sawang.ParseQueue.{parse_queue_pop_head}
use sawang.Proxy.{Proxy, Callbacks, Env}

module _ (e : Env) (cb : Callbacks e) (calls_of : ChannelCalls e) where
  -- what the channel thread does at the end of an exchange
  unfoldable pub finish_calls : ProxyChannelShm → ProxyChannelShm → Script e
  finish_calls read left = elim (exchange_read e calls_of read) [
    | none ↦ fault
    | some (shm, x) ↦ exchange_calls e x left
  ]

  abbrev pub can_exchange : SubscribeAt → Bool
  can_exchange (exchanging t) = true
  can_exchange _ = false

  abbrev pub can_take : SubscribeAt → Bool
  can_take taking = true
  can_take _ = false

  abbrev pub can_return : SubscribeAt → Bool
  can_return returning = true
  can_return _ = false

  abbrev pub can_lock : SubscribeAt → Bool
  can_lock SubscribeAt.awake = true
  can_lock _ = false

  unfoldable pub can : System e → Event e → Bool
  can s (calls c) = can_call e s (s.left c)
  can s (finishes read left) = is_over e (s.left channel)
  can s (answers i arg headers payload) = is_over e (s.left (author i))
  can s comm_locks = is_awake s.comm_at
  can s comm_takes = comm_holds s.comm_at && is_over e (s.left comm)
  can s comm_wakes = true
  can s comm_stops = not (comm_holds s.comm_at)
  can s subscribe_locks = can_lock s.subscribe_at
  can s subscribe_takes = can_take s.subscribe_at
  can s (subscribe_ends a) = can_exchange s.subscribe_at
  can s subscribe_returns = can_return s.subscribe_at
  can s subscribe_wakes = true
  can s subscribe_terminates = true
  can s subscribe_stops = not (subscribe_holds s.subscribe_at)

  -- the next task of the communication thread, or its wait
  unfoldable pub comm_take : System e → System e
  comm_take s =
      let (task, rest) = parse_queue_pop_head e.parse s.proxy.parse_queue in
      let t = record s { proxy = record s.proxy { parse_queue = rest } } in
      elim task [
        | none ↦ record t { comm_at = CommAt.asleep }
        | some x ↦ record t { left = set_left e s.left comm (task_calls e cb x) }
      ]

  abbrev pub end_of : Attempt → SubscribeAt → System e → System e
  end_of a (exchanging task) s = subscribe_end e a task s
  end_of a _ s = s

  unfoldable pub move : System e → Event e → System e
  unfolding finish_calls comm_take
  move s (calls c) = call e s c
  move s (finishes read left) = record s {
    left = set_left e s.left channel (finish_calls read left);
  }
  move s (answers i arg headers payload) = record s {
    left = set_left e s.left (author i) (reply_calls e arg headers payload over);
  }
  move s comm_locks = record s { comm_at = if s.proxy_comm_end then CommAt.gone else draining }
  move s comm_takes = comm_take s
  move s comm_wakes = record s { comm_at = signal_comm s.comm_at }
  move s comm_stops = record s {
    proxy = record s.proxy { comm_signals = s.proxy.comm_signals + 1 };
    proxy_comm_end = true;
    comm_at = signal_comm s.comm_at;
  }
  move s subscribe_locks = subscribe_lock e s
  move s subscribe_takes = subscribe_take e s
  move s (subscribe_ends a) = end_of a s.subscribe_at s
  move s subscribe_returns = subscribe_return e s
  move s subscribe_wakes = record s { subscribe_at = signal_subscribe s.subscribe_at }
  move s subscribe_terminates = record s {
    subscribe = record s.subscribe {
      shm = record s.subscribe.shm { state = ProxySubscribeState.termination };
    };
  }
  move s subscribe_stops = record s {
    proxy = record s.proxy { subscribe_signals = s.proxy.subscribe_signals + 1 };
    subscribe = record s.subscribe { proxy_subscribe_end = true };
    subscribe_at = signal_subscribe s.subscribe_at;
  }

  unfoldable pub step : System e → Event e → System e
  unfolding can move
  step s x = if can s x then move s x else s

  unfoldable pub steps : System e → List (Event e) → System e
  unfolding step
  steps s [] = s
  steps s (x ∷ xs) = steps (step s x) xs

  -- the threads at their start, with nothing to do yet
  abbrev pub started_system : Proxy e → Subscribe e.reply → System e
  started_system proxy subscribe = record {
    proxy = proxy;
    left = λ _. over;
    comm_at = CommAt.awake;
    proxy_comm_end = false;
    subscribe_at = SubscribeAt.awake;
    subscribe = subscribe;
    put_back = [];
  }

  -- A property that each event keeps holds after any events.
  pub steps-Kept :
      (P : System e → Type 0)
      → ((s : System e) (x : Event e) → can s x ≡ true → P s → P (move s x))
      → (xs : List (Event e)) (s : System e) → P s
      → P (steps s xs)
  unfolding steps step
  steps-Kept P keep [] s p = p
  steps-Kept P keep (x ∷ xs) s p =
      steps-Kept P keep xs (step s x)
        (elim (Bool-cases (can s x)) [ inl b ↦ rw b (keep s x b p) | inr b ↦ rw b p ])
