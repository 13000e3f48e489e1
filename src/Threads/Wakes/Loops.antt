-- ===== src/Threads/Wakes/Loops.antt =====
-- The steps of the loops of the communication thread and of the subscribe thread keep what is owed.
use sawang.Prelude.{
  ◌⊎◌, append-nil, ◌≡◌, refl, sym, ap, subst, ◌∙◌, Bool, true, false, not, ◌&&◌, Option, none, some,
  List, [], ◌++◌, if◌then◌else◌, is_some, arith, Bool-cases, inl, inr,
}
use sawang.Threads.Machine.{can_return, end_of, can_exchange, comm_take}
use sawang.Threads.Wakes.{
  SubscribeOwed, SubscribeIsWoken, CommIsWoken, Left, subscribe-left, comm-left, IsWoken,
}
use sawang.ReplyQueue.Order.{tasks}
use sawang.ReplyQueue.{ReplyQueueTask, reply_queue_pop_head}
use sawang.Threads.Family.{set_left-all}
use sawang.Threads.Owed.{OwesSubscribe, OwesComm, IsPaying, task_calls-IsPaying}
use sawang.Threads.System.{
  with_queue, CommAt, set_left, comm, SubscribeAt, returning, comm_holds, Caller, subscribe_take,
  subscribe_return, subscribe_lock, subscribe_end, System, is_over, exchanging, taking, draining,
}
use sawang.ProxySubscribe.Outcome.{return_failed-is_some, return_failed-tasks}
use sawang.Threads.Comm.{task_calls}
use sawang.ProxyComm.Total.{tail_of_none}
use sawang.ProxyComm.Queue.{parse_tasks, pop_head-parse_tasks}
use sawang.ProxySubscribe.Passes.{pop-tasks}
use sawang.Proxy.{Callbacks, Env}
use sawang.ParseQueue.{ParseQueueTask}
use sawang.ProxySubscribe.{
  Attempt, is_termination, send_task, return_failed, proxy_subscribe_shm_idle, Subscribe,
}
use sawang.Threads.Calls.{over, Script}
use sawang.ProxyChannel.{ChannelCalls}

over_eq : {e : Env} (k : Script e) → is_over e k ≡ true → k ≡ over
over_eq over h = refl
over_eq k h = cc

module _ (e : Env) (cb : Callbacks e) (calls_of : ChannelCalls e) where
  -- A thread with nothing left to do is given a program.
  pub given-IsWoken :
      (s : System e) (c : Caller) (k : Script e)
      → is_over e (s.left c) ≡ true
      → IsPaying e k
      → IsWoken e s
      → IsWoken e (record s { left = set_left e s.left c k })
  given-IsWoken s c k idle pays h = record {
    comm_woken =
        comm-left e s.comm_at s.proxy.parse_queue s.left c k
          (λ o. absurd (subst (OwesComm e) (over_eq (s.left c) idle) o)) h.comm_woken;
    subscribe_woken =
        subscribe-left e s.subscribe_at s.subscribe.alive s.put_back s.proxy.reply_queue s.left c k
          (λ o. absurd (subst (OwesSubscribe e) (over_eq (s.left c) idle) o)) h.subscribe_woken;
    paying = set_left-all e (IsPaying e) s.left c k h.paying pays;
    has_queue = h.has_queue;
  }

  pub comm_moved :
      (s : System e) (at : CommAt) (q : Option e.parse.Queue)
      → CommIsWoken e at q s.left
      → IsWoken e s
      → IsWoken e (record s { proxy = record s.proxy { parse_queue = q }; comm_at = at })
  comm_moved s at q woken h = record {
    comm_woken = woken;
    subscribe_woken = h.subscribe_woken;
    paying = h.paying;
    has_queue = h.has_queue;
  }

  subscribe_moved :
      (s : System e) (at : SubscribeAt) (t : Subscribe e.reply) (back : List ReplyQueueTask)
      (q : Option e.reply.Queue)
      → SubscribeIsWoken e at t.alive back q s.left
      → is_some q ≡ true
      → IsWoken e s
      → IsWoken e (record s {
        proxy = record s.proxy { reply_queue = q };
        subscribe_at = at;
        subscribe = t;
        put_back = back;
      })
  subscribe_moved s at t back q woken there h = record {
    comm_woken = h.comm_woken;
    subscribe_woken = woken;
    paying = h.paying;
    has_queue = there;
  }

  holding-CommIsWoken :
      (at : CommAt) (q : Option e.parse.Queue) (left : Left e)
      → comm_holds at ≡ true
      → CommIsWoken e at q left
  holding-CommIsWoken CommAt.asleep q left h = cc
  holding-CommIsWoken CommAt.awake q left h = tt
  holding-CommIsWoken draining q left h = tt
  holding-CommIsWoken CommAt.gone q left h = tt

  took-IsWoken :
      (s : System e) (task : Option ParseQueueTask) (rest : Option e.parse.Queue)
      → (task ≡ none → parse_tasks e rest ≡ [])
      → comm_holds s.comm_at ≡ true
      → is_over e (s.left comm) ≡ true
      → IsWoken e s
      → let t = record s { proxy = record s.proxy { parse_queue = rest } } in
        IsWoken e (elim task [
          | none ↦ record t { comm_at = CommAt.asleep }
          | some x ↦ record t { left = set_left e s.left comm (task_calls e cb x) }
        ])
  took-IsWoken s none rest empty holds idle h = comm_moved s CommAt.asleep rest (inl (empty refl)) h
  took-IsWoken s (some x) rest empty holds idle h =
      given-IsWoken (record s { proxy = record s.proxy { parse_queue = rest } }) comm
        (task_calls e cb x) idle (task_calls-IsPaying e cb x)
        (comm_moved s s.comm_at rest (holding-CommIsWoken s.comm_at rest s.left holds) h)

  pub comm_take-IsWoken :
      (s : System e)
      → comm_holds s.comm_at && is_over e (s.left comm) ≡ true
      → IsWoken e s
      → IsWoken e (comm_take e cb calls_of s)
  unfolding comm_take
  comm_take-IsWoken s both h =
      let (popped, left) = pop_head-parse_tasks e s.proxy.parse_queue in
      took-IsWoken s _ _ (λ n. left ∙ tail_of_none _ (sym popped ∙ n)) (ground arith) (ground arith)
        h

  pub subscribe_lock-IsWoken : (s : System e) → IsWoken e s → IsWoken e (subscribe_lock e s)
  unfolding subscribe_lock
  subscribe_lock-IsWoken s h =
      let t = s.subscribe in
      elim (Bool-cases
        (t.alive && (not t.proxy_subscribe_end && not (is_termination t.shm.state)))) [
          | inl b ↦
              rw (b, subscribe_lock)
                (subscribe_moved s taking (record t { shm = proxy_subscribe_shm_idle t.shm }) []
                  s.proxy.reply_queue tt h.has_queue h)
          | inr b ↦
              rw (b, subscribe_lock)
                (subscribe_moved s SubscribeAt.gone t s.put_back s.proxy.reply_queue tt h.has_queue
                  h)
        ]

  taken-IsWoken :
      (task : Option ReplyQueueTask) (alive : Bool) (back : List ReplyQueueTask)
      (q : Option e.reply.Queue) (left : Left e)
      → (task ≡ none → tasks e.reply q ≡ [])
      → SubscribeIsWoken e
          (elim task [ none ↦ returning | some t ↦ exchanging t ])
          alive
          back
          q
          left
  taken-IsWoken none alive back q left empty = λ _. inl (empty refl)
  taken-IsWoken (some t) alive back q left empty = tt

  pub subscribe_take-IsWoken : (s : System e) → IsWoken e s → IsWoken e (subscribe_take e s)
  unfolding subscribe_take
  subscribe_take-IsWoken s h =
      let (popped, left, still) = pop-tasks e.reply s.proxy.reply_queue h.has_queue in
      let (task, rest) = reply_queue_pop_head e.reply s.proxy.reply_queue in
      subscribe_moved s (elim task [ none ↦ returning | some t ↦ exchanging t ]) s.subscribe
        s.put_back rest
        (taken-IsWoken task s.subscribe.alive s.put_back rest s.left
          (λ n. left ∙ tail_of_none _ (sym popped ∙ n)))
        still h

  ended-IsWoken :
      (alive : Bool) (back : List ReplyQueueTask) (q : Option e.reply.Queue) (left : Left e)
      → SubscribeIsWoken e (if alive then taking else returning) alive back q left
  ended-IsWoken true back q left = tt
  ended-IsWoken false back q left = λ h. cc

  pub end_of-IsWoken :
      (a : Attempt) (at : SubscribeAt) (s : System e)
      → can_exchange e cb calls_of at ≡ true
      → IsWoken e s
      → IsWoken e (end_of e cb calls_of a at s)
  unfolding subscribe_end
  end_of-IsWoken a (exchanging task) s g h =
      let t = send_task e.reply (record a { meanwhile = [] }) task s.subscribe in
      subscribe_moved s (if t.alive then taking else returning) t s.put_back s.proxy.reply_queue
        (ended-IsWoken t.alive s.put_back s.proxy.reply_queue s.left) h.has_queue h
  end_of-IsWoken a SubscribeAt.asleep s g h = cc
  end_of-IsWoken a SubscribeAt.awake s g h = cc
  end_of-IsWoken a taking s g h = cc
  end_of-IsWoken a returning s g h = cc
  end_of-IsWoken a SubscribeAt.gone s g h = cc

  slept-IsWoken :
      (alive : Bool) (back : List ReplyQueueTask) (q : Option e.reply.Queue) (left : Left e)
      → (alive ≡ true → (tasks e.reply q ≡ back) ⊎ SubscribeOwed e left)
      → SubscribeIsWoken e
          (if alive then SubscribeAt.asleep else SubscribeAt.gone)
          alive
          back
          q
          left
  slept-IsWoken true back q left h = h refl
  slept-IsWoken false back q left h = tt

  pub subscribe_return-IsWoken :
      (at : SubscribeAt) (s : System e)
      → s.subscribe_at ≡ at
      → can_return e cb calls_of at ≡ true
      → IsWoken e s
      → IsWoken e (subscribe_return e s)
  unfolding subscribe_return
  subscribe_return-IsWoken returning s at g h =
      let back = e.reply.contents s.subscribe.failed_task in
      let t = return_failed e.reply (with_queue e s) in
      let (all, none_left, same, shown) =
        return_failed-tasks e.reply (with_queue e s) h.has_queue in
      let before =
        subst (λ at. SubscribeIsWoken e at s.subscribe.alive s.put_back s.proxy.reply_queue s.left)
          at h.subscribe_woken in
      subscribe_moved s (if t.alive then SubscribeAt.asleep else SubscribeAt.gone) t back
        t.reply_queue
        (slept-IsWoken t.alive back t.reply_queue s.left (λ a. elim (before (sym same ∙ a)) [
          | inl empty ↦ inl (all ∙ (ap (λ us. back ++ us) empty ∙ append-nil back))
          | inr owed ↦ inr owed
        ]))
        (return_failed-is_some e.reply (with_queue e s) h.has_queue) h
  subscribe_return-IsWoken SubscribeAt.asleep s at g h = cc
  subscribe_return-IsWoken SubscribeAt.awake s at g h = cc
  subscribe_return-IsWoken taking s at g h = cc
  subscribe_return-IsWoken SubscribeAt.gone s at g h = cc
  subscribe_return-IsWoken (exchanging t) s at g h = cc

  pub locked-CommIsWoken :
      (b : Bool) (q : Option e.parse.Queue) (left : Left e)
      → CommIsWoken e (if b then CommAt.gone else draining) q left
  locked-CommIsWoken true q left = tt
  locked-CommIsWoken false q left = tt
