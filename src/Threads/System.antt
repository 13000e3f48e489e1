-- ===== src/Threads/System.antt =====
-- The threads of a running proxy over one shared state, as a machine. An event lets one thread go on by
-- one call, one lock or one wait; any sequence of events is an interleaving. An event that a lock
-- stops, or that does not fit where its thread is, changes nothing.
use sawang.Prelude.{
  ℕ, Bool, true, false, not, ◌&&◌, Option, none, some, List, [], ◌==◌, if◌then◌else◌,
}
use sawang.Threads.Calls.{fault, over, awakes_subscribe, awakes_comm, advance, Script}
use sawang.ProxySubscribe.{
  send_task, is_termination, return_failed, proxy_subscribe_shm_idle, Subscribe, Attempt,
}
use sawang.Proxy.{ProxyReplyArg, Proxy, Env}
use sawang.Shm.{ProxyChannelShm}
use sawang.ReplyQueue.{reply_queue_pop_head, ReplyQueueTask}

-- The threads that change the tables and the queues: those of gear/proxychannel.c and
-- gear/proxycomm.c, and the threads of the proxy's author, who may answer after ProxyRun has returned.
pub data Caller : Type 0 where
  channel comm : Caller
  author : ℕ → Caller

unfoldable pub same_caller : Caller → Caller → Bool
same_caller channel channel = true
same_caller comm comm = true
same_caller (author i) (author j) = i == j
same_caller _ _ = false

-- The communication thread: in pthread_cond_wait with no signal; about to take proxy_comm_lock, at
-- its start or woken up; past that, until it waits again; and past its loop.
pub data CommAt : Type 0 where
  asleep awake draining gone : CommAt

-- The same for the subscribe thread, which with its lock takes a task, has one in its exchange with
-- Gonggo, or puts back what has failed.
pub data SubscribeAt : Type 0 where
  asleep awake taking returning gone : SubscribeAt
  exchanging : ReplyQueueTask → SubscribeAt

abbrev pub signal_comm : CommAt → CommAt
signal_comm CommAt.asleep = CommAt.awake
signal_comm at = at

abbrev pub signal_subscribe : SubscribeAt → SubscribeAt
signal_subscribe SubscribeAt.asleep = SubscribeAt.awake
signal_subscribe at = at

-- the lock of the thread is held
abbrev pub comm_holds : CommAt → Bool
comm_holds draining = true
comm_holds _ = false

abbrev pub subscribe_holds : SubscribeAt → Bool
subscribe_holds taking = true
subscribe_holds returning = true
subscribe_holds (exchanging t) = true
subscribe_holds _ = false

abbrev pub is_asleep : CommAt → Bool
is_asleep CommAt.asleep = true
is_asleep _ = false

abbrev pub is_awake : CommAt → Bool
is_awake CommAt.awake = true
is_awake _ = false

-- What can happen. `calls` is the next call of a thread. The channel thread ends an exchange, for
-- which it read one state of the shared memory and Gonggo left another; a thread of the author starts
-- an answer; the main thread stops a thread, the subscribe thread by two locks; a wait ends without
-- a signal.
pub data Event (e : Env) : Type 0 where
  calls : Caller → Event e
  finishes : ProxyChannelShm → ProxyChannelShm → Event e
  answers : ℕ → ProxyReplyArg e → e.json.Json → Option e.json.Json → Event e
  comm_locks comm_takes comm_wakes comm_stops : Event e
  subscribe_locks subscribe_takes subscribe_returns subscribe_wakes : Event e
  subscribe_ends : Attempt → Event e
  subscribe_terminates subscribe_stops : Event e

module _ (e : Env) where
  pub record System : Type 0 where
    pub proxy : Proxy e
    -- what each thread still has to do before its next wait
    pub left : Caller → Script e
    pub comm_at : CommAt
    pub proxy_comm_end : Bool
    pub subscribe_at : SubscribeAt
    -- the variables of the subscribe thread; the reply queue is that of `proxy`
    pub subscribe : Subscribe e.reply
    -- the tasks that the subscribe thread has put back since it last took its lock
    pub put_back : List ReplyQueueTask

  abbrev pub set_left : (Caller → Script e) → Caller → Script e → Caller → Script e
  set_left left c k d = if same_caller c d then k else left d

  -- the next call has its lock
  abbrev pub can_call : System → Script e → Bool
  can_call s over = false
  can_call s fault = false
  can_call s (awakes_comm k) = not (comm_holds s.comm_at)
  can_call s (awakes_subscribe k) = not (subscribe_holds s.subscribe_at)
  can_call s _ = true

  abbrev pub is_over : Script e → Bool
  is_over over = true
  is_over _ = false

  abbrev pub comm_after : Script e → CommAt → CommAt
  comm_after (awakes_comm k) at = signal_comm at
  comm_after _ at = at

  abbrev pub subscribe_after : Script e → SubscribeAt → SubscribeAt
  subscribe_after (awakes_subscribe k) at = signal_subscribe at
  subscribe_after _ at = at

  unfoldable pub call : System → Caller → System
  call s c =
      let next = s.left c in
      let (proxy, rest) = advance e next s.proxy in
      record s {
        proxy = proxy;
        left = set_left s.left c rest;
        comm_at = comm_after next s.comm_at;
        subscribe_at = subscribe_after next s.subscribe_at;
      }

  -- the subscribe thread's variables, with the reply queue as it is now
  abbrev pub with_queue : System → Subscribe e.reply
  with_queue s = record s.subscribe { reply_queue = s.proxy.reply_queue }

  -- the test of the outer loop of `proxy_subscribe`, and the start of a pass
  unfoldable pub subscribe_lock : System → System
  unfolding proxy_subscribe_shm_idle
  subscribe_lock s =
      let t = s.subscribe in
      if t.alive && (not t.proxy_subscribe_end && not (is_termination t.shm.state))
      then record s {
        subscribe_at = taking;
        subscribe = record t { shm = proxy_subscribe_shm_idle t.shm };
        put_back = [];
      }
      else record s { subscribe_at = SubscribeAt.gone }

  unfoldable pub subscribe_take : System → System
  subscribe_take s =
      let (task, rest) = reply_queue_pop_head e.reply s.proxy.reply_queue in
      record s {
        proxy = record s.proxy { reply_queue = rest };
        subscribe_at = elim task [ none ↦ returning | some t ↦ exchanging t ];
      }

  -- the end of the exchange of a task; what is appended meanwhile are events of their own
  unfoldable pub subscribe_end : Attempt → ReplyQueueTask → System → System
  subscribe_end a task s =
      let t = send_task e.reply (record a { meanwhile = [] }) task s.subscribe in
      record s { subscribe = t; subscribe_at = if t.alive then taking else returning }

  unfoldable pub subscribe_return : System → System
  subscribe_return s =
      let t = return_failed e.reply (with_queue s) in
      record s {
        proxy = record s.proxy { reply_queue = t.reply_queue };
        subscribe = t;
        subscribe_at = if t.alive then SubscribeAt.asleep else SubscribeAt.gone;
        put_back = e.reply.contents s.subscribe.failed_task;
      }
