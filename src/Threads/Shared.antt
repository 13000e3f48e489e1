-- ===== src/Threads/Shared.antt =====
-- The rule for a property of the tables and the parse queue that every call keeps: it holds after any
-- events, however the threads are interleaved.
use sawang.Prelude.{◌≡◌, refl, subst, Option, none, some, List, arith}
use sawang.Threads.Family.{set_left-all}
use sawang.Threads.System.{
  returning, taking, subscribe_ends, comm_takes, subscribe_locks, answers, finishes, exchanging,
  author, channel, comm, calls, CommAt, subscribe_return, subscribe_take, set_left, SubscribeAt,
  subscribe_lock, subscribe_end, call, System, Event, Caller,
}
use sawang.Threads.Comm.{reply_calls, task_calls}
use sawang.Proxy.{ProxyReplyArg, Proxy, Callbacks, Env}
use sawang.Threads.Machine.{
  steps-Kept, finish_calls, started_system, steps, end_of, move, comm_take,
}
use sawang.Shm.{ProxyChannelShm}
use sawang.ParseQueue.{parse_queue_pop_head, ParseQueueTask}
use sawang.Threads.Calls.{over, advance, Script}
use sawang.ProxySubscribe.{Subscribe, Attempt}
use sawang.ProxyChannel.{ChannelCalls}

module _ (e : Env) (cb : Callbacks e) (calls_of : ChannelCalls e) where
  -- A property of the shared state, and what the programs of calls have to satisfy for it.
  pub record IsRelied (P : Proxy e → Type 0) (Ok : Script e → Type 0) : Type 0 where
    -- only the tables and the parse queue count
    pub on_other : (s t : Proxy e) → s.tables ≡ t.tables → s.parse_queue ≡ t.parse_queue → P s → P t
    pub on_call :
        (k : Script e) (s : Proxy e) → P s → Ok k → P (advance e k s).0 × Ok (advance e k s).1
    pub on_over : Ok over
    pub on_take :
        (s : Proxy e)
        → P s
        → let (task, rest) = parse_queue_pop_head e.parse s.parse_queue in
          P (record s { parse_queue = rest })
          × ((x : ParseQueueTask) → task ≡ some x → Ok (task_calls e cb x))
    pub on_finish : (read left : ProxyChannelShm) → Ok (finish_calls e cb calls_of read left)
    pub on_answer :
        (arg : ProxyReplyArg e) (headers : e.json.Json) (payload : Option e.json.Json)
        → Ok (reply_calls e arg headers payload over)

  module _ {P : Proxy e → Type 0} {Ok : Script e → Type 0} (r : IsRelied P Ok) where
    -- The shared state and what is left to each thread.
    pub record Holds (s : System e) : Type 0 where
      pub shared : P s.proxy
      pub each : (c : Caller) → Ok (s.left c)

    call-Holds : (s : System e) (c : Caller) → Holds s → Holds (call e s c)
    unfolding call
    call-Holds s c h =
        let (shared, ok) = r.on_call (s.left c) s.proxy h.shared (h.each c) in
        record { shared = shared; each = set_left-all e Ok s.left c _ h.each ok }

    took-Holds :
        (s : System e) (task : Option ParseQueueTask) (rest : Option e.parse.Queue)
        → P (record s.proxy { parse_queue = rest })
        → ((x : ParseQueueTask) → task ≡ some x → Ok (task_calls e cb x))
        → ((c : Caller) → Ok (s.left c))
        → let t = record s { proxy = record s.proxy { parse_queue = rest } } in
          Holds (elim task [
            | none ↦ record t { comm_at = CommAt.asleep }
            | some x ↦ record t { left = set_left e s.left comm (task_calls e cb x) }
          ])
    took-Holds s none rest p ok each = record { shared = p; each = each }
    took-Holds s (some x) rest p ok each = record {
      shared = p;
      each = set_left-all e Ok s.left comm _ each (ok x refl);
    }

    comm_take-Holds : (s : System e) → Holds s → Holds (comm_take e cb calls_of s)
    unfolding comm_take
    comm_take-Holds s h =
        let (shared, ok) = r.on_take s.proxy h.shared in took-Holds s _ _ shared ok h.each

    other-Holds :
        (s t : System e)
        → s.proxy.tables ≡ t.proxy.tables
        → s.proxy.parse_queue ≡ t.proxy.parse_queue
        → s.left ≡ t.left
        → Holds s
        → Holds t
    other-Holds s t same_tables same_queue same_left h = record {
      shared = r.on_other s.proxy t.proxy same_tables same_queue h.shared;
      each = subst (λ (l : Caller → Script e). (c : Caller) → Ok (l c)) same_left h.each;
    }

    end_of-Holds :
        (a : Attempt) (at : SubscribeAt) (s : System e)
        → Holds s
        → Holds (end_of e cb calls_of a at s)
    unfolding subscribe_end
    end_of-Holds a (exchanging task) s h = other-Holds s (subscribe_end e a task s) refl refl refl h
    end_of-Holds a SubscribeAt.asleep s h = h
    end_of-Holds a SubscribeAt.awake s h = h
    end_of-Holds a taking s h = h
    end_of-Holds a returning s h = h
    end_of-Holds a SubscribeAt.gone s h = h

    lock-Holds : (s : System e) → Holds s → Holds (subscribe_lock e s)
    unfolding subscribe_lock
    lock-Holds s h =
        other-Holds s (subscribe_lock e s) (ground arith) (ground arith) (ground arith) h

    move-Holds : (s : System e) (x : Event e) → Holds s → Holds (move e cb calls_of s x)
    unfolding move subscribe_take subscribe_return
    move-Holds s (calls c) h = call-Holds s c h
    move-Holds s (finishes read left) h = record {
      shared = h.shared;
      each = set_left-all e Ok s.left channel _ h.each (r.on_finish read left);
    }
    move-Holds s (answers i arg headers payload) h = record {
      shared = h.shared;
      each = set_left-all e Ok s.left (author i) _ h.each (r.on_answer arg headers payload);
    }
    move-Holds s comm_takes h = comm_take-Holds s h
    move-Holds s subscribe_locks h = lock-Holds s h
    move-Holds s (subscribe_ends a) h = end_of-Holds a s.subscribe_at s h
    move-Holds s x h = other-Holds s (move e cb calls_of s x) refl refl refl h

    -- What each thread keeps, all of them keep, however they are interleaved.
    pub steps-Holds :
        (xs : List (Event e)) (proxy : Proxy e) (subscribe : Subscribe e.reply)
        → P proxy
        → Holds (steps e cb calls_of (started_system e cb calls_of proxy subscribe) xs)
    steps-Holds xs proxy subscribe p =
        steps-Kept e cb calls_of Holds (λ s x _ h. move-Holds s x h) xs _
          (record { shared = p; each = λ c. r.on_over })
