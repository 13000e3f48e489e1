-- ===== src/Threads/Quiet.antt =====
-- gear/proxycomm.c: the communication thread never signals itself.
use sawang.Prelude.{
  ℕ, ◌≡◌, refl, sym, subst, Bool, Option, List, CString, arith, Option-cases, inl, inr,
}
use sawang.Threads.Machine.{end_of, move, comm_take}
use sawang.Threads.System.{
  returning, answers, taking, finishes, subscribe_lock, exchanging, channel, subscribe_return,
  subscribe_locks, author, subscribe_take, set_left, comm_takes, SubscribeAt, comm, call, Caller,
  subscribe_ends, subscribe_end, same_caller, System, calls, Event,
}
use sawang.Threads.Calls.{
  fault, over, calls_back, awakes_subscribe, awakes_comm, appends_reply, appends_task,
  dups_task_key, dups_requests, drops, sets, advance, Script,
}
use sawang.ProxySubscribe.{Attempt}
use sawang.Proxy.{Callback, Proxy, Callbacks, Env}
use sawang.RespondTable.{
  respond_table_dup_task_key, respond_table_request_dup, respond_table_drop, respond_table_set,
}
use sawang.Threads.Comm.{task_calls}
use sawang.Threads.Closed.Tasks.{task_calls-Ok, IsTaskClosed}
use sawang.ParseQueue.{parse_queue_pop_head}
use sawang.ProxyChannel.{ChannelCalls}

module _ (e : Env) where
  -- The program does not signal the communication thread.
  abbrev pub IsUnsignalling : Script e → Type 0
  IsUnsignalling over = Unit
  IsUnsignalling fault = Unit
  IsUnsignalling (sets w key uuid k) = (b : Bool) → IsUnsignalling (k b)
  IsUnsignalling (drops w key uuid k) = (b : Bool) (n : Option ℕ) → IsUnsignalling (k b n)
  IsUnsignalling (dups_requests w key k) = (o : Option e.glib.PtrArray) → IsUnsignalling (k o)
  IsUnsignalling (dups_task_key w uuid k) = (o : Option CString) → IsUnsignalling (k o)
  IsUnsignalling (appends_task key task uuid w k) = IsUnsignalling k
  IsUnsignalling (appends_reply rid headers payload multi k) = IsUnsignalling k
  IsUnsignalling (awakes_comm k) = ⊥
  IsUnsignalling (awakes_subscribe k) = IsUnsignalling k
  IsUnsignalling (calls_back c k) = (before : List (Callback e)) → IsUnsignalling (k before)

  IsUnsignalling-IsTaskClosed : IsTaskClosed e IsUnsignalling
  IsUnsignalling-IsTaskClosed = record {
    closed = record {
      on_drops = λ w key uuid k h. h;
      on_dups = λ w key k h. h;
      on_send = λ rid headers payload multi k h. h;
      on_call_back = λ c k h. h;
    };
    on_over = tt;
    on_fault = tt;
    on_dups_key = λ w uuid k h. h;
  }

  advance-IsUnsignalling :
      (k : Script e) (s : Proxy e) → IsUnsignalling k → IsUnsignalling (advance e k s).1
  unfolding advance
  advance-IsUnsignalling over s h = h
  advance-IsUnsignalling fault s h = h
  advance-IsUnsignalling (sets w key uuid k) s h =
      h (respond_table_set e.glib s.tables w key uuid).1
  advance-IsUnsignalling (drops w key uuid k) s h =
      let d = respond_table_drop e.glib s.tables w key uuid in h d.1 d.2
  advance-IsUnsignalling (dups_requests w key k) s h =
      h (respond_table_request_dup e.glib s.tables w key)
  advance-IsUnsignalling (dups_task_key w uuid k) s h =
      h (respond_table_dup_task_key e.glib s.tables w uuid)
  advance-IsUnsignalling (appends_task key task uuid w k) s h = h
  advance-IsUnsignalling (appends_reply rid headers payload multi k) s h = h
  advance-IsUnsignalling (awakes_comm k) s h = absurd h
  advance-IsUnsignalling (awakes_subscribe k) s h = h
  advance-IsUnsignalling (calls_back c k) s h = h s.called

  module _ (cb : Callbacks e) (calls_of : ChannelCalls e) where
    abbrev pub Quiet : System e → Type 0
    Quiet s = IsUnsignalling (s.left comm)

    set_left-Quiet :
        (left : Caller → Script e) (c : Caller) (k : Script e)
        → IsUnsignalling (left comm)
        → (c ≡ comm → IsUnsignalling k)
        → IsUnsignalling (set_left e left c k comm)
    unfolding same_caller
    set_left-Quiet left channel k h go = h
    set_left-Quiet left comm k h go = go refl
    set_left-Quiet left (author i) k h go = h

    comm_take-Quiet : (s : System e) → Quiet s → Quiet (comm_take e cb calls_of s)
    unfolding comm_take
    comm_take-Quiet s h = elim (Option-cases (parse_queue_pop_head e.parse s.proxy.parse_queue).0) [
      | inl n ↦ rw (n, comm_take) h
      | inr (x, n) ↦
          rw (n, comm_take)
            (set_left-Quiet s.left comm (task_calls e cb x) h
              (λ _. task_calls-Ok e IsUnsignalling-IsTaskClosed cb x))
    ]

    end_of-Quiet :
        (a : Attempt) (at : SubscribeAt) (s : System e)
        → Quiet s
        → Quiet (end_of e cb calls_of a at s)
    unfolding subscribe_end
    end_of-Quiet a (exchanging task) s h = h
    end_of-Quiet a SubscribeAt.asleep s h = h
    end_of-Quiet a SubscribeAt.awake s h = h
    end_of-Quiet a taking s h = h
    end_of-Quiet a returning s h = h
    end_of-Quiet a SubscribeAt.gone s h = h

    pub move-Quiet : (s : System e) (x : Event e) → Quiet s → Quiet (move e cb calls_of s x)
    unfolding move call subscribe_take subscribe_return subscribe_lock same_caller
    move-Quiet s (calls c) h = set_left-Quiet s.left c (advance e (s.left c) s.proxy).1 h (λ k.
        advance-IsUnsignalling (s.left c) s.proxy
          (subst (λ d. IsUnsignalling (s.left d)) (sym k) h))
    move-Quiet s (finishes read left) h = h
    move-Quiet s (answers i arg headers payload) h = h
    move-Quiet s comm_takes h = comm_take-Quiet s h
    move-Quiet s subscribe_locks h = ground arith
    move-Quiet s (subscribe_ends a) h = end_of-Quiet a s.subscribe_at s h
    move-Quiet s x h = h
