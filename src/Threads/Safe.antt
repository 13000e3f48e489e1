-- ===== src/Threads/Safe.antt =====
-- What the programs of calls need so that no null string is passed to strdup, under every interleaving
-- of the threads: the keys in the multirespond table and on the parse queue name services.
use sawang.Prelude.{
  ℕ, ◌≡◌, refl, Bool, true, Option, none, some, List, CString, is_some, Option-cases, inl, inr, All,
}
use sawang.Threads.Closed.{replies_calls-Ok, reply_calls-Ok, if-Ok, clear_calls-Ok, IsClosed}
use sawang.ProxyComm.Loop.{clear_payload, clear_headers, known_type}
use sawang.Proxy.{Callback, ProxyReplyArg, Proxy, Callbacks, Env}
use sawang.ProxyComm.{proxy_comm_create_reply_arg}
use sawang.Threads.Calls.{
  fault, calls_back, awakes_subscribe, awakes_comm, appends_reply, appends_task, dups_task_key,
  dups_requests, over, drops, sets, Script,
}
use sawang.ProxyComm.Queue.{parse_tasks}
use sawang.ParseQueue.{parse_task, ParseQueueTask, non_empty}
use sawang.RespondTable.{multirespond, RespondTableType}
use sawang.ProxyComm.Total.{IsServed, IsHandled, Handled}
use sawang.Threads.Comm.{unsubscribe_calls, task_calls, run_calls, dispatch_calls, reply_calls}
use sawang.ProxyChannel.Handled.{KeysAreServed}

module _ (e : Env) where
  open e.json use {Json}
  open e.glib use {PtrArray}

  -- A key that names a service and is not empty.
  abbrev pub IsKey : CString → Type 0
  IsKey k = (is_some (proxy_comm_create_reply_arg e k) ≡ true) × (non_empty (some k) ≡ some k)

  abbrev pub KeyFits : RespondTableType → CString → Type 0
  KeyFits multirespond k = IsKey k
  KeyFits _ k = Unit

  -- The program does not fault, whatever its calls return, and puts in the multirespond table and on
  -- the parse queue only what the communication thread can handle. A task that it finds has such a key.
  abbrev pub IsSafe : Script e → Type 0
  IsSafe over = Unit
  IsSafe fault = ⊥
  IsSafe (sets w key uuid k) = KeyFits w key × ((b : Bool) → IsSafe (k b))
  IsSafe (drops w key uuid k) = (b : Bool) (n : Option ℕ) → IsSafe (k b n)
  IsSafe (dups_requests w key k) = (o : Option PtrArray) → IsSafe (k o)
  IsSafe (dups_task_key w uuid k) =
      IsSafe (k none) × ((task : CString) → KeyFits w task → IsSafe (k (some task)))
  IsSafe (appends_task key task uuid w k) = IsHandled e (parse_task key task uuid w) × IsSafe k
  IsSafe (appends_reply rid headers payload multi k) = IsSafe k
  IsSafe (awakes_comm k) = IsSafe k
  IsSafe (awakes_subscribe k) = IsSafe k
  IsSafe (calls_back c k) = (before : List (Callback e)) → IsSafe (k before)

  -- The keys of the multirespond tasks, and the tasks on the parse queue.
  pub record IsServing (s : Proxy e) : Type 0 where
    pub keys : KeysAreServed e s
    pub queue : All (IsHandled e) (parse_tasks e s.parse_queue)

  IsSafe-IsClosed : IsClosed e IsSafe
  IsSafe-IsClosed = record {
    on_drops = λ w key uuid k h. h;
    on_dups = λ w key k h. h;
    on_send = λ rid headers payload multi k h. h;
    on_call_back = λ c k h. h;
  }

  pub reply_calls-IsSafe :
      (arg : ProxyReplyArg e) (headers : Json) (payload : Option Json) (k : Script e)
      → IsSafe k
      → IsSafe (reply_calls e arg headers payload k)
  reply_calls-IsSafe arg headers payload k h =
      reply_calls-Ok e IsSafe-IsClosed arg headers payload k h

  module _ (cb : Callbacks e) where
    run_calls-IsSafe :
        (key : CString) (o : Option (ProxyReplyArg e))
        → proxy_comm_create_reply_arg e key ≡ o
        → IsServed e o
        → IsSafe (run_calls e cb key)
    unfolding run_calls
    run_calls-IsSafe key none f h = absurd h
    run_calls-IsSafe key (some arg) f h =
        rw (f, run_calls)
          (rw h (
            if-Ok e IsSafe cb.has_run _ over
              (λ before. replies_calls-Ok e IsSafe-IsClosed cb arg (cb.run before arg) over tt) tt))

    unsubscribe_calls-IsSafe :
        (key task uuid : CString) (a b : ProxyReplyArg e)
        → proxy_comm_create_reply_arg e key ≡ some a
        → proxy_comm_create_reply_arg e task ≡ some b
        → IsSafe (unsubscribe_calls e cb key task uuid)
    unfolding unsubscribe_calls
    unsubscribe_calls-IsSafe key task uuid a b f g =
        rw (g, f, unsubscribe_calls)
          (clear_calls-Ok e IsSafe-IsClosed cb task uuid b
            (reply_calls e a (clear_headers e cb) (some (clear_payload e cb uuid)) over)
            (reply_calls-IsSafe a (clear_headers e cb) (some (clear_payload e cb uuid)) over tt))

    dispatch_calls-IsSafe :
        (key : CString) (u : Option (CString × CString))
        → Handled e key u
        → IsSafe (dispatch_calls e cb key u)
    unfolding dispatch_calls
    dispatch_calls-IsSafe key none h = run_calls-IsSafe key _ refl h
    dispatch_calls-IsSafe key (some (task, uuid)) h =
        elim (Option-cases (proxy_comm_create_reply_arg e key)) [
          | inl f ↦ absurd (cc (f, h.0))
          | inr (a, f) ↦ elim (Option-cases (proxy_comm_create_reply_arg e task)) [
            | inl g ↦ absurd (cc (g, h.1))
            | inr (b, g) ↦ unsubscribe_calls-IsSafe key task uuid a b f g
          ]
        ]

    -- The program of a task that can be handled is safe.
    pub task_calls-IsSafe : (x : ParseQueueTask) → IsHandled e x → IsSafe (task_calls e cb x)
    unfolding task_calls
    task_calls-IsSafe x h =
        if-Ok e IsSafe (known_type x.type) _ over (dispatch_calls-IsSafe x.task_key _ h) tt
