-- ===== src/Threads/Closed/Tasks.antt =====
-- gear/proxycomm.c: the rule for a property of the program of a task.
use sawang.Prelude.{
  ℕ, zero, suc, ◌+◌, ◌&&◌, Option, none, some, CString, Option-cases, inl, inr, str_eq,
}
use sawang.Proxy.{ran, item_at, string_at, ProxyReplyArg, Callbacks, Env}
use sawang.Threads.Closed.{replies_calls-Ok, clear_calls-Ok, reply_calls-Ok, if-Ok, IsClosed}
use sawang.Define.{gonggoservice_request_drop, service_rid_key}
use sawang.ProxyComm.Loop.{known_type, clear_payload, clear_headers}
use sawang.Threads.Comm.{
  drop_request_calls, unsubscribe_calls, task_calls, run_calls, dispatch_calls, items_calls,
  clear_calls, reply_calls,
}
use sawang.ParseQueue.{ParseQueueTask}
use sawang.Threads.Calls.{over, dups_task_key, fault, Script}
use sawang.RespondTable.{multirespond, RespondTableType}
use sawang.ProxyComm.{proxy_comm_create_reply_arg, leaves_none}

module _ (e : Env) where
  open e.json use {Json}

  -- A property of programs that the program of any task has, whether or not it faults.
  pub record IsTaskClosed (Ok : Script e → Type 0) : Type 0 where
    pub closed : IsClosed e Ok
    pub on_over : Ok over
    pub on_fault : Ok fault
    pub on_dups_key :
        (w : RespondTableType) (uuid : CString) (k : Option CString → Script e)
        → ((o : Option CString) → Ok (k o))
        → Ok (dups_task_key w uuid k)

  module _ {Ok : Script e → Type 0} (t : IsTaskClosed Ok) (cb : Callbacks e) where
    any_clear-Ok :
        (task uuid : CString) (arg : Option (ProxyReplyArg e)) (k : Script e)
        → Ok k
        → Ok (clear_calls e cb task uuid arg k)
    unfolding clear_calls
    any_clear-Ok task uuid none k h =
        t.closed.on_drops multirespond task uuid _ (λ b n.
          if-Ok e Ok (b && (leaves_none n && cb.has_multirespond_clear)) fault k t.on_fault h)
    any_clear-Ok task uuid (some arg) k h = clear_calls-Ok e t.closed cb task uuid arg k h

    item_calls-Ok :
        (found : Option CString) (uuid : CString) (k : Script e)
        → Ok k
        → Ok (elim found [
          | none ↦ k
          | some task_key ↦
              clear_calls e cb task_key uuid (proxy_comm_create_reply_arg e task_key) k
        ])
    item_calls-Ok none uuid k h = h
    item_calls-Ok (some task) uuid k h =
        any_clear-Ok task uuid (proxy_comm_create_reply_arg e task) k h

    items_calls-Ok :
        (arr : Option Json) (n i : ℕ) (k : Script e) → Ok k → Ok (items_calls e cb arr n i k)
    unfolding items_calls
    items_calls-Ok arr zero i k h = h
    items_calls-Ok arr (suc n) i k h =
        let item : Option Json = elim arr [ none ↦ none | some a ↦ e.json.get_array_item a i ] in
        let rest = items_calls-Ok arr n (i + 1) k h in
        elim (Option-cases (string_at e.json item)) [
          | inl f ↦ rw (f, items_calls) rest
          | inr (uuid, f) ↦
              rw (f, items_calls)
                (t.on_dups_key multirespond uuid _ (λ found. item_calls-Ok found uuid _ rest))
        ]

    run_calls-Ok : (key : CString) → Ok (run_calls e cb key)
    unfolding run_calls drop_request_calls
    run_calls-Ok key = elim (Option-cases (proxy_comm_create_reply_arg e key)) [
      | inl f ↦ rw (f, run_calls) t.on_fault
      | inr (arg, f) ↦
          let arr = item_at e.json arg.payload service_rid_key in
          let n : ℕ = elim arr [ none ↦ 0 | some a ↦ e.json.get_array_size a ] in
          rw (f, run_calls)
            (if-Ok e Ok (str_eq arg.service gonggoservice_request_drop) _ _
              (items_calls-Ok arr n 0 over t.on_over)
              (if-Ok e Ok cb.has_run _ over
                (t.closed.on_call_back (ran arg) _
                  (λ before. replies_calls-Ok e t.closed cb arg (cb.run before arg) over t.on_over))
                t.on_over))
    ]

    cleared-Ok :
        (uuid : CString) (o : Option (ProxyReplyArg e))
        → Ok (elim o [
          | none ↦ fault
          | some arg ↦ reply_calls e arg (clear_headers e cb) (some (clear_payload e cb uuid)) over
        ])
    cleared-Ok uuid none = t.on_fault
    cleared-Ok uuid (some arg) =
        reply_calls-Ok e t.closed arg (clear_headers e cb) (some (clear_payload e cb uuid)) over
          t.on_over

    unsubscribe_calls-Ok : (key task uuid : CString) → Ok (unsubscribe_calls e cb key task uuid)
    unfolding unsubscribe_calls
    unsubscribe_calls-Ok key task uuid = elim (Option-cases (proxy_comm_create_reply_arg e task)) [
      | inl f ↦ rw (f, unsubscribe_calls) t.on_fault
      | inr (arg, f) ↦
          rw (f, unsubscribe_calls)
            (any_clear-Ok task uuid (some arg) _
              (cleared-Ok uuid (proxy_comm_create_reply_arg e key)))
    ]

    dispatch_calls-Ok :
        (key : CString) (u : Option (CString × CString)) → Ok (dispatch_calls e cb key u)
    unfolding dispatch_calls
    dispatch_calls-Ok key none = run_calls-Ok key
    dispatch_calls-Ok key (some (task, uuid)) = unsubscribe_calls-Ok key task uuid

    pub task_calls-Ok : (x : ParseQueueTask) → Ok (task_calls e cb x)
    unfolding task_calls
    task_calls-Ok x =
        if-Ok e Ok (known_type x.type) _ over (dispatch_calls-Ok x.task_key _) t.on_over
