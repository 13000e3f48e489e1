-- ===== src/ProxyComm/Loop.antt =====
-- gear/proxycomm.c: one task of the communication thread, and its loops.
use sawang.Prelude.{
  ℕ, zero, suc, Bool, true, false, Option, none, some, List, [], ◌∷◌, ◌++◌, CString, if◌then◌else◌,
  str_eq,
}
use sawang.Define.{
  service_rid_key, service_status_key, gonggoservice_request_drop, status_code,
  multirespond_clear_success,
}
use sawang.RespondTable.{RespondTableType, singleshot, other}
use sawang.ParseQueue.{ParseQueueTask, parse_queue_pop_head}
use sawang.Proxy.{Env, Proxy, ProxyReplyArg, ran, Callbacks}
use sawang.ProxyComm.{
  proxy_comm_create_reply_arg, proxy_comm_reply, drop_and_clear,
  proxy_comm_drop_multirespond_request,
}

-- the two tests of a task's unsubscription: is it there for a single response
unfoldable pub unsubscribes :
    RespondTableType → Option CString → Option CString → Option (CString × CString)
unsubscribes singleshot (some task_key) (some uuid) = some (task_key, uuid)
unsubscribes _ _ _ = none

unfoldable pub known_type : RespondTableType → Bool
known_type (other n) = false
known_type _ = true

module _ (e : Env) (cb : Callbacks e) where
  open e.json use {Json, create_object, create_string, create_number, add_item_to_object}

  -- the headers and the payload of the answer to an unsubscription
  unfoldable pub clear_headers : Json
  unfolding status_code
  clear_headers =
      add_item_to_object create_object service_status_key
        (create_number (status_code multirespond_clear_success))

  unfoldable pub clear_payload : CString → Json
  clear_payload unsubscribe_uuid =
      add_item_to_object create_object service_rid_key (create_string unsubscribe_uuid)

  -- a task that takes a request off another task
  unfoldable pub comm_unsubscribe : Proxy e → CString → CString → CString → Option (Proxy e)
  unfolding drop_and_clear clear_headers clear_payload
  comm_unsubscribe s task_key unsubscribe_task_key unsubscribe_uuid =
      elim (proxy_comm_create_reply_arg e unsubscribe_task_key) [
        | none ↦ none
        | some reply_arg ↦
            elim (drop_and_clear e cb s unsubscribe_task_key unsubscribe_uuid (some reply_arg)) [
              | none ↦ none
              | some t ↦ elim (proxy_comm_create_reply_arg e task_key) [
                | none ↦ none
                | some arg ↦
                    some (
                      proxy_comm_reply e t arg clear_headers
                        (some (clear_payload unsubscribe_uuid)))
              ]
            ]
      ]

  -- the replies that ProxyRun makes, in order
  unfoldable pub replies : Proxy e → ProxyReplyArg e → List (Json × Option Json) → Proxy e
  replies s arg [] = s
  replies s arg ((headers, payload) ∷ rest) =
      replies (proxy_comm_reply e s arg headers payload) arg rest

  -- a task that runs
  unfoldable pub comm_run : Proxy e → CString → Option (Proxy e)
  unfolding replies
  comm_run s task_key = elim (proxy_comm_create_reply_arg e task_key) [
    | none ↦ none
    | some arg ↦
        if str_eq arg.service gonggoservice_request_drop
        then proxy_comm_drop_multirespond_request e cb s arg.payload
        else if cb.has_run
        then some
            (replies (record s { called = s.called ++ (ran arg ∷ []) }) arg (cb.run s.called arg))
        else some s
  ]

  unfoldable pub comm_dispatch : Proxy e → CString → Option (CString × CString) → Option (Proxy e)
  unfolding comm_unsubscribe comm_run
  comm_dispatch s task_key (some (unsubscribe_task_key, unsubscribe_uuid)) =
      comm_unsubscribe s task_key unsubscribe_task_key unsubscribe_uuid
  comm_dispatch s task_key none = comm_run s task_key

  -- the body of the inner loop of `proxy_comm`
  unfoldable pub comm_task : Proxy e → ParseQueueTask → Option (Proxy e)
  unfolding comm_dispatch unsubscribes known_type
  comm_task s task =
      if known_type task.type
      then comm_dispatch s task.task_key
          (unsubscribes task.type task.unsubscribe_task_key task.unsubscribe_uuid)
      else some s

  -- the inner loop of `proxy_comm`, on fuel: it takes tasks until there is none
  unfoldable pub comm_drain : ℕ → Proxy e → Option (Proxy e)
  unfolding comm_task
  comm_drain zero s = some s
  comm_drain (suc fuel) s =
      let (task, rest) = parse_queue_pop_head e.parse s.parse_queue in
      let t = record s { parse_queue = rest } in
      elim task [
        | none ↦ some t
        | some x ↦ elim (comm_task t x) [ none ↦ none | some u ↦ comm_drain fuel u ]
      ]
