-- ===== src/Threads/Comm.antt =====
-- gear/proxycomm.c: what the communication thread calls, one lock after the other.
use sawang.Prelude.{
  ℕ, zero, suc, ◌+◌, ◌&&◌, Option, none, some, List, [], ◌∷◌, CString, ltb, ◌==◌, if◌then◌else◌,
  str_eq,
}
use sawang.Proxy.{ran, cleared, string_at, item_at, ProxyReplyArg, Callbacks, Env}
use sawang.Threads.Calls.{
  calls_back, over, awakes_subscribe, fault, dups_task_key, dups_requests, drops, appends_reply,
  Script,
}
use sawang.ProxyComm.Loop.{clear_payload, clear_headers, unsubscribes, known_type}
use sawang.RespondTable.{singleshot, multirespond, RespondTableType}
use sawang.ProxyComm.{
  leaves_none, is_multirespond, task_key_from_reply_arg, proxy_comm_create_reply_arg,
}
use sawang.Define.{gonggoservice_request_drop, service_rid_key}
use sawang.ParseQueue.{ParseQueueTask}

module _ (e : Env) where
  open e.json use {
    Json, create_array, create_string, add_item_to_array, get_array_size, get_array_item,
  }
  open e.glib use {PtrArray, ptr_array_len, ptr_array_index}

  -- an answer, and the signal for it
  unfoldable pub send_calls : RespondTableType → Json → Json → Option Json → Script e → Script e
  send_calls which rid headers payload k =
      appends_reply rid headers payload (is_multirespond e which) (awakes_subscribe k)

  -- the loop of `proxy_comm_reply`: from index `i`, `n` rounds
  unfoldable pub rids_calls :
      RespondTableType → CString → PtrArray → ℕ → ℕ → Json → (Json → Script e) → Script e
  rids_calls which task_key arr zero i rid k = k rid
  rids_calls which task_key arr (suc n) i rid k =
      let request_uuid = ptr_array_index arr i in
      let next : Script e =
        rids_calls which task_key arr n (i + 1) (add_item_to_array rid (create_string request_uuid))
          k in
      elim which [ singleshot ↦ drops singleshot task_key request_uuid (λ _ _. next) | _ ↦ next ]

  -- the answer for a copy of the requests of a task
  unfoldable pub answer_calls :
      RespondTableType → CString → PtrArray → Json → Option Json → Script e → Script e
  unfolding send_calls rids_calls
  answer_calls which task_key arr headers payload k =
      if ltb 1 (ptr_array_len arr)
      then rids_calls which task_key arr (ptr_array_len arr) 0 create_array
          (λ rid. send_calls which rid headers payload k)
      else if ptr_array_len arr == 1
      then send_calls which (create_string (ptr_array_index arr 0)) headers payload k
      else k

  abbrev pub answer_found :
      RespondTableType
      → CString
      → Json
      → Option Json
      → Script e
      → Option PtrArray
      → Script e
      → Script e
  answer_found which task_key headers payload k none other = other
  answer_found which task_key headers payload k (some arr) other =
      answer_calls which task_key arr headers payload k

  unfoldable pub reply_calls : ProxyReplyArg e → Json → Option Json → Script e → Script e
  unfolding answer_calls
  reply_calls arg headers payload k =
      let task_key = task_key_from_reply_arg e arg in
      dups_requests singleshot task_key (λ single.
        answer_found singleshot task_key headers payload k single (
          dups_requests multirespond task_key
            (λ multi. answer_found multirespond task_key headers payload k multi k)))

  module _ (cb : Callbacks e) where
    unfoldable pub clear_calls : CString → CString → Option (ProxyReplyArg e) → Script e → Script e
    clear_calls task_key uuid reply_arg k = drops multirespond task_key uuid (λ dropped remaining.
        if dropped && (leaves_none remaining && cb.has_multirespond_clear)
        then elim reply_arg [ none ↦ fault | some arg ↦ calls_back (cleared arg) (λ _. k) ]
        else k)

    -- the loop of `proxy_comm_drop_multirespond_request`
    unfoldable pub items_calls : Option Json → ℕ → ℕ → Script e → Script e
    unfolding clear_calls
    items_calls arr zero i k = k
    items_calls arr (suc n) i k =
        let rest = items_calls arr n (i + 1) k in
        let item : Option Json = elim arr [ none ↦ none | some a ↦ get_array_item a i ] in
        elim (string_at e.json item) [
          | none ↦ rest
          | some uuid ↦ dups_task_key multirespond uuid (λ found. elim found [
            | none ↦ rest
            | some task_key ↦
                clear_calls task_key uuid (proxy_comm_create_reply_arg e task_key) rest
          ])
        ]

    unfoldable pub drop_request_calls : Option Json → Script e → Script e
    unfolding items_calls
    drop_request_calls payload k =
        let arr = item_at e.json payload service_rid_key in
        items_calls arr (elim arr [ none ↦ 0 | some a ↦ get_array_size a ]) 0 k

    unfoldable pub replies_calls : ProxyReplyArg e → List (Json × Option Json) → Script e → Script e
    unfolding reply_calls
    replies_calls arg [] k = k
    replies_calls arg ((headers, payload) ∷ rest) k =
        reply_calls arg headers payload (replies_calls arg rest k)

    unfoldable pub unsubscribe_calls : CString → CString → CString → Script e
    unfolding clear_calls reply_calls
    unsubscribe_calls task_key unsubscribe_task_key unsubscribe_uuid =
        elim (proxy_comm_create_reply_arg e unsubscribe_task_key) [
          | none ↦ fault
          | some reply_arg ↦
              clear_calls unsubscribe_task_key unsubscribe_uuid (some reply_arg)
                (elim (proxy_comm_create_reply_arg e task_key) [
                  | none ↦ fault
                  | some arg ↦
                      reply_calls arg (clear_headers e cb)
                        (some (clear_payload e cb unsubscribe_uuid)) over
                ])
        ]

    unfoldable pub run_calls : CString → Script e
    unfolding drop_request_calls replies_calls
    run_calls task_key = elim (proxy_comm_create_reply_arg e task_key) [
      | none ↦ fault
      | some arg ↦
          if str_eq arg.service gonggoservice_request_drop
          then drop_request_calls arg.payload over
          else if cb.has_run
          then calls_back (ran arg) (λ before. replies_calls arg (cb.run before arg) over)
          else over
    ]

    unfoldable pub dispatch_calls : CString → Option (CString × CString) → Script e
    unfolding unsubscribe_calls run_calls
    dispatch_calls task_key (some (unsubscribe_task_key, unsubscribe_uuid)) =
        unsubscribe_calls task_key unsubscribe_task_key unsubscribe_uuid
    dispatch_calls task_key none = run_calls task_key

    -- the body of the inner loop of `proxy_comm`
    unfoldable pub task_calls : ParseQueueTask → Script e
    unfolding dispatch_calls
    task_calls x =
        if known_type x.type
        then dispatch_calls x.task_key
            (unsubscribes x.type x.unsubscribe_task_key x.unsubscribe_uuid)
        else over
