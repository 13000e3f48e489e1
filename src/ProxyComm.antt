-- ===== src/ProxyComm.antt =====
-- gear/proxycomm.c: the communication thread, which takes parsed requests to the callbacks and
-- answers to the reply queue. A result of `none` is a call of strdup on a null string.
pub mod Loop
pub mod Thread
pub mod Rules
pub mod Invariant
pub mod Queue
pub mod Total
pub mod Outcome
pub mod Reply
pub mod Rids
use sawang.Prelude.{
  ℕ, zero, suc, ◌+◌, Bool, true, false, ◌&&◌, Option, none, some, [], ◌∷◌, ◌++◌, CString,
  if◌then◌else◌, ltb, ◌==◌,
}
use sawang.Define.{service_service_key, service_payload_key, service_rid_key}
use sawang.RespondTable.{
  RespondTables, RespondTableType, singleshot, multirespond, respond_table_drop,
  respond_table_request_dup, respond_table_dup_task_key,
}
use sawang.ReplyQueue.{reply_queue_append}
use sawang.Proxy.{Env, Proxy, ProxyReplyArg, cleared, Callbacks, item_at, string_at}

-- remaining < 1, where it has been written
abbrev pub leaves_none : Option ℕ → Bool
leaves_none none = false
leaves_none (some n) = ltb n 1

module _ (e : Env) where
  open e.json use {
    Json, parse, print_unformatted, create_object, create_array, create_string, create_number,
    add_item_to_object, add_item_to_array, duplicate, get_array_size, get_array_item,
  }
  open e.glib use {PtrArray, ptr_array_len, ptr_array_index}

  unfoldable pub proxy_comm_create_reply_arg : CString → Option (ProxyReplyArg e)
  proxy_comm_create_reply_arg task_key =
      let j = parse task_key in
      let payload = item_at e.json j service_payload_key in
      elim (string_at e.json (item_at e.json j service_service_key)) [
        | none ↦ none
        | some service ↦ some (record {
          service = service;
          payload = elim payload [ none ↦ none | some item ↦ some (duplicate item) ];
        })
      ]

  -- the object of a service and its payload
  unfoldable pub service_json : CString → Option Json → Json
  service_json service none =
      add_item_to_object create_object service_service_key (create_string service)
  service_json service (some payload) =
      add_item_to_object
        (add_item_to_object create_object service_service_key (create_string service))
        service_payload_key (duplicate payload)

  unfoldable pub task_key_from_reply_arg : ProxyReplyArg e → CString
  unfolding service_json
  task_key_from_reply_arg arg = print_unformatted (service_json arg.service arg.payload)

  -- the loop of `proxy_comm_reply` over the requests of an array: from index `i`, `n` rounds
  unfoldable pub reply_rids :
      RespondTableType
      → CString
      → PtrArray
      → ℕ
      → ℕ
      → RespondTables e.glib × Json
      → RespondTables e.glib × Json
  reply_rids which task_key arr zero i (tables, rid) = (tables, rid)
  reply_rids which task_key arr (suc n) i (tables, rid) =
      let request_uuid = ptr_array_index arr i in
      reply_rids which task_key arr n (i + 1) (
        elim which [
          | singleshot ↦ (respond_table_drop e.glib tables singleshot task_key request_uuid).0
          | _ ↦ tables
        ],
        add_item_to_array rid (create_string request_uuid),
      )

  -- the table in which a task waits, the single responses first, and a copy of its requests
  unfoldable pub reply_source : RespondTables e.glib → CString → RespondTableType × Option PtrArray
  reply_source tables task_key =
      elim (respond_table_request_dup e.glib tables singleshot task_key) [
        | none ↦ (multirespond, respond_table_request_dup e.glib tables multirespond task_key)
        | some arr ↦ (singleshot, some arr)
      ]

  -- the `rid` of a reply: an array for many requests, a string for one, null for none
  unfoldable pub reply_rid :
      RespondTableType
      → CString
      → PtrArray
      → RespondTables e.glib
      → RespondTables e.glib × Option Json
  reply_rid which task_key arr tables =
      if ltb 1 (ptr_array_len arr)
      then (let (tables', rid) =
            reply_rids which task_key arr (ptr_array_len arr) 0 (tables, create_array) in
          (tables', some rid))
      else if ptr_array_len arr == 1
      then (tables, some (create_string (ptr_array_index arr 0)))
      else (tables, none)

  abbrev pub is_multirespond : RespondTableType → Bool
  is_multirespond multirespond = true
  is_multirespond _ = false

  unfoldable pub send_reply :
      Proxy e → RespondTableType → Option Json → Json → Option Json → Proxy e
  send_reply s which none headers payload = s
  send_reply s which (some rid) headers payload = record s {
    reply_queue =
        reply_queue_append e.reply e.json s.reply_queue rid headers payload (is_multirespond which);
    subscribe_signals = s.subscribe_signals + 1;
  }

  unfoldable pub proxy_comm_reply : Proxy e → ProxyReplyArg e → Json → Option Json → Proxy e
  unfolding reply_source reply_rid send_reply
  proxy_comm_reply s arg headers payload =
      let task_key = task_key_from_reply_arg arg in
      let (which, request_uuid_arr) = reply_source s.tables task_key in
      elim request_uuid_arr [
        | none ↦ s
        | some arr ↦
            let (tables, rid) = reply_rid which task_key arr s.tables in
            send_reply (record s { tables = tables }) which rid headers payload
      ]

  -- drops a request of a multirespond task, and calls the callback once the task has none left
  unfoldable pub drop_and_clear :
      Callbacks e → Proxy e → CString → CString → Option (ProxyReplyArg e) → Option (Proxy e)
  drop_and_clear cb s task_key request_uuid reply_arg =
      let (tables, dropped, remaining) =
        respond_table_drop e.glib s.tables multirespond task_key request_uuid in
      let t = record s { tables = tables } in
      let last = leaves_none remaining in
      if dropped && (last && cb.has_multirespond_clear)
      then elim reply_arg [
        | none ↦ none
        | some arg ↦ some (record t { called = s.called ++ (cleared arg ∷ []) })
      ]
      else some t

  -- the loop of `proxy_comm_drop_multirespond_request`: from index `i`, `n` rounds
  unfoldable pub drop_items : Callbacks e → Option Json → ℕ → ℕ → Proxy e → Option (Proxy e)
  unfolding drop_and_clear
  drop_items cb arr zero i s = some s
  drop_items cb arr (suc n) i s =
      let item : Option Json = elim arr [ none ↦ none | some a ↦ get_array_item a i ] in
      let next : Option (Proxy e) = elim (string_at e.json item) [
        | none ↦ some s
        | some request_uuid ↦
            elim (respond_table_dup_task_key e.glib s.tables multirespond request_uuid) [
              | none ↦ some s
              | some task_key ↦
                  drop_and_clear cb s task_key request_uuid (proxy_comm_create_reply_arg task_key)
            ]
      ] in
      elim next [ none ↦ none | some t ↦ drop_items cb arr n (i + 1) t ]

  unfoldable pub proxy_comm_drop_multirespond_request :
      Callbacks e → Proxy e → Option Json → Option (Proxy e)
  unfolding drop_items
  proxy_comm_drop_multirespond_request cb s payload =
      let arr = item_at e.json payload service_rid_key in
      drop_items cb arr (elim arr [ none ↦ 0 | some a ↦ get_array_size a ]) 0 s
