-- ===== src/ProxyComm/Outcome.antt =====
-- gear/proxycomm.c: the effect of an answer, and the task key of a service.
use sawang.Prelude.{
  ◌+◌, ◌≡◌, refl, ◌∙◌, ap, Bool, ◌&&◌, not, Option, none, some, List, [], ◌∷◌, CString,
  if◌then◌else◌, is_some, str_eq, arith, length, ltb,
}
use sawang.RespondTable.{RespondTableType, singleshot, multirespond}
use sawang.RespondTable.Valid.{is_cons}
use sawang.RespondTable.Contract.{rids, same_table}
use sawang.RespondTable.Invariant.{TablesAreValid}
use sawang.Define.{service_service_key, service_payload_key}
use sawang.CJson.{same_key}
use sawang.ReplyQueue.{reply_queue_append}
use sawang.Proxy.{Env, Proxy, ProxyReplyArg}
use sawang.ProxyComm.{
  task_key_from_reply_arg, proxy_comm_reply, proxy_comm_create_reply_arg, send_reply, service_json,
  is_multirespond,
}
use sawang.ProxyComm.Rids.{drop_all, rids-drop_all}
use sawang.ProxyComm.Reply.{rid_json, answered, reply-state}

module _ (e : Env) where
  open e.json use {Json, create_string}

  -- The reply queue once an answer for some requests is appended; none is for no requests.
  abbrev pub queue_with :
      Option e.reply.Queue → Option Json → Json → Option Json → Bool → Option e.reply.Queue
  queue_with r none headers payload multi = r
  queue_with r (some rid) headers payload multi =
      reply_queue_append e.reply e.json r rid headers payload multi

  pub send_reply-fields :
      (s : Proxy e) (w : RespondTableType) (rid : Option Json) (headers : Json)
      (payload : Option Json)
      → let t = send_reply e s w rid headers payload in
        (t.reply_queue ≡ queue_with s.reply_queue rid headers payload (is_multirespond e w))
        × (t.subscribe_signals
            ≡ (if is_some rid then s.subscribe_signals + 1 else s.subscribe_signals))
        × (t.tables ≡ s.tables)
        × (t.parse_queue ≡ s.parse_queue)
        × (t.called ≡ s.called)
  unfolding send_reply
  send_reply-fields s w none headers payload = ground arith
  send_reply-fields s w (some rid) headers payload = ground arith

  is_some-rid_json : (us : List CString) → is_some (rid_json e us) ≡ is_cons us
  is_some-rid_json [] = refl
  is_some-rid_json (u ∷ []) = refl
  is_some-rid_json (u ∷ v ∷ us) = refl

  -- In tables that satisfy the invariant, `proxy_comm_reply` answers the single-response requests of
  -- the task of its argument if there are any, and its multirespond requests otherwise, marked as
  -- such. It appends one answer, for all of these requests, and signals the subscribe thread once; if
  -- there are none it does neither. It takes all the requests of the task off the table of single
  -- responses if they are more than one, and changes the requests of no other task and of no other
  -- table; with one request or none it takes off nothing. It adds no task and calls no callback.
  pub reply-outcome :
      (s : Proxy e) (arg : ProxyReplyArg e) (headers : Json) (payload : Option Json)
      → TablesAreValid e.glib s.tables
      → let k = task_key_from_reply_arg e arg in
        let us = rids e.glib s.tables singleshot k in
        let to = answered e s.tables k in
        let t = proxy_comm_reply e s arg headers payload in
        (t.reply_queue
          ≡ queue_with s.reply_queue (rid_json e to) headers payload (not (is_cons us)))
        × (t.subscribe_signals
            ≡ (if is_cons to then s.subscribe_signals + 1 else s.subscribe_signals))
        × ((w : RespondTableType) (j : CString)
            → rids e.glib t.tables w j ≡ (
                if ltb 1 (length us) && (same_table singleshot w && str_eq k j)
                then []
                else rids e.glib s.tables w j))
        × (t.parse_queue ≡ s.parse_queue)
        × (t.called ≡ s.called)
  reply-outcome s arg headers payload v =
      let k = task_key_from_reply_arg e arg in
      let us = rids e.glib s.tables singleshot k in
      let to = answered e s.tables k in
      let tables = if ltb 1 (length us) then drop_all e s.tables k us else s.tables in
      let which : RespondTableType = if is_cons us then singleshot else multirespond in
      let (queue, signals, kept, tasks, called) =
        send_reply-fields (record s { tables = tables }) which (rid_json e to) headers payload in
      rw (reply-state e s arg headers payload v) (
        queue ∙ ap (queue_with s.reply_queue (rid_json e to) headers payload) (ground arith),
        signals ∙ ground (arith, is_some-rid_json to),
        λ w j. rw kept (ground (arith, rids-drop_all e us s.tables k refl w j)),
        tasks,
        called,
      )

  -- the object of a service before its payload
  abbrev service_only : CString → Json
  service_only service =
      e.json.add_item_to_object e.json.create_object service_service_key (create_string service)

  service_only-item :
      (service key : CString)
      → e.json.get_object_item (service_only service) key
        ≡ (if same_key service_service_key key then some (create_string service) else none)
  service_only-item service key = ground (
    arith,
    e.json.item-add e.json.create_object service_service_key (create_string service) key
        e.json.is_object-create,
    e.json.item-create key,
  )

  with_payload-item :
      (service : CString) (p : Json) (key : CString)
      → e.json.get_object_item
          (e.json.add_item_to_object (service_only service) service_payload_key p)
          key
        ≡ (if same_key service_service_key key
            then some (create_string service)
            else (if same_key service_payload_key key then some p else none))
  with_payload-item service p key = ground (
    arith,
    e.json.item-add (service_only service) service_payload_key p key (
        e.json.is_object-add e.json.create_object service_service_key (create_string service)
          e.json.is_object-create),
    service_only-item service key,
  )

  -- the two items of a service's object
  pub service_json-items :
      (service : CString) (payload : Option Json)
      → (e.json.get_object_item (service_json e service payload) service_service_key
          ≡ some (create_string service))
        × (e.json.get_object_item (service_json e service payload) service_payload_key ≡ payload)
  unfolding service_json same_key
  service_json-items service none =
      (service_only-item service service_service_key, service_only-item service service_payload_key)
  service_json-items service (some p) =
      rw (e.json.duplicate-id p, service_json)
        (
          with_payload-item service p service_service_key,
          with_payload-item service p service_payload_key,
        )

  pub create_reply_arg-service_json :
      (service : CString) (payload : Option Json)
      → proxy_comm_create_reply_arg e (e.json.print_unformatted (service_json e service payload))
        ≡ some (record { service = service; payload = payload })
  unfolding proxy_comm_create_reply_arg
  create_reply_arg-service_json service none =
      let (item, no_payload) = service_json-items service none in
      ground (
        arith,
        e.json.parse-print (service_json e service none),
        item,
        no_payload,
        e.json.string_value-create service,
      )
  create_reply_arg-service_json service (some p) =
      let (item, a_payload) = service_json-items service (some p) in
      ground (
        arith,
        e.json.parse-print (service_json e service (some p)),
        item,
        a_payload,
        e.json.string_value-create service,
        e.json.duplicate-id p,
      )

  -- A task key that `task_key_from_reply_arg` makes of a reply argument gives that argument back to
  -- `proxy_comm_create_reply_arg`, whatever its service and with a payload or without one.
  pub create_reply_arg-task_key :
      (arg : ProxyReplyArg e)
      → proxy_comm_create_reply_arg e (task_key_from_reply_arg e arg) ≡ some arg
  unfolding task_key_from_reply_arg
  create_reply_arg-task_key arg = create_reply_arg-service_json arg.service arg.payload
