-- ===== src/ProxyChannel.antt =====
-- gear/proxychannel.c: the channel thread, which takes the requests of Gonggo. Here: the exchange of
-- one request, up to its wait for Gonggo and after it.
pub mod Context
pub mod Owned
pub mod Rest
pub mod Loop
pub mod Handled
pub mod Answers
pub mod Wakes
pub mod Stops
pub mod Drop
pub mod Accept
use sawang.Prelude.{
  ℕ, ◌+◌, Bool, true, false, ◌&&◌, ◌||◌, not, Option, none, some, [], CString, if◌then◌else◌,
  is_some, str_eq, length, ltb,
}
use sawang.Define.{
  service_service_key, service_payload_key, service_rid_key, gonggoservice_request_drop,
  ProxyServiceStatus, status_code, multirespond_clear_success, multirespond_clear_payload_missing,
  multirespond_clear_payload_rid_missing, multirespond_clear_payload_rid_invalid,
}
use sawang.Shm.{
  ProxyChannelState, ProxyChannelShm, ProxyPayloadParseResult, invalid, parsed_singleshot,
  parsed_multirespond,
}
use sawang.RespondTable.{
  RespondTableType, singleshot, multirespond, respond_table_set, respond_table_dup_task_key,
}
use sawang.ReplyQueue.{reply_queue_append_invalid_status}
use sawang.ParseQueue.{parse_queue_append}
use sawang.Proxy.{Env, Proxy, string_at}
use sawang.ProxyComm.{service_json}

-- state == CHANNEL_DONE, and so on
abbrev pub is_done : ProxyChannelState → Bool
is_done ProxyChannelState.done = true
is_done _ = false

abbrev pub is_termination : ProxyChannelState → Bool
is_termination ProxyChannelState.termination = true
is_termination _ = false

abbrev pub is_invalid : ProxyPayloadParseResult → Bool
is_invalid invalid = true
is_invalid _ = false

abbrev pub is_parsed_multirespond : ProxyPayloadParseResult → Bool
is_parsed_multirespond parsed_multirespond = true
is_parsed_multirespond _ = false

module _ (e : Env) where
  open e.json use {Json, parse, print_unformatted}

  -- the pointer `normalized_payload`: null, the payload itself, or an object of its own
  pub data Normalized : Type 0 where
    null same : Normalized
    fresh : Json → Normalized

  -- what ProxyPayloadParse returns and writes
  pub record Parsed : Type 0 where
    pub result : ProxyPayloadParseResult
    pub normalized_payload : Normalized
    pub unsubscribe : Bool
    pub invalid_status : ℕ

  -- the parts that the thread calls: ProxyPayloadParse, and the text in the shared memory of a
  -- request with a length, if that memory can be opened and mapped
  pub record ChannelCalls : Type 0 where
    pub payload_parse : CString → Option Json → Parsed
    pub payload_shm : CString → ℕ → Option CString

  -- the local variables of `proxy_channel_exchange` at its wait
  pub record Exchange : Type 0 where
    pub service_and_payload : Option Json
    pub service_name : CString
    pub payload : Option Json
    pub parsed : Parsed

  unfoldable pub proxy_channel_payload_shm_read : ChannelCalls → CString → ℕ → Option Json
  proxy_channel_payload_shm_read calls rid buff_length = elim (calls.payload_shm rid buff_length) [
    | none ↦ none
    | some map ↦ parse map
  ]

  -- the parse of a service: an unsubscription by its name, or the callback's answer
  unfoldable pub parse_service : ChannelCalls → CString → Option Json → Parsed
  parse_service calls service_name payload =
      if str_eq service_name gonggoservice_request_drop
      then record {
        result = parsed_singleshot;
        normalized_payload = elim payload [ none ↦ null | some _ ↦ same ];
        unsubscribe = true;
        invalid_status = 0;
      }
      else calls.payload_parse service_name payload

  -- the name of a request's service; `none` is a null name, with which strcmp is called
  unfoldable pub service_name_of : Option Json → Option CString
  service_name_of none = some []
  service_name_of (some item) = e.json.get_string_value item

  -- up to the wait: the shared memory, and the local variables
  unfoldable pub exchange_read :
      ChannelCalls → ProxyChannelShm → Option (ProxyChannelShm × Exchange)
  unfolding proxy_channel_payload_shm_read parse_service service_name_of
  exchange_read calls shm =
      elim (proxy_channel_payload_shm_read calls shm.rid shm.payload_buff_length) [
        | none ↦ some (
          record shm { state = ProxyChannelState.fails },
          record {
            service_and_payload = none;
            service_name = [];
            payload = none;
            parsed = record {
              result = invalid;
              normalized_payload = null;
              unsubscribe = false;
              invalid_status = 0;
            };
          },
        )
        | some sp ↦
            let payload = e.json.get_object_item sp service_payload_key in
            elim (service_name_of (e.json.get_object_item sp service_service_key)) [
              | none ↦ none
              | some service_name ↦ some (
                record shm { state = ProxyChannelState.acknowledged },
                record {
                  service_and_payload = some sp;
                  service_name = service_name;
                  payload = payload;
                  parsed = parse_service calls service_name payload;
                },
              )
            ]
      ]

  -- the status, and on success the request to drop and the key of its task
  unfoldable pub proxy_channel_create_unsubscribe_task_key :
      Proxy e → Option Json → ProxyServiceStatus × Option (CString × CString)
  proxy_channel_create_unsubscribe_task_key s none = (multirespond_clear_payload_missing, none)
  proxy_channel_create_unsubscribe_task_key s (some payload) =
      let rid : CString = elim (string_at e.json (e.json.get_object_item payload service_rid_key)) [
        | none ↦ []
        | some rid ↦ rid
      ] in
      if ltb (length rid) 1
      then (multirespond_clear_payload_rid_missing, none)
      else elim (respond_table_dup_task_key e.glib s.tables multirespond rid) [
        | none ↦ (multirespond_clear_payload_rid_invalid, none)
        | some task_key ↦ (multirespond_clear_success, some (rid, task_key))
      ]

  -- a reply of a status, and a signal to the subscribe thread
  unfoldable pub reject : Proxy e → CString → ℕ → Proxy e
  reject s rid status = record s {
    reply_queue = reply_queue_append_invalid_status e.reply e.json s.reply_queue rid status;
    subscribe_signals = s.subscribe_signals + 1;
  }

  unfoldable pub exchange_unsubscribe : Proxy e → Exchange → CString → Proxy e
  unfolding proxy_channel_create_unsubscribe_task_key reject
  exchange_unsubscribe s x rid =
      let (status, found) = proxy_channel_create_unsubscribe_task_key s x.payload in
      elim found [
        | none ↦ reject s rid (status_code status)
        | some (request_uuid, unsubscribe_task_key) ↦
            let task_key : CString = elim x.service_and_payload [
              | none ↦ []
              | some sp ↦ print_unformatted sp
            ] in
            record s {
              parse_queue =
                  parse_queue_append e.parse s.parse_queue task_key (some unsubscribe_task_key)
                    (some request_uuid) singleshot;
              tables = (respond_table_set e.glib s.tables singleshot task_key rid).0;
              comm_signals = s.comm_signals + 1;
            }
      ]

  -- the object that becomes the task key
  unfoldable pub norm_service_and_payload : Json → CString → Option Json → Normalized → Json
  norm_service_and_payload sp service_name none normalized = sp
  norm_service_and_payload sp service_name (some payload) same = sp
  norm_service_and_payload sp service_name (some payload) null = service_json e service_name none
  norm_service_and_payload sp service_name (some payload) (fresh j) =
      service_json e service_name (some j)

  unfoldable pub exchange_task_key : Exchange → CString
  unfolding norm_service_and_payload
  exchange_task_key x = elim x.service_and_payload [
    | none ↦ []
    | some sp ↦
        print_unformatted
          (norm_service_and_payload sp x.service_name x.payload x.parsed.normalized_payload)
  ]

  unfoldable pub exchange_subscribe : Proxy e → Exchange → CString → Proxy e
  unfolding exchange_task_key
  exchange_subscribe s x rid =
      let task_key = exchange_task_key x in
      let multi = is_parsed_multirespond x.parsed.result in
      let which : RespondTableType = if multi then multirespond else singleshot in
      let (tables, new_entry) = respond_table_set e.glib s.tables which task_key rid in
      let new_job = not multi || new_entry in
      if new_job
      then record s {
        tables = tables;
        parse_queue = parse_queue_append e.parse s.parse_queue task_key none none which;
        comm_signals = s.comm_signals + 1;
      }
      else record s { tables = tables }

  -- after a wait that is not for a dead owner, with what Gonggo left in the shared memory: the
  -- state, and whether the thread goes on
  unfoldable pub exchange_finish : Proxy e → Exchange → ProxyChannelShm → Proxy e × Bool
  unfolding reject exchange_unsubscribe exchange_subscribe
  exchange_finish s x shm =
      if is_termination shm.state
      then (s, false)
      else if is_some x.service_and_payload && is_done shm.state
      then (if is_invalid x.parsed.result
          then (reject s shm.rid x.parsed.invalid_status, true)
          else if x.parsed.unsubscribe
          then (exchange_unsubscribe s x shm.rid, true)
          else (exchange_subscribe s x shm.rid, true))
      else (s, true)
