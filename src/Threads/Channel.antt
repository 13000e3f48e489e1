-- ===== src/Threads/Channel.antt =====
-- gear/proxychannel.c: what the channel thread calls when Gonggo has finished an exchange, one lock
-- after the other.
use sawang.Prelude.{
  ℕ, false, not, ◌&&◌, ◌||◌, Option, none, some, [], CString, length, ltb, if◌then◌else◌, is_some,
}
use sawang.Define.{
  multirespond_clear_payload_rid_invalid, multirespond_clear_payload_rid_missing, service_rid_key,
  service_status_key, multirespond_clear_payload_missing, status_code,
}
use sawang.Threads.Calls.{
  dups_task_key, awakes_comm, sets, over, awakes_subscribe, appends_task, appends_reply, Script,
}
use sawang.ProxyChannel.{
  is_invalid, is_done, is_termination, is_parsed_multirespond, exchange_task_key, Exchange,
}
use sawang.RespondTable.{multirespond, RespondTableType, singleshot}
use sawang.Proxy.{string_at, Env}
use sawang.Shm.{ProxyChannelShm}

module _ (e : Env) where
  open e.json use {
    Json, print_unformatted, create_object, create_string, create_number, add_item_to_object,
  }

  unfoldable pub reject_calls : CString → ℕ → Script e
  reject_calls rid status =
      appends_reply (create_string rid)
        (add_item_to_object create_object service_status_key (create_number status)) none false
        (awakes_subscribe over)

  -- an unsubscription, once its `rid` has been looked up: the task is queued before the request waits
  unfoldable pub hand_over_calls : Exchange e → CString → CString → CString → Script e
  hand_over_calls x rid request_uuid unsubscribe_task_key =
      let task_key : CString = elim x.service_and_payload [
        | none ↦ []
        | some sp ↦ print_unformatted sp
      ] in
      appends_task task_key (some unsubscribe_task_key) (some request_uuid) singleshot
        (sets singleshot task_key rid (λ _. awakes_comm over))

  unfoldable pub drop_calls : Exchange e → CString → Option Json → Script e
  unfolding hand_over_calls reject_calls status_code
  drop_calls x rid none = reject_calls rid (status_code multirespond_clear_payload_missing)
  drop_calls x rid (some payload) =
      let asked : CString =
        elim (string_at e.json (e.json.get_object_item payload service_rid_key)) [
          | none ↦ []
          | some rid ↦ rid
        ] in
      if ltb (length asked) 1
      then reject_calls rid (status_code multirespond_clear_payload_rid_missing)
      else dups_task_key multirespond asked (λ found. elim found [
        | none ↦ reject_calls rid (status_code multirespond_clear_payload_rid_invalid)
        | some task_key ↦ hand_over_calls x rid asked task_key
      ])

  unfoldable pub subscribe_calls : Exchange e → CString → Script e
  subscribe_calls x rid =
      let task_key = exchange_task_key e x in
      let multi = is_parsed_multirespond x.parsed.result in
      let which : RespondTableType = if multi then multirespond else singleshot in
      sets which task_key rid (λ new_entry.
        if not multi || new_entry
        then appends_task task_key none none which (awakes_comm over)
        else over)

  -- after the wait of `proxy_channel_exchange`, with what Gonggo left in the shared memory
  unfoldable pub exchange_calls : Exchange e → ProxyChannelShm → Script e
  unfolding reject_calls drop_calls subscribe_calls
  exchange_calls x shm =
      if is_termination shm.state
      then over
      else if is_some x.service_and_payload && is_done shm.state
      then (if is_invalid x.parsed.result
          then reject_calls shm.rid x.parsed.invalid_status
          else if x.parsed.unsubscribe
          then drop_calls x shm.rid x.payload
          else subscribe_calls x shm.rid)
      else over
