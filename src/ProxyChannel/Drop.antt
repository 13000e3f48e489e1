-- ===== src/ProxyChannel/Drop.antt =====
-- gear/proxychannel.c: what becomes of an unsubscription.
use sawang.Prelude.{
  ◌≡◌, refl, ◌∙◌, ap, true, false, Option, none, some, [], ◌∷◌, ◌++◌, CString, is_some, arith,
  contains, Option-cases, inl, inr,
}
use sawang.Define.{
  multirespond_clear_success, ProxyServiceStatus, service_rid_key, status_code,
  multirespond_clear_payload_missing, multirespond_clear_payload_rid_missing,
  multirespond_clear_payload_rid_invalid,
}
use sawang.ParseQueue.{parse_queue_append, parse_task, non_empty}
use sawang.Shm.{ProxyChannelState, ProxyChannelShm}
use sawang.RespondTable.{singleshot, multirespond, respond_table_dup_task_key, respond_table_set}
use sawang.RespondTable.Contract.{rids}
use sawang.RespondTable.Reads.{dup_task_key-TaskOf, TaskOf}
use sawang.Proxy.{Env, Proxy, item_at, string_at}
use sawang.ProxyChannel.{
  Exchange, exchange_finish, exchange_unsubscribe, reject, is_invalid,
  proxy_channel_create_unsubscribe_task_key,
}
use sawang.ProxyComm.Queue.{parse_tasks}
use sawang.ProxyChannel.Accept.{IsCreated}

module _ (e : Env) where
  open e.json use {Json, print_unformatted}

  -- the request that a payload names under `rid`, if it is a string that is not empty
  abbrev pub asked_rid : Option Json → Option CString
  asked_rid payload = non_empty (string_at e.json (item_at e.json payload service_rid_key))

  -- What an unsubscription by the request `rid` makes of a state `s`: a rejection with one of three
  -- statuses, or a task for the communication thread.
  pub data Unsubscribed (s : Proxy e) (payload : Option Json) (key rid : CString) (t : Proxy e)
      : Type 0 where
    no_payload :
        payload ≡ none
        → t ≡ reject e s rid (status_code multirespond_clear_payload_missing)
        → Unsubscribed s payload key rid t
    no_rid :
        is_some payload ≡ true
        → asked_rid payload ≡ none
        → t ≡ reject e s rid (status_code multirespond_clear_payload_rid_missing)
        → Unsubscribed s payload key rid t
    unknown_rid :
        (asked : CString)
        → asked_rid payload ≡ some asked
        → ((k : CString) → contains (rids e.glib s.tables multirespond k) asked ≡ false)
        → t ≡ reject e s rid (status_code multirespond_clear_payload_rid_invalid)
        → Unsubscribed s payload key rid t
    handed_over :
        (asked task : CString)
        → asked_rid payload ≡ some asked
        → contains (rids e.glib s.tables multirespond task) asked ≡ true
        → parse_tasks e t.parse_queue
          ≡ parse_tasks e s.parse_queue ++ (parse_task key (some task) (some asked) singleshot ∷ [])
        → t.tables ≡ (respond_table_set e.glib s.tables singleshot key rid).0
        → t.reply_queue ≡ s.reply_queue
        → Unsubscribed s payload key rid t

  -- what a search for the task of a request comes to
  abbrev answer_of : CString → Option CString → ProxyServiceStatus × Option (CString × CString)
  answer_of asked none = (multirespond_clear_payload_rid_invalid, none)
  answer_of asked (some task) = (multirespond_clear_success, some (asked, task))

  create_key-asked :
      (s : Proxy e) (payload : Option Json) (asked : CString)
      → asked_rid payload ≡ some asked
      → proxy_channel_create_unsubscribe_task_key e s payload
        ≡ answer_of asked (respond_table_dup_task_key e.glib s.tables multirespond asked)
  unfolding proxy_channel_create_unsubscribe_task_key non_empty
  create_key-asked s none asked a = cc
  create_key-asked s (some p) asked a = ground arith

  create_key-missing :
      (s : Proxy e) (p : Json)
      → asked_rid (some p) ≡ none
      → proxy_channel_create_unsubscribe_task_key e s (some p)
        ≡ (multirespond_clear_payload_rid_missing, none)
  unfolding proxy_channel_create_unsubscribe_task_key non_empty
  create_key-missing s p a = ground arith

  pub asked-not_empty :
      (payload : Option Json) (asked : CString)
      → asked_rid payload ≡ some asked
      → non_empty (some asked) ≡ some asked
  unfolding non_empty
  asked-not_empty payload asked a = ground arith

  unsubscribe-asked :
      (s : Proxy e) (x : Exchange e) (rid : CString) (sp : Json) (asked : CString)
      → IsCreated e s
      → x.service_and_payload ≡ some sp
      → asked_rid x.payload ≡ some asked
      → (r : Option CString) → respond_table_dup_task_key e.glib s.tables multirespond asked ≡ r
      → TaskOf e.glib s.tables multirespond asked r
      → Unsubscribed s x.payload (print_unformatted sp) rid (exchange_unsubscribe e s x rid)
  unfolding exchange_unsubscribe parse_queue_append
  unsubscribe-asked s x rid sp asked c has a none f of =
      let answer = create_key-asked s x.payload asked a ∙ ap (answer_of asked) f in
      unknown_rid asked a of (ground (arith, answer))
  unsubscribe-asked s x rid sp asked c has a (some task) f of =
      let answer = create_key-asked s x.payload asked a ∙ ap (answer_of asked) f in
      handed_over asked task a of
        (elim (Option-cases s.parse_queue) [
          | inl h ↦ ground (arith, c.has_parse_queue)
          | inr (q, h) ↦ ground (
            arith,
            answer,
            e.parse.contents-push_tail q
                (parse_task (print_unformatted sp) (some task) (some asked) singleshot),
          )
        ])
        (ground (arith, answer)) (ground (arith, answer))

  unsubscribe-Unsubscribed :
      (s : Proxy e) (x : Exchange e) (rid : CString) (sp : Json) (payload : Option Json)
      → IsCreated e s
      → x.service_and_payload ≡ some sp
      → x.payload ≡ payload
      → Unsubscribed s x.payload (print_unformatted sp) rid (exchange_unsubscribe e s x rid)
  unfolding exchange_unsubscribe
  unsubscribe-Unsubscribed s x rid sp none c has p = no_payload p (
      let answer : proxy_channel_create_unsubscribe_task_key e s x.payload
          ≡ (multirespond_clear_payload_missing, none) =
        rw (p, proxy_channel_create_unsubscribe_task_key) in
      ground (arith, answer))
  unsubscribe-Unsubscribed s x rid sp (some j) c has p = elim (Option-cases (asked_rid (some j))) [
    | inl a ↦ no_rid (rw p) (rw p a) (ground (arith, create_key-missing s j a))
    | inr (asked, a) ↦
        unsubscribe-asked s x rid sp asked c has (rw p a)
          (respond_table_dup_task_key e.glib s.tables multirespond asked) refl
          (dup_task_key-TaskOf e.glib s.tables multirespond asked)
  ]

  -- When Gonggo has finished the exchange of an unsubscription, exactly this happens. Without a
  -- payload, without a `rid` in it that is a string and not empty, or with a `rid` that waits in no
  -- multirespond task, the request is answered by the status for that, with one signal to the
  -- subscribe thread, and nothing else changes. Otherwise a task for the communication thread is
  -- queued that names the `rid` and a multirespond task in which it waits, and the request waits for
  -- its single response under the text of its own object. The thread goes on in each case.
  pub finish-Unsubscribed :
      (s : Proxy e) (x : Exchange e) (shm : ProxyChannelShm) (sp : Json)
      → IsCreated e s
      → x.service_and_payload ≡ some sp
      → shm.state ≡ ProxyChannelState.done
      → is_invalid x.parsed.result ≡ false
      → x.parsed.unsubscribe ≡ true
      → let (t, alive) = exchange_finish e s x shm in
        Unsubscribed s x.payload (print_unformatted sp) shm.rid t × (alive ≡ true)
  unfolding exchange_finish
  finish-Unsubscribed s x shm sp c has is_done valid asks =
      let done : exchange_finish e s x shm ≡ (exchange_unsubscribe e s x shm.rid, true) =
        ground arith in
      rw done (unsubscribe-Unsubscribed s x shm.rid sp x.payload c has refl, refl)
