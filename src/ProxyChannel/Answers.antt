-- ===== src/ProxyChannel/Answers.antt =====
-- gear/proxychannel.c with gear/proxycomm.c: from a request to its answer.
use sawang.Prelude.{
  ◌⊎◌, ◌+◌, ◌≡◌, refl, sym, ◌∙◌, ap, subst, Bool, true, false, Option, some, List, [], ◌∷◌, CString,
  if◌then◌else◌, is_some, str_eq_refl, arith, contains, contains-append, Bool-cases, Option-cases,
  inl, inr,
}
use sawang.ProxyChannel.{
  proxy_channel_create_unsubscribe_task_key, Exchange, fresh, exchange_finish, exchange_task_key,
  exchange_subscribe, exchange_unsubscribe, norm_service_and_payload, is_parsed_multirespond,
  is_invalid, reject,
}
use sawang.RespondTable.Valid.{is_cons}
use sawang.Shm.{ProxyChannelState, ProxyChannelShm}
use sawang.RespondTable.{RespondTableType, singleshot, multirespond}
use sawang.RespondTable.Rids.{add_new}
use sawang.RespondTable.Contract.{rids}
use sawang.RespondTable.Invariant.{TablesAreValid, set-TablesAreValid}
use sawang.Proxy.{Env, Proxy, ProxyReplyArg}
use sawang.ProxyComm.{proxy_comm_create_reply_arg, proxy_comm_reply, task_key_from_reply_arg}
use sawang.ProxyComm.Reply.{rid_json}
use sawang.ProxyComm.Outcome.{reply-outcome, queue_with, create_reply_arg-task_key}
use sawang.ProxyChannel.Accept.{IsCreated, finish-subscribe}

contains-add_new : (us : List CString) (u : CString) → contains (add_new us u) u ≡ true
unfolding add_new contains
contains-add_new us u = elim (Bool-cases (contains us u)) [
  | inl h ↦ rw (h, add_new) h
  | inr h ↦ rw (h, add_new) (ground (arith, contains-append us (u ∷ []) u, str_eq_refl u))
]

if-either {ℓ κ} :
    {A : Type ℓ} (P : A → Type κ) (b : Bool) {x y : A} → P x → P y → P (if b then x else y)
if-either P true h k = h
if-either P false h k = k

module _ (e : Env) where
  open e.json use {Json}

  unsubscribe-TablesAreValid :
      (s : Proxy e) (x : Exchange e) (rid : CString)
      → TablesAreValid e.glib s.tables
      → TablesAreValid e.glib (exchange_unsubscribe e s x rid).tables
  unfolding exchange_unsubscribe reject
  unsubscribe-TablesAreValid s x rid v =
      elim (Option-cases (proxy_channel_create_unsubscribe_task_key e s x.payload).1) [
        | inl n ↦ rw (n, exchange_unsubscribe) v
        | inr ((asked, task), f) ↦
            rw (f, exchange_unsubscribe) (set-TablesAreValid e.glib s.tables singleshot _ rid v)
      ]

  subscribe-TablesAreValid :
      (s : Proxy e) (x : Exchange e) (rid : CString)
      → TablesAreValid e.glib s.tables
      → TablesAreValid e.glib (exchange_subscribe e s x rid).tables
  unfolding exchange_subscribe
  subscribe-TablesAreValid s x rid v =
      let which : RespondTableType =
        if is_parsed_multirespond x.parsed.result then multirespond else singleshot in
      let valid = set-TablesAreValid e.glib s.tables which (exchange_task_key e x) rid v in
      if-either (λ (t : Proxy e). TablesAreValid e.glib t.tables) _ valid valid

  finish-tables :
      (s : Proxy e) (x : Exchange e) (shm : ProxyChannelShm)
      → let t = (exchange_finish e s x shm).0.tables in
        (t ≡ s.tables)
        ⊎ ((t ≡ (exchange_unsubscribe e s x shm.rid).tables)
            ⊎ (t ≡ (exchange_subscribe e s x shm.rid).tables))
  unfolding exchange_finish reject
  finish-tables s x shm = ground arith

  -- The end of an exchange keeps the invariant of the tables, on each of its branches.
  pub finish-TablesAreValid :
      (s : Proxy e) (x : Exchange e) (shm : ProxyChannelShm)
      → TablesAreValid e.glib s.tables
      → TablesAreValid e.glib (exchange_finish e s x shm).0.tables
  finish-TablesAreValid s x shm v =
      let valid = TablesAreValid e.glib in
      elim (finish-tables s x shm) [
        | inl same ↦ subst valid (sym same) v
        | inr (inl u) ↦ subst valid (sym u) (unsubscribe-TablesAreValid s x shm.rid v)
        | inr (inr u) ↦ subst valid (sym u) (subscribe-TablesAreValid s x shm.rid v)
      ]

  key-fresh :
      (x : Exchange e) (sp p j : Json)
      → x.service_and_payload ≡ some sp
      → x.payload ≡ some p
      → x.parsed.normalized_payload ≡ fresh j
      → exchange_task_key e x
        ≡ task_key_from_reply_arg e (record { service = x.service_name; payload = some j })
  unfolding exchange_task_key norm_service_and_payload task_key_from_reply_arg
  key-fresh x sp p j has has_p n = rw (has, has_p, n, exchange_task_key, norm_service_and_payload)

  is_cons-contains : (us : List CString) (u : CString) → contains us u ≡ true → is_cons us ≡ true
  unfolding contains
  is_cons-contains [] u h = h
  is_cons-contains (v ∷ us) u h = refl

  -- the reply to a task in which a single-response request waits
  reply-single :
      (t : Proxy e) (arg : ProxyReplyArg e) (headers : Json) (payload : Option Json)
      (rid k : CString)
      → TablesAreValid e.glib t.tables
      → k ≡ task_key_from_reply_arg e arg
      → contains (rids e.glib t.tables singleshot k) rid ≡ true
      → let u = proxy_comm_reply e t arg headers payload in
        (u.reply_queue
          ≡ queue_with e t.reply_queue
              (rid_json e (rids e.glib t.tables singleshot k))
              headers
              payload
              false)
        × (u.subscribe_signals ≡ t.subscribe_signals + 1)
  reply-single t arg headers payload rid k v key h =
      let (queue, signals, kept, tasks, called) = reply-outcome e t arg headers payload v in
      let some_rid : is_cons (rids e.glib t.tables singleshot (task_key_from_reply_arg e arg))
          ≡ true =
        ap (λ j. is_cons (rids e.glib t.tables singleshot j)) (sym key)
        ∙ is_cons-contains (rids e.glib t.tables singleshot k) rid h in
      (rw (some_rid, ← key) at queue, signals ∙ ground (arith, some_rid))

  -- A single-response request for a normalised payload is answered: once Gonggo has finished its
  -- exchange, its task key names the service with that payload, and the next reply to them appends
  -- one answer to the reply queue, whose requests are among those of single responses and include
  -- this one, and signals the subscribe thread.
  pub finish-reply :
      (s : Proxy e) (x : Exchange e) (shm : ProxyChannelShm) (sp p j : Json) (headers : Json)
      (payload : Option Json)
      → IsCreated e s
      → TablesAreValid e.glib s.tables
      → x.service_and_payload ≡ some sp
      → x.payload ≡ some p
      → x.parsed.normalized_payload ≡ fresh j
      → shm.state ≡ ProxyChannelState.done
      → is_invalid x.parsed.result ≡ false
      → is_parsed_multirespond x.parsed.result ≡ false
      → x.parsed.unsubscribe ≡ false
      → let arg : ProxyReplyArg e = record { service = x.service_name; payload = some j } in
        let t = (exchange_finish e s x shm).0 in
        let u = proxy_comm_reply e t arg headers payload in
        let to = rids e.glib t.tables singleshot (exchange_task_key e x) in
        (proxy_comm_create_reply_arg e (exchange_task_key e x) ≡ some arg)
        × (contains to shm.rid ≡ true)
        × (u.reply_queue ≡ queue_with e t.reply_queue (rid_json e to) headers payload false)
        × (u.subscribe_signals ≡ t.subscribe_signals + 1)
  finish-reply s x shm sp p j headers payload c v has has_p n ended valid single kept =
      let arg : ProxyReplyArg e = record { service = x.service_name; payload = some j } in
      let t = (exchange_finish e s x shm).0 in
      let key = key-fresh x sp p j has has_p n in
      let k = exchange_task_key e x in
      let (set, tasks, signals, replies, alive) =
        finish-subscribe e s x shm c (ap is_some has) ended valid kept in
      let there : contains (rids e.glib t.tables singleshot k) shm.rid ≡ true =
        ap (λ us. contains us shm.rid) (set singleshot k)
        ∙ ground (
          arith,
          single,
          str_eq_refl k,
          contains-add_new (rids e.glib s.tables singleshot k) shm.rid,
        ) in
      let (queue, woken) =
        reply-single t arg headers payload shm.rid k (finish-TablesAreValid s x shm v) key there in
      (
        ap (proxy_comm_create_reply_arg e) key ∙ create_reply_arg-task_key e arg,
        there,
        queue,
        woken,
      )
