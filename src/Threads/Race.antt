-- ===== src/Threads/Race.antt =====
-- gear/proxychannel.c: an unsubscription whose task is taken before its request waits.
use sawang.Prelude.{
  str_eq_iff, contains, remove_first, ◌++◌, ◌+◌, ◌≡◌, refl, sym, ap, subst, ◌∙◌, not, ◌&&◌, Option,
  some, List, [], ◌∷◌, CString, if◌then◌else◌, arith, Bool-cases, inl, inr, str_eq,
}
use sawang.Threads.Calls.{over, awakes_comm, sets, advance, run}
use sawang.ProxyComm.Loop.{known_type, unsubscribes, clear_payload, clear_headers, comm_unsubscribe}
use sawang.ParseQueue.{non_empty, parse_task}
use sawang.Threads.Comm.{dispatch_calls, task_calls, unsubscribe_calls}
use sawang.ProxyChannel.{Exchange}
use sawang.Threads.Channel.{hand_over_calls}
use sawang.RespondTable.Valid.{is_cons}
use sawang.RespondTable.Contract.{set-rids, drop-rids, has_table, rids}
use sawang.ProxyComm.Reply.{rid_json, answered}
use sawang.ProxyComm.Outcome.{queue_with, create_reply_arg-task_key, reply-outcome}
use sawang.RespondTable.Rids.{add_new}
use sawang.RespondTable.{
  other, respond_table_set, singleshot, multirespond, respond_table_drop, RespondTableType,
  RespondTables,
}
use sawang.Threads.Alone.Tasks.{unsubscribe_calls-run}
use sawang.ProxyComm.{
  proxy_comm_reply, task_key_from_reply_arg, leaves_none, proxy_comm_create_reply_arg,
  drop_and_clear,
}
use sawang.RespondTable.Invariant.{drop-TablesAreValid, TablesAreValid}
use sawang.Proxy.{cleared, ProxyReplyArg, Proxy, Callbacks, Env}

none_answered :
    (us vs : List CString) → (if is_cons us then us else vs) ≡ [] → (us ≡ []) × (vs ≡ [])
none_answered [] vs h = (refl, h)
none_answered (u ∷ us) vs h = cc

module _ (e : Env) (cb : Callbacks e) where
  open e.json use {Json, print_unformatted}

  drop_and_clear-fields :
      (s : Proxy e) (key uuid : CString) (arg : ProxyReplyArg e)
      → (t : Proxy e) × (drop_and_clear e cb s key uuid (some arg) ≡ some t)
        × (t.tables ≡ (respond_table_drop e.glib s.tables multirespond key uuid).0)
        × (t.reply_queue ≡ s.reply_queue)
        × (t.subscribe_signals ≡ s.subscribe_signals)
        × (t.parse_queue ≡ s.parse_queue)
  unfolding drop_and_clear
  drop_and_clear-fields s key uuid arg =
      let d = respond_table_drop e.glib s.tables multirespond key uuid in
      elim (Bool-cases (d.1 && (leaves_none d.2 && cb.has_multirespond_clear))) [
        | inl b ↦ (
          record s { tables = d.0; called = s.called ++ (cleared arg ∷ []) },
          ground (arith, b),
          refl,
          refl,
          refl,
          refl,
        )
        | inr b ↦ (record s { tables = d.0 }, ground (arith, b), refl, refl, refl, refl)
      ]

  dropped-empty :
      (s : RespondTables e.glib) (task uuid key : CString) (w : RespondTableType)
      → rids e.glib s w key ≡ []
      → rids e.glib (respond_table_drop e.glib s multirespond task uuid).0 w key ≡ []
  unfolding remove_first
  dropped-empty s task uuid key singleshot h =
      (drop-rids e.glib s multirespond task uuid).0 singleshot key ∙ ground (arith, h)
  dropped-empty s task uuid key multirespond h = elim (Bool-cases (str_eq task key)) [
    | inl b ↦
        let waits = ap (rids e.glib s multirespond) ((str_eq_iff task key).0 b) ∙ h in
        let emptied = ap (λ us. remove_first us uuid) waits in
        (drop-rids e.glib s multirespond task uuid).0 multirespond key
        ∙ ground (arith, b, h, emptied)
    | inr b ↦ (drop-rids e.glib s multirespond task uuid).0 multirespond key ∙ ground (arith, b, h)
  ]
  dropped-empty s task uuid key (other n) h =
      (drop-rids e.glib s multirespond task uuid).0 (other n) key ∙ ground (arith, h)

  set-empty :
      (s : RespondTables e.glib) (key rid : CString)
      → rids e.glib s singleshot key ≡ []
      → rids e.glib (respond_table_set e.glib s singleshot key rid).0 singleshot key
        ≡ (if has_table e.glib s singleshot then rid ∷ [] else [])
  unfolding add_new contains
  set-empty s key rid h =
      (set-rids e.glib s singleshot key rid).0 singleshot key
      ∙ ground (arith, h, ap (λ us. add_new us rid) h, (str_eq_iff key key).1 refl)

  early-unanswered :
      (s : Proxy e) (arg from : ProxyReplyArg e) (task uuid : CString)
      → TablesAreValid e.glib s.tables
      → proxy_comm_create_reply_arg e task ≡ some from
      → rids e.glib s.tables singleshot (task_key_from_reply_arg e arg) ≡ []
      → rids e.glib s.tables multirespond (task_key_from_reply_arg e arg) ≡ []
      → let key = task_key_from_reply_arg e arg in
        (t : Proxy e) × (run e (unsubscribe_calls e cb key task uuid) s ≡ some t)
        × (t.reply_queue ≡ s.reply_queue)
        × (t.subscribe_signals ≡ s.subscribe_signals)
        × (t.parse_queue ≡ s.parse_queue)
        × (rids e.glib t.tables singleshot key ≡ [])
  unfolding comm_unsubscribe
  early-unanswered s arg from task uuid v made no_single no_multi =
      let key = task_key_from_reply_arg e arg in
      let (d, dropped, tables, queue, signals, tasks_kept) =
        drop_and_clear-fields s task uuid from in
      let single =
        ap (λ r. rids e.glib r singleshot key) tables
        ∙ dropped-empty s.tables task uuid key singleshot no_single in
      let multi =
        ap (λ r. rids e.glib r multirespond key) tables
        ∙ dropped-empty s.tables task uuid key multirespond no_multi in
      let valid : TablesAreValid e.glib d.tables =
        subst (TablesAreValid e.glib) (sym tables)
          (drop-TablesAreValid e.glib s.tables multirespond task uuid v) in
      let (sent, signalled, kept, tasks, called) =
        reply-outcome e d arg (clear_headers e cb) (some (clear_payload e cb uuid)) valid in
      let no_one : answered e d.tables key ≡ [] = ground (arith, single, multi) in
      let t = proxy_comm_reply e d arg (clear_headers e cb) (some (clear_payload e cb uuid)) in
      (
        t,
        unsubscribe_calls-run e cb key task uuid s
            ∙ ground (arith, made, dropped, create_reply_arg-task_key e arg),
        sent
            ∙ (ap
                  (λ us.
                    queue_with e d.reply_queue (rid_json e us) (clear_headers e cb)
                      (some (clear_payload e cb uuid))
                      (not (is_cons (rids e.glib d.tables singleshot key))))
                  no_one
                ∙ queue),
        signalled
            ∙ (ap (λ us. if is_cons us then d.subscribe_signals + 1 else d.subscribe_signals) no_one
                ∙ signals),
        tasks ∙ tasks_kept,
        kept singleshot key ∙ ground (arith, single),
      )

  task-unsubscribe :
      (key task uuid : CString)
      → non_empty (some task) ≡ some task
      → non_empty (some uuid) ≡ some uuid
      → task_calls e cb (parse_task key (some task) (some uuid) singleshot)
        ≡ unsubscribe_calls e cb key task uuid
  unfolding task_calls parse_task dispatch_calls unsubscribes known_type
  task-unsubscribe key task uuid n m = ground (arith, n, m)

  hand_over-rest :
      (x : Exchange e) (sp : Json) (rid uuid task key : CString) (s : Proxy e)
      → x.service_and_payload ≡ some sp
      → print_unformatted sp ≡ key
      → (advance e (hand_over_calls e x rid uuid task) s).1
        ≡ sets singleshot key rid (λ _. awakes_comm over)
  unfolding advance hand_over_calls
  hand_over-rest x sp rid uuid task key s has text =
      rw (has, hand_over_calls) (ap (λ k. sets singleshot k rid (λ _. awakes_comm over)) text)

  -- An unsubscription that is queued before its request waits may never be answered. In tables that
  -- satisfy the invariant, let the channel thread have queued its task, where the text of the request
  -- is the one that its service and payload give, no other request waits for that text, the task to
  -- unsubscribe from can be read, and neither this task nor the rid is empty. Let the communication
  -- thread take that task and do all of it before the channel thread goes on. It does not fault, and
  -- once the channel thread has done its calls, the request waits alone in the table of single
  -- responses, if there is one. The parse queue is as the communication thread has left it, no answer
  -- has been appended, and the subscribe thread has not been signalled.
  pub hand_over-unanswered :
      (x : Exchange e) (sp : Json) (arg from : ProxyReplyArg e) (rid task uuid : CString)
      (s : Proxy e) (q : Option e.parse.Queue)
      → x.service_and_payload ≡ some sp
      → print_unformatted sp ≡ task_key_from_reply_arg e arg
      → non_empty (some task) ≡ some task
      → non_empty (some uuid) ≡ some uuid
      → proxy_comm_create_reply_arg e task ≡ some from
      → TablesAreValid e.glib s.tables
      → answered e s.tables (task_key_from_reply_arg e arg) ≡ []
      → let key = task_key_from_reply_arg e arg in
        let (s1, rest) = advance e (hand_over_calls e x rid uuid task) s in
        (t : Proxy e) × (u : Proxy e) × (run e
            (task_calls e cb (parse_task key (some task) (some uuid) singleshot))
            (record s1 { parse_queue = q })
          ≡ some t)
        × (run e rest t ≡ some u)
        × (u.reply_queue ≡ s.reply_queue)
        × (u.subscribe_signals ≡ s.subscribe_signals)
        × (u.parse_queue ≡ q)
        × (rids e.glib u.tables singleshot key
            ≡ (if has_table e.glib t.tables singleshot then rid ∷ [] else []))
  unfolding advance run hand_over_calls
  hand_over-unanswered x sp arg from rid task uuid s q has text n m made v alone =
      let key = task_key_from_reply_arg e arg in
      let waits =
        none_answered (rids e.glib s.tables singleshot key) (rids e.glib s.tables multirespond key)
          alone in
      let (t, runs, queue, signals, tasks, none_waits) =
        early-unanswered (record s { parse_queue = q }) arg from task uuid v made waits.0 waits.1 in
      (
        t,
        record t {
          tables = (respond_table_set e.glib t.tables singleshot key rid).0;
          comm_signals = t.comm_signals + 1;
        },
        ap (λ k. run e k (record s { parse_queue = q })) (task-unsubscribe key task uuid n m)
            ∙ runs,
        ap (λ k. run e k t) (hand_over-rest x sp rid uuid task key s has text),
        queue,
        signals,
        tasks,
        set-empty t.tables key rid none_waits,
      )
