-- ===== src/Threads/Alone/Tasks.antt =====
-- gear/proxycomm.c: the calls of a task, with no other thread in between, are the task.
use sawang.Prelude.{
  ℕ, zero, suc, ◌+◌, ◌≡◌, refl, ◌∙◌, Option, none, some, List, [], ◌∷◌, ◌++◌, CString, arith,
  Bool-cases, Option-cases, inl, inr,
}
use sawang.Threads.Alone.Replies.{reply_calls-run}
use sawang.ProxyComm.Loop.{
  clear_payload, clear_headers, comm_unsubscribe, comm_run, comm_dispatch, known_type, replies,
  comm_task,
}
use sawang.Threads.Calls.{fault, over, Script, run}
use sawang.Define.{service_rid_key}
use sawang.Proxy.{item_at, ran, string_at, Callbacks, Proxy, ProxyReplyArg, Env}
use sawang.ProxyComm.{
  proxy_comm_drop_multirespond_request, proxy_comm_create_reply_arg, drop_items, drop_and_clear,
  proxy_comm_reply,
}
use sawang.Threads.Comm.{
  drop_request_calls, unsubscribe_calls, run_calls, dispatch_calls, task_calls, replies_calls,
  items_calls, clear_calls, reply_calls,
}
use sawang.RespondTable.{respond_table_dup_task_key, multirespond}
use sawang.ParseQueue.{ParseQueueTask}

module _ (e : Env) (cb : Callbacks e) where
  open e.json use {Json, get_array_item}

  -- a program that goes on after a call which may fault
  abbrev and_then : Option (Proxy e) → Script e → Option (Proxy e)
  and_then none k = none
  and_then (some s) k = run e k s

  and_then-then :
      (o : Option (Proxy e)) (f : Proxy e → Option (Proxy e)) (k k' : Script e)
      → ((t : Proxy e) → run e k t ≡ and_then (f t) k')
      → and_then o k ≡ and_then (elim o [ none ↦ none | some t ↦ f t ]) k'
  and_then-then none f k k' h = refl
  and_then-then (some t) f k k' h = h t

  and_then-over : (o : Option (Proxy e)) → and_then o over ≡ o
  unfolding run
  and_then-over none = refl
  and_then-over (some t) = refl

  clear_calls-run :
      (task uuid : CString) (arg : Option (ProxyReplyArg e)) (k : Script e) (s : Proxy e)
      → run e (clear_calls e cb task uuid arg k) s
        ≡ and_then (drop_and_clear e cb s task uuid arg) k
  unfolding run clear_calls drop_and_clear
  clear_calls-run task uuid arg k s = ground arith

  items_calls-run :
      (arr : Option Json) (n i : ℕ) (k : Script e) (s : Proxy e)
      → run e (items_calls e cb arr n i k) s ≡ and_then (drop_items e cb arr n i s) k
  unfolding run items_calls drop_items
  items_calls-run arr zero i k s = refl
  items_calls-run arr (suc n) i k s =
      let item : Option Json = elim arr [ none ↦ none | some a ↦ get_array_item a i ] in
      elim (Option-cases (string_at e.json item)) [
        | inl f ↦ ground (arith, f, items_calls-run arr n (i + 1) k s)
        | inr (uuid, f) ↦
            elim (Option-cases (respond_table_dup_task_key e.glib s.tables multirespond uuid)) [
              | inl g ↦ ground (arith, f, g, items_calls-run arr n (i + 1) k s)
              | inr (task, g) ↦
                  let arg = proxy_comm_create_reply_arg e task in
                  let rest = items_calls e cb arr n (i + 1) k in
                  ground (
                    arith,
                    f,
                    g,
                    clear_calls-run task uuid arg rest s,
                    and_then-then (drop_and_clear e cb s task uuid arg)
                        (λ t. drop_items e cb arr n (i + 1) t) rest k
                        (λ t. items_calls-run arr n (i + 1) k t),
                  )
            ]
      ]

  drop_request_calls-run :
      (payload : Option Json) (s : Proxy e)
      → run e (drop_request_calls e cb payload over) s
        ≡ proxy_comm_drop_multirespond_request e cb s payload
  unfolding drop_request_calls proxy_comm_drop_multirespond_request
  drop_request_calls-run payload s =
      let arr = item_at e.json payload service_rid_key in
      let n = elim arr as (λ _. ℕ) [ none ↦ 0 | some a ↦ e.json.get_array_size a ] in
      items_calls-run arr n 0 over s ∙ and_then-over (drop_items e cb arr n 0 s)

  replies_calls-run :
      (arg : ProxyReplyArg e) (rs : List (Json × Option Json)) (k : Script e) (s : Proxy e)
      → run e (replies_calls e cb arg rs k) s ≡ run e k (replies e cb s arg rs)
  unfolding run replies_calls replies
  replies_calls-run arg [] k s = refl
  replies_calls-run arg ((h, p) ∷ rs) k s =
      reply_calls-run e arg h p (replies_calls e cb arg rs k) s
      ∙ replies_calls-run arg rs k (proxy_comm_reply e s arg h p)

  run_calls-run : (key : CString) (s : Proxy e) → run e (run_calls e cb key) s ≡ comm_run e cb s key
  unfolding run run_calls comm_run
  run_calls-run key s = elim (Option-cases (proxy_comm_create_reply_arg e key)) [
    | inl f ↦ ground (arith, f)
    | inr (arg, f) ↦
        let ran = record s { called = s.called ++ (ran arg ∷ []) } in
        ground (
          arith,
          f,
          drop_request_calls-run arg.payload s,
          replies_calls-run arg (cb.run s.called arg) over ran,
        )
  ]

  -- the answer to an unsubscription, by the argument of its own key
  abbrev cleared_calls : CString → Option (ProxyReplyArg e) → Script e
  cleared_calls uuid o = elim o [
    | none ↦ fault
    | some arg ↦ reply_calls e arg (clear_headers e cb) (some (clear_payload e cb uuid)) over
  ]

  abbrev cleared_reply : CString → Option (ProxyReplyArg e) → Proxy e → Option (Proxy e)
  cleared_reply uuid o t = elim o [
    | none ↦ none
    | some arg ↦
        some (proxy_comm_reply e t arg (clear_headers e cb) (some (clear_payload e cb uuid)))
  ]

  cleared_calls-run :
      (uuid : CString) (o : Option (ProxyReplyArg e)) (t : Proxy e)
      → run e (cleared_calls uuid o) t ≡ and_then (cleared_reply uuid o t) over
  unfolding run
  cleared_calls-run uuid none t = refl
  cleared_calls-run uuid (some arg) t = reply_calls-run e arg _ _ over t

  pub unsubscribe_calls-run :
      (key task uuid : CString) (s : Proxy e)
      → run e (unsubscribe_calls e cb key task uuid) s ≡ comm_unsubscribe e cb s key task uuid
  unfolding unsubscribe_calls comm_unsubscribe run
  unsubscribe_calls-run key task uuid s = elim (Option-cases (proxy_comm_create_reply_arg e task)) [
    | inl f ↦ ground (arith, f)
    | inr (ra, f) ↦
        let o = proxy_comm_create_reply_arg e key in
        let d = drop_and_clear e cb s task uuid (some ra) in
        let k = cleared_calls uuid o in
        let done =
          clear_calls-run task uuid (some ra) k s
          ∙ (and_then-then d (cleared_reply uuid o) k over (cleared_calls-run uuid o)
              ∙ and_then-over (elim d [ none ↦ none | some t ↦ cleared_reply uuid o t ])) in
        ground (arith, f, done)
  ]

  dispatch_calls-run :
      (key : CString) (u : Option (CString × CString)) (s : Proxy e)
      → run e (dispatch_calls e cb key u) s ≡ comm_dispatch e cb s key u
  unfolding dispatch_calls comm_dispatch
  dispatch_calls-run key none s = run_calls-run key s
  dispatch_calls-run key (some (task, uuid)) s = unsubscribe_calls-run key task uuid s

  -- One task of the communication thread with no other thread in between is its task as one step.
  pub task_calls-run :
      (x : ParseQueueTask) (s : Proxy e) → run e (task_calls e cb x) s ≡ comm_task e cb s x
  unfolding run task_calls comm_task
  task_calls-run x s = elim (Bool-cases (known_type x.type)) [
    | inl b ↦ rw b (dispatch_calls-run x.task_key _ s)
    | inr b ↦ rw b refl
  ]
