-- ===== src/ProxyComm/Total.antt =====
-- gear/proxycomm.c: when the loop of the communication thread ends.
use sawang.Prelude.{
  ℕ, zero, suc, ◌<◌, ◌≡◌, refl, sym, ◌∙◌, ap, subst, Bool, true, false, ◌&&◌, Option, none, some,
  List, [], ◌∷◌, ◌++◌, CString, if◌then◌else◌, is_some, str_eq, arith, length, All, Bool-cases,
  Option-cases, inl, inr,
}
use sawang.RespondTable.{multirespond, respond_table_drop}
use sawang.Define.{gonggoservice_request_drop}
use sawang.Glib.{head?, tail}
use sawang.ParseQueue.{ParseQueueTask, parse_queue_pop_head}
use sawang.Proxy.{Env, Proxy, ProxyReplyArg, Callbacks, ran, cleared}
use sawang.ProxyComm.{
  proxy_comm_create_reply_arg, proxy_comm_reply, drop_and_clear, send_reply, leaves_none,
}
use sawang.ProxyComm.Loop.{
  comm_task, comm_drain, comm_run, comm_unsubscribe, unsubscribes, replies, known_type,
  comm_dispatch, clear_headers, clear_payload,
}
use sawang.ProxyComm.Queue.{parse_tasks, pop_head-parse_tasks}

pub tail_of_none {ℓ} : {A : Type ℓ} (xs : List A) → head? xs ≡ none → tail xs ≡ []
tail_of_none [] h = refl
tail_of_none (x ∷ xs) h = cc

cons_of_head? {ℓ} : {A : Type ℓ} (xs : List A) {x : A} → head? xs ≡ some x → xs ≡ x ∷ tail xs
cons_of_head? [] h = cc
cons_of_head? (y ∷ xs) h = cc

module _ (e : Env) where
  open e.json use {Json}

  -- A key that names a service, which is not that of a drop request.
  abbrev pub IsServed : Option (ProxyReplyArg e) → Type 0
  IsServed none = ⊥
  IsServed (some arg) = str_eq arg.service gonggoservice_request_drop ≡ false

  abbrev pub Handled : CString → Option (CString × CString) → Type 0
  Handled key none = IsServed (proxy_comm_create_reply_arg e key)
  Handled key (some (task, uuid)) =
      (is_some (proxy_comm_create_reply_arg e key) ≡ true)
      × (is_some (proxy_comm_create_reply_arg e task) ≡ true)

  -- A task that the thread can handle: its keys name services, and that of a task with nothing to
  -- unsubscribe is no drop request.
  abbrev pub IsHandled : ParseQueueTask → Type 0
  IsHandled x = Handled x.task_key (unsubscribes x.type x.unsubscribe_task_key x.unsubscribe_uuid)

  reply-parse_queue :
      (s : Proxy e) (arg : ProxyReplyArg e) (headers : Json) (payload : Option Json)
      → (proxy_comm_reply e s arg headers payload).parse_queue ≡ s.parse_queue
  unfolding proxy_comm_reply send_reply
  reply-parse_queue s arg headers payload = ground arith

  either_some :
      (b : Bool) (t u : Proxy e) {q : Option e.parse.Queue}
      → t.parse_queue ≡ q
      → u.parse_queue ≡ q
      → (v : Proxy e) × ((if b then some t else some u) ≡ some v) × (v.parse_queue ≡ q)
  either_some true t u h k = (t, refl, h)
  either_some false t u h k = (u, refl, k)

  module _ (cb : Callbacks e) where
    drop_and_clear-some :
        (s : Proxy e) (task uuid : CString) (arg : ProxyReplyArg e)
        → (t : Proxy e) × (drop_and_clear e cb s task uuid (some arg) ≡ some t)
          × (t.parse_queue ≡ s.parse_queue)
    unfolding drop_and_clear
    drop_and_clear-some s task uuid arg =
        let (tables, dropped, remaining) =
          respond_table_drop e.glib s.tables multirespond task uuid in
        let t = record s { tables = tables } in
        let u = record t { called = s.called ++ (cleared arg ∷ []) } in
        either_some (dropped && (leaves_none remaining && cb.has_multirespond_clear)) u t refl refl

    replies-parse_queue :
        (s : Proxy e) (arg : ProxyReplyArg e) (rs : List (Json × Option Json))
        → (replies e cb s arg rs).parse_queue ≡ s.parse_queue
    unfolding replies
    replies-parse_queue s arg [] = refl
    replies-parse_queue s arg ((h, p) ∷ rs) =
        replies-parse_queue (proxy_comm_reply e s arg h p) arg rs ∙ reply-parse_queue s arg h p

    unsubscribe-handled :
        (s : Proxy e) (key task uuid : CString) (arg arg' : ProxyReplyArg e)
        → proxy_comm_create_reply_arg e task ≡ some arg
        → proxy_comm_create_reply_arg e key ≡ some arg'
        → (t : Proxy e) × (comm_unsubscribe e cb s key task uuid ≡ some t)
          × (t.parse_queue ≡ s.parse_queue)
    unfolding comm_unsubscribe
    unsubscribe-handled s key task uuid arg arg' f f' =
        let (u, dropped, kept) = drop_and_clear-some s task uuid arg in
        let t = proxy_comm_reply e u arg' (clear_headers e cb) (some (clear_payload e cb uuid)) in
        (t, ground (arith, f, f', dropped), reply-parse_queue u arg' _ _ ∙ kept)

    comm_dispatch-Handled :
        (s : Proxy e) (key : CString) (u : Option (CString × CString))
        → Handled key u
        → (t : Proxy e) × (comm_dispatch e cb s key u ≡ some t) × (t.parse_queue ≡ s.parse_queue)
    unfolding comm_dispatch comm_run
    comm_dispatch-Handled s key (some (task, uuid)) h =
        elim (Option-cases (proxy_comm_create_reply_arg e key)) [
          | inl f ↦ absurd (cc (f, h.0))
          | inr (arg', f') ↦ elim (Option-cases (proxy_comm_create_reply_arg e task)) [
            | inl f ↦ absurd (cc (f, h.1))
            | inr (arg, f) ↦ unsubscribe-handled s key task uuid arg arg' f f'
          ]
        ]
    comm_dispatch-Handled s key none h = elim (Option-cases (proxy_comm_create_reply_arg e key)) [
      | inl f ↦ absurd (subst IsServed f h)
      | inr (arg, f) ↦
          let served = subst IsServed f h in
          let ran = record s { called = s.called ++ (ran arg ∷ []) } in
          elim (Bool-cases cb.has_run) [
            | inl r ↦
                let t = replies e cb ran arg (cb.run s.called arg) in
                (t, ground (arith, f, served, r), replies-parse_queue ran arg (cb.run s.called arg))
            | inr r ↦ (s, ground (arith, f, served, r), refl)
          ]
    ]

    comm_task-handled :
        (s : Proxy e) (x : ParseQueueTask)
        → IsHandled x
        → (t : Proxy e) × (comm_task e cb s x ≡ some t) × (t.parse_queue ≡ s.parse_queue)
    unfolding comm_task
    comm_task-handled s x h = elim (Bool-cases (known_type x.type)) [
      | inl k ↦
          let (t, done, kept) =
            comm_dispatch-Handled s x.task_key
              (unsubscribes x.type x.unsubscribe_task_key x.unsubscribe_uuid) h in
          (t, ground (arith, k, done), kept)
      | inr k ↦ (s, ground (arith, k), refl)
    ]

    -- The loop takes the tasks off the parse queue one by one and ends with none left, on fuel for
    -- one round more than there are tasks, if it can handle each of them: no key makes it read a
    -- service that is not there.
    pub drain-empty :
        (fuel : ℕ) (s : Proxy e)
        → length (parse_tasks e s.parse_queue) < fuel
        → All IsHandled (parse_tasks e s.parse_queue)
        → (t : Proxy e) × (comm_drain e cb fuel s ≡ some t) × (parse_tasks e t.parse_queue ≡ [])
    unfolding comm_drain
    drain-empty zero s l h = absurd (omega arith)
    drain-empty (suc fuel) s l h =
        let (popped, left) = pop_head-parse_tasks e s.parse_queue in
        let rest = (parse_queue_pop_head e.parse s.parse_queue).1 in
        let s' = record s { parse_queue = rest } in
        elim (Option-cases (parse_queue_pop_head e.parse s.parse_queue).0) [
          | inl n ↦ (s', ground (arith, n), left ∙ tail_of_none _ (sym popped ∙ n))
          | inr (x, n) ↦
              let split = cons_of_head? _ (sym popped ∙ n) in
              let handled = subst (All IsHandled) split h in
              let (u, done, kept) = comm_task-handled s' x handled.0 in
              let tasks = ap (parse_tasks e) kept ∙ left in
              let (t, drained, empty) =
                drain-empty fuel u (omega (arith, ap length tasks, ap length split))
                  (subst (All IsHandled) (sym tasks) handled.1) in
              (t, ground (arith, n, done, drained), empty)
        ]
