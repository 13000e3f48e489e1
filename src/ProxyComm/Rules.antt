-- ===== src/ProxyComm/Rules.antt =====
-- gear/proxycomm.c: the rules by which the communication thread keeps a property of its state.
use sawang.Prelude.{
  ℕ, zero, suc, ◌+◌, ◌≡◌, refl, Bool, true, false, ◌&&◌, Option, none, some, List, [], ◌∷◌, ◌++◌,
  CString, if◌then◌else◌, str_eq,
}
use sawang.Define.{service_rid_key, gonggoservice_request_drop}
use sawang.RespondTable.{multirespond, respond_table_drop, respond_table_dup_task_key}
use sawang.ParseQueue.{ParseQueueTask, parse_queue_pop_head}
use sawang.Proxy.{Env, Proxy, ProxyReplyArg, Callback, Callbacks, ran, cleared, item_at, string_at}
use sawang.ProxyComm.{
  proxy_comm_create_reply_arg, proxy_comm_reply, drop_and_clear, drop_items,
  proxy_comm_drop_multirespond_request, leaves_none,
}
use sawang.ProxyComm.Loop.{
  comm_task, comm_drain, comm_run, comm_unsubscribe, unsubscribes, replies, known_type,
  comm_dispatch,
}

module _ (e : Env) where
  open e.json use {Json}

  -- A call of the thread's own work, neither its start nor its end.
  abbrev pub is_work : Callback e → Bool
  is_work (ran arg) = true
  is_work (cleared arg) = true
  is_work _ = false

  -- What the thread does to its state: a reply, a drop of a multirespond request, a call of a
  -- callback, and a task that it takes. A property that each of these keeps is kept by the thread.
  pub record IsKept (P : Proxy e → Type 0) : Type 0 where
    pub on_reply :
        (s : Proxy e) (arg : ProxyReplyArg e) (headers : Json) (payload : Option Json)
        → P s
        → P (proxy_comm_reply e s arg headers payload)
    pub on_drop :
        (s : Proxy e) (task uuid : CString)
        → P s
        → P (record s { tables = (respond_table_drop e.glib s.tables multirespond task uuid).0 })
    pub on_call :
        (s : Proxy e) (c : Callback e)
        → is_work c ≡ true
        → P s
        → P (record s { called = s.called ++ (c ∷ []) })
    pub on_pop :
        (s : Proxy e)
        → P s
        → P (record s { parse_queue = (parse_queue_pop_head e.parse s.parse_queue).1 })

  -- The property holds of the state that a call leaves, if it ends.
  abbrev pub OptAll : (Proxy e → Type 0) → Option (Proxy e) → Type 0
  OptAll P none = Unit {0}
  OptAll P (some s) = P s

  module _ (P : Proxy e → Type 0) where
    if-OptAll :
        (b : Bool) (x y : Option (Proxy e))
        → OptAll P x
        → OptAll P y
        → OptAll P (if b then x else y)
    if-OptAll true x y h k = h
    if-OptAll false x y h k = k

    bind-OptAll :
        {A : Type 0} (o : Option A) (f : A → Option (Proxy e))
        → ((a : A) → OptAll P (f a))
        → OptAll P (elim o [ none ↦ none | some a ↦ f a ])
    bind-OptAll none f h = tt
    bind-OptAll (some a) f h = h a

    or_same-OptAll :
        {A : Type 0} (s : Proxy e) (o : Option A) (f : A → Option (Proxy e))
        → P s
        → ((a : A) → OptAll P (f a))
        → OptAll P (elim o [ none ↦ some s | some a ↦ f a ])
    or_same-OptAll s none f v h = v
    or_same-OptAll s (some a) f v h = h a

    -- two calls, the second on what the first leaves
    then-OptAll :
        (o : Option (Proxy e)) (f : Proxy e → Option (Proxy e))
        → OptAll P o
        → ((t : Proxy e) → P t → OptAll P (f t))
        → OptAll P (elim o [ none ↦ none | some t ↦ f t ])
    then-OptAll none f o h = tt
    then-OptAll (some t) f o h = h t o

  module _ {P : Proxy e → Type 0} (k : IsKept P) (cb : Callbacks e) where
    drop_and_clear-OptAll :
        (s : Proxy e) (task uuid : CString) (arg : Option (ProxyReplyArg e))
        → P s
        → OptAll P (drop_and_clear e cb s task uuid arg)
    unfolding drop_and_clear
    drop_and_clear-OptAll s task uuid arg v =
        let kept = k.on_drop s task uuid v in
        let (tables, dropped, remaining) =
          respond_table_drop e.glib s.tables multirespond task uuid in
        let t = record s { tables = tables } in
        let clear : ProxyReplyArg e → Option (Proxy e) =
          λ a. some (record t { called = s.called ++ (cleared a ∷ []) }) in
        if-OptAll P (dropped && (leaves_none remaining && cb.has_multirespond_clear))
          (elim arg [ none ↦ none | some a ↦ clear a ]) (some t)
          (bind-OptAll P arg clear (λ a. k.on_call t (cleared a) refl kept)) kept

    drop_items-OptAll :
        (n i : ℕ) (arr : Option Json) (s : Proxy e) → P s → OptAll P (drop_items e cb arr n i s)
    unfolding drop_items
    drop_items-OptAll zero i arr s v = v
    drop_items-OptAll (suc n) i arr s v =
        let item : Option Json = elim arr [ none ↦ none | some a ↦ e.json.get_array_item a i ] in
        let drop : CString → CString → Option (Proxy e) =
          λ uuid task. drop_and_clear e cb s task uuid (proxy_comm_create_reply_arg e task) in
        let search : CString → Option (Proxy e) = λ uuid.
          elim (respond_table_dup_task_key e.glib s.tables multirespond uuid) [
            | none ↦ some s
            | some task ↦ drop uuid task
          ] in
        then-OptAll P (elim (string_at e.json item) [ none ↦ some s | some uuid ↦ search uuid ])
          (λ t. drop_items e cb arr n (i + 1) t)
          (or_same-OptAll P s (string_at e.json item) search v (λ uuid.
            or_same-OptAll P s (respond_table_dup_task_key e.glib s.tables multirespond uuid)
              (drop uuid) v
              (λ task. drop_and_clear-OptAll s task uuid (proxy_comm_create_reply_arg e task) v)))
          (λ t w. drop_items-OptAll n (i + 1) arr t w)

    drop_request-OptAll :
        (s : Proxy e) (payload : Option Json)
        → P s
        → OptAll P (proxy_comm_drop_multirespond_request e cb s payload)
    unfolding proxy_comm_drop_multirespond_request
    drop_request-OptAll s payload v =
        let arr = item_at e.json payload service_rid_key in
        drop_items-OptAll (elim arr [ none ↦ 0 | some a ↦ e.json.get_array_size a ]) 0 arr s v

    replies-kept :
        (rs : List (Json × Option Json)) (s : Proxy e) (arg : ProxyReplyArg e)
        → P s
        → P (replies e cb s arg rs)
    unfolding replies
    replies-kept [] s arg v = v
    replies-kept ((h, p) ∷ rs) s arg v =
        replies-kept rs (proxy_comm_reply e s arg h p) arg (k.on_reply s arg h p v)

    unsubscribe-OptAll :
        (s : Proxy e) (key task uuid : CString)
        → P s
        → OptAll P (comm_unsubscribe e cb s key task uuid)
    unfolding comm_unsubscribe
    unsubscribe-OptAll s key task uuid v =
        bind-OptAll P (proxy_comm_create_reply_arg e task) _ (λ reply_arg.
          then-OptAll P (drop_and_clear e cb s task uuid (some reply_arg)) _
            (drop_and_clear-OptAll s task uuid (some reply_arg) v)
            (λ t w.
              bind-OptAll P (proxy_comm_create_reply_arg e key) _ (λ arg. k.on_reply t arg _ _ w)))

    comm_run-OptAll : (s : Proxy e) (key : CString) → P s → OptAll P (comm_run e cb s key)
    unfolding comm_run
    comm_run-OptAll s key v = bind-OptAll P (proxy_comm_create_reply_arg e key) _ (λ arg.
        if-OptAll P (str_eq arg.service gonggoservice_request_drop) _ _
          (drop_request-OptAll s arg.payload v)
          (if-OptAll P cb.has_run _ _
            (replies-kept (cb.run s.called arg) (record s { called = s.called ++ (ran arg ∷ []) })
              arg (k.on_call s (ran arg) refl v))
            v))

    dispatch-OptAll :
        (s : Proxy e) (key : CString) (u : Option (CString × CString))
        → P s
        → OptAll P (comm_dispatch e cb s key u)
    unfolding comm_dispatch
    dispatch-OptAll s key none v = comm_run-OptAll s key v
    dispatch-OptAll s key (some (task, uuid)) v = unsubscribe-OptAll s key task uuid v

    comm_task-OptAll : (s : Proxy e) (x : ParseQueueTask) → P s → OptAll P (comm_task e cb s x)
    unfolding comm_task
    comm_task-OptAll s x v =
        let u = unsubscribes x.type x.unsubscribe_task_key x.unsubscribe_uuid in
        if-OptAll P (known_type x.type) (comm_dispatch e cb s x.task_key u) (some s)
          (dispatch-OptAll s x.task_key u v) v

    -- What each step of the thread keeps, any number of rounds of its loop keeps.
    pub drain-OptAll : (fuel : ℕ) (s : Proxy e) → P s → OptAll P (comm_drain e cb fuel s)
    unfolding comm_drain
    drain-OptAll zero s v = v
    drain-OptAll (suc fuel) s v =
        let (task, rest) = parse_queue_pop_head e.parse s.parse_queue in
        let t = record s { parse_queue = rest } in
        let w = k.on_pop s v in
        or_same-OptAll P t task
          (λ x. elim (comm_task e cb t x) [ none ↦ none | some u ↦ comm_drain e cb fuel u ]) w
          (λ x.
            then-OptAll P (comm_task e cb t x) (λ u. comm_drain e cb fuel u)
              (comm_task-OptAll t x w) (λ u w. drain-OptAll fuel u w))
