-- ===== src/ProxyChannel/Handled.antt =====
-- gear/proxychannel.c against gear/proxycomm.c: the tasks that the channel
-- thread queues, and what the communication thread needs of them.
use sawang.Prelude.{
  append-nil, ◌≡◌, refl, sym, ◌∙◌, ap, subst, Bool, true, false, ◌&&◌, not, Option, none, some,
  List, [], ◌∷◌, ◌++◌, CString, if◌then◌else◌, is_some, str_eq, arith, contains, All, Bool-cases,
  inl, inr,
}
use sawang.RespondTable.{other, singleshot, multirespond, RespondTableType}
use sawang.ProxyChannel.{
  reject, fresh, same, null, is_done, ChannelCalls, Exchange, Normalized, exchange_read,
  exchange_finish, exchange_task_key, norm_service_and_payload, is_invalid,
}
use sawang.ProxyComm.Total.{Handled, IsHandled, IsServed}
use sawang.ParseQueue.{non_empty, ParseQueueTask, parse_task}
use sawang.Define.{gonggoservice_request_drop, service_service_key, service_payload_key}
use sawang.Shm.{ProxyChannelState, ProxyChannelShm}
use sawang.RespondTable.Contract.{rids}
use sawang.Proxy.{Env, Proxy, ProxyReplyArg, item_at, string_at}
use sawang.ProxyComm.{proxy_comm_create_reply_arg}
use sawang.ProxyComm.Loop.{unsubscribes}
use sawang.ProxyChannel.Drop.{
  asked-not_empty, handed_over, no_payload, no_rid, unknown_rid, Unsubscribed, finish-Unsubscribed,
}
use sawang.ProxyComm.Queue.{parse_tasks}
use sawang.ProxyComm.Outcome.{create_reply_arg-service_json}
use sawang.ProxyChannel.Accept.{IsCreated, finish-subscribe}

module _ (e : Env) where
  open e.json use {Json, print_unformatted}

  -- an exchange of an object whose service is a text, as `exchange_read` leaves it
  pub record IsRead (x : Exchange e) (sp : Json) : Type 0 where
    pub has_object : x.service_and_payload ≡ some sp
    pub has_service :
        string_at e.json (item_at e.json (some sp) service_service_key) ≡ some x.service_name
    pub drop_unsubscribes :
        (if x.parsed.unsubscribe then false else str_eq x.service_name gonggoservice_request_drop)
        ≡ false

  -- The keys of the multirespond tasks name services, and are not empty.
  abbrev pub KeysAreServed : Proxy e → Type 0
  KeysAreServed s =
      (task u : CString)
      → contains (rids e.glib s.tables multirespond task) u ≡ true
      → (is_some (proxy_comm_create_reply_arg e task) ≡ true) × (non_empty (some task) ≡ some task)

  pub All-snoc :
      (P : ParseQueueTask → Type 0) (xs : List ParseQueueTask) (y : ParseQueueTask)
      → All P xs
      → P y
      → All P (xs ++ (y ∷ []))
  All-snoc P [] y h p = (p, h)
  All-snoc P (x ∷ xs) y h p = (h.0, All-snoc P xs y h.1 p)

  unsubscribes-none : (w : RespondTableType) → unsubscribes w none none ≡ none
  unfolding unsubscribes
  unsubscribes-none singleshot = refl
  unsubscribes-none multirespond = refl
  unsubscribes-none (other n) = refl

  pub parse_task-plain :
      (key : CString) (w : RespondTableType)
      → IsServed e (proxy_comm_create_reply_arg e key)
      → IsHandled e (parse_task key none none w)
  unfolding parse_task non_empty
  parse_task-plain key w h = subst (Handled e key) (sym (unsubscribes-none w)) h

  pub parse_task-unsubscribe :
      (key task uuid : CString)
      → is_some (proxy_comm_create_reply_arg e key) ≡ true
      → is_some (proxy_comm_create_reply_arg e task) ≡ true
      → non_empty (some task) ≡ some task
      → non_empty (some uuid) ≡ some uuid
      → IsHandled e (parse_task key (some task) (some uuid) singleshot)
  unfolding parse_task unsubscribes
  parse_task-unsubscribe key task uuid k t n m =
      let both : unsubscribes singleshot (non_empty (some task)) (non_empty (some uuid))
          ≡ some (task, uuid) =
        rw (n, m) in
      let kind : (if is_some (non_empty (some task)) then singleshot else singleshot) ≡ singleshot =
        rw n in
      subst (Handled e key)
        (sym (ap (λ w. unsubscribes w (non_empty (some task)) (non_empty (some uuid))) kind ∙ both))
        (k, t)

  pub exchange_read-IsRead :
      (calls : ChannelCalls e) (shm shm' : ProxyChannelShm) (x : Exchange e) (sp item : Json)
      → exchange_read e calls shm ≡ some (shm', x)
      → x.service_and_payload ≡ some sp
      → e.json.get_object_item sp service_service_key ≡ some item
      → IsRead x sp
  unfolding exchange_read
  exchange_read-IsRead calls shm shm' x sp item h has i = record {
    has_object = has;
    has_service = ground arith;
    drop_unsubscribes = ground arith;
  }

  -- the service of an object's own text
  pub create_reply_arg-text :
      (sp : Json) (service : CString)
      → string_at e.json (item_at e.json (some sp) service_service_key) ≡ some service
      → (arg : ProxyReplyArg e) × (proxy_comm_create_reply_arg e (print_unformatted sp) ≡ some arg)
        × (arg.service ≡ service)
  unfolding proxy_comm_create_reply_arg
  create_reply_arg-text sp service h =
      let payload : Option Json = elim (e.json.get_object_item sp service_payload_key) [
        | none ↦ none
        | some i ↦ some (e.json.duplicate i)
      ] in
      let arg : ProxyReplyArg e = record { service = service; payload = payload } in
      (arg, ground (arith, e.json.parse-print sp), refl)

  IsServed-text :
      (sp : Json) (service : CString)
      → string_at e.json (item_at e.json (some sp) service_service_key) ≡ some service
      → str_eq service gonggoservice_request_drop ≡ false
      → IsServed e (proxy_comm_create_reply_arg e (print_unformatted sp))
  IsServed-text sp service h d =
      let (arg, found, name) = create_reply_arg-text sp service h in
      subst (IsServed e) (sym found) (ap (λ n. str_eq n gonggoservice_request_drop) name ∙ d)

  -- the service of a task key
  norm-IsServed :
      (sp : Json) (service : CString) (payload : Option Json) (n : Normalized e)
      → string_at e.json (item_at e.json (some sp) service_service_key) ≡ some service
      → str_eq service gonggoservice_request_drop ≡ false
      → IsServed e (
          proxy_comm_create_reply_arg e
            (print_unformatted (norm_service_and_payload e sp service payload n)))
  unfolding norm_service_and_payload
  norm-IsServed sp service none n h d = IsServed-text sp service h d
  norm-IsServed sp service (some p) same h d = IsServed-text sp service h d
  norm-IsServed sp service (some p) null h d =
      subst (IsServed e) (sym (create_reply_arg-service_json e service none)) d
  norm-IsServed sp service (some p) (fresh j) h d =
      subst (IsServed e) (sym (create_reply_arg-service_json e service (some j))) d

  done_of : (state : ProxyChannelState) → is_done state ≡ true → state ≡ ProxyChannelState.done
  done_of ProxyChannelState.done h = refl
  done_of _ h = cc

  finish-kept :
      (s : Proxy e) (x : Exchange e) (shm : ProxyChannelShm)
      → is_done shm.state && not (is_invalid x.parsed.result) ≡ false
      → (exchange_finish e s x shm).0.parse_queue ≡ s.parse_queue
  unfolding exchange_finish reject
  finish-kept s x shm h = ground arith

  Unsubscribed-IsHandled :
      (s t : Proxy e) (payload : Option Json) (key rid : CString)
      → is_some (proxy_comm_create_reply_arg e key) ≡ true
      → KeysAreServed s
      → All (IsHandled e) (parse_tasks e s.parse_queue)
      → Unsubscribed e s payload key rid t
      → All (IsHandled e) (parse_tasks e t.parse_queue)
  unfolding reject
  Unsubscribed-IsHandled s t payload key rid k served h (no_payload p q) =
      subst (λ t. All (IsHandled e) (parse_tasks e t.parse_queue)) (sym q) h
  Unsubscribed-IsHandled s t payload key rid k served h (no_rid p a q) =
      subst (λ t. All (IsHandled e) (parse_tasks e t.parse_queue)) (sym q) h
  Unsubscribed-IsHandled s t payload key rid k served h (unknown_rid asked a u q) =
      subst (λ t. All (IsHandled e) (parse_tasks e t.parse_queue)) (sym q) h
  Unsubscribed-IsHandled s t payload key rid k served h (handed_over asked task a m q ts rs) =
      let (named, full) = served task asked m in
      subst (All (IsHandled e)) (sym q) (
        All-snoc (IsHandled e) (parse_tasks e s.parse_queue)
          (parse_task key (some task) (some asked) singleshot) h
          (parse_task-unsubscribe key task asked k named full (asked-not_empty e payload asked a)))

  pub task_key-IsServed :
      (x : Exchange e) (sp : Json)
      → IsRead x sp
      → x.parsed.unsubscribe ≡ false
      → IsServed e (proxy_comm_create_reply_arg e (exchange_task_key e x))
  unfolding exchange_task_key
  task_key-IsServed x sp r u =
      let key : exchange_task_key e x
          ≡ print_unformatted
              (norm_service_and_payload e sp x.service_name x.payload x.parsed.normalized_payload) =
        rw (r.has_object) in
      subst (λ k. IsServed e (proxy_comm_create_reply_arg e k)) (sym key)
        (norm-IsServed sp x.service_name x.payload x.parsed.normalized_payload r.has_service
          (ground (arith, r.drop_unsubscribes)))

  queue-IsHandled :
      (b : Bool) (xs : List ParseQueueTask) (key : CString) (w : RespondTableType)
      → All (IsHandled e) xs
      → IsServed e (proxy_comm_create_reply_arg e key)
      → All (IsHandled e) (xs ++ (if b then parse_task key none none w ∷ [] else []))
  queue-IsHandled true xs key w h k =
      All-snoc (IsHandled e) xs (parse_task key none none w) h (parse_task-plain key w k)
  queue-IsHandled false xs key w h k = subst (All (IsHandled e)) (sym (append-nil xs)) h

  -- The finished exchange of an object whose service is a text leaves a parse queue of tasks that the
  -- communication thread can handle, if the queue was so before, the tables and the queue have been
  -- created, the keys of the multirespond tasks name services and are not empty, and a request under
  -- the name of drop requests is an unsubscription, as `exchange_read` makes it.
  pub finish-IsHandled :
      (s : Proxy e) (x : Exchange e) (shm : ProxyChannelShm) (sp : Json)
      → IsCreated e s
      → IsRead x sp
      → KeysAreServed s
      → All (IsHandled e) (parse_tasks e s.parse_queue)
      → All (IsHandled e) (parse_tasks e (exchange_finish e s x shm).0.parse_queue)
  unfolding exchange_finish
  finish-IsHandled s x shm sp c r served h =
      elim (Bool-cases (is_done shm.state && not (is_invalid x.parsed.result))) [
        | inr b ↦ subst (λ q. All (IsHandled e) (parse_tasks e q)) (sym (finish-kept s x shm b)) h
        | inl b ↦
            let ended = done_of shm.state (ground arith) in
            let valid : is_invalid x.parsed.result ≡ false = ground arith in
            elim (Bool-cases x.parsed.unsubscribe) [
              | inl u ↦
                  let (arg, found, name) = create_reply_arg-text sp x.service_name r.has_service in
                  let (after, alive) =
                    finish-Unsubscribed e s x shm sp c r.has_object ended valid u in
                  Unsubscribed-IsHandled s (exchange_finish e s x shm).0 x.payload
                    (print_unformatted sp) shm.rid (ap is_some found) served h after
              | inr u ↦
                  let tasks =
                    (finish-subscribe e s x shm c (ap is_some r.has_object) ended valid u).1 in
                  subst (All (IsHandled e)) (sym tasks)
                    (queue-IsHandled _ _ _ _ h (task_key-IsServed x sp r u))
            ]
      ]
