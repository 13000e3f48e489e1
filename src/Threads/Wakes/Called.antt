-- ===== src/Threads/Wakes/Called.antt =====
-- Every call of a thread keeps what is owed.
use sawang.Prelude.{◌≡◌, refl, sym, ap, subst, ◌∙◌, Bool, true, Option, none, some, is_some, arith}
use sawang.Threads.Calls.{
  fault, over, appends_reply, appends_task, calls_back, dups_task_key, dups_requests, drops, sets,
  awakes_comm, awakes_subscribe, advance, Script,
}
use sawang.RespondTable.{
  respond_table_dup_task_key, respond_table_request_dup, respond_table_drop, respond_table_set,
}
use sawang.Threads.System.{subscribe_after, comm_after, set_left, can_call, System, Caller}
use sawang.Threads.Family.{set_left-same, set_left-all, Some}
use sawang.Threads.Owed.{OwesSubscribe, OwesComm, IsPaying}
use sawang.ReplyQueue.{push_tail, reply_queue_append}
use sawang.Proxy.{Proxy, Env}
use sawang.Threads.Wakes.{
  Left, CommIsWoken, SubscribeIsWoken, IsWoken, comm-left, comm-owed, comm-signal, subscribe-left,
  subscribe-owed, subscribe-signal,
}

module _ (e : Env) where
  -- A call that signals nobody and appends nothing leaves what is owed.
  kept-IsWoken :
      (s : System e) (c : Caller) (k : Script e) (proxy : Proxy e)
      → proxy.parse_queue ≡ s.proxy.parse_queue
      → proxy.reply_queue ≡ s.proxy.reply_queue
      → (OwesComm e (s.left c) → OwesComm e k)
      → (OwesSubscribe e (s.left c) → OwesSubscribe e k)
      → IsPaying e k
      → IsWoken e s
      → IsWoken e (record s { proxy = proxy; left = set_left e s.left c k })
  kept-IsWoken s c k proxy p r comm_go subscribe_go pays h = record {
    comm_woken =
        subst (λ q. CommIsWoken e s.comm_at q (set_left e s.left c k)) (sym p)
          (comm-left e s.comm_at s.proxy.parse_queue s.left c k comm_go h.comm_woken);
    subscribe_woken =
        subst
          (λ q.
            SubscribeIsWoken e s.subscribe_at s.subscribe.alive s.put_back q
              (set_left e s.left c k))
          (sym r)
          (subscribe-left e s.subscribe_at s.subscribe.alive s.put_back s.proxy.reply_queue s.left c
            k subscribe_go h.subscribe_woken);
    paying = set_left-all e (IsPaying e) s.left c k h.paying pays;
    has_queue = ap is_some r ∙ h.has_queue;
  }

  here :
      (P : Script e → Type 0) (left : Left e) (c : Caller) (k : Script e)
      → P k
      → Some e P (set_left e left c k)
  here P left c k h = (c, subst P (sym (set_left-same e left c k)) h)

  -- what `call` does, where the program of the thread is given
  abbrev called : System e → Caller → Script e → System e
  called s c next =
      let (proxy, rest) = advance e next s.proxy in
      record s {
        proxy = proxy;
        left = set_left e s.left c rest;
        comm_at = comm_after e next s.comm_at;
        subscribe_at = subscribe_after e next s.subscribe_at;
      }

  append-is_some :
      (q : Option e.reply.Queue) (rid headers : e.json.Json) (payload : Option e.json.Json)
      (multi : Bool)
      → is_some q ≡ true
      → is_some (reply_queue_append e.reply e.json q rid headers payload multi) ≡ true
  unfolding reply_queue_append push_tail
  append-is_some none rid headers payload multi h = h
  append-is_some (some q) rid headers payload multi h = refl

  pub called-IsWoken :
      (s : System e) (c : Caller) (k : Script e)
      → s.left c ≡ k
      → can_call e s k ≡ true
      → IsPaying e k
      → IsWoken e s
      → IsWoken e (called s c k)
  unfolding advance
  called-IsWoken s c over l g pays h = cc
  called-IsWoken s c fault l g pays h = cc
  called-IsWoken s c (sets w key uuid k) l g pays h =
      let b = (respond_table_set e.glib s.proxy.tables w key uuid).1 in
      kept-IsWoken s c (k b) _ refl refl (λ o. subst (OwesComm e) l o b)
        (λ o. subst (OwesSubscribe e) l o b) (pays b) h
  called-IsWoken s c (drops w key uuid k) l g pays h =
      let d = respond_table_drop e.glib s.proxy.tables w key uuid in
      kept-IsWoken s c (k d.1 d.2) _ refl refl (λ o. subst (OwesComm e) l o d.1 d.2)
        (λ o. subst (OwesSubscribe e) l o d.1 d.2) (pays d.1 d.2) h
  called-IsWoken s c (dups_requests w key k) l g pays h =
      let o = respond_table_request_dup e.glib s.proxy.tables w key in
      kept-IsWoken s c (k o) _ refl refl (λ p. subst (OwesComm e) l p o)
        (λ p. subst (OwesSubscribe e) l p o) (pays o) h
  called-IsWoken s c (dups_task_key w uuid k) l g pays h =
      let o = respond_table_dup_task_key e.glib s.proxy.tables w uuid in
      kept-IsWoken s c (k o) _ refl refl (λ p. subst (OwesComm e) l p o)
        (λ p. subst (OwesSubscribe e) l p o) (pays o) h
  called-IsWoken s c (calls_back x k) l g pays h =
      kept-IsWoken s c (k s.proxy.called) _ refl refl (λ o. subst (OwesComm e) l o s.proxy.called)
        (λ o. subst (OwesSubscribe e) l o s.proxy.called) (pays s.proxy.called) h
  called-IsWoken s c (appends_task key task uuid w k) l g pays h = record {
    comm_woken = comm-owed e s.comm_at _ _ (here (OwesComm e) s.left c k pays.0);
    subscribe_woken =
        subscribe-left e s.subscribe_at s.subscribe.alive s.put_back s.proxy.reply_queue s.left c k
          (subst (OwesSubscribe e) l) h.subscribe_woken;
    paying = set_left-all e (IsPaying e) s.left c k h.paying pays.1;
    has_queue = h.has_queue;
  }
  called-IsWoken s c (appends_reply rid headers payload multi k) l g pays h = record {
    comm_woken =
        comm-left e s.comm_at s.proxy.parse_queue s.left c k (subst (OwesComm e) l) h.comm_woken;
    subscribe_woken =
        subscribe-owed e s.subscribe_at s.subscribe.alive s.put_back _ _
          (here (OwesSubscribe e) s.left c k pays.0);
    paying = set_left-all e (IsPaying e) s.left c k h.paying pays.1;
    has_queue = append-is_some s.proxy.reply_queue rid headers payload multi h.has_queue;
  }
  called-IsWoken s c (awakes_comm k) l g pays h = record {
    comm_woken = comm-signal e s.comm_at s.proxy.parse_queue (set_left e s.left c k);
    subscribe_woken =
        subscribe-left e s.subscribe_at s.subscribe.alive s.put_back s.proxy.reply_queue s.left c k
          (subst (OwesSubscribe e) l) h.subscribe_woken;
    paying = set_left-all e (IsPaying e) s.left c k h.paying pays;
    has_queue = h.has_queue;
  }
  called-IsWoken s c (awakes_subscribe k) l g pays h = record {
    comm_woken =
        comm-left e s.comm_at s.proxy.parse_queue s.left c k (subst (OwesComm e) l) h.comm_woken;
    subscribe_woken =
        subscribe-signal e s.subscribe_at s.subscribe.alive s.put_back s.proxy.reply_queue
          (set_left e s.left c k) (ground arith);
    paying = set_left-all e (IsPaying e) s.left c k h.paying pays;
    has_queue = h.has_queue;
  }
