-- ===== src/Threads/Requests.antt =====
-- gear/proxychannel.c: the calls at the end of an exchange give the communication thread only what it
-- can handle.
use sawang.Prelude.{
  ℕ, ◌≡◌, refl, ap, subst, Bool, true, false, not, ◌&&◌, ◌||◌, Option, none, some, [], ◌∷◌, CString,
  length, ltb, if◌then◌else◌, is_some, Bool-cases, Option-cases, inl, inr,
}
use sawang.Threads.Safe.{KeyFits, IsSafe, IsKey}
use sawang.Threads.Machine.{finish_calls}
use sawang.Define.{
  multirespond_clear_payload_rid_invalid, multirespond_clear_payload_rid_missing,
  multirespond_clear_payload_missing, status_code, service_rid_key, service_service_key,
}
use sawang.Threads.Calls.{Script, awakes_comm, appends_task, over}
use sawang.Threads.Closed.{if-Ok}
use sawang.ProxyChannel.{
  is_invalid, is_done, norm_service_and_payload, is_termination, is_parsed_multirespond,
  exchange_task_key, proxy_channel_payload_shm_read, Exchange, ChannelCalls,
}
use sawang.Proxy.{string_at, Callbacks, Env}
use sawang.Shm.{ProxyChannelShm}
use sawang.ProxyChannel.Handled.{
  parse_task-plain, parse_task-unsubscribe, task_key-IsServed, exchange_read-IsRead,
  create_reply_arg-text, IsRead,
}
use sawang.RespondTable.{RespondTableType, singleshot, multirespond}
use sawang.ParseQueue.{parse_task, non_empty}
use sawang.ProxyComm.Total.{IsHandled, IsServed}
use sawang.ProxyComm.{proxy_comm_create_reply_arg}
use sawang.Threads.Channel.{
  hand_over_calls, reject_calls, subscribe_calls, exchange_calls, drop_calls,
}
use sawang.Threads.Read.{read-some, read-none}

module _ (e : Env) where
  open e.json use {Json, print_unformatted}

  -- Every object that Gonggo sends names its service by a text.
  abbrev pub HasServices : ChannelCalls e → Type 0
  HasServices calls_of =
      (rid : CString) (n : ℕ) (sp : Json)
      → proxy_channel_payload_shm_read e calls_of rid n ≡ some sp
      → (item : Json) × (name : CString) × (e.json.get_object_item sp service_service_key
          ≡ some item)
        × (e.json.get_string_value item ≡ some name)

  module _ (parse_empty : e.json.parse [] ≡ none) where
    print-non_empty :
        (j : Json) → non_empty (some (print_unformatted j)) ≡ some (print_unformatted j)
    unfolding non_empty
    print-non_empty j = go (print_unformatted j) refl
      where
        go : (t : CString) → print_unformatted j ≡ t → non_empty (some t) ≡ some t
        go [] h = absurd (cc (e.json.parse-print j, ap e.json.parse h, parse_empty))
        go (c ∷ t) h = refl

    IsServed-IsKey :
        (k : CString)
        → IsServed e (proxy_comm_create_reply_arg e k)
        → non_empty (some k) ≡ some k
        → IsKey e k
    IsServed-IsKey k h n = elim (Option-cases (proxy_comm_create_reply_arg e k)) [
      | inl f ↦ absurd (subst (IsServed e) f h)
      | inr (a, f) ↦ (ap is_some f, n)
    ]

    fits :
        (multi : Bool) (key : CString)
        → IsKey e key
        → KeyFits e (if multi then multirespond else singleshot) key
    fits true key k = k
    fits false key k = tt

    task_key-non_empty :
        (x : Exchange e) (sp : Json)
        → IsRead e x sp
        → non_empty (some (exchange_task_key e x)) ≡ some (exchange_task_key e x)
    unfolding exchange_task_key
    task_key-non_empty x sp r =
        rw (r.has_object, exchange_task_key)
          (print-non_empty
            (norm_service_and_payload e sp x.service_name x.payload x.parsed.normalized_payload))

    reject_calls-IsSafe : (rid : CString) (status : ℕ) → IsSafe e (reject_calls e rid status)
    unfolding reject_calls
    reject_calls-IsSafe rid status = tt

    hand_over_calls-IsSafe :
        (x : Exchange e) (rid uuid task : CString) (sp : Json)
        → IsRead e x sp
        → non_empty (some uuid) ≡ some uuid
        → IsKey e task
        → IsSafe e (hand_over_calls e x rid uuid task)
    unfolding hand_over_calls
    hand_over_calls-IsSafe x rid uuid task sp r n k =
        let (arg, found, name) = create_reply_arg-text e sp x.service_name r.has_service in
        let safe : IsHandled e
            (parse_task (print_unformatted sp) (some task) (some uuid) singleshot) =
          parse_task-unsubscribe e (print_unformatted sp) task uuid (ap is_some found) k.0 k.1 n in
        rw (r.has_object, hand_over_calls) (safe, (tt, λ _. tt))

    subscribe_calls-IsSafe :
        (x : Exchange e) (rid : CString) (sp : Json)
        → IsRead e x sp
        → x.parsed.unsubscribe ≡ false
        → IsSafe e (subscribe_calls e x rid)
    unfolding subscribe_calls
    subscribe_calls-IsSafe x rid sp r u =
        let key = exchange_task_key e x in
        let multi = is_parsed_multirespond x.parsed.result in
        let served = task_key-IsServed e x sp r u in
        let w : RespondTableType = if multi then multirespond else singleshot in
        (
          fits multi key (IsServed-IsKey key served (task_key-non_empty x sp r)),
          λ b.
              if-Ok e (IsSafe e) (not multi || b) (appends_task key none none w (awakes_comm over))
                over (parse_task-plain e key w served, tt) tt,
        )

    long-non_empty : (t : CString) → ltb (length t) 1 ≡ false → non_empty (some t) ≡ some t
    unfolding non_empty
    long-non_empty [] h = cc
    long-non_empty (c ∷ t) h = refl

    drop_calls-IsSafe :
        (x : Exchange e) (rid : CString) (sp : Json) (payload : Option Json)
        → IsRead e x sp
        → IsSafe e (drop_calls e x rid payload)
    unfolding drop_calls
    drop_calls-IsSafe x rid sp none r =
        reject_calls-IsSafe rid (status_code multirespond_clear_payload_missing)
    drop_calls-IsSafe x rid sp (some payload) r =
        let asked : CString =
          elim (string_at e.json (e.json.get_object_item payload service_rid_key)) [
            | none ↦ []
            | some rid ↦ rid
          ] in
        elim (Bool-cases (ltb (length asked) 1)) [
          | inl b ↦
              rw b (reject_calls-IsSafe rid (status_code multirespond_clear_payload_rid_missing))
          | inr b ↦ rw b (
            reject_calls-IsSafe rid (status_code multirespond_clear_payload_rid_invalid),
            λ task k. hand_over_calls-IsSafe x rid asked task sp r (long-non_empty asked b) k,
          )
        ]

    by_test-IsSafe :
        (b : Bool) (x y : Script e)
        → (b ≡ true → IsSafe e x)
        → (b ≡ false → IsSafe e y)
        → IsSafe e (if b then x else y)
    by_test-IsSafe true x y h k = h refl
    by_test-IsSafe false x y h k = k refl

    exchange_calls-IsSafe :
        (x : Exchange e) (shm : ProxyChannelShm) (sp : Json)
        → IsRead e x sp
        → IsSafe e (exchange_calls e x shm)
    unfolding exchange_calls
    exchange_calls-IsSafe x shm sp r =
        let valid : IsSafe e (
            if x.parsed.unsubscribe
            then drop_calls e x shm.rid x.payload
            else subscribe_calls e x shm.rid) =
          by_test-IsSafe x.parsed.unsubscribe _ _ (λ _. drop_calls-IsSafe x shm.rid sp x.payload r)
            (subscribe_calls-IsSafe x shm.rid sp r) in
        if-Ok e (IsSafe e) (is_termination shm.state) over _ tt (
          if-Ok e (IsSafe e) (is_some x.service_and_payload && is_done shm.state) _ over
            (if-Ok e (IsSafe e) (is_invalid x.parsed.result) _ _
              (reject_calls-IsSafe shm.rid x.parsed.invalid_status) valid)
            tt)

    unread-IsSafe :
        (x : Exchange e) (shm : ProxyChannelShm)
        → x.service_and_payload ≡ none
        → IsSafe e (exchange_calls e x shm)
    unfolding exchange_calls
    unread-IsSafe x shm n =
        rw (n, exchange_calls) (if-Ok e (IsSafe e) (is_termination shm.state) over over tt tt)

    pub finish_calls-IsSafe :
        (cb : Callbacks e) (calls_of : ChannelCalls e) (read left : ProxyChannelShm)
        → HasServices calls_of
        → IsSafe e (finish_calls e cb calls_of read left)
    unfolding finish_calls
    finish_calls-IsSafe cb calls_of read left services =
        elim (Option-cases
          (proxy_channel_payload_shm_read e calls_of read.rid read.payload_buff_length)) [
            | inl f ↦
                let (shm, x, h, has) = read-none e calls_of read f in
                rw (h, finish_calls) (unread-IsSafe x left has)
            | inr (sp, f) ↦
                let (item, name, i, n) = services read.rid read.payload_buff_length sp f in
                let (shm, x, h, has) = read-some e calls_of read sp item name f i n in
                rw (h, finish_calls)
                  (exchange_calls-IsSafe x left sp
                    (exchange_read-IsRead e calls_of read shm x sp item h has i))
          ]
