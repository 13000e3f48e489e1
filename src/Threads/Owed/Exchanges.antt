-- ===== src/Threads/Owed/Exchanges.antt =====
-- gear/proxychannel.c: the calls at the end of an exchange signal whom they have something for.
use sawang.Prelude.{
  ℕ, not, ◌&&◌, ◌||◌, Option, none, some, [], CString, length, ltb, is_some, Option-cases, inl, inr,
}
use sawang.ProxyChannel.{
  is_invalid, is_done, is_termination, is_parsed_multirespond, exchange_read, ChannelCalls,
  Exchange,
}
use sawang.Define.{
  multirespond_clear_payload_rid_missing, service_rid_key, multirespond_clear_payload_rid_invalid,
  multirespond_clear_payload_missing, status_code,
}
use sawang.Threads.Owed.{IsPaying}
use sawang.Threads.Calls.{over}
use sawang.Threads.Closed.{if-Ok}
use sawang.Shm.{ProxyChannelShm}
use sawang.Proxy.{string_at, Callbacks, Env}
use sawang.Threads.Machine.{finish_calls}
use sawang.Threads.Channel.{
  subscribe_calls, reject_calls, hand_over_calls, exchange_calls, drop_calls,
}

module _ (e : Env) where
  reject_calls-IsPaying : (rid : CString) (status : ℕ) → IsPaying e (reject_calls e rid status)
  unfolding reject_calls
  reject_calls-IsPaying rid status = (tt, tt)

  found-IsPaying :
      (x : Exchange e) (rid asked : CString) (found : Option CString)
      → IsPaying e (elim found [
        | none ↦ reject_calls e rid (status_code multirespond_clear_payload_rid_invalid)
        | some task_key ↦ hand_over_calls e x rid asked task_key
      ])
  unfolding hand_over_calls
  found-IsPaying x rid asked none =
      reject_calls-IsPaying rid (status_code multirespond_clear_payload_rid_invalid)
  found-IsPaying x rid asked (some task) = (λ _. tt, λ _. tt)

  drop_calls-IsPaying :
      (x : Exchange e) (rid : CString) (payload : Option e.json.Json)
      → IsPaying e (drop_calls e x rid payload)
  unfolding drop_calls
  drop_calls-IsPaying x rid none =
      reject_calls-IsPaying rid (status_code multirespond_clear_payload_missing)
  drop_calls-IsPaying x rid (some payload) =
      let asked : CString =
        elim (string_at e.json (e.json.get_object_item payload service_rid_key)) [
          | none ↦ []
          | some rid ↦ rid
        ] in
      if-Ok e (IsPaying e) (ltb (length asked) 1) _ _
        (reject_calls-IsPaying rid (status_code multirespond_clear_payload_rid_missing))
        (found-IsPaying x rid asked)

  subscribe_calls-IsPaying : (x : Exchange e) (rid : CString) → IsPaying e (subscribe_calls e x rid)
  unfolding subscribe_calls
  subscribe_calls-IsPaying x rid = λ b.
      if-Ok e (IsPaying e) (not (is_parsed_multirespond x.parsed.result) || b) _ over (tt, tt) tt

  exchange_calls-IsPaying :
      (x : Exchange e) (shm : ProxyChannelShm) → IsPaying e (exchange_calls e x shm)
  unfolding exchange_calls
  exchange_calls-IsPaying x shm = if-Ok e (IsPaying e) (is_termination shm.state) over _ tt (
      if-Ok e (IsPaying e) (is_some x.service_and_payload && is_done shm.state) _ over
        (if-Ok e (IsPaying e) (is_invalid x.parsed.result) _ _
          (reject_calls-IsPaying shm.rid x.parsed.invalid_status)
          (if-Ok e (IsPaying e) x.parsed.unsubscribe _ _ (drop_calls-IsPaying x shm.rid x.payload)
            (subscribe_calls-IsPaying x shm.rid)))
        tt)

  pub finish_calls-IsPaying :
      (cb : Callbacks e) (calls_of : ChannelCalls e) (read left : ProxyChannelShm)
      → IsPaying e (finish_calls e cb calls_of read left)
  unfolding finish_calls
  finish_calls-IsPaying cb calls_of read left =
      elim (Option-cases (exchange_read e calls_of read)) [
        | inl f ↦ rw (f, finish_calls) tt
        | inr (r, f) ↦ rw (f, finish_calls) (exchange_calls-IsPaying r.1 left)
      ]
