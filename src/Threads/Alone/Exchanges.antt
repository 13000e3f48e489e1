-- ===== src/Threads/Alone/Exchanges.antt =====
-- gear/proxychannel.c: the calls at the end of an exchange, with no other thread in between, are the
-- end of that exchange.
use sawang.Prelude.{ℕ, ◌≡◌, refl, some, CString, arith}
use sawang.ReplyQueue.{reply_queue_append_invalid_status}
use sawang.Shm.{ProxyChannelShm}
use sawang.ProxyChannel.{
  proxy_channel_create_unsubscribe_task_key, exchange_unsubscribe, Exchange, reject,
  exchange_subscribe, exchange_finish,
}
use sawang.Proxy.{Proxy, Env}
use sawang.Threads.Channel.{
  hand_over_calls, subscribe_calls, reject_calls, exchange_calls, drop_calls,
}
use sawang.Threads.Calls.{run}

module _ (e : Env) where
  open e.json use {Json}

  reject_calls-run :
      (rid : CString) (status : ℕ) (s : Proxy e)
      → run e (reject_calls e rid status) s ≡ some (reject e s rid status)
  unfolding run reject_calls reject reply_queue_append_invalid_status
  reject_calls-run rid status s = refl

  drop_calls-run :
      (x : Exchange e) (rid : CString) (s : Proxy e)
      → run e (drop_calls e x rid x.payload) s ≡ some (exchange_unsubscribe e s x rid)
  unfolding run drop_calls hand_over_calls exchange_unsubscribe
      proxy_channel_create_unsubscribe_task_key reject_calls reject
      reply_queue_append_invalid_status
  drop_calls-run x rid s = ground arith

  subscribe_calls-run :
      (x : Exchange e) (rid : CString) (s : Proxy e)
      → run e (subscribe_calls e x rid) s ≡ some (exchange_subscribe e s x rid)
  unfolding run subscribe_calls exchange_subscribe
  subscribe_calls-run x rid s = ground arith

  -- The end of an exchange
  pub exchange_calls-run :
      (x : Exchange e) (shm : ProxyChannelShm) (s : Proxy e)
      → run e (exchange_calls e x shm) s ≡ some (exchange_finish e s x shm).0
  unfolding run exchange_calls exchange_finish
  exchange_calls-run x shm s = ground (
    arith,
    drop_calls-run x shm.rid s,
    subscribe_calls-run x shm.rid s,
    reject_calls-run shm.rid x.parsed.invalid_status s,
  )
