-- ===== src/ProxyChannel/Loop.antt =====
-- gear/proxychannel.c: the loop of the channel thread, as a machine that moves when the thread is
-- woken up, and what Gonggo and the main thread do while it waits.
use sawang.Prelude.{ℕ, ◌+◌, Bool, true, Option, none, some, List, [], ◌∷◌, if◌then◌else◌}
use sawang.Shm.{ProxyChannelState, ProxyChannelShm}
use sawang.Proxy.{Env, Proxy}
use sawang.ProxyChannel.{ChannelCalls, Exchange, exchange_read, exchange_finish}
use sawang.ProxyChannel.Rest.{RestCalls, rest_answer}

-- CHANNEL_STOP_REQUEST, CHANNEL_REQUEST and CHANNEL_REST are served; every other state is idle.
pub data Service : Type 0 where
  stop_request request rest nothing terminate : Service

unfoldable pub service_of : ProxyChannelState → Service
service_of ProxyChannelState.termination = terminate
service_of ProxyChannelState.stop_request = stop_request
service_of ProxyChannelState.request = request
service_of ProxyChannelState.rest = rest
service_of _ = nothing

unfoldable pub proxy_channel_shm_idle : ProxyChannelShm → ProxyChannelShm
proxy_channel_shm_idle shm = record shm {
  state = ProxyChannelState.idle;
  rid = [];
  payload_buff_length = 0;
}

module _ (e : Env) where
  -- where the thread waits for `proxy_wakeup`, or that it has ended
  pub data Point : Type 0 where
    waiting in_rest ended : Point
    in_exchange : Exchange e → Point

  pub record Channel : Type 0 where
    pub shm : ProxyChannelShm
    pub proxy : Proxy e
    pub point : Point
    pub proxy_channel_end : Bool
    pub proxy_exit : Bool
    pub idle_signals : ℕ
    pub dispatcher_signals : ℕ

  module _ (calls : ChannelCalls e) (rest_calls : RestCalls e) where
    -- the loop's test and its body up to the wait
    unfoldable pub next_round : Channel → Channel
    unfolding proxy_channel_shm_idle
    next_round s = if s.proxy_channel_end then record s { point = ended } else record s {
      shm = proxy_channel_shm_idle s.shm;
      idle_signals = s.idle_signals + 1;
      point = waiting;
    }

    unfoldable pub start_exchange : Channel → Option Channel
    start_exchange s = elim (exchange_read e calls s.shm) [
      | none ↦ none
      | some (shm, x) ↦ some (record s {
        shm = shm;
        point = in_exchange x;
        dispatcher_signals = s.dispatcher_signals + 1;
      })
    ]

    unfoldable pub start_rest : Channel → Channel
    unfolding next_round
    start_rest s =
        let (shm, waits) = rest_answer e calls rest_calls s.shm in
        let t = record s { shm = shm } in
        if waits
        then record t { point = in_rest; dispatcher_signals = t.dispatcher_signals + 1 }
        else next_round t

    -- the branches after the wait of the loop
    unfoldable pub serve_as : Service → Channel → Option Channel
    unfolding next_round start_exchange start_rest
    serve_as terminate s = some (record s { point = ended })
    serve_as stop_request s = some (next_round (record s { proxy_exit = true }))
    serve_as request s = start_exchange s
    serve_as rest s = some (start_rest s)
    serve_as nothing s = some (next_round s)

    unfoldable pub serve : Channel → Option Channel
    unfolding service_of serve_as
    serve s = serve_as (service_of s.shm.state) s

    unfoldable pub end_exchange : Channel → Exchange e → Channel
    unfolding next_round
    end_exchange s x =
        let (proxy, alive) = exchange_finish e s.proxy x s.shm in
        let t = record s { proxy = proxy } in
        if alive then next_round t else record t { point = ended }

    -- the thread is woken up, and runs to its next wait or its end
    unfoldable pub wake_at : Point → Channel → Option Channel
    unfolding serve end_exchange
    wake_at waiting s = serve s
    wake_at (in_exchange x) s = some (end_exchange s x)
    wake_at in_rest s = some (next_round s)
    wake_at ended s = some s

    -- What happens: the dispatcher writes to the shared memory, the main thread calls
    -- `proxy_channel_stop`, the thread is woken up, or it is woken up and finds Gonggo dead.
    pub data ChannelEvent : Type 0 where
      writes : ProxyChannelShm → ChannelEvent
      stops wakes owner_dies : ChannelEvent

    unfoldable pub proxy_channel_stop : Channel → Channel
    proxy_channel_stop s = record s {
      shm = record s.shm { state = ProxyChannelState.termination };
      proxy_channel_end = true;
    }

    unfoldable pub channel_step : Channel → ChannelEvent → Option Channel
    unfolding wake_at proxy_channel_stop
    channel_step s (writes shm) = some (record s { shm = shm })
    channel_step s stops = some (proxy_channel_stop s)
    channel_step s wakes = wake_at s.point s
    channel_step s owner_dies = some (record s { point = ended })

    unfoldable pub channel_run : Channel → List ChannelEvent → Option Channel
    unfolding channel_step
    channel_run s [] = some s
    channel_run s (x ∷ xs) = elim (channel_step s x) [ none ↦ none | some t ↦ channel_run t xs ]
