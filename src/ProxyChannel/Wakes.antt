-- ===== src/ProxyChannel/Wakes.antt =====
-- gear/proxychannel.c: what a wake-up of the channel thread comes to.
use sawang.Prelude.{◌+◌, ◌≡◌, ◌⊎◌, Bool, true, false, [], is_some}
use sawang.ProxyChannel.Loop.{
  Channel, Point, waiting, in_rest, in_exchange, ended, stop_request, request, rest,
}
use sawang.Shm.{ProxyChannelState}
use sawang.Proxy.{Env, Proxy}
use sawang.ProxyChannel.{ChannelCalls, Exchange, is_termination}
use sawang.ProxyChannel.Rest.{RestCalls}

module _ (e : Env) (calls : ChannelCalls e) (rest_calls : RestCalls e) where
  -- The thread has ended, and has signalled nobody.
  abbrev pub HasEnded : Channel e → Channel e → Type 0
  HasEnded s t =
      (t.point ≡ ended)
      × (t.idle_signals ≡ s.idle_signals)
      × (t.dispatcher_signals ≡ s.dispatcher_signals)

  -- The next round of the loop: it ends the thread after `proxy_channel_stop`. Otherwise the thread
  -- has signalled `idle` and waits, with the shared memory idle and no request in it.
  abbrev pub RoundsIf : Bool → Channel e → Channel e → Type 0
  RoundsIf true s t = HasEnded s t
  RoundsIf false s t =
      (t.point ≡ waiting)
      × (t.idle_signals ≡ s.idle_signals + 1)
      × (t.dispatcher_signals ≡ s.dispatcher_signals)
      × (t.shm.state ≡ ProxyChannelState.idle)
      × (t.shm.rid ≡ [])

  abbrev pub Rounds : Channel e → Channel e → Type 0
  Rounds s t = RoundsIf s.proxy_channel_end s t

  -- The dispatcher has been signalled once, and the thread waits in an exchange.
  abbrev pub Reads : Channel e → Channel e → Type 0
  Reads s t =
      (x : Exchange e) × (t.point ≡ in_exchange x)
      × (t.dispatcher_signals ≡ s.dispatcher_signals + 1)
      × (t.idle_signals ≡ s.idle_signals)
      × (((t.shm.state ≡ ProxyChannelState.acknowledged) × (is_some x.service_and_payload ≡ true))
          ⊎ ((t.shm.state ≡ ProxyChannelState.fails) × (is_some x.service_and_payload ≡ false)))

  -- The dispatcher has been signalled once, and the thread waits with a REST answer.
  abbrev pub Responds : Channel e → Channel e → Type 0
  Responds s t =
      (t.point ≡ in_rest)
      × (t.dispatcher_signals ≡ s.dispatcher_signals + 1)
      × (t.idle_signals ≡ s.idle_signals)
      × (t.shm.state ≡ ProxyChannelState.rest_respond)

  -- What a wake-up between two exchanges comes to, by the state that Gonggo has set.
  abbrev pub Served : ProxyChannelState → Channel e → Channel e → Type 0
  Served ProxyChannelState.termination s t = HasEnded s t
  Served ProxyChannelState.stop_request s t = (t.proxy_exit ≡ true) × Rounds s t
  Served ProxyChannelState.request s t = Reads s t
  Served ProxyChannelState.rest s t = Responds s t ⊎ Rounds s t
  Served _ s t = (t.proxy_exit ≡ s.proxy_exit) × Rounds s t

  -- What the end of an exchange comes to, by whether the channel is terminated.
  abbrev pub Finished : Bool → Channel e → Channel e → Type 0
  Finished true s t = (t.proxy ≡ s.proxy) × HasEnded s t
  Finished false s t = Rounds s t

  -- What a wake-up comes to, by the place where the thread waits.
  abbrev pub Woken : Point e → Channel e → Channel e → Type 0
  Woken waiting s t = (t.proxy ≡ s.proxy) × Served s.shm.state s t
  Woken in_rest s t = (t.proxy ≡ s.proxy) × Rounds s t
  Woken (in_exchange x) s t =
      ((t.proxy ≡ s.proxy)
        ⊎ ((s.shm.state ≡ ProxyChannelState.done) × (is_some x.service_and_payload ≡ true)))
      × Finished (is_termination s.shm.state) s t
  Woken ended s t = t ≡ s
