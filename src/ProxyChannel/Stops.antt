-- ===== src/ProxyChannel/Stops.antt =====
-- gear/proxychannel.c: the end of the channel thread after `proxy_channel_stop`.
use sawang.Prelude.{
  ◌+◌, ◌≡◌, refl, inl, inr, Option, Bool, not, if◌then◌else◌, true, false, some, none, [], ◌∷◌,
  is_some, arith, Option-cases,
}
use sawang.ProxyChannel.Loop.{
  service_of, proxy_channel_stop, Channel, Point, waiting, in_rest, in_exchange, ended, writes,
  stops, wakes, channel_step, channel_run, wake_at, Service, serve_as, stop_request, request, rest,
  nothing, terminate, end_exchange, start_rest, start_exchange, next_round, serve,
}
use sawang.Shm.{ProxyChannelShm}
use sawang.Proxy.{Env}
use sawang.ProxyChannel.{ChannelCalls, exchange_read}
use sawang.ProxyChannel.Rest.{RestCalls, rest_answer}

module _ (e : Env) (calls : ChannelCalls e) (rest_calls : RestCalls e) where
  abbrev is_waiting : Point e → Bool
  is_waiting waiting = true
  is_waiting _ = false

  abbrev is_over : Point e → Bool
  is_over ended = true
  is_over _ = false

  -- Every request that the thread reads has a service that it can compare.
  abbrev pub CanRead : Type 0
  CanRead = (shm : ProxyChannelShm) → is_some (exchange_read e calls shm) ≡ true

  -- a wake-up after `proxy_channel_stop`
  Stopping : Point e → Channel e → Option (Channel e) → Type 0
  Stopping p s none = ⊥
  Stopping p s (some t) =
      (t.proxy_channel_end ≡ true)
      × ((if is_waiting p then not (is_waiting t.point) else is_over t.point) ≡ true)

  rest-Stopping :
      (s : Channel e) (shm : ProxyChannelShm) (waits : Bool)
      → s.proxy_channel_end ≡ true
      → (let t = record s { shm = shm } in
          Stopping waiting s (
            some (
              if waits
              then record t { point = in_rest; dispatcher_signals = t.dispatcher_signals + 1 }
              else next_round e calls rest_calls t)))
  unfolding Stopping next_round
  rest-Stopping s shm true end = (end, refl)
  rest-Stopping s shm false end = ground (arith, end)

  serve-Stopping :
      (v : Service) (s : Channel e)
      → s.proxy_channel_end ≡ true
      → is_some (exchange_read e calls s.shm) ≡ true
      → Stopping waiting s (serve_as e calls rest_calls v s)
  unfolding serve_as Stopping next_round start_exchange start_rest
  serve-Stopping terminate s end reads = (end, refl)
  serve-Stopping stop_request s end reads = ground (arith, end)
  serve-Stopping nothing s end reads = ground (arith, end)
  serve-Stopping rest s end reads = rest-Stopping s (rest_answer e calls rest_calls s.shm).0 _ end
  serve-Stopping request s end reads = elim (Option-cases (exchange_read e calls s.shm)) [
    | inl n ↦ ground (arith, n, reads)
    | inr (r, n) ↦ rw (n, start_exchange) (end, refl)
  ]

  wake_at-Stopping :
      (p : Point e) (s : Channel e)
      → s.point ≡ p
      → s.proxy_channel_end ≡ true
      → CanRead
      → Stopping p s (wake_at e calls rest_calls p s)
  unfolding wake_at serve serve_as Stopping next_round start_exchange start_rest end_exchange
  wake_at-Stopping waiting s k end reads =
      serve-Stopping (service_of s.shm.state) s end (reads s.shm)
  wake_at-Stopping in_rest s k end reads = ground (arith, end)
  wake_at-Stopping (in_exchange x) s k end reads = ground (arith, end)
  wake_at-Stopping ended s k end reads = ground (arith, k, end)

  Stopping-some :
      (p : Point e) (s : Channel e) (o : Option (Channel e))
      → Stopping p s o
      → (t : Channel e) × (o ≡ some t)
        × (t.proxy_channel_end ≡ true)
        × ((if is_waiting p then not (is_waiting t.point) else is_over t.point) ≡ true)
  unfolding Stopping
  Stopping-some p s none h = absurd h
  Stopping-some p s (some t) h = (t, refl, h.0, h.1)

  waits_no_more :
      (p q : Point e)
      → (if is_waiting p then not (is_waiting q) else is_over q) ≡ true
      → is_waiting q ≡ false
  waits_no_more p waiting h = ground arith
  waits_no_more p in_rest h = refl
  waits_no_more p ended h = refl
  waits_no_more p (in_exchange x) h = refl

  over-ended : (p : Point e) → is_over p ≡ true → p ≡ ended
  over-ended ended h = refl
  over-ended p h = cc

  -- After `proxy_channel_stop` at most two wake-ups end the thread, whatever Gonggo writes to the
  -- shared memory before each of them, and wherever the thread waits, as long as each request that
  -- it reads can be read without a fault.
  pub stop-ended :
      (s : Channel e) (first second : ProxyChannelShm)
      → CanRead
      → (t : Channel e) × (channel_run e calls rest_calls s
            (stops ∷ writes first ∷ wakes ∷ writes second ∷ wakes ∷ [])
          ≡ some t)
        × (t.point ≡ ended)
  unfolding channel_run channel_step proxy_channel_stop
  stop-ended s first second reads =
      let s1 = record (proxy_channel_stop e calls rest_calls s) { shm = first } in
      let (t1, e1, end1, go1) =
        Stopping-some s1.point s1 _ (wake_at-Stopping s1.point s1 refl refl reads) in
      let s2 = record t1 { shm = second } in
      let (t2, e2, end2, go2) =
        Stopping-some s2.point s2 _ (wake_at-Stopping s2.point s2 refl end1 reads) in
      let later = waits_no_more s1.point t1.point go1 in
      (t2, ground (arith, e1, e2), over-ended t2.point (ground (arith, go2, later)))
