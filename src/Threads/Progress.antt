-- ===== src/Threads/Progress.antt =====
-- The locks of the threads do not block one another for good: the channel thread may wait for the lock
-- of the communication thread, and this for that of the subscribe thread, but none the other way.
use sawang.Prelude.{
  ◌≡◌, refl, subst, Bool, true, false, not, ◌||◌, List, arith, Bool-cases, inl, inr,
}
use sawang.Threads.Machine.{steps-Kept, can_lock, started_system, steps, can}
use sawang.Threads.System.{
  is_awake, comm_holds, is_over, can_call, returning, taking, subscribe_returns, subscribe_takes,
  exchanging, subscribe_locks, subscribe_holds, comm_takes, SubscribeAt, comm_locks, comm, Caller,
  subscribe_ends, System, calls, Event,
}
use sawang.Threads.Calls.{is_fault, fault, over, awakes_subscribe, awakes_comm, Script}
use sawang.ProxySubscribe.{Subscribe, Attempt}
use sawang.Proxy.{Proxy, Callbacks, Env}
use sawang.ProxyChannel.{ChannelCalls}
use sawang.Threads.Quiet.{IsUnsignalling, Quiet, move-Quiet}

module _ (e : Env) where
  -- What a thread does by itself, or Gonggo by its answer to an exchange: no new request, no new
  -- answer, no stop, and no wait that ends without a signal.
  abbrev pub goes_on : Event e → Bool
  goes_on (calls c) = true
  goes_on comm_locks = true
  goes_on comm_takes = true
  goes_on subscribe_locks = true
  goes_on subscribe_takes = true
  goes_on subscribe_returns = true
  goes_on (subscribe_ends a) = true
  goes_on _ = false

  module _ (cb : Callbacks e) (calls_of : ChannelCalls e) where
    Moves : System e → Type 0
    Moves s = (x : Event e) × (goes_on x ≡ true) × (can e cb calls_of s x ≡ true)

    -- Where the subscribe thread has its lock, it goes on, or Gonggo does.
    subscribe-goes :
        (a : Attempt) (at : SubscribeAt) (s : System e)
        → s.subscribe_at ≡ at
        → subscribe_holds at ≡ true
        → Moves s
    unfolding can Moves
    subscribe-goes a taking s k h = (subscribe_takes, refl, ground (arith, k))
    subscribe-goes a returning s k h = (subscribe_returns, refl, ground (arith, k))
    subscribe-goes a (exchanging t) s k h = (subscribe_ends a, refl, ground (arith, k))
    subscribe-goes a SubscribeAt.asleep s k h = cc
    subscribe-goes a SubscribeAt.awake s k h = cc
    subscribe-goes a SubscribeAt.gone s k h = cc

    calls-goes : (s : System e) (c : Caller) → can_call e s (s.left c) ≡ true → Moves s
    unfolding can Moves
    calls-goes s c h = (calls c, refl, h)

    -- A program whose next call has no lock to wait for, or finds it free.
    program-goes :
        (s : System e) (c : Caller) (k : Script e)
        → s.left c ≡ k
        → is_over e k ≡ false
        → is_fault e k ≡ false
        → (comm_holds s.comm_at ≡ true → Moves s)
        → (subscribe_holds s.subscribe_at ≡ true → Moves s)
        → Moves s
    program-goes s c over l o f comm_go subscribe_go = cc
    program-goes s c fault l o f comm_go subscribe_go = cc
    program-goes s c (awakes_comm k) l o f comm_go subscribe_go =
        elim (Bool-cases (comm_holds s.comm_at)) [
          | inl b ↦ comm_go b
          | inr b ↦ calls-goes s c (ground (arith, l, b))
        ]
    program-goes s c (awakes_subscribe k) l o f comm_go subscribe_go =
        elim (Bool-cases (subscribe_holds s.subscribe_at)) [
          | inl b ↦ subscribe_go b
          | inr b ↦ calls-goes s c (ground (arith, l, b))
        ]
    program-goes s c k l o f comm_go subscribe_go = calls-goes s c (ground (arith, l))

    -- Where the communication thread has its lock, it goes on, or the subscribe thread or Gonggo does.
    comm-goes :
        (a : Attempt) (s : System e) (k : Script e)
        → s.left comm ≡ k
        → IsUnsignalling e k
        → is_fault e k ≡ false
        → comm_holds s.comm_at ≡ true
        → Moves s
    unfolding can Moves
    comm-goes a s over l q f holds = (comm_takes, refl, ground (arith, l))
    comm-goes a s (awakes_comm k) l q f holds = absurd q
    comm-goes a s (awakes_subscribe k) l q f holds =
        elim (Bool-cases (subscribe_holds s.subscribe_at)) [
          | inl b ↦ subscribe-goes a s.subscribe_at s refl b
          | inr b ↦ calls-goes s comm (ground (arith, l, b))
        ]
    comm-goes a s fault l q f holds = cc
    comm-goes a s k l q f holds = calls-goes s comm (ground (arith, l))

    -- A thread with calls left, one with a lock, and one that wants its own lock.
    abbrev pub has_work : System e → Caller → Bool
    has_work s c =
        not (is_over e (s.left c))
        || (comm_holds s.comm_at
            || (subscribe_holds s.subscribe_at
                || (is_awake s.comm_at || can_lock e cb calls_of s.subscribe_at)))

    -- The threads do not block one another, however they are interleaved. After any events, while a
    -- thread has calls left, holds its lock or wants its lock, some thread can go on, or Gonggo can end
    -- an exchange of the subscribe thread: by itself, with no new request, answer or stop, and with no
    -- wait that ends without a signal. No thread has faulted.
    pub steps-go_on :
        (a : Attempt) (xs : List (Event e)) (proxy : Proxy e) (subscribe : Subscribe e.reply)
        (t : System e) (c : Caller)
        → steps e cb calls_of (started_system e cb calls_of proxy subscribe) xs ≡ t
        → ((d : Caller) → is_fault e (t.left d) ≡ false)
        → has_work t c ≡ true
        → (x : Event e) × (goes_on x ≡ true) × (can e cb calls_of t x ≡ true)
    unfolding can Moves
    steps-go_on a xs proxy subscribe t c reached unfaulted work =
        let quiet : Quiet e cb calls_of t = subst (Quiet e cb calls_of) reached (
          steps-Kept e cb calls_of (Quiet e cb calls_of) (λ s x _ h. move-Quiet e cb calls_of s x h)
            xs (started_system e cb calls_of proxy subscribe) tt) in
        let comm_go = comm-goes a t (t.left comm) refl quiet (unfaulted comm) in
        let subscribe_go = subscribe-goes a t.subscribe_at t refl in
        elim (Bool-cases (is_over e (t.left c))) [
          | inr b ↦ program-goes t c (t.left c) refl b (unfaulted c) comm_go subscribe_go
          | inl b ↦ elim (Bool-cases (comm_holds t.comm_at)) [
            | inl h ↦ comm_go h
            | inr h ↦ elim (Bool-cases (subscribe_holds t.subscribe_at)) [
              | inl k ↦ subscribe_go k
              | inr k ↦ elim (Bool-cases (is_awake t.comm_at)) [
                | inl w ↦ (comm_locks, refl, w)
                | inr w ↦ (subscribe_locks, refl, ground (arith, work))
              ]
            ]
          ]
        ]
