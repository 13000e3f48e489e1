-- ===== src/ProxyComm/Thread/Life.antt =====
-- gear/proxycomm.c: the callbacks that the communication thread calls over its life.
use sawang.Prelude.{
  length, suc, arith, subst, ◌≡◌, refl, sym, ap, ◌∙◌, true, Option, some, List, [], ◌∷◌, ◌++◌,
  if◌then◌else◌, All, append-nil, append_assoc, Bool-cases, inl, inr,
}
use sawang.ProxyComm.Thread.Runs.{wait-OptHolds, events-OptHolds, OptHolds}
use sawang.ProxyComm.Thread.{
  comm_created, stops, awakes, resumes, begins, appends, signalled, proxy_comm_stop, waiting,
  proxy_comm_awake, entering, ended, CommEvent, created, comm_step, comm_events, is_running,
  comm_begin, signal, comm_pass, comm_finish, comm_begins, CommThread, CommPhase,
}
use sawang.ProxyComm.Queue.{parse_tasks}
use sawang.ProxyComm.Loop.{comm_drain}
use sawang.ProxyComm.Rules.{drain-OptAll, OptAll, is_work, IsKept}
use sawang.Proxy.{ProxyReplyArg, Env, Proxy, Callback, started, stopped, Callbacks}
use sawang.ProxyComm.{send_reply, proxy_comm_reply}

append-All {ℓ κ} :
    {A : Type ℓ} (P : A → Type κ) (xs ys : List A) → All P xs → All P ys → All P (xs ++ ys)
append-All P [] ys h k = k
append-All P (x ∷ xs) ys h k = (h.0, append-All P xs ys h.1 k)

module _ (e : Env) where
  abbrev IsWork : Callback e → Type 0
  IsWork c = is_work e c ≡ true

  -- The calls since a trace, which are the thread's own work.
  abbrev HasWorked : List (Callback e) → Proxy e → Type 0
  HasWorked base s = (ws : List (Callback e)) × All IsWork ws × (s.called ≡ base ++ ws)

  worked_more :
      (base : List (Callback e)) (s : Proxy e) (c : Callback e)
      → IsWork c
      → HasWorked base s
      → HasWorked base (record s { called = s.called ++ (c ∷ []) })
  worked_more base s c w (ws, h, k) = (
    ws ++ (c ∷ []),
    append-All IsWork ws (c ∷ []) h (w, tt),
    ap (λ x. x ++ (c ∷ [])) k ∙ append_assoc base ws (c ∷ []),
  )

  reply-called :
      (s : Proxy e) (arg : ProxyReplyArg e) (headers : e.json.Json) (payload : Option e.json.Json)
      → (proxy_comm_reply e s arg headers payload).called ≡ s.called
  unfolding proxy_comm_reply send_reply
  reply-called s arg headers payload = ground arith

  worked-IsKept : (base : List (Callback e)) → IsKept e (HasWorked base)
  worked-IsKept base = record {
    on_reply = λ s arg headers payload (ws, h, k). (ws, h, reply-called s arg headers payload ∙ k);
    on_drop = λ s task uuid v. v;
    on_call = worked_more base;
    on_pop = λ s v. v;
  }

  module _ (cb : Callbacks e) where
    -- the calls of a life: the start, work, and the end once the loop is left
    abbrev starts : List (Callback e)
    starts = if cb.has_start then started ∷ [] else []

    abbrev stops_called : List (Callback e)
    stops_called = if cb.has_stop then stopped ∷ [] else []

    abbrev LifeOf : CommPhase → List (Callback e) → Type 0
    LifeOf created calls = calls ≡ []
    LifeOf ended calls =
        (ws : List (Callback e)) × All IsWork ws × (calls ≡ (starts ++ ws) ++ stops_called)
    LifeOf _ calls = (ws : List (Callback e)) × All IsWork ws × (calls ≡ starts ++ ws)

    -- Before the thread begins there is no call. From then on there is that of ProxyStart, then
    -- only ProxyRun and ProxyMultiRespondClear, and that of ProxyStop is the last one, made where
    -- the thread ends. ProxyStart and ProxyStop are there if they are given.
    abbrev pub IsLife : CommThread e → Type 0
    IsLife t = LifeOf t.phase t.proxy.called

    signal-LifeOf : (p : CommPhase) (cs : List (Callback e)) → LifeOf p cs → LifeOf (signal p) cs
    unfolding signal
    signal-LifeOf created cs h = h
    signal-LifeOf entering cs h = h
    signal-LifeOf waiting cs h = h
    signal-LifeOf signalled cs h = h
    signal-LifeOf ended cs h = h

    begin-IsLife :
        (p : CommPhase) (t : CommThread e)
        → LifeOf p t.proxy.called
        → t.phase ≡ p
        → IsLife (comm_begins e cb p t)
    unfolding comm_begins comm_begin
    begin-IsLife created t h k = ([], tt, ground (arith, h))
    begin-IsLife entering t h k = subst (λ p. LifeOf p t.proxy.called) (sym k) h
    begin-IsLife waiting t h k = subst (λ p. LifeOf p t.proxy.called) (sym k) h
    begin-IsLife signalled t h k = subst (λ p. LifeOf p t.proxy.called) (sym k) h
    begin-IsLife ended t h k = subst (λ p. LifeOf p t.proxy.called) (sym k) h

    running-LifeOf :
        (p : CommPhase) (cs : List (Callback e))
        → is_running p ≡ true
        → LifeOf p cs
        → (ws : List (Callback e)) × All IsWork ws × (cs ≡ starts ++ ws)
    running-LifeOf created cs r h = cc
    running-LifeOf entering cs r h = h
    running-LifeOf waiting cs r h = h
    running-LifeOf signalled cs r h = h
    running-LifeOf ended cs r h = cc

    abbrev OptLife : Option (CommThread e) → Type 0
    OptLife o = OptHolds e IsLife o

    finish-IsLife : (t : CommThread e) → HasWorked starts t.proxy → IsLife (comm_finish e cb t)
    unfolding comm_finish
    finish-IsLife t (ws, h, k) = (ws, h, ground (arith, k, append-nil (starts ++ ws)))

    pass-OptLife : (t : CommThread e) → HasWorked starts t.proxy → OptLife (comm_pass e cb t)
    unfolding comm_pass
    pass-OptLife t w = elim (Bool-cases t.proxy_comm_end) [
      | inl b ↦ rw b (finish-IsLife t w)
      | inr b ↦
          let out = comm_drain e cb (suc (length (parse_tasks e t.proxy.parse_queue))) t.proxy in
          let worked : OptAll e (HasWorked starts) out =
            drain-OptAll e (worked-IsKept starts) cb _ t.proxy w in
          rw b (wait-OptHolds e IsLife t out (λ s o. subst (OptAll e (HasWorked starts)) o worked))
    ]

    step-OptLife : (t : CommThread e) (x : CommEvent) → IsLife t → OptLife (comm_step e cb t x)
    unfolding comm_step proxy_comm_awake proxy_comm_stop
    step-OptLife t begins h = begin-IsLife t.phase t h refl
    step-OptLife t resumes h = elim (Bool-cases (is_running t.phase)) [
      | inl r ↦ rw r (pass-OptLife t (running-LifeOf t.phase t.proxy.called r h))
      | inr r ↦ rw r h
    ]
    step-OptLife t awakes h = signal-LifeOf t.phase t.proxy.called h
    step-OptLife t stops h = signal-LifeOf t.phase t.proxy.called h
    step-OptLife t (appends task_key unsubscribe_task_key unsubscribe_uuid type) h = h

    -- Whatever the threads do, in whatever order: until the communication thread begins, no callback
    -- has been called. From then on the calls are that of ProxyStart, if it is given, and then only
    -- calls of ProxyRun and ProxyMultiRespondClear; where the thread has ended, that of ProxyStop, if
    -- it is given, comes last. The thread's state at its creation has no calls.
    pub events-IsLife :
        (s : Proxy e) (xs : List CommEvent) (u : CommThread e)
        → s.called ≡ []
        → comm_events e cb (comm_created e s) xs ≡ some u
        → IsLife u
    events-IsLife s xs u h r =
        subst OptLife r (events-OptHolds e IsLife cb step-OptLife xs (comm_created e s) h)
