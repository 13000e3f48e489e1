-- ===== src/ProxyComm/Thread/Stop.antt =====
-- gear/proxycomm.c: how the communication thread ends.
use sawang.Prelude.{
  arith, length, suc, subst, inr, inl, Bool-cases, true, false, ◌≡◌, some, List, Bool, Option, refl,
}
use sawang.ProxyComm.Thread.Runs.{events-OptHolds, wait-OptHolds, OptHolds}
use sawang.ProxyComm.Thread.{
  stops, awakes, begins, appends, ended, signalled, resumes, waiting, is_waiting, entering,
  comm_created, proxy_comm_stop, is_running, created, CommEvent, proxy_comm_awake, comm_finish,
  comm_begin, signal, comm_step, comm_pass, comm_events, comm_begins, CommThread, CommPhase,
}
use sawang.ProxyComm.Queue.{parse_tasks}
use sawang.ProxyComm.Loop.{comm_drain}
use sawang.Proxy.{Proxy, Callbacks, Env}

module _ (e : Env) (cb : Callbacks e) where
  -- A thread that has begun has said so, and one that is to end is not left waiting.
  abbrev IsSeen : CommPhase → Bool → Bool → Type 0
  IsSeen created began end = began ≡ false
  IsSeen waiting began end = (began ≡ true) × (end ≡ false)
  IsSeen _ began end = began ≡ true

  abbrev SeenIn : CommThread e → Type 0
  SeenIn t = IsSeen t.phase t.proxy_comm_started t.proxy_comm_end

  abbrev OptSeen : Option (CommThread e) → Type 0
  OptSeen o = OptHolds e SeenIn o

  signal-IsSeen : (p : CommPhase) (b c d : Bool) → IsSeen p b c → IsSeen (signal p) b d
  unfolding signal
  signal-IsSeen created b c d h = h
  signal-IsSeen entering b c d h = h
  signal-IsSeen waiting b c d h = h.0
  signal-IsSeen signalled b c d h = h
  signal-IsSeen ended b c d h = h

  begin-SeenIn :
      (p : CommPhase) (t : CommThread e) → t.phase ≡ p → SeenIn t → SeenIn (comm_begins e cb p t)
  unfolding comm_begins comm_begin
  begin-SeenIn created t k h = refl
  begin-SeenIn entering t k h = h
  begin-SeenIn waiting t k h = h
  begin-SeenIn signalled t k h = h
  begin-SeenIn ended t k h = h

  running-started : (p : CommPhase) (b c : Bool) → is_running p ≡ true → IsSeen p b c → b ≡ true
  running-started created b c r h = cc
  running-started entering b c r h = h
  running-started waiting b c r h = h.0
  running-started signalled b c r h = h
  running-started ended b c r h = cc

  pass-OptSeen : (t : CommThread e) → t.proxy_comm_started ≡ true → OptSeen (comm_pass e cb t)
  unfolding comm_pass comm_finish
  pass-OptSeen t h = elim (Bool-cases t.proxy_comm_end) [
    | inl b ↦ rw b h
    | inr b ↦ rw b (
        wait-OptHolds e SeenIn t
          (comm_drain e cb (suc (length (parse_tasks e t.proxy.parse_queue))) t.proxy)
          (λ s o. (h, b)))
  ]

  step-OptSeen : (t : CommThread e) (x : CommEvent) → SeenIn t → OptSeen (comm_step e cb t x)
  unfolding comm_step proxy_comm_awake proxy_comm_stop
  step-OptSeen t begins h = begin-SeenIn t.phase t refl h
  step-OptSeen t resumes h = elim (Bool-cases (is_running t.phase)) [
    | inl r ↦ rw r (pass-OptSeen t (running-started t.phase _ _ r h))
    | inr r ↦ rw r h
  ]
  step-OptSeen t awakes h = signal-IsSeen t.phase _ _ _ h
  step-OptSeen t stops h = signal-IsSeen t.phase _ _ _ h
  step-OptSeen t (appends task_key unsubscribe_task_key unsubscribe_uuid type) h = h

  resume-ended :
      (p : CommPhase) (t : CommThread e)
      → t.phase ≡ p
      → IsSeen p t.proxy_comm_started t.proxy_comm_end
      → t.proxy_comm_started ≡ true
      → t.proxy_comm_end ≡ true
      → (is_waiting p ≡ false)
        × (v : CommThread e) × (comm_step e cb t resumes ≡ some v)
        × (v.phase ≡ ended)
  unfolding comm_step comm_pass comm_finish
  resume-ended created t k h b c = absurd (cc (h, b))
  resume-ended entering t k h b c = (refl, comm_finish e cb t, ground (arith, k, c), refl)
  resume-ended waiting t k h b c = absurd (cc (h.1, c))
  resume-ended signalled t k h b c = (refl, comm_finish e cb t, ground (arith, k, c), refl)
  resume-ended ended t k h b c = (refl, t, ground (arith, k), k)

  -- A stop is not lost, whatever the threads did before and whenever it came: once the communication
  -- thread has begun and `proxy_comm_stop` has been called, the thread is not in a wait that nobody
  -- signalled, and when it gets its lock it ends.
  pub stop-IsSeen :
      (s : Proxy e) (xs : List CommEvent) (u : CommThread e)
      → comm_events e cb (comm_created e s) xs ≡ some u
      → u.proxy_comm_started ≡ true
      → u.proxy_comm_end ≡ true
      → (is_waiting u.phase ≡ false)
        × (v : CommThread e) × (comm_step e cb u resumes ≡ some v)
        × (v.phase ≡ ended)
  stop-IsSeen s xs u r b c =
      resume-ended u.phase u refl
        (subst OptSeen r (events-OptHolds e SeenIn cb step-OptSeen xs (comm_created e s) refl)) b c
