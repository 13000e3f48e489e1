-- ===== src/ProxyComm/Thread/Runs.antt =====
-- gear/proxycomm.c: the rule for a property that every event of the communication thread keeps.
use sawang.Prelude.{refl, ◌≡◌, Option, none, some, List, [], ◌∷◌}
use sawang.Proxy.{Env, Proxy, Callbacks}
use sawang.ProxyComm.Thread.{CommThread, CommEvent, waiting, comm_step, comm_events}

module _ (e : Env) (Q : CommThread e → Type 0) where
  -- The property holds of the thread after an event, if the event ends.
  abbrev pub OptHolds : Option (CommThread e) → Type 0
  OptHolds none = Unit {0}
  OptHolds (some t) = Q t

  then-OptHolds :
      (o : Option (CommThread e)) (f : CommThread e → Option (CommThread e))
      → OptHolds o
      → ((t : CommThread e) → Q t → OptHolds (f t))
      → OptHolds (elim o [ none ↦ none | some t ↦ f t ])
  then-OptHolds none f h k = tt
  then-OptHolds (some t) f h k = k t h

  -- a wait keeps what its state does
  pub wait-OptHolds :
      (t : CommThread e) (o : Option (Proxy e))
      → ((s : Proxy e) → o ≡ some s → Q (record t { phase = waiting; proxy = s }))
      → OptHolds (elim o [ none ↦ none | some s ↦ some (record t { phase = waiting; proxy = s }) ])
  wait-OptHolds t none h = tt
  wait-OptHolds t (some s) h = h s refl

  pub events-OptHolds :
      (cb : Callbacks e)
      → ((t : CommThread e) (x : CommEvent) → Q t → OptHolds (comm_step e cb t x))
      → (xs : List CommEvent) (t : CommThread e) → Q t
      → OptHolds (comm_events e cb t xs)
  unfolding comm_events
  events-OptHolds cb step [] t h = h
  events-OptHolds cb step (x ∷ xs) t h =
      then-OptHolds (comm_step e cb t x) (λ u. comm_events e cb u xs) (step t x h)
        (events-OptHolds cb step xs)
