-- ===== src/Work/Released.antt =====
-- gear/work.c: the program gives back what it holds.
use sawang.Prelude.{
  OnSome, if-split, ◌≡◌, refl, sym, subst, Bool, true, false, ◌&&◌, none, some, List, [], ◌∷◌,
  if◌then◌else◌, is_some, arith, Bool-cases, inl, inr,
}
use sawang.Work.Owns.{no_threads, alive_create-Owns, Owns}
use sawang.Work.Contexts.{start_contexts-Ends, returns-IsReleased, IsIdle}
use sawang.Work.{
  waits, Outcome, error_termhandler, proxy_uuid_init, proxy_log_context_init, create_tables,
  error_start, returns, clean_up, Pause, World, Program,
}
use sawang.Work.Ledger.{safe, runs, made}
use sawang.Posix.Counts.{held}
use sawang.Posix.{log_lock, uuid_lock, handles_term, alive_shm, no_context}
use sawang.Work.Main.{work, start_resources, start_contexts}
use sawang.Work.Starts.{Ends}
use sawang.Proxy.{Env}

module _ (e : Env) (g : Program e) where
  -- before `work` is called
  abbrev pub IsNew : World e → Type 0
  IsNew w =
      (w.calls ≡ [])
      × IsIdle e g w
      × (w.watch.gonggo_alive_shm ≡ false)
      × (w.watch.channel ≡ no_context)
      × (w.watch.subscribe ≡ no_context)
      × (w.watch.alive ≡ no_context)
      × (w.has_proxy_log_lock ≡ false)
      × (w.proxy_uuid_has_lock ≡ false)

  alive_made-Ends :
      (xs : List Pause) (w : World e) (ok : Bool)
      → Owns e false no_threads w
      → IsIdle e g w
      → w.watch.gonggo_alive_shm ≡ false
      → w.watch.subscribe.path ≡ none
      → w.watch.channel.path ≡ none
      → is_some w.watch.alive.path ≡ ok
      → OnSome
          (Ends e g)
          (if ok then start_contexts e g xs w else some (returns error_start (clean_up e w)))
  alive_made-Ends xs w true o i f s c a = start_contexts-Ends e g xs w (o, i, a) f s c
  alive_made-Ends xs w false o i f s c a = returns-IsReleased e g w o c s f

  -- all but the life sign is still to be made
  abbrev pub IsReadyBut : World e → Type 0
  IsReadyBut w =
      Owns e false no_threads w
      × IsIdle e g w
      × (w.watch.gonggo_alive_shm ≡ false)
      × (w.watch.subscribe.path ≡ none)
      × (w.watch.channel.path ≡ none)

  abbrev pub IsReady : World e → Type 0
  IsReady w =
      Owns e false no_threads w
      × IsIdle e g w
      × (w.watch.gonggo_alive_shm ≡ false)
      × (w.watch.subscribe.path ≡ none)
      × (w.watch.channel.path ≡ none)
      × (w.watch.alive.path ≡ none)

  pub start_resources-Ends :
      (xs : List Pause) (w : World e) → IsReady w → OnSome (Ends e g) (start_resources e g xs w)
  unfolding start_resources create_tables
  start_resources-Ends xs w (o, i, f, s, c, a) =
      let (owns, found) =
        alive_create-Owns e g.posix (g.size alive_shm) g.proxy_name (create_tables e w) false
          no_threads a o in
      alive_made-Ends xs _ _ owns i f s c found

  -- the world in which SIGTERM's handler has been set, or has not
  abbrev pub set_handler : World e → World e
  set_handler w = record w { calls = handles_term (g.posix.handles w.calls) ∷ w.calls }

  pub new-IsReady :
      (w : World e)
      → IsNew w
      → IsReady (set_handler (proxy_log_context_init e g.pid g.log_path (proxy_uuid_init e w)))
  unfolding proxy_log_context_init proxy_uuid_init held runs made safe
  new-IsReady w n = ground arith

  pub work_given :
      (xs : List Pause) (w : World e)
      → g.has_payload_parse ≡ true
      → g.has_run ≡ true
      → (let v = proxy_log_context_init e g.pid g.log_path (proxy_uuid_init e w) in
          work e g xs w ≡ (
            if g.posix.handles v.calls
            then start_resources e g xs (set_handler v)
            else some (returns error_termhandler (clean_up e (set_handler v)))))
  unfolding work
  work_given xs w a b = ground (arith, a, b)

  -- How the program ends, with the two callbacks that it needs or without.
  abbrev pub EndsGiven : Bool → Outcome e → Type 0
  EndsGiven true o = Ends e g o
  EndsGiven false (returns code w) =
      (code ≡ error_start) × (made log_lock w.calls ≡ true) × (made uuid_lock w.calls ≡ true)
  EndsGiven false (waits w) = ⊥

  given-Ends :
      (xs : List Pause) (w : World e)
      → g.has_payload_parse ≡ true
      → g.has_run ≡ true
      → IsNew w
      → OnSome (Ends e g) (work e g xs w)
  given-Ends xs w a b n =
      let v = proxy_log_context_init e g.pid g.log_path (proxy_uuid_init e w) in
      let ready = new-IsReady w n in
      subst (OnSome (Ends e g)) (sym (work_given xs w a b)) (
        if-split (OnSome (Ends e g)) (g.posix.handles v.calls)
          (start_resources e g xs (set_handler v))
          (some (returns error_termhandler (clean_up e (set_handler v))))
          (λ _. start_resources-Ends xs (set_handler v) ready)
          (λ _. returns-IsReleased e g (set_handler v) ready.0 ready.4 ready.3 ready.2))

  leaves_locks :
      (xs : List Pause) (w : World e)
      → (g.has_payload_parse && g.has_run) ≡ false
      → IsNew w
      → OnSome (EndsGiven false) (work e g xs w)
  unfolding work proxy_log_context_init proxy_uuid_init made
  leaves_locks xs w a n =
      let v = proxy_log_context_init e g.pid g.log_path (proxy_uuid_init e w) in
      let out : work e g xs w ≡ some (returns error_start v) = ground (arith, a) in
      let locks : (made log_lock v.calls ≡ true) × (made uuid_lock v.calls ≡ true) =
        (ground (arith, n), ground (arith, n)) in
      subst (OnSome (EndsGiven false)) (sym out) (refl, locks.0, locks.1)

  -- The program gives back what it has taken, whatever the system answers, whichever of its steps
  -- fails, and whatever it is told while it pauses. With the two callbacks that it needs, if it does
  -- not fault and its locks and joins return, it either waits for a signal with everything still in
  -- its hands, or it returns with no memory mapped, none of the four threads running, none of its own
  -- locks and conditions left, no path, no table and no queue. By then memory has been unmapped and
  -- locks destroyed only while no thread ran, each lock of its own was destroyed only where it was
  -- made, and each thread joined only where it ran. Without one of the callbacks it returns the code
  -- of a failed start, and leaves two locks, that of its log and that of its identifiers.
  pub work-EndsGiven :
      (xs : List Pause) (w : World e)
      → IsNew w
      → OnSome (EndsGiven (g.has_payload_parse && g.has_run)) (work e g xs w)
  work-EndsGiven xs w n = elim (Bool-cases (g.has_payload_parse && g.has_run)) [
    | inl b ↦
        subst (λ b. OnSome (EndsGiven b) (work e g xs w)) (sym b)
          (given-Ends xs w (ground (arith, b)) (ground (arith, b)) n)
    | inr b ↦ subst (λ b. OnSome (EndsGiven b) (work e g xs w)) (sym b) (leaves_locks xs w b n)
  ]
