-- ===== src/ProxyActivator/Outcome.antt =====
-- gear/proxyactivator.c: what an activation comes to.
use sawang.Prelude.{
  ℕ, ◌≡◌, refl, ◌∙◌, ap, Bool, true, false, ◌&&◌, ◌||◌, not, Option, none, some, [], ◌∷◌, ◌++◌,
  append_assoc, CString, if◌then◌else◌, arith, length, ltb, ◌≤◌, Bool-cases, inl, inr, if-split,
}
use sawang.Shm.{ProxyActivationState}
use sawang.ProxyActivator.{
  is_request, is_refusal, is_success, Lock, owner_dead, locks, not_locked, Wait, owner_dies,
  times_out, fails, woken, Gonggo, Activation, munmap, unlock, proxy_activation_get_map,
  take_answer, await_locked, await_answer, proxy_activate,
}
use sawang.ProxyActivator.Idle.{
  seen, takes, is_available, is_woken_busy, IsSearched, get_map-locked,
}

abbrev waited : Wait → Option ProxyActivationState
waited w = elim (seen w) [ none ↦ none | some shm ↦ some shm.state ]

-- Gonggo's answer to the request, if it lives to give one
abbrev pub answer : Gonggo → Option ProxyActivationState
answer g = elim g.second_lock [
  | owner_dead ↦ none
  | locks shm ↦ if is_request shm.state then waited g.respond_wait else some shm.state
  | not_locked shm ↦ if is_request shm.state then waited g.respond_wait else some shm.state
]

-- What an activation comes to: Gonggo is not asked, for a name that is too long or because it is not
-- available, or a lock is given back that is no longer mapped, or Gonggo does not answer, or answers
-- that it refuses or something unexpected, or accepts.
pub data Activated (g : Gonggo) (name : CString) (s : Activation)
    : Option (Activation × Bool) → Type 0 where
  not_asked :
      (t : Activation)
      → (ltb 50 (length name) || (not (is_available g) && not (is_woken_busy g))) ≡ true
      → t.sent ≡ s.sent
      → t.mapped ≡ false
      → Activated g name s (some (t, false))
  crashed : length name ≤ 50 → is_woken_busy g ≡ true → Activated g name s none
  unanswered :
      (t : Activation)
      → length name ≤ 50
      → is_available g ≡ true
      → answer g ≡ none
      → t.sent ≡ s.sent ++ (ProxyActivationState.request ∷ [])
      → t.locked ≡ takes g.second_lock
      → t.mapped ≡ false
      → Activated g name s (some (t, false))
  refused :
      (t : Activation) (a : ProxyActivationState)
      → length name ≤ 50
      → is_available g ≡ true
      → answer g ≡ some a
      → is_success a ≡ false
      → t.sent ≡ s.sent ++ (ProxyActivationState.request ∷ [])
      → t.locked ≡ false
      → t.mapped ≡ false
      → Activated g name s (some (t, false))
  accepted :
      (t : Activation) (a : ProxyActivationState)
      → length name ≤ 50
      → is_available g ≡ true
      → answer g ≡ some a
      → is_success a ≡ true
      → t.sent ≡ s.sent ++ (ProxyActivationState.request ∷ ProxyActivationState.done ∷ [])
      → t.shm.state ≡ ProxyActivationState.done
      → t.locked ≡ false
      → t.mapped ≡ false
      → Activated g name s (some (t, true))

refusal_no_success : (a : ProxyActivationState) → is_success a ≡ true → is_refusal a ≡ false
refusal_no_success ProxyActivationState.success h = refl
refusal_no_success _ h = cc

module _ (g : Gonggo) (name : CString) (s : Activation) (short : length name ≤ 50)
    (available : is_available g ≡ true) where
  take_answer-Activated :
      (t : Activation)
      → t.sent ≡ s.sent ++ (ProxyActivationState.request ∷ [])
      → answer g ≡ some t.shm.state
      → Activated g name s (some (take_answer t))
  unfolding take_answer
  take_answer-Activated t sent a = elim (Bool-cases (is_success t.shm.state)) [
    | inl y ↦
        rw (refusal_no_success t.shm.state y, y, take_answer)
          (accepted _ t.shm.state short available a y
            (ap (λ us. us ++ (ProxyActivationState.done ∷ [])) sent
              ∙ append_assoc s.sent (ProxyActivationState.request ∷ [])
                  (ProxyActivationState.done ∷ []))
            refl refl refl)
    | inr y ↦ elim (Bool-cases (is_refusal t.shm.state)) [
      | inl r ↦ rw (r, take_answer) (refused _ t.shm.state short available a y sent refl refl)
      | inr r ↦ rw (r, y, take_answer) (refused _ t.shm.state short available a y sent refl refl)
    ]
  ]

  waited-Activated :
      (t : Activation) (w : Wait)
      → t.locked ≡ takes g.second_lock
      → t.sent ≡ s.sent ++ (ProxyActivationState.request ∷ [])
      → answer g ≡ waited w
      → Activated g name s (
          some (elim w [
            | owner_dies ↦ (munmap t, false)
            | times_out shm ↦ take_answer (record t { shm = shm })
            | fails shm ↦ take_answer (record t { shm = shm })
            | woken shm ↦ take_answer (record t { shm = shm })
          ]))
  waited-Activated t owner_dies l sent a = unanswered _ short available a sent l refl
  waited-Activated t (times_out shm) l sent a =
      take_answer-Activated (record t { shm = shm }) sent a
  waited-Activated t (fails shm) l sent a = take_answer-Activated (record t { shm = shm }) sent a
  waited-Activated t (woken shm) l sent a = take_answer-Activated (record t { shm = shm }) sent a

  await_locked-Activated :
      (t : Activation)
      → t.locked ≡ takes g.second_lock
      → t.sent ≡ s.sent ++ (ProxyActivationState.request ∷ [])
      → answer g ≡ (if is_request t.shm.state then waited g.respond_wait else some t.shm.state)
      → Activated g name s (some (await_locked g t))
  unfolding await_locked
  await_locked-Activated t l sent a =
      if-split (λ r. Activated g name s (some r)) (is_request t.shm.state) _ _
        (λ b. waited-Activated t g.respond_wait l sent (ground (arith, a, b)))
        (λ b. take_answer-Activated t sent (ground (arith, a, b)))

  await_answer-Activated :
      (t : Activation) (w : Lock)
      → g.second_lock ≡ w
      → t.locked ≡ false
      → t.sent ≡ s.sent ++ (ProxyActivationState.request ∷ [])
      → Activated g name s (
          some (elim w [
            | owner_dead ↦ (munmap (record t { locked = true }), false)
            | locks shm ↦ await_locked g (record t { locked = true; shm = shm })
            | not_locked shm ↦ await_locked g (record t { shm = shm })
          ]))
  await_answer-Activated t owner_dead e l sent =
      unanswered _ short available (ground (arith, e)) sent (ground (arith, e)) refl
  await_answer-Activated t (locks shm) e l sent =
      await_locked-Activated (record t { locked = true; shm = shm }) (ground (arith, e)) sent
        (ground (arith, e))
  await_answer-Activated t (not_locked shm) e l sent =
      await_locked-Activated (record t { shm = shm }) (ground (arith, e, l)) sent
        (ground (arith, e))

-- what the proxy has done before the second lock
abbrev requested : CString → ℕ → Activation → Activation
requested name pid t = unlock (record t {
  shm = record { proxy_name = name; pid = pid; state = ProxyActivationState.request };
  sent = t.sent ++ (ProxyActivationState.request ∷ []);
})

-- Gonggo is asked exactly when the name is not longer than 50 bytes and Gonggo is available, and an
-- activation succeeds exactly when it is asked and answers with success. The proxy then confirms with
-- ACTIVATION_DONE and the lock is free. Otherwise it confirms nothing: when it has asked and Gonggo
-- is found dead, it keeps the lock if it has got it, and after any other answer the lock is free. In
-- each of these cases the memory is not mapped in the end. An activation with a name that is not too
-- long faults exactly when Gonggo stays busy at all looks and the last wait was ended by a signal:
-- the proxy then unlocks memory that it has unmapped.
pub activate-Activated :
    (g : Gonggo) (name : CString) (pid : ℕ) (s : Activation)
    → s.mapped ≡ false
    → s.locked ≡ false
    → Activated g name s (proxy_activate g name pid s)
unfolding proxy_activate await_answer
activate-Activated g name pid s m l =
    if-split (Activated g name s) (ltb 50 (length name)) _ _
      (λ b. not_asked s (ground (arith, b)) refl m)
      (λ b. searched (proxy_activation_get_map g s) (ground (arith, b)) (get_map-locked g s m l))
  where
    searched :
        (r : Option (Activation × Bool))
        → length name ≤ 50
        → IsSearched g s r
        → Activated g name s (elim r [
          | none ↦ none
          | some (t, idle) ↦
              if idle then some (await_answer g (requested name pid t)) else some (t, false)
        ])
    searched none short h = crashed short h
    searched (some (t, true)) short (busy, idle, sent, locked, mapped, shows) =
        await_answer-Activated g name s short idle (requested name pid t) g.second_lock refl refl
          (ap (λ us. us ++ (ProxyActivationState.request ∷ [])) sent)
    searched (some (t, false)) short (busy, idle, sent, locked, mapped, shows) =
        not_asked t (ground (arith, busy, idle)) sent mapped
