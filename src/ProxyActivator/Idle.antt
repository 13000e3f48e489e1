-- ===== src/ProxyActivator/Idle.antt =====
-- gear/proxyactivator.c: the search for Gonggo's idle state.
use sawang.Prelude.{
  ℕ, zero, suc, ◌≡◌, refl, sym, ◌∙◌, Bool, true, false, ◌&&◌, ◌||◌, not, Option, none, some,
  if◌then◌else◌, arith, ltb, Bool-cases, inl, inr, if-split, ◌==◌,
}
use sawang.Shm.{ProxyActivationShm}
use sawang.ProxyActivator.{
  is_idle, Lock, owner_dead, locks, not_locked, Wait, owner_dies, times_out, fails, woken, Gonggo,
  Activation, munmap, check_idle, idle_loop, proxy_activation_get_map,
}

-- what stands in the shared memory after a wait; none where Gonggo has died
abbrev pub seen : Wait → Option ProxyActivationShm
seen owner_dies = none
seen (times_out shm) = some shm
seen (fails shm) = some shm
seen (woken shm) = some shm

abbrev pub is_timeout : Wait → Bool
is_timeout (times_out shm) = true
is_timeout _ = false

abbrev pub is_woken : Wait → Bool
is_woken (woken shm) = true
is_woken _ = false

-- does pthread_mutex_lock give the lock
abbrev pub takes : Lock → Bool
takes (not_locked shm) = false
takes _ = true

-- what stands in the shared memory after the first lock; none where Gonggo is dead or not there
abbrev pub found : Gonggo → Option ProxyActivationShm
found g =
    if g.maps
    then (elim g.first_lock [
      | owner_dead ↦ none
      | locks shm ↦ some shm
      | not_locked shm ↦ some shm
    ])
    else none

-- The idle state is there, or comes within some waits while Gonggo lives; the last wait must not have
-- timed out.
unfoldable pub gets_idle : Gonggo → ℕ → ProxyActivationShm → Bool
gets_idle g zero shm = is_idle shm.state
gets_idle g (suc n) shm = is_idle shm.state || (elim (seen (g.idle_wait n)) [
  | none ↦ false
  | some later ↦ not ((n == 0) && is_timeout (g.idle_wait n)) && gets_idle g n later
])

-- No idle state comes within some waits, while Gonggo lives.
unfoldable pub stays_busy : Gonggo → ℕ → ProxyActivationShm → Bool
stays_busy g zero shm = not (is_idle shm.state)
stays_busy g (suc n) shm =
    not (is_idle shm.state)
    && (elim (seen (g.idle_wait n)) [ none ↦ false | some later ↦ stays_busy g n later ])

-- Gonggo is there and idle in time.
abbrev pub is_available : Gonggo → Bool
is_available g = elim (found g) [ none ↦ false | some shm ↦ gets_idle g 5 shm ]

-- Gonggo is there, is busy at all looks, and the last wait was ended by a signal.
abbrev pub is_woken_busy : Gonggo → Bool
is_woken_busy g = elim (found g) [
  | none ↦ false
  | some shm ↦ stays_busy g 5 shm && is_woken (g.idle_wait 0)
]

abbrev last_woken : Gonggo → ℕ → Bool → Bool
last_woken g zero status = status
last_woken g (suc n) status = is_woken (g.idle_wait 0)

-- What the loop gives, from some state of the shared memory and the lock on.
abbrev Settled : Gonggo → ℕ → Bool → Activation → Option (Activation × Bool) → Type 0
Settled g n status s none = (stays_busy g n s.shm && last_woken g n status) ≡ true
Settled g n status s (some (t, ok)) =
    ((stays_busy g n s.shm && last_woken g n status) ≡ false)
    × (gets_idle g n s.shm ≡ ok)
    × (t.sent ≡ s.sent)
    × (t.locked ≡ s.locked)
    × (t.mapped ≡ ok)
    × ((if ok then is_idle t.shm.state else true) ≡ true)

last_woken_step :
    (g : Gonggo) (n : ℕ) (st : Bool)
    → is_woken (g.idle_wait n) ≡ st
    → last_woken g n st ≡ is_woken (g.idle_wait 0)
last_woken_step g zero st h = sym h
last_woken_step g (suc n) st h = refl

-- one wait, if the rounds after it settle
step-Settled :
    (g : Gonggo) (n : ℕ) (status st : Bool) (s : Activation) (later : ProxyActivationShm)
    (r : Option (Activation × Bool))
    → is_idle s.shm.state ≡ false
    → seen (g.idle_wait n) ≡ some later
    → is_woken (g.idle_wait n) ≡ st
    → ((n == 0) && is_timeout (g.idle_wait n)) ≡ false
    → Settled g n st (record s { shm = later }) r
    → Settled g (suc n) status s r
unfolding gets_idle stays_busy
step-Settled g n status st s later none b e w t h =
    ground (arith, b, e, last_woken_step g n st w, h)
step-Settled g n status st s later (some (u, ok)) b e w t
      (busy, idle, sent, locked, mapped, shows) =
    (
      ground (arith, b, e, last_woken_step g n st w, busy),
      ground (arith, b, e, t, idle),
      sent,
      locked,
      mapped,
      shows,
    )

wait-Settled :
    (g : Gonggo) (n : ℕ) (status : Bool) (s : Activation) (w : Wait)
    → g.idle_wait n ≡ w
    → is_idle s.shm.state ≡ false
    → ((st : Bool) (shm : ProxyActivationShm)
        → Settled g n st (record s { shm = shm }) (idle_loop g n st (record s { shm = shm })))
    → Settled g (suc n) status s (elim w [
      | owner_dies ↦ some (munmap s, false)
      | times_out shm ↦
          let rest = idle_loop g n false (record s { shm = shm }) in
          if ltb n 1 then some (munmap (record s { shm = shm }), false) else rest
      | fails shm ↦ idle_loop g n false (record s { shm = shm })
      | woken shm ↦ idle_loop g n true (record s { shm = shm })
    ])
unfolding gets_idle stays_busy
wait-Settled g n status s owner_dies e b h =
    (ground (arith, b, e), ground (arith, b, e), refl, refl, refl, refl)
wait-Settled g zero status s (times_out shm) e b h =
    (ground (arith, b, e), ground (arith, b, e), refl, refl, refl, refl)
wait-Settled g (suc n) status s (times_out shm) e b h =
    if-split (Settled g (suc (suc n)) status s) (ltb (suc n) 1) _ _ (λ l. ground (arith, l))
      (λ _.
        step-Settled g (suc n) status false s shm _ b (rw e refl) (rw e refl) (ground arith)
          (h false shm))
wait-Settled g n status s (fails shm) e b h =
    step-Settled g n status false s shm _ b (rw e refl) (rw e refl) (ground (arith, e))
      (h false shm)
wait-Settled g n status s (woken shm) e b h =
    step-Settled g n status true s shm _ b (rw e refl) (rw e refl) (ground (arith, e)) (h true shm)

idle_loop-Settled :
    (g : Gonggo) (n : ℕ) (status : Bool) (s : Activation)
    → s.mapped ≡ true
    → Settled g n status s (idle_loop g n status s)
unfolding idle_loop check_idle gets_idle stays_busy
idle_loop-Settled g zero status s m = elim (Bool-cases (is_idle s.shm.state)) [
  | inl b ↦ rw (b, idle_loop) (ground (arith, b), ground (arith, b), refl, refl, m, b)
  | inr b ↦ elim (Bool-cases status) [
    | inl c ↦ rw (b, c, idle_loop) (ground (arith, b, c))
    | inr c ↦
        rw (b, c, idle_loop) (ground (arith, b, c), ground (arith, b, c), refl, refl, refl, refl)
  ]
]
idle_loop-Settled g (suc n) status s m = elim (Bool-cases (is_idle s.shm.state)) [
  | inl b ↦ rw (b, idle_loop) (ground (arith, b), ground (arith, b), refl, refl, m, b)
  | inr b ↦
      rw (b, idle_loop)
        (wait-Settled g n status s (g.idle_wait n) refl b
          (λ st shm. idle_loop-Settled g n st (record s { shm = shm }) m))
]

-- What the search for Gonggo's idle state comes to.
abbrev pub IsSearched : Gonggo → Activation → Option (Activation × Bool) → Type 0
IsSearched g s none = is_woken_busy g ≡ true
IsSearched g s (some (t, ok)) =
    (is_woken_busy g ≡ false)
    × (is_available g ≡ ok)
    × (t.sent ≡ s.sent)
    × (t.locked ≡ (g.maps && takes g.first_lock))
    × (t.mapped ≡ ok)
    × ((if ok then is_idle t.shm.state else true) ≡ true)

Settled-IsSearched :
    (g : Gonggo) (s t : Activation) (r : Option (Activation × Bool))
    → found g ≡ some t.shm
    → t.sent ≡ s.sent
    → t.locked ≡ (g.maps && takes g.first_lock)
    → Settled g 5 true t r
    → IsSearched g s r
Settled-IsSearched g s t none f u v h = ground (arith, f, h)
Settled-IsSearched g s t (some (w, ok)) f u v (busy, idle, sent, locked, mapped, shows) =
    (ground (arith, f, busy), ground (arith, f, idle), sent ∙ u, locked ∙ v, mapped, shows)

locked-IsSearched :
    (g : Gonggo) (s : Activation) (w : Lock)
    → s.locked ≡ false
    → g.maps ≡ true
    → g.first_lock ≡ w
    → IsSearched g s (elim w [
      | owner_dead ↦ some (munmap (record s { mapped = true; locked = true }), false)
      | locks shm ↦ idle_loop g 5 true (record s { mapped = true; locked = true; shm = shm })
      | not_locked shm ↦ idle_loop g 5 true (record s { mapped = true; shm = shm })
    ])
locked-IsSearched g s owner_dead l b e =
    (rw (b, e) refl, rw (b, e) refl, refl, rw (b, e) refl, refl, refl)
locked-IsSearched g s (locks shm) l b e =
    Settled-IsSearched g s (record s { mapped = true; locked = true; shm = shm }) _ (rw (b, e) refl)
      refl (rw (b, e) refl)
      (idle_loop-Settled g 5 true (record s { mapped = true; locked = true; shm = shm }) refl)
locked-IsSearched g s (not_locked shm) l b e =
    Settled-IsSearched g s (record s { mapped = true; shm = shm }) _ (rw (b, e) refl) refl
      (rw (b, e) l) (idle_loop-Settled g 5 true (record s { mapped = true; shm = shm }) refl)

-- The search for Gonggo's idle state, under its lock where that could be taken. It succeeds exactly
-- when Gonggo is available: its memory can be mapped, the lock does not find it dead, and the idle
-- state is there at once or comes with one of five waits, none of which finds Gonggo dead and the last
-- of which has not timed out. It then leaves the memory mapped, the state idle, and the lock as
-- pthread_mutex_lock has left it. It unlocks memory that it has just unmapped exactly when all five
-- waits end with Gonggo busy and the last one was ended by a signal. On every other failure the memory
-- is unmapped, and the lock is not given back if it was taken. Nobody is signalled.
pub get_map-locked :
    (g : Gonggo) (s : Activation)
    → s.mapped ≡ false
    → s.locked ≡ false
    → IsSearched g s (proxy_activation_get_map g s)
unfolding proxy_activation_get_map
get_map-locked g s m l =
    if-split (IsSearched g s) g.maps _ _ (λ b. locked-IsSearched g s g.first_lock l b refl)
      (λ b. (ground (arith, b), ground (arith, b), refl, ground (arith, b, l), m, refl))
