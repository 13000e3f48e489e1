-- ===== src/GonggoAlive/Lost.antt =====
-- gear/gonggoalive.c: the lock after a thread has found Gonggo dead without a word. The calls are
-- those of all the proxies that share Gonggo's lock.
use sawang.Prelude.{
  ℕ, zero, suc, ◌≡◌, refl, sym, ap, subst, ◌∙◌, Bool, true, false, ◌||◌, [], ◌∷◌, if◌then◌else◌,
  arith,
}
use sawang.GonggoAlive.Ends.{loop_ended, loop_step}
use sawang.GonggoAlive.{gonggo_alive_cleanup, Watch, gonggo_loop, gonggo_look, gonggo_alive}
use sawang.Posix.{
  tried, owner_dead, consistent, not_recoverable, unlocked, locked, gonggo_lock, Posix, Calls,
}

-- the lock is held since its owner's death, and has not been made consistent
unfoldable pub inconsistent : Calls → Bool
inconsistent [] = false
inconsistent (locked gonggo_lock owner_dead ∷ h) = true
inconsistent (tried gonggo_lock owner_dead ∷ h) = true
inconsistent (consistent gonggo_lock ∷ h) = false
inconsistent (unlocked gonggo_lock ∷ h) = false
inconsistent (_ ∷ h) = inconsistent h

-- the lock has been unlocked in that state
unfoldable pub lost : Calls → Bool
unfolding inconsistent
lost [] = false
lost (unlocked gonggo_lock ∷ h) = inconsistent h || lost h
lost (_ ∷ h) = lost h

-- pthread_mutex_consistent(3): a robust mutex that is unlocked without being made consistent can no
-- more be locked.
abbrev pub LosesLock : Posix → Type 0
LosesLock p = (h : Calls) → lost h ≡ true → p.lock_status h gonggo_lock ≡ not_recoverable

module _ (p : Posix) where
  -- the thread has ended with the lock lost
  abbrev EndsLost : Watch × Calls → Type 0
  EndsLost (v, g) =
      (v.gonggo_dead ≡ true) × (lost (if v.gonggo_dead then gonggo_alive_cleanup g else g) ≡ true)

  look-EndsLost :
      (w : Watch) (h : Calls)
      → p.lock_status h gonggo_lock ≡ owner_dead
      → EndsLost (gonggo_look p w h)
  unfolding gonggo_look lost
  look-EndsLost w h s = (ground (arith, s), ground (arith, s))

  abandoned-lost :
      (n : ℕ) (w : Watch) (h : Calls)
      → w.gonggo_dead ≡ false
      → p.lock_status h gonggo_lock ≡ owner_dead
      → ((gonggo_alive p (suc n) w h).2 ≡ true) × (lost (gonggo_alive p (suc n) w h).1 ≡ true)
  unfolding gonggo_alive
  abandoned-lost n w h d s =
      let start = record w { gonggo_alive_started = true } in
      let (v, g) = gonggo_look p start h in
      let found = look-EndsLost start h s in
      subst EndsLost (sym (loop_step p n start h d ∙ loop_ended p n v g found.0)) found

  lost-look :
      (w : Watch) (h : Calls)
      → LosesLock p
      → lost h ≡ true
      → ((gonggo_look p w h).0 ≡ w) × (lost (gonggo_look p w h).1 ≡ true)
  unfolding gonggo_look lost
  lost-look w h law l = ground (arith, law h l, l)

  lost-loop :
      (n : ℕ) (w : Watch) (h : Calls) → LosesLock p → lost h ≡ true → (gonggo_loop p n w h).0 ≡ w
  unfolding gonggo_loop
  lost-loop zero w h law l = refl
  lost-loop (suc n) w h law l =
      let (same, still) = lost-look w h law l in
      let rest = lost-loop n w (gonggo_look p w h).1 law still in ground (arith, same, rest)

  never_ends :
      (n : ℕ) (w : Watch) (h : Calls)
      → LosesLock p
      → w.gonggo_dead ≡ false
      → lost h ≡ true
      → (gonggo_alive p n w h).2 ≡ false
  unfolding gonggo_alive
  never_ends n w h law d l =
      ap (λ v. v.gonggo_dead) (lost-loop n (record w { gonggo_alive_started = true }) h law l) ∙ d

  -- What the thread does to the other proxies, with the lock as pthread describes it. If the first
  -- look of a thread finds that Gonggo died with the lock, the thread ends and leaves the lock lost:
  -- no thread that watches it from then on, for however many rounds, finds out that Gonggo is dead.
  pub second-never-ends :
      (n m : ℕ) (w v : Watch) (h : Calls)
      → LosesLock p
      → w.gonggo_dead ≡ false
      → v.gonggo_dead ≡ false
      → p.lock_status h gonggo_lock ≡ owner_dead
      → ((gonggo_alive p (suc n) w h).2 ≡ true)
        × ((gonggo_alive p m v (gonggo_alive p (suc n) w h).1).2 ≡ false)
  second-never-ends n m w v h law d e s =
      let (ends, l) = abandoned-lost n w h d s in
      (ends, never_ends m v (gonggo_alive p (suc n) w h).1 law e l)
