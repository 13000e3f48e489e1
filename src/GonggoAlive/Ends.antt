-- ===== src/GonggoAlive/Ends.antt =====
-- gear/gonggoalive.c: when the thread ends, and what it leaves.
use sawang.Prelude.{
  ◌<◌, ℕ, zero, suc, ◌+◌, ◌≡◌, refl, sym, ap, subst, ◌∙◌, Bool, true, false, not, ◌||◌, [], ◌∷◌,
  if◌then◌else◌, arith, Bool-cases, inl, inr,
}
use sawang.GonggoAlive.{
  gonggo_alive_cleanup, gonggo_alive, gonggo_look, finds_dead, gonggo_loop, Watch,
}
use sawang.Posix.{
  LockStatus, locked_ok, owner_dead, busy, not_recoverable, lock_fails, locked, gonggo_lock, killed,
  Posix, Calls,
}

-- the looks at Gonggo's lock so far, and the signals that end the program
unfoldable pub looks : Calls → ℕ
looks [] = 0
looks (locked gonggo_lock status ∷ h) = suc (looks h)
looks (_ ∷ h) = looks h

unfoldable pub kills : Calls → ℕ
kills [] = 0
kills (killed ∷ h) = suc (kills h)
kills (_ ∷ h) = kills h

abbrev pub IsMarked : Bool → Watch → Watch → Type 0
IsMarked b w v =
    (v.channel ≡ record w.channel { shm_unlink = w.channel.shm_unlink || b })
    × (v.subscribe ≡ record w.subscribe { shm_unlink = w.subscribe.shm_unlink || b })
    × (v.alive ≡ record w.alive { shm_unlink = w.alive.shm_unlink || b })

-- the lock has lost its owner, or is taken and Gonggo's flag is cleared
abbrev pub is_gone : LockStatus → Bool → Bool
is_gone owner_dead flag = true
is_gone locked_ok flag = not flag
is_gone _ flag = false

module _ (p : Posix) where
  -- does Gonggo's flag say at the next look that it lives
  abbrev pub next_flag : Calls → Bool
  next_flag h = p.gonggo_is_alive (locked gonggo_lock (p.lock_status h gonggo_lock) ∷ h)

  -- Is Gonggo dead at the next look: its lock has lost its owner, or is taken with the flag cleared.
  abbrev pub next_dead : Calls → Bool
  next_dead h = is_gone (p.lock_status h gonggo_lock) (next_flag h)

  finds_dead-is_gone :
      (h : Calls)
      → (let status = p.lock_status h gonggo_lock in
          finds_dead p status (locked gonggo_lock status ∷ h) ≡ next_dead h)
  unfolding finds_dead
  finds_dead-is_gone h = go (p.lock_status h gonggo_lock)
    where
      go :
          (status : LockStatus)
          → finds_dead p status (locked gonggo_lock status ∷ h)
            ≡ is_gone status (p.gonggo_is_alive (locked gonggo_lock status ∷ h))
      go locked_ok = refl
      go owner_dead = refl
      go busy = refl
      go not_recoverable = refl
      go (lock_fails n) = refl

  -- the calls of a loop before one of its looks
  abbrev pub before_look : ℕ → Watch → Calls → Calls
  before_look m w h = (gonggo_loop p m w h).1

  -- Gonggo lives at the looks before one of them.
  abbrev pub LivesTill : ℕ → Watch → Calls → Type 0
  LivesTill n w h = (m : ℕ) → m < n → next_dead (before_look m w h) ≡ false

  -- A watch that goes on has changed nothing, and Gonggo has lived at each of its looks. One that has
  -- ended did so at the first look at which Gonggo was dead. It has asked the program to exit, by the
  -- flag and by one signal, and has marked all three memories to be unlinked if Gonggo's flag said
  -- then that it lived.
  abbrev pub LoopGives : ℕ → Watch → Calls → Bool → Watch → Calls → Type 0
  LoopGives n w h false v g =
      (v ≡ w) × (kills g ≡ kills h) × (looks g ≡ n + looks h) × LivesTill n w h
  LoopGives n w h true v g =
      (v.proxy_exit ≡ true)
      × (kills g ≡ suc (kills h))
      × (m : ℕ) × (m < n)
      × LivesTill m w h
      × (next_dead (before_look m w h) ≡ true)
      × IsMarked (next_flag (before_look m w h)) w v

  look-alive :
      (w : Watch) (h : Calls)
      → next_dead h ≡ false
      → ((gonggo_look p w h).0 ≡ w)
        × (kills (gonggo_look p w h).1 ≡ kills h)
        × (looks (gonggo_look p w h).1 ≡ suc (looks h))
  unfolding gonggo_look kills looks
  look-alive w h d = ground (arith, d, finds_dead-is_gone h)

  pub look-dead :
      (w : Watch) (h : Calls)
      → next_dead h ≡ true
      → (let (v, g) = gonggo_look p w h in
          (v.gonggo_dead ≡ true)
          × (v.proxy_exit ≡ true)
          × (kills g ≡ suc (kills h))
          × IsMarked (next_flag h) w v)
  unfolding gonggo_look kills looks
  look-dead w h d = (
    ground (arith, d, finds_dead-is_gone h),
    ground (arith, d, finds_dead-is_gone h),
    ground (arith, d, finds_dead-is_gone h),
    (
      ground (arith, d, finds_dead-is_gone h),
      ground (arith, d, finds_dead-is_gone h),
      ground (arith, d, finds_dead-is_gone h),
    ),
  )

  pub loop_ended :
      (n : ℕ) (w : Watch) (h : Calls) → w.gonggo_dead ≡ true → gonggo_loop p n w h ≡ (w, h)
  unfolding gonggo_loop
  loop_ended zero w h d = refl
  loop_ended (suc n) w h d = rw d refl

  abbrev LoopAfter : ℕ → Watch → Calls → Watch × Calls → Type 0
  LoopAfter n w h (v, g) = LoopGives n w h v.gonggo_dead v g

  pub loop_step :
      (n : ℕ) (w : Watch) (h : Calls)
      → w.gonggo_dead ≡ false
      → gonggo_loop p (suc n) w h ≡ gonggo_loop p n (gonggo_look p w h).0 (gonggo_look p w h).1
  unfolding gonggo_loop
  loop_step n w h d = ground (arith, d)

  before_step :
      (m : ℕ) (w : Watch) (h : Calls)
      → w.gonggo_dead ≡ false
      → next_dead h ≡ false
      → before_look (suc m) w h ≡ before_look m w (gonggo_look p w h).1
  before_step m w h d b =
      ap (λ x. x.1) (loop_step m w h d)
      ∙ ap (λ v. before_look m v (gonggo_look p w h).1) (look-alive w h b).0

  -- the looks after the first one, which finds Gonggo alive
  lives-step :
      (n : ℕ) (w : Watch) (h : Calls)
      → w.gonggo_dead ≡ false
      → next_dead h ≡ false
      → LivesTill n w (gonggo_look p w h).1
      → LivesTill (suc n) w h
  unfolding gonggo_loop
  lives-step n w h d b l zero m = b
  lives-step n w h d b l (suc m) k = ap next_dead (before_step m w h d b) ∙ l m (omega (arith, k))

  looks_more :
      (n : ℕ) (w v : Watch) (h g : Calls) (b : Bool)
      → w.gonggo_dead ≡ false
      → next_dead h ≡ false
      → LoopGives n w (gonggo_look p w h).1 b v g
      → LoopGives (suc n) w h b v g
  looks_more n w v h g false d a (x, y, z, l) =
      let (same, kept, more) = look-alive w h a in
      (x, y ∙ kept, omega (arith, z, more), lives-step n w h d a l)
  looks_more n w v h g true d a (x, y, m, k, l, gone, marked) =
      let (same, kept, more) = look-alive w h a in
      let e = before_step m w h d a in
      (
        x,
        omega (arith, y, kept),
        suc m,
        omega (arith, k),
        lives-step m w h d a l,
        ap next_dead e ∙ gone,
        subst (λ k. IsMarked (next_flag k) w v) (sym e) marked,
      )

  pub loop-LoopGives :
      (n : ℕ) (w : Watch) (h : Calls)
      → w.gonggo_dead ≡ false
      → LoopAfter n w h (gonggo_loop p n w h)
  unfolding gonggo_loop
  loop-LoopGives zero w h d =
      subst (λ b. LoopGives 0 w h b w h) (sym d)
        (refl, refl, omega arith, λ m k. absurd (omega (arith, k)))
  loop-LoopGives (suc n) w h d =
      subst (LoopAfter (suc n) w h) (sym (loop_step n w h d)) (elim (Bool-cases (next_dead h)) [
        | inl b ↦
            let look = look-dead w h b in
            subst (LoopAfter (suc n) w h)
              (sym (loop_ended n (gonggo_look p w h).0 (gonggo_look p w h).1 look.0))
              (subst (λ b. LoopGives (suc n) w h b (gonggo_look p w h).0 (gonggo_look p w h).1)
                (sym look.0)
                (look.1, look.2, 0, omega arith, λ m k. absurd (omega (arith, k)), b, look.3))
        | inr b ↦
            let same = (look-alive w h b).0 in
            let k = (gonggo_look p w h).1 in
            let out = gonggo_loop p n w k in
            subst (λ v. LoopAfter (suc n) w h (gonggo_loop p n v k)) (sym same)
              (looks_more n w out.0 h out.1 out.0.gonggo_dead d b (loop-LoopGives n w k d))
      ])

  cleaned :
      (n : ℕ) (w v : Watch) (h g : Calls) (b : Bool)
      → LoopGives n w h b v g
      → LoopGives n w h b v (if b then gonggo_alive_cleanup g else g)
  unfolding kills
  cleaned n w v h g false l = l
  cleaned n w v h g true l = l

  -- The thread of a program whose Gonggo is not known to be dead, for any number of rounds. Gonggo is
  -- dead at a look if its lock has lost its owner, or is taken and Gonggo's flag is cleared. Where the
  -- thread has not left its loop, it has looked once in each round, Gonggo has lived at each look, and
  -- it has changed nothing but that it has started. Where it has left, it did so at the first look at
  -- which Gonggo was dead. Then the program is asked to exit, by the flag and by one signal, and the
  -- memories of the channel, of the subscription and of the life sign are marked to be unlinked if
  -- Gonggo's flag said at that look that it lived, and stay as they were if it did not.
  pub thread-LoopGives :
      (n : ℕ) (w : Watch) (h : Calls)
      → w.gonggo_dead ≡ false
      → (let (v, g, ended) = gonggo_alive p n w h in
          (v.gonggo_dead ≡ ended)
          × LoopGives n (record w { gonggo_alive_started = true }) h ended v g)
  unfolding gonggo_alive kills looks
  thread-LoopGives n w h d =
      let start = record w { gonggo_alive_started = true } in
      let loop = loop-LoopGives n start h d in
      let (v, g) = gonggo_loop p n start h in (refl, cleaned n start v h g v.gonggo_dead loop)
