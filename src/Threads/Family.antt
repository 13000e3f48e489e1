-- ===== src/Threads/Family.antt =====
-- What is left to each thread, after one of them has gone on.
use sawang.Prelude.{◌≡◌, refl, sym, ap, subst, true, arith, Bool-cases, inl, inr}
use sawang.Threads.System.{comm, channel, set_left, author, Caller, same_caller}
use sawang.Threads.Calls.{Script}
use sawang.Proxy.{Env}

pub same_caller_eq : (c d : Caller) → same_caller c d ≡ true → c ≡ d
unfolding same_caller
same_caller_eq channel channel h = refl
same_caller_eq comm comm h = refl
same_caller_eq (author i) (author j) h = ap author (ground arith)
same_caller_eq channel comm h = cc
same_caller_eq channel (author j) h = cc
same_caller_eq comm channel h = cc
same_caller_eq comm (author j) h = cc
same_caller_eq (author i) channel h = cc
same_caller_eq (author i) comm h = cc

same_caller_refl : (c : Caller) → same_caller c c ≡ true
unfolding same_caller
same_caller_refl channel = refl
same_caller_refl comm = refl
same_caller_refl (author i) = ground arith

module _ (e : Env) where
  pub set_left-same :
      (left : Caller → Script e) (c : Caller) (k : Script e) → set_left e left c k c ≡ k
  set_left-same left c k = rw (same_caller_refl c) refl

  module _ (P : Script e → Type 0) where
    pub set_left-all :
        (left : Caller → Script e) (c : Caller) (k : Script e)
        → ((d : Caller) → P (left d))
        → P k
        → (d : Caller) → P (set_left e left c k d)
    set_left-all left c k each ok d = elim (Bool-cases (same_caller c d)) [
      | inl b ↦ rw b ok
      | inr b ↦ rw b (each d)
    ]

    -- Some thread has a program with the property.
    abbrev pub Some : (Caller → Script e) → Type 0
    Some left = (c : Caller) × P (left c)

    pub set_left-Some :
        (left : Caller → Script e) (c : Caller) (k : Script e)
        → (P (left c) → P k)
        → Some left
        → Some (set_left e left c k)
    set_left-Some left c k go (d, h) = elim (Bool-cases (same_caller c d)) [
      | inl b ↦
          let here = subst (λ d. P (left d)) (sym (same_caller_eq c d b)) h in
          (c, subst P (sym (set_left-same left c k)) (go here))
      | inr b ↦ (d, rw b h)
    ]
