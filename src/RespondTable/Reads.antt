-- ===== src/RespondTable/Reads.antt =====
-- gear/respondtable.c: what the functions read that change nothing.
use sawang.Prelude.{
  ◌≡◌, refl, subst, ◌∙◌, true, false, Option, none, some, List, [], ◌∷◌, CString, is_some, All,
  arith, contains, inl, inr, Bool-cases, Option-cases,
}
use sawang.Glib.{Glib, assoc}
use sawang.RespondTable.{
  RespondTables, RespondTableType, respond_table_which, task_key_of, respond_table_dup_task_key,
  respond_table_task_exists, respond_table_request_exists, respond_table_request_dup,
}
use sawang.RespondTable.Rids.{rids_in, find-contains, elements_of}
use sawang.RespondTable.Valid.{is_cons}
use sawang.RespondTable.Contract.{rids}
use sawang.RespondTable.Invariant.{TablesAreValid, OptIsValid, which-OptIsValid}

module _ (g : Glib) where
  open g use {HashTable, PtrArray, elements, hash_table_lookup, hash_table_iter}

  -- In tables that satisfy the invariant, `respond_table_task_exists` holds exactly of the tasks
  -- that have requests, `respond_table_request_exists` exactly of a task's own requests, and
  -- `respond_table_request_dup` returns an array exactly for the tasks that have requests, of those
  -- requests in their order.
  pub reads-rids :
      (s : RespondTables g) (w : RespondTableType) (k u : CString)
      → TablesAreValid g s
      → (respond_table_task_exists g s w k ≡ is_cons (rids g s w k))
        × (respond_table_request_exists g s w k u ≡ contains (rids g s w k) u)
        × (is_some (respond_table_request_dup g s w k) ≡ is_cons (rids g s w k))
        × (elements_of g (respond_table_request_dup g s w k) ≡ rids g s w k)
  unfolding respond_table_task_exists respond_table_request_exists respond_table_request_dup rids
      contains rids_in
  reads-rids s w k u v = elim (Option-cases (respond_table_which g s w)) [
    | inl e ↦ (ground arith, ground arith, ground arith, ground arith)
    | inr (t, e) ↦
        let old = subst (OptIsValid g) e (which-OptIsValid g s w v) k in
        elim (Option-cases (hash_table_lookup t k)) [
          | inl f ↦ (ground arith, ground arith, ground arith, ground arith)
          | inr (a, f) ↦ (
            ground (arith, old),
            ground (arith, find-contains g a u),
            ground (arith, old),
            ground (arith, g.elements-copy a),
          )
        ]
  ]

  task_key_of-some :
      (t : HashTable) (es : List (CString × PtrArray)) (u k : CString)
      → All (λ e. hash_table_lookup t e.0 ≡ some e.1) es
      → task_key_of g es u ≡ some k
      → contains (rids_in g t k) u ≡ true
  unfolding task_key_of rids_in contains
  task_key_of-some t [] u k h e = cc
  task_key_of-some t ((tk, a) ∷ es) u k h e = elim (Bool-cases (contains (elements a) u)) [
    | inl c ↦ let f : tk ≡ k = ground (arith, find-contains g a u) in rw (← f, h.0) c
    | inr c ↦ task_key_of-some t es u k h.1 (ground (arith, find-contains g a u))
  ]

  task_key_of-none :
      (es : List (CString × PtrArray)) (u k : CString) (a : PtrArray)
      → task_key_of g es u ≡ none
      → assoc es k ≡ some a
      → contains (elements a) u ≡ false
  unfolding task_key_of assoc
  task_key_of-none [] u k a e f = cc
  task_key_of-none ((tk, b) ∷ es) u k a e f =
      ground (arith, find-contains g b u, task_key_of-none es u k a)

  -- What a search for the task of a request says: a task that has it, or that no task does.
  abbrev pub TaskOf : RespondTables g → RespondTableType → CString → Option CString → Type 0
  TaskOf s w u none = (k : CString) → contains (rids g s w k) u ≡ false
  TaskOf s w u (some k) = contains (rids g s w k) u ≡ true

  TaskOf-task_key_of :
      (s : RespondTables g) (w : RespondTableType) (u : CString) (t : HashTable)
      → respond_table_which g s w ≡ some t
      → (r : Option CString) → task_key_of g (hash_table_iter t) u ≡ r
      → TaskOf s w u r
  unfolding rids contains rids_in
  TaskOf-task_key_of s w u t e (some k) f =
      ground (arith, task_key_of-some t (hash_table_iter t) u k (g.iter-All t))
  TaskOf-task_key_of s w u t e none f = λ k. elim (Option-cases (hash_table_lookup t k)) [
    | inl h ↦ ground arith
    | inr (a, h) ↦ ground (arith, task_key_of-none (hash_table_iter t) u k a, g.iter-lookup t k ∙ h)
  ]

  -- `respond_table_dup_task_key` is exact: the task that it returns has the request in the named
  -- table, and where it returns none no task of that table has the request.
  pub dup_task_key-TaskOf :
      (s : RespondTables g) (w : RespondTableType) (u : CString)
      → TaskOf s w u (respond_table_dup_task_key g s w u)
  unfolding respond_table_dup_task_key rids contains
  dup_task_key-TaskOf s w u = elim (Option-cases (respond_table_which g s w)) [
    | inl e ↦ rw (e, respond_table_dup_task_key) (λ k. ground arith)
    | inr (t, e) ↦
        rw (e, respond_table_dup_task_key)
          (TaskOf-task_key_of s w u t e (task_key_of g (hash_table_iter t) u) refl)
  ]
