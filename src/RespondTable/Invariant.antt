-- ===== src/RespondTable/Invariant.antt =====
-- gear/respondtable.c: the invariant of the two tables.
use sawang.Prelude.{
  subst, ◌∙◌, ◌≡◌, refl, false, Option, none, some, List, [], ◌∷◌, CString, is_some, arith, inl,
  inr, Bool-cases, Option-cases,
}
use sawang.Glib.{Glib}
use sawang.RespondTable.{
  RespondTables, RespondTableType, singleshot, multirespond, other, respond_table_which, store,
  respond_table_set, respond_table_drop, respond_table_create, respond_table_destroy,
  respond_table_remove,
}
use sawang.RespondTable.Valid.{
  TableIsValid, new_full-TableIsValid, set_do-TableIsValid, drop_do-TableIsValid,
  remove-TableIsValid,
}

module _ (g : Glib) where
  open g use {HashTable, hash_table_lookup}

  -- Nothing is asked of a table that is not there.
  abbrev pub OptIsValid : Option HashTable → Type 0
  OptIsValid none = Unit {0}
  OptIsValid (some t) = TableIsValid g t

  -- The flag says whether the tables are there; in each, no task has a request twice, and no array
  -- is empty.
  pub record TablesAreValid (s : RespondTables g) : Type 0 where
    pub has_singleshot : is_some s.singleshot_table ≡ s.respond_table_has_table
    pub has_multirespond : is_some s.multirespond_table ≡ s.respond_table_has_table
    pub singleshot_valid : OptIsValid s.singleshot_table
    pub multirespond_valid : OptIsValid s.multirespond_table

  pub which-OptIsValid :
      (s : RespondTables g) (w : RespondTableType)
      → TablesAreValid s
      → OptIsValid (respond_table_which g s w)
  unfolding respond_table_which
  which-OptIsValid s singleshot v = v.singleshot_valid
  which-OptIsValid s multirespond v = v.multirespond_valid
  which-OptIsValid s (other n) v = tt

  store-TablesAreValid :
      (s : RespondTables g) (w : RespondTableType) (t t' : HashTable)
      → respond_table_which g s w ≡ some t
      → TableIsValid g t'
      → TablesAreValid s
      → TablesAreValid (store g s w t')
  unfolding respond_table_which store
  store-TablesAreValid s singleshot t t' e p v = record {
    has_singleshot = ground (arith, v.has_singleshot);
    has_multirespond = v.has_multirespond;
    singleshot_valid = p;
    multirespond_valid = v.multirespond_valid;
  }
  store-TablesAreValid s multirespond t t' e p v = record {
    has_singleshot = v.has_singleshot;
    has_multirespond = ground (arith, v.has_multirespond);
    singleshot_valid = v.singleshot_valid;
    multirespond_valid = p;
  }
  store-TablesAreValid s (other n) t t' e p v = v

  pub create-TablesAreValid :
      (s : RespondTables g) → TablesAreValid s → TablesAreValid (respond_table_create g s)
  unfolding respond_table_create
  create-TablesAreValid s v = elim (Bool-cases s.respond_table_has_table) [
    | inl e ↦
        rw (e, respond_table_create)
          (record {
            has_singleshot = v.has_singleshot ∙ e;
            has_multirespond = v.has_multirespond ∙ e;
            singleshot_valid = v.singleshot_valid;
            multirespond_valid = v.multirespond_valid;
          })
    | inr e ↦
        rw (e, respond_table_create)
          (record {
            has_singleshot = refl;
            has_multirespond = refl;
            singleshot_valid = new_full-TableIsValid g;
            multirespond_valid = new_full-TableIsValid g;
          })
  ]

  pub set-TablesAreValid :
      (s : RespondTables g) (w : RespondTableType) (k u : CString)
      → TablesAreValid s
      → TablesAreValid (respond_table_set g s w k u).0
  unfolding respond_table_set
  set-TablesAreValid s w k u v = elim (Option-cases (respond_table_which g s w)) [
    | inl e ↦ rw (e, respond_table_set) v
    | inr (t, e) ↦
        rw (e, respond_table_set)
          (store-TablesAreValid s w t _ e
            (set_do-TableIsValid g t k u (subst OptIsValid e (which-OptIsValid s w v))) v)
  ]

  pub drop-TablesAreValid :
      (s : RespondTables g) (w : RespondTableType) (k u : CString)
      → TablesAreValid s
      → TablesAreValid (respond_table_drop g s w k u).0
  unfolding respond_table_drop
  drop-TablesAreValid s w k u v = elim (Option-cases (respond_table_which g s w)) [
    | inl e ↦ rw (e, respond_table_drop) v
    | inr (t, e) ↦
        let old = subst OptIsValid e (which-OptIsValid s w v) in
        rw (e, respond_table_drop)
          (store-TablesAreValid s w t _ e (drop_do-TableIsValid g t k u old) v)
  ]

  remove-TablesAreValid :
      (s : RespondTables g) (w : RespondTableType) (k : CString)
      → TablesAreValid s
      → TablesAreValid (respond_table_remove g s w k)
  unfolding respond_table_remove
  remove-TablesAreValid s w k v = elim (Option-cases (respond_table_which g s w)) [
    | inl e ↦ rw (e, respond_table_remove) v
    | inr (t, e) ↦
        let old = subst OptIsValid e (which-OptIsValid s w v) in
        rw (e, respond_table_remove)
          (store-TablesAreValid s w t _ e (remove-TableIsValid g t k old) v)
  ]

  destroy-TablesAreValid :
      (s : RespondTables g) → TablesAreValid s → TablesAreValid (respond_table_destroy g s)
  unfolding respond_table_destroy
  destroy-TablesAreValid s v = elim (Bool-cases s.respond_table_has_table) [
    | inl e ↦
        rw (e, respond_table_destroy)
          (record {
            has_singleshot = refl;
            has_multirespond = refl;
            singleshot_valid = tt;
            multirespond_valid = tt;
          })
    | inr e ↦
        rw (e, respond_table_destroy)
          (record {
            has_singleshot = v.has_singleshot ∙ e;
            has_multirespond = v.has_multirespond ∙ e;
            singleshot_valid = v.singleshot_valid;
            multirespond_valid = v.multirespond_valid;
          })
  ]

  -- the variables as the C file initialises them
  abbrev pub no_tables : RespondTables g
  no_tables = record {
    respond_table_has_lock = false;
    respond_table_has_table = false;
    singleshot_table = none;
    multirespond_table = none;
  }

  no_tables-TablesAreValid : TablesAreValid no_tables
  no_tables-TablesAreValid = record {
    has_singleshot = refl;
    has_multirespond = refl;
    singleshot_valid = tt;
    multirespond_valid = tt;
  }

  -- A call that changes the tables.
  pub data TableCall : Type 0 where
    creates destroys : TableCall
    sets drops : RespondTableType → CString → CString → TableCall
    removes : RespondTableType → CString → TableCall

  abbrev pub table_step : RespondTables g → TableCall → RespondTables g
  table_step s creates = respond_table_create g s
  table_step s destroys = respond_table_destroy g s
  table_step s (sets w k u) = (respond_table_set g s w k u).0
  table_step s (drops w k u) = (respond_table_drop g s w k u).0
  table_step s (removes w k) = respond_table_remove g s w k

  abbrev pub table_run : RespondTables g → List TableCall → RespondTables g
  table_run s [] = s
  table_run s (c ∷ cs) = table_run (table_step s c) cs

  step-TablesAreValid :
      (s : RespondTables g) (c : TableCall) → TablesAreValid s → TablesAreValid (table_step s c)
  step-TablesAreValid s creates v = create-TablesAreValid s v
  step-TablesAreValid s destroys v = destroy-TablesAreValid s v
  step-TablesAreValid s (sets w k u) v = set-TablesAreValid s w k u v
  step-TablesAreValid s (drops w k u) v = drop-TablesAreValid s w k u v
  step-TablesAreValid s (removes w k) v = remove-TablesAreValid s w k v

  run_from-TablesAreValid :
      (s : RespondTables g) (cs : List TableCall)
      → TablesAreValid s
      → TablesAreValid (table_run s cs)
  run_from-TablesAreValid s [] v = v
  run_from-TablesAreValid s (c ∷ cs) v =
      run_from-TablesAreValid (table_step s c) cs (step-TablesAreValid s c v)

  -- After any calls that create, destroy, set, drop and remove, from the state in which the file
  -- starts: the flag says whether the tables are there, no task has a request twice, and a task is in
  -- a table only with requests.
  pub run-TablesAreValid : (cs : List TableCall) → TablesAreValid (table_run no_tables cs)
  run-TablesAreValid cs = run_from-TablesAreValid no_tables cs no_tables-TablesAreValid
