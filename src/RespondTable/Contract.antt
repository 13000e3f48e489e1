-- ===== src/RespondTable/Contract.antt =====
-- gear/respondtable.c: what each function of respondtable.h promises, over both tables.
use sawang.Prelude.{
  ◌≡◌, refl, Bool, true, false, not, Option, none, some, List, [], ◌&&◌, CString, is_some,
  if◌then◌else◌, arith, str_eq, contains, remove_first, length, inl, inr, Option-cases,
}
use sawang.Glib.{Glib}
use sawang.RespondTable.{
  RespondTables, RespondTableType, singleshot, multirespond, other, respond_table_which, store,
  respond_table_set, respond_table_drop, respond_table_set_do, respond_table_drop_do,
}
use sawang.RespondTable.Rids.{
  add_new, rids_in, rids_in-set_do, set_do-new, rids_in-drop_do, drop_do-exists, drop_do-remaining,
}

-- Two names of tables are the same; `other` names none.
abbrev pub same_table : RespondTableType → RespondTableType → Bool
same_table singleshot singleshot = true
same_table multirespond multirespond = true
same_table _ _ = false

module _ (g : Glib) where
  open g use {HashTable, hash_table_lookup}

  abbrev pub rids_of : Option HashTable → CString → List CString
  rids_of none k = []
  rids_of (some t) k = rids_in g t k

  -- The requests that wait for a task; none where there is no table.
  unfoldable pub rids : RespondTables g → RespondTableType → CString → List CString
  rids s w k = rids_of (respond_table_which g s w) k

  abbrev pub has_table : RespondTables g → RespondTableType → Bool
  has_table s w = is_some (respond_table_which g s w)

  which-store :
      (s : RespondTables g) (w w' : RespondTableType) (t' t : HashTable)
      → respond_table_which g s w ≡ some t
      → respond_table_which g (store g s w t') w'
        ≡ (if same_table w w' then some t' else respond_table_which g s w')
  unfolding respond_table_which store
  which-store s singleshot singleshot t' t e = refl
  which-store s singleshot multirespond t' t e = refl
  which-store s singleshot (other n) t' t e = refl
  which-store s multirespond singleshot t' t e = refl
  which-store s multirespond multirespond t' t e = refl
  which-store s multirespond (other n) t' t e = refl
  which-store s (other m) w' t' t e = cc

  same_table-which :
      (s : RespondTables g) (w w' : RespondTableType)
      → same_table w w' ≡ true
      → respond_table_which g s w' ≡ respond_table_which g s w
  same_table-which s singleshot singleshot e = refl
  same_table-which s multirespond multirespond e = refl
  same_table-which s singleshot multirespond e = cc
  same_table-which s singleshot (other n) e = cc
  same_table-which s multirespond singleshot e = cc
  same_table-which s multirespond (other n) e = cc
  same_table-which s (other m) w' e = cc

  -- `respond_table_set` adds the request at the end of its task's requests in the named table, if
  -- that table is there and the request is new to the task, and then returns true; it returns false
  -- otherwise, and changes the requests of no other task and of no other table.
  pub set-rids :
      (s : RespondTables g) (w : RespondTableType) (k u : CString)
      → ((w' : RespondTableType) (j : CString)
          → rids (respond_table_set g s w k u).0 w' j ≡ (
              if has_table s w && (same_table w w' && str_eq k j)
              then add_new (rids s w k) u
              else rids s w' j))
        × ((respond_table_set g s w k u).1 ≡ (has_table s w && not (contains (rids s w k) u)))
  unfolding rids respond_table_set
  set-rids s w k u = elim (Option-cases (respond_table_which g s w)) [
    | inl e ↦ (λ w' j. ground arith, ground arith)
    | inr (t, e) ↦ (
      λ w' j. ground (
        arith,
        which-store s w w' (respond_table_set_do g t k u).0 t e,
        same_table-which s w w',
        rids_in-set_do g t k u j,
      ),
      ground (arith, set_do-new g t k u),
    )
  ]

  -- `respond_table_drop` takes the first occurrence of the request out of its task's requests in
  -- the named table and changes the requests of no other task and of no other table. It returns
  -- whether the request was there; with a table, `*remaining` is the number of requests left to the
  -- task after a removal and 0 without one, and it is not written if there is no table.
  pub drop-rids :
      (s : RespondTables g) (w : RespondTableType) (k u : CString)
      → ((w' : RespondTableType) (j : CString)
          → rids (respond_table_drop g s w k u).0 w' j ≡ (
              if has_table s w && (same_table w w' && str_eq k j)
              then remove_first (rids s w k) u
              else rids s w' j))
        × ((respond_table_drop g s w k u).1 ≡ contains (rids s w k) u)
        × ((respond_table_drop g s w k u).2 ≡ (
            if has_table s w
            then some (if contains (rids s w k) u then length (remove_first (rids s w k) u) else 0)
            else none))
  unfolding rids respond_table_drop contains
  drop-rids s w k u = elim (Option-cases (respond_table_which g s w)) [
    | inl e ↦ (λ w' j. ground arith, ground arith, ground arith)
    | inr (t, e) ↦ (
      λ w' j. ground (
        arith,
        which-store s w w' (respond_table_drop_do g t k u).0 t e,
        same_table-which s w w',
        rids_in-drop_do g t k u j,
      ),
      ground (arith, drop_do-exists g t k u),
      ground (arith, drop_do-remaining g t k u),
    )
  ]
