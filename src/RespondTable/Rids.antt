-- ===== src/RespondTable/Rids.antt =====
-- gear/respondtable.c seen as a map from a task to the list of its requests.
use sawang.Prelude.{
  ℕ, ◌≡◌, sym, ◌∙◌, inl, inr, not, Option, none, some, List, [], ◌∷◌, ◌++◌, CString, is_some,
  if◌then◌else◌, arith, str_eq, str_eq_iff, contains, remove_first, index_of-contains,
  erase_idx-index_of, length, remove_first_absent, nil_of_length, Option-cases,
}
use sawang.Glib.{Glib}
use sawang.RespondTable.{respond_table_set_do, respond_table_drop_do}

-- The requests with a new one at the end, unless it is among them.
unfoldable pub add_new : List CString → CString → List CString
add_new us u = if contains us u then us else us ++ (u ∷ [])

module _ (g : Glib) where
  open g use {HashTable, PtrArray, elements, hash_table_lookup}

  abbrev pub elements_of : Option PtrArray → List CString
  elements_of none = []
  elements_of (some a) = elements a

  -- the requests of a task in one table
  unfoldable pub rids_in : HashTable → CString → List CString
  rids_in t k = elements_of (hash_table_lookup t k)

  -- the test of an array for a request
  pub find-contains :
      (a : PtrArray) (u : CString)
      → is_some (g.ptr_array_find_with_equal_func (some a) u) ≡ contains (elements a) u
  find-contains a u = rw (g.find-index_of a u) (index_of-contains (elements a) u)

  -- The effect of `respond_table_set_do` on the requests of every task.
  pub rids_in-set_do :
      (t : HashTable) (k u j : CString)
      → rids_in (respond_table_set_do g t k u).0 j
        ≡ (if str_eq k j then add_new (rids_in t k) u else rids_in t j)
  unfolding rids_in add_new contains respond_table_set_do
  rids_in-set_do t k u j = elim (Option-cases (hash_table_lookup t k)) [
    | inl e ↦
        let new = g.ptr_array_new_full 1 in
        ground (
          arith,
          g.lookup-mutate (g.hash_table_insert t k new) k (g.ptr_array_add new u) j,
          g.lookup-insert t k new j,
          g.elements-add new u,
          g.elements-new_full 1,
        )
    | inr (a, e) ↦ ground (
      arith,
      g.lookup-mutate t k (g.ptr_array_add a u) j,
      g.elements-add a u,
      find-contains a u,
      str_eq_iff k j,
    )
  ]

  pub set_do-new :
      (t : HashTable) (k u : CString)
      → (respond_table_set_do g t k u).1 ≡ not (contains (rids_in t k) u)
  unfolding rids_in contains respond_table_set_do
  set_do-new t k u = elim (Option-cases (hash_table_lookup t k)) [
    | inl e ↦ ground arith
    | inr (a, e) ↦ ground (arith, find-contains a u)
  ]

  -- What `respond_table_drop_do` returns.
  pub drop_do-exists :
      (t : HashTable) (k u : CString) → (respond_table_drop_do g t k u).1 ≡ contains (rids_in t k) u
  unfolding rids_in contains respond_table_drop_do
  drop_do-exists t k u = elim (Option-cases (hash_table_lookup t k)) [
    | inl e ↦ ground (arith, g.find-null u)
    | inr (a, e) ↦ ground (arith, find-contains a u)
  ]

  pub elements_removed :
      (a : PtrArray) (u : CString) (i : ℕ)
      → g.ptr_array_find_with_equal_func (some a) u ≡ some i
      → elements (g.ptr_array_remove_index a i) ≡ remove_first (elements a) u
  elements_removed a u i f =
      rw (g.elements-remove_index a i)
        (erase_idx-index_of (elements a) u i (sym (g.find-index_of a u) ∙ f))

  rids_in-remove_request :
      (t : HashTable) (k u j : CString) (a : PtrArray) (i : ℕ)
      → hash_table_lookup t k ≡ some a
      → g.ptr_array_find_with_equal_func (some a) u ≡ some i
      → rids_in (respond_table_drop_do g t k u).0 j
        ≡ (if str_eq k j then remove_first (rids_in t k) u else rids_in t j)
  unfolding rids_in respond_table_drop_do
  rids_in-remove_request t k u j a i e f =
      let rest = g.ptr_array_remove_index a i in
      ground (
        arith,
        g.lookup-mutate t k rest j,
        g.lookup-remove (g.hash_table_mutate t k rest) k j,
        g.len-elements rest,
        elements_removed a u i f,
        nil_of_length (remove_first (elements a) u),
      )

  -- The effect of `respond_table_drop_do` on the requests of every task.
  pub rids_in-drop_do :
      (t : HashTable) (k u j : CString)
      → rids_in (respond_table_drop_do g t k u).0 j
        ≡ (if str_eq k j then remove_first (rids_in t k) u else rids_in t j)
  unfolding rids_in respond_table_drop_do remove_first
  rids_in-drop_do t k u j = elim (Option-cases (hash_table_lookup t k)) [
    | inl e ↦ ground (arith, g.find-null u, str_eq_iff k j)
    | inr (a, e) ↦ elim (Option-cases (g.ptr_array_find_with_equal_func (some a) u)) [
      | inl f ↦
          ground (arith, find-contains a u, remove_first_absent (elements a) u, str_eq_iff k j)
      | inr (i, f) ↦ rids_in-remove_request t k u j a i e f
    ]
  ]

  -- How many requests `respond_table_drop_do` leaves.
  pub drop_do-remaining :
      (t : HashTable) (k u : CString)
      → (respond_table_drop_do g t k u).2
        ≡ (if contains (rids_in t k) u then length (remove_first (rids_in t k) u) else 0)
  unfolding rids_in respond_table_drop_do contains
  drop_do-remaining t k u = elim (Option-cases (hash_table_lookup t k)) [
    | inl e ↦ ground (arith, g.find-null u)
    | inr (a, e) ↦ elim (Option-cases (g.ptr_array_find_with_equal_func (some a) u)) [
      | inl f ↦ ground (arith, find-contains a u)
      | inr (i, f) ↦ ground (
        arith,
        find-contains a u,
        elements_removed a u i f,
        g.len-elements (g.ptr_array_remove_index a i),
      )
    ]
  ]
