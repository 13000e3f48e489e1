-- ===== src/RespondTable/Valid.antt =====
-- gear/respondtable.c: the invariant of one table, and its two updates.
use sawang.Prelude.{
  inr, inl, ◌≡◌, refl, sym, Bool, true, false, some, List, [], ◌∷◌, ◌&&◌, CString, is_some,
  if◌then◌else◌, arith, str_eq, str_eq_iff, contains, remove_first, remove_first_absent, IsDistinct,
  append-IsDistinct, remove_first-IsDistinct, Bool-cases, Option-cases,
}
use sawang.Glib.{Glib}
use sawang.RespondTable.{respond_table_set_do, respond_table_drop_do}
use sawang.RespondTable.Rids.{
  add_new, rids_in, rids_in-set_do, rids_in-drop_do, find-contains, elements_removed,
}

abbrev pub is_cons {ℓ} : {A : Type ℓ} → List A → Bool
is_cons [] = false
is_cons (x ∷ xs) = true

add_new-IsDistinct :
    (us : List CString) (u : CString)
    → IsDistinct us
    → IsDistinct (add_new us u) × (is_cons (add_new us u) ≡ true)
unfolding add_new contains
add_new-IsDistinct [] u d = ground arith
add_new-IsDistinct (x ∷ us) u d = ground (arith, append-IsDistinct (x ∷ us) u d)

module _ (g : Glib) where
  open g use {HashTable, PtrArray, elements, hash_table_lookup}

  -- No array holds a request twice, and a stored array is not empty.
  abbrev pub TableIsValid : HashTable → Type 0
  TableIsValid t =
      (k : CString)
      → IsDistinct (rids_in g t k) × (is_some (hash_table_lookup t k) ≡ is_cons (rids_in g t k))

  lookup-set_do :
      (t : HashTable) (k u j : CString)
      → is_some (hash_table_lookup (respond_table_set_do g t k u).0 j)
        ≡ (if str_eq k j then true else is_some (hash_table_lookup t j))
  unfolding respond_table_set_do
  lookup-set_do t k u j = elim (Option-cases (hash_table_lookup t k)) [
    | inl e ↦
        let new = g.ptr_array_new_full 1 in
        ground (
          arith,
          g.lookup-mutate (g.hash_table_insert t k new) k (g.ptr_array_add new u) j,
          g.lookup-insert t k new j,
        )
    | inr (a, e) ↦ ground (arith, g.lookup-mutate t k (g.ptr_array_add a u) j, str_eq_iff k j)
  ]

  lookup-drop_do :
      (t : HashTable) (k u j : CString)
      → is_some (hash_table_lookup (respond_table_drop_do g t k u).0 j) ≡ (
          if str_eq k j && contains (rids_in g t k) u
          then is_cons (remove_first (rids_in g t k) u)
          else is_some (hash_table_lookup t j))
  unfolding rids_in respond_table_drop_do contains
  lookup-drop_do t k u j = elim (Option-cases (hash_table_lookup t k)) [
    | inl e ↦ ground (arith, g.find-null u)
    | inr (a, e) ↦ elim (Option-cases (g.ptr_array_find_with_equal_func (some a) u)) [
      | inl f ↦ ground (arith, find-contains g a u)
      | inr (i, f) ↦
          let rest = g.ptr_array_remove_index a i in
          ground (
            arith,
            find-contains g a u,
            g.lookup-mutate t k rest j,
            g.lookup-remove (g.hash_table_mutate t k rest) k j,
            g.len-elements rest,
            elements_removed g a u i f,
          )
    ]
  ]

  pub new_full-TableIsValid : TableIsValid g.hash_table_new_full
  unfolding rids_in
  new_full-TableIsValid k = rw (g.lookup-new_full k) (tt, refl)

  pub set_do-TableIsValid :
      (t : HashTable) (k u : CString)
      → TableIsValid t
      → TableIsValid (respond_table_set_do g t k u).0
  set_do-TableIsValid t k u v j =
      rw (rids_in-set_do g t k u j, lookup-set_do t k u j)
        (elim (Bool-cases (str_eq k j)) [
          | inl e ↦ let (d, c) = add_new-IsDistinct (rids_in g t k) u (v k).0 in rw e (d, sym c)
          | inr e ↦ rw e (v j)
        ])

  pub drop_do-TableIsValid :
      (t : HashTable) (k u : CString)
      → TableIsValid t
      → TableIsValid (respond_table_drop_do g t k u).0
  drop_do-TableIsValid t k u v j =
      rw (rids_in-drop_do g t k u j, lookup-drop_do t k u j)
        (ground (
          arith,
          v k,
          v j,
          str_eq_iff k j,
          remove_first-IsDistinct (rids_in g t k) u (v k).0,
          remove_first_absent (rids_in g t k) u,
        ))

  pub remove-TableIsValid :
      (t : HashTable) (k : CString) → TableIsValid t → TableIsValid (g.hash_table_remove t k)
  unfolding rids_in
  remove-TableIsValid t k v j = rw (g.lookup-remove t k j) (ground (arith, v j))
