-- ===== src/RespondTable.antt =====
-- gear/respondtable.c and gear/respondtable.h: which requests wait for the answer to a task. Each
-- function of the header runs under one lock, so it is one step on the state.
pub mod Rids
pub mod Valid
pub mod Contract
pub mod Invariant
pub mod Reads
use sawang.Prelude.{
  ℕ, Bool, true, false, not, Option, none, some, List, [], ◌∷◌, CString, is_some, if◌then◌else◌,
  ltb,
}
use sawang.Glib.{Glib}

-- `other` is a value of the C enum that is none of its names.
pub data RespondTableType : Type 0 where
  singleshot multirespond : RespondTableType
  other : ℕ → RespondTableType

module _ (g : Glib) where
  open g use {
    PtrArray, ptr_array_new_full, ptr_array_add, ptr_array_find_with_equal_func,
    ptr_array_remove_index, ptr_array_copy, ptr_array_len, HashTable, hash_table_new_full,
    hash_table_lookup, hash_table_insert, hash_table_remove, hash_table_mutate, hash_table_iter,
  }

  -- the file's static variables; `none` is a null pointer
  pub record RespondTables : Type 0 where
    pub respond_table_has_lock : Bool
    pub respond_table_has_table : Bool
    pub singleshot_table : Option HashTable
    pub multirespond_table : Option HashTable

  unfoldable pub respond_table_create : RespondTables → RespondTables
  respond_table_create s =
      let t = record s { respond_table_has_lock = true } in
      if t.respond_table_has_table then t else record t {
        respond_table_has_table = true;
        singleshot_table = some hash_table_new_full;
        multirespond_table = some hash_table_new_full;
      }

  unfoldable pub respond_table_destroy : RespondTables → RespondTables
  respond_table_destroy s =
      let t =
        if s.respond_table_has_table
        then record s {
          respond_table_has_table = false;
          singleshot_table = none;
          multirespond_table = none;
        }
        else s in
      record t { respond_table_has_lock = false }

  unfoldable pub respond_table_which : RespondTables → RespondTableType → Option HashTable
  respond_table_which s singleshot = s.singleshot_table
  respond_table_which s multirespond = s.multirespond_table
  respond_table_which s (other n) = none

  -- writes a table back to its variable; a `which` with no table has nothing to write
  unfoldable pub store : RespondTables → RespondTableType → HashTable → RespondTables
  store s singleshot t = record s { singleshot_table = some t }
  store s multirespond t = record s { multirespond_table = some t }
  store s (other n) t = s

  -- the array of a task, a new one if there is none, and whether the request is new to it
  unfoldable pub find_or_insert : HashTable → CString → CString → HashTable × PtrArray × Bool
  find_or_insert table task_key request_uuid = elim (hash_table_lookup table task_key) [
    | none ↦ let arr = ptr_array_new_full 1 in (hash_table_insert table task_key arr, arr, true)
    | some arr ↦
        (table, arr, not (is_some (ptr_array_find_with_equal_func (some arr) request_uuid)))
  ]

  unfoldable pub respond_table_set_do : HashTable → CString → CString → HashTable × Bool
  unfolding find_or_insert
  respond_table_set_do table task_key request_uuid =
      let (t, arr, new_entry) = find_or_insert table task_key request_uuid in
      if new_entry
      then (hash_table_mutate t task_key (ptr_array_add arr request_uuid), true)
      else (t, false)

  -- the array without an entry, and the table without the array once that is empty
  unfoldable pub remove_request : HashTable → CString → Option PtrArray → ℕ → HashTable × Bool × ℕ
  remove_request table task_key none idx = (table, false, 0)
  remove_request table task_key (some arr) idx =
      let rest = ptr_array_remove_index arr idx in
      let count = ptr_array_len rest in
      let t = hash_table_mutate table task_key rest in
      (if ltb count 1 then hash_table_remove t task_key else t, true, count)

  -- the new table, whether the request was there, and what `*remaining` is set to
  unfoldable pub respond_table_drop_do : HashTable → CString → CString → HashTable × Bool × ℕ
  unfolding remove_request
  respond_table_drop_do table task_key request_uuid =
      let arr = hash_table_lookup table task_key in
      elim (ptr_array_find_with_equal_func arr request_uuid) [
        | none ↦ (table, false, 0)
        | some idx ↦ remove_request table task_key arr idx
      ]

  -- true on a new entry
  unfoldable pub respond_table_set :
      RespondTables → RespondTableType → CString → CString → RespondTables × Bool
  unfolding respond_table_which store respond_table_set_do
  respond_table_set s which task_key request_uuid = elim (respond_table_which s which) [
    | none ↦ (s, false)
    | some table ↦
        let (t, new_entry) = respond_table_set_do table task_key request_uuid in
        (store s which t, new_entry)
  ]

  -- a `remaining` of `none` means that `*remaining` is not written
  unfoldable pub respond_table_drop :
      RespondTables → RespondTableType → CString → CString → RespondTables × Bool × Option ℕ
  unfolding respond_table_which store respond_table_drop_do
  respond_table_drop s which task_key request_uuid = elim (respond_table_which s which) [
    | none ↦ (s, false, none)
    | some table ↦
        let (t, exists, remaining) = respond_table_drop_do table task_key request_uuid in
        (store s which t, exists, some remaining)
  ]

  unfoldable pub respond_table_request_dup :
      RespondTables → RespondTableType → CString → Option PtrArray
  unfolding respond_table_which
  respond_table_request_dup s which task_key = elim (respond_table_which s which) [
    | none ↦ none
    | some table ↦ elim (hash_table_lookup table task_key) [
      | none ↦ none
      | some arr ↦ some (ptr_array_copy arr)
    ]
  ]

  -- the loop of `respond_table_dup_task_key`: the first task whose array has the request
  unfoldable pub task_key_of : List (CString × PtrArray) → CString → Option CString
  task_key_of [] request_uuid = none
  task_key_of ((tk, arr) ∷ rest) request_uuid =
      if is_some (ptr_array_find_with_equal_func (some arr) request_uuid)
      then some tk
      else task_key_of rest request_uuid

  unfoldable pub respond_table_dup_task_key :
      RespondTables → RespondTableType → CString → Option CString
  unfolding respond_table_which task_key_of
  respond_table_dup_task_key s which request_uuid = elim (respond_table_which s which) [
    | none ↦ none
    | some table ↦ task_key_of (hash_table_iter table) request_uuid
  ]

  unfoldable pub respond_table_remove : RespondTables → RespondTableType → CString → RespondTables
  unfolding respond_table_which store
  respond_table_remove s which task_key = elim (respond_table_which s which) [
    | none ↦ s
    | some table ↦ store s which (hash_table_remove table task_key)
  ]

  unfoldable pub respond_table_task_exists : RespondTables → RespondTableType → CString → Bool
  unfolding respond_table_which
  respond_table_task_exists s which task_key = elim (respond_table_which s which) [
    | none ↦ false
    | some table ↦ is_some (hash_table_lookup table task_key)
  ]

  unfoldable pub respond_table_request_exists :
      RespondTables → RespondTableType → CString → CString → Bool
  unfolding respond_table_which
  respond_table_request_exists s which task_key request_uuid = elim (respond_table_which s which) [
    | none ↦ false
    | some table ↦ elim (hash_table_lookup table task_key) [
      | none ↦ false
      | some arr ↦ is_some (ptr_array_find_with_equal_func (some arr) request_uuid)
    ]
  ]
