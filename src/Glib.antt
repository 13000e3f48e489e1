-- ===== src/Glib.antt =====
-- GLib, which the program calls and does not contain: a record of the operations, with what its
-- documentation says of them. Arrays hold strings, and a table maps a string to an array.
use sawang.Prelude.{
  Bool, ◌==◌, ℕ, ◌≡◌, Option, none, some, List, [], ◌∷◌, ◌++◌, CString, str_eq, index_of, erase_idx,
  length, get_elem?, if◌then◌else◌, All,
}
pub mod Model

-- The value at the first pair with a key.
unfoldable pub assoc {ℓ} : {V : Type ℓ} → List (CString × V) → CString → Option V
assoc [] k = none
assoc ((j, v) ∷ m) k = if str_eq j k then some v else assoc m k

pub record Glib : Type 1 where
  pub PtrArray : Type 0
  pub elements : PtrArray → List CString
  pub ptr_array_new_full : ℕ → PtrArray
  pub ptr_array_add : PtrArray → CString → PtrArray
  pub ptr_array_find_with_equal_func : Option PtrArray → CString → Option ℕ
  pub ptr_array_remove_index : PtrArray → ℕ → PtrArray
  pub ptr_array_copy : PtrArray → PtrArray
  pub ptr_array_len : PtrArray → ℕ
  pub ptr_array_index : PtrArray → ℕ → CString
  pub HashTable : Type 0
  pub hash_table_new_full : HashTable
  pub hash_table_lookup : HashTable → CString → Option PtrArray
  pub hash_table_insert : HashTable → CString → PtrArray → HashTable
  pub hash_table_remove : HashTable → CString → HashTable
  -- the table once the array stored under a key has been changed in place, through its pointer
  pub hash_table_mutate : HashTable → CString → PtrArray → HashTable
  -- what an iterator over the table yields, in its order
  pub hash_table_iter : HashTable → List (CString × PtrArray)
  pub elements-new_full : (n : ℕ) → elements (ptr_array_new_full n) ≡ []
  pub elements-add :
      (a : PtrArray) (s : CString) → elements (ptr_array_add a s) ≡ elements a ++ (s ∷ [])
  -- a null array is refused by a check that returns FALSE
  pub find-null : (s : CString) → ptr_array_find_with_equal_func none s ≡ none
  pub find-index_of :
      (a : PtrArray) (s : CString)
      → ptr_array_find_with_equal_func (some a) s ≡ index_of (elements a) s
  pub elements-remove_index :
      (a : PtrArray) (i : ℕ) → elements (ptr_array_remove_index a i) ≡ erase_idx (elements a) i
  pub elements-copy : (a : PtrArray) → elements (ptr_array_copy a) ≡ elements a
  pub len-elements : (a : PtrArray) → ptr_array_len a ≡ length (elements a)
  pub index-get_elem? :
      (a : PtrArray) (i : ℕ) (s : CString)
      → get_elem? (elements a) i ≡ some s
      → ptr_array_index a i ≡ s
  pub lookup-new_full : (k : CString) → hash_table_lookup hash_table_new_full k ≡ none
  pub lookup-insert :
      (t : HashTable) (k : CString) (a : PtrArray) (j : CString)
      → hash_table_lookup (hash_table_insert t k a) j
        ≡ (if str_eq k j then some a else hash_table_lookup t j)
  pub lookup-remove :
      (t : HashTable) (k j : CString)
      → hash_table_lookup (hash_table_remove t k) j
        ≡ (if str_eq k j then none else hash_table_lookup t j)
  pub lookup-mutate :
      (t : HashTable) (k : CString) (a : PtrArray) (j : CString)
      → hash_table_lookup (hash_table_mutate t k a) j
        ≡ (if str_eq k j then some a else hash_table_lookup t j)
  pub iter-All : (t : HashTable) → All (λ e. hash_table_lookup t e.0 ≡ some e.1) (hash_table_iter t)
  pub iter-lookup :
      (t : HashTable) (k : CString) → assoc (hash_table_iter t) k ≡ hash_table_lookup t k

-- The first and the last element, and the list without it.
abbrev pub head? {ℓ} : {A : Type ℓ} → List A → Option A
head? [] = none
head? (x ∷ xs) = some x

abbrev pub tail {ℓ} : {A : Type ℓ} → List A → List A
tail [] = []
tail (x ∷ xs) = xs

abbrev pub get_last? {ℓ} : {A : Type ℓ} → List A → Option A
get_last? [] = none
get_last? (x ∷ []) = some x
get_last? (x ∷ y ∷ xs) = get_last? (y ∷ xs)

abbrev pub drop_last {ℓ} : {A : Type ℓ} → List A → List A
drop_last [] = []
drop_last (x ∷ []) = []
drop_last (x ∷ y ∷ xs) = x ∷ drop_last (y ∷ xs)

-- GQueue: a pop returns null on an empty queue and leaves it empty.
pub record GQueue (A : Type 0) : Type 1 where
  pub Queue : Type 0
  pub contents : Queue → List A
  pub queue_new : Queue
  pub queue_push_tail : Queue → A → Queue
  pub queue_push_head : Queue → A → Queue
  pub queue_pop_head : Queue → Option A × Queue
  pub queue_pop_tail : Queue → Option A × Queue
  pub queue_get_length : Queue → ℕ
  pub queue_is_empty : Queue → Bool
  pub contents-new : contents queue_new ≡ []
  pub contents-push_tail :
      (q : Queue) (a : A) → contents (queue_push_tail q a) ≡ contents q ++ (a ∷ [])
  pub contents-push_head : (q : Queue) (a : A) → contents (queue_push_head q a) ≡ a ∷ contents q
  pub pop_head-head? : (q : Queue) → (queue_pop_head q).0 ≡ head? (contents q)
  pub contents-pop_head : (q : Queue) → contents (queue_pop_head q).1 ≡ tail (contents q)
  pub pop_tail-get_last? : (q : Queue) → (queue_pop_tail q).0 ≡ get_last? (contents q)
  pub contents-pop_tail : (q : Queue) → contents (queue_pop_tail q).1 ≡ drop_last (contents q)
  pub get_length-contents : (q : Queue) → queue_get_length q ≡ length (contents q)
  pub is_empty-contents : (q : Queue) → queue_is_empty q ≡ (length (contents q) == 0)
