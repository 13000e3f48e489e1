-- ===== src/Glib/Model.antt =====
-- A GLib of lists, which meets what `Glib` asks: arrays are lists of strings, and a table is a list
-- of pairs in which the first pair with a key counts.
use sawang.Prelude.{
  ◌==◌, ℕ, zero, suc, get_elem?, ◌≡◌, refl, Option, none, some, List, [], ◌∷◌, ◌++◌, CString, All,
  if◌then◌else◌, arith, str_eq, str_eq_iff, str_eq_refl, index_of, erase_idx, length,
}
use sawang.Glib.{Glib, GQueue, assoc, head?, tail, get_last?, drop_last}

abbrev pub find : Option (List CString) → CString → Option ℕ
find none s = none
find (some a) s = index_of a s

abbrev pub at : List CString → ℕ → CString
at [] i = []
at (x ∷ xs) zero = x
at (x ∷ xs) (suc i) = at xs i

pub index-get_elem? : (a : List CString) (i : ℕ) (s : CString) → get_elem? a i ≡ some s → at a i ≡ s
index-get_elem? [] i s e = cc
index-get_elem? (x ∷ xs) zero s e = cc
index-get_elem? (x ∷ xs) (suc i) s e = index-get_elem? xs i s e

abbrev pub Table : Type 0
Table = List (CString × List CString)

unfoldable pub drop_key : CString → Table → Table
drop_key k [] = []
drop_key k (e ∷ m) = if str_eq k e.0 then drop_key k m else e ∷ drop_key k m

unfoldable pub iter : Table → Table
unfolding drop_key
iter [] = []
iter (e ∷ m) = e ∷ drop_key e.0 (iter m)

pub assoc-drop_key :
    (t : Table) (k j : CString) → assoc (drop_key k t) j ≡ (if str_eq k j then none else assoc t j)
unfolding assoc drop_key
assoc-drop_key [] k j = ground arith
assoc-drop_key ((i, v) ∷ t) k j =
    ground (arith, assoc-drop_key t k j, str_eq_iff k i, str_eq_iff i j, str_eq_iff k j)

pub assoc-iter : (t : Table) (k : CString) → assoc (iter t) k ≡ assoc t k
unfolding assoc iter
assoc-iter [] k = refl
assoc-iter ((i, v) ∷ t) k = ground (arith, assoc-drop_key (iter t) i k, assoc-iter t k)

drop_key-All :
    (t : Table) (k : CString) (v : List CString) (es : Table)
    → All (λ e. assoc t e.0 ≡ some e.1) es
    → All (λ e. assoc ((k, v) ∷ t) e.0 ≡ some e.1) (drop_key k es)
unfolding drop_key assoc
drop_key-All t k v [] h = tt
drop_key-All t k v ((i, w) ∷ es) h = ground (arith, drop_key-All t k v es h.1)

pub iter-All : (t : Table) → All (λ e. assoc t e.0 ≡ some e.1) (iter t)
unfolding iter assoc
iter-All [] = tt
iter-All ((k, v) ∷ t) = (ground (arith, str_eq_refl k), drop_key-All t k v (iter t) (iter-All t))

pub assoc-cons :
    (t : Table) (k : CString) (v : List CString) (j : CString)
    → assoc ((k, v) ∷ t) j ≡ (if str_eq k j then some v else assoc t j)
unfolding assoc
assoc-cons t k v j = refl

unfoldable pub list_glib : Glib
unfolding assoc drop_key iter
list_glib = record {
  PtrArray = List CString;
  elements = λ a. a;
  ptr_array_new_full = λ n. [];
  ptr_array_add = λ a s. a ++ (s ∷ []);
  ptr_array_find_with_equal_func = find;
  ptr_array_remove_index = erase_idx;
  ptr_array_copy = λ a. a;
  ptr_array_len = length;
  ptr_array_index = at;
  HashTable = Table;
  hash_table_new_full = [];
  hash_table_lookup = assoc;
  hash_table_insert = λ t k a. (k, a) ∷ t;
  hash_table_remove = λ t k. drop_key k t;
  hash_table_mutate = λ t k a. (k, a) ∷ t;
  hash_table_iter = iter;
  elements-new_full = λ n. refl;
  elements-add = λ a s. refl;
  find-null = λ s. refl;
  find-index_of = λ a s. refl;
  elements-remove_index = λ a i. refl;
  elements-copy = λ a. refl;
  len-elements = λ a. refl;
  index-get_elem? = index-get_elem?;
  lookup-new_full = λ k. refl;
  lookup-insert = assoc-cons;
  lookup-remove = assoc-drop_key;
  lookup-mutate = assoc-cons;
  iter-All = iter-All;
  iter-lookup = assoc-iter;
}

-- A queue of lists, which meets this.
abbrev pub list_queue : (A : Type 0) → GQueue A
list_queue A = record {
  Queue = List A;
  contents = λ q. q;
  queue_new = [];
  queue_push_tail = λ q a. q ++ (a ∷ []);
  queue_push_head = λ q a. a ∷ q;
  queue_pop_head = λ q. (head? q, tail q);
  queue_pop_tail = λ q. (get_last? q, drop_last q);
  queue_get_length = length;
  queue_is_empty = λ q. length q == 0;
  contents-new = refl;
  contents-push_tail = λ q a. refl;
  contents-push_head = λ q a. refl;
  pop_head-head? = λ q. refl;
  contents-pop_head = λ q. refl;
  pop_tail-get_last? = λ q. refl;
  contents-pop_tail = λ q. refl;
  get_length-contents = λ q. refl;
  is_empty-contents = λ q. refl;
}
