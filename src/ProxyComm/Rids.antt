-- ===== src/ProxyComm/Rids.antt =====
-- gear/proxycomm.c: what the loop of `proxy_comm_reply` makes of an array of requests.
use sawang.Prelude.{
  ℕ, zero, suc, ◌+◌, ◌≡◌, refl, true, ◌&&◌, some, List, [], ◌∷◌, CString, if◌then◌else◌, str_eq,
  str_eq_iff, str_eq_refl, arith, length, get_elem?, remove_first,
}
use sawang.RespondTable.{
  RespondTables, RespondTableType, singleshot, multirespond, other, respond_table_drop,
}
use sawang.RespondTable.Contract.{rids, drop-rids, same_table, has_table}
use sawang.Proxy.{Env}
use sawang.ProxyComm.{reply_rids}

abbrev pub drop {ℓ} : {A : Type ℓ} → ℕ → List A → List A
drop zero xs = xs
drop (suc n) [] = []
drop (suc n) (x ∷ xs) = drop n xs

drop-eq-cons {ℓ} :
    {A : Type ℓ} (i : ℕ) (xs ys : List A) {y : A}
    → drop i xs ≡ y ∷ ys
    → (get_elem? xs i ≡ some y) × (drop (i + 1) xs ≡ ys)
drop-eq-cons zero [] ys h = cc
drop-eq-cons zero (x ∷ xs) ys h = ground arith
drop-eq-cons (suc i) [] ys h = cc
drop-eq-cons (suc i) (x ∷ xs) ys h = ground (arith, drop-eq-cons i xs ys h)

module _ (e : Env) where
  open e.json use {Json, create_string, add_item_to_array}
  open e.glib use {PtrArray, elements, ptr_array_index}

  -- an array of strings
  unfoldable pub rid_array : Json → List CString → Json
  rid_array rid [] = rid
  rid_array rid (u ∷ us) = rid_array (add_item_to_array rid (create_string u)) us

  -- the table of single responses without some requests of a task
  unfoldable pub drop_all : RespondTables e.glib → CString → List CString → RespondTables e.glib
  drop_all t k [] = t
  drop_all t k (u ∷ us) = drop_all (respond_table_drop e.glib t singleshot k u).0 k us

  abbrev pub dropped :
      RespondTableType → RespondTables e.glib → CString → List CString → RespondTables e.glib
  dropped singleshot t k us = drop_all t k us
  dropped _ t k us = t

  pub reply_rids-rid_array :
      (w : RespondTableType) (us : List CString) (k : CString) (arr : PtrArray) (i : ℕ)
      (t : RespondTables e.glib) (r : Json)
      → drop i (elements arr) ≡ us
      → reply_rids e w k arr (length us) i (t, r) ≡ (dropped w t k us, rid_array r us)
  unfolding reply_rids rid_array drop_all
  reply_rids-rid_array singleshot [] k arr i t r h = refl
  reply_rids-rid_array multirespond [] k arr i t r h = refl
  reply_rids-rid_array (other m) [] k arr i t r h = refl
  reply_rids-rid_array singleshot (u ∷ us) k arr i t r h =
      let (here, rest) = drop-eq-cons i (elements arr) us h in
      rw (e.glib.index-get_elem? arr i u here, reply_rids)
        (reply_rids-rid_array singleshot us k arr (i + 1) _ _ rest)
  reply_rids-rid_array multirespond (u ∷ us) k arr i t r h =
      let (here, rest) = drop-eq-cons i (elements arr) us h in
      rw (e.glib.index-get_elem? arr i u here, reply_rids)
        (reply_rids-rid_array multirespond us k arr (i + 1) _ _ rest)
  reply_rids-rid_array (other m) (u ∷ us) k arr i t r h =
      let (here, rest) = drop-eq-cons i (elements arr) us h in
      rw (e.glib.index-get_elem? arr i u here, reply_rids)
        (reply_rids-rid_array (other m) us k arr (i + 1) _ _ rest)

  has_table_of_rids :
      (t : RespondTables e.glib) (w : RespondTableType) (k : CString) {u : CString}
      {us : List CString}
      → rids e.glib t w k ≡ u ∷ us
      → has_table e.glib t w ≡ true
  unfolding rids
  has_table_of_rids t w k h = ground arith

  -- the first request of a task is dropped from a table
  drop_first :
      (t : RespondTables e.glib) (k u : CString) (us : List CString)
      → rids e.glib t singleshot k ≡ u ∷ us
      → (w : RespondTableType) (j : CString)
      → rids e.glib (respond_table_drop e.glib t singleshot k u).0 w j
        ≡ (if same_table singleshot w && str_eq k j then us else rids e.glib t w j)
  unfolding remove_first
  drop_first t k u us h w j = ground (
    arith,
    (drop-rids e.glib t singleshot k u).0 w j,
    has_table_of_rids t singleshot k h,
    str_eq_refl u,
  )

  pub rids-drop_all :
      (us : List CString) (t : RespondTables e.glib) (k : CString)
      → rids e.glib t singleshot k ≡ us
      → (w : RespondTableType) (j : CString)
      → rids e.glib (drop_all t k us) w j
        ≡ (if same_table singleshot w && str_eq k j then [] else rids e.glib t w j)
  unfolding drop_all
  rids-drop_all [] t k h singleshot j = ground (arith, str_eq_iff k j)
  rids-drop_all [] t k h multirespond j = refl
  rids-drop_all [] t k h (other n) j = refl
  rids-drop_all (u ∷ us) t k h w j =
      let t' = (respond_table_drop e.glib t singleshot k u).0 in
      let left : rids e.glib t' singleshot k ≡ us =
        rw (str_eq_refl k) at (drop_first t k u us h singleshot k) in
      ground (arith, rids-drop_all us t' k left w j, drop_first t k u us h w j)
