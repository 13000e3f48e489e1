-- ===== src/CJson/Model.antt =====
-- A cJSON of trees with a prefix code as their text, which meets what `CJson` asks.
use sawang.Prelude.{
  ℕ, zero, suc, ◌+◌, ◌≤◌, ◌≡◌, refl, Bool, true, false, Option, none, some, List, [], ◌∷◌, ◌++◌,
  append_assoc, append-nil, CString, get_elem?, if◌then◌else◌, arith, length, length-append,
}
use sawang.CJson.{CJson, same_key}

-- An array and an object hold a first element and the rest.
pub data Tree : Type 0 where
  null : Tree
  num : ℕ → Tree
  str : CString → Tree
  nil_arr : Tree
  cons_arr : Tree → Tree → Tree
  nil_obj : Tree
  cons_obj : CString → Tree → Tree → Tree

unfoldable pub encode : Tree → CString
encode null = 0 ∷ []
encode (num n) = 1 ∷ n ∷ []
encode (str s) = 2 ∷ length s ∷ s
encode nil_arr = 3 ∷ []
encode (cons_arr a b) = 4 ∷ (encode a ++ encode b)
encode nil_obj = 5 ∷ []
encode (cons_obj k v r) = 6 ∷ length k ∷ (k ++ (encode v ++ encode r))

-- The first bytes of a text and the rest.
unfoldable pub split_at : ℕ → CString → CString × CString
split_at zero s = ([], s)
split_at (suc n) [] = ([], [])
split_at (suc n) (c ∷ s) = let (a, b) = split_at n s in (c ∷ a, b)

unfoldable pub decode_two :
    (CString → Option (Tree × CString)) → (Tree → Tree → Tree) → CString → Option (Tree × CString)
decode_two rec f s = elim (rec s) [
  | none ↦ none
  | some (a, r) ↦ elim (rec r) [ none ↦ none | some (b, r') ↦ some (f a b, r') ]
]

unfoldable pub decode_tag :
    (CString → Option (Tree × CString)) → ℕ → CString → Option (Tree × CString)
unfolding decode_two split_at
decode_tag rec zero s = some (null, s)
decode_tag rec (suc zero) (n ∷ s) = some (num n, s)
decode_tag rec (suc (suc zero)) (n ∷ s) = let (a, r) = split_at n s in some (str a, r)
decode_tag rec (suc (suc (suc zero))) s = some (nil_arr, s)
decode_tag rec (suc (suc (suc (suc zero)))) s = decode_two rec cons_arr s
decode_tag rec (suc (suc (suc (suc (suc zero))))) s = some (nil_obj, s)
decode_tag rec (suc (suc (suc (suc (suc (suc zero)))))) (n ∷ s) =
    let (k, r) = split_at n s in decode_two rec (cons_obj k) r
decode_tag rec _ s = none

unfoldable pub decode : ℕ → CString → Option (Tree × CString)
unfolding decode_tag
decode zero s = none
decode (suc fuel) [] = none
decode (suc fuel) (tag ∷ s) = decode_tag (decode fuel) tag s

size : Tree → ℕ
size (cons_arr a b) = size a + size b + 1
size (cons_obj k v r) = size v + size r + 1
size _ = 1

split_at-append : (s r : CString) → split_at (length s) (s ++ r) ≡ (s, r)
unfolding split_at
split_at-append [] r = refl
split_at-append (c ∷ s) r = rw (split_at-append s r)

split_key : (k a b r : CString) → split_at (length k) ((k ++ (a ++ b)) ++ r) ≡ (k, a ++ (b ++ r))
split_key k a b r =
    rw (append_assoc k (a ++ b) r, append_assoc a b r) (split_at-append k (a ++ (b ++ r)))

decode-encode :
    (fuel : ℕ) (t : Tree) (r : CString) → size t ≤ fuel → decode fuel (encode t ++ r) ≡ some (t, r)
unfolding decode encode size
decode-encode zero null r h = absurd (omega arith)
decode-encode zero (num n) r h = absurd (omega arith)
decode-encode zero (str s) r h = absurd (omega arith)
decode-encode zero nil_arr r h = absurd (omega arith)
decode-encode zero (cons_arr a b) r h = absurd (omega arith)
decode-encode zero nil_obj r h = absurd (omega arith)
decode-encode zero (cons_obj k v o) r h = absurd (omega arith)
decode-encode (suc f) null r h = refl
decode-encode (suc f) (num n) r h = refl
decode-encode (suc f) (str s) r h = rw (split_at-append s r)
decode-encode (suc f) nil_arr r h = refl
decode-encode (suc f) (cons_arr a b) r h = rw (append_assoc (encode a) (encode b) r) (
    rw (decode-encode f a (encode b ++ r) (omega arith), decode_two)
      (rw (decode-encode f b r (omega arith))))
decode-encode (suc f) nil_obj r h = refl
decode-encode (suc f) (cons_obj k v o) r h = rw (split_key k (encode v) (encode o) r) (
    rw (decode-encode f v (encode o ++ r) (omega arith))
      (rw (decode-encode f o r (omega arith)) (rw (split_key k (encode v) (encode o) r))))

size-le : (t : Tree) → size t ≤ length (encode t)
unfolding encode size
size-le null = omega arith
size-le (num n) = omega arith
size-le (str s) = omega arith
size-le nil_arr = omega arith
size-le (cons_arr a b) = omega (arith, size-le a, size-le b, length-append (encode a) (encode b))
size-le nil_obj = omega arith
size-le (cons_obj k v r) = omega (
  arith,
  size-le v,
  size-le r,
  length-append (encode v) (encode r),
  length-append k (encode v ++ encode r),
)

unfoldable pub parse_tree : CString → Option Tree
unfolding decode
parse_tree s = elim (decode (length s) s) [ none ↦ none | some (t, r) ↦ some t ]

pub parse-encode : (t : Tree) → parse_tree (encode t) ≡ some t
unfolding parse_tree
parse-encode t =
    let whole = decode-encode (length (encode t)) t [] (size-le t) in
    rw (rw (append-nil (encode t)) at whole, parse_tree)

unfoldable pub add_to_object : Tree → CString → Tree → Tree
add_to_object nil_obj k v = cons_obj k v nil_obj
add_to_object (cons_obj j w r) k v = cons_obj j w (add_to_object r k v)
add_to_object t k v = t

unfoldable pub add_to_array : Tree → Tree → Tree
add_to_array nil_arr v = cons_arr v nil_arr
add_to_array (cons_arr a r) v = cons_arr a (add_to_array r v)
add_to_array t v = t

unfoldable pub item_of : Tree → CString → Option Tree
item_of (cons_obj j v r) k = if same_key j k then some v else item_of r k
item_of t k = none

-- An object all of whose rests are objects.
unfoldable pub is_obj : Tree → Bool
is_obj nil_obj = true
is_obj (cons_obj k v r) = is_obj r
is_obj _ = false

abbrev pub string_of : Tree → Option CString
string_of (str s) = some s
string_of _ = none

unfoldable pub elements_of : Tree → List Tree
elements_of (cons_arr a r) = a ∷ elements_of r
elements_of (cons_obj k v r) = v ∷ elements_of r
elements_of _ = []

pub string_value-add : (a v : Tree) → string_of a ≡ none → string_of (add_to_array a v) ≡ none
unfolding add_to_array
string_value-add a v h = ground arith

pub is_object-add :
    (o : Tree) (k : CString) (v : Tree) → is_obj o ≡ true → is_obj (add_to_object o k v) ≡ true
unfolding is_obj add_to_object
is_object-add nil_obj k v h = refl
is_object-add (cons_obj j w r) k v h = is_object-add r k v h
is_object-add _ k v h = cc

pub item-add :
    (o : Tree) (k : CString) (v : Tree) (j : CString)
    → is_obj o ≡ true
    → item_of (add_to_object o k v) j
      ≡ elim (item_of o j) [ none ↦ (if same_key k j then some v else none) | some w ↦ some w ]
unfolding is_obj add_to_object item_of
item-add nil_obj k v j h = refl
item-add (cons_obj i w r) k v j h = ground (arith, item-add r k v j)
item-add _ k v j h = cc

unfoldable pub tree_json : CJson
unfolding encode parse_tree add_to_object add_to_array item_of is_obj elements_of
tree_json = record {
  Json = Tree;
  parse = parse_tree;
  print_unformatted = encode;
  create_object = nil_obj;
  create_array = nil_arr;
  create_string = str;
  create_number = num;
  add_item_to_object = add_to_object;
  add_item_to_array = add_to_array;
  duplicate = λ j. j;
  get_object_item = item_of;
  get_string_value = string_of;
  get_array_size = λ j. length (elements_of j);
  get_array_item = λ j i. get_elem? (elements_of j) i;
  is_object = is_obj;
  parse-print = parse-encode;
  duplicate-id = λ j. refl;
  string_value-create = λ s. refl;
  string_value-array = refl;
  string_value-add = string_value-add;
  is_object-create = refl;
  is_object-add = is_object-add;
  item-create = λ k. refl;
  item-add = item-add;
}
