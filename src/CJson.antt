-- ===== src/CJson.antt =====
-- cJSON, which the program calls and does not contain: a record of the operations, with what its
-- documentation says of them. A `Json` is a value: two of them are the same if their contents are.
pub mod Model
use sawang.Prelude.{
  ℕ, ◌+◌, ◌≡◌, Bool, true, ◌&&◌, Option, none, some, CString, str_eq, if◌then◌else◌, map, leb,
}

-- tolower of one byte
unfoldable pub lower : ℕ → ℕ
lower c = if leb b'A' c && leb c b'Z' then c + 32 else c

-- `cJSON_GetObjectItem` compares keys without regard to case.
unfoldable pub same_key : CString → CString → Bool
unfolding lower str_eq
same_key j k = str_eq (map lower j) (map lower k)

pub record CJson : Type 1 where
  pub Json : Type 0
  pub parse : CString → Option Json
  pub print_unformatted : Json → CString
  pub create_object : Json
  pub create_array : Json
  pub create_string : CString → Json
  pub create_number : ℕ → Json
  pub add_item_to_object : Json → CString → Json → Json
  pub add_item_to_array : Json → Json → Json
  pub duplicate : Json → Json
  pub get_object_item : Json → CString → Option Json
  pub get_string_value : Json → Option CString
  pub get_array_size : Json → ℕ
  pub get_array_item : Json → ℕ → Option Json
  pub is_object : Json → Bool
  -- the text that is printed for a value parses to it again
  pub parse-print : (j : Json) → parse (print_unformatted j) ≡ some j
  pub duplicate-id : (j : Json) → duplicate j ≡ j
  pub string_value-create : (s : CString) → get_string_value (create_string s) ≡ some s
  pub string_value-array : get_string_value create_array ≡ none
  pub string_value-add :
      (a v : Json) → get_string_value a ≡ none → get_string_value (add_item_to_array a v) ≡ none
  pub is_object-create : is_object create_object ≡ true
  pub is_object-add :
      (o : Json) (k : CString) (v : Json)
      → is_object o ≡ true
      → is_object (add_item_to_object o k v) ≡ true
  pub item-create : (k : CString) → get_object_item create_object k ≡ none
  -- an item goes to the end of an object, and the first item with a key counts
  pub item-add :
      (o : Json) (k : CString) (v : Json) (j : CString)
      → is_object o ≡ true
      → get_object_item (add_item_to_object o k v) j ≡ elim (get_object_item o j) [
        | none ↦ (if same_key k j then some v else none)
        | some w ↦ some w
      ]
