-- ===== src/ConfVar.antt =====
-- gear/confvar.c: the configuration file of a proxy. A list of variables is the linked list of the
-- source, and an empty list is its null pointer.
pub mod Lines
pub mod Numbers
pub mod Validate
use sawang.Prelude.{
  ℕ, zero, suc, ◌-◌, Bool, ◌||◌, not, Option, none, some, List, [], ◌∷◌, ◌++◌, CString, codes,
  if◌then◌else◌, str_eq, length, ltb, ◌==◌,
}

pub record ConfVar : Type 0 where
  pub name : CString
  pub value : CString

abbrev pub mandatory : List CString
mandatory = codes "pidfile" ∷ codes "logpath" ∷ codes "sawang" ∷ codes "gonggo" ∷ []

abbrev pub is_blank : ℕ → Bool
is_blank c = c == b' ' || c == b'\t'

-- the text up to the first `#`, without blanks
unfoldable pub squeeze_space : CString → CString
squeeze_space [] = []
squeeze_space (c ∷ s) =
    let rest = squeeze_space s in if c == b'#' then [] else if is_blank c then rest else c ∷ rest

-- strchr: what stands before and after the first occurrence of a byte
unfoldable pub cut : ℕ → CString → Option (CString × CString)
cut b [] = none
cut b (c ∷ s) =
    let rest = cut b s in
    if c == b
    then some ([], s)
    else elim rest [ none ↦ none | some (before, after) ↦ some (c ∷ before, after) ]

-- the line up to its newline, if it has one
unfoldable pub chomp : CString → CString
unfolding cut
chomp line = elim (cut b'\n' line) [ none ↦ line | some (before, after) ↦ before ]

unfoldable pub parse : CString → Option ConfVar
unfolding chomp cut squeeze_space
parse line = elim (cut b'=' (chomp line)) [
  | none ↦ none
  | some (before, after) ↦
      let key = squeeze_space before in
      let val = squeeze_space after in
      if ltb 0 (length val) then some (record { name = key; value = val }) else none
]

-- over the lines that getline reads
unfoldable pub create : List CString → List ConfVar
unfolding parse
create [] = []
create (line ∷ lines) =
    let rest = create lines in elim (parse line) [ none ↦ rest | some p ↦ p ∷ rest ]

-- the lines of the file, or `none` if it cannot be opened
unfoldable pub confvar_create : Option (List CString) → List ConfVar
unfolding create
confvar_create none = []
confvar_create (some lines) = create lines

unfoldable pub confvar_value : List ConfVar → CString → Option CString
confvar_value [] key = none
confvar_value (p ∷ rest) key =
    let later = confvar_value rest key in if str_eq p.name key then some p.value else later

-- the first key that has no value
unfoldable pub first_absent : List CString → List ConfVar → Option CString
unfolding confvar_value
first_absent [] head = none
first_absent (p ∷ keys) head =
    let rest = first_absent keys head in
    elim (confvar_value head p) [ none ↦ some p | some v ↦ rest ]

abbrev pub take : ℕ → CString → CString
take zero s = []
take (suc n) [] = []
take (suc n) (c ∷ s) = c ∷ take n s

-- what is written to `absent_key`, and its length; the buffer has at least one byte
unfoldable pub confvar_absent : List ConfVar → ℕ → CString × ℕ
unfolding first_absent
confvar_absent head buflen =
    let absent_key : CString = elim (first_absent mandatory head) [
      | none ↦ []
      | some p ↦ take (buflen - 1) p
    ] in
    (absent_key, length absent_key)

abbrev pub invalid_file : CString
invalid_file = codes "invalid configuration file content"

abbrev pub missing_key : CString → CString
missing_key key = codes "configuration file does not have key " ++ key

-- the variables, or none, and the error
unfoldable pub confvar_validate : Option (List CString) → Option (List ConfVar) × Option CString
unfolding confvar_create confvar_absent
confvar_validate file = elim (confvar_create file) [
  | [] ↦ (none, some invalid_file)
  | cv ∷ rest ↦
      let (buff, n) = confvar_absent (cv ∷ rest) 50 in
      if ltb 0 n then (none, some (missing_key buff)) else (some (cv ∷ rest), none)
]
