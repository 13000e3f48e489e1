-- ===== src/ConfVar/Numbers.antt =====
-- gear/confvar.c: the numbers of a configuration. strtol, strtof and strtoul are parameters; `errno`
-- is whether it is ERANGE.
use sawang.Prelude.{
  ◌↔◌, ◌%◌, ◌^◌, ◌*◌, ℕ, ◌+◌, ◌-◌, ◌<◌, ◌≡◌, Bool, true, false, not, ◌&&◌, ◌||◌, Option, none, some,
  List, [], ◌∷◌, CString, ltb, leb, if◌then◌else◌, arith, Bool-cases, inl, inr,
}
use sawang.ConfVar.{ConfVar, confvar_value}

-- What a conversion makes of a text: the number, what is left of the text, and whether it is out of
-- range, which sets errno to ERANGE. No conversion sets errno to 0.
pub record Conversion (A : Type 0) : Type 0 where
  pub number : CString → A
  pub endptr : CString → CString
  pub out_of_range : CString → Bool

-- the result, what is written to `*value`, and errno
pub record Number (A : Type 0) : Type 0 where
  pub result : Bool
  pub value : Option A
  pub errno : Bool

abbrev pub is_end : CString → Bool
is_end [] = true
is_end _ = false

-- the three functions, with whether `value` is given and with what the number is stored as
unfoldable pub confvar_number :
    {A B : Type 0} → Conversion A → (A → B) → List ConfVar → CString → Bool → Bool → Number B
confvar_number c store head key given errno = elim (confvar_value head key) [
  | none ↦ record { result = false; value = none; errno = errno }
  | some s ↦
      let errno = errno || c.out_of_range s in
      if errno then record { result = false; value = none; errno = errno } else record {
        result = is_end (c.endptr s);
        value = if given then some (store (c.number s)) else none;
        errno = errno;
      }
]

unfoldable pub confvar_long :
    {A : Type 0} → Conversion A → List ConfVar → CString → Bool → Bool → Number A
unfolding confvar_number
confvar_long strtol head key given errno = confvar_number strtol (λ l. l) head key given errno

unfoldable pub confvar_float :
    {A : Type 0} → Conversion A → List ConfVar → CString → Bool → Bool → Number A
unfolding confvar_number
confvar_float strtof head key given errno = confvar_number strtof (λ f. f) head key given errno

-- an unsigned long is stored as an unsigned int
unfoldable pub confvar_uint : Conversion ℕ → List ConfVar → CString → Bool → Bool → Number ℕ
unfolding confvar_number
confvar_uint strtoul head key given errno =
    confvar_number strtoul (λ ui. ui % 2 ^ 32) head key given errno

abbrev pub is_digit : ℕ → Bool
is_digit c = leb b'0' c && leb c b'9'

-- a text of decimal digits, and its number
abbrev pub is_decimal : CString → Bool
is_decimal [] = true
is_decimal (c ∷ s) = is_digit c && is_decimal s

abbrev pub decimal_from : ℕ → CString → ℕ
decimal_from n [] = n
decimal_from n (c ∷ s) = decimal_from (n * 10 + (c - b'0')) s

abbrev pub decimal : CString → ℕ
decimal s = decimal_from 0 s

-- strtoul(3), in base 10 and with 64 bits: it takes all digits of a text, and the number is out of
-- range from 2^64 on.
pub record ReadsDecimals (strtoul : Conversion ℕ) : Type 0 where
  pub takes_all : (c : ℕ) (s : CString) → is_decimal (c ∷ s) ≡ true → strtoul.endptr (c ∷ s) ≡ []
  pub in_range :
      (c : ℕ) (s : CString)
      → is_decimal (c ∷ s) ≡ true
      → strtoul.out_of_range (c ∷ s) ≡ not (ltb (decimal (c ∷ s)) (2 ^ 64))
  pub converts :
      (c : ℕ) (s : CString)
      → is_decimal (c ∷ s) ≡ true
      → decimal (c ∷ s) < 2 ^ 64
      → strtoul.number (c ∷ s) ≡ decimal (c ∷ s)

-- a number that is stored in 32 bits is itself below 2^32
wraps_iff :
    (x : ℕ) (o : Option ℕ)
    → o ≡ (if ltb x (2 ^ 64) then some (x % 2 ^ 32) else none)
    → (o ≡ some x) ↔ (x < 2 ^ 32)
wraps_iff x o h = elim (Bool-cases (ltb x (2 ^ 64))) [
  | inl b ↦ ground (arith, b, h)
  | inr b ↦ ground (arith, b, h)
]

-- What becomes of a number `x`, as a result and a value.
abbrev pub Stored : ℕ → Number ℕ → Type 0
Stored x n =
    (n.result ≡ ltb x (2 ^ 64))
    × (n.value ≡ (if ltb x (2 ^ 64) then some (x % 2 ^ 32) else none))
    × ((n.value ≡ some x) ↔ (x < 2 ^ 32))

uint-Stored :
    (strtoul : Conversion ℕ) (head : List ConfVar) (key t : CString) (x : ℕ)
    → confvar_value head key ≡ some t
    → strtoul.endptr t ≡ []
    → strtoul.out_of_range t ≡ not (ltb x (2 ^ 64))
    → (ltb x (2 ^ 64) ≡ true → strtoul.number t ≡ x)
    → Stored x (confvar_uint strtoul head key true false)
unfolding confvar_uint
uint-Stored strtoul head key t x v e r f = elim (Bool-cases (ltb x (2 ^ 64))) [
  | inl b ↦
      let n = f b in
      let value : (confvar_uint strtoul head key true false).value
          ≡ (if ltb x (2 ^ 64) then some (x % 2 ^ 32) else none) =
        ground (arith, v, e, r, b, n) in
      (ground (arith, v, e, r, b, n), value, wraps_iff x _ value)
  | inr b ↦
      let value : (confvar_uint strtoul head key true false).value
          ≡ (if ltb x (2 ^ 64) then some (x % 2 ^ 32) else none) =
        ground (arith, v, e, r, b) in
      (ground (arith, v, e, r, b), value, wraps_iff x _ value)
]

-- What `confvar_uint` makes of a decimal number, if errno is not ERANGE before: below 2^32 its value
-- is the number, from there to 2^64 it succeeds with the remainder by 2^32 instead, and from 2^64 on
-- it fails. If errno is ERANGE already, it fails.
pub uint-decimal :
    (strtoul : Conversion ℕ) (head : List ConfVar) (key : CString) (c : ℕ) (s : CString)
    → ReadsDecimals strtoul
    → confvar_value head key ≡ some (c ∷ s)
    → is_decimal (c ∷ s) ≡ true
    → Stored (decimal (c ∷ s)) (confvar_uint strtoul head key true false)
      × ((confvar_uint strtoul head key true true).result ≡ false)
unfolding confvar_uint
uint-decimal strtoul head key c s law v d = (
  uint-Stored strtoul head key (c ∷ s) (decimal (c ∷ s)) v (law.takes_all c s d)
      (law.in_range c s d) (λ b. law.converts c s d (ground (arith, b))),
  ground (arith, v),
)
