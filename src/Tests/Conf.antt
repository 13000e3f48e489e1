-- ===== src/Tests/Conf.antt =====
-- The theorems on gear/confvar.c at concrete files.
use sawang.Prelude.{
  str_eq, ℕ, arith, not, ltb, ◌^◌, if◌then◌else◌, true, false, ◌≡◌, refl, some, List, [], ◌∷◌, ◌++◌,
  map, CString, codes,
}
use sawang.ConfVar.Numbers.{
  uint-decimal, is_decimal, decimal, confvar_uint, Stored, ReadsDecimals, Conversion,
}
use sawang.ConfVar.{confvar_value, ConfVar, create, confvar_create, confvar_validate}
use sawang.ConfVar.Lines.{print_line, create-print_line}
use sawang.ConfVar.Validate.{Validated, validate-Validated}

abbrev vars : List ConfVar
vars =
    record { name = codes "gonggo"; value = codes "gonggo" }
    ∷ record { name = codes "logpath"; value = codes "/var/log/proxy.log" }
    ∷ []

abbrev lines : List CString
lines =
    (codes "# the names = of all" ++ (b'\n' ∷ []))
    ∷ (codes "pidfile = /run/proxy.pid # where" ++ (b'\n' ∷ []))
    ∷ codes "sawang="
    ∷ []

create-print_line_example : create (map print_line vars) ≡ vars
create-print_line_example = create-print_line vars (
  record {
    squeezed_name = refl;
    squeezed_value = refl;
    lacks_equals = refl;
    lacks_newline_name = refl;
    lacks_newline_value = refl;
    has_value = refl;
  },
  (
    record {
      squeezed_name = refl;
      squeezed_value = refl;
      lacks_equals = refl;
      lacks_newline_name = refl;
      lacks_newline_value = refl;
      has_value = refl;
    },
    tt,
  ),
)

validate-Validated_example : Validated (confvar_create (some lines)) (confvar_validate (some lines))
validate-Validated_example = validate-Validated (some lines)

-- a conversion of decimal texts alone
abbrev strtoul : Conversion ℕ
strtoul = record {
  number = decimal;
  endptr = λ s. if is_decimal s then [] else s;
  out_of_range = λ s. not (ltb (decimal s) (2 ^ 64));
}

strtoul-ReadsDecimals : ReadsDecimals strtoul
strtoul-ReadsDecimals = record {
  takes_all = λ c s d. ground (arith, d);
  in_range = λ c s d. refl;
  converts = λ c s d l. refl;
}

-- 2^32 and 5 more
abbrev large : CString
large = codes "294967301"

abbrev limits : List ConfVar
limits = record { name = codes "limit"; value = b'4' ∷ large } ∷ []

limits_value : confvar_value limits (codes "limit") ≡ some (b'4' ∷ large)
unfolding confvar_value str_eq
limits_value = refl

uint-decimal_example :
    Stored (decimal (b'4' ∷ large)) (confvar_uint strtoul limits (codes "limit") true false)
    × ((confvar_uint strtoul limits (codes "limit") true true).result ≡ false)
uint-decimal_example =
    uint-decimal strtoul limits (codes "limit") b'4' large strtoul-ReadsDecimals limits_value refl

limits_uint : (confvar_uint strtoul limits (codes "limit") true false).value ≡ some 5
unfolding confvar_uint confvar_value str_eq
limits_uint = refl
