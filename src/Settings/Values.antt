-- ===== src/Settings/Values.antt =====
-- config.go: coerce and valueCompare.
use go_nsq.Base.{
  ℕ, ◌+◌, ◌*◌, ◌-◌, ◌%◌, ◌^◌, Bool, true, false, not, ◌&&◌, ◌||◌, List, [], ◌∷◌, Option, none, some,
  codes, ltb, leb, ◌==◌, if◌then◌else◌,
}
use go_nsq.Base.Int.{ℤ, pos, ltb_ℤ, eqb_ℤ, sub_ℕ, ◌*ℤ◌}
use go_nsq.Base.Bytes.{bytes_eq}
use go_nsq.Base.Decimal.{itoa}
use go_nsq.Base.Words.{wrap32, wrap64, int64, to_u64}

pub data Strategy : Type 0 where
  exponential full_jitter : Strategy
  custom : ℕ → Strategy

-- The fields of *tls.Config that the options set; a pool and a certificate are numbered.
pub record TlsConfig : Type 0 where
  pub min_version : ℕ
  pub insecure_skip_verify : Bool
  pub root_cas : Option ℕ
  pub certificate : Option ℕ

-- An interface{}. A float64 is its 64 bits, a net.Addr its text; `other` is a value of any other
-- type, `nil` a nil pointer or interface.
pub data Value : Type 0 where
  text : List ℕ → Value
  signed : ℤ → Value
  unsigned : ℕ → Value
  float : ℕ → Value
  boolean : Bool → Value
  duration : ℤ → Value
  address : List ℕ → Value
  strategy : Strategy → Value
  tls : TlsConfig → Value
  nil other : Value

-- The types of the fields of Config; int and int64 are one.
pub data Kind : Type 0 where
  string_kind int_kind int32_kind uint16_kind float_kind bool_kind duration_kind addr_kind
        strategy_kind tls_kind :
      Kind

-- Functions of the standard library on floats, durations, addresses and files.
pub record Library : Type 0 where
  pub float_ltb : ℕ → ℕ → Bool
  pub float_of : ℤ → ℕ
  pub parse_float : List ℕ → Option ℕ
  pub show_float : ℕ → List ℕ
  pub show : Value → List ℕ
  pub parse_duration : List ℕ → Option ℤ
  pub resolve_tcp_addr : List ℕ → Option (List ℕ)
  pub load_key_pair : List ℕ → List ℕ → Option ℕ
  pub read_file : List ℕ → Option (List ℕ)
  pub certs_from_pem : List ℕ → Option ℕ

-- A value, an error, or a panic of the reflect package.
pub data Coerced : Type 0 where
  ok : Value → Coerced
  err panics : Coerced

abbrev pub or_err {ℓ} : {A : Type ℓ} → (A → Value) → Option A → Coerced
or_err f none = err
or_err f (some a) = ok (f a)

abbrev is_digit : ℕ → Bool
is_digit c = leb b'0' c && leb c b'9'

unfoldable pub read_digits : ℕ → List ℕ → Option ℕ
read_digits acc [] = some acc
read_digits acc (c ∷ cs) =
    let rest = read_digits (acc * 10 + (c - b'0')) cs in if is_digit c then rest else none

-- One digit at least.
unfoldable pub digits : List ℕ → Option ℕ
unfolding read_digits
digits [] = none
digits (c ∷ cs) = read_digits 0 (c ∷ cs)

abbrev within : ℕ → Option ℕ → Option ℕ
within bound none = none
within bound (some n) = if ltb n bound then some n else none

abbrev signed_by : (ℕ → ℤ) → Option ℕ → Option ℤ
signed_by f none = none
signed_by f (some n) = some (f n)

-- strconv.ParseInt(s, 10, 64) and strconv.ParseUint(s, 10, 64)
unfoldable pub parse_int : List ℕ → Option ℤ
unfolding digits
parse_int [] = none
parse_int (c ∷ cs) =
    if c == b'-'
    then signed_by (sub_ℕ 0) (within (2 ^ 63 + 1) (digits cs))
    else if c == b'+'
    then signed_by pos (within (2 ^ 63) (digits cs))
    else signed_by pos (within (2 ^ 63) (digits (c ∷ cs)))

unfoldable pub parse_uint : List ℕ → Option ℕ
unfolding digits
parse_uint s = within (2 ^ 64) (digits s)

abbrev one_of : List ℕ → List (List ℕ) → Bool
one_of s [] = false
one_of s (t ∷ ts) = bytes_eq s t || one_of s ts

-- strconv.ParseBool
unfoldable pub parse_bool : List ℕ → Option Bool
parse_bool s =
    if one_of s
      (codes "1" ∷ codes "t" ∷ codes "T" ∷ codes "TRUE" ∷ codes "true" ∷ codes "True" ∷ [])
    then some true
    else if one_of s
        (codes "0" ∷ codes "f" ∷ codes "F" ∷ codes "FALSE" ∷ codes "false" ∷ codes "False" ∷ [])
    then some false
    else none

module _ (lib : Library) where
  unfoldable pub coerce_string : Value → Coerced
  coerce_string (text s) = ok (text s)
  coerce_string (signed z) = ok (text (itoa z))
  coerce_string (unsigned n) = ok (text (itoa (pos n)))
  coerce_string (float f) = ok (text (lib.show_float f))
  coerce_string v = ok (text (lib.show v))

  -- A number is milliseconds, and the product wraps.
  unfoldable pub coerce_duration : Value → Coerced
  coerce_duration (text s) = or_err duration (lib.parse_duration s)
  coerce_duration (signed z) = ok (duration (wrap64 (z *ℤ pos 1000000)))
  coerce_duration (unsigned n) = ok (duration (wrap64 (int64 n *ℤ pos 1000000)))
  coerce_duration (duration d) = ok (duration d)
  coerce_duration v = err

  -- With no address at all the nil interface reaches reflect.Value.Set, which panics.
  unfoldable pub coerce_addr : Value → Coerced
  coerce_addr (text s) = or_err address (lib.resolve_tcp_addr s)
  coerce_addr (address a) = ok (address a)
  coerce_addr v = panics

  unfoldable pub coerce_float : Value → Coerced
  coerce_float (text s) = or_err float (lib.parse_float s)
  coerce_float (signed z) = ok (float (lib.float_of z))
  coerce_float (unsigned n) = ok (float (lib.float_of (pos n)))
  coerce_float (float f) = ok (float f)
  coerce_float v = err

-- Any other text is refused with a nil strategy, which panics in the same way.
unfoldable pub coerce_strategy : Value → Coerced
coerce_strategy (text s) =
    if bytes_eq s [] || bytes_eq s (codes "exponential")
    then ok (strategy exponential)
    else if bytes_eq s (codes "full_jitter")
    then ok (strategy full_jitter)
    else panics
coerce_strategy (strategy s) = ok (strategy s)
coerce_strategy v = panics

unfoldable pub coerce_bool : Value → Coerced
unfolding parse_bool
coerce_bool (boolean b) = ok (boolean b)
coerce_bool (text s) = or_err boolean (parse_bool s)
coerce_bool (signed z) = ok (boolean (not (eqb_ℤ z (pos 0))))
coerce_bool (unsigned n) = ok (boolean (not (n == 0)))
coerce_bool v = err

-- valueTypeCoerce narrows to the width of the field.
unfoldable pub coerce_int : (ℤ → ℤ) → Value → Coerced
unfolding parse_int
coerce_int narrow (text s) = or_err (λ z. signed (narrow z)) (parse_int s)
coerce_int narrow (signed z) = ok (signed (narrow z))
coerce_int narrow (unsigned n) = ok (signed (narrow (int64 n)))
coerce_int narrow v = err

unfoldable pub coerce_uint16 : Value → Coerced
unfolding parse_uint
coerce_uint16 (text s) = or_err (λ n. unsigned (n % 2 ^ 16)) (parse_uint s)
coerce_uint16 (signed z) = ok (unsigned (to_u64 z % 2 ^ 16))
coerce_uint16 (unsigned n) = ok (unsigned (n % 2 ^ 16))
coerce_uint16 v = err

-- A pointer is taken as it is; reflect panics when its type is another one.
unfoldable pub coerce_pointer : Value → Coerced
coerce_pointer (tls t) = ok (tls t)
coerce_pointer v = panics

unfoldable pub coerce : Library → Value → Kind → Coerced
unfolding coerce_string coerce_int coerce_uint16 coerce_float coerce_bool coerce_duration
    coerce_addr coerce_strategy coerce_pointer
coerce lib v string_kind = coerce_string lib v
coerce lib v int_kind = coerce_int (λ z. z) v
coerce lib v int32_kind = coerce_int wrap32 v
coerce lib v uint16_kind = coerce_uint16 v
coerce lib v float_kind = coerce_float lib v
coerce lib v bool_kind = coerce_bool v
coerce lib v duration_kind = coerce_duration lib v
coerce lib v addr_kind = coerce_addr lib v
coerce lib v strategy_kind = coerce_strategy v
coerce lib v tls_kind = coerce_pointer v

pub data Compared : Type 0 where
  less same greater incomparable : Compared

abbrev by_tests : Bool → Bool → Compared
by_tests above below = if above then greater else if below then less else same

-- valueCompare; other types panic there, and no field with a limit has one.
unfoldable pub value_compare : Library → Value → Value → Compared
value_compare lib (signed a) (signed b) = by_tests (ltb_ℤ b a) (ltb_ℤ a b)
value_compare lib (unsigned a) (unsigned b) = by_tests (ltb b a) (ltb a b)
value_compare lib (float a) (float b) = by_tests (lib.float_ltb b a) (lib.float_ltb a b)
value_compare lib (duration a) (duration b) = by_tests (ltb_ℤ b a) (ltb_ℤ a b)
value_compare lib _ _ = incomparable
