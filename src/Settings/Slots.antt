-- ===== src/Settings/Slots.antt =====
-- config.go: the fields of Config as reflect shows them, and their checks.
use go_nsq.Base.{ℕ, Bool, true, false, List, [], ◌∷◌, Option, none, some, codes, if◌then◌else◌, not}
use go_nsq.Base.Int.{ℤ, pos, ltb_ℤ}
use go_nsq.Base.Bytes.{bytes_eq}
use Prim.Native.String.{String}
use go_nsq.Settings.Values.{
  Kind, Value, text, signed, unsigned, float, boolean, duration, nil, Library, Coerced, ok, err,
  panics, coerce, Compared, less, greater, value_compare, string_kind, int_kind, int32_kind,
  uint16_kind, float_kind, bool_kind, duration_kind, addr_kind, strategy_kind, tls_kind,
}

-- A field: its tags and its value. A missing tag is empty.
pub record Slot : Type 0 where
  pub opt : List ℕ
  pub kind : Kind
  pub min : List ℕ
  pub max : List ℕ
  pub default : List ℕ
  pub value : Value

-- `cert_file` and `key_file` are those of the tlsConfig handler.
pub record Config : Type 0 where
  pub slots : List Slot
  pub cert_file : List ℕ
  pub key_file : List ℕ

-- The zero value of a type.
unfoldable pub zero_value : Kind → Value
zero_value string_kind = text []
zero_value int_kind = signed (pos 0)
zero_value int32_kind = signed (pos 0)
zero_value uint16_kind = unsigned 0
zero_value float_kind = float 0
zero_value bool_kind = boolean false
zero_value duration_kind = duration (pos 0)
zero_value addr_kind = nil
zero_value strategy_kind = nil
zero_value tls_kind = nil

abbrev slot : String → Kind → String → String → String → Slot
slot opt kind min max default = record {
  opt = codes opt;
  kind = kind;
  min = codes min;
  max = codes max;
  default = codes default;
  value = zero_value kind;
}

-- The struct in the order of its fields: `initialized`, which has no tag, and those with an `opt`
-- tag. The other field without one, `configHandlers`, comes later, so no search by option gets to it.
unfoldable pub zero_config : Config
unfolding zero_value
zero_config = record {
  slots =
      slot "" bool_kind "" "" ""
      ∷ slot "dial_timeout" duration_kind "" "" "1s"
      ∷ slot "read_timeout" duration_kind "100ms" "5m" "60s"
      ∷ slot "write_timeout" duration_kind "100ms" "5m" "1s"
      ∷ slot "local_addr" addr_kind "" "" ""
      ∷ slot "lookupd_poll_interval" duration_kind "10ms" "5m" "60s"
      ∷ slot "lookupd_poll_jitter" float_kind "0" "1" "0.3"
      ∷ slot "max_requeue_delay" duration_kind "0" "60m" "15m"
      ∷ slot "default_requeue_delay" duration_kind "0" "60m" "90s"
      ∷ slot "backoff_strategy" strategy_kind "" "" "exponential"
      ∷ slot "max_backoff_duration" duration_kind "0" "60m" "2m"
      ∷ slot "backoff_multiplier" duration_kind "0" "60m" "1s"
      ∷ slot "max_attempts" uint16_kind "0" "65535" "5"
      ∷ slot "low_rdy_idle_timeout" duration_kind "1s" "5m" "10s"
      ∷ slot "low_rdy_timeout" duration_kind "1s" "5m" "30s"
      ∷ slot "rdy_redistribute_interval" duration_kind "1ms" "5s" "5s"
      ∷ slot "client_id" string_kind "" "" ""
      ∷ slot "hostname" string_kind "" "" ""
      ∷ slot "user_agent" string_kind "" "" ""
      ∷ slot "heartbeat_interval" duration_kind "" "" "30s"
      ∷ slot "sample_rate" int32_kind "0" "99" ""
      ∷ slot "tls_v1" bool_kind "" "" ""
      ∷ slot "tls_config" tls_kind "" "" ""
      ∷ slot "deflate" bool_kind "" "" ""
      ∷ slot "deflate_level" int_kind "1" "9" "6"
      ∷ slot "snappy" bool_kind "" "" ""
      ∷ slot "output_buffer_size" int_kind "" "" "16384"
      ∷ slot "output_buffer_timeout" duration_kind "" "" "250ms"
      ∷ slot "max_in_flight" int_kind "0" "" "1"
      ∷ slot "msg_timeout" duration_kind "0" "" ""
      ∷ slot "auth_secret" string_kind "" "" ""
      ∷ slot "skip_lookupd_authorization" bool_kind "" "" "true"
      ∷ [];
  cert_file = [];
  key_file = [];
}

abbrev pub is_empty : List ℕ → Bool
is_empty [] = true
is_empty (_ ∷ _) = false

-- `coerced, _ := coerce(tag, field.Type)`
unfoldable pub tag_value : Library → List ℕ → Kind → Value
tag_value lib tag kind = elim (coerce lib (text tag) kind) [
  | ok v ↦ v
  | err ↦ zero_value kind
  | panics ↦ zero_value kind
]

abbrev pub is_less : Compared → Bool
is_less less = true
is_less _ = false

abbrev pub is_greater : Compared → Bool
is_greater greater = true
is_greater _ = false

unfoldable pub below_min : Library → Slot → Value → Bool
below_min lib s v =
    if is_empty s.min then false else is_less (value_compare lib v (tag_value lib s.min s.kind))

unfoldable pub above_max : Library → Slot → Value → Bool
above_max lib s v =
    if is_empty s.max then false else is_greater (value_compare lib v (tag_value lib s.max s.kind))

pub data Error : Type 0 where
  coerce_failed below above unknown_option invalid_option : List ℕ → Error
  heartbeat_too_long not_a_string no_key_pair no_ca_file no_ca_certs no_tls_version : Error

-- A setter ends well, with an error, or in a panic; what was stored stays stored.
pub data Outcome : Type 0 where
  done : Config → Outcome
  failed : Error → Config → Outcome
  panicked : Outcome

unfoldable pub find_slot : List ℕ → List Slot → Option Slot
find_slot opt [] = none
find_slot opt (s ∷ ss) = if bytes_eq opt s.opt then some s else find_slot opt ss

-- The first field with the option.
unfoldable pub store : List ℕ → Value → List Slot → List Slot
store opt v [] = []
store opt v (s ∷ ss) =
    if bytes_eq opt s.opt then record s { value = v } ∷ ss else s ∷ store opt v ss

-- What Set does with a coerced value of the field that it found.
unfoldable pub set_checked : Library → Slot → Value → Config → Outcome
unfolding below_min above_max
set_checked lib s v c =
    if below_min lib s v
    then failed (below s.opt) c
    else if above_max lib s v
    then failed (above s.opt) c
    else done (record c { slots = store s.opt v c.slots })

unfoldable pub set_slot : Library → Slot → Coerced → Config → Outcome
unfolding set_checked
set_slot lib s (ok v) c = set_checked lib s v c
set_slot lib s err c = failed (coerce_failed s.opt) c
set_slot lib s panics c = panicked

-- (*structTagsConfig).Set; the strategy's own pointer to the configuration is not modelled.
unfoldable pub set_tags : Library → List ℕ → Value → Config → Outcome
unfolding set_slot
set_tags lib opt v c = elim (find_slot opt c.slots) [
  | none ↦ failed (unknown_option opt) c
  | some s ↦ set_slot lib s (coerce lib v s.kind) c
]

-- (*structTagsConfig).Validate: the loop.
unfoldable pub first_outside : Library → List Slot → Option Error
unfolding below_min above_max
first_outside lib [] = none
first_outside lib (s ∷ ss) =
    let rest = first_outside lib ss in
    if below_min lib s s.value
    then some (below s.opt)
    else if above_max lib s s.value
    then some (above s.opt)
    else rest

abbrev pub duration_of : Option Slot → ℤ
duration_of none = pos 0
duration_of (some s) = elim s.value [ duration d ↦ d | _ ↦ pos 0 ]

abbrev pub is_true : Value → Bool
is_true (boolean b) = b
is_true _ = false

-- assertInitialized panics where this is false.
unfoldable pub is_initialized : List Slot → Bool
is_initialized [] = false
is_initialized (s ∷ ss) = is_true s.value

abbrev pub read_timeout : Config → ℤ
read_timeout c = duration_of (find_slot (codes "read_timeout") c.slots)

abbrev pub heartbeat_interval : Config → ℤ
heartbeat_interval c = duration_of (find_slot (codes "heartbeat_interval") c.slots)

-- (*Config).Validate; the other handler accepts everything.
unfoldable pub validate : Library → Config → Outcome
unfolding first_outside is_initialized
validate lib c =
    if not (is_initialized c.slots) then panicked else elim (first_outside lib c.slots) [
      | some e ↦ failed e c
      | none ↦
          if ltb_ℤ (read_timeout c) (heartbeat_interval c)
          then failed heartbeat_too_long c
          else done c
    ]
