-- ===== src/Settings/Tests.antt =====
-- config.go: the defaults, and calls of Set.
use go_nsq.Base.{
  ℕ, ◌*◌, ◌≡◌, refl, inl, inr, Bool, true, false, List, [], ◌∷◌, Option, none, some, codes,
  if◌then◌else◌, ltb,
}
use go_nsq.Base.Int.{ℤ, pos, negsuc}
use go_nsq.Base.Bytes.{bytes_eq}
use go_nsq.Settings.Values.{
  Value, text, signed, unsigned, boolean, duration, float, strategy, tls, Library, Coerced, ok, err,
  panics, coerce, exponential, full_jitter, parse_int,
}
use go_nsq.Settings.Slots.{
  Slot, Config, zero_config, first_outside, find_slot, validate, Outcome, done, failed, panicked,
  below, above, invalid_option, coerce_failed,
}
use go_nsq.Settings.Options.{set, new_config, flag_set, has_option}
use go_nsq.Settings.Ranges.{IsSound, Leaves}
use go_nsq.Settings.Setters.{set-IsSound}
use go_nsq.Settings.Frame.{set-find_slot}

-- Seconds and milliseconds of whole numbers, and what the tags use else.
abbrev table : List (List ℕ × ℤ)
table =
    (codes "0", pos 0)
    ∷ (codes "1ms", pos 1000000)
    ∷ (codes "10ms", pos 10000000)
    ∷ (codes "100ms", pos 100000000)
    ∷ (codes "250ms", pos 250000000)
    ∷ (codes "1s", pos 1000000000)
    ∷ (codes "5s", pos 5000000000)
    ∷ (codes "10s", pos 10000000000)
    ∷ (codes "30s", pos 30000000000)
    ∷ (codes "60s", pos 60000000000)
    ∷ (codes "90s", pos 90000000000)
    ∷ (codes "2m", pos 120000000000)
    ∷ (codes "5m", pos 300000000000)
    ∷ (codes "15m", pos 900000000000)
    ∷ (codes "60m", pos 3600000000000)
    ∷ []

abbrev look_up : List ℕ → List (List ℕ × ℤ) → Option ℤ
look_up s [] = none
look_up s ((t, d) ∷ rest) = if bytes_eq s t then some d else look_up s rest

-- Floats are tenths here.
abbrev pub lib : Library
lib = record {
  float_ltb = ltb;
  float_of = λ z. elim z [ pos n ↦ n * 10 | negsuc n ↦ 0 ];
  parse_float = λ s.
      if bytes_eq s (codes "0.3")
      then some 3
      else if bytes_eq s (codes "1")
      then some 10
      else if bytes_eq s (codes "0")
      then some 0
      else none;
  show_float = λ f. [];
  show = λ v. [];
  parse_duration = λ s. look_up s table;
  resolve_tcp_addr = λ s. some s;
  load_key_pair = λ c k. some 1;
  read_file = λ f. none;
  certs_from_pem = λ p. none;
}

abbrev defaults : Outcome
defaults = new_config lib (codes "box.example.org") (codes "1.1.0")

abbrev pub config_of : Outcome → Config
config_of (done c) = c
config_of (failed e c) = c
config_of panicked = zero_config

abbrev pub base : Config
base = config_of defaults

abbrev value_of : List ℕ → Config → Option Value
value_of opt c = elim (find_slot opt c.slots) [ none ↦ none | some s ↦ some s.value ]

defaults_set : defaults ≡ done base
unfolding new_config go_nsq.Settings.Slots.store zero_config bytes_eq set
    go_nsq.Settings.Slots.set_tags find_slot coerce go_nsq.Settings.Values.value_compare
    go_nsq.Settings.Slots.tag_value
defaults_set = refl

defaults_valid : validate lib base ≡ done base
unfolding validate new_config go_nsq.Settings.Slots.store zero_config bytes_eq set
    go_nsq.Settings.Slots.set_tags find_slot coerce go_nsq.Settings.Values.value_compare
    go_nsq.Settings.Slots.tag_value go_nsq.Base.Words.wrap32
defaults_valid = refl

defaults_named :
    (value_of (codes "client_id") base ≡ some (text (codes "box")))
    × (value_of (codes "user_agent") base ≡ some (text (codes "go-nsq/1.1.0")))
    × (value_of (codes "max_attempts") base ≡ some (unsigned 5))
    × (value_of (codes "backoff_strategy") base ≡ some (strategy exponential))
unfolding find_slot new_config go_nsq.Settings.Slots.store zero_config bytes_eq set
    go_nsq.Settings.Slots.set_tags coerce go_nsq.Settings.Values.value_compare
    go_nsq.Settings.Slots.tag_value
defaults_named = (refl, refl, refl, refl)

-- A number is narrowed to the width of its field before the limits are looked at.
sample_rate_wraps :
    value_of
      (codes "sample_rate")
      (config_of (set lib (codes "sample-rate") (signed (pos 4294967301)) base))
    ≡ some (signed (pos 5))
unfolding find_slot set new_config go_nsq.Settings.Slots.store zero_config bytes_eq
    go_nsq.Settings.Slots.set_tags coerce go_nsq.Settings.Values.value_compare
    go_nsq.Settings.Slots.tag_value go_nsq.Base.Words.wrap32
sample_rate_wraps = refl

max_attempts_wraps :
    value_of
      (codes "max_attempts")
      (config_of (set lib (codes "max_attempts") (signed (pos 70000)) base))
    ≡ some (unsigned 4464)
unfolding find_slot set new_config go_nsq.Settings.Slots.store zero_config bytes_eq
    go_nsq.Settings.Slots.set_tags coerce go_nsq.Settings.Values.value_compare
    go_nsq.Settings.Slots.tag_value go_nsq.Base.Words.to_u64
max_attempts_wraps = refl

too_long :
    set lib (codes "max_requeue_delay") (signed (pos 3600001)) base
    ≡ failed (above (codes "max_requeue_delay")) base
unfolding set new_config go_nsq.Settings.Slots.store zero_config bytes_eq
    go_nsq.Settings.Slots.set_tags find_slot coerce go_nsq.Settings.Values.value_compare
    go_nsq.Settings.Slots.tag_value go_nsq.Base.Words.wrap64 go_nsq.Base.Int.◌*ℤ◌
too_long = refl

bogus_strategy : set lib (codes "backoff_strategy") (text (codes "bogus")) base ≡ panicked
unfolding set new_config go_nsq.Settings.Slots.store zero_config bytes_eq
    go_nsq.Settings.Slots.set_tags find_slot coerce go_nsq.Settings.Values.value_compare
    go_nsq.Settings.Slots.tag_value
bogus_strategy = refl

number_as_key : set lib (codes "tls_key") (signed (pos 1)) base ≡ panicked
unfolding set new_config go_nsq.Settings.Slots.store zero_config bytes_eq
    go_nsq.Settings.Slots.set_tags find_slot coerce go_nsq.Settings.Values.value_compare
    go_nsq.Settings.Slots.tag_value
number_as_key = refl

-- The empty option names the first field without a tag.
abbrev cleared : Config
cleared = config_of (set lib [] (boolean false) base)

set_clears : set lib [] (boolean false) base ≡ done cleared
unfolding set new_config go_nsq.Settings.Slots.store zero_config bytes_eq
    go_nsq.Settings.Slots.set_tags find_slot coerce go_nsq.Settings.Values.value_compare
    go_nsq.Settings.Slots.tag_value
set_clears = refl

cleared_panics : set lib (codes "snappy") (boolean true) cleared ≡ panicked
unfolding set new_config go_nsq.Settings.Slots.store zero_config bytes_eq
    go_nsq.Settings.Slots.set_tags find_slot coerce go_nsq.Settings.Values.value_compare
    go_nsq.Settings.Slots.tag_value
cleared_panics = refl

flag_sets :
    (value_of (codes "snappy") (config_of (flag_set lib (codes "snappy") base))
      ≡ some (boolean true))
    × (value_of (codes "client_id") (config_of (flag_set lib (codes "client_id,a,b") base))
        ≡ some (text (codes "a,b")))
unfolding find_slot flag_set new_config go_nsq.Settings.Slots.store zero_config bytes_eq
    go_nsq.Settings.Slots.set_tags coerce go_nsq.Settings.Values.value_compare
    go_nsq.Settings.Slots.tag_value
flag_sets = (refl, refl)

pub base-IsSound : IsSound lib base
unfolding zero_config new_config go_nsq.Settings.Slots.store bytes_eq set
    go_nsq.Settings.Slots.set_tags find_slot coerce go_nsq.Settings.Values.value_compare
    go_nsq.Settings.Slots.tag_value first_outside go_nsq.Base.Words.wrap32
base-IsSound = record { shape = refl; in_range = refl }

set-IsSound_example :
    Leaves (IsSound lib) (set lib (codes "max_attempts") (signed (pos 70000)) base)
set-IsSound_example = set-IsSound lib (codes "max_attempts") (signed (pos 70000)) base base-IsSound

abbrev snappy_on : Config
snappy_on = config_of (set lib (codes "snappy") (boolean true) base)

set-find_slot_example :
    (s : Slot) × (w : Value) × (find_slot (codes "snappy") base.slots ≡ some s)
    × (coerce lib (boolean true) s.kind ≡ ok w)
    × (find_slot (codes "snappy") snappy_on.slots ≡ some (record s { value = w }))
    × (find_slot (codes "deflate") snappy_on.slots ≡ find_slot (codes "deflate") base.slots)
unfolding has_option new_config go_nsq.Settings.Slots.store zero_config bytes_eq set
    go_nsq.Settings.Slots.set_tags find_slot coerce go_nsq.Settings.Values.value_compare
    go_nsq.Settings.Slots.tag_value
set-find_slot_example =
    set-find_slot lib (codes "snappy") (codes "deflate") (boolean true) base snappy_on refl refl
      refl

-- A configuration that NewConfig did not make.
zero_panics : validate lib zero_config ≡ panicked
unfolding validate zero_config
zero_panics = refl
