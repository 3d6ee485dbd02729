-- ===== src/Creation.antt =====
-- consumer.go, producer.go, config.go: NewConsumer, NewProducer, and the settings as a consumer reads them.
pub mod Limits
pub mod Held
pub mod Tests
use go_nsq.Base.{
  ℕ, Bool, true, false, not, List, [], Option, none, some, codes, ◌⊎◌, inl, inr, if◌then◌else◌,
}
use Prim.Native.String.{String}
use go_nsq.Base.Int.{ℤ, pos}
use go_nsq.Base.Words.{wrap32}
use go_nsq.Protocol.{is_valid_topic_name, is_valid_channel_name}
use go_nsq.Consumer.{Consumer, World}
use go_nsq.Consumer.Strategy.{exponential}
use go_nsq.Producer.{Producer, new_producer}
use go_nsq.Settings.Values.{Library, Strategy, full_jitter, custom, Value, signed, strategy}
use go_nsq.Settings.Slots.{
  Slot, Config, Error, find_slot, duration_of, validate, done, failed, panicked,
}

-- What a strategy computes that the program does not decide: int64 of a number that is too large,
-- what the jitter draws for a multiplier and an attempt, and the strategies of a user.
pub record Strategies : Type 0 where
  pub overflow : ℤ
  pub jitter : ℤ → ℤ → ℤ
  pub users : ℕ → ℤ → ℤ

abbrev pub calculate : Strategies → ℤ → Strategy → ℤ → ℤ
calculate ss multiplier Strategy.exponential = exponential ss.overflow multiplier
calculate ss multiplier full_jitter = ss.jitter multiplier
calculate ss multiplier (custom n) = ss.users n

abbrev pub duration_field : String → Config → ℤ
duration_field opt c = duration_of (find_slot (codes opt) c.slots)

abbrev pub signed_of : Option Slot → ℤ
signed_of none = pos 0
signed_of (some s) = elim s.value [ signed z ↦ z | _ ↦ pos 0 ]

abbrev pub max_in_flight : Config → ℤ
max_in_flight c = signed_of (find_slot (codes "max_in_flight") c.slots)

abbrev pub strategy_of : Option Slot → Strategy
strategy_of none = Strategy.exponential
strategy_of (some s) = elim s.value [ strategy x ↦ x | _ ↦ Strategy.exponential ]

abbrev pub backoff_strategy : Config → Strategy
backoff_strategy c = strategy_of (find_slot (codes "backoff_strategy") c.slots)

unfoldable pub consumer_config : Strategies → Config → go_nsq.Consumer.Config
consumer_config ss c = record {
  calculate = calculate ss (duration_field "backoff_multiplier" c) (backoff_strategy c);
  max_backoff_duration = duration_field "max_backoff_duration" c;
  low_rdy_idle_timeout = duration_field "low_rdy_idle_timeout" c;
  low_rdy_timeout = duration_field "low_rdy_timeout" c;
}

unfoldable pub consumer_of : Strategies → World → Config → Consumer
unfolding consumer_config
consumer_of ss w c = record {
  config = consumer_config ss c;
  world = w;
  connections = [];
  total_rdy_count = pos 0;
  backoff_duration = pos 0;
  backoff_counter = pos 0;
  max_in_flight = wrap32 (max_in_flight c);
  need_rdy_redistributed = false;
  rdy_retry_timers = [];
  resume_timers = 0;
  stop_flag = false;
}

-- What comes instead of a new object: an error, or the panic of Validate.
pub data CreationError : Type 0 where
  invalid_config : Error → CreationError
  config_panics invalid_topic invalid_channel : CreationError

-- NewConsumer
unfoldable pub new_consumer :
    Library → Strategies → World → List ℕ → List ℕ → Config → CreationError ⊎ Consumer
unfolding consumer_of
new_consumer lib ss w topic channel c = elim (validate lib c) [
  | panicked ↦ inl config_panics
  | failed e _ ↦ inl (invalid_config e)
  | done _ ↦
      if not (is_valid_topic_name topic)
      then inl invalid_topic
      else if not (is_valid_channel_name channel)
      then inl invalid_channel
      else inr (consumer_of ss w c)
]

-- NewProducer
unfoldable pub create_producer : Library → Config → CreationError ⊎ Producer
create_producer lib c = elim (validate lib c) [
  | panicked ↦ inl config_panics
  | failed e _ ↦ inl (invalid_config e)
  | done _ ↦ inr new_producer
]
