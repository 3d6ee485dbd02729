-- ===== src/Creation/Tests.antt =====
-- consumer.go: new consumers.
use go_nsq.Base.{◌≡◌, ◌^◌, ◌-◌, inr, refl, Bool, false, List, codes, inl}
use go_nsq.Base.Int.{pos, negsuc}
use go_nsq.Consumer.{Consumer, World}
use go_nsq.Settings.Slots.{Config}
use go_nsq.Settings.Options.{set}
use go_nsq.Settings.Values.{signed}
use go_nsq.Settings.Tests.{lib, base, config_of}
use go_nsq.Creation.{Strategies, invalid_topic, consumer_of, new_consumer}

abbrev strategies : Strategies
strategies = record { overflow = negsuc (2 ^ 63 - 1); jitter = λ m a. pos 0; users = λ n a. pos 0 }

abbrev world : World
world = record {
  now = pos 0;
  write_fails = λ n. false;
  writes = 0;
  draw = λ n. n;
  draws = 0;
  int64_nan = negsuc (2 ^ 63 - 1);
}

abbrev fresh : Consumer
fresh = consumer_of strategies world base

bad_topic :
    new_consumer lib strategies world (codes "lo gs") (codes "disk") base ≡ inl invalid_topic
unfolding new_consumer go_nsq.Settings.Slots.validate go_nsq.Settings.Options.new_config
    go_nsq.Settings.Slots.store go_nsq.Settings.Slots.zero_config go_nsq.Base.Bytes.bytes_eq set
    go_nsq.Settings.Slots.set_tags go_nsq.Settings.Slots.find_slot go_nsq.Settings.Values.coerce
    go_nsq.Settings.Values.value_compare go_nsq.Settings.Slots.tag_value go_nsq.Base.Words.wrap32
    go_nsq.Protocol.is_valid_topic_name go_nsq.Protocol.is_valid_channel_name
    go_nsq.Protocol.is_valid_name go_nsq.Protocol.match_name go_nsq.Protocol.is_name_char
    go_nsq.Protocol.match_tail
bad_topic = refl

-- The conversion to int32 of a number that Validate accepts.
abbrev greedy : Config
greedy = config_of (set lib (codes "max_in_flight") (signed (pos 2147483648)) base)

greedy_wraps :
    new_consumer lib strategies world (codes "logs") (codes "disk") greedy
    ≡ inr (record fresh { max_in_flight = negsuc 2147483647 })
unfolding new_consumer go_nsq.Settings.Slots.validate go_nsq.Settings.Options.new_config
    go_nsq.Settings.Slots.store go_nsq.Settings.Slots.zero_config go_nsq.Base.Bytes.bytes_eq set
    go_nsq.Settings.Slots.set_tags go_nsq.Settings.Slots.find_slot go_nsq.Settings.Values.coerce
    go_nsq.Settings.Values.value_compare go_nsq.Settings.Slots.tag_value go_nsq.Base.Words.wrap32
    go_nsq.Protocol.is_valid_topic_name go_nsq.Protocol.is_valid_channel_name
    go_nsq.Protocol.is_valid_name go_nsq.Protocol.match_name go_nsq.Protocol.is_name_char
    go_nsq.Protocol.match_tail
greedy_wraps = refl
