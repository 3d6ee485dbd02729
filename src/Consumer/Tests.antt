-- ===== src/Consumer/Tests.antt =====
-- consumer.go: runs on a consumer with two connections.
use go_nsq.Base.{
  ◌+◌, ◌-◌, ◌*◌, ◌==◌, ◌≤◌, ◌<◌, ◌^◌, ◌≡◌, refl, ◌⊎◌, inl, Bool, true, false, List, [], ◌∷◌, Option,
  none, some, arith, codes, if◌then◌else◌,
}
use go_nsq.Base.Int.{ℤ, pos, negsuc, ltb_ℤ}
use go_nsq.Base.Bytes.{All, bytes_eq}
use go_nsq.Consumer.{
  Consumer, Config, World, backoff_flag, continue_flag, resume_flag, over_max_in_flight,
  in_backoff_timeout, is_starved, per_conn_max_in_flight,
}
use go_nsq.Consumer.Conns.{Conn, Addr, find}
use go_nsq.Consumer.Rdy.{update_rdy, change_max_in_flight, redistribute_rdy, spread}
use go_nsq.Consumer.Account.{Inv, cap, total}
use go_nsq.Consumer.Bounds.{Bounded}
use go_nsq.Consumer.Budget.{update_rdy-Bounded}
use go_nsq.Consumer.Redistribution.{Redistributed, redistribute_rdy-Redistributed}
use go_nsq.Consumer.Backoff.{next_counter, start_stop_continue_backoff, resume_fires}
use go_nsq.Consumer.Levels.{Armed, next_level, start_stop_continue_backoff_lem}
use go_nsq.Consumer.Resumption.{Resumed, resume_fires-Resumed}
use go_nsq.Consumer.History.{IsHeld}
use go_nsq.Base.Bytes.{All}
use go_nsq.Command.{ready}
use go_nsq.Consumer.Strategy.{exponential}
use go_nsq.Consumer.Fuel.{spread-enough}
use go_nsq.Consumer.Membership.{on_conn_close-Inv}
use go_nsq.Consumer.Joining.{on_conn_close}
use go_nsq.Consumer.Quiet.{IsQuietAt, start_stop_continue_backoff-IsQuietAt}

abbrev doubling : ℤ → ℤ
doubling (pos n) = pos (n * 10)
doubling (negsuc n) = pos 0

abbrev config : Config
config = record {
  calculate = doubling;
  max_backoff_duration = pos 20;
  low_rdy_idle_timeout = pos 10;
  low_rdy_timeout = pos 30;
}

abbrev world : World
world = record {
  now = pos 100;
  write_fails = λ n. n == 3;
  writes = 0;
  draw = λ n. n;
  draws = 0;
  int64_nan = negsuc (2 ^ 63 - 1);
}

abbrev conn_a : Conn
conn_a = record {
  addr = codes "a:1";
  messages_in_flight = pos 0;
  max_rdy_count = pos 2500;
  rdy_count = pos 2;
  last_rdy_timestamp = pos 90;
  last_msg_timestamp = pos 95;
  close_flag = false;
  written = ready (pos 2) ∷ [];
}

abbrev conn_b : Conn
conn_b = record conn_a { addr = codes "b:1"; rdy_count = pos 0; written = [] }

abbrev pub sample : Consumer
sample = record {
  config = config;
  world = world;
  connections = conn_a ∷ conn_b ∷ [];
  total_rdy_count = pos 2;
  backoff_duration = pos 0;
  backoff_counter = pos 0;
  max_in_flight = pos 5;
  need_rdy_redistributed = true;
  rdy_retry_timers = [];
  resume_timers = 0;
  stop_flag = false;
}

shares : per_conn_max_in_flight sample ≡ pos 2
unfolding per_conn_max_in_flight
shares = refl

not_starved : is_starved sample ≡ false
unfolding is_starved
not_starved = refl

capped : (total (update_rdy (codes "b:1") (pos 9) sample).0) ≡ 5
unfolding update_rdy find go_nsq.Base.Bytes.bytes_eq go_nsq.Consumer.Rdy.update_open
    go_nsq.Consumer.Rdy.admit_rdy go_nsq.Base.Words.wrap64 go_nsq.Base.Int.◌+ℤ◌ go_nsq.Base.Int.◌-ℤ◌
    go_nsq.Consumer.send_rdy go_nsq.Consumer.write_command go_nsq.Consumer.store_rdy
    go_nsq.Consumer.Conns.modify go_nsq.Consumer.set_rdy
capped = refl

backs_off :
    let r = start_stop_continue_backoff backoff_flag sample in
    (total r ≡ 0) × (r.backoff_duration ≡ pos 10) × (r.resume_timers ≡ 1)
unfolding start_stop_continue_backoff go_nsq.Consumer.Backoff.apply_counter
    go_nsq.Consumer.Backoff.next_counter go_nsq.Base.Words.wrap64 go_nsq.Base.Int.◌+ℤ◌
    go_nsq.Base.Words.wrap32 go_nsq.Consumer.Backoff.backoff go_nsq.Consumer.Rdy.update_all
    update_rdy find go_nsq.Base.Bytes.bytes_eq go_nsq.Consumer.Rdy.update_open
    go_nsq.Consumer.Rdy.admit_rdy go_nsq.Base.Int.◌-ℤ◌ go_nsq.Consumer.send_rdy
    go_nsq.Consumer.write_command go_nsq.Consumer.store_rdy go_nsq.Consumer.Backoff.backoff_time
    go_nsq.Consumer.Conns.modify go_nsq.Consumer.set_rdy in_backoff_timeout
    go_nsq.Consumer.delete_timer
backs_off = (refl, refl, refl)

sample-Inv : Inv sample
sample-Inv = record {
  conns_valid = (
    record { rdy_nonneg = refl; max_nonneg = refl; rdy_capped = omega arith },
    (record { rdy_nonneg = refl; max_nonneg = refl; rdy_capped = omega arith }, tt),
  );
  total_exact = refl;
  total_small = omega arith;
  cap_nonneg = refl;
  cap_small = omega arith;
}

sample-Armed : Armed sample
unfolding in_backoff_timeout
sample-Armed = inl refl

update_rdy-Bounded_example : Bounded sample (update_rdy (codes "b:1") (pos 9) sample).0 9
update_rdy-Bounded_example = update_rdy-Bounded (codes "b:1") 9 sample sample-Inv

redistribute_rdy-Redistributed_example : Redistributed sample (redistribute_rdy sample)
redistribute_rdy-Redistributed_example = redistribute_rdy-Redistributed sample sample-Inv

start_stop_continue_backoff_lem_example :
    let r' = start_stop_continue_backoff backoff_flag sample in
    Inv r'
    × Armed r'
    × (cap r' ≡ cap sample)
    × (r'.backoff_counter
        ≡ (if in_backoff_timeout sample then pos 0 else pos (next_level config backoff_flag 0)))
    × ((in_backoff_timeout sample ≡ false) ⊎ (r' ≡ sample))
    × (next_level config backoff_flag 0 ≤ 2)
    × ((total r' ≤ total sample) ⊎ (total r' ≤ cap sample))
start_stop_continue_backoff_lem_example =
    start_stop_continue_backoff_lem 2 0 backoff_flag sample (omega arith, refl) refl (omega arith)
      sample-Inv sample-Armed

resume_fires-Resumed_example : Resumed sample (resume_fires sample)
resume_fires-Resumed_example = resume_fires-Resumed sample sample-Inv sample-Armed

sample_ready : in_backoff_timeout sample ≡ false
unfolding in_backoff_timeout
sample_ready = refl

sample_enters :
    ltb_ℤ (pos 0) (next_counter sample.config backoff_flag sample.backoff_counter).0 ≡ true
unfolding next_counter go_nsq.Base.Words.wrap64 go_nsq.Base.Int.◌+ℤ◌ go_nsq.Base.Words.wrap32
sample_enters = refl

start_stop_continue_backoff-IsQuietAt_example :
    IsQuietAt (find (codes "a:1") (start_stop_continue_backoff backoff_flag sample).connections)
start_stop_continue_backoff-IsQuietAt_example =
    start_stop_continue_backoff-IsQuietAt backoff_flag sample (codes "a:1") sample-Inv sample_ready
      sample_enters

abbrev default_config : Config
default_config = record config {
  calculate = exponential (negsuc (2 ^ 63 - 1)) (pos 1000000000);
  max_backoff_duration = pos 120000000000;
}

pub sample-IsHeld : IsHeld 2 sample
sample-IsHeld = record {
  inv = sample-Inv;
  armed = sample-Armed;
  highest = (omega arith, refl);
  level = (0, refl, omega arith);
}

-- A connection closes, a message fails, and a timer fires.
abbrev after_close : Consumer
after_close = on_conn_close conn_a sample

abbrev after_failure : Consumer
after_failure = start_stop_continue_backoff backoff_flag after_close

on_conn_close-Inv_example : Inv after_close × (total after_close + 2 ≡ total sample)
unfolding find bytes_eq
on_conn_close-Inv_example = on_conn_close-Inv conn_a sample (inl refl) sample-Inv

abbrev both : List Addr
both = codes "a:1" ∷ codes "b:1" ∷ []

spread-enough_example : spread 7 both (pos 3) sample ≡ spread 2 both (pos 3) sample
spread-enough_example = spread-enough 2 7 both (pos 3) sample (omega arith) (omega arith)
