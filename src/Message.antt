-- ===== src/Message.antt =====
-- message.go: a message, its wire format, and the responses that it sends to its delegate.
pub mod Codec
pub mod Response
pub mod Tests
use go_nsq.Base.{
  ℕ, ◌+◌, ◌%◌, ◌^◌, ◌<◌, ◌≡◌, Bool, true, false, List, [], ◌∷◌, length, take, drop, ltb, ◌==◌, ◌++◌,
  if◌then◌else◌, Option, none, some,
}
use go_nsq.Base.Int.{ℤ, pos, negsuc}
use go_nsq.Base.Bytes.{get_be, put_be}
use go_nsq.Base.Words.{int64, to_u64}
use go_nsq.Io.{Writer, write}

abbrev pub msg_id_length : ℕ
msg_id_length = 16

pub record Message : Type 0 where
  pub id : List ℕ
  pub body : List ℕ
  pub timestamp : ℤ
  pub attempts : ℕ
  pub nsqd_address : List ℕ
  pub auto_response_disabled : ℕ
  pub responded : ℕ

-- The calls of MessageDelegate that a method makes; a delay is in nanoseconds.
pub data DelegateCall : Type 0 where
  on_finish : DelegateCall
  on_requeue : ℤ → Bool → DelegateCall
  on_touch : DelegateCall

-- `now` is time.Now().UnixNano().
unfoldable pub new_message : List ℕ → List ℕ → ℤ → Message
new_message id body now = record {
  id = id;
  body = body;
  timestamp = now;
  attempts = 0;
  nsqd_address = [];
  auto_response_disabled = 0;
  responded = 0;
}

unfoldable pub disable_auto_response : Message → Message
disable_auto_response m = record m { auto_response_disabled = 1 }

unfoldable pub is_auto_response_disabled : Message → Bool
is_auto_response_disabled m = m.auto_response_disabled == 1

unfoldable pub has_responded : Message → Bool
has_responded m = m.responded == 1

-- atomic.CompareAndSwapInt32(&m.responded, 0, 1), and what follows when it swaps.
unfoldable pub respond : DelegateCall → Message → Message × List DelegateCall
respond call m = if m.responded == 0 then (record m { responded = 1 }, call ∷ []) else (m, [])

unfoldable pub finish : Message → Message × List DelegateCall
unfolding respond
finish m = respond on_finish m

unfoldable pub touch : Message → Message × List DelegateCall
unfolding has_responded
touch m = if has_responded m then (m, []) else (m, on_touch ∷ [])

unfoldable pub do_requeue : ℤ → Bool → Message → Message × List DelegateCall
unfolding respond
do_requeue delay backoff m = respond (on_requeue delay backoff) m

unfoldable pub requeue : ℤ → Message → Message × List DelegateCall
unfolding do_requeue
requeue delay m = do_requeue delay true m

unfoldable pub requeue_without_backoff : ℤ → Message → Message × List DelegateCall
unfolding do_requeue
requeue_without_backoff delay m = do_requeue delay false m

unfoldable pub write_to : Message → Writer → Writer
write_to m w =
    write m.body (write m.id (write (put_be 8 (to_u64 m.timestamp) ++ put_be 2 m.attempts) w))

pub data DecodeError : Type 0 where
  not_enough : DecodeError

pub data Decoded : Type 0 where
  ok : Message → Decoded
  err : DecodeError → Decoded

unfoldable pub decode_message : List ℕ → Decoded
decode_message b =
    if ltb (length b) (10 + msg_id_length)
    then err not_enough
    else ok (record {
      id = take msg_id_length (drop 10 b);
      body = drop (10 + msg_id_length) b;
      timestamp = int64 (get_be (take 8 b));
      attempts = get_be (take 2 (drop 8 b));
      nsqd_address = [];
      auto_response_disabled = 0;
      responded = 0;
    })
