-- ===== src/Message/Tests.antt =====
-- message.go: runs on a concrete message.
use go_nsq.Base.{
  ℕ, ◌+◌, ◌≤◌, ◌<◌, ◌^◌, ◌≡◌, refl, Bool, true, false, List, [], ◌∷◌, ◌++◌, arith, length, codes,
  if◌then◌else◌,
}
use go_nsq.Io.{start}
use go_nsq.Base.Int.{pos, negsuc}
use go_nsq.Base.Bytes.{All, IsByte}
use go_nsq.Message.{
  Message, on_finish, on_requeue, on_touch, new_message, write_to, ok, err, not_enough,
  decode_message,
}
use go_nsq.Message.Codec.{encode, IsValid, decode_message-write_to, encode-decode_message}
use go_nsq.Message.Response.{
  Call, finishes, touches, disables, requeues, requeues_without_backoff, calls, any_answers,
  responses, IsLast, calls_answer_once, calls_responded,
}

abbrev id : List ℕ
id = codes "0123456789abcdef"

abbrev sample : Message
sample = record {
  id = id;
  body = codes "hi";
  timestamp = negsuc 0;
  attempts = 258;
  nsqd_address = [];
  auto_response_disabled = 0;
  responded = 0;
}

abbrev sample_bytes : List ℕ
sample_bytes = 255 ∷ 255 ∷ 255 ∷ 255 ∷ 255 ∷ 255 ∷ 255 ∷ 255 ∷ 1 ∷ 2 ∷ codes "0123456789abcdefhi"

encode-sample : encode sample ≡ sample_bytes
unfolding encode go_nsq.Base.Bytes.put_be go_nsq.Base.Words.to_u64
encode-sample = refl

decode_sample : decode_message sample_bytes ≡ ok sample
unfolding decode_message go_nsq.Base.Words.int64 go_nsq.Base.Bytes.get_be
decode_sample = refl

decode_short : decode_message (codes "too short") ≡ err not_enough
unfolding decode_message
decode_short = refl

new_message_blank : (calls (new_message id [] (pos 5)) (disables ∷ touches ∷ [])).1 ≡ on_touch ∷ []
unfolding calls new_message go_nsq.Message.Response.call go_nsq.Message.touch
    go_nsq.Message.disable_auto_response
new_message_blank = refl

abbrev handler : List Call
handler = touches ∷ requeues (negsuc 0) ∷ finishes ∷ touches ∷ []

handler-calls : (calls sample handler).1 ≡ on_touch ∷ on_requeue (negsuc 0) true ∷ []
unfolding calls go_nsq.Message.Response.call go_nsq.Message.touch
handler-calls = refl

sample-IsValid : IsValid sample
sample-IsValid = record {
  id_length = refl;
  timestamp_fits = omega arith;
  attempts_fit = omega arith;
}

decode_message-write_to_example :
    ((write_to sample (start 64)).failed ≡ false)
    × (decode_message (write_to sample (start 64)).out ≡ ok sample)
unfolding go_nsq.Base.Bytes.put_be
decode_message-write_to_example =
    decode_message-write_to sample 64 sample-IsValid (unfold encode in omega arith)

encode-decode_message_example :
    (m : Message) × (decode_message sample_bytes ≡ ok m) × (encode m ≡ sample_bytes) × IsValid m
encode-decode_message_example = encode-decode_message sample_bytes (omega arith) (omega arith)

calls_answer_once_example :
    (responses (calls sample handler).1 ≡ (if any_answers handler then 1 else 0))
    × IsLast (calls sample handler).1
calls_answer_once_example = calls_answer_once sample handler refl
