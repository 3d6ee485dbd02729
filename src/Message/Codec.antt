-- ===== src/Message/Codec.antt =====
-- message.go: WriteTo and DecodeMessage.
use go_nsq.Base.{
  ℕ, ◌+◌, ◌^◌, ◌≤◌, ◌<◌, ◌≡◌, false, refl, sym, ap, ◌∙◌, List, [], ◌++◌, arith, length, take, drop,
  length-append, take-length-append, drop-length-append, length-take, length-drop, take-append-drop,
  drop-drop,
}
use go_nsq.Base.Bytes.{
  IsByte, All, put_be, get_be, length-put_be, get_be-put_be, field_back, All-take, All-drop,
}
use go_nsq.Base.Words.{IsI64, to_u64, int64, int64-to_u64, to_u64-int64, to_u64-lt, int64-IsI64}
use go_nsq.Io.{Writer, write, write-append, start, write_fits}
use go_nsq.Message.{Message, write_to, ok, decode_message, msg_id_length}
use mathlib.Core.List.{append_assoc}
use native.Mathlib.Nat.{mod-eq_of_lt}

-- Timestamp, attempts, id and body, as DecodeMessage documents them.
unfoldable pub encode : Message → List ℕ
encode m = put_be 8 (to_u64 m.timestamp) ++ (put_be 2 m.attempts ++ (m.id ++ m.body))

-- The fields that fit their Go types.
pub record IsValid (m : Message) : Type 0 where
  pub id_length : length m.id ≡ msg_id_length
  pub timestamp_fits : IsI64 m.timestamp
  pub attempts_fit : m.attempts < 2 ^ 16

-- WriteTo is one write of the encoding: as much of it as the writer takes, with the count and the
-- error of that.
pub write_to-encode : (m : Message) (w : Writer) → write_to m w ≡ write (encode m) w
unfolding write_to encode
write_to-encode m w = rw (
  write-append _ m.id w,
  write-append _ m.body w,
  append_assoc (put_be 8 (to_u64 m.timestamp)) (put_be 2 m.attempts) m.id,
  append_assoc (put_be 8 (to_u64 m.timestamp)) (put_be 2 m.attempts ++ m.id) m.body,
  append_assoc (put_be 2 m.attempts) m.id m.body,
)

module _ (a b c d : List ℕ) (ha : length a ≡ 8) (hb : length b ≡ 2) (hc : length c ≡ 16) where
  abbrev fields : List ℕ
  fields = a ++ (b ++ (c ++ d))

  field_a : take 8 fields ≡ a
  field_a = rw ha at (take-length-append a (b ++ (c ++ d)))

  rest_a : drop 8 fields ≡ b ++ (c ++ d)
  rest_a = rw ha at (drop-length-append a (b ++ (c ++ d)))

  field_b : take 2 (drop 8 fields) ≡ b
  field_b = rw rest_a (rw hb at (take-length-append b (c ++ d)))

  rest_b : drop 10 fields ≡ c ++ d
  rest_b =
      sym (drop-drop 8 2 fields) ∙ ap (drop 2) rest_a ∙ rw hb at (drop-length-append b (c ++ d))

  field_c : take 16 (drop 10 fields) ≡ c
  field_c = rw rest_b (rw hc at (take-length-append c d))

  field_d : drop 26 fields ≡ d
  field_d = sym (drop-drop 10 16 fields) ∙ ap (drop 16) rest_b ∙ rw hc at (drop-length-append c d)

  length-fields : length fields ≡ 26 + length d
  length-fields =
      rw (length-append {0} a (b ++ (c ++ d)), length-append {0} b (c ++ d), length-append {0} c d)
        (omega arith)

  decode-fields :
      decode_message fields
      ≡ ok (record {
        id = c;
        body = d;
        timestamp = int64 (get_be a);
        attempts = get_be b;
        nsqd_address = [];
        auto_response_disabled = 0;
        responded = 0;
      })
  unfolding decode_message
  decode-fields = rw (field_a, field_b, field_c, field_d, length-fields) (ground arith)

decode_message-encode :
    (m : Message)
    → IsValid m
    → decode_message (encode m)
      ≡ ok (record m { nsqd_address = []; auto_response_disabled = 0; responded = 0 })
unfolding encode
decode_message-encode m v =
    let stamp = put_be 8 (to_u64 m.timestamp) in
    let tries = put_be 2 m.attempts in
    let two = length-put_be 2 m.attempts in
    let eight = length-put_be 8 (to_u64 m.timestamp) in
    decode-fields stamp tries m.id m.body eight two v.id_length
    ∙ rw (
      get_be-put_be 8 (to_u64 m.timestamp),
      get_be-put_be 2 m.attempts,
      mod-eq_of_lt (to_u64-lt m.timestamp),
      mod-eq_of_lt v.attempts_fit,
      int64-to_u64 m.timestamp v.timestamp_fits,
    )

-- A message whose id has 16 bytes and whose timestamp and attempts fit their types, written by
-- WriteTo into a writer with room for it, is read back by DecodeMessage from what was written, less
-- what does not go over the wire, and nothing failed.
pub decode_message-write_to :
    (m : Message) (room : ℕ)
    → IsValid m
    → length (encode m) ≤ room
    → ((write_to m (start room)).failed ≡ false)
      × (decode_message (write_to m (start room)).out
          ≡ ok (record m { nsqd_address = []; auto_response_disabled = 0; responded = 0 }))
decode_message-write_to m room v fits =
    let written = write_to-encode m (start room) ∙ write_fits (encode m) room fits in
    (rw written refl, rw written (decode_message-encode m v))

join_parts :
    (b : List ℕ) → take 8 b ++ (take 2 (drop 8 b) ++ (take 16 (drop 10 b) ++ drop 26 b)) ≡ b
join_parts b =
    rw (← drop-drop 10 16 b, take-append-drop 16 (drop 10 b), ← drop-drop 8 2 b)
      (ap (◌++◌ (take 8 b)) (take-append-drop 2 (drop 8 b)) ∙ take-append-drop 8 b)

-- Every list of at least 26 bytes decodes, to a message that encodes to the same bytes.
pub encode-decode_message :
    (b : List ℕ)
    → All IsByte b
    → 26 ≤ length b
    → (m : Message) × (decode_message b ≡ ok m) × (encode m ≡ b) × IsValid m
unfolding decode_message encode
encode-decode_message b h long =
    let eight : length (take 8 b) ≡ 8 = omega (arith, length-take {0} 8 b) in
    let two : length (take 2 (drop 8 b)) ≡ 2 =
      omega (arith, length-take {0} 2 (drop 8 b), length-drop {0} 8 b) in
    let (stamp, stamp_fits) = field_back 8 _ (All-take IsByte 8 b h) eight in
    let (tries, tries_fit) = field_back 2 _ (All-take IsByte 2 _ (All-drop IsByte 8 b h)) two in
    (
      record {
        id = take 16 (drop 10 b);
        body = drop 26 b;
        timestamp = int64 (get_be (take 8 b));
        attempts = get_be (take 2 (drop 8 b));
        nsqd_address = [];
        auto_response_disabled = 0;
        responded = 0;
      },
      ground arith,
      rw (to_u64-int64 _ stamp_fits, stamp, tries) (join_parts b),
      record {
        id_length = omega (arith, length-take {0} 16 (drop 10 b), length-drop {0} 10 b);
        timestamp_fits = int64-IsI64 _ stamp_fits;
        attempts_fit = tries_fit;
      },
    )
