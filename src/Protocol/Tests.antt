-- ===== src/Protocol/Tests.antt =====
-- protocol.go: runs on concrete frames and names.
use go_nsq.Base.{
  ℕ, ◌+◌, ◌≤◌, ◌<◌, ◌^◌, ◌≡◌, refl, ◌↔◌, ◌⊎◌, inl, inr, Bool, true, false, List, [], ◌∷◌, ◌++◌,
  arith, length, codes,
}
use go_nsq.Base.Int.{ℤ}
use go_nsq.Base.Bytes.{All, IsByte}
use go_nsq.Base.Words.{IsI32}
use go_nsq.Protocol.{
  Reader, eof, unexpected_eof, io, ok, err, negative_size, too_small, read_unpacked_response,
  is_valid_topic_name, is_valid_channel_name, frame_type_response,
}
use go_nsq.Protocol.Frames.{frame, read_unpacked_response-frame}
use go_nsq.Protocol.Reads.{read_unpacked_response_ok, read_unpacked_response-truncated}
use go_nsq.Protocol.Names.{IsName, is_valid_topic_name_iff}

abbrev ok_frame : List ℕ
ok_frame = 0 ∷ 0 ∷ 0 ∷ 6 ∷ 0 ∷ 0 ∷ 0 ∷ 0 ∷ 79 ∷ 75 ∷ []

frame_ok : frame frame_type_response (codes "OK") ≡ ok_frame
unfolding frame go_nsq.Base.Bytes.put_be go_nsq.Base.Words.to_u32
frame_ok = refl

read_ok :
    read_unpacked_response (record { input = ok_frame ++ (1 ∷ []); ending = eof })
    ≡ ok (frame_type_response, codes "OK", record { input = 1 ∷ []; ending = eof })
unfolding read_unpacked_response go_nsq.Protocol.read_response go_nsq.Protocol.read_full
    go_nsq.Protocol.read_body go_nsq.Base.Words.int32 go_nsq.Base.Bytes.get_be
    go_nsq.Protocol.unpack_response
read_ok = refl

read_negative :
    read_unpacked_response (record { input = 255 ∷ 255 ∷ 255 ∷ 255 ∷ []; ending = eof })
    ≡ err (negative_size (ℤ.negsuc 0))
unfolding read_unpacked_response go_nsq.Protocol.read_response go_nsq.Protocol.read_full
    go_nsq.Protocol.read_body go_nsq.Base.Words.int32 go_nsq.Base.Bytes.get_be
read_negative = refl

read_small :
    read_unpacked_response (record { input = 0 ∷ 0 ∷ 0 ∷ 1 ∷ 7 ∷ []; ending = eof }) ≡ err too_small
unfolding read_unpacked_response go_nsq.Protocol.read_response go_nsq.Protocol.read_full
    go_nsq.Protocol.read_body go_nsq.Base.Words.int32 go_nsq.Base.Bytes.get_be
    go_nsq.Protocol.unpack_response
read_small = refl

long_name_refused : is_valid_channel_name (codes "has space") ≡ false
unfolding is_valid_channel_name go_nsq.Protocol.is_valid_name go_nsq.Protocol.match_name
    go_nsq.Protocol.is_name_char go_nsq.Protocol.match_tail go_nsq.Base.Bytes.bytes_eq
long_name_refused = refl

ephemeral_accepted : is_valid_topic_name (codes "logs#ephemeral") ≡ true
unfolding is_valid_topic_name go_nsq.Protocol.is_valid_name go_nsq.Protocol.match_name
    go_nsq.Protocol.is_name_char go_nsq.Protocol.match_tail go_nsq.Base.Bytes.bytes_eq
ephemeral_accepted = refl

read_unpacked_response-frame_example :
    read_unpacked_response
      (record { input = frame frame_type_response (codes "OK") ++ (1 ∷ []); ending = eof })
    ≡ ok (frame_type_response, codes "OK", record { input = 1 ∷ []; ending = eof })
read_unpacked_response-frame_example =
    read_unpacked_response-frame frame_type_response (codes "OK") (1 ∷ []) eof (omega arith)
      (omega arith)

read_unpacked_response_ok_example :
    (ok_frame ++ (1 ∷ []) ≡ frame frame_type_response (codes "OK") ++ (1 ∷ []))
    × (eof ≡ eof)
    × IsI32 frame_type_response
    × (length (codes "OK") + 4 < 2 ^ 31)
read_unpacked_response_ok_example =
    read_unpacked_response_ok (record { input = ok_frame ++ (1 ∷ []); ending = eof })
      frame_type_response (codes "OK") (record { input = 1 ∷ []; ending = eof }) (omega arith)
      read_ok

read_unpacked_response-truncated_example :
    read_unpacked_response (record { input = 0 ∷ 0 ∷ 0 ∷ 6 ∷ 0 ∷ []; ending = eof })
    ≡ err (io unexpected_eof)
read_unpacked_response-truncated_example =
    read_unpacked_response-truncated frame_type_response (codes "OK") (0 ∷ 0 ∷ 0 ∷ 6 ∷ 0 ∷ [])
      (0 ∷ 0 ∷ 79 ∷ 75 ∷ []) 0 (omega arith) frame_ok

is_valid_topic_name_iff_example :
    (is_valid_topic_name (codes "logs") ≡ true)
    ↔ ((1 ≤ length (codes "logs")) × (length (codes "logs") ≤ 64) × IsName (codes "logs"))
is_valid_topic_name_iff_example = is_valid_topic_name_iff (codes "logs")
