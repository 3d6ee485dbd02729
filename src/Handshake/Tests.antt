-- ===== src/Handshake/Tests.antt =====
-- conn.go: connections that are brought up, and some that are not.
use go_nsq.Base.{
  ℕ, ◌≡◌, ◌+◌, inr, refl, Bool, true, false, List, [], ◌∷◌, ◌++◌, Option, none, some, codes, length,
}
use go_nsq.Base.Int.{pos, negsuc}
use go_nsq.Base.Bytes.{put_be}
use go_nsq.Protocol.{Reader, eof}
use go_nsq.Command.{auth}
use go_nsq.Handshake.{
  Settings, IdentifyResponse, Library, Link, Outcome, done, failed, panicked, bad_upgrade, new_link,
  connect,
}
use go_nsq.Handshake.Upgrades.{IsOver}
use go_nsq.Handshake.Agreement.{IsAgreed, connect-IsAgreed, connect-IsOver}

abbrev frame : ℕ → List ℕ → List ℕ
frame frame_type data' = put_be 4 (length data' + 4) ++ put_be 4 frame_type ++ data'

abbrev settings : Settings
settings = record {
  client_id = codes "box";
  hostname = codes "box.org";
  user_agent = codes "go-nsq/1.1.0";
  tls_v1 = true;
  deflate = false;
  deflate_level = pos 6;
  snappy = true;
  heartbeat_interval = pos 30000000000;
  sample_rate = pos 0;
  output_buffer_size = pos 16384;
  output_buffer_timeout = negsuc 0;
  msg_timeout = pos 0;
  auth_secret = codes "secret";
}

abbrev response : IdentifyResponse
response = record {
  max_rdy_count = pos 100;
  tls_v1 = true;
  deflate = false;
  snappy = true;
  auth_required = true;
}

-- The layers leave the bytes as they are.
abbrev lib : Library
lib = record {
  marshal = λ info. inr (codes "{}");
  parse_identify = λ d. some response;
  parse_auth = λ d. true;
  tls_client = λ r. some r;
  inflate = λ r. r;
  after_inflate = λ r. r;
  unsnap = λ r. r;
}

abbrev arriving : List ℕ → Reader
arriving bytes = record { input = bytes; ending = eof }

abbrev all_well : Reader
all_well =
    arriving
      (frame 0 (codes "{}") ++ frame 0 (codes "OK") ++ frame 0 (codes "OK") ++ frame 0 (codes "{}"))

abbrev link_of : Outcome (Option IdentifyResponse) → Link
link_of (done x) = x.1
link_of (failed e l) = l
link_of panicked = new_link all_well 0

abbrev result : Option IdentifyResponse × Link
result = (some response, link_of (connect lib settings (new_link all_well 9)))

connects : connect lib settings (new_link all_well 9) ≡ done result
unfolding connect go_nsq.Command.identify go_nsq.Protocol.read_unpacked_response
    go_nsq.Protocol.read_response go_nsq.Protocol.read_full put_be go_nsq.Protocol.read_body
    go_nsq.Base.Words.int32 go_nsq.Base.Bytes.get_be go_nsq.Protocol.unpack_response
    go_nsq.Base.Bytes.bytes_eq
connects = refl

connect-IsAgreed_example : IsAgreed lib settings result
connect-IsAgreed_example = connect-IsAgreed lib settings all_well 9 result connects

-- Snappy's OK does not arrive.
abbrev not_ok : Reader
not_ok = arriving (frame 0 (codes "{}") ++ frame 0 (codes "OK") ++ frame 0 (codes "NO"))

abbrev cut_off : Link
cut_off = link_of (connect lib settings (new_link not_ok 9))

refuses : connect lib settings (new_link not_ok 9) ≡ failed bad_upgrade cut_off
unfolding connect go_nsq.Command.identify go_nsq.Protocol.read_unpacked_response
    go_nsq.Protocol.read_response go_nsq.Protocol.read_full put_be go_nsq.Protocol.read_body
    go_nsq.Base.Words.int32 go_nsq.Base.Bytes.get_be go_nsq.Protocol.unpack_response
    go_nsq.Base.Bytes.bytes_eq
refuses = refl

connect-IsOver_example : IsOver lib settings cut_off
connect-IsOver_example = connect-IsOver lib settings not_ok 9 bad_upgrade cut_off refuses

-- A response frame without data.
empty_panics : connect lib settings (new_link (arriving (frame 0 [])) 9) ≡ panicked
unfolding connect go_nsq.Command.identify go_nsq.Protocol.read_unpacked_response
    go_nsq.Protocol.read_response go_nsq.Protocol.read_full put_be go_nsq.Protocol.read_body
    go_nsq.Base.Words.int32 go_nsq.Base.Bytes.get_be go_nsq.Protocol.unpack_response
empty_panics = refl
