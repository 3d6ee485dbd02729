-- ===== src/Handshake/Linking.antt =====
-- conn.go: a connection that is brought up, and what its calls return.
use go_nsq.Base.{ℕ, Bool, true, false, List, [], Option, ◌⊎◌, if◌then◌else◌}
use go_nsq.Base.Int.{ℤ, pos, negsuc, eqb_ℤ}
use go_nsq.Protocol.{Reader, Error}
use go_nsq.Command.{Command, milliseconds}

-- The fields of the configuration that IDENTIFY and AUTH read.
pub record Settings : Type 0 where
  pub client_id : List ℕ
  pub hostname : List ℕ
  pub user_agent : List ℕ
  pub tls_v1 : Bool
  pub deflate : Bool
  pub deflate_level : ℤ
  pub snappy : Bool
  pub heartbeat_interval : ℤ
  pub sample_rate : ℤ
  pub output_buffer_size : ℤ
  pub output_buffer_timeout : ℤ
  pub msg_timeout : ℤ
  pub auth_secret : List ℕ

-- The map that becomes the body of IDENTIFY.
pub record ClientInfo : Type 0 where
  pub client_id : List ℕ
  pub hostname : List ℕ
  pub user_agent : List ℕ
  pub short_id : List ℕ
  pub long_id : List ℕ
  pub tls_v1 : Bool
  pub deflate : Bool
  pub deflate_level : ℤ
  pub snappy : Bool
  pub feature_negotiation : Bool
  pub heartbeat_interval : ℤ
  pub sample_rate : ℤ
  pub output_buffer_size : ℤ
  pub output_buffer_timeout : ℤ
  pub msg_timeout : ℤ

abbrev or_disabled : ℤ → ℤ
or_disabled d = if eqb_ℤ d (negsuc 0) then negsuc 0 else milliseconds d

unfoldable pub client_info : Settings → ClientInfo
client_info s = record {
  client_id = s.client_id;
  hostname = s.hostname;
  user_agent = s.user_agent;
  short_id = s.client_id;
  long_id = s.hostname;
  tls_v1 = s.tls_v1;
  deflate = s.deflate;
  deflate_level = s.deflate_level;
  snappy = s.snappy;
  feature_negotiation = true;
  heartbeat_interval = or_disabled s.heartbeat_interval;
  sample_rate = s.sample_rate;
  output_buffer_size = s.output_buffer_size;
  output_buffer_timeout = or_disabled s.output_buffer_timeout;
  msg_timeout = milliseconds s.msg_timeout;
}

pub record IdentifyResponse : Type 0 where
  pub max_rdy_count : ℤ
  pub tls_v1 : Bool
  pub deflate : Bool
  pub snappy : Bool
  pub auth_required : Bool

-- What `c.r` and `c.w` are made of.
pub data Compression : Type 0 where
  uncompressed deflated snappied : Compression

abbrev pub is_plain : Compression → Bool
is_plain uncompressed = true
is_plain deflated = false
is_plain snappied = false

pub record Stream : Type 0 where
  pub tls : Bool
  pub compression : Compression

-- JSON, TLS and the compressions: a reader becomes the one of the upgraded stream. `after_inflate` is
-- what flate leaves of the reader below it once it has given the answer to its upgrade.
pub record Library : Type 0 where
  pub marshal : ClientInfo → ℕ ⊎ List ℕ
  pub parse_identify : List ℕ → Option IdentifyResponse
  pub parse_auth : List ℕ → Bool
  pub tls_client : Reader → Option Reader
  pub inflate : Reader → Reader
  pub after_inflate : Reader → Reader
  pub unsnap : Reader → Reader

pub data Sent : Type 0 where
  magic : Sent
  command : Stream → Command → Sent

-- A connection; `reader` is `c.r`, and `below` the reader of the socket or of TLS that a compression
-- stands on. `writes_left` writes succeed and the next one fails.
pub record Link : Type 0 where
  pub reader : Reader
  pub below : Reader
  pub stream : Stream
  pub buffered : Bool
  pub sent : List Sent
  pub writes_left : ℕ
  pub io_errors : ℕ
  pub max_rdy_count : ℤ
  pub close_flag : Bool
  pub loops : Bool

pub data Failure : Type 0 where
  no_connection no_magic no_info write_failed bad_json no_handshake bad_upgrade auth_needed :
      Failure
  read_failed : Error → Failure
  nsqd_error : List ℕ → Failure

pub data Outcome {ℓ} (A : Type ℓ) : Type ℓ where
  done : A × Link → Outcome A
  failed : Failure → Link → Outcome A
  panicked : Outcome A

-- `if err != nil { return err }` between two calls.
infixl 5 ◌>>=◌
abbrev pub ◌>>=◌ {κ ℓ} : {B : Type κ} {A : Type ℓ} → Outcome B → (B × Link → Outcome A) → Outcome A
done x >>= next = next x
failed e l >>= next = failed e l
panicked >>= next = panicked

abbrev pub new_link : Reader → ℕ → Link
new_link r writes = record {
  reader = r;
  below = r;
  stream = record { tls = false; compression = uncompressed };
  buffered = false;
  sent = [];
  writes_left = writes;
  io_errors = 0;
  max_rdy_count = pos 2500;
  close_flag = false;
  loops = false;
}
