-- ===== src/Protocol.antt =====
-- protocol.go: the frames that nsqd sends, and the rule for topic and channel names.
pub mod Frames
pub mod Reads
pub mod Names
pub mod Tests
use go_nsq.Base.{
  ℕ, ◌+◌, ◌≤◌, ◌<◌, ◌≡◌, refl, Bool, true, false, ◌&&◌, ◌||◌, List, [], ◌∷◌, length, take, drop,
  ltb, leb, ◌==◌, if◌then◌else◌, codes,
}
use go_nsq.Base.Int.{ℤ, pos, negsuc}
use go_nsq.Base.Bytes.{get_be, bytes_eq}
use go_nsq.Base.Words.{int32}

pub data IoError : Type 0 where
  eof unexpected_eof : IoError
  other : ℕ → IoError

pub data Error : Type 0 where
  io : IoError → Error
  negative_size : ℤ → Error
  too_small : Error

-- What a Go function returns beside a nil error, or its error.
pub data Result {ℓ} (A : Type ℓ) : Type ℓ where
  err : Error → Result A
  ok : A → Result A

-- `if err != nil { return nil, err }` between two calls.
infixl 5 ◌>>=◌
abbrev pub ◌>>=◌ {κ ℓ} : {B : Type κ} {A : Type ℓ} → Result B → (B → Result A) → Result A
err reason >>= next = err reason
ok x >>= next = next x

-- Both calls of a successful chain succeeded.
pub >>=-ok {κ ℓ} :
    {B : Type κ} {A : Type ℓ} {y : A} (next : B → Result A) (first : Result B)
    → (first >>= next) ≡ ok y
    → (x : B) × (first ≡ ok x) × (next x ≡ ok y)
>>=-ok next (err reason) h = cc
>>=-ok next (ok x) h = (x, refl, h)

-- An io.Reader: the bytes that will still arrive, and the error that ends them.
pub record Reader : Type 0 where
  pub input : List ℕ
  pub ending : IoError

abbrev pub frame_type_response : ℤ
frame_type_response = pos 0

abbrev pub frame_type_error : ℤ
frame_type_error = pos 1

abbrev pub frame_type_message : ℤ
frame_type_message = pos 2

-- io.ReadFull turns an EOF after some bytes into ErrUnexpectedEOF.
unfoldable pub short : List ℕ → IoError → IoError
short (b ∷ bs) eof = unexpected_eof
short _ e = e

unfoldable pub read_full : Reader → ℕ → Result (List ℕ × Reader)
unfolding short
read_full r n =
    if leb n (length r.input)
    then ok (take n r.input, record r { input = drop n r.input })
    else err (io (short r.input r.ending))

unfoldable pub read_body : ℤ → Reader → Result (List ℕ × Reader)
read_body (pos n) r = read_full r n
read_body (negsuc n) r = err (negative_size (negsuc n))

unfoldable pub read_response : Reader → Result (List ℕ × Reader)
read_response r = do (size, r') ← read_full r 4; read_body (int32 (get_be size)) r'

unfoldable pub unpack_response : List ℕ → Result (ℤ × List ℕ)
unpack_response response =
    if ltb (length response) 4
    then err too_small
    else ok (int32 (get_be (take 4 response)), drop 4 response)

unfoldable pub read_unpacked_response : Reader → Result (ℤ × List ℕ × Reader)
read_unpacked_response r = do
  (resp, r') ← read_response r
  (frame_type, body) ← unpack_response resp
  ok (frame_type, body, r')

-- The class [\.a-zA-Z0-9_-] of the regular expression.
unfoldable pub is_name_char : ℕ → Bool
is_name_char c =
    (c == b'.')
    || (leb b'a' c && leb c b'z')
    || (leb b'A' c && leb c b'Z')
    || (leb b'0' c && leb c b'9')
    || (c == b'_')
    || (c == b'-')

abbrev pub ephemeral : List ℕ
ephemeral = codes "#ephemeral"

-- `[\.a-zA-Z0-9_-]*(#ephemeral)?$`, what is left of the expression after one character.
unfoldable pub match_tail : List ℕ → Bool
unfolding is_name_char
match_tail [] = true
match_tail (c ∷ cs) = (is_name_char c && match_tail cs) || bytes_eq (c ∷ cs) ephemeral

unfoldable pub match_name : List ℕ → Bool
match_name [] = false
match_name (c ∷ cs) = is_name_char c && match_tail cs

unfoldable pub is_valid_name : List ℕ → Bool
is_valid_name name = if ltb 64 (length name) || ltb (length name) 1 then false else match_name name

unfoldable pub is_valid_topic_name : List ℕ → Bool
is_valid_topic_name name = is_valid_name name

unfoldable pub is_valid_channel_name : List ℕ → Bool
is_valid_channel_name name = is_valid_name name
