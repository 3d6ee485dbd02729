-- ===== src/Protocol/Reads.antt =====
-- protocol.go: what a successful read says of the bytes, and what ends an unsuccessful one.
use go_nsq.Base.{
  ℕ, ◌+◌, ◌^◌, ◌≤◌, ◌<◌, ◌≡◌, refl, sym, ap, ◌∙◌, ◌||◌, List, [], ◌∷◌, ◌++◌, arith, length, take,
  drop, length-append, length-take, length-drop, take-append-drop, take-length-append,
  drop-length-append, take-append, drop-append, ◌==◌, if◌then◌else◌,
}
use go_nsq.Base.Int.{ℤ}
use go_nsq.Base.Bytes.{IsByte, All, put_be, get_be, length-put_be, All-take}
use go_nsq.Base.Words.{IsI32, to_u32, int32, to_u32-int32, int32-IsI32}
use go_nsq.Protocol.{
  eof, unexpected_eof, io, Result, ok, err, Reader, read_full, read_body, read_response,
  unpack_response, read_unpacked_response, >>=-ok,
}
use go_nsq.Protocol.Frames.{
  frame, read_response_ok, get_be-lt-u32, put_be_four, length-payload, size_back, read_full-put_be,
}
use mathlib.Core.Path.{subst}
use mathlib.Core.List.{append_assoc}
use native.Mathlib.Decide.{dec_lt}

unpack_response_parts :
    (resp : List ℕ) (z : ℤ) (body : List ℕ)
    → unpack_response resp ≡ ok (z, body)
    → (4 ≤ length resp) × (int32 (get_be (take 4 resp)) ≡ z) × (drop 4 resp ≡ body)
unfolding unpack_response
unpack_response_parts resp z body h = ground arith

unpack_response_ok :
    (resp : List ℕ) (z : ℤ) (body : List ℕ)
    → All IsByte resp
    → unpack_response resp ≡ ok (z, body)
    → (resp ≡ put_be 4 (to_u32 z) ++ body) × IsI32 z
unpack_response_ok resp z body hb h =
    let (long, type_read, rest) = unpack_response_parts resp z body h in
    let head : All IsByte (take 4 resp) = All-take IsByte 4 resp hb in
    let four : length (take 4 resp) ≡ 4 = omega (arith, length-take {0} 4 resp) in
    let small : get_be (take 4 resp) < 2 ^ 32 = get_be-lt-u32 (take 4 resp) head four in
    let code : to_u32 z ≡ get_be (take 4 resp) = rw (← type_read) (to_u32-int32 _ small) in
    (
      rw (code, ← rest, ← put_be_four (take 4 resp) _ head four refl)
          (sym (take-append-drop 4 resp)),
      rw (← type_read) (int32-IsI32 _ small),
    )

frame_of_parts :
    (r r1 r' : Reader) (resp : List ℕ) (z' z : ℤ) (body' body : List ℕ)
    → r.input ≡ put_be 4 (length resp) ++ (resp ++ r1.input)
    → resp ≡ put_be 4 (to_u32 z') ++ body'
    → ◌≡◌ {A = Result (ℤ × List ℕ × Reader)} (ok (z', body', r1)) (ok (z, body, r'))
    → (r.input ≡ frame z body ++ r'.input) × (length resp ≡ 4 + length body)
unfolding frame
frame_of_parts r r1 r' resp z' z body' body split parts e =
    let same : resp ≡ put_be 4 (to_u32 z) ++ body = cc in
    let len : length resp ≡ 4 + length body = rw same (length-payload z body) in
    let rest : r1.input ≡ r'.input = ground arith in
    (split ∙ rw (len, same, rest) (sym (append_assoc (put_be 4 (4 + length body)) _ r'.input)), len)

-- From a reader of bytes, what is read was a frame of the type and the data, with a type and a
-- size that fit an int32, and what is left in the reader is what followed it.
pub read_unpacked_response_ok :
    (r : Reader) (frame_type : ℤ) (body : List ℕ) (r' : Reader)
    → All IsByte r.input
    → read_unpacked_response r ≡ ok (frame_type, body, r')
    → (r.input ≡ frame frame_type body ++ r'.input)
      × (r'.ending ≡ r.ending)
      × IsI32 frame_type
      × (length body + 4 < 2 ^ 31)
unfolding read_unpacked_response frame
read_unpacked_response_ok r z body r' hb h =
    let ((resp, r1), e1, e2) = >>=-ok _ (read_response r) h in
    let ((z', body'), e3, e4) = >>=-ok _ (unpack_response resp) e2 in
    let (split, ending, small, bytes) = read_response_ok r resp r1 hb e1 in
    let (parts, fits) = unpack_response_ok resp z' body' bytes e3 in
    let (whole, len) = frame_of_parts r r1 r' resp z' z body' body split parts e4 in
    let type_same : z' ≡ z = cc in
    let ending_same : r1.ending ≡ r'.ending = ground arith in
    (whole, sym ending_same ∙ ending, subst IsI32 type_same fits, omega (arith, len))

short_read :
    (front : List ℕ) (n : ℕ)
    → length front < n
    → read_full (record { input = front; ending = eof }) n
      ≡ err (io (if length front == 0 then eof else unexpected_eof))
unfolding read_full
short_read [] n h = ground arith
short_read (b ∷ bs) n h = ground arith

header_missing :
    (front : List ℕ)
    → length front < 4
    → read_unpacked_response (record { input = front; ending = eof })
      ≡ err (io (if length front == 0 then eof else unexpected_eof))
unfolding read_unpacked_response read_response
header_missing front h = rw (short_read front 4 h)

payload_missing :
    (rest : List ℕ) (n : ℕ)
    → length rest < n
    → n < 2 ^ 31
    → read_unpacked_response (record { input = put_be 4 n ++ rest; ending = eof })
      ≡ err (io (if length rest == 0 then eof else unexpected_eof))
unfolding read_unpacked_response read_response read_body
payload_missing rest n h small =
    rw (read_full-put_be 4 n rest eof, size_back n small, read_body, short_read rest n h)

-- The part of a frame that has its size, and lacks some of its payload.
front_parts :
    (z : ℤ) (body front : List ℕ) (tail : List ℕ)
    → 0 < length tail
    → 4 ≤ length front
    → frame z body ≡ front ++ tail
    → (front ≡ put_be 4 (4 + length body) ++ drop 4 front)
      × (length (drop 4 front) < 4 + length body)
unfolding frame
front_parts z body front tail ht hf e =
    let size = put_be 4 (4 + length body) in
    let four : length size ≡ 4 = length-put_be 4 (4 + length body) in
    let payload = put_be 4 (to_u32 z) ++ body in
    let head : take 4 front ≡ size =
      sym (take-append 4 front tail hf)
      ∙ sym (ap (take 4) e)
      ∙ rw four at (take-length-append size payload) in
    let left : payload ≡ drop 4 front ++ tail =
      sym (rw four at (drop-length-append size payload))
      ∙ ap (drop 4) e
      ∙ drop-append 4 front tail hf in
    (
      rw (← head) (sym (take-append-drop 4 front)),
      omega (arith, length-payload z body, ap length left, length-append {0} (drop 4 front) tail),
    )

-- A frame whose size fits an int32 and that the end of the input cuts short gives io.EOF at the
-- start and between size and payload, and io.ErrUnexpectedEOF anywhere else.
pub read_unpacked_response-truncated :
    (z : ℤ) (body front back : List ℕ) (x : ℕ)
    → length body + 4 < 2 ^ 31
    → frame z body ≡ front ++ (x ∷ back)
    → read_unpacked_response (record { input = front; ending = eof })
      ≡ err (io (if length front == 0 || length front == 4 then eof else unexpected_eof))
read_unpacked_response-truncated z body front back x h e = elim (dec_lt (length front) 4) [
  | yes few ↦ rw (header_missing front few) (ground arith)
  | no many ↦
      let (split, less) = front_parts z body front (x ∷ back) (omega arith) (omega arith) e in
      let len : length front ≡ 4 + length (drop 4 front) = omega (arith, length-drop {0} 4 front) in
      let whole = payload_missing (drop 4 front) (4 + length body) less (omega arith) in
      ap (λ input. read_unpacked_response (record { input = input; ending = eof })) split
      ∙ whole
      ∙ ground (arith, len)
]
