-- ===== src/Protocol/Frames.antt =====
-- protocol.go: ReadResponse and UnpackResponse against the layout of a frame.
use go_nsq.Base.{
  ℕ, ◌+◌, ◌^◌, ◌<◌, ◌≡◌, refl, sym, ◌∙◌, List, ◌++◌, arith, length, take, drop, length-append,
  length-take, take-append-drop, take-length-append, drop-length-append,
}
use go_nsq.Base.Int.{ℤ, pos, negsuc}
use go_nsq.Base.Bytes.{
  IsByte, All, put_be, get_be, get_be-put_be, put_be-get_be, length-put_be, get_be-lt, All-take,
  All-drop,
}
use go_nsq.Base.Words.{IsI32, to_u32, int32, int32-to_u32, to_u32-lt}
use go_nsq.Protocol.{
  IoError, ok, Reader, read_full, read_body, read_response, unpack_response, read_unpacked_response,
  >>=-ok,
}
use native.Mathlib.Nat.{mod-eq_of_lt}
use mathlib.Core.List.{append_assoc}

-- The layout that the protocol documents: size, frame type, data.
unfoldable pub frame : ℤ → List ℕ → List ℕ
frame frame_type body = put_be 4 (4 + length body) ++ (put_be 4 (to_u32 frame_type) ++ body)

read_full-append :
    (xs ys : List ℕ) (e : IoError)
    → read_full (record { input = xs ++ ys; ending = e }) (length xs)
      ≡ ok (xs, record { input = ys; ending = e })
unfolding read_full
read_full-append xs ys e =
    rw (length-append {0} xs ys, take-length-append xs ys, drop-length-append xs ys) (ground arith)

read_full_ok :
    (r : Reader) (n : ℕ) (b : List ℕ) (r' : Reader)
    → read_full r n ≡ ok (b, r')
    → (r.input ≡ b ++ r'.input)
      × (length b ≡ n)
      × (r'.ending ≡ r.ending)
      × (b ≡ take n r.input)
      × (r'.input ≡ drop n r.input)
unfolding read_full
read_full_ok r n b r' h = ground (arith, take-append-drop n r.input, length-take n r.input)

pub read_full-put_be :
    (k n : ℕ) (ys : List ℕ) (e : IoError)
    → read_full (record { input = put_be k n ++ ys; ending = e }) k
      ≡ ok (put_be k n, record { input = ys; ending = e })
read_full-put_be k n ys e = rw (length-put_be k n) at (read_full-append (put_be k n) ys e)

pub size_back : (n : ℕ) → n < 2 ^ 31 → int32 (get_be (put_be 4 n)) ≡ pos n
unfolding int32
size_back n h = rw (get_be-put_be 4 n) (ground arith)

pub read_response-put_be :
    (body rest : List ℕ) (e : IoError)
    → length body < 2 ^ 31
    → read_response (record { input = put_be 4 (length body) ++ (body ++ rest); ending = e })
      ≡ ok (body, record { input = rest; ending = e })
unfolding read_response read_body
read_response-put_be body rest e h =
    rw (read_full-put_be 4 (length body) (body ++ rest) e, size_back (length body) h, read_body)
      (read_full-append body rest e)

unpack_response-put_be :
    (z : ℤ) (body : List ℕ) → IsI32 z → unpack_response (put_be 4 (to_u32 z) ++ body) ≡ ok (z, body)
unfolding unpack_response
unpack_response-put_be z body h =
    let len = length-put_be 4 (to_u32 z) in
    rw
      (
        length-append {0} (put_be 4 (to_u32 z)) body,
        len,
        rw len at (take-length-append (put_be 4 (to_u32 z)) body),
        rw len at (drop-length-append (put_be 4 (to_u32 z)) body),
        get_be-put_be 4 (to_u32 z),
        mod-eq_of_lt (to_u32-lt z),
        int32-to_u32 z h,
      )
      (ground arith)

pub length-payload :
    (z : ℤ) (body : List ℕ) → length (put_be 4 (to_u32 z) ++ body) ≡ 4 + length body
length-payload z body =
    omega (arith, length-append {0} (put_be 4 (to_u32 z)) body, length-put_be 4 (to_u32 z))

-- A frame whose type and size fit an int32 is read back, and what follows it is left in the
-- reader.
pub read_unpacked_response-frame :
    (frame_type : ℤ) (body rest : List ℕ) (e : IoError)
    → IsI32 frame_type
    → length body + 4 < 2 ^ 31
    → read_unpacked_response (record { input = frame frame_type body ++ rest; ending = e })
      ≡ ok (frame_type, body, record { input = rest; ending = e })
unfolding read_unpacked_response frame
read_unpacked_response-frame frame_type body rest e ht hb =
    let payload = put_be 4 (to_u32 frame_type) ++ body in
    rw (
      append_assoc (put_be 4 (4 + length body)) payload rest,
      ← length-payload frame_type body,
      read_response-put_be payload rest e (omega (arith, length-payload frame_type body)),
      unpack_response-put_be frame_type body ht,
    )

read_body_ok :
    (z : ℤ) (r : Reader) (b : List ℕ) (r' : Reader)
    → read_body z r ≡ ok (b, r')
    → (z ≡ pos (length b))
      × (r.input ≡ b ++ r'.input)
      × (r'.ending ≡ r.ending)
      × (r'.input ≡ drop (length b) r.input)
      × (b ≡ take (length b) r.input)
unfolding read_body
read_body_ok (pos n) r b r' h = ground (arith, read_full_ok r n b r' h)
read_body_ok (negsuc n) r b r' h = cc

size_read : (w n : ℕ) → w < 2 ^ 32 → int32 w ≡ pos n → (w ≡ n) × (n < 2 ^ 31)
unfolding int32
size_read w n h e = ground arith

pub get_be-lt-u32 : (bs : List ℕ) → All IsByte bs → length bs ≡ 4 → get_be bs < 2 ^ 32
get_be-lt-u32 bs h e = omega (arith, rw e at (get_be-lt bs h))

pub put_be_four :
    (bs : List ℕ) (n : ℕ) → All IsByte bs → length bs ≡ 4 → get_be bs ≡ n → bs ≡ put_be 4 n
put_be_four bs n h e g = sym (rw (e, g) at (put_be-get_be bs h))

pub read_response_ok :
    (r : Reader) (b : List ℕ) (r' : Reader)
    → All IsByte r.input
    → read_response r ≡ ok (b, r')
    → (r.input ≡ put_be 4 (length b) ++ (b ++ r'.input))
      × (r'.ending ≡ r.ending)
      × (length b < 2 ^ 31)
      × All IsByte b
unfolding read_response
read_response_ok r b r' hb h =
    let ((size, r1), e1, e2) = >>=-ok _ (read_full r 4) h in
    let (split1, len1, end1, take1, drop1) = read_full_ok r 4 size r1 e1 in
    let (z, split2, end2, drop2, take2) = read_body_ok _ r1 b r' e2 in
    let size_bytes : All IsByte size = rw take1 (All-take IsByte 4 r.input hb) in
    let (n, small) = size_read _ _ (get_be-lt-u32 size size_bytes len1) z in
    (
      split1 ∙ rw (split2, put_be_four size (length b) size_bytes len1 n) refl,
      end2 ∙ end1,
      small,
      rw take2 (All-take IsByte _ r1.input (rw drop1 (All-drop IsByte 4 r.input hb))),
    )
