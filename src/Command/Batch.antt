-- ===== src/Command/Batch.antt =====
-- command.go: the body of MPUB.
use go_nsq.Base.{ℕ, zero, suc, ◌^◌, ◌<◌, ◌≡◌, refl, List, [], ◌∷◌, ◌++◌, length, some}
use go_nsq.Base.Bytes.{All, put_be, get_be, get_be-put_be}
use go_nsq.Protocol.{IoError, Reader, Result, ok, ◌>>=◌, read_full, read_response}
use go_nsq.Protocol.Frames.{read_response-put_be, read_full-put_be}
use go_nsq.Command.{multi_publish, pack_bodies}
use mathlib.Core.List.{append_assoc}
use native.Mathlib.Nat.{mod-eq_of_lt}

-- A daemon reads the count, and then each body behind its size.
unfoldable pub read_bodies : ℕ → Reader → Result (List (List ℕ) × Reader)
read_bodies zero r = ok ([], r)
read_bodies (suc n) r = do (b, r') ← read_response r; (bs, r'') ← read_bodies n r'; ok (b ∷ bs, r'')

unfoldable pub read_batch : Reader → Result (List (List ℕ) × Reader)
read_batch r = do (count, r') ← read_full r 4; read_bodies (get_be count) r'

read_bodies-pack_bodies :
    (bs : List (List ℕ)) (rest : List ℕ) (e : IoError)
    → All (λ b. length b < 2 ^ 31) bs
    → read_bodies (length bs) (record { input = pack_bodies bs ++ rest; ending = e })
      ≡ ok (bs, record { input = rest; ending = e })
unfolding read_bodies pack_bodies
read_bodies-pack_bodies [] rest e h = refl
read_bodies-pack_bodies (b ∷ bs) rest e (hb, hs) = rw (
  append_assoc (put_be 4 (length b)) (b ++ pack_bodies bs) rest,
  append_assoc b (pack_bodies bs) rest,
  read_response-put_be b (pack_bodies bs ++ rest) e hb,
  read_bodies-pack_bodies bs rest e hs,
)

-- The messages of a batch come back as they were given, in their order, if there are fewer than 2
-- ^ 32 and each has less than 2 ^ 31 bytes.
pub read_batch-multi_publish :
    (topic : List ℕ) (bodies : List (List ℕ)) (rest : List ℕ) (e : IoError)
    → length bodies < 2 ^ 32
    → All (λ b. length b < 2 ^ 31) bodies
    → (body : List ℕ) × ((multi_publish topic bodies).body ≡ some body)
      × (read_batch (record { input = body ++ rest; ending = e })
          ≡ ok (bodies, record { input = rest; ending = e }))
unfolding multi_publish read_batch
read_batch-multi_publish topic bodies rest e hn hb = (
  put_be 4 (length bodies) ++ pack_bodies bodies,
  refl,
  rw (
    append_assoc (put_be 4 (length bodies)) (pack_bodies bodies) rest,
    read_full-put_be 4 (length bodies) (pack_bodies bodies ++ rest) e,
    get_be-put_be 4 (length bodies),
    mod-eq_of_lt hn,
    read_bodies-pack_bodies bodies rest e hb,
  ),
)
