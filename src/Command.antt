-- ===== src/Command.antt =====
-- command.go: the commands that a client sends, and their bytes.
pub mod Wire
pub mod Parse
pub mod Batch
pub mod Tests
use go_nsq.Base.{
  ℕ, ◌+◌, ◌/◌, ◌⊎◌, inl, inr, ◌%◌, ◌^◌, ◌<◌, ◌≡◌, Bool, true, false, List, [], ◌∷◌, ◌++◌, Option,
  none, some, length, codes, ltb, if◌then◌else◌,
}
use go_nsq.Base.Int.{ℤ, pos, negsuc, sub_ℕ}
use go_nsq.Base.Bytes.{put_be}
use go_nsq.Base.Decimal.{itoa}
use Prim.Native.String.{String}
use go_nsq.Io.{Writer, write}

-- `body` is `none` for a nil slice.
pub record Command : Type 0 where
  pub name : List ℕ
  pub params : List (List ℕ)
  pub body : Option (List ℕ)

abbrev pub byte_space : List ℕ
byte_space = codes " "

abbrev pub byte_new_line : ℕ
byte_new_line = 10

abbrev pub nanoseconds : ℕ
nanoseconds = 1000000

-- `int(delay / time.Millisecond)`: the quotient is cut towards 0.
unfoldable pub milliseconds : ℤ → ℤ
milliseconds (pos n) = pos (n / nanoseconds)
milliseconds (negsuc n) = sub_ℕ 0 ((n + 1) / nanoseconds)

-- bytes.Join(params, byteSpace)
unfoldable pub join : List (List ℕ) → List ℕ
join [] = []
join (p ∷ []) = p
join (p ∷ q ∷ ps) = p ++ (byte_space ++ join (q ∷ ps))

-- (*Command).String
unfoldable pub to_string : Command → List ℕ
unfolding join
to_string c = elim c.params [ [] ↦ c.name | _ ∷ _ ↦ c.name ++ (codes " " ++ join c.params) ]

unfoldable pub write_params : List (List ℕ) → Writer → Writer
write_params [] w = w
write_params (p ∷ ps) w = write_params ps (write p (write byte_space w))

unfoldable pub write_body : Option (List ℕ) → Writer → Writer
write_body none w = w
write_body (some body) w = write body (write (put_be 4 (length body)) w)

-- (*Command).WriteTo; `uint32(len(c.Body))` is cut by the four bytes.
unfoldable pub write_to : Command → Writer → Writer
write_to c w =
    write_body c.body (write (byte_new_line ∷ []) (write_params c.params (write c.name w)))

abbrev pub command : String → List (List ℕ) → Option (List ℕ) → Command
command name params body = record { name = codes name; params = params; body = body }

-- json.Marshal is not part of the repository: its answer is an argument.
unfoldable pub identify {ℓ} : {E : Type ℓ} → E ⊎ List ℕ → E ⊎ Command
identify (inl e) = inl e
identify (inr body) = inr (command "IDENTIFY" [] (some body))

unfoldable pub auth : List ℕ → Command
auth secret = command "AUTH" [] (some secret)

abbrev pub topic_params : List ℕ → List ℕ → List (List ℕ)
topic_params topic channel = if ltb 0 (length channel) then topic ∷ channel ∷ [] else topic ∷ []

unfoldable pub register : List ℕ → List ℕ → Command
register topic channel = command "REGISTER" (topic_params topic channel) none

unfoldable pub unregister : List ℕ → List ℕ → Command
unregister topic channel = command "UNREGISTER" (topic_params topic channel) none

unfoldable pub ping : Command
ping = command "PING" [] none

unfoldable pub publish : List ℕ → Option (List ℕ) → Command
publish topic body = command "PUB" (topic ∷ []) body

unfoldable pub deferred_publish : List ℕ → ℤ → Option (List ℕ) → Command
deferred_publish topic delay body = command "DPUB" (topic ∷ itoa (milliseconds delay) ∷ []) body

unfoldable pub pack_bodies : List (List ℕ) → List ℕ
pack_bodies [] = []
pack_bodies (b ∷ bs) = put_be 4 (length b) ++ (b ++ pack_bodies bs)

-- `num` is a uint32 and each size an int32, cut by the four bytes. Writes to a bytes.Buffer do not
-- fail.
unfoldable pub multi_publish : List ℕ → List (List ℕ) → Command
multi_publish topic bodies =
    command "MPUB" (topic ∷ []) (some (put_be 4 (length bodies) ++ pack_bodies bodies))

unfoldable pub subscribe : List ℕ → List ℕ → Command
subscribe topic channel = command "SUB" (topic ∷ channel ∷ []) none

unfoldable pub ready : ℤ → Command
ready count = command "RDY" (itoa count ∷ []) none

unfoldable pub finish : List ℕ → Command
finish id = command "FIN" (id ∷ []) none

unfoldable pub requeue : List ℕ → ℤ → Command
requeue id delay = command "REQ" (id ∷ itoa (milliseconds delay) ∷ []) none

unfoldable pub touch : List ℕ → Command
touch id = command "TOUCH" (id ∷ []) none

unfoldable pub start_close : Command
start_close = command "CLS" [] none

unfoldable pub nop : Command
nop = command "NOP" [] none
