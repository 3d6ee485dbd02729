-- ===== src/Command/Parse.antt =====
-- command.go: a daemon that reads the line and the body gets back what was sent.
use go_nsq.Base.{
  ℕ, ◌^◌, ◌<◌, ◌≤◌, false, ◌≡◌, ◌≢◌, refl, ◌∙◌, List, [], ◌∷◌, ◌++◌, arith, length, Option, none,
  some, if◌then◌else◌, ◌==◌, codes,
}
use go_nsq.Base.Int.{ℤ}
use go_nsq.Base.Decimal.{itoa, atoi, atoi-itoa, itoa-IsNumberChar, IsNumberChar}
use go_nsq.Base.Bytes.{All, put_be}
use go_nsq.Protocol.{IoError, read_response, ok}
use go_nsq.Protocol.Frames.{read_response-put_be}
use go_nsq.Io.{start, write_fits}
use go_nsq.Command.{Command, write_to, byte_space, byte_new_line, requeue, milliseconds}
use go_nsq.Command.Wire.{write_to-encode_command, encode_command, encode_params, encode_body}
use mathlib.Core.List.{append_assoc}

abbrev onto_line : ℕ → Option (List ℕ × List ℕ) → Option (List ℕ × List ℕ)
onto_line c none = none
onto_line c (some (line, more)) = some (c ∷ line, more)

-- The line up to the first newline, and what follows it.
unfoldable pub read_line : List ℕ → Option (List ℕ × List ℕ)
read_line [] = none
read_line (c ∷ cs) =
    let rest = onto_line c (read_line cs) in if c == 10 then some ([], cs) else rest

abbrev onto_first : ℕ → List (List ℕ) → List (List ℕ)
onto_first c [] = (c ∷ []) ∷ []
onto_first c (w ∷ ws) = (c ∷ w) ∷ ws

-- bytes.Split(line, " ")
unfoldable pub split_spaces : List ℕ → List (List ℕ)
split_spaces [] = [] ∷ []
split_spaces (c ∷ cs) = let ws = split_spaces cs in if c == 32 then [] ∷ ws else onto_first c ws

-- No space and no newline.
abbrev pub IsWord : ℕ → Type 0
IsWord c = (c ≢ 32) × (c ≢ 10)

pub record IsClean (c : Command) : Type 0 where
  pub name_clean : All IsWord c.name
  pub params_clean : All (All IsWord) c.params

read_line-word :
    (w more line rest : List ℕ)
    → All IsWord w
    → read_line more ≡ some (line, rest)
    → read_line (w ++ more) ≡ some (w ++ line, rest)
unfolding read_line
read_line-word [] more line rest h e = e
read_line-word (c ∷ w) more line rest h e =
    ground (arith, h.0.1, read_line-word w more line rest h.1 e)

read_line-space :
    (more line rest : List ℕ)
    → read_line more ≡ some (line, rest)
    → read_line (byte_space ++ more) ≡ some (byte_space ++ line, rest)
unfolding read_line
read_line-space more line rest e = rw e

split_spaces-space :
    (cs : List ℕ) (ws : List (List ℕ))
    → split_spaces cs ≡ ws
    → split_spaces (byte_space ++ cs) ≡ [] ∷ ws
unfolding split_spaces
split_spaces-space cs ws e = rw e

read_line-params :
    (ps : List (List ℕ)) (rest : List ℕ)
    → All (All IsWord) ps
    → read_line (encode_params ps ++ (byte_new_line ∷ rest)) ≡ some (encode_params ps, rest)
unfolding encode_params
read_line-params [] rest h = unfold read_line in refl
read_line-params (p ∷ ps) rest (hp, hs) =
    rw (append_assoc p (encode_params ps) (byte_new_line ∷ rest))
      (read_line-space _ _ _ (read_line-word p _ _ _ hp (read_line-params ps rest hs)))

split_spaces-word :
    (w : List ℕ) (ps : List (List ℕ))
    → All IsWord w
    → All (All IsWord) ps
    → split_spaces (w ++ encode_params ps) ≡ w ∷ ps
unfolding split_spaces encode_params
split_spaces-word [] [] h hs = refl
split_spaces-word [] (p ∷ ps) h (hp, hs) =
    split_spaces-space (p ++ encode_params ps) (p ∷ ps) (split_spaces-word p ps hp hs)
split_spaces-word (c ∷ w) ps ((no_space, _), h) hs =
    rw (split_spaces-word w ps h hs) (ground (arith, no_space))

read_line-encode_command :
    (c : Command) (rest : List ℕ)
    → IsClean c
    → (line : List ℕ) × (read_line (encode_command c ++ rest)
        ≡ some (line, encode_body c.body ++ rest))
      × (split_spaces line ≡ c.name ∷ c.params)
unfolding encode_command
read_line-encode_command c rest h = (
  c.name ++ encode_params c.params,
  rw
      (
        append_assoc c.name (encode_params c.params ++ (byte_new_line ∷ encode_body c.body)) rest,
        append_assoc (encode_params c.params) (byte_new_line ∷ encode_body c.body) rest,
      )
      (read_line-word c.name _ _ _ h.name_clean (read_line-params c.params _ h.params_clean)),
  split_spaces-word c.name c.params h.name_clean h.params_clean,
)

-- WriteTo of a command whose name and parameters have no space and no newline, into a writer with
-- room for it, fails nothing, and of what it wrote the daemon reads the line, splits it at the
-- spaces into the name and the parameters, and has, untouched, the body behind its size and what
-- follows.
pub write_to-read_line :
    (c : Command) (room : ℕ) (rest : List ℕ)
    → IsClean c
    → length (encode_command c) ≤ room
    → ((write_to c (start room)).failed ≡ false)
      × (line : List ℕ) × (read_line ((write_to c (start room)).out ++ rest)
          ≡ some (line, encode_body c.body ++ rest))
      × (split_spaces line ≡ c.name ∷ c.params)
write_to-read_line c room rest h fits =
    let (line, read, words) = read_line-encode_command c rest h in
    let written =
      write_to-encode_command c (start room) ∙ write_fits (encode_command c) room fits in
    (rw written refl, line, rw written read, words)

-- A body of less than 2 ^ 31 bytes is a frame without a type, and is read back whole.
pub read_response-encode_body :
    (body rest : List ℕ) (e : IoError)
    → length body < 2 ^ 31
    → read_response (record { input = encode_body (some body) ++ rest; ending = e })
      ≡ ok (body, record { input = rest; ending = e })
unfolding encode_body
read_response-encode_body body rest e h =
    rw (append_assoc (put_be 4 (length body)) body rest) (read_response-put_be body rest e h)

number_words : (cs : List ℕ) → All IsNumberChar cs → All IsWord cs
number_words [] h = tt
number_words (c ∷ cs) h = ((omega arith, omega arith), number_words cs h.1)

-- A REQ of an id without space and newline arrives as REQ, the id and a number, and the number is
-- the delay in milliseconds, cut towards 0.
pub requeue_arrives :
    (id : List ℕ) (delay : ℤ) (rest : List ℕ)
    → All IsWord id
    → (line number : List ℕ) × (read_line (encode_command (requeue id delay) ++ rest)
        ≡ some (line, rest))
      × (split_spaces line ≡ codes "REQ" ∷ id ∷ number ∷ [])
      × (atoi number ≡ milliseconds delay)
unfolding requeue
requeue_arrives id delay rest h =
    let number = itoa (milliseconds delay) in
    let clean : IsClean (requeue id delay) = record {
      name_clean = omega arith;
      params_clean = (h, (number_words number (itoa-IsNumberChar _), tt));
    } in
    let (line, read, words) = read_line-encode_command (requeue id delay) rest clean in
    (line, number, read ∙ unfold encode_body in refl, words, atoi-itoa (milliseconds delay))
