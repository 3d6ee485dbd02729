-- ===== src/Command/Wire.antt =====
-- command.go: what WriteTo sends, and what a daemon reads from it.
use go_nsq.Base.{ℕ, ◌≡◌, refl, sym, ap, ◌∙◌, List, [], ◌∷◌, ◌++◌, arith, length, Option, none, some}
use go_nsq.Base.Bytes.{put_be}
use go_nsq.Io.{Writer, write, write-append}
use go_nsq.Command.{Command, write_params, write_body, write_to, byte_space, byte_new_line}
use mathlib.Core.List.{append_assoc, append-nil}

unfoldable pub encode_params : List (List ℕ) → List ℕ
encode_params [] = []
encode_params (p ∷ ps) = byte_space ++ (p ++ encode_params ps)

unfoldable pub encode_body : Option (List ℕ) → List ℕ
encode_body none = []
encode_body (some body) = put_be 4 (length body) ++ body

-- The name, each parameter behind a space, a newline, and the body behind its size.
unfoldable pub encode_command : Command → List ℕ
encode_command c = c.name ++ (encode_params c.params ++ (byte_new_line ∷ encode_body c.body))

write-nil : (w : Writer) → write [] w ≡ w
unfolding write
write-nil w = ground (arith, append-nil w.out)

write_params_lem :
    (ps : List (List ℕ)) (w : Writer) → write_params ps w ≡ write (encode_params ps) w
unfolding write_params encode_params
write_params_lem [] w = sym (write-nil w)
write_params_lem (p ∷ ps) w =
    write_params_lem ps _
    ∙ rw (write-append byte_space p w, write-append (byte_space ++ p) (encode_params ps) w) refl

write_body_lem :
    (body : Option (List ℕ)) (w : Writer) → write_body body w ≡ write (encode_body body) w
unfolding write_body encode_body
write_body_lem none w = sym (write-nil w)
write_body_lem (some body) w = write-append (put_be 4 (length body)) body w

-- WriteTo is one write of the encoding: as much of it as the writer takes, with the count and the
-- error of that.
pub write_to-encode_command : (c : Command) (w : Writer) → write_to c w ≡ write (encode_command c) w
unfolding write_to encode_command
write_to-encode_command c w =
    rw
      (
        write_params_lem c.params (write c.name w),
        write_body_lem c.body
            (write (byte_new_line ∷ []) (write (encode_params c.params) (write c.name w))),
        write-append c.name (encode_params c.params) w,
        write-append (c.name ++ encode_params c.params) (byte_new_line ∷ []) w,
        write-append ((c.name ++ encode_params c.params) ++ (byte_new_line ∷ []))
            (encode_body c.body) w,
      )
      (ap (λ (bytes : List ℕ). write bytes w)
        (append_assoc (c.name ++ encode_params c.params) (byte_new_line ∷ []) (encode_body c.body)
          ∙ append_assoc c.name (encode_params c.params) (byte_new_line ∷ encode_body c.body)))
