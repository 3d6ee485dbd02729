-- ===== src/Command/Tests.antt =====
-- command.go: runs on concrete commands.
use go_nsq.Base.{
  ℕ, ◌+◌, ◌≤◌, ◌<◌, ◌^◌, ◌≡◌, refl, false, length, List, [], ◌∷◌, ◌++◌, Option, none, some, arith,
  codes, inl, inr,
}
use go_nsq.Io.{start}
use go_nsq.Base.Int.{pos, negsuc}
use go_nsq.Base.Decimal.{atoi}
use go_nsq.Protocol.{eof, ok}
use go_nsq.Command.{
  Command, to_string, write_to, identify, auth, register, unregister, ping, publish,
  deferred_publish, multi_publish, subscribe, ready, finish, requeue, touch, start_close, nop,
  milliseconds,
}
use go_nsq.Command.Wire.{encode_command, encode_body, write_to-encode_command}
use go_nsq.Command.Parse.{read_line, split_spaces, IsClean, write_to-read_line}
use go_nsq.Command.Batch.{read_batch, read_batch-multi_publish}

publish_bytes :
    encode_command (publish (codes "logs") (some (codes "hi")))
    ≡ codes "PUB logs" ++ (10 ∷ 0 ∷ 0 ∷ 0 ∷ 2 ∷ codes "hi")
unfolding encode_command publish go_nsq.Command.Wire.encode_params encode_body
    go_nsq.Base.Bytes.put_be
publish_bytes = refl

deferred_bytes :
    encode_command (deferred_publish (codes "logs") (pos 1500000000) none)
    ≡ codes "DPUB logs 1500" ++ (10 ∷ [])
unfolding encode_command deferred_publish go_nsq.Command.Wire.encode_params go_nsq.Base.Decimal.itoa
    milliseconds go_nsq.Base.Decimal.digits_from encode_body
deferred_bytes = refl

negative_delay : milliseconds (negsuc 1999999) ≡ negsuc 1
unfolding milliseconds
negative_delay = refl

register_text : to_string (register (codes "logs") []) ≡ codes "REGISTER logs"
unfolding to_string register
register_text = refl

unregister_text : to_string (unregister (codes "logs") (codes "a")) ≡ codes "UNREGISTER logs a"
unfolding to_string unregister
unregister_text = refl

identify_fails : identify {E = ℕ} (inl 7) ≡ inl 7
unfolding identify
identify_fails = refl

plain_names :
    (ping.name ≡ codes "PING")
    × (nop.name ≡ codes "NOP")
    × (start_close.name ≡ codes "CLS")
    × ((auth (codes "s")).name ≡ codes "AUTH")
    × ((finish (codes "1")).name ≡ codes "FIN")
    × ((touch (codes "1")).name ≡ codes "TOUCH")
unfolding ping nop start_close auth finish touch
plain_names = (refl, refl, refl, refl, refl, refl)

ready-IsClean : IsClean (ready (pos 25))
unfolding ready go_nsq.Base.Decimal.itoa go_nsq.Base.Decimal.digits_from
ready-IsClean = record { name_clean = omega arith; params_clean = omega arith }

write_to-read_line_example :
    ((write_to (ready (pos 25)) (start 100)).failed ≡ false)
    × (line : List ℕ) × (read_line ((write_to (ready (pos 25)) (start 100)).out ++ codes "more")
        ≡ some (line, encode_body (ready (pos 25)).body ++ codes "more"))
    × (split_spaces line ≡ (ready (pos 25)).name ∷ (ready (pos 25)).params)
unfolding ready go_nsq.Command.Wire.encode_params go_nsq.Base.Decimal.itoa
    go_nsq.Base.Decimal.digits_from encode_body
write_to-read_line_example =
    write_to-read_line (ready (pos 25)) 100 (codes "more") ready-IsClean
      (unfold encode_command in omega arith)

read_batch-multi_publish_example :
    (body : List ℕ) × ((multi_publish (codes "logs") (codes "a" ∷ [] ∷ [])).body ≡ some body)
    × (read_batch (record { input = body ++ codes "!"; ending = eof })
        ≡ ok (codes "a" ∷ [] ∷ [], record { input = codes "!"; ending = eof }))
read_batch-multi_publish_example =
    read_batch-multi_publish (codes "logs") (codes "a" ∷ [] ∷ []) (codes "!") eof (omega arith)
      (omega arith)
