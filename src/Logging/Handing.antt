-- ===== src/Logging/Handing.antt =====
-- producer.go, consumer.go, conn.go: a connection logs as its consumer or producer does.
use go_nsq.Base.{
  ℕ, zero, suc, ◌≡◌, refl, sym, ap, ◌∙◌, List, [], ◌∷◌, Option, none, some, map, length, arith, inl,
  inr, Option-cases,
}
use go_nsq.Base.Int.{ℤ, pos, negsuc}
use go_nsq.Logging.{
  Logger, Logging, ConnLogging, new_logging, new_conn_logging, at, put, put_at, set_logger,
  set_logger_for_level, set_logger_level, get_logger, log, format_or_default,
  conn_set_logger_for_level, conn_get_logger, conn_log, set_each_level, hand_down, Setting,
  logger_and_level, logger_for_level, only_level, configure, configure_all,
}

put-length :
    (n : ℕ) (l : Logger) (xs : List Logger) {ys : List Logger}
    → put n l xs ≡ some ys
    → length ys ≡ length xs
unfolding put
put-length n l [] e = absurd (cc)
put-length zero l (x ∷ xs) {ys} e = let same : l ∷ xs ≡ ys = cc in ap length (sym same)
put-length (suc n) l (x ∷ xs) {ys} e = elim (Option-cases (put n l xs)) [
  | inl gone ↦ absurd (let no : Path (Option (List Logger)) none (some ys) = rw gone at e in cc)
  | inr (zs, found) ↦
      let all : Path (Option (List Logger)) (some (x ∷ zs)) (some ys) = rw found at e in
      let same : x ∷ zs ≡ ys = cc in ap length (sym same) ∙ ap suc (put-length n l xs found)
]

map-length : (l : Logger) (xs : List Logger) → length (map (λ _. l) xs) ≡ length xs
map-length l [] = refl
map-length l (x ∷ xs) = ap suc (map-length l xs)

level-length :
    (l : Logger) (lvl : ℤ) (s : Logging) {t : Logging}
    → set_logger_for_level l lvl s ≡ some t
    → length t.loggers ≡ length s.loggers
unfolding set_logger_for_level put_at
level-length l (negsuc n) s e = absurd (cc)
level-length l (pos n) s {t} e = elim (Option-cases (put n l s.loggers)) [
  | inl gone ↦
      absurd
        (let no : Path (Option Logging) none (some t) = rw (gone, set_logger_for_level) at e in cc)
  | inr (ls, found) ↦
      let all : Path (Option Logging) (some (record s { loggers = ls })) (some t) =
        rw (found, set_logger_for_level) at e in
      let same : record s { loggers = ls } ≡ t = cc in
      ap (λ (x : Logging). length x.loggers) (sym same) ∙ put-length n l s.loggers found
]

configure-length :
    (x : Setting) (s : Logging) {t : Logging}
    → configure x s ≡ some t
    → length t.loggers ≡ length s.loggers
unfolding configure set_logger set_logger_level
configure-length (logger_and_level l lvl) s {t} e =
    let same : set_logger l lvl s ≡ t = cc in
    ap (λ (x : Logging). length x.loggers) (sym same) ∙ map-length l s.loggers
configure-length (logger_for_level l lvl) s e = level-length l lvl s e
configure-length (only_level lvl) s {t} e =
    let same : record s { level = lvl } ≡ t = cc in
    ap (λ (x : Logging). length x.loggers) (sym same)

configure_all-length :
    (xs : List Setting) (s : Logging) {t : Logging}
    → configure_all xs s ≡ some t
    → length t.loggers ≡ length s.loggers
unfolding configure_all
configure_all-length [] s {t} e =
    let same : s ≡ t = cc in ap (λ (x : Logging). length x.loggers) (sym same)
configure_all-length (x ∷ xs) s {t} e = elim (Option-cases (configure x s)) [
  | inl gone ↦
      absurd (let no : Path (Option Logging) none (some t) = rw (gone, configure_all) at e in cc)
  | inr (u, found) ↦
      let rest : configure_all xs u ≡ some t = rw (found, configure_all) at e in
      configure_all-length xs u rest ∙ configure-length x s found
]

abbrev pub tagged : List ℕ → Option Logger → Option (Logger × List ℕ)
tagged f none = none
tagged f (some l) = some (l, f)

-- A connection that was given its loggers.
abbrev given : List Logger → ℤ → List ℕ → ConnLogging
given ls level f = record { loggers = ls; formats = f ∷ f ∷ f ∷ f ∷ []; level = level }

four_levels :
    (a b c d : Logger) (level : ℤ) (format : List ℕ)
    → hand_down format (record { loggers = a ∷ b ∷ c ∷ d ∷ []; level = level })
      ≡ some (given (a ∷ b ∷ c ∷ d ∷ []) level (format_or_default format))
unfolding hand_down set_each_level conn_set_logger_for_level put_at put new_conn_logging
four_levels a b c d level format = refl

same_log :
    (a b c d : Logger) (level : ℤ) (f : List ℕ) (lvl : ℤ)
    → conn_log lvl (given (a ∷ b ∷ c ∷ d ∷ []) level f)
      ≡ tagged f (log lvl (record { loggers = a ∷ b ∷ c ∷ d ∷ []; level = level }))
unfolding conn_log conn_get_logger log get_logger at
same_log a b c d level f (negsuc n) = refl
same_log a b c d level f (pos zero) = refl
same_log a b c d level f (pos (suc zero)) = refl
same_log a b c d level f (pos (suc (suc zero))) = refl
same_log a b c d level f (pos (suc (suc (suc zero)))) = refl
same_log a b c d level f (pos (suc (suc (suc (suc n))))) = refl

handed :
    (s : Logging) (format : List ℕ) (lvl : ℤ)
    → length s.loggers ≡ 4
    → (c : ConnLogging) × (hand_down format s ≡ some c)
      × (conn_log lvl c ≡ tagged (format_or_default format) (log lvl s))
handed s format lvl h = by_list s.loggers s.level h
  where
    by_list :
        (ls : List Logger) (level : ℤ)
        → length ls ≡ 4
        → (c : ConnLogging) × (hand_down format (record { loggers = ls; level = level }) ≡ some c)
          × (conn_log lvl c
              ≡ tagged
                  (format_or_default format)
                  (log lvl (record { loggers = ls; level = level })))
    by_list [] level e = absurd (omega (arith, e))
    by_list (a ∷ []) level e = absurd (omega (arith, e))
    by_list (a ∷ b ∷ []) level e = absurd (omega (arith, e))
    by_list (a ∷ b ∷ c ∷ []) level e = absurd (omega (arith, e))
    by_list (a ∷ b ∷ c ∷ d ∷ []) level e = (
      given (a ∷ b ∷ c ∷ d ∷ []) level (format_or_default format),
      four_levels a b c d level format,
      same_log a b c d level (format_or_default format) lvl,
    )
    by_list (a ∷ b ∷ c ∷ d ∷ x ∷ ls) level e = absurd (omega (arith, e))

new_length : (stderr : ℕ) → length (new_logging stderr).loggers ≡ 4
unfolding new_logging
new_length stderr = refl

-- After any calls of the setters that do not panic, connect and ConnectToNSQD hand the loggers down
-- without a panic, and on each level the connection then logs to the same logger as its consumer or
-- producer, is silent when it is, and panics on the same levels; its format is the one given.
pub hand_down-log :
    (stderr : ℕ) (calls : List Setting) {s : Logging} (format : List ℕ) (lvl : ℤ)
    → configure_all calls (new_logging stderr) ≡ some s
    → (c : ConnLogging) × (hand_down format s ≡ some c)
      × (conn_log lvl c ≡ tagged (format_or_default format) (log lvl s))
hand_down-log stderr calls {s} format lvl h =
    handed s format lvl (configure_all-length calls (new_logging stderr) h ∙ new_length stderr)
