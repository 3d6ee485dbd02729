-- ===== src/Logging.antt =====
-- delegates.go, consumer.go, producer.go, conn.go: who gets a log message, and how a connection is
-- given the loggers of its consumer or producer.
pub mod Handing
pub mod Tests
use go_nsq.Base.{
  ℕ, zero, suc, ◌+◌, Bool, true, false, List, [], ◌∷◌, Option, none, some, map, length, codes, ltb,
  get_elem?, if◌then◌else◌,
}
use go_nsq.Base.Int.{ℤ, pos, negsuc, ltb_ℤ, eqb_ℤ}

-- A logger, or nil.
abbrev pub Logger : Type 0
Logger = Option ℕ

abbrev pub log_level_debug : ℤ
log_level_debug = pos 0

abbrev pub log_level_info : ℤ
log_level_info = pos 1

abbrev pub log_level_max : ℕ
log_level_max = 3

-- (LogLevel).String
unfoldable pub level_name : ℤ → List ℕ
level_name lvl =
    if eqb_ℤ lvl (pos 1)
    then codes "INF"
    else if eqb_ℤ lvl (pos 2)
    then codes "WRN"
    else if eqb_ℤ lvl (pos 3)
    then codes "ERR"
    else codes "DBG"

-- The fields of a Consumer and of a Producer; the slice has an entry for each level.
pub record Logging : Type 0 where
  pub loggers : List Logger
  pub level : ℤ

pub record ConnLogging : Type 0 where
  pub loggers : List Logger
  pub formats : List (List ℕ)
  pub level : ℤ

-- What NewConsumer and NewProducer set up, with the logger for stderr.
unfoldable pub new_logging : ℕ → Logging
new_logging stderr = record {
  loggers = some stderr ∷ some stderr ∷ some stderr ∷ some stderr ∷ [];
  level = log_level_info;
}

unfoldable pub new_conn_logging : ConnLogging
new_conn_logging = record {
  loggers = none ∷ none ∷ none ∷ none ∷ [];
  formats = [] ∷ [] ∷ [] ∷ [] ∷ [];
  level = log_level_debug;
}

-- An index out of range panics: none.
unfoldable pub at {ℓ} : {A : Type ℓ} → ℤ → List A → Option A
at (pos n) xs = get_elem? xs n
at (negsuc n) xs = none

unfoldable pub put {ℓ} : {A : Type ℓ} → ℕ → A → List A → Option (List A)
put n x [] = none
put zero x (y ∷ ys) = some (x ∷ ys)
put (suc n) x (y ∷ ys) = elim (put n x ys) [ none ↦ none | some zs ↦ some (y ∷ zs) ]

unfoldable pub put_at {ℓ} : {A : Type ℓ} → ℤ → A → List A → Option (List A)
unfolding put
put_at (pos n) x xs = put n x xs
put_at (negsuc n) x xs = none

unfoldable pub set_logger : Logger → ℤ → Logging → Logging
set_logger l lvl s = record { loggers = map (λ _. l) s.loggers; level = lvl }

unfoldable pub set_logger_for_level : Logger → ℤ → Logging → Option Logging
unfolding put_at
set_logger_for_level l lvl s = elim (put_at lvl l s.loggers) [
  | none ↦ none
  | some ls ↦ some (record s { loggers = ls })
]

unfoldable pub set_logger_level : ℤ → Logging → Logging
set_logger_level lvl s = record s { level = lvl }

unfoldable pub get_logger : ℤ → Logging → Option (Logger × ℤ)
unfolding at
get_logger lvl s = elim (at lvl s.loggers) [ none ↦ none | some l ↦ some (l, s.level) ]

-- The logger whose Output is called, none for silence.
abbrev pub heard : ℤ → Logger → ℤ → Logger
heard lvl none threshold = none
heard lvl (some l) threshold = if ltb_ℤ lvl threshold then none else some l

-- log, of a Consumer and of a Producer. The text is put together by fmt.
unfoldable pub log : ℤ → Logging → Option Logger
unfolding get_logger
log lvl s = elim (get_logger lvl s) [ none ↦ none | some x ↦ some (heard lvl x.0 x.1) ]

abbrev pub format_or_default : List ℕ → List ℕ
format_or_default [] = codes "(%s)"
format_or_default (c ∷ cs) = c ∷ cs

-- (*Conn).SetLogger
unfoldable pub conn_set_logger : Logger → ℤ → List ℕ → ConnLogging → ConnLogging
conn_set_logger l lvl format s = record {
  loggers = map (λ _. l) s.loggers;
  formats = map (λ _. format_or_default format) s.formats;
  level = lvl;
}

-- (*Conn).SetLoggerForLevel
unfoldable pub conn_set_logger_for_level : Logger → ℤ → List ℕ → ConnLogging → Option ConnLogging
unfolding put_at
conn_set_logger_for_level l lvl format s = elim (put_at lvl l s.loggers) [
  | none ↦ none
  | some ls ↦ elim (put_at lvl (format_or_default format) s.formats) [
    | none ↦ none
    | some fs ↦ some (record s { loggers = ls; formats = fs })
  ]
]

unfoldable pub conn_get_logger : ℤ → ConnLogging → Option (Logger × ℤ × List ℕ)
unfolding at
conn_get_logger lvl s = elim (at lvl s.loggers) [
  | none ↦ none
  | some l ↦ elim (at lvl s.formats) [ none ↦ none | some f ↦ some (l, s.level, f) ]
]

-- (*Conn).log: the logger, and the format of the address.
unfoldable pub conn_log : ℤ → ConnLogging → Option (Logger × List ℕ)
unfolding conn_get_logger
conn_log lvl s = elim (conn_get_logger lvl s) [
  | none ↦ none
  | some (l, threshold, f) ↦ some (heard lvl l threshold, f)
]

-- The loop of connect and of ConnectToNSQD over the levels.
unfoldable pub set_each_level : ℕ → List Logger → List ℕ → ConnLogging → Option ConnLogging
unfolding conn_set_logger_for_level
set_each_level n [] format c = some c
set_each_level n (l ∷ ls) format c = elim (conn_set_logger_for_level l (pos n) format c) [
  | none ↦ none
  | some d ↦ set_each_level (suc n) ls format d
]

-- What connect and ConnectToNSQD give to their new connection.
unfoldable pub hand_down : List ℕ → Logging → Option ConnLogging
unfolding set_each_level new_conn_logging
hand_down format s = set_each_level 0 s.loggers format (record new_conn_logging { level = s.level })

-- A call of one of the three setters.
pub data Setting : Type 0 where
  logger_and_level : Logger → ℤ → Setting
  logger_for_level : Logger → ℤ → Setting
  only_level : ℤ → Setting

unfoldable pub configure : Setting → Logging → Option Logging
unfolding set_logger set_logger_for_level set_logger_level
configure (logger_and_level l lvl) s = some (set_logger l lvl s)
configure (logger_for_level l lvl) s = set_logger_for_level l lvl s
configure (only_level lvl) s = some (set_logger_level lvl s)

-- Any calls of the setters, none if one panics.
unfoldable pub configure_all : List Setting → Logging → Option Logging
unfolding configure
configure_all [] s = some s
configure_all (x ∷ xs) s = elim (configure x s) [ none ↦ none | some t ↦ configure_all xs t ]
