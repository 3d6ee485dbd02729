-- ===== src/Logging/Tests.antt =====
-- delegates.go, producer.go, conn.go: loggers set and handed down.
use go_nsq.Base.{◌≡◌, refl, List, [], ◌∷◌, none, some, codes}
use go_nsq.Base.Int.{pos, negsuc}
use go_nsq.Logging.{
  Logging, ConnLogging, new_logging, conn_log, log, level_name, hand_down, format_or_default,
  Setting, logger_and_level, logger_for_level, only_level, configure_all, conn_set_logger,
  new_conn_logging,
}
use go_nsq.Logging.Handing.{tagged, hand_down-log}

-- The logger 7 for all, none for debug, and warnings at least.
abbrev calls : List Setting
calls = logger_and_level (some 7) (pos 0) ∷ logger_for_level none (pos 0) ∷ only_level (pos 2) ∷ []

abbrev quiet : Logging
quiet = record { loggers = none ∷ some 7 ∷ some 7 ∷ some 7 ∷ []; level = pos 2 }

configured : configure_all calls (new_logging 2) ≡ some quiet
unfolding configure_all new_logging
configured = refl

no_such_level : configure_all (logger_for_level none (pos 4) ∷ []) (new_logging 2) ≡ none
unfolding configure_all new_logging
no_such_level = refl

infos_are_silent : log (pos 1) quiet ≡ some none
unfolding log
infos_are_silent = refl

errors_are_heard : log (pos 3) quiet ≡ some (some 7)
unfolding log
errors_are_heard = refl

names : (level_name (pos 3) ≡ codes "ERR") × (level_name (negsuc 0) ≡ codes "DBG")
unfolding level_name
names = (refl, refl)

default_format :
    conn_log (pos 1) (conn_set_logger (some 3) (pos 1) [] new_conn_logging)
    ≡ some (some 3, codes "(%s)")
unfolding conn_log conn_set_logger new_conn_logging
default_format = refl

hand_down-log_example :
    (c : ConnLogging) × (hand_down (codes "7 (%s)") quiet ≡ some c)
    × (conn_log (pos 3) c ≡ tagged (format_or_default (codes "7 (%s)")) (log (pos 3) quiet))
hand_down-log_example = hand_down-log 2 calls (codes "7 (%s)") (pos 3) configured
