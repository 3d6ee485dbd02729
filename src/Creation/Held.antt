-- ===== src/Creation/Held.antt =====
-- consumer.go: a new consumer, and what becomes of it.
use go_nsq.Consumer.{Consumer}
use go_nsq.Settings.Values.{Strategy}
