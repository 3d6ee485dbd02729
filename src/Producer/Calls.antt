-- ===== src/Producer/Calls.antt =====
-- producer.go: the publishing calls, where a call is at any time, and what a synchronous one returns.
use go_nsq.Base.{
  ℕ, ◌+◌, Bool, true, false, List, [], ◌∷◌, ◌++◌, Option, none, some, map, if◌then◌else◌, ◌==◌,
}
use go_nsq.Base.Int.{ℤ}
use go_nsq.Command.{Command, publish, multi_publish, deferred_publish}
use go_nsq.Producer.{Producer, Transaction, Answer, Error, Step, Reach}
use go_nsq.Producer.Order.{answered}

-- What the methods publish.
pub data Publication : Type 0 where
  publication : List ℕ → Option (List ℕ) → Publication
  publications : List ℕ → List (List ℕ) → Publication
  deferred : List ℕ → ℤ → Option (List ℕ) → Publication

-- MultiPublish has no error to return: writes to a bytes.Buffer do not fail.
unfoldable pub command_of : Publication → Command
command_of (publication topic body) = publish topic body
command_of (publications topic bodies) = multi_publish topic bodies
command_of (deferred topic delay body) = deferred_publish topic delay body

-- PublishAsync, MultiPublishAsync and DeferredPublishAsync: the call that sendCommandAsync is.
-- `done_chan` tells whether a channel is given.
unfoldable pub publish_async : ℕ → Publication → Bool → Transaction
unfolding command_of
publish_async id p done_chan = record { id = id; cmd = command_of p; done_chan = done_chan }

-- Publish, MultiPublish and DeferredPublish: sendCommand makes the channel.
unfoldable pub publish_sync : ℕ → Publication → Transaction
unfolding publish_async
publish_sync id p = publish_async id p true

unfoldable pub find_refused : ℕ → List (Transaction × Error) → Option Error
find_refused i [] = none
find_refused i ((t, e) ∷ rest) = if t.id == i then some e else find_refused i rest

unfoldable pub find_answer : ℕ → List Answer → Option (Option Error)
find_answer i [] = none
find_answer i (a ∷ rest) = if a.transaction.id == i then some a.error else find_answer i rest

-- What sendCommand has returned: the error of sendCommandAsync, else the Error of the transaction
-- that came out of the channel; none while it waits.
unfoldable pub send_command : ℕ → Producer → Option (Option Error)
unfolding find_refused find_answer
send_command i p = elim (find_refused i p.refused) [
  | some e ↦ some (some e)
  | none ↦ find_answer i p.delivered
]

abbrev pub dialler : Option (Option Transaction) → List Transaction
dialler none = []
dialler (some none) = []
dialler (some (some t)) = t ∷ []

abbrev pub refused_calls : List (Transaction × Error) → List Transaction
refused_calls = map (λ r. r.0)

abbrev pub one_if : Bool → ℕ
one_if true = 1
one_if false = 0

abbrev pub count : (Transaction → Bool) → List Transaction → ℕ
count pick [] = 0
count pick (t ∷ ts) = one_if (pick t) + count pick ts

-- The calls on their way, with the router, and at their end.
abbrev pub on_the_way : (Transaction → Bool) → Producer → ℕ
on_the_way pick p = count pick p.entered + count pick p.waiting + count pick (dialler p.dialling)

abbrev pub at_the_end : (Transaction → Bool) → Producer → ℕ
at_the_end pick p = count pick (refused_calls p.refused) + count pick (answered p.answers)

abbrev pub everywhere : (Transaction → Bool) → Producer → ℕ
everywhere pick p = on_the_way pick p + count pick p.transactions + at_the_end pick p

-- The calls of sendCommandAsync that a history has.
abbrev pub made : {p q : Producer} → Step p q → List Transaction
made (Step.enter p t) = t ∷ []
made _ = []

abbrev pub calls : {s p : Producer} → Reach s p → List Transaction
calls Reach.start = []
calls (Reach.step reach s) = made s ++ calls reach
