-- ===== src/Producer/Returns.antt =====
-- producer.go: what a synchronous call returns is settled once, and comes.
use go_nsq.Base.{ℕ, ◌≤◌, ◌≡◌, refl, Bool, List, [], ◌∷◌, ◌++◌, Option, none, some, arith, ◌==◌}
use go_nsq.Producer.{Producer, Transaction, Answer, Error, Reach}
use go_nsq.Producer.Order.{answered, deliverable}
use go_nsq.Producer.Calls.{count, refused_calls, find_refused, find_answer, send_command}

abbrev pub is_call : ℕ → Transaction → Bool
is_call i t = t.id == i

abbrev followed : {s p q : Producer} → Reach s p → Reach p q → Reach s q
followed first Reach.start = first
followed first (Reach.step after s) = Reach.step (followed first after) s

module _ (i : ℕ) where
  refused_none :
      (front rest : List (Transaction × Error))
      → count (is_call i) (refused_calls front) ≡ 0
      → find_refused i (front ++ rest) ≡ find_refused i rest
  unfolding find_refused
  refused_none [] rest h = refl
  refused_none ((t, e) ∷ front) rest h = ground (arith, h, refused_none front rest)

  pub refused_some :
      (xs : List (Transaction × Error)) {e : Error}
      → find_refused i xs ≡ some e
      → 1 ≤ count (is_call i) (refused_calls xs)
  unfolding find_refused
  refused_some [] h = cc
  refused_some ((t, x) ∷ xs) {e} h = ground (arith, h, refused_some xs {e = e})

  pub refused_zero :
      (xs : List (Transaction × Error))
      → count (is_call i) (refused_calls xs) ≡ 0
      → find_refused i xs ≡ none
  unfolding find_refused
  refused_zero [] h = refl
  refused_zero ((t, e) ∷ xs) h = ground (arith, h, refused_zero xs)

  pub answer_some :
      (xs ys : List Answer) {e : Option Error}
      → find_answer i xs ≡ some e
      → (1 ≤ count (is_call i) (answered xs)) × (find_answer i (xs ++ ys) ≡ some e)
  unfolding find_answer
  answer_some [] ys h = absurd (cc)
  answer_some (a ∷ xs) ys {e} h = ground (arith, h, answer_some xs ys {e = e})

  pub deliverable_few :
      (xs : List Answer)
      → count (is_call i) (answered (deliverable xs)) ≤ count (is_call i) (answered xs)
  deliverable_few [] = omega arith
  deliverable_few (a ∷ xs) = ground (arith, deliverable_few xs)

  pub few_answers :
      (p : Producer)
      → p.delivered ≡ deliverable p.answers
      → count (is_call i) (answered p.delivered) ≤ count (is_call i) (answered p.answers)
  few_answers p h = rw h (deliverable_few p.answers)

  pub returned_refused :
      (p : Producer) {e : Error}
      → find_refused i p.refused ≡ some e
      → send_command i p ≡ some (some e)
  unfolding send_command
  returned_refused p h = rw (h, send_command) refl

  pub returned_answer :
      (p : Producer)
      → find_refused i p.refused ≡ none
      → send_command i p ≡ find_answer i p.delivered
  unfolding send_command
  returned_answer p h = rw (h, send_command) refl
