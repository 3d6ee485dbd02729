-- ===== src/Producer/Publishing.antt =====
-- producer.go: what the error of a synchronous call says of the command, and that a call ends.
use go_nsq.Base.{
  ℕ, ◌+◌, ◌≤◌, ◌≡◌, ◌≢◌, ◌⊎◌, inl, inr, refl, ap, sym, ◌∙◌, true, not, ◌&&◌, List, [], ◌∷◌, ◌++◌,
  Option, none, some, arith, Bool-cases, Option-cases, ◌==◌,
}
use mathlib.Core.Path.{subst}
use mathlib.Core.List.{append-nil}
use go_nsq.Producer.{
  Producer, Transaction, Answer, Error, protocol, not_connected, stopped, connect_failed, Reach,
  new_producer, running,
}
use go_nsq.Producer.Order.{answered, deliverable, Reach-IsOrdered}
use go_nsq.Producer.Calls.{
  count, refused_calls, on_the_way, calls, find_refused, find_answer, send_command,
}
use go_nsq.Producer.Growth.{Reach-Grew, is_refusal, is_answer, Refusals, Answers}
use go_nsq.Producer.Places.{count-append, Reach-IsConserved}
use go_nsq.Producer.Returns.{
  is_call, refused_some, answer_some, few_answers, returned_refused, returned_answer,
}

-- How often the router took the command of a call that has returned. ErrNotConnected comes from the
-- clean-up, which may have written it, and from connect, before it was.
abbrev pub Says : Option Error → ℕ → Type 0
Says none n = n ≡ 1
Says (some (protocol body)) n = n ≡ 1
Says (some not_connected) n = n ≤ 1
Says (some stopped) n = n ≡ 0
Says (some (connect_failed c)) n = n ≡ 0

refusal-Says : (e : Error) (n : ℕ) → is_refusal e ≡ true → n ≡ 0 → Says (some e) n
refusal-Says (protocol body) n ok h = absurd (cc)
refusal-Says not_connected n ok h = omega (arith, h)
refusal-Says stopped n ok h = h
refusal-Says (connect_failed c) n ok h = h

answer-Says : (v : Option Error) (n : ℕ) → is_answer v ≡ true → n ≡ 1 → Says v n
answer-Says none n ok h = h
answer-Says (some (protocol body)) n ok h = h
answer-Says (some not_connected) n ok h = omega (arith, h)
answer-Says (some stopped) n ok h = absurd (cc)
answer-Says (some (connect_failed c)) n ok h = absurd (cc)

module _ (i : ℕ) where
  find_refusal :
      (xs : List (Transaction × Error)) {e : Error}
      → Refusals xs
      → find_refused i xs ≡ some e
      → is_refusal e ≡ true
  unfolding find_refused
  find_refusal [] ok h = absurd (cc)
  find_refusal ((t, x) ∷ xs) {e} ok h = ground (arith, ok, find_refusal xs {e = e})

  find_is_answer :
      (xs : List Answer) {v : Option Error}
      → Answers xs
      → find_answer i xs ≡ some v
      → is_answer v ≡ true
  unfolding find_answer
  find_is_answer [] ok h = absurd (cc)
  find_is_answer (a ∷ xs) {v} ok h = ground (arith, ok, find_is_answer xs {v = v})

  refused_once :
      (xs : List (Transaction × Error))
      → 1 ≤ count (is_call i) (refused_calls xs)
      → (e : Error) × (find_refused i xs ≡ some e)
  unfolding find_refused
  refused_once [] h = absurd (omega (arith, h))
  refused_once ((t, e) ∷ xs) h = elim (Bool-cases (t.id == i)) [
    | inl hit ↦ (e, rw hit refl)
    | inr miss ↦
        let (x, found) = refused_once xs (ground (arith, h, miss)) in
        (x, ground (arith, miss, found))
  ]

  answered_once :
      (xs : List Answer)
      → 1 ≤ count (is_call i) (answered xs)
      → (v : Option Error) × (find_answer i xs ≡ some v)
  unfolding find_answer
  answered_once [] h = absurd (omega (arith, h))
  answered_once (a ∷ xs) h = elim (Bool-cases (a.transaction.id == i)) [
    | inl hit ↦ (a.error, rw hit refl)
    | inr miss ↦
        let (x, found) = answered_once xs (ground (arith, h, miss)) in
        (x, ground (arith, miss, found))
  ]

  -- An answer without a channel is the only one that is not delivered.
  undelivered :
      (xs : List Answer)
      → count (is_call i) (answered xs)
        ≤ count (is_call i) (answered (deliverable xs))
          + count (λ t. is_call i t && not t.done_chan) (answered xs)
  undelivered [] = omega arith
  undelivered (a ∷ xs) = ground (arith, undelivered xs)

  left_over :
      (p : Producer)
      → answered p.answers ++ p.transactions ≡ p.accepted
      → (p.router ≡ running) ⊎ (answered p.answers ≡ p.accepted)
      → p.router ≢ running
      → count (is_call i) p.transactions ≡ 0
  left_over p order (inl on) ended = absurd (ended on)
  left_over p order (inr all) ended = omega (
    arith,
    count-append (is_call i) (answered p.answers) p.transactions,
    ap (count (is_call i)) order,
    ap (count (is_call i)) all,
  )

  ends_somewhere :
      (p : Producer)
      → 1 ≤ count (is_call i) (refused_calls p.refused) + count (is_call i) (answered p.answers)
      → count (λ t. is_call i t && not t.done_chan) (answered p.answers) ≡ 0
      → (1 ≤ count (is_call i) (refused_calls p.refused))
        ⊎ (1 ≤ count (is_call i) (answered (deliverable p.answers)))
  ends_somewhere p h synchronous = ground (arith, undelivered p.answers, h, synchronous)

ends : {p : Producer} → Reach new_producer p → Refusals p.refused × Answers p.delivered
ends {p} reach =
    let g = Reach-Grew reach in
    (
      subst Refusals (sym (append-nil g.front) ∙ sym g.refused) g.refusals,
      subst Answers (sym g.delivered) g.answers,
    )

-- Of a call that was made once, with an id of its own, the router takes the command at most once;
-- once if the call returns nil or the error of a response, and never if it returns ErrStopped or
-- the error of Connect. No connect begins while a router runs.
pub send_command-Says :
    {p : Producer} (reach : Reach new_producer p) (i : ℕ) (v : Option Error)
    → count (is_call i) (calls reach) ≡ 1
    → send_command i p ≡ some v
    → Says v (count (is_call i) p.accepted)
send_command-Says {p} reach i v once h =
    let places = Reach-IsConserved reach (is_call i) in
    let (order, delivered, _) = Reach-IsOrdered p reach in
    let took : count (is_call i) (answered p.answers) + count (is_call i) p.transactions
        ≡ count (is_call i) p.accepted =
      sym (count-append (is_call i) (answered p.answers) p.transactions)
      ∙ ap (count (is_call i)) order in
    let (refusals, answers) = ends reach in
    elim (Option-cases (find_refused i p.refused)) [
      | inr (e, found) ↦
          let some_refusal = refused_some i p.refused found in
          let same : some (some e) ≡ some v = sym (returned_refused i p found) ∙ h in
          let same_error : some e ≡ v = cc in
          subst (λ x. Says x (count (is_call i) p.accepted)) same_error
            (refusal-Says e _ (find_refusal i p.refused refusals found)
              (omega (arith, took, places, once, some_refusal)))
      | inl empty ↦
          let found = sym (returned_answer i p empty) ∙ h in
          let (some_answer, _) = answer_some i p.delivered [] found in
          answer-Says v _ (find_is_answer i p.delivered answers found)
            (omega (arith, took, places, once, some_answer, few_answers i p delivered))
    ]

-- A synchronous call that was made, is no longer on its way, and whose router has stopped has
-- returned. No connect begins while a router runs.
pub send_command_returns :
    {p : Producer} (reach : Reach new_producer p) (i : ℕ)
    → 1 ≤ count (is_call i) (calls reach)
    → count (λ t. is_call i t && not t.done_chan) (calls reach) ≡ 0
    → on_the_way (is_call i) p ≡ 0
    → p.router ≢ running
    → (v : Option Error) × (send_command i p ≡ some v)
send_command_returns {p} reach i once synchronous arrived ended =
    let (order, delivered, state) = Reach-IsOrdered p reach in
    let left : count (is_call i) p.transactions ≡ 0 = left_over i p order state ended in
    let all : (1 ≤ count (is_call i) (refused_calls p.refused))
        ⊎ (1 ≤ count (is_call i) (answered p.delivered)) =
      rw delivered (
        ends_somewhere i p (omega (arith, Reach-IsConserved reach (is_call i), once, arrived, left))
          (omega
            (arith, Reach-IsConserved reach (λ t. is_call i t && not t.done_chan), synchronous))) in
    elim (Option-cases (find_refused i p.refused)) [
      | inr (e, found) ↦ (some e, returned_refused i p found)
      | inl empty ↦ elim all [
        | inl refused ↦
            let (e, found) = refused_once i p.refused refused in
            (some e, returned_refused i p found)
        | inr answer ↦
            let (v, found) = answered_once i p.delivered answer in
            (v, returned_answer i p empty ∙ found)
      ]
    ]
