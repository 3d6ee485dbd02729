-- ===== src/Producer/Growth.antt =====
-- producer.go: what was refused and what was delivered stays.
use go_nsq.Base.{
  ℕ, ◌≡◌, inl, inr, refl, ap, sym, ◌∙◌, Bool, true, false, List, [], ◌∷◌, ◌++◌, Option, none, some,
  arith, if◌then◌else◌, Bool-cases,
}
use go_nsq.Base.Int.{ℤ, eqb_ℤ}
use go_nsq.Base.Bytes.{All, All-append}
use go_nsq.Protocol.{frame_type_error}
use mathlib.Core.Path.{subst}
use mathlib.Core.List.{append_assoc, append-nil}
use go_nsq.Producer.{
  Producer, is_connected, Transaction, Answer, Error, not_connected, failed, check_connect,
  protocol, stopped, connect_failed, finish, close, route, finish_all, begin_cleanup, clean_up,
  refuse, connect_done, store_connected, on_conn_io_error, Step, Reach,
}
use go_nsq.Producer.Order.{pop_transaction-some, stop_kept}

-- The errors of sendCommandAsync, and what a transaction is answered.
abbrev pub is_refusal : Error → Bool
is_refusal (protocol body) = false
is_refusal not_connected = true
is_refusal stopped = true
is_refusal (connect_failed n) = true

abbrev pub is_answer : Option Error → Bool
is_answer none = true
is_answer (some (protocol body)) = true
is_answer (some not_connected) = true
is_answer (some stopped) = false
is_answer (some (connect_failed n)) = false

abbrev pub Refusals : List (Transaction × Error) → Type 0
Refusals = All (λ r. is_refusal r.1 ≡ true)

abbrev pub Answers : List Answer → Type 0
Answers = All (λ a. is_answer a.error ≡ true)

-- Refusals and deliveries are only ever added.
pub record Grew (p q : Producer) : Type 0 where
  pub front : List (Transaction × Error)
  pub refused : q.refused ≡ front ++ p.refused
  pub back : List Answer
  pub delivered : q.delivered ≡ p.delivered ++ back
  pub refusals : Refusals front
  pub answers : Answers back

same_ends :
    {p : Producer} (q : Producer) → q.refused ≡ p.refused → q.delivered ≡ p.delivered → Grew p q
same_ends {p} q r d = record {
  front = [];
  refused = r;
  back = [];
  delivered = d ∙ sym (append-nil p.delivered);
  refusals = tt;
  answers = tt;
}

Grew-trans : {p q r : Producer} → Grew p q → Grew q r → Grew p r
Grew-trans {p} {q} {r} g h = record {
  front = h.front ++ g.front;
  refused =
      h.refused
      ∙ ap (λ (xs : List (Transaction × Error)). h.front ++ xs) g.refused
      ∙ sym (append_assoc h.front g.front p.refused);
  back = g.back ++ h.back;
  delivered =
      h.delivered
      ∙ ap (λ (xs : List Answer). xs ++ h.back) g.delivered
      ∙ append_assoc p.delivered g.back h.back;
  refusals = All-append _ h.front g.front h.refusals g.refusals;
  answers = All-append _ g.back h.back g.answers h.answers;
}

refusal : (p : Producer) (e : Error) → check_connect p ≡ some (some e) → is_refusal e ≡ true
unfolding check_connect
refusal p e h = ground arith

response :
    (frame_type : ℤ) (body : List ℕ)
    → is_answer (if eqb_ℤ frame_type frame_type_error then some (protocol body) else none) ≡ true
response frame_type body = ground arith

close-Grew : (p : Producer) → Grew p (close p)
unfolding close
close-Grew p = elim (Bool-cases (is_connected p.state)) [
  | inl on ↦ rw on (same_ends _ refl refl)
  | inr other ↦ rw other (same_ends _ refl refl)
]

refuse-Grew :
    (t : Transaction) (e : Error) {p : Producer} (q : Producer)
    → is_refusal e ≡ true
    → q.refused ≡ p.refused
    → q.delivered ≡ p.delivered
    → Grew p (refuse t e q)
unfolding refuse
refuse-Grew t e {p} q ok r d = record {
  front = (t, e) ∷ [];
  refused = ap (◌∷◌ (t, e)) r;
  back = [];
  delivered = d ∙ sym (append-nil p.delivered);
  refusals = (ok, tt);
  answers = tt;
}

finish-Grew :
    (t : Transaction) (e : Option Error) {p : Producer} (q : Producer)
    → is_answer e ≡ true
    → q.refused ≡ p.refused
    → q.delivered ≡ p.delivered
    → Grew p (finish t e q)
unfolding finish
finish-Grew t e {p} q ok r d = elim (Bool-cases t.done_chan) [
  | inl given ↦ simp given (record {
    front = [];
    refused = r;
    back = record { transaction = t; error = e } ∷ [];
    delivered = ap (λ (xs : List Answer). xs ++ (record { transaction = t; error = e } ∷ [])) d;
    refusals = tt;
    answers = (ok, tt);
  })
  | inr nil ↦ simp nil (same_ends _ r d)
]

finish_all-Grew :
    (ts : List Transaction) {p : Producer} (q : Producer) → Grew p q → Grew p (finish_all ts q)
unfolding finish_all
finish_all-Grew [] q g = g
finish_all-Grew (t ∷ ts) q g =
    finish_all-Grew ts (finish t (some not_connected) q)
      (Grew-trans g (finish-Grew t (some not_connected) q refl refl refl))

route-Grew : (t : Transaction) (fails : Bool) (p : Producer) → Grew p (route t fails p)
unfolding route
route-Grew t fails p =
    let routed : Grew p (route t false p) = unfold route in same_ends _ refl refl in
    elim (Bool-cases fails) [
      | inl e ↦ rw e (Grew-trans routed (close-Grew (route t false p)))
      | inr e ↦ rw e routed
    ]

Step-Grew : {p q : Producer} → Step p q → Grew p q
Step-Grew (Step.enter p t) = same_ends _ refl refl
Step-Grew (Step.find_connected p xs ys t _ _) = same_ends _ refl refl
Step-Grew (Step.connect_connected p xs ys t _ _ _) = same_ends _ refl refl
Step-Grew (Step.connect_refused p xs ys t e _ _ h) = refuse-Grew t e _ (refusal p e h) refl refl
Step-Grew (Step.connect_fails p xs ys t n _ _ _) = refuse-Grew t _ _ refl refl refl
Step-Grew (Step.dial p xs ys t _ _ _ _) = same_ends _ refl refl
Step-Grew (Step.dial_ping p _ _ _) = same_ends _ refl refl
Step-Grew (Step.store_state p t _ _) = unfold store_connected in same_ends _ refl refl
Step-Grew (Step.connect p t _ _) = unfold connect_done in same_ends _ refl refl
Step-Grew (Step.take_transaction p xs ys t fails _ _) =
    Grew-trans (same_ends (record p { waiting = xs ++ ys }) refl refl) (route-Grew t fails _)
Step-Grew (Step.send_stopped p xs ys t _ _) = refuse-Grew t _ _ refl refl refl
Step-Grew (Step.respond p q frame_type body _ popped) =
    let (t, ts, _, done) = pop_transaction-some frame_type body p q p.transactions refl popped in
    subst (Grew p) done (finish-Grew t _ _ (response frame_type body) refl refl)
Step-Grew (Step.leave_router p _ _) =
    unfold begin_cleanup in finish_all-Grew p.transactions _ (same_ends {p = p} _ refl refl)
Step-Grew (Step.clean_one p xs ys t _ _) =
    unfold clean_up in finish-Grew t (some not_connected) _ refl refl refl
Step-Grew (Step.clean_done p _ _) = same_ends _ refl refl
Step-Grew (Step.reset p _ _) = same_ends _ refl refl
Step-Grew (Step.lose p _ _) =
    unfold on_conn_io_error in
    Grew-trans (same_ends {p = p} (record p { link = failed }) refl refl)
      (close-Grew (record p { link = failed }))
Step-Grew (Step.lose_early p t _ _) =
    unfold on_conn_io_error in
    let g =
      Grew-trans (same_ends {p = p} (record p { link = failed }) refl refl)
        (close-Grew (record p { link = failed })) in
    record {
      front = g.front;
      refused = g.refused;
      back = g.back;
      delivered = g.delivered;
      refusals = g.refusals;
      answers = g.answers;
    }
Step-Grew (Step.on_conn_close p _ _) = same_ends _ refl refl
Step-Grew (Step.stop_producer p _) = stop_kept (Grew p) p (same_ends _ refl refl) (
    Grew-trans (same_ends (record p { stop_flag = true; exit_closed = true }) refl refl)
      (close-Grew _))

pub Reach-Grew : {p q : Producer} → Reach p q → Grew p q
Reach-Grew Reach.start = same_ends _ refl refl
Reach-Grew (Reach.step reach s) = Grew-trans (Reach-Grew reach) (Step-Grew s)
