-- ===== src/Producer/Order.antt =====
-- producer.go: first in, first out, and one answer for each transaction.
use go_nsq.Base.{
  ℕ, ◌-◌, ◌≡◌, ◌≢◌, ◌⊎◌, inl, inr, refl, sym, ap, ◌∙◌, Bool, true, false, List, [], ◌∷◌, ◌++◌,
  Option, none, some, map, arith, if◌then◌else◌, Bool-cases,
}
use go_nsq.Base.Int.{ℤ, eqb_ℤ}
use go_nsq.Protocol.{frame_type_error}
use mathlib.Core.Path.{subst}
use mathlib.Core.List.{append_assoc, append-nil}
use go_nsq.Producer.{
  Producer, is_connected, failed, Transaction, Answer, Error, not_connected, protocol, running,
  cleaning, finish, pop_transaction, close, route, finish_all, begin_cleanup, clean_up, refuse,
  connect_done, store_connected, on_conn_io_error, stop, Step, Reach, new_producer,
}

abbrev pub answered : List Answer → List Transaction
answered = map (λ a. a.transaction)

-- The answers whose transaction has a channel.
abbrev pub deliverable : List Answer → List Answer
deliverable [] = []
deliverable (a ∷ rest) = if a.transaction.done_chan then a ∷ deliverable rest else deliverable rest

pub record IsOrdered (p : Producer) : Type 0 where
  pub in_order : answered p.answers ++ p.transactions ≡ p.accepted
  pub none_lost : (p.router ≡ running) ⊎ (p.transactions ≡ [])
  pub all_delivered : p.delivered ≡ deliverable p.answers

answered-append : (xs ys : List Answer) → answered (xs ++ ys) ≡ answered xs ++ answered ys
answered-append [] ys = refl
answered-append (a ∷ xs) ys = ap (◌∷◌ a.transaction) (answered-append xs ys)

deliverable-append :
    (xs : List Answer) (a : Answer)
    → deliverable (xs ++ (a ∷ []))
      ≡ (if a.transaction.done_chan then deliverable xs ++ (a ∷ []) else deliverable xs)
deliverable-append [] a = refl
deliverable-append (b ∷ xs) a = ground (arith, deliverable-append xs a)

-- Six fields matter.
same_order :
    {p : Producer} (q : Producer)
    → IsOrdered p
    → q.answers ≡ p.answers
    → q.transactions ≡ p.transactions
    → q.accepted ≡ p.accepted
    → q.delivered ≡ p.delivered
    → q.router ≡ p.router
    → IsOrdered q
same_order q v a t c d r = record {
  in_order = rw (a, t, c) v.in_order;
  none_lost = rw (r, t) v.none_lost;
  all_delivered = rw (a, d) v.all_delivered;
}

close_order : (p : Producer) → IsOrdered p → IsOrdered (close p)
unfolding close
close_order p v = elim (Bool-cases (is_connected p.state)) [
  | inl on ↦ rw on (same_order _ v refl refl refl refl refl)
  | inr other ↦ rw other v
]

-- The oldest transaction is answered.
finish_order :
    (t : Transaction) (ts : List Transaction) (e : Option Error) (p : Producer)
    → answered p.answers ++ (t ∷ ts) ≡ p.accepted
    → p.delivered ≡ deliverable p.answers
    → (answered (finish t e p).answers ++ ts ≡ (finish t e p).accepted)
      × ((finish t e p).delivered ≡ deliverable (finish t e p).answers)
unfolding finish
finish_order t ts e p h d = (
  rw (answered-append p.answers (record { transaction = t; error = e } ∷ []))
      (append_assoc (answered p.answers) (t ∷ []) ts ∙ h),
  rw (deliverable-append p.answers (record { transaction = t; error = e }), d) refl,
)

finish_all_order :
    (ts : List Transaction) (p : Producer)
    → answered p.answers ++ ts ≡ p.accepted
    → p.transactions ≡ []
    → p.delivered ≡ deliverable p.answers
    → IsOrdered (finish_all ts p)
unfolding finish_all
finish_all_order [] p h e d = record { in_order = rw e h; none_lost = inr e; all_delivered = d }
finish_all_order (t ∷ ts) p h e d =
    let (kept, all) = finish_order t ts (some not_connected) p h d in
    finish_all_order ts (finish t (some not_connected) p) kept (unfold finish in e) all

route_order :
    (t : Transaction) (fails : Bool) (p : Producer)
    → p.router ≡ running
    → IsOrdered p
    → IsOrdered (route t fails p)
unfolding route
route_order t fails p on v =
    let routed : IsOrdered (route t false p) =
      unfold route in
      record {
        in_order =
            sym (append_assoc (answered p.answers) p.transactions (t ∷ []))
            ∙ ap (λ (ts : List Transaction). ts ++ (t ∷ [])) v.in_order;
        none_lost = inl on;
        all_delivered = v.all_delivered;
      } in
    elim (Bool-cases fails) [ inl e ↦ rw e (close_order _ routed) | inr e ↦ rw e routed ]

-- What a response does to a queue that is not empty.
pub pop_transaction-some :
    (frame_type : ℤ) (body : List ℕ) (p q : Producer) (queue : List Transaction)
    → p.transactions ≡ queue
    → pop_transaction frame_type body p ≡ some q
    → (t : Transaction) × (ts : List Transaction) × (queue ≡ t ∷ ts)
      × (finish t
            (if eqb_ℤ frame_type frame_type_error then some (protocol body) else none)
            (record p { transactions = ts })
          ≡ q)
unfolding pop_transaction
pop_transaction-some frame_type body p q [] e h = absurd (cc)
pop_transaction-some frame_type body p q (t ∷ ts) e h =
    let got : some (
          finish t (if eqb_ℤ frame_type frame_type_error then some (protocol body) else none)
            (record p { transactions = ts }))
        ≡ some q =
      rw e at h in
    (t, ts, refl, cc)

none_in_cleanup : (p : Producer) → p.router ≢ running → IsOrdered p → p.transactions ≡ []
none_in_cleanup p stopped v = elim v.none_lost [ inl on ↦ absurd (stopped on) | inr empty ↦ empty ]

finish_queue :
    (t : Transaction) (ts : List Transaction) (e : Option Error) (p : Producer)
    → answered p.answers ++ (t ∷ ts) ≡ p.accepted
    → p.delivered ≡ deliverable p.answers
    → p.transactions ≡ ts
    → (p.router ≡ running) ⊎ (ts ≡ [])
    → IsOrdered (finish t e p)
finish_queue t ts e p h d queue n =
    let (kept, all) = finish_order t ts e p h d in
    record {
      in_order = unfold finish in rw queue (unfold finish in kept);
      none_lost = unfold finish in rw queue n;
      all_delivered = all;
    }

-- stop does nothing, or sets the flags and closes.
pub stop_kept {κ} :
    (P : Producer → Type κ) (p : Producer)
    → P p
    → P (close (record p { stop_flag = true; exit_closed = true }))
    → P (stop p)
unfolding stop
stop_kept P p same closed = elim (Bool-cases p.stop_flag) [
  | inl e ↦ simp e same
  | inr e ↦ simp e closed
]

Step-IsOrdered : {p q : Producer} → Step p q → IsOrdered p → IsOrdered q
Step-IsOrdered (Step.enter p t) v = same_order _ v refl refl refl refl refl
Step-IsOrdered (Step.find_connected p xs ys t _ _) v = same_order _ v refl refl refl refl refl
Step-IsOrdered (Step.connect_connected p xs ys t _ _ _) v = same_order _ v refl refl refl refl refl
Step-IsOrdered (Step.connect_refused p xs ys t e _ _ _) v =
    unfold refuse in same_order _ v refl refl refl refl refl
Step-IsOrdered (Step.connect_fails p xs ys t n _ _ _) v =
    unfold refuse in same_order _ v refl refl refl refl refl
Step-IsOrdered (Step.dial p xs ys t _ _ _ _) v = same_order _ v refl refl refl refl refl
Step-IsOrdered (Step.dial_ping p _ _ _) v = same_order _ v refl refl refl refl refl
Step-IsOrdered (Step.store_state p t _ _) v =
    unfold store_connected in same_order _ v refl refl refl refl refl
Step-IsOrdered (Step.connect p t _ _) v =
    unfold connect_done in
    record { in_order = v.in_order; none_lost = inl refl; all_delivered = v.all_delivered }
Step-IsOrdered (Step.take_transaction p xs ys t fails w on) v =
    route_order t fails (record p { waiting = xs ++ ys }) on
      (same_order _ v refl refl refl refl refl)
Step-IsOrdered (Step.send_stopped p xs ys t _ _) v =
    unfold refuse in same_order _ v refl refl refl refl refl
Step-IsOrdered (Step.respond p q frame_type body on popped) v =
    let (t, ts, queue, made) =
      pop_transaction-some frame_type body p q p.transactions refl popped in
    subst IsOrdered made (
      finish_queue t ts _ (record p { transactions = ts }) (rw queue at v.in_order) v.all_delivered
        refl (inl on))
Step-IsOrdered (Step.leave_router p on _) v =
    unfold begin_cleanup in
    finish_all_order p.transactions (record p { router = cleaning; transactions = [] }) v.in_order
      refl v.all_delivered
Step-IsOrdered (Step.clean_one p xs ys t _ on) v =
    let empty = none_in_cleanup p (λ e. cc) v in
    unfold clean_up in
    finish_queue t [] (some not_connected)
      (record p {
        waiting = xs ++ ys;
        accepted = p.accepted ++ (t ∷ []);
        concurrent_producers = p.concurrent_producers - 1;
      })
      (ap (λ (ts : List Transaction). ts ++ (t ∷ []))
        (sym (append-nil (answered p.answers)) ∙ rw empty at v.in_order))
      v.all_delivered empty (inr refl)
Step-IsOrdered (Step.clean_done p on _) v = record {
  in_order = v.in_order;
  none_lost = inr (none_in_cleanup p (λ e. cc) v);
  all_delivered = v.all_delivered;
}
Step-IsOrdered (Step.reset p _ _) v = same_order _ v refl refl refl refl refl
Step-IsOrdered (Step.lose p _ _) v =
    unfold on_conn_io_error in
    close_order _ (same_order (record p { link = failed }) v refl refl refl refl refl)
Step-IsOrdered (Step.lose_early p t _ _) v =
    unfold on_conn_io_error in
    same_order _
      (close_order _ (same_order (record p { link = failed }) v refl refl refl refl refl)) refl refl
      refl refl refl
Step-IsOrdered (Step.on_conn_close p _ _) v = same_order _ v refl refl refl refl refl
Step-IsOrdered (Step.stop_producer p _) v = stop_kept IsOrdered p v (
    close_order _
      (same_order (record p { stop_flag = true; exit_closed = true }) v refl refl refl refl refl))

ordered : {p : Producer} → Reach new_producer p → IsOrdered p
ordered Reach.start = record { in_order = refl; none_lost = inr refl; all_delivered = refl }
ordered (Reach.step reach s) = Step-IsOrdered s (ordered reach)

-- In every state that a new producer can reach, transactions have been answered in the order in
-- which the router took them, with nothing left out and nothing answered twice; the answers
-- delivered are those of the transactions that have a channel; and unless the router runs, all
-- that it took are answered. No connect begins while a router runs.
pub Reach-IsOrdered :
    (p : Producer)
    → Reach new_producer p
    → (answered p.answers ++ p.transactions ≡ p.accepted)
      × (p.delivered ≡ deliverable p.answers)
      × ((p.router ≡ running) ⊎ (answered p.answers ≡ p.accepted))
Reach-IsOrdered p reach =
    let v = ordered reach in
    (
      v.in_order,
      v.all_delivered,
      elim v.none_lost [
        | inl on ↦ inl on
        | inr empty ↦ inr (sym (append-nil (answered p.answers)) ∙ rw empty at v.in_order)
      ],
    )
