-- ===== src/Producer/Places.antt =====
-- producer.go: each call is in one place: on its way, with the router, refused or answered.
use go_nsq.Base.{
  ◌+◌, ◌-◌, ◌≡◌, inl, inr, refl, ap, ◌∙◌, Bool, true, false, List, [], ◌∷◌, ◌++◌, Option, none,
  some, arith, Bool-cases,
}
use go_nsq.Producer.{
  Producer, is_connected, Transaction, Answer, Error, not_connected, failed, cleaning, finish,
  close, route, finish_all, begin_cleanup, clean_up, refuse, queued, connect_done, store_connected,
  on_conn_io_error, Step, Reach, new_producer,
}
use go_nsq.Producer.Order.{answered, pop_transaction-some, stop_kept}
use go_nsq.Producer.Calls.{
  one_if, count, dialler, refused_calls, on_the_way, at_the_end, everywhere, made, calls,
}

module _ (pick : Transaction → Bool) where
  pub count-append :
      (xs ys : List Transaction) → count pick (xs ++ ys) ≡ count pick xs + count pick ys
  count-append [] ys = omega arith
  count-append (t ∷ xs) ys = omega (arith, count-append xs ys)

  pub count-answered :
      (xs ys : List Answer)
      → count pick (answered (xs ++ ys)) ≡ count pick (answered xs) + count pick (answered ys)
  count-answered [] ys = omega arith
  count-answered (a ∷ xs) ys = omega (arith, count-answered xs ys)

  pub count-refused :
      (xs ys : List (Transaction × Error))
      → count pick (refused_calls (xs ++ ys))
        ≡ count pick (refused_calls xs) + count pick (refused_calls ys)
  count-refused [] ys = omega arith
  count-refused (r ∷ xs) ys = omega (arith, count-refused xs ys)

  -- A call is taken out of a list.
  taken :
      (xs ys : List Transaction) (t : Transaction) (zs : List Transaction)
      → zs ≡ xs ++ (t ∷ ys)
      → count pick zs ≡ one_if (pick t) + count pick (xs ++ ys)
  taken xs ys t zs e =
      omega (arith, ap (count pick) e, count-append xs (t ∷ ys), count-append xs ys)

  queued-count :
      (t : Option Transaction) (ts : List Transaction)
      → count pick (queued t ts) ≡ count pick (dialler (some t)) + count pick ts
  queued-count none ts = omega arith
  queued-count (some t) ts = omega arith

  -- A change of the fields that no call is in.
  abbrev Same : Producer → Producer → Type 0
  Same p q = everywhere pick q ≡ everywhere pick p

  close-Same : (p : Producer) → Same p (close p)
  unfolding close
  close-Same p = elim (Bool-cases (is_connected p.state)) [
    | inl on ↦ rw on refl
    | inr other ↦ rw other refl
  ]

  finish-count :
      (t : Transaction) (e : Option Error) (p : Producer)
      → everywhere pick (finish t e p) ≡ one_if (pick t) + everywhere pick p
  unfolding finish
  finish-count t e p =
      omega (arith, count-answered p.answers (record { transaction = t; error = e } ∷ []))

  finish_all-count :
      (ts : List Transaction) (p : Producer)
      → everywhere pick (finish_all ts p) ≡ count pick ts + everywhere pick p
  unfolding finish_all
  finish_all-count [] p = omega arith
  finish_all-count (t ∷ ts) p = omega (
    arith,
    finish_all-count ts (finish t (some not_connected) p),
    finish-count t (some not_connected) p,
  )

  clean_up-count :
      (t : Transaction) (p : Producer)
      → everywhere pick (clean_up t p) ≡ one_if (pick t) + everywhere pick p
  unfolding clean_up
  clean_up-count t p = finish-count t (some not_connected) (record p {
    accepted = p.accepted ++ (t ∷ []);
    concurrent_producers = p.concurrent_producers - 1;
  })

  route-count :
      (t : Transaction) (fails : Bool) (p : Producer)
      → everywhere pick (route t fails p) ≡ one_if (pick t) + everywhere pick p
  unfolding route
  route-count t fails p =
      let routed : everywhere pick (route t false p) ≡ one_if (pick t) + everywhere pick p =
        unfold route in omega (arith, count-append p.transactions (t ∷ [])) in
      elim (Bool-cases fails) [
        | inl e ↦ rw e (close-Same (route t false p) ∙ routed)
        | inr e ↦ rw e routed
      ]

  Step-count :
      {p q : Producer} (s : Step p q) → everywhere pick q ≡ count pick (made s) + everywhere pick p
  Step-count (Step.enter p t) = omega arith
  Step-count (Step.find_connected p xs ys t e _) = omega (arith, taken xs ys t p.entered e)
  Step-count (Step.connect_connected p xs ys t e _ _) = omega (arith, taken xs ys t p.entered e)
  Step-count (Step.connect_refused p xs ys t x e _ _) =
      unfold refuse in omega (arith, taken xs ys t p.entered e)
  Step-count (Step.connect_fails p xs ys t n e _ _) =
      unfold refuse in omega (arith, taken xs ys t p.entered e)
  Step-count (Step.dial p xs ys t e free _ _) =
      omega (arith, taken xs ys t p.entered e, ap (λ d. count pick (dialler d)) free)
  Step-count (Step.dial_ping p free _ _) = omega (arith, ap (λ d. count pick (dialler d)) free)
  Step-count (Step.store_state p t _ _) = unfold store_connected in omega arith
  Step-count (Step.connect p t e _) =
      unfold connect_done in
      omega (arith, queued-count t p.waiting, ap (λ d. count pick (dialler d)) e)
  Step-count (Step.take_transaction p xs ys t fails w _) =
      omega
        (arith, route-count t fails (record p { waiting = xs ++ ys }), taken xs ys t p.waiting w)
  Step-count (Step.send_stopped p xs ys t w _) =
      unfold refuse in omega (arith, taken xs ys t p.waiting w)
  Step-count (Step.respond p q frame_type body _ popped) =
      let (t, ts, queue, done) =
        pop_transaction-some frame_type body p q p.transactions refl popped in
      omega (
        arith,
        ap (everywhere pick) done,
        finish-count t _ (record p { transactions = ts }),
        ap (count pick) queue,
      )
  Step-count (Step.leave_router p _ _) =
      unfold begin_cleanup in
      omega
        (arith, finish_all-count p.transactions (record p { router = cleaning; transactions = [] }))
  Step-count (Step.clean_one p xs ys t w _) =
      omega (arith, clean_up-count t (record p { waiting = xs ++ ys }), taken xs ys t p.waiting w)
  Step-count (Step.clean_done p _ _) = omega arith
  Step-count (Step.reset p _ _) = omega arith
  Step-count (Step.lose p _ _) =
      unfold on_conn_io_error in omega (arith, close-Same (record p { link = failed }))
  Step-count (Step.lose_early p t _ _) =
      unfold on_conn_io_error in omega (arith, close-Same (record p { link = failed }))
  Step-count (Step.on_conn_close p _ _) = omega arith
  Step-count (Step.stop_producer p _) = omega (
    arith,
    stop_kept (Same p) p refl (close-Same (record p { stop_flag = true; exit_closed = true })),
  )

  pub Reach-count :
      {p q : Producer} (reach : Reach p q)
      → everywhere pick q ≡ count pick (calls reach) + everywhere pick p
  Reach-count Reach.start = omega arith
  Reach-count (Reach.step reach s) =
      omega (arith, Step-count s, Reach-count reach, count-append (made s) (calls reach))

-- In every state that a new producer can reach, the calls made so far are those on their way, those
-- with the router, those refused and those answered, each as often as it was made. No connect
-- begins while a router runs.
pub Reach-IsConserved :
    {p : Producer} (reach : Reach new_producer p) (pick : Transaction → Bool)
    → on_the_way pick p + count pick p.transactions + at_the_end pick p ≡ count pick (calls reach)
Reach-IsConserved reach pick = omega (arith, Reach-count pick reach)
