-- ===== src/Producer/Attendance.antt =====
-- producer.go: the operations keep what a blocked sender counts on.
use go_nsq.Base.{
  ℕ, suc, ◌+◌, ◌-◌, ◌≡◌, ◌≢◌, ◌⊎◌, inl, inr, refl, ap, Bool, true, false, List, [], ◌∷◌, ◌++◌,
  Option, none, some, arith, Bool-cases, length, length-append,
}
use go_nsq.Producer.{
  Producer, is_connected, Transaction, Answer, begin_ping, queued, not_connected, off, running,
  is_open, failed, finish, close, route, finish_all, check_connect,
}

-- connect has stored the state and is about to start the router.
abbrev pub IsStarting : Producer → Type 0
IsStarting p = (p.stored ≡ true) × (p.dialling ≢ none)

-- Stopped, or with a connection that failed before connect was done.
abbrev pub IsExcused : Producer → Type 0
IsExcused p = (p.exit_closed ≡ true) ⊎ (p.early_loss ≡ true)

abbrev pub dialling_count : Option (Option Transaction) → ℕ
dialling_count none = 0
dialling_count (some none) = 0
dialling_count (some (some t)) = 1

pub record IsLive (p : Producer) : Type 0 where
  -- concurrentProducers counts the calls on their way.
  pub counted :
      p.concurrent_producers ≡ length p.entered + (length p.waiting + dialling_count p.dialling)
  -- While the state is connected the router runs, and its closeChan is open.
  pub routed : (is_connected p.state ≡ false) ⊎ (p.router ≡ running) ⊎ IsStarting p ⊎ IsExcused p
  pub channel :
      (is_connected p.state ≡ false) ⊎ (p.close_closed ≡ false) ⊎ IsStarting p ⊎ IsExcused p
  pub linked : (is_connected p.state ≡ false) ⊎ (p.link ≡ is_open) ⊎ IsExcused p
  pub dialled :
      (p.dialling ≡ none)
      ⊎ (((is_connected p.state ≡ false) ⊎ (p.stored ≡ true)) × ((p.link ≡ is_open) ⊎ IsExcused p))
  pub attended : (p.router ≢ off) ⊎ (p.waiting ≡ []) ⊎ IsStarting p ⊎ IsExcused p
  pub quiet : (p.dialling ≡ none) ⊎ (p.router ≡ off)

pub split_length :
    (xs ys : List Transaction) (t : Transaction) (zs : List Transaction)
    → zs ≡ xs ++ (t ∷ ys)
    → length zs ≡ suc (length (xs ++ ys))
split_length xs ys t zs e =
    omega (arith, ap length e, length-append {0} xs (t ∷ ys), length-append {0} xs ys)

-- What the histories and the queue are does not matter.
pub settle :
    (p : Producer) (ts : List Transaction) (xs ys : List Answer)
    → IsLive p
    → IsLive (record p { transactions = ts; answers = xs; delivered = ys })
settle p ts xs ys v = record {
  counted = v.counted;
  routed = v.routed;
  channel = v.channel;
  linked = v.linked;
  dialled = v.dialled;
  attended = v.attended;
  quiet = v.quiet;
}

close_connected :
    (p : Producer) → is_connected p.state ≡ true → p.dialling ≡ none → IsLive p → IsLive (close p)
unfolding close
close_connected p on free v = simp on (record {
  counted = v.counted;
  routed = inl refl;
  channel = inl refl;
  linked = inl refl;
  dialled = inl free;
  attended = v.attended;
  quiet = v.quiet;
})

close_other : (p : Producer) → is_connected p.state ≡ false → IsLive p → IsLive (close p)
unfolding close
close_other p other v = simp other v

pub close-IsLive : (p : Producer) → p.dialling ≡ none → IsLive p → IsLive (close p)
close-IsLive p free v = elim (Bool-cases (is_connected p.state)) [
  | inl on ↦ close_connected p on free v
  | inr other ↦ close_other p other v
]

pub length_zero : (ts : List Transaction) → length ts ≡ 0 → ts ≡ []
length_zero [] h = refl
length_zero (t ∷ ts) h = absurd (omega (arith, h))

pub must_dial : (p : Producer) → check_connect p ≡ none → is_connected p.state ≡ false
unfolding check_connect
must_dial p h = ground arith

pub must_dial_ping : (p : Producer) → begin_ping p ≡ none → is_connected p.state ≡ false
unfolding begin_ping
must_dial_ping p h = ground arith

pub queued-length :
    (t : Option Transaction) (ts : List Transaction)
    → length (queued t ts) ≡ length ts + dialling_count (some t)
queued-length none ts = omega arith
queued-length (some t) ts = omega arith

pub route-IsLive :
    (t : Transaction) (fails : Bool) (p : Producer)
    → p.router ≡ running
    → IsLive (record p { concurrent_producers = p.concurrent_producers - 1 })
    → IsLive (route t fails p)
unfolding route
route-IsLive t fails p on v =
    let routed : IsLive (route t false p) =
      unfold route in
      record {
        counted = v.counted;
        routed = v.routed;
        channel = v.channel;
        linked = v.linked;
        dialled = v.dialled;
        attended = v.attended;
        quiet = v.quiet;
      } in
    elim (Bool-cases fails) [
      | inl e ↦ rw e (close-IsLive _ (ground (arith, on, v.quiet)) routed)
      | inr e ↦ rw e routed
    ]

pub finish_all-IsLive : (ts : List Transaction) (p : Producer) → IsLive p → IsLive (finish_all ts p)
unfolding finish_all finish
finish_all-IsLive [] p v = v
finish_all-IsLive (t ∷ ts) p v =
    finish_all-IsLive ts (finish t (some not_connected) p)
      (unfold finish in settle p p.transactions _ _ v)

pub failed-IsLive :
    (p : Producer) → p.dialling ≡ none → IsLive p → IsLive (close (record p { link = failed }))
unfolding close
failed-IsLive p free v = elim (Bool-cases (is_connected p.state)) [
  | inl on ↦ simp on (record {
    counted = v.counted;
    routed = inl refl;
    channel = inl refl;
    linked = inl refl;
    dialled = inl free;
    attended = v.attended;
    quiet = v.quiet;
  })
  | inr other ↦ simp other (record {
    counted = v.counted;
    routed = v.routed;
    channel = v.channel;
    linked = inl other;
    dialled = inl free;
    attended = v.attended;
    quiet = v.quiet;
  })
]

pub early-IsLive :
    (p : Producer)
    → IsLive p
    → IsLive (record (close (record p { link = failed })) { early_loss = true })
unfolding close
early-IsLive p v = elim (Bool-cases (is_connected p.state)) [
  | inl on ↦ simp on (record {
    counted = v.counted;
    routed = inl refl;
    channel = inl refl;
    linked = inl refl;
    dialled = inr (inl refl, inr (inr refl));
    attended = inr (inr (inr (inr refl)));
    quiet = v.quiet;
  })
  | inr other ↦ simp other (record {
    counted = v.counted;
    routed = inl other;
    channel = inl other;
    linked = inl other;
    dialled = inr (inl other, inr (inr refl));
    attended = inr (inr (inr (inr refl)));
    quiet = v.quiet;
  })
]
