-- ===== src/Lookup/Queries.antt =====
-- consumer.go: the requests of queryLookupd.
use go_nsq.Base.{
  ℕ, zero, suc, ◌+◌, ◌-◌, ◌%◌, ◌<◌, ◌≡◌, inl, inr, refl, ap, List, [], ◌∷◌, Option, none, some,
  arith, Option-cases, length, get_or,
}
use go_nsq.Lookup.{Addr, Lookup, Dialled}
use go_nsq.Lookup.Endpoints.{
  wrapped_index, PeerInfo, Queried, query_retry, query_lookupd, connect_answer,
}
use go_nsq.Lookup.Steps.{advanced}
use go_nsq.Lookup.Rounds.{turns, next_some, wrapped_advanced}

-- A list of endpoints is asked, as far as the first that answers.
unfoldable pub first_answer :
    (ℕ → Addr → Option (List PeerInfo)) → ℕ → List Addr → List Addr × Option (List PeerInfo)
first_answer ask n [] = ([], none)
first_answer ask n (x ∷ xs) = elim (ask n x) [
  | some peers ↦ (x ∷ [], some peers)
  | none ↦ let (asked, answer) = first_answer ask (suc n) xs in (x ∷ asked, answer)
]

-- The run of the tries that are left, against the list of endpoints whose turn it is.
abbrev Runs : (ℕ → Addr → Option (List PeerInfo)) → ℕ → ℕ → Lookup → Queried → Type 0
Runs ask left n l q =
    (query_retry ask left l ≡ some q)
    × ((q.asked, q.answer) ≡ first_answer ask n (turns left (wrapped_index l) l.lookupd_http_addrs))
    × (q.state ≡ record l { lookupd_query_index = q.state.lookupd_query_index })

module _ (ask : ℕ → Addr → Option (List PeerInfo)) (left n : ℕ) (l : Lookup) where
  abbrev endpoint : Addr
  endpoint = get_or l.lookupd_http_addrs (wrapped_index l) []

  abbrev found : List PeerInfo → Queried
  found peers = record { asked = endpoint ∷ []; answer = some peers; state = advanced l }

  answered-Runs :
      (peers : List PeerInfo)
      → 2 - left ≡ n
      → 0 < length l.lookupd_http_addrs
      → ask n endpoint ≡ some peers
      → Runs ask (suc left) n l (found peers)
  unfolding query_retry first_answer turns
  answered-Runs peers turn h answered =
      (rw (next_some l h, query_retry) (rw turn (rw answered refl)), rw answered refl, refl)

  failed-Runs :
      (q : Queried)
      → 2 - left ≡ n
      → 0 < length l.lookupd_http_addrs
      → ask n endpoint ≡ none
      → Runs ask left (suc n) (advanced l) q
      → Runs ask (suc left) n l (record q { asked = endpoint ∷ q.asked })
  unfolding query_retry first_answer turns
  failed-Runs q turn h failed (run, same, rest) =
      let same' : (q.asked, q.answer)
          ≡ first_answer ask (suc n) (
              turns left (suc (wrapped_index l) % length l.lookupd_http_addrs)
                l.lookupd_http_addrs) =
        rw (wrapped_advanced l h) at same in
      (
        rw (next_some l h, query_retry) (rw turn (rw failed (rw run refl))),
        rw failed (ap (λ (x : List Addr × Option (List PeerInfo)). (endpoint ∷ x.0, x.1)) same'),
        rest,
      )

tries-Runs :
    (ask : ℕ → Addr → Option (List PeerInfo)) (left n : ℕ) (l : Lookup)
    → left + n ≡ 3
    → 0 < length l.lookupd_http_addrs
    → (q : Queried) × Runs ask left n l q
unfolding query_retry first_answer turns
tries-Runs ask zero n l e h = (record { asked = []; answer = none; state = l }, (refl, refl, refl))
tries-Runs ask (suc left) n l e h =
    let turn : 2 - left ≡ n = omega arith in
    elim (Option-cases (ask n (endpoint ask left n l))) [
      | inr (peers, answered) ↦
          (found ask left n l peers, answered-Runs ask left n l peers turn h answered)
      | inl failed ↦
          let (q, runs) = tries-Runs ask left (suc n) (advanced l) (omega arith) h in
          (
            record q { asked = endpoint ask left n l ∷ q.asked },
            failed-Runs ask left n l q turn h failed runs,
          )
    ]

-- With one nsqlookupd at least, the asking phase of queryLookupd asks the three endpoints whose turn
-- it is, one after the other, as far as the first that answers; its answer counts, and this phase
-- changes nothing in the consumer but the index.
pub query_retry-first_answer :
    (ask : ℕ → Addr → Option (List PeerInfo)) (l : Lookup)
    → 0 < length l.lookupd_http_addrs
    → (q : Queried) × (query_retry ask 3 l ≡ some q)
      × ((q.asked, q.answer) ≡ first_answer ask 0 (turns 3 (wrapped_index l) l.lookupd_http_addrs))
      × (q.state ≡ record l { lookupd_query_index = q.state.lookupd_query_index })
query_retry-first_answer ask l h =
    let (q, (run, same, rest)) = tries-Runs ask 3 0 l (omega arith) h in (q, run, same, rest)

answered :
    (ask : ℕ → Addr → Option (List PeerInfo)) (dial : Addr → Dialled)
    (filter : List Addr → List Addr) (l : Lookup) (q : Queried)
    → query_retry ask 3 l ≡ some q
    → (l' : Lookup) × (query_lookupd ask dial filter l ≡ some l')
unfolding query_lookupd
answered ask dial filter l q run =
    (connect_answer dial filter q.answer q.state, rw (run, query_lookupd) refl)
