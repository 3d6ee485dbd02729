-- ===== src/Lookup/Tests.antt =====
-- consumer.go, api_request.go: a consumer that connects, and one that asks nsqlookupds.
use go_nsq.Base.{
  ℕ, ◌+◌, ◌≤◌, ◌<◌, ◌≡◌, ◌⊎◌, inl, inr, refl, Bool, true, false, List, [], ◌∷◌, ◌++◌, Option, none,
  some, arith, codes, length, take, drop, if◌then◌else◌, ◌==◌,
}
use go_nsq.Base.Int.{pos}
use go_nsq.Base.Bytes.{bytes_eq}
use go_nsq.Lookup.{
  Addr, Lookup, new_lookup, ok, refused, already_connected, begin_connect, join_connections,
  on_conn_close, subscribed, disconnect_from_nsqd, disconnect_from_lookupd, only_remaining,
  add_lookupd, connect_to_nsqd,
}
use go_nsq.Lookup.Endpoints.{PeerInfo, Queried, query_retry, wrapped_index, nsqd_addrs}
use go_nsq.Lookup.Steps.{Step, Reach}
use go_nsq.Lookup.Book.{IsBook, Reach-IsBook}
use go_nsq.Lookup.Rounds.{successive, successive_round, turns}
use go_nsq.Lookup.Queries.{first_answer, query_retry-first_answer}
use go_nsq.Lookup.Request.{UrlLibrary, negotiate, reply, got_response, build_lookup_addr}

abbrev a1 : Addr
a1 = codes "a:1"

abbrev handled : Lookup
handled = record new_lookup { running_handlers = 1 }

abbrev dialling_a1 : Lookup
dialling_a1 = record handled {
  connected_flag = true;
  pending_connections = a1 ∷ [];
  nsqd_tcp_addrs = a1 ∷ [];
}

begins : begin_connect a1 handled ≡ ok dialling_a1
unfolding begin_connect
begins = refl

reach_handled : Reach new_lookup handled
reach_handled = Reach.step Reach.start (Step.add_handlers new_lookup 1)

reach_dialling : Reach new_lookup dialling_a1
reach_dialling = Reach.step reach_handled (Step.begin a1 begins)

-- The connection closes before ConnectToNSQD enters it in the map, where it stays from then on.
abbrev closed_early : Lookup
closed_early = (on_conn_close a1 dialling_a1).0

abbrev entered_late : Lookup
entered_late = join_connections a1 closed_early

reach_late : Reach new_lookup entered_late
unfolding on_conn_close bytes_eq
reach_late =
    Reach.step (Reach.step reach_dialling (Step.close dialling_a1 a1))
      (Step.join closed_early a1 refl)

stays_for_ever :
    (entered_late.connections ≡ a1 ∷ [])
    × (connect_to_nsqd subscribed a1 entered_late ≡ refused already_connected entered_late)
unfolding join_connections on_conn_close connect_to_nsqd bytes_eq
stays_for_ever = (refl, refl)

Reach-IsBook_example : IsBook entered_late
Reach-IsBook_example = Reach-IsBook reach_late

disconnects : (disconnect_from_nsqd a1 dialling_a1).2.nsqd_tcp_addrs ≡ []
unfolding disconnect_from_nsqd bytes_eq
disconnects = refl

-- Two nsqlookupds; the index stands behind the last.
abbrev two : Lookup
two = record handled {
  lookupd_http_addrs = codes "x" ∷ codes "y" ∷ [];
  lookupd_query_index = 1;
  looping = true;
}

abbrev one : Lookup
one = record handled { connected_flag = true; lookupd_http_addrs = codes "x" ∷ []; looping = true }

adds : (add_lookupd (some (codes "x")) handled) ≡ (ok one, true)
unfolding add_lookupd
adds = refl

keeps_last : (disconnect_from_lookupd (some (codes "x")) one).0 ≡ some only_remaining
unfolding disconnect_from_lookupd bytes_eq
keeps_last = refl

successive_round_example :
    (l' : Lookup) × (successive (length two.lookupd_http_addrs) two
      ≡ some (
        drop (wrapped_index two) two.lookupd_http_addrs
            ++ take (wrapped_index two) two.lookupd_http_addrs,
        l',
      ))
successive_round_example = successive_round two (omega arith)

abbrev peers : List PeerInfo
peers = record { broadcast_address = codes "::1"; tcp_port = pos 4150 } ∷ []

abbrev second_answers : ℕ → Addr → Option (List PeerInfo)
second_answers n a = if n == 1 then some peers else none

joined_addr : nsqd_addrs peers ≡ codes "[::1]:4150" ∷ []
unfolding nsqd_addrs go_nsq.Base.Decimal.itoa go_nsq.Base.Decimal.digits_from
joined_addr = refl

query_retry-first_answer_example :
    (q : Queried) × (query_retry second_answers 3 two ≡ some q)
    × ((q.asked, q.answer)
        ≡ first_answer second_answers 0 (turns 3 (wrapped_index two) two.lookupd_http_addrs))
    × (q.state ≡ record two { lookupd_query_index = q.state.lookupd_query_index })
query_retry-first_answer_example = query_retry-first_answer second_answers two (omega arith)

abbrev body_of : List ℕ → Option (List ℕ)
body_of b = some b

empty_is_braces :
    negotiate body_of body_of
      (some (record { status_code = 200; content_type = []; body = some [] }))
    ≡ reply (codes "{}")
unfolding negotiate bytes_eq
empty_is_braces = refl

not_found :
    negotiate body_of body_of
      (some (record { status_code = 404; content_type = []; body = some [] }))
    ≡ got_response
unfolding negotiate
not_found = refl

-- A parser for one address.
abbrev urls : UrlLibrary
urls = record {
  parse = λ s.
      if bytes_eq s (codes "http://h:4161")
      then some (record { rest = codes "http://h"; port = codes "4161"; path = []; raw_query = [] })
      else none;
  add_topic = λ query topic. query ++ codes "topic=" ++ topic;
  show = λ u. u.rest ++ codes ":" ++ u.port ++ u.path ++ codes "?" ++ u.raw_query;
}

lookup_addr :
    build_lookup_addr urls (codes "h:4161") (codes "t")
    ≡ some (codes "http://h:4161/lookup?topic=t")
unfolding build_lookup_addr bytes_eq
lookup_addr = refl
