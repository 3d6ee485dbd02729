-- ===== src/Lookup/Endpoints.antt =====
-- consumer.go: the nsqlookupd to ask next, and the query with its retries.
use go_nsq.Base.{
  ℕ, zero, suc, ◌+◌, ◌-◌, ◌%◌, Bool, false, ◌||◌, List, [], ◌∷◌, ◌++◌, Option, none, some, map,
  codes, leb, if◌then◌else◌, ◌==◌, length, get_elem?,
}
use go_nsq.Base.Int.{ℤ}
use go_nsq.Base.Decimal.{itoa}
use go_nsq.Lookup.{Addr, Lookup, Result, ok, refused, Dialled, connect_to_nsqd}

abbrev pub wrapped_index : Lookup → ℕ
wrapped_index l =
    if leb (length l.lookupd_http_addrs) l.lookupd_query_index then 0 else l.lookupd_query_index

-- nextLookupdEndpoint; with no address at all the index panics.
unfoldable pub next_lookupd_endpoint : Lookup → Option (Addr × Lookup)
next_lookupd_endpoint l =
    let i = wrapped_index l in
    elim (get_elem? l.lookupd_http_addrs i) [
      | none ↦ none
      | some addr ↦
          some (addr, record l { lookupd_query_index = (i + 1) % length l.lookupd_http_addrs })
    ]

-- The fields of peerInfo that are read.
pub record PeerInfo : Type 0 where
  pub broadcast_address : List ℕ
  pub tcp_port : ℤ

pub record Queried : Type 0 where
  pub asked : List Addr
  pub answer : Option (List PeerInfo)
  pub state : Lookup

abbrev pub ask_first : Addr → Option Queried → Option Queried
ask_first addr none = none
ask_first addr (some q) = some (record q { asked = addr ∷ q.asked })

-- The requests of queryLookupd; `ask` is the answer to the n-th of them, `none` an error, and
-- `left` counts the tries that are left.
unfoldable pub query_retry : (ℕ → Addr → Option (List PeerInfo)) → ℕ → Lookup → Option Queried
unfolding next_lookupd_endpoint
query_retry ask zero l = some (record { asked = []; answer = none; state = l })
query_retry ask (suc left) l = elim (next_lookupd_endpoint l) [
  | none ↦ none
  | some (endpoint, l') ↦ elim (ask (2 - left) endpoint) [
    | some peers ↦ some (record { asked = endpoint ∷ []; answer = some peers; state = l' })
    | none ↦ ask_first endpoint (query_retry ask left l')
  ]
]

abbrev has_colon : List ℕ → Bool
has_colon [] = false
has_colon (c ∷ cs) = c == b':' || has_colon cs

-- net.JoinHostPort
abbrev pub join_host_port : List ℕ → List ℕ → Addr
join_host_port host port =
    if has_colon host then codes "[" ++ host ++ codes "]:" ++ port else host ++ codes ":" ++ port

unfoldable pub nsqd_addrs : List PeerInfo → List Addr
nsqd_addrs = map (λ p. join_host_port p.broadcast_address (itoa p.tcp_port))

abbrev pub result_state : Result → Lookup
result_state (ok l) = l
result_state (refused e l) = l

-- Every address is tried, whatever becomes of the others.
unfoldable pub connect_found : (Addr → Dialled) → List Addr → Lookup → Lookup
unfolding connect_to_nsqd
connect_found dial [] l = l
connect_found dial (a ∷ rest) l =
    connect_found dial rest (result_state (connect_to_nsqd (dial a) a l))

abbrev pub connect_answer :
    (Addr → Dialled) → (List Addr → List Addr) → Option (List PeerInfo) → Lookup → Lookup
connect_answer dial filter none l = l
connect_answer dial filter (some peers) l = connect_found dial (filter (nsqd_addrs peers)) l

-- queryLookupd; `filter` is the delegate's DiscoveryFilter, or the identity.
unfoldable pub query_lookupd :
    (ℕ → Addr → Option (List PeerInfo))
    → (Addr → Dialled)
    → (List Addr → List Addr)
    → Lookup
    → Option Lookup
unfolding query_retry nsqd_addrs connect_found
query_lookupd ask dial filter l = elim (query_retry ask 3 l) [
  | none ↦ none
  | some q ↦ some (connect_answer dial filter q.answer q.state)
]
