-- ===== src/Lookup.antt =====
-- consumer.go: the nsqds and the nsqlookupds that a consumer knows.
pub mod Endpoints
pub mod Request
pub mod Steps
pub mod Book
pub mod Rounds
pub mod Queries
pub mod Removal
pub mod Tests
use go_nsq.Base.{
  ℕ, zero, suc, ◌+◌, ◌%◌, ◌≡◌, Bool, true, false, ◌&&◌, ◌||◌, List, [], ◌∷◌, ◌++◌, Option, none,
  some, ltb, leb, if◌then◌else◌, ◌==◌, length, take, drop, get_elem?,
}
use go_nsq.Base.Bytes.{bytes_eq}

abbrev pub Addr : Type 0
Addr = List ℕ

-- The keys of the two maps of connections, the lists of addresses, and the flags that guard them.
-- `looping` says that lookupdLoop was started.
pub record Lookup : Type 0 where
  pub stop_flag : Bool
  pub connected_flag : Bool
  pub running_handlers : ℕ
  pub pending_connections : List Addr
  pub connections : List Addr
  pub nsqd_tcp_addrs : List Addr
  pub lookupd_http_addrs : List Addr
  pub lookupd_query_index : ℕ
  pub looping : Bool

abbrev pub new_lookup : Lookup
new_lookup = record {
  stop_flag = false;
  connected_flag = false;
  running_handlers = 0;
  pending_connections = [];
  connections = [];
  nsqd_tcp_addrs = [];
  lookupd_http_addrs = [];
  lookupd_query_index = 0;
  looping = false;
}

abbrev pub one_on : Option ℕ → Option ℕ
one_on none = none
one_on (some i) = some (suc i)

-- `none` is the result -1.
unfoldable pub index_of : Addr → List Addr → Option ℕ
index_of n [] = none
index_of n (a ∷ h) = let rest = index_of n h in if bytes_eq n a then some 0 else one_on rest

-- append(xs[:i], xs[i+1:]...)
abbrev pub slice_delete : ℕ → List Addr → List Addr
slice_delete i xs = take i xs ++ drop (suc i) xs

-- A key leaves a map.
unfoldable pub delete : Addr → List Addr → List Addr
delete a [] = []
delete a (b ∷ bs) = let rest = delete a bs in if bytes_eq a b then rest else b ∷ rest

abbrev pub has : Addr → List Addr → Bool
has a [] = false
has a (b ∷ bs) = bytes_eq a b || has a bs

pub data ConnectError : Type 0 where
  consumer_stopped no_handlers already_connected connect_failed subscribe_failed bad_address :
      ConnectError

pub data Result : Type 0 where
  ok : Lookup → Result
  refused : ConnectError → Lookup → Result

abbrev pub found : Option ℕ → Bool
found none = false
found (some i) = true

abbrev pub with_addr : Addr → List Addr → List Addr
with_addr a h = if found (index_of a h) then h else h ++ (a ∷ [])

-- ConnectToNSQD as far as the first unlock.
unfoldable pub begin_connect : Addr → Lookup → Result
unfolding index_of
begin_connect addr l =
    if l.stop_flag
    then refused consumer_stopped l
    else if l.running_handlers == 0
    then refused no_handlers l
    else if has addr l.connections || has addr l.pending_connections
    then refused already_connected (record l { connected_flag = true })
    else ok (record l {
      connected_flag = true;
      pending_connections = addr ∷ l.pending_connections;
      nsqd_tcp_addrs = with_addr addr l.nsqd_tcp_addrs;
    })

-- cleanupConnection
unfoldable pub cleanup_connection : Addr → Lookup → Lookup
unfolding delete
cleanup_connection addr l = record l { pending_connections = delete addr l.pending_connections }

-- A subscribed connection goes from one map to the other.
unfoldable pub join_connections : Addr → Lookup → Lookup
unfolding delete
join_connections addr l = record l {
  pending_connections = delete addr l.pending_connections;
  connections = addr ∷ delete addr l.connections;
}

-- What Connect and the write of SUB come to.
pub data Dialled : Type 0 where
  no_connection no_subscription subscribed : Dialled

abbrev pub finish_connect : Dialled → Addr → Lookup → Result
finish_connect no_connection addr l = refused connect_failed (cleanup_connection addr l)
finish_connect no_subscription addr l = refused subscribe_failed (cleanup_connection addr l)
finish_connect subscribed addr l = ok (join_connections addr l)

abbrev pub and_then : Result → (Lookup → Result) → Result
and_then (ok l) f = f l
and_then (refused e l) f = refused e l

-- ConnectToNSQD with nothing between its two halves.
unfoldable pub connect_to_nsqd : Dialled → Addr → Lookup → Result
unfolding begin_connect cleanup_connection join_connections
connect_to_nsqd d addr l = and_then (begin_connect addr l) (finish_connect d addr)

-- ConnectToNSQDs stops at the first error.
unfoldable pub connect_to_nsqds : (Addr → Dialled) → List Addr → Lookup → Result
unfolding connect_to_nsqd
connect_to_nsqds dial [] l = ok l
connect_to_nsqds dial (a ∷ rest) l =
    and_then (connect_to_nsqd (dial a) a l) (connect_to_nsqds dial rest)

pub data DisconnectError : Type 0 where
  not_connected only_remaining wrong_address : DisconnectError

-- The connection that DisconnectFromNSQD closes.
pub data Closed : Type 0 where
  connection pending nothing : Closed

-- DisconnectFromNSQD: the connection leaves its map when it has closed.
unfoldable pub disconnect_from_nsqd : Addr → Lookup → Option DisconnectError × Closed × Lookup
unfolding index_of
disconnect_from_nsqd addr l = elim (index_of addr l.nsqd_tcp_addrs) [
  | none ↦ (some not_connected, nothing, l)
  | some idx ↦ (
    none,
    if has addr l.connections
        then connection
        else if has addr l.pending_connections
        then pending
        else nothing,
    record l { nsqd_tcp_addrs = slice_delete idx l.nsqd_tcp_addrs },
  )
]

-- DisconnectFromNSQLookupd; the address is what buildLookupAddr made of the argument.
unfoldable pub disconnect_from_lookupd : Option Addr → Lookup → Option DisconnectError × Lookup
unfolding index_of
disconnect_from_lookupd none l = (some wrong_address, l)
disconnect_from_lookupd (some parsed) l = elim (index_of parsed l.lookupd_http_addrs) [
  | none ↦ (some not_connected, l)
  | some idx ↦
      if length l.lookupd_http_addrs == 1
      then (some only_remaining, l)
      else (none, record l { lookupd_http_addrs = slice_delete idx l.lookupd_http_addrs })
]

abbrev pub is_first : Addr → Lookup → Bool
is_first a l = length (l.lookupd_http_addrs ++ (a ∷ [])) == 1

abbrev pub insert_lookupd : Addr → Lookup → Lookup
insert_lookupd a l = record l {
  connected_flag = true;
  lookupd_http_addrs = l.lookupd_http_addrs ++ (a ∷ []);
  looping = l.looping || is_first a l;
}

-- ConnectToNSQLookupd as far as its unlock; the flag tells that it is the first address, which
-- starts the loop.
unfoldable pub add_lookupd : Option Addr → Lookup → Result × Bool
add_lookupd parsed l =
    if l.stop_flag
    then (refused consumer_stopped l, false)
    else if l.running_handlers == 0
    then (refused no_handlers l, false)
    else elim parsed [
      | none ↦ (refused bad_address l, false)
      | some a ↦
          if has a l.lookupd_http_addrs
          then (ok (record l { connected_flag = true }), false)
          else (ok (insert_lookupd a l), is_first a l)
    ]

-- What follows the removal of a connection in onConnClose.
pub data Followup : Type 0 where
  stops rechecks reconnects rests : Followup

unfoldable pub on_conn_close : Addr → Lookup → Lookup × Followup
unfolding delete index_of
on_conn_close addr l =
    let left = record l { connections = delete addr l.connections } in
    (
      left,
      if l.stop_flag
          then stops
          else if ltb 0 (length l.lookupd_http_addrs)
          then rechecks
          else if found (index_of addr l.nsqd_tcp_addrs)
          then reconnects
          else rests,
    )

abbrev pub goes_on : Result → Lookup × Bool
goes_on (ok l) = (l, false)
goes_on (refused already_connected l) = (l, false)
goes_on (refused _ l) = (l, true)

-- One round of the goroutine that connects again; the flag tells that another one follows.
unfoldable pub reconnect : Dialled → Addr → Lookup → Lookup × Bool
unfolding connect_to_nsqd index_of
reconnect d addr l =
    if l.stop_flag
    then (l, false)
    else if found (index_of addr l.nsqd_tcp_addrs)
    then goes_on (connect_to_nsqd d addr l)
    else (l, false)
