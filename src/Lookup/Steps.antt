-- ===== src/Lookup/Steps.antt =====
-- consumer.go: the steps of ConnectToNSQD and the other methods, in any order.
use go_nsq.Base.{
  ℕ, ◌+◌, ◌≡◌, inl, inr, true, false, ◌∷◌, Option, none, some, arith, Option-cases, length,
  get_elem?, ◌%◌,
}
use go_nsq.Lookup.{
  Addr, Lookup, has, with_addr, disconnect_from_nsqd, disconnect_from_lookupd, add_lookupd, ok,
  begin_connect, cleanup_connection, join_connections, on_conn_close,
}
use go_nsq.Lookup.Endpoints.{next_lookupd_endpoint, wrapped_index}

-- One step. A goroutine in ConnectToNSQD holds the lock for `begin`, and again for what follows its
-- dial; between them any other step may come. A closing connection may still be pending.
pub data Step : Lookup → Lookup → Type 0 where
  add_handlers :
      (l : Lookup) (n : ℕ) → Step l (record l { running_handlers = l.running_handlers + n })
  stop : (l : Lookup) → Step l (record l { stop_flag = true })
  begin : {l l' : Lookup} (addr : Addr) → begin_connect addr l ≡ ok l' → Step l l'
  fail :
      (l : Lookup) (addr : Addr)
      → has addr l.pending_connections ≡ true
      → Step l (cleanup_connection addr l)
  join :
      (l : Lookup) (addr : Addr)
      → has addr l.pending_connections ≡ true
      → Step l (join_connections addr l)
  close : (l : Lookup) (addr : Addr) → Step l (on_conn_close addr l).0
  disconnect : (l : Lookup) (addr : Addr) → Step l (disconnect_from_nsqd addr l).2
  add : {l l' : Lookup} (parsed : Option Addr) → (add_lookupd parsed l).0 ≡ ok l' → Step l l'
  remove : (l : Lookup) (parsed : Option Addr) → Step l (disconnect_from_lookupd parsed l).1
  ask :
      {l l' : Lookup} (endpoint : Addr) → next_lookupd_endpoint l ≡ some (endpoint, l') → Step l l'

pub data Reach (s : Lookup) : Lookup → Type 0 where
  start : Reach s s
  step : {p q : Lookup} → Reach s p → Step p q → Reach s q

-- A test of begin_connect that passed.
pub begin_connect-ok :
    (addr : Addr) (l : Lookup) {l' : Lookup}
    → begin_connect addr l ≡ ok l'
    → (has addr l.connections ≡ false)
      × (has addr l.pending_connections ≡ false)
      × (record l {
        connected_flag = true;
        pending_connections = addr ∷ l.pending_connections;
        nsqd_tcp_addrs = with_addr addr l.nsqd_tcp_addrs;
      }
          ≡ l')
unfolding begin_connect
begin_connect-ok addr l h = (ground arith, ground arith, ground arith)

abbrev pub advanced : Lookup → Lookup
advanced l = record l { lookupd_query_index = (wrapped_index l + 1) % length l.lookupd_http_addrs }

pub next-ok :
    (l : Lookup) (endpoint : Addr) {l' : Lookup}
    → next_lookupd_endpoint l ≡ some (endpoint, l')
    → advanced l ≡ l'
unfolding next_lookupd_endpoint
next-ok l endpoint {l'} h = elim (Option-cases (get_elem? l.lookupd_http_addrs (wrapped_index l))) [
  | inl e ↦
      let got : Path (Option (Addr × Lookup)) none (some (endpoint, l')) =
        rw (e, next_lookupd_endpoint) at h in
      absurd (cc)
  | inr (a, e) ↦
      let got : Path (Option (Addr × Lookup)) (some (a, advanced l)) (some (endpoint, l')) =
        rw (e, next_lookupd_endpoint) at h in
      cc
]
