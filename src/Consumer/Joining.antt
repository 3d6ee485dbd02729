-- ===== src/Consumer/Joining.antt =====
-- consumer.go: a connection enters the map at the end of ConnectToNSQD, and leaves it in onConnClose.
use go_nsq.Base.{Bool, true, false, ◌&&◌, ◌||◌, ◌∷◌, Option, none, some, length}
use go_nsq.Base.Int.{pos, ◌+ℤ◌, ◌-ℤ◌, ltb_ℤ, eqb_ℤ}
use go_nsq.Base.Words.{wrap64, wrap32}
use go_nsq.Consumer.{Consumer, in_backoff, delete_timer, find_timer}
use go_nsq.Consumer.Conns.{Conn, Addr, find, delete, addrs}
use go_nsq.Consumer.Rdy.{maybe_update_all}

-- The subscribed connection is stored under its address, and every connection is sent its count.
unfoldable pub add_conn : Conn → Consumer → Consumer
add_conn c r =
    let conns = c ∷ delete c.addr r.connections in
    maybe_update_all (addrs conns) (record r { connections = conns })

abbrev is_some {ℓ} : {A : Type ℓ} → Option A → Bool
is_some none = false
is_some (some x) = true

-- onConnClose up to the store of needRDYRedistributed. The RDY count is the one of the connection
-- that closes; the entry that goes is the one under its address, whichever connection that is.
unfoldable pub on_conn_close : Conn → Consumer → Consumer
on_conn_close c r =
    let conns = delete c.addr r.connections in
    record r {
      total_rdy_count = wrap64 (r.total_rdy_count +ℤ wrap64 (pos 0 -ℤ c.rdy_count));
      rdy_retry_timers = delete_timer c.addr r.rdy_retry_timers;
      connections = conns;
      need_rdy_redistributed =
          r.need_rdy_redistributed
          || ((is_some (find_timer c.addr r.rdy_retry_timers) || ltb_ℤ (pos 0) c.rdy_count)
              && (eqb_ℤ (wrap32 (pos (length conns))) r.max_in_flight || in_backoff r));
    }

-- The same for the connection that is stored under an address.
unfoldable pub stored_close : Addr → Consumer → Consumer
unfolding on_conn_close
stored_close a r = elim (find a r.connections) [ none ↦ r | some c ↦ on_conn_close c r ]
