-- ===== src/Consumer/Conns.antt =====
-- conn.go, consumer.go: the connections of a consumer, and the fields of Conn that it works with.
use go_nsq.Base.{
  ℕ, ◌+◌, ◌≤◌, ◌≡◌, refl, Bool, true, List, [], ◌∷◌, map, Option, none, some, arith, inl, inr,
  Bool-cases, if◌then◌else◌,
}
use mathlib.Core.Path.{subst}
use go_nsq.Base.Int.{ℤ, pos_part}
use go_nsq.Base.Bytes.{bytes_eq, All}
use go_nsq.Command.{Command}

abbrev pub Addr : Type 0
Addr = List ℕ

-- `written` holds the commands that reached the socket since the connection was stored in the map,
-- the last one first.
pub record Conn : Type 0 where
  pub addr : Addr
  pub messages_in_flight : ℤ
  pub max_rdy_count : ℤ
  pub rdy_count : ℤ
  pub last_rdy_timestamp : ℤ
  pub last_msg_timestamp : ℤ
  pub close_flag : Bool
  pub written : List Command

-- The map from addresses to connections.
unfoldable pub find : Addr → List Conn → Option Conn
find a [] = none
find a (c ∷ cs) = if bytes_eq a c.addr then some c else find a cs

unfoldable pub modify : Addr → (Conn → Conn) → List Conn → List Conn
modify a f [] = []
modify a f (c ∷ cs) = if bytes_eq a c.addr then f c ∷ cs else c ∷ modify a f cs

unfoldable pub delete : Addr → List Conn → List Conn
delete a [] = []
delete a (c ∷ cs) = if bytes_eq a c.addr then cs else c ∷ delete a cs

abbrev pub addrs : List Conn → List Addr
addrs = map (λ c. c.addr)

-- The RDY counts added up, where none is negative.
abbrev pub sum_rdy : List Conn → ℕ
sum_rdy [] = 0
sum_rdy (c ∷ cs) = pos_part c.rdy_count + sum_rdy cs

module _ {κ} (P : Conn → Type κ) (a : Addr) where
  pub All-find : (cs : List Conn) {c : Conn} → All P cs → find a cs ≡ some c → P c
  unfolding find
  All-find [] h e = cc
  All-find (x ∷ cs) {c} h e = elim (Bool-cases (bytes_eq a x.addr)) [
    | inl hit ↦ let same : x ≡ c = ground arith in subst P same h.0
    | inr miss ↦ let later : find a cs ≡ some c = ground arith in All-find cs h.1 later
  ]

  pub All-modify :
      (f : Conn → Conn) (cs : List Conn)
      → ((c : Conn) → find a cs ≡ some c → P c → P (f c))
      → All P cs
      → All P (modify a f cs)
  unfolding find modify
  All-modify f [] k h = tt
  All-modify f (x ∷ cs) k h = elim (Bool-cases (bytes_eq a x.addr)) [
    | inl hit ↦ rw hit (k x (rw hit refl) h.0, h.1)
    | inr miss ↦ rw miss (h.0, All-modify f cs (λ c e. k c (rw miss e)) h.1)
  ]

pub sum_rdy-modify :
    (a : Addr) (f : Conn → Conn) (cs : List Conn) {c : Conn}
    → find a cs ≡ some c
    → sum_rdy (modify a f cs) + pos_part c.rdy_count ≡ sum_rdy cs + pos_part (f c).rdy_count
unfolding find modify
sum_rdy-modify a f [] e = cc
sum_rdy-modify a f (x ∷ cs) {c} e = ground (arith, sum_rdy-modify a f cs {c = c})

pub find-addr :
    (a : Addr) (cs : List Conn) {c : Conn} → find a cs ≡ some c → bytes_eq a c.addr ≡ true
unfolding find
find-addr a [] e = cc
find-addr a (x ∷ cs) {c} e = ground (arith, find-addr a cs {c = c})

pub rdy-le-sum :
    (a : Addr) (cs : List Conn) {c : Conn} → find a cs ≡ some c → pos_part c.rdy_count ≤ sum_rdy cs
unfolding find
rdy-le-sum a [] e = cc
rdy-le-sum a (x ∷ cs) {c} e = ground (arith, rdy-le-sum a cs {c = c})
