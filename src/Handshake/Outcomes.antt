-- ===== src/Handshake/Outcomes.antt =====
-- conn.go: what comes after a call of Connect's, and how far the conversation is.
use go_nsq.Base.{
  ◌≡◌, ◌⊎◌, inl, inr, refl, Bool, true, false, List, Option, none, some, if◌then◌else◌,
}
use go_nsq.Base.Int.{ℤ, pos}
use go_nsq.Protocol.{Error, Result, err, ok}
use go_nsq.Handshake.{
  IdentifyResponse, uncompressed, deflated, snappied, Stream, Sent, Link, Outcome, done, failed,
  panicked, ◌>>=◌,
}

abbrev pub plain : Stream
plain = record { tls = false; compression = uncompressed }

-- The stream that an answer to IDENTIFY asks for: compression goes over TLS, Snappy before Deflate.
abbrev pub agreed_of : Bool → Bool → Bool → Stream
agreed_of tls deflate snappy = record {
  tls = tls;
  compression = if snappy then snappied else if deflate then deflated else uncompressed;
}

abbrev pub agreed : Option IdentifyResponse → Stream
agreed none = plain
agreed (some resp) = agreed_of resp.tls_v1 resp.deflate resp.snappy

abbrev pub max_rdy_of : Option IdentifyResponse → ℤ
max_rdy_of none = pos 2500
max_rdy_of (some resp) = resp.max_rdy_count

-- What comes after, whether the call ends well or with an error.
abbrev pub After {ℓ} : {A : Type ℓ} → (A × Link → Type 0) → (Link → Type 0) → Outcome A → Type 0
After Q F (done x) = Q x
After Q F (failed e l) = F l
After Q F panicked = Unit

pub After->>= {κ ℓ} :
    {B : Type κ} {A : Type ℓ} (Q : B × Link → Type 0) (R : A × Link → Type 0) (F : Link → Type 0)
    (first : Outcome B) (next : B × Link → Outcome A)
    → After Q F first
    → ((x : B × Link) → Q x → After R F (next x))
    → After R F (first >>= next)
After->>= Q R F (done x) next q f = f x q
After->>= Q R F (failed e l) next q f = q
After->>= Q R F panicked next q f = tt

pub After-if {ℓ} :
    {A : Type ℓ} (Q : A × Link → Type 0) (F : Link → Type 0) (b : Bool) (x y : Outcome A)
    → (b ≡ true → After Q F x)
    → (b ≡ false → After Q F y)
    → After Q F (if b then x else y)
After-if Q F true x y p q = p refl
After-if Q F false x y p q = q refl

pub Result-cases {ℓ} :
    {A : Type ℓ} (r : Result A) → ((e : Error) × (r ≡ err e)) ⊎ ((x : A) × (r ≡ ok x))
Result-cases (err e) = inl (e, refl)
Result-cases (ok x) = inr (x, refl)

pub Sum-cases {ℓ κ} :
    {A : Type ℓ} {B : Type κ} (r : A ⊎ B) → ((a : A) × (r ≡ inl a)) ⊎ ((b : B) × (r ≡ inr b))
Sum-cases (inl a) = inl (a, refl)
Sum-cases (inr b) = inr (b, refl)

pub After-weaken {ℓ} :
    {A : Type ℓ} (Q R : A × Link → Type 0) (F : Link → Type 0) (o : Outcome A)
    → After Q F o
    → ((x : A × Link) → Q x → R x)
    → After R F o
After-weaken Q R F (done x) q f = f x q
After-weaken Q R F (failed e l) q f = q
After-weaken Q R F panicked q f = tt

-- How far the conversation has come.
pub record IsAt (st : Stream) (sent : List Sent) (most : ℤ) (l : Link) : Type 0 where
  pub on_stream : l.stream ≡ st
  pub has_sent : l.sent ≡ sent
  pub has_most : l.max_rdy_count ≡ most
  pub no_loops : l.loops ≡ false
