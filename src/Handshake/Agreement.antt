-- ===== src/Handshake/Agreement.antt =====
-- conn.go: what Connect sends, and the stream that comes of it.
use go_nsq.Base.{
  ℕ, ◌≡◌, inl, inr, refl, sym, true, List, [], ◌∷◌, ◌++◌, Option, none, some, Bool-cases,
  Option-cases, if◌then◌else◌, ◌==◌,
}
use mathlib.Core.Path.{subst}
use go_nsq.Base.Int.{ℤ, pos, eqb_ℤ}
use go_nsq.Base.Bytes.{All, bytes_eq}
use go_nsq.Protocol.{Reader, frame_type_error}
use go_nsq.Command.{Command, identify, auth}
use go_nsq.Handshake.{
  Settings, client_info, IdentifyResponse, Stream, Library, Sent, magic, command, Link, Failure,
  done, failed, when, read_identity, on_identified, identify_link, on_auth, auth_link, needs_auth,
  authenticate, new_link, connect,
}
use go_nsq.Handshake.Outcomes.{
  plain, agreed, max_rdy_of, After, After->>=, After-if, Sum-cases, After-weaken, IsAt,
}
use go_nsq.Handshake.Upgrades.{IsProper, IsOver, over, write-After, receive-After, negotiate-After}

module _ (lib : Library) (s : Settings) where
  -- An answer with capabilities was read from the data of a frame.
  abbrev pub IsAnswer : Option IdentifyResponse → Type 0
  IsAnswer none = Unit
  IsAnswer (some resp) = (data' : List ℕ) × (lib.parse_identify data' ≡ some resp)

  abbrev IsIdentified : List Sent → Option IdentifyResponse × Link → Type 0
  IsIdentified sent x = IsAnswer x.0 × IsAt (agreed x.0) sent (max_rdy_of x.0) x.1

  identified :
      {sent : List Sent} (x : Option IdentifyResponse × Link) (resp : IdentifyResponse) (d : List ℕ)
      → x.0 ≡ some resp
      → lib.parse_identify d ≡ some resp
      → IsAt (agreed (some resp)) sent resp.max_rdy_count x.1
      → IsIdentified sent x
  identified {sent} x resp d h e v =
      subst (λ (o : Option IdentifyResponse). IsAnswer o × IsAt (agreed o) sent (max_rdy_of o) x.1)
        (sym h) ((d, e), v)

  module _ {sent : List Sent} (proper : All (IsProper lib s) sent) where
    read_identity-After :
        (d : List ℕ) (l : Link)
        → IsAt plain sent (pos 2500) l
        → After (IsIdentified sent) (IsOver lib s) (read_identity lib (lib.parse_identify d) l)
    read_identity-After d l w = elim (Option-cases (lib.parse_identify d)) [
      | inl e ↦ rw e (over lib s proper w)
      | inr (resp, e) ↦ rw e (
          After-weaken
            (λ x. (x.0 ≡ some resp) × IsAt (agreed (some resp)) sent resp.max_rdy_count x.1)
            (IsIdentified sent) (IsOver lib s) _ (negotiate-After lib s resp l proper w)
            (λ x (h, v). identified x resp d h e v))
    ]

    on_identified-After :
        (x : (ℤ × List ℕ) × Link)
        → IsAt plain sent (pos 2500) x.1
        → After (IsIdentified sent) (IsOver lib s) (on_identified lib x)
    unfolding on_identified
    on_identified-After ((t, []), l) w =
        After-if (IsIdentified sent) (IsOver lib s) (eqb_ℤ t frame_type_error) _ _
          (λ _. over lib s proper w) (λ _. tt)
    on_identified-After ((t, b ∷ bs), l) w =
        After-if (IsIdentified sent) (IsOver lib s) (eqb_ℤ t frame_type_error) _ _
          (λ _. over lib s proper w)
          (λ _.
            After-if (IsIdentified sent) (IsOver lib s) (b == b'{') _ _
              (λ _. read_identity-After (b ∷ bs) l w) (λ _. (tt, w)))

  abbrev pub conversation : Command → Option IdentifyResponse → List Sent
  conversation cmd resp =
      magic
      ∷ command plain cmd
      ∷ (if needs_auth resp then command (agreed resp) (auth s.auth_secret) ∷ [] else [])

  -- What Connect has agreed on when it returns without an error.
  pub record IsAgreed (x : Option IdentifyResponse × Link) : Type 0 where
    pub identity :
        (cmd : Command) × (identify (lib.marshal (client_info s)) ≡ inr cmd)
        × (x.1.sent ≡ conversation cmd x.0)
    pub answer : IsAnswer x.0
    pub agreed_stream : x.1.stream ≡ agreed x.0
    pub most : x.1.max_rdy_count ≡ max_rdy_of x.0
    pub running : x.1.loops ≡ true

  abbrev hello : Command → List Sent
  hello cmd = magic ∷ command plain cmd ∷ []

  identify_link-After :
      (l : Link)
      → IsAt plain (magic ∷ []) (pos 2500) l
      → After
          (λ x.
            (cmd : Command) × (identify (lib.marshal (client_info s)) ≡ inr cmd)
            × IsIdentified (hello cmd) x)
          (IsOver lib s)
          (identify_link lib s l)
  unfolding identify_link
  identify_link-After l w = elim (Sum-cases (identify (lib.marshal (client_info s)))) [
    | inl (e, h) ↦ rw (h, identify_link) (over lib s (tt, tt) w)
    | inr (cmd, h) ↦
        rw (h, identify_link)
          (After->>= (λ x. IsAt plain (hello cmd) (pos 2500) x.1) _ (IsOver lib s) _ _
            (write-After lib s (tt, tt) cmd l w)
            (λ x v.
              After->>= (λ y. IsAt plain (hello cmd) (pos 2500) y.1) _ (IsOver lib s) _ _
                (receive-After lib s (tt, (inl (refl, h), tt)) x.1 v)
                (λ y u.
                  After-weaken (IsIdentified (hello cmd)) _ (IsOver lib s) _
                    (on_identified-After (tt, (inl (refl, h), tt)) y u) (λ z t. (cmd, refl, t)))))
  ]

  on_auth-After :
      {sent : List Sent} {st : Stream} {most : ℤ} (proper : All (IsProper lib s) sent)
      (x : (ℤ × List ℕ) × Link)
      → IsAt st sent most x.1
      → After (λ y. IsAt st sent most y.1) (IsOver lib s) (on_auth lib x)
  on_auth-After {sent} {st} {most} proper ((t, d), l) w =
      After-if (λ y. IsAt st sent most y.1) (IsOver lib s) (eqb_ℤ t frame_type_error) _ _
        (λ _. over lib s proper w)
        (λ _.
          After-if (λ y. IsAt st sent most y.1) (IsOver lib s) (lib.parse_auth d) _ _ (λ _. w)
            (λ _. over lib s proper w))

  auth_link-After :
      {sent : List Sent} {st : Stream} {most : ℤ} (l : Link)
      → All (IsProper lib s) sent
      → All (IsProper lib s) (sent ++ (command st (auth s.auth_secret) ∷ []))
      → IsAt st sent most l
      → After
          (λ x. IsAt st (sent ++ (command st (auth s.auth_secret) ∷ [])) most x.1)
          (IsOver lib s)
          (authenticate lib s l)
  unfolding authenticate auth_link
  auth_link-After {sent} {st} {most} l proper proper' w =
      let sent' = sent ++ (command st (auth s.auth_secret) ∷ []) in
      After-if (λ x. IsAt st sent' most x.1) (IsOver lib s) (bytes_eq s.auth_secret []) _ _
        (λ _. over lib s proper w)
        (λ _.
          After->>= (λ x. IsAt st sent' most x.1) (λ x. IsAt st sent' most x.1) (IsOver lib s) _ _
            (write-After lib s proper (auth s.auth_secret) l w)
            (λ x v.
              After->>= (λ y. IsAt st sent' most y.1) (λ y. IsAt st sent' most y.1) (IsOver lib s) _
                _ (receive-After lib s proper' x.1 v) (λ y u. on_auth-After proper' y u)))

  authenticate-After :
      (cmd : Command) (resp : Option IdentifyResponse) (l : Link)
      → identify (lib.marshal (client_info s)) ≡ inr cmd
      → IsIdentified (hello cmd) (resp, l)
      → After
          (λ x. IsAt (agreed resp) (conversation cmd resp) (max_rdy_of resp) x.1)
          (IsOver lib s)
          (when (needs_auth resp) (authenticate lib s) l)
  authenticate-After cmd none l h (_, w) = w
  authenticate-After cmd (some resp) l h ((d, e), w) = elim (Bool-cases resp.auth_required) [
    | inl asked ↦
        let greeted : All (IsProper lib s) (hello cmd) = (tt, (inl (refl, h), tt)) in
        rw asked (
          auth_link-After l greeted (tt, (inl (refl, h), (inr (d, resp, e, asked, refl, refl), tt)))
            w)
    | inr unasked ↦ rw unasked w
  ]

  connect-After :
      (r : Reader) (writes : ℕ) → After IsAgreed (IsOver lib s) (connect lib s (new_link r writes))
  unfolding connect
  connect-After r writes =
      After->>= (λ x. IsAt plain (magic ∷ []) (pos 2500) x.1) IsAgreed (IsOver lib s) _ _
        (After-if _ (IsOver lib s) (writes == 0) _ _ (λ _. (refl, tt))
          (λ _. record { on_stream = refl; has_sent = refl; has_most = refl; no_loops = refl }))
        (λ x v.
          After->>=
            (λ y.
              (cmd : Command) × (identify (lib.marshal (client_info s)) ≡ inr cmd)
              × IsIdentified (hello cmd) y)
            IsAgreed (IsOver lib s) _ _ (identify_link-After x.1 v)
            (λ y (cmd, h, u).
              After->>= (λ z. IsAt (agreed y.0) (conversation cmd y.0) (max_rdy_of y.0) z.1)
                IsAgreed (IsOver lib s) _ _ (authenticate-After cmd y.0 y.1 h u)
                (λ z t. record {
                  identity = (cmd, h, t.has_sent);
                  answer = u.0;
                  agreed_stream = t.on_stream;
                  most = t.has_most;
                  running = refl;
                })))

-- When Connect returns without an error, it has sent the magic bytes and IDENTIFY in plain, and then
-- AUTH exactly if the answer requires it, on the stream of the answer: TLS where it says so, with
-- Snappy or else Deflate on top. The limit of RDY is that of the answer, or 2500, and the loops run.
pub connect-IsAgreed :
    (lib : Library) (s : Settings) (r : Reader) (writes : ℕ) (x : Option IdentifyResponse × Link)
    → connect lib s (new_link r writes) ≡ done x
    → IsAgreed lib s x
connect-IsAgreed lib s r writes x e =
    subst (After (IsAgreed lib s) (IsOver lib s)) e (connect-After lib s r writes)

-- When Connect returns an error, no loop runs; and what was sent is the magic bytes, IDENTIFY in
-- plain, and the secret at most on the stream that an answer to IDENTIFY asked for, which is TLS
-- where the answer says so.
pub connect-IsOver :
    (lib : Library) (s : Settings) (r : Reader) (writes : ℕ) (e : Failure) (l : Link)
    → connect lib s (new_link r writes) ≡ failed e l
    → IsOver lib s l
connect-IsOver lib s r writes e l h =
    subst (After (IsAgreed lib s) (IsOver lib s)) h (connect-After lib s r writes)
