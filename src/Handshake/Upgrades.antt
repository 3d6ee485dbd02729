-- ===== src/Handshake/Upgrades.antt =====
-- conn.go: identify as far as the stream is upgraded.
use go_nsq.Base.{
  ℕ, ◌≡◌, ◌⊎◌, inl, inr, refl, sym, ap, ◌∙◌, Bool, true, false, ◌&&◌, List, [], ◌∷◌, ◌++◌, some,
  codes, Option-cases, ◌==◌,
}
use mathlib.Core.Path.{subst}
use go_nsq.Base.Int.{ℤ, eqb_ℤ}
use go_nsq.Base.Bytes.{All, bytes_eq}
use go_nsq.Protocol.{frame_type_response, read_unpacked_response}
use go_nsq.Command.{Command, identify, auth}
use go_nsq.Handshake.{
  Settings, client_info, IdentifyResponse, deflated, snappied, Stream, Library, Sent, magic,
  command, Link, ◌>>=◌, write_command, receive, check_ok, upgrade_tls, upgrade_deflate,
  upgrade_snappy, when, negotiate,
}
use go_nsq.Handshake.Outcomes.{
  plain, agreed_of, agreed, After, After->>=, After-if, Result-cases, IsAt,
}

module _ (lib : Library) (s : Settings) where
  -- IDENTIFY goes out in plain, AUTH with the secret on the stream that an answer asked for.
  abbrev pub IsProper : Sent → Type 0
  IsProper magic = Unit
  IsProper (command st cmd) =
      ((st ≡ plain) × (identify (lib.marshal (client_info s)) ≡ inr cmd))
      ⊎ ((data' : List ℕ) × (resp : IdentifyResponse) × (lib.parse_identify data' ≡ some resp)
          × (resp.auth_required ≡ true)
          × (st ≡ agreed (some resp))
          × (cmd ≡ auth s.auth_secret))

  abbrev pub IsOver : Link → Type 0
  IsOver l = (l.loops ≡ false) × All IsProper l.sent

  pub over :
      {st : Stream} {sent : List Sent} {most : ℤ} {l : Link}
      → All IsProper sent
      → IsAt st sent most l
      → IsOver l
  over proper w = (w.no_loops, subst (All IsProper) (sym w.has_sent) proper)

  module _ {sent : List Sent} {most : ℤ} (proper : All IsProper sent) where
    pub write-After :
        {st : Stream} (cmd : Command) (l : Link)
        → IsAt st sent most l
        → After (λ x. IsAt st (sent ++ (command st cmd ∷ [])) most x.1) IsOver (write_command cmd l)
    unfolding write_command
    write-After cmd l w =
        After-if _ IsOver (l.writes_left == 0) _ _ (λ _. over proper w)
          (λ _. record {
            on_stream = w.on_stream;
            has_sent =
                ap (λ (xs : List Sent). xs ++ (command l.stream cmd ∷ [])) w.has_sent
                ∙ ap (λ (x : Stream). sent ++ (command x cmd ∷ [])) w.on_stream;
            has_most = w.has_most;
            no_loops = w.no_loops;
          })

    pub receive-After :
        {st : Stream} (l : Link)
        → IsAt st sent most l
        → After (λ x. IsAt st sent most x.1) IsOver (receive l)
    unfolding receive
    receive-After l w = elim (Result-cases (read_unpacked_response l.reader)) [
      | inl (e, h) ↦ rw (h, receive) (over proper w)
      | inr (x, h) ↦
          rw (h, receive)
            (record {
              on_stream = w.on_stream;
              has_sent = w.has_sent;
              has_most = w.has_most;
              no_loops = w.no_loops;
            })
    ]

    pub check_ok-After :
        {st : Stream} (x : (ℤ × List ℕ) × Link)
        → IsAt st sent most x.1
        → After (λ y. IsAt st sent most y.1) IsOver (check_ok x)
    check_ok-After ((t, d), l) w =
        After-if _ IsOver (eqb_ℤ t frame_type_response && bytes_eq d (codes "OK")) _ _ (λ _. w)
          (λ _. over proper w)

    -- An answer over a stream that has just been made.
    pub upgraded-After :
        {st : Stream} (l : Link)
        → IsAt st sent most l
        → After (λ x. IsAt st sent most x.1) IsOver (receive l >>= check_ok)
    upgraded-After {st} l w =
        After->>= (λ x. IsAt st sent most x.1) (λ x. IsAt st sent most x.1) IsOver (receive l)
          check_ok (receive-After l w) (λ x v. check_ok-After x v)

    pub upgrade_tls-After :
        {st : Stream} (l : Link)
        → IsAt st sent most l
        → After (λ x. IsAt (agreed_of true false false) sent most x.1) IsOver (upgrade_tls lib l)
    unfolding upgrade_tls
    upgrade_tls-After l w = elim (Option-cases (lib.tls_client l.below)) [
      | inl e ↦ rw (e, upgrade_tls) (over proper w)
      | inr (r, e) ↦
          rw (e, upgrade_tls)
            (upgraded-After _ (record {
              on_stream = refl;
              has_sent = w.has_sent;
              has_most = w.has_most;
              no_loops = w.no_loops;
            }))
    ]

    pub upgrade_deflate-After :
        {st : Stream} (l : Link)
        → IsAt st sent most l
        → After
            (λ x. IsAt (record st { compression = deflated }) sent most x.1)
            IsOver
            (upgrade_deflate lib l)
    unfolding upgrade_deflate
    upgrade_deflate-After l w = upgraded-After _ (record {
      on_stream = ap (λ (x : Stream). record x { compression = deflated }) w.on_stream;
      has_sent = w.has_sent;
      has_most = w.has_most;
      no_loops = w.no_loops;
    })

    pub upgrade_snappy-After :
        {st : Stream} (l : Link)
        → IsAt st sent most l
        → After
            (λ x. IsAt (record st { compression = snappied }) sent most x.1)
            IsOver
            (upgrade_snappy lib l)
    unfolding upgrade_snappy
    upgrade_snappy-After l w = upgraded-After _ (record {
      on_stream = ap (λ (x : Stream). record x { compression = snappied }) w.on_stream;
      has_sent = w.has_sent;
      has_most = w.has_most;
      no_loops = w.no_loops;
    })

    -- Each upgrade where the answer asks for it.
    pub tls_stage :
        (b : Bool) (l : Link)
        → IsAt plain sent most l
        → After
            (λ x. IsAt (agreed_of b false false) sent most x.1)
            IsOver
            (when b (upgrade_tls lib) l)
    tls_stage true l w = upgrade_tls-After l w
    tls_stage false l w = w

    pub deflate_stage :
        (a b : Bool) (l : Link)
        → IsAt (agreed_of a false false) sent most l
        → After
            (λ x. IsAt (agreed_of a b false) sent most x.1)
            IsOver
            (when b (upgrade_deflate lib) l)
    deflate_stage a true l w = upgrade_deflate-After l w
    deflate_stage a false l w = w

    pub snappy_stage :
        (a b c : Bool) (l : Link)
        → IsAt (agreed_of a b false) sent most l
        → After (λ x. IsAt (agreed_of a b c) sent most x.1) IsOver (when c (upgrade_snappy lib) l)
    snappy_stage a b true l w = upgrade_snappy-After l w
    snappy_stage a b false l w = w

  pub negotiate-After :
      {sent : List Sent} {most : ℤ} (resp : IdentifyResponse) (l : Link)
      → All IsProper sent
      → IsAt plain sent most l
      → After
          (λ x. (x.0 ≡ some resp) × IsAt (agreed (some resp)) sent resp.max_rdy_count x.1)
          IsOver
          (negotiate lib resp l)
  unfolding negotiate
  negotiate-After {sent} resp l proper w =
      let l0 = record l { max_rdy_count = resp.max_rdy_count } in
      let w0 : IsAt plain sent resp.max_rdy_count l0 = record {
        on_stream = w.on_stream;
        has_sent = w.has_sent;
        has_most = refl;
        no_loops = w.no_loops;
      } in
      After->>= (λ x. IsAt (agreed_of resp.tls_v1 false false) sent resp.max_rdy_count x.1)
        (λ x. (x.0 ≡ some resp) × IsAt (agreed (some resp)) sent resp.max_rdy_count x.1) IsOver _ _
        (tls_stage proper resp.tls_v1 l0 w0)
        (λ x v.
          After->>=
            (λ y. IsAt (agreed_of resp.tls_v1 resp.deflate false) sent resp.max_rdy_count y.1)
            (λ y. (y.0 ≡ some resp) × IsAt (agreed (some resp)) sent resp.max_rdy_count y.1) IsOver
            _ _ (deflate_stage proper resp.tls_v1 resp.deflate x.1 v)
            (λ y u.
              After->>= (λ z. IsAt (agreed (some resp)) sent resp.max_rdy_count z.1)
                (λ z. (z.0 ≡ some resp) × IsAt (agreed (some resp)) sent resp.max_rdy_count z.1)
                IsOver _ _ (snappy_stage proper resp.tls_v1 resp.deflate resp.snappy y.1 u)
                (λ z t. (
                  refl,
                  record {
                    on_stream = t.on_stream;
                    has_sent = t.has_sent;
                    has_most = t.has_most;
                    no_loops = t.no_loops;
                  },
                ))))
