-- ===== src/Handshake.antt =====
-- conn.go: Connect, which brings a connection up to its two loops.
pub mod Linking
pub mod Outcomes
pub mod Upgrades
pub mod Agreement
pub mod Tests
pub use Linking.*
use go_nsq.Base.{
  ℕ, ◌+◌, ◌-◌, Bool, true, false, ◌&&◌, not, List, [], ◌∷◌, ◌++◌, Option, none, some, codes, ◌⊎◌,
  inl, inr, if◌then◌else◌, ◌==◌,
}
use go_nsq.Base.Int.{ℤ, pos, negsuc, eqb_ℤ}
use go_nsq.Base.Bytes.{bytes_eq}
use go_nsq.Protocol.{
  Reader, Error, Result, err, ok, frame_type_response, frame_type_error, read_unpacked_response,
}
use go_nsq.Command.{Command, identify, auth, milliseconds}

unfoldable pub write_command : Command → Link → Outcome {0} Unit
write_command cmd l =
    if l.writes_left == 0
    then failed write_failed (record l { io_errors = l.io_errors + 1 })
    else done (
      tt,
      record l { writes_left = l.writes_left - 1; sent = l.sent ++ (command l.stream cmd ∷ []) },
    )

unfoldable pub receive : Link → Outcome (ℤ × List ℕ)
receive l = elim (read_unpacked_response l.reader) [
  | err e ↦ failed (read_failed e) l
  | ok (frame_type, data', r) ↦ done (
    (frame_type, data'),
    record l { reader = r; below = if is_plain l.stream.compression then r else l.below },
  )
]

abbrev pub check_ok : (ℤ × List ℕ) × Link → Outcome {0} Unit
check_ok ((frame_type, data'), l) =
    if eqb_ℤ frame_type frame_type_response && bytes_eq data' (codes "OK")
    then done (tt, l)
    else failed bad_upgrade l

-- upgradeTLS, upgradeDeflate, upgradeSnappy: the last two start again from the socket or TLS.
unfoldable pub upgrade_tls : Library → Link → Outcome {0} Unit
unfolding receive
upgrade_tls lib l = elim (lib.tls_client l.below) [
  | none ↦ failed no_handshake l
  | some r ↦
      receive (record l {
        reader = r;
        below = r;
        stream = record { tls = true; compression = uncompressed };
      })
      >>= check_ok
]

unfoldable pub upgrade_deflate : Library → Link → Outcome {0} Unit
unfolding receive
upgrade_deflate lib l =
    receive (record l {
      reader = lib.inflate l.below;
      below = lib.after_inflate l.below;
      stream = record l.stream { compression = deflated };
    })
    >>= check_ok

unfoldable pub upgrade_snappy : Library → Link → Outcome {0} Unit
unfolding receive
upgrade_snappy lib l =
    receive (record l {
      reader = lib.unsnap l.below;
      stream = record l.stream { compression = snappied };
    })
    >>= check_ok

abbrev pub when : Bool → (Link → Outcome {0} Unit) → Link → Outcome {0} Unit
when b f l = if b then f l else done (tt, l)

unfoldable pub negotiate : Library → IdentifyResponse → Link → Outcome (Option IdentifyResponse)
unfolding upgrade_tls upgrade_deflate upgrade_snappy
negotiate lib resp l = do
  (u, l1) ← when resp.tls_v1 (upgrade_tls lib) (record l { max_rdy_count = resp.max_rdy_count })
  (v, l2) ← when resp.deflate (upgrade_deflate lib) l1
  (w, l3) ← when resp.snappy (upgrade_snappy lib) l2
  done (some resp, record l3 { buffered = true })

abbrev pub read_identity :
    Library → Option IdentifyResponse → Link → Outcome (Option IdentifyResponse)
read_identity lib none l = failed bad_json l
read_identity lib (some resp) l = negotiate lib resp l

-- An answer without capabilities is the text OK; with no first byte the index panics.
unfoldable pub on_identified : Library → (ℤ × List ℕ) × Link → Outcome (Option IdentifyResponse)
unfolding negotiate
on_identified lib ((frame_type, data'), l) =
    if eqb_ℤ frame_type frame_type_error then failed (nsqd_error data') l else elim data' [
      | [] ↦ panicked
      | b ∷ bs ↦
          if b == b'{' then read_identity lib (lib.parse_identify (b ∷ bs)) l else done (none, l)
    ]

unfoldable pub identify_link : Library → Settings → Link → Outcome (Option IdentifyResponse)
unfolding on_identified write_command receive client_info
identify_link lib s l = elim (identify (lib.marshal (client_info s))) [
  | inl e ↦ failed no_info l
  | inr cmd ↦ do (u, l1) ← write_command cmd l; answer ← receive l1; on_identified lib answer
]

abbrev pub on_auth : Library → (ℤ × List ℕ) × Link → Outcome {0} Unit
on_auth lib ((frame_type, data'), l) =
    if eqb_ℤ frame_type frame_type_error
    then failed (nsqd_error data') l
    else if lib.parse_auth data'
    then done (tt, l)
    else failed bad_json l

unfoldable pub auth_link : Library → List ℕ → Link → Outcome {0} Unit
unfolding write_command receive
auth_link lib secret l = do
  (u, l1) ← write_command (auth secret) l
  answer ← receive l1
  on_auth lib answer

abbrev pub needs_auth : Option IdentifyResponse → Bool
needs_auth none = false
needs_auth (some resp) = resp.auth_required

unfoldable pub authenticate : Library → Settings → Link → Outcome {0} Unit
unfolding auth_link
authenticate lib s l =
    if bytes_eq s.auth_secret [] then failed auth_needed l else auth_link lib s.auth_secret l

abbrev pub write_magic : Link → Outcome {0} Unit
write_magic l =
    if l.writes_left == 0
    then failed no_magic (record l { close_flag = true })
    else done (tt, record l { writes_left = l.writes_left - 1; sent = magic ∷ [] })

-- Connect on a connection that was dialled.
unfoldable pub connect : Library → Settings → Link → Outcome (Option IdentifyResponse)
unfolding identify_link authenticate
connect lib s l = do
  (u, l1) ← write_magic l
  (resp, l2) ← identify_link lib s l1
  (v, l3) ← when (needs_auth resp) (authenticate lib s) l2
  done (resp, record l3 { loops = true })
