-- ===== src/Settings/Options.antt =====
-- config.go, config_flag.go: Set by the name of an option, the defaults, and the flag.
use go_nsq.Base.{
  ℕ, Bool, true, false, not, ◌||◌, List, [], ◌∷◌, ◌++◌, Option, none, some, codes, if◌then◌else◌,
  ◌==◌, map,
}
use go_nsq.Base.Bytes.{bytes_eq}
use go_nsq.Settings.Values.{
  Value, text, boolean, tls, TlsConfig, Library, Coerced, ok, err, panics, coerce_bool,
}
use go_nsq.Settings.Slots.{
  Slot, Config, zero_config, is_empty, invalid_option, unknown_option, coerce_failed, not_a_string,
  no_key_pair, no_ca_file, no_ca_certs, no_tls_version, Outcome, done, failed, panicked, find_slot,
  store, set_tags, is_initialized,
}

-- Versions of TLS as crypto/tls numbers them.
abbrev version_ssl30 : ℕ
version_ssl30 = 768

abbrev version_tls10 : ℕ
version_tls10 = 769

abbrev version_tls11 : ℕ
version_tls11 = 770

abbrev version_tls12 : ℕ
version_tls12 = 771

-- (*structTagsConfig).HandlesOption and (*tlsConfig).HandlesOption
unfoldable pub has_option : List ℕ → List Slot → Bool
has_option opt [] = false
has_option opt (s ∷ ss) = bytes_eq s.opt opt || has_option opt ss

unfoldable pub is_tls_option : List ℕ → Bool
is_tls_option opt =
    bytes_eq opt (codes "tls_root_ca_file")
    || bytes_eq opt (codes "tls_insecure_skip_verify")
    || bytes_eq opt (codes "tls_cert")
    || bytes_eq opt (codes "tls_key")
    || bytes_eq opt (codes "tls_min_version")

abbrev pub new_tls : TlsConfig
new_tls = record {
  min_version = version_tls10;
  insecure_skip_verify = false;
  root_cas = none;
  certificate = none;
}

abbrev pub tls_of : Option Slot → TlsConfig
tls_of none = new_tls
tls_of (some s) = elim s.value [ tls t ↦ t | _ ↦ new_tls ]

-- `c.TlsConfig`, made when it is nil.
unfoldable pub tls_config : Config → TlsConfig
tls_config c = tls_of (find_slot (codes "tls_config") c.slots)

unfoldable pub store_tls : TlsConfig → Config → Config
store_tls t c = record c { slots = store (codes "tls_config") (tls t) c.slots }

abbrev pub store_certificate : Option ℕ → TlsConfig → Config → Outcome
store_certificate none t c = failed no_key_pair c
store_certificate (some cert) t c = done (store_tls (record t { certificate = some cert }) c)

abbrev pub has_certificate : Option ℕ → Bool
has_certificate none = false
has_certificate (some cert) = true

-- The key pair is loaded once both files are named.
unfoldable pub load_certificate : Library → TlsConfig → Config → Outcome
load_certificate lib t c =
    if is_empty c.cert_file || is_empty c.key_file || has_certificate t.certificate
    then done c
    else store_certificate (lib.load_key_pair c.cert_file c.key_file) t c

abbrev pub store_roots : Option ℕ → TlsConfig → Config → Outcome
store_roots none t c = failed no_ca_certs c
store_roots (some pool) t c = done (store_tls (record t { root_cas = some pool }) c)

abbrev pub read_roots : Library → Option (List ℕ) → TlsConfig → Config → Outcome
read_roots lib none t c = failed no_ca_file c
read_roots lib (some pem) t c = store_roots (lib.certs_from_pem pem) t c

unfoldable pub set_root_cas : Library → List ℕ → TlsConfig → Config → Outcome
set_root_cas lib filename t c = read_roots lib (lib.read_file filename) t c

unfoldable pub tls_version : List ℕ → Option ℕ
tls_version s =
    if bytes_eq s (codes "ssl3.0")
    then some version_ssl30
    else if bytes_eq s (codes "tls1.0")
    then some version_tls10
    else if bytes_eq s (codes "tls1.1")
    then some version_tls11
    else if bytes_eq s (codes "tls1.2")
    then some version_tls12
    else none

abbrev pub set_min_version : Option ℕ → TlsConfig → Config → Outcome
set_min_version none t c = failed no_tls_version c
set_min_version (some version) t c = done (store_tls (record t { min_version = version }) c)

abbrev pub set_skip_verify : Coerced → List ℕ → TlsConfig → Config → Outcome
set_skip_verify (ok (boolean b)) opt t c =
    done (store_tls (record t { insecure_skip_verify = b }) c)
set_skip_verify (ok _) opt t c = panicked
set_skip_verify err opt t c = failed (coerce_failed opt) c
set_skip_verify panics opt t c = panicked

-- `value.(string)`, and what happens for another type.
abbrev pub on_text : Value → (List ℕ → Outcome) → Outcome → Outcome
on_text (text s) f otherwise = f s
on_text _ f otherwise = otherwise

-- (*tlsConfig).Set once TlsConfig is there. For a certificate or a key another type panics.
unfoldable pub set_tls_option : Library → List ℕ → Value → TlsConfig → Config → Outcome
unfolding load_certificate set_root_cas tls_version
set_tls_option lib opt v t c =
    if bytes_eq opt (codes "tls_cert")
    then on_text v (λ s. load_certificate lib t (record c { cert_file = s })) panicked
    else if bytes_eq opt (codes "tls_key")
    then on_text v (λ s. load_certificate lib t (record c { key_file = s })) panicked
    else if bytes_eq opt (codes "tls_root_ca_file")
    then on_text v (λ s. set_root_cas lib s t c) (failed not_a_string c)
    else if bytes_eq opt (codes "tls_insecure_skip_verify")
    then set_skip_verify (coerce_bool v) opt t c
    else if bytes_eq opt (codes "tls_min_version")
    then on_text v (λ s. set_min_version (tls_version s) t c) (failed not_a_string c)
    else failed (unknown_option opt) c

unfoldable pub set_tls : Library → List ℕ → Value → Config → Outcome
unfolding set_tls_option
set_tls lib opt v c = let t = tls_config c in set_tls_option lib opt v t (store_tls t c)

-- strings.Replace(option, "-", "_", -1)
abbrev pub underscored : List ℕ → List ℕ
underscored = map (λ c. if c == b'-' then b'_' else c)

-- (*Config).Set
unfoldable pub set : Library → List ℕ → Value → Config → Outcome
unfolding set_tls has_option is_tls_option is_initialized
set lib option v c =
    let opt = underscored option in
    if not (is_initialized c.slots)
    then panicked
    else if has_option opt c.slots
    then set_tags lib opt v c
    else if is_tls_option opt
    then set_tls lib opt v c
    else failed (invalid_option opt) c

abbrev pub and_then : Outcome → (Config → Outcome) → Outcome
and_then (done c) f = f c
and_then (failed e c) f = failed e c
and_then panicked f = panicked

-- The loop of SetDefaults over the fields.
unfoldable pub set_each_default : Library → List Slot → Config → Outcome
set_each_default lib [] c = done c
set_each_default lib (s ∷ ss) c =
    if is_empty s.default || is_empty s.opt
    then set_each_default lib ss c
    else and_then (set lib s.opt (text s.default) c) (set_each_default lib ss)

-- strings.Split(hostname, ".")[0]
unfoldable pub short_name : List ℕ → List ℕ
short_name [] = []
short_name (c ∷ cs) = let rest = short_name cs in if c == b'.' then [] else c ∷ rest

-- `initialized: true`
abbrev pub blank : Config
blank = record zero_config { slots = store [] (boolean true) zero_config.slots }

-- The assignments at the end of SetDefaults; the host name and the version are arguments.
unfoldable pub identify_client : List ℕ → List ℕ → Config → Config
unfolding short_name
identify_client hostname version c = record c {
  slots = store (codes "user_agent") (text (codes "go-nsq/" ++ version)) (
      store (codes "hostname") (text hostname)
        (store (codes "client_id") (text (short_name hostname)) c.slots));
}

-- NewConfig panics when a default is refused.
abbrev pub or_panic : Outcome → (Config → Config) → Outcome
or_panic (done c) f = done (f c)
or_panic (failed e c) f = panicked
or_panic panicked f = panicked

unfoldable pub new_config : Library → List ℕ → List ℕ → Outcome
unfolding set_each_default identify_client
new_config lib hostname version =
    or_panic (set_each_default lib blank.slots blank) (identify_client hostname version)

-- strings.SplitN(opt, ",", 2)
abbrev pub onto_key : ℕ → List ℕ × Option (List ℕ) → List ℕ × Option (List ℕ)
onto_key c (key, value) = (c ∷ key, value)

unfoldable pub split_comma : List ℕ → List ℕ × Option (List ℕ)
split_comma [] = ([], none)
split_comma (c ∷ cs) =
    let rest = split_comma cs in if c == b',' then ([], some cs) else onto_key c rest

-- (*ConfigFlag).Set
unfoldable pub flag_set : Library → List ℕ → Config → Outcome
unfolding split_comma set
flag_set lib opt c =
    let (key, value) = split_comma opt in
    elim value [ none ↦ set lib key (boolean true) c | some v ↦ set lib key (text v) c ]
