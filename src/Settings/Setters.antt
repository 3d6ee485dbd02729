-- ===== src/Settings/Setters.antt =====
-- config.go: Set, with the TLS options too, keeps every field in its range.
use go_nsq.Base.{
  ℕ, ◌≡◌, refl, ap, ◌∙◌, Bool, true, false, not, ◌||◌, List, [], Option, none, some, codes,
  if◌then◌else◌,
}
use go_nsq.Base.Bytes.{bytes_eq}
use go_nsq.Settings.Values.{
  tls_kind, nil, signed, unsigned, float, duration, address, strategy, Value, text, boolean, tls,
  TlsConfig, Library, Coerced, ok, err, panics, coerce_bool,
}
use go_nsq.Settings.Slots.{
  Slot, Config, zero_config, zero_value, is_empty, below_min, above_max, not_a_string, Outcome,
  done, failed, panicked, find_slot, is_initialized,
}
use go_nsq.Settings.Options.{
  set, set_tls, set_tls_option, tls_config, store_tls, load_certificate, set_root_cas, tls_version,
  has_option, is_tls_option, underscored, store_certificate, has_certificate, store_roots,
  read_roots, on_text, set_min_version, set_skip_verify,
}
use go_nsq.Settings.Ranges.{
  Tags, IsSound, Leaves, tags-store, store-in_range, set_tags-IsSound, find-tags,
}

Leaves-if :
    (P : Config → Type 0) (b : Bool) (x y : Outcome)
    → Leaves P x
    → Leaves P y
    → Leaves P (if b then x else y)
Leaves-if P true x y p q = p
Leaves-if P false x y p q = q

abbrev tls_slot : Slot
tls_slot = record {
  opt = codes "tls_config";
  kind = tls_kind;
  min = [];
  max = [];
  default = [];
  value = nil;
}

zero_has_tls : find_slot (codes "tls_config") zero_config.slots ≡ some tls_slot
unfolding find_slot zero_config bytes_eq zero_value
zero_has_tls = refl

module _ (lib : Library) where
  no_min : (s : Slot) (v : Value) → s.min ≡ [] → below_min lib s v ≡ false
  unfolding below_min
  no_min s v e = rw e refl

  no_max : (s : Slot) (v : Value) → s.max ≡ [] → above_max lib s v ≡ false
  unfolding above_max
  no_max s v e = rw e refl

  store_tls-IsSound : (t : TlsConfig) (c : Config) → IsSound lib c → IsSound lib (store_tls t c)
  unfolding store_tls
  store_tls-IsSound t c w =
      let (s, found, same) =
        find-tags (codes "tls_config") c.slots zero_config.slots w.shape zero_has_tls in
      record {
        shape = tags-store (codes "tls_config") (tls t) c.slots ∙ w.shape;
        in_range =
            store-in_range lib (codes "tls_config") (tls t) c.slots w.in_range found
              (no_min s (tls t) (ap (λ (x : Tags). x.2) same))
              (no_max s (tls t) (ap (λ (x : Tags). x.3) same));
      }

  files-IsSound :
      (c : Config) (cert key : List ℕ)
      → IsSound lib c
      → IsSound lib (record c { cert_file = cert; key_file = key })
  files-IsSound c cert key w = record { shape = w.shape; in_range = w.in_range }

  certificate-IsSound :
      (o : Option ℕ) (t : TlsConfig) (c : Config)
      → IsSound lib c
      → Leaves (IsSound lib) (store_certificate o t c)
  certificate-IsSound none t c w = w
  certificate-IsSound (some n) t c w = store_tls-IsSound _ c w

  pool-IsSound :
      (o : Option ℕ) (t : TlsConfig) (c : Config)
      → IsSound lib c
      → Leaves (IsSound lib) (store_roots o t c)
  pool-IsSound none t c w = w
  pool-IsSound (some n) t c w = store_tls-IsSound _ c w

  read-IsSound :
      (o : Option (List ℕ)) (t : TlsConfig) (c : Config)
      → IsSound lib c
      → Leaves (IsSound lib) (read_roots lib o t c)
  read-IsSound none t c w = w
  read-IsSound (some pem) t c w = pool-IsSound (lib.certs_from_pem pem) t c w

  load-IsSound :
      (t : TlsConfig) (c : Config) → IsSound lib c → Leaves (IsSound lib) (load_certificate lib t c)
  unfolding load_certificate
  load-IsSound t c w =
      Leaves-if (IsSound lib)
        (is_empty c.cert_file || is_empty c.key_file || has_certificate t.certificate) (done c) _ w
        (certificate-IsSound (lib.load_key_pair c.cert_file c.key_file) t c w)

  roots-IsSound :
      (name : List ℕ) (t : TlsConfig) (c : Config)
      → IsSound lib c
      → Leaves (IsSound lib) (set_root_cas lib name t c)
  unfolding set_root_cas
  roots-IsSound name t c w = read-IsSound (lib.read_file name) t c w

  version-IsSound :
      (o : Option ℕ) (t : TlsConfig) (c : Config)
      → IsSound lib c
      → Leaves (IsSound lib) (set_min_version o t c)
  version-IsSound none t c w = w
  version-IsSound (some n) t c w = store_tls-IsSound _ c w

  skip-IsSound :
      (x : Coerced) (opt : List ℕ) (t : TlsConfig) (c : Config)
      → IsSound lib c
      → Leaves (IsSound lib) (set_skip_verify x opt t c)
  skip-IsSound (ok (boolean b)) opt t c w = store_tls-IsSound _ c w
  skip-IsSound (ok _) opt t c w = tt
  skip-IsSound err opt t c w = w
  skip-IsSound panics opt t c w = tt

  -- A text or something else: what a handler does with it.
  text-IsSound :
      (v : Value) (f : List ℕ → Outcome) (otherwise : Outcome)
      → ((s : List ℕ) → Leaves (IsSound lib) (f s))
      → Leaves (IsSound lib) otherwise
      → Leaves (IsSound lib) (on_text v f otherwise)
  text-IsSound (text s) f otherwise h k = h s
  text-IsSound (signed _) f otherwise h k = k
  text-IsSound (unsigned _) f otherwise h k = k
  text-IsSound (float _) f otherwise h k = k
  text-IsSound (boolean _) f otherwise h k = k
  text-IsSound (duration _) f otherwise h k = k
  text-IsSound (address _) f otherwise h k = k
  text-IsSound (strategy _) f otherwise h k = k
  text-IsSound (tls _) f otherwise h k = k
  text-IsSound nil f otherwise h k = k
  text-IsSound Value.other f otherwise h k = k

  tls_option-IsSound :
      (opt : List ℕ) (v : Value) (t : TlsConfig) (c : Config)
      → IsSound lib c
      → Leaves (IsSound lib) (set_tls_option lib opt v t c)
  unfolding set_tls_option
  tls_option-IsSound opt v t c w =
      Leaves-if (IsSound lib) (bytes_eq opt (codes "tls_cert")) _ _
        (text-IsSound v (λ s. load_certificate lib t (record c { cert_file = s })) panicked
          (λ s. load-IsSound t (record c { cert_file = s }) (files-IsSound c s c.key_file w)) tt)
        (Leaves-if (IsSound lib) (bytes_eq opt (codes "tls_key")) _ _
          (text-IsSound v (λ s. load_certificate lib t (record c { key_file = s })) panicked
            (λ s. load-IsSound t (record c { key_file = s }) (files-IsSound c c.cert_file s w)) tt)
          (Leaves-if (IsSound lib) (bytes_eq opt (codes "tls_root_ca_file")) _ _
            (text-IsSound v (λ s. set_root_cas lib s t c) (failed not_a_string c)
              (λ s. roots-IsSound s t c w) w)
            (Leaves-if (IsSound lib) (bytes_eq opt (codes "tls_insecure_skip_verify")) _ _
              (skip-IsSound (coerce_bool v) opt t c w)
              (Leaves-if (IsSound lib) (bytes_eq opt (codes "tls_min_version")) _ _
                (text-IsSound v (λ s. set_min_version (tls_version s) t c) (failed not_a_string c)
                  (λ s. version-IsSound (tls_version s) t c w) w)
                w))))

  set_tls-IsSound :
      (opt : List ℕ) (v : Value) (c : Config)
      → IsSound lib c
      → Leaves (IsSound lib) (set_tls lib opt v c)
  unfolding set_tls
  set_tls-IsSound opt v c w =
      tls_option-IsSound opt v (tls_config c) (store_tls (tls_config c) c)
        (store_tls-IsSound (tls_config c) c w)

-- Set, by whatever option and with whatever value, and whether it succeeds or returns an error,
-- leaves a configuration with the fields of the struct and all of them in their ranges, if it was
-- one: no sequence of calls gets a value past the limits that Validate checks.
pub set-IsSound :
    (lib : Library) (option : List ℕ) (v : Value) (c : Config)
    → IsSound lib c
    → Leaves (IsSound lib) (set lib option v c)
unfolding set
set-IsSound lib option v c w =
    let opt = underscored option in
    Leaves-if (IsSound lib) (not (is_initialized c.slots)) _ _ tt (
      Leaves-if (IsSound lib) (has_option opt c.slots) _ _ (set_tags-IsSound lib opt v c w)
        (Leaves-if (IsSound lib) (is_tls_option opt) _ _ (set_tls-IsSound lib opt v c w) w))
