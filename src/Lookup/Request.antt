-- ===== src/Lookup/Request.antt =====
-- api_request.go, consumer.go: the request to an nsqlookupd, and its address.
use go_nsq.Base.{
  ℕ, Bool, true, false, ◌||◌, List, [], ◌∷◌, ◌++◌, Option, none, some, codes, if◌then◌else◌, ◌==◌,
}
use go_nsq.Base.Bytes.{bytes_eq}

-- What the HTTP client returns: the status, the X-NSQ-Content-Type header, and the body unless
-- reading it fails.
pub record Response : Type 0 where
  pub status_code : ℕ
  pub content_type : List ℕ
  pub body : Option (List ℕ)

pub data Reply (A : Type 0) : Type 0 where
  reply : A → Reply A
  http_failed read_failed got_response bad_json : Reply A

abbrev pub of_json : {A : Type 0} → Option A → Reply A
of_json none = bad_json
of_json (some a) = reply a

abbrev pub or_braces : List ℕ → List ℕ
or_braces [] = codes "{}"
or_braces (c ∷ cs) = c ∷ cs

-- apiRequestNegotiateV1 after the request; `unmarshal` reads the data, `unmarshal_wrapped` the data
-- in the envelope of the old interface.
unfoldable pub negotiate :
    {A : Type 0} → (List ℕ → Option A) → (List ℕ → Option A) → Option Response → Reply A
negotiate unmarshal unmarshal_wrapped none = http_failed
negotiate unmarshal unmarshal_wrapped (some r) = elim r.body [
  | none ↦ read_failed
  | some body ↦
      if r.status_code == 200
      then if bytes_eq r.content_type (codes "nsq; version=1.0")
        then of_json (unmarshal (or_braces body))
        else of_json (unmarshal_wrapped (or_braces body))
      else got_response
]

-- net/url
pub record Url : Type 0 where
  pub rest : List ℕ
  pub port : List ℕ
  pub path : List ℕ
  pub raw_query : List ℕ

-- `add_topic` is ParseQuery, Add and Encode.
pub record UrlLibrary : Type 0 where
  pub parse : List ℕ → Option Url
  pub add_topic : List ℕ → List ℕ → List ℕ
  pub show : Url → List ℕ

abbrev starts_with : List ℕ → List ℕ → Bool
starts_with [] s = true
starts_with (c ∷ cs) [] = false
starts_with (c ∷ cs) (d ∷ ds) = if c == d then starts_with cs ds else false

-- strings.Contains
abbrev contains : List ℕ → List ℕ → Bool
contains s [] = starts_with s []
contains s (d ∷ ds) = starts_with s (d ∷ ds) || contains s ds

abbrev pub with_scheme : List ℕ → List ℕ
with_scheme addr = if contains (codes "://") addr then addr else codes "http://" ++ addr

-- buildLookupAddr
unfoldable pub build_lookup_addr : UrlLibrary → List ℕ → List ℕ → Option (List ℕ)
build_lookup_addr lib addr topic = elim (lib.parse (with_scheme addr)) [
  | none ↦ none
  | some u ↦
      if bytes_eq u.port []
      then none
      else let path =
          if bytes_eq u.path (codes "/") || bytes_eq u.path [] then codes "/lookup" else u.path in
        some (lib.show (record u { path = path; raw_query = lib.add_topic u.raw_query topic }))
]
