-- ===== src/Settings/Frame.antt =====
-- config.go: Set changes the option that it names.
use go_nsq.Base.{
  ℕ, ◌≡◌, inl, inr, refl, sym, ap, ◌∙◌, true, false, not, List, [], ◌∷◌, some, arith, Bool-cases,
  Option-cases, if◌then◌else◌,
}
use go_nsq.Base.Bytes.{bytes_eq, bytes_eq_iff}
use go_nsq.Settings.Values.{Value, Library, Coerced, ok, err, panics, coerce}
use go_nsq.Settings.Slots.{
  Slot, Config, below_min, above_max, done, failed, panicked, find_slot, store, set_checked,
  set_slot, set_tags, is_initialized, invalid_option,
}
use go_nsq.Settings.Ranges.{find_slot-opt}
use go_nsq.Settings.Options.{set, set_tls, is_tls_option, has_option, underscored}

find_slot-store_ne :
    (opt other : List ℕ) (v : Value) (ss : List Slot)
    → bytes_eq other opt ≡ false
    → find_slot other (store opt v ss) ≡ find_slot other ss
unfolding find_slot store
find_slot-store_ne opt other v [] h = refl
find_slot-store_ne opt other v (s ∷ ss) h = elim (Bool-cases (bytes_eq opt s.opt)) [
  | inl hit ↦
      let same : opt ≡ s.opt = (bytes_eq_iff opt s.opt).0 hit in
      let off : bytes_eq other s.opt ≡ false = rw same at h in rw (hit, off) refl
  | inr miss ↦ rw miss (ground (arith, find_slot-store_ne opt other v ss h))
]

find_slot-store :
    (opt : List ℕ) (v : Value) (ss : List Slot) {s : Slot}
    → find_slot opt ss ≡ some s
    → find_slot opt (store opt v ss) ≡ some (record s { value = v })
unfolding find_slot store
find_slot-store opt v [] e = cc
find_slot-store opt v (x ∷ ss) {s} e = elim (Bool-cases (bytes_eq opt x.opt)) [
  | inl hit ↦
      let same : x ≡ s = ground arith in
      rw (hit, hit) (ap (λ (y : Slot). some (record y { value = v })) same)
  | inr miss ↦
      let later : find_slot opt ss ≡ some s = ground arith in
      rw (miss, miss) (find_slot-store opt v ss later)
]

set_slot-done :
    (lib : Library) (s : Slot) (x : Coerced) (c : Config) {d : Config}
    → set_slot lib s x c ≡ done d
    → (w : Value) × (x ≡ ok w) × (d.slots ≡ store s.opt w c.slots)
unfolding set_slot set_checked
set_slot-done lib s (ok v) c {d} h = elim (Bool-cases (below_min lib s v)) [
  | inl low ↦ let got : failed _ c ≡ done d = rw low at h in absurd (cc)
  | inr not_low ↦ elim (Bool-cases (above_max lib s v)) [
    | inl high ↦ let got : failed _ c ≡ done d = rw (not_low, high) at h in absurd (cc)
    | inr not_high ↦
        let got : done (record c { slots = store s.opt v c.slots }) ≡ done d =
          rw (not_low, not_high) at h in
        let same : record c { slots = store s.opt v c.slots } ≡ d = cc in
        (v, refl, sym (ap (λ (e : Config). e.slots) same))
  ]
]
set_slot-done lib s err c h = absurd (cc)
set_slot-done lib s panics c h = absurd (cc)

-- A call that ends well was one of an initialized configuration.
past_assert :
    (lib : Library) (opt : List ℕ) (v : Value) (c d : Config)
    → has_option opt c.slots ≡ true
    → (if not (is_initialized c.slots)
        then panicked
        else if has_option opt c.slots
        then set_tags lib opt v c
        else if is_tls_option opt
        then set_tls lib opt v c
        else failed (invalid_option opt) c)
      ≡ done d
    → set_tags lib opt v c ≡ done d
past_assert lib opt v c d has h = elim (Bool-cases (is_initialized c.slots)) [
  | inl ready ↦ rw (ready, has) at h
  | inr cleared ↦ let got : panicked ≡ done d = rw cleared at h in absurd (cc)
]

-- When Set succeeds on an option of the struct, the field holds the value coerced to its type, and
-- every other option holds what it held.
pub set-find_slot :
    (lib : Library) (option other : List ℕ) (v : Value) (c d : Config)
    → has_option (underscored option) c.slots ≡ true
    → bytes_eq other (underscored option) ≡ false
    → set lib option v c ≡ done d
    → (s : Slot) × (w : Value) × (find_slot (underscored option) c.slots ≡ some s)
      × (coerce lib v s.kind ≡ ok w)
      × (find_slot (underscored option) d.slots ≡ some (record s { value = w }))
      × (find_slot other d.slots ≡ find_slot other c.slots)
unfolding set set_tags
set-find_slot lib option other v c d has off h =
    let opt = underscored option in
    let tagged : set_tags lib opt v c ≡ done d = past_assert lib opt v c d has h in
    elim (Option-cases (find_slot opt c.slots)) [
      | inl e ↦ let got : failed _ c ≡ done d = rw (e, set_tags) at tagged in absurd (cc)
      | inr (s, e) ↦
          let same = find_slot-opt lib opt c.slots e in
          let got : set_slot lib s (coerce lib v s.kind) c ≡ done d = rw (e, set_tags) at tagged in
          let (w, coerced, stored) = set_slot-done lib s (coerce lib v s.kind) c got in
          let held : d.slots ≡ store opt w c.slots =
            stored ∙ ap (λ (o : List ℕ). store o w c.slots) (sym same) in
          (
            s,
            w,
            e,
            coerced,
            ap (find_slot opt) held ∙ find_slot-store opt w c.slots e,
            ap (find_slot other) held ∙ find_slot-store_ne opt other w c.slots off,
          )
    ]
