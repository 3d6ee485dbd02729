-- ===== src/Settings/Ranges.antt =====
-- config.go: a stored value that was compared with its limits keeps every field in its range.
use go_nsq.Base.{
  ℕ, ◌≡◌, inl, inr, refl, sym, ap, ◌∙◌, false, List, [], ◌∷◌, none, some, map, arith, Bool-cases,
  Option-cases,
}
use mathlib.Core.Path.{subst}
use go_nsq.Base.Bytes.{bytes_eq, bytes_eq_iff}
use go_nsq.Settings.Values.{Kind, Value, Library, Coerced, ok, err, panics, coerce}
use go_nsq.Settings.Slots.{
  Slot, Config, zero_config, below_min, above_max, Outcome, done, failed, panicked, find_slot,
  store, set_checked, set_slot, set_tags, first_outside,
}

-- The tags of a field.
abbrev pub Tags : Type 0
Tags = List ℕ × Kind × List ℕ × List ℕ × List ℕ

abbrev pub tags : Slot → Tags
tags s = (s.opt, s.kind, s.min, s.max, s.default)

-- The fields are those of the struct, and Validate's loop accepts them.
pub record IsSound (lib : Library) (c : Config) : Type 0 where
  pub shape : map tags c.slots ≡ map tags zero_config.slots
  pub in_range : first_outside lib c.slots ≡ none

-- What holds of the configuration that a setter leaves behind.
abbrev pub Leaves : (Config → Type 0) → Outcome → Type 0
Leaves P (done c) = P c
Leaves P (failed e c) = P c
Leaves P panicked = Unit

pub tags-store :
    (opt : List ℕ) (v : Value) (ss : List Slot) → map tags (store opt v ss) ≡ map tags ss
unfolding store
tags-store opt v [] = refl
tags-store opt v (s ∷ ss) = elim (Bool-cases (bytes_eq opt s.opt)) [
  | inl hit ↦ rw hit refl
  | inr miss ↦ rw miss (ap (◌∷◌ (tags s)) (tags-store opt v ss))
]

-- A field in its range, and those after it.
pub outside_parts :
    (lib : Library) (s : Slot) (ss : List Slot)
    → first_outside lib (s ∷ ss) ≡ none
    → (below_min lib s s.value ≡ false)
      × (above_max lib s s.value ≡ false)
      × (first_outside lib ss ≡ none)
unfolding first_outside
outside_parts lib s ss h = ground arith

pub inside_parts :
    (lib : Library) (s : Slot) (ss : List Slot)
    → below_min lib s s.value ≡ false
    → above_max lib s s.value ≡ false
    → first_outside lib ss ≡ none
    → first_outside lib (s ∷ ss) ≡ none
unfolding first_outside
inside_parts lib s ss a b c = rw (a, b) c

pub store-in_range :
    (lib : Library) (opt : List ℕ) (v : Value) (ss : List Slot) {s : Slot}
    → first_outside lib ss ≡ none
    → find_slot opt ss ≡ some s
    → below_min lib s v ≡ false
    → above_max lib s v ≡ false
    → first_outside lib (store opt v ss) ≡ none
unfolding store find_slot below_min above_max
store-in_range lib opt v [] h e low high = cc
store-in_range lib opt v (x ∷ ss) {s} h e low high =
    let (a, b, rest) = outside_parts lib x ss h in
    elim (Bool-cases (bytes_eq opt x.opt)) [
      | inl hit ↦
          let same : x ≡ s = ground arith in
          rw hit (
            inside_parts lib (record x { value = v }) ss
              (subst (λ y. below_min lib y v ≡ false) (sym same) low)
              (subst (λ y. above_max lib y v ≡ false) (sym same) high) rest)
      | inr miss ↦
          let later : find_slot opt ss ≡ some s = ground arith in
          rw miss (
            inside_parts lib x (store opt v ss) a b
              (store-in_range lib opt v ss rest later low high))
    ]

module _ (lib : Library) where
  set_checked-IsSound :
      (s : Slot) (v : Value) (c : Config)
      → find_slot s.opt c.slots ≡ some s
      → IsSound lib c
      → Leaves (IsSound lib) (set_checked lib s v c)
  unfolding set_checked
  set_checked-IsSound s v c e w = elim (Bool-cases (below_min lib s v)) [
    | inl low ↦ rw low w
    | inr not_low ↦ elim (Bool-cases (above_max lib s v)) [
      | inl high ↦ rw (not_low, high) w
      | inr not_high ↦
          rw (not_low, not_high)
            (record {
              shape = tags-store s.opt v c.slots ∙ w.shape;
              in_range = store-in_range lib s.opt v c.slots w.in_range e not_low not_high;
            })
    ]
  ]

  set_slot-IsSound :
      (s : Slot) (x : Coerced) (c : Config)
      → find_slot s.opt c.slots ≡ some s
      → IsSound lib c
      → Leaves (IsSound lib) (set_slot lib s x c)
  unfolding set_slot
  set_slot-IsSound s (ok v) c e w = set_checked-IsSound s v c e w
  set_slot-IsSound s err c e w = w
  set_slot-IsSound s panics c e w = tt

  pub find_slot-opt :
      (opt : List ℕ) (ss : List Slot) {s : Slot} → find_slot opt ss ≡ some s → opt ≡ s.opt
  unfolding find_slot
  find_slot-opt opt [] e = cc
  find_slot-opt opt (x ∷ ss) {s} e = elim (Bool-cases (bytes_eq opt x.opt)) [
    | inl hit ↦
        let same : x ≡ s = ground arith in
        (bytes_eq_iff opt x.opt).0 hit ∙ ap (λ (y : Slot). y.opt) same
    | inr miss ↦ let later : find_slot opt ss ≡ some s = ground arith in find_slot-opt opt ss later
  ]

  pub set_tags-IsSound :
      (opt : List ℕ) (v : Value) (c : Config)
      → IsSound lib c
      → Leaves (IsSound lib) (set_tags lib opt v c)
  unfolding set_tags
  set_tags-IsSound opt v c w = elim (Option-cases (find_slot opt c.slots)) [
    | inl e ↦ rw (e, set_tags) w
    | inr (s, e) ↦
        rw (e, set_tags)
          (set_slot-IsSound s (coerce lib v s.kind) c (rw (find_slot-opt opt c.slots e) at e) w)
  ]

-- Equal tags, field by field: what one struct has, the other has.
pub find-tags :
    (opt : List ℕ) (ss us : List Slot) {u : Slot}
    → map tags ss ≡ map tags us
    → find_slot opt us ≡ some u
    → (s : Slot) × (find_slot opt ss ≡ some s) × (tags s ≡ tags u)
unfolding find_slot
find-tags opt ss [] h e = absurd (cc)
find-tags opt [] (x ∷ us) h e = absurd (cc)
find-tags opt (s ∷ ss) (x ∷ us) {u} h e =
    let same_tags : tags s ≡ tags x = cc in
    let same_rest : map tags ss ≡ map tags us = cc in
    let same_opt : s.opt ≡ x.opt = ap (λ (t : Tags). t.0) same_tags in
    elim (Bool-cases (bytes_eq opt x.opt)) [
      | inl hit ↦
          let here : x ≡ u = ground arith in (s, rw (same_opt, hit) refl, same_tags ∙ ap tags here)
      | inr miss ↦
          let later : find_slot opt us ≡ some u = ground arith in
          let (y, found, t) = find-tags opt ss us same_rest later in
          (y, rw (same_opt, miss) found, t)
    ]
