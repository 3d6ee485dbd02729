-- ===== src/Creation/Limits.antt =====
-- config.go: the settings of the backoff, between their limits.
use go_nsq.Base.{
  ℕ, ◌≤◌, ◌≡◌, inl, inr, refl, sym, ap, ◌∙◌, false, List, [], ◌∷◌, none, some, codes, arith,
  Bool-cases,
}
use go_nsq.Base.Int.{ℤ, pos, negsuc}
use go_nsq.Base.Bytes.{bytes_eq}
use go_nsq.Settings.Values.{
  Library, Kind, duration_kind, Value, text, signed, unsigned, float, boolean, duration, address,
  strategy, tls, nil, coerce, coerce_duration,
}
use go_nsq.Settings.Slots.{
  Slot, Config, zero_config, find_slot, duration_of, tag_value, below_min, above_max, first_outside,
}
use go_nsq.Settings.Ranges.{Tags, IsSound, outside_parts, find-tags}

abbrev pub hour : ℕ
hour = 3600000000000

tag_duration :
    (lib : Library) (tag : List ℕ) {z : ℤ}
    → lib.parse_duration tag ≡ some z
    → tag_value lib tag duration_kind ≡ duration z
unfolding tag_value coerce coerce_duration
tag_duration lib tag e = rw (e, tag_value) refl

-- A field that the checks accept is accepted where it is found.
found_inside :
    (lib : Library) (opt : List ℕ) (ss : List Slot) {s : Slot}
    → first_outside lib ss ≡ none
    → find_slot opt ss ≡ some s
    → (below_min lib s s.value ≡ false) × (above_max lib s s.value ≡ false)
unfolding find_slot
found_inside lib opt [] h e = absurd (cc)
found_inside lib opt (x ∷ ss) {s} h e =
    let (a, b, rest) = outside_parts lib x ss h in
    elim (Bool-cases (bytes_eq opt x.opt)) [
      | inl hit ↦
          let same : x ≡ s = ground arith in
          (
            ap (λ (y : Slot). below_min lib y y.value) (sym same) ∙ a,
            ap (λ (y : Slot). above_max lib y y.value) (sym same) ∙ b,
          )
      | inr miss ↦
          let later : find_slot opt ss ≡ some s = ground arith in found_inside lib opt ss rest later
    ]

module _ (lib : Library) (hours : lib.parse_duration (codes "60m") ≡ some (pos hour))
    (none_at_all : lib.parse_duration (codes "0") ≡ some (pos 0)) where
  duration_bounds :
      (z : ℤ) (s : Slot)
      → s.kind ≡ duration_kind
      → s.min ≡ codes "0"
      → s.max ≡ codes "60m"
      → below_min lib s (duration z) ≡ false
      → above_max lib s (duration z) ≡ false
      → (d : ℕ) × (z ≡ pos d) × (d ≤ hour)
  unfolding below_min above_max go_nsq.Settings.Values.value_compare
  duration_bounds (pos d) s k low high below above =
      let at_most = rw (high, k, tag_duration lib (codes "60m") hours) at above in
      (d, refl, ground arith)
  duration_bounds (negsuc d) s k low high below above =
      let at_least = rw (low, k, tag_duration lib (codes "0") none_at_all) at below in
      absurd (ground arith)

  -- A value of another type reads as 0.
  value_bounds :
      (s : Slot) (v : Value)
      → s.kind ≡ duration_kind
      → s.min ≡ codes "0"
      → s.max ≡ codes "60m"
      → below_min lib s v ≡ false
      → above_max lib s v ≡ false
      → (d : ℕ) × (duration_of (some (record s { value = v })) ≡ pos d) × (d ≤ hour)
  value_bounds s (duration z) k low high below above = duration_bounds z s k low high below above
  value_bounds s (text _) k low high below above = (0, refl, omega arith)
  value_bounds s (signed _) k low high below above = (0, refl, omega arith)
  value_bounds s (unsigned _) k low high below above = (0, refl, omega arith)
  value_bounds s (float _) k low high below above = (0, refl, omega arith)
  value_bounds s (boolean _) k low high below above = (0, refl, omega arith)
  value_bounds s (address _) k low high below above = (0, refl, omega arith)
  value_bounds s (strategy _) k low high below above = (0, refl, omega arith)
  value_bounds s (tls _) k low high below above = (0, refl, omega arith)
  value_bounds s nil k low high below above = (0, refl, omega arith)
  value_bounds s Value.other k low high below above = (0, refl, omega arith)

  field_bounds :
      (opt : List ℕ) (c : Config) {u : Slot}
      → IsSound lib c
      → find_slot opt zero_config.slots ≡ some u
      → u.kind ≡ duration_kind
      → u.min ≡ codes "0"
      → u.max ≡ codes "60m"
      → (d : ℕ) × (duration_of (find_slot opt c.slots) ≡ pos d) × (d ≤ hour)
  field_bounds opt c w has k low high =
      let (s, found, same) = find-tags opt c.slots zero_config.slots w.shape has in
      let (below, above) = found_inside lib opt c.slots w.in_range found in
      let (d, e, h) =
        value_bounds s s.value (ap (λ (x : Tags). x.1) same ∙ k) (ap (λ (x : Tags). x.2) same ∙ low)
          (ap (λ (x : Tags). x.3) same ∙ high) below above in
      (d, ap duration_of found ∙ e, h)

  pub multiplier_bounds :
      (c : Config)
      → IsSound lib c
      → (d : ℕ) × (duration_of (find_slot (codes "backoff_multiplier") c.slots) ≡ pos d)
        × (d ≤ hour)
  unfolding find_slot zero_config bytes_eq
  multiplier_bounds c w = field_bounds (codes "backoff_multiplier") c w refl refl refl refl

  pub longest_bounds :
      (c : Config)
      → IsSound lib c
      → (d : ℕ) × (duration_of (find_slot (codes "max_backoff_duration") c.slots) ≡ pos d)
        × (d ≤ hour)
  unfolding find_slot zero_config bytes_eq
  longest_bounds c w = field_bounds (codes "max_backoff_duration") c w refl refl refl refl
