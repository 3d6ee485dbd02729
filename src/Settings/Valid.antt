-- ===== src/Settings/Valid.antt =====
-- config.go: what Validate accepts.
use go_nsq.Base.{◌≡◌, ◌≢◌, ◌⊎◌, []}
use go_nsq.Settings.Values.{Library, less, greater, value_compare}
use go_nsq.Settings.Slots.{Slot, tag_value}

-- The value of a field is not less than its minimum and not greater than its maximum, where it has
-- them.
abbrev pub IsInRange : Library → Slot → Type 0
IsInRange lib s =
    ((s.min ≡ []) ⊎ (value_compare lib s.value (tag_value lib s.min s.kind) ≢ less))
    × ((s.max ≡ []) ⊎ (value_compare lib s.value (tag_value lib s.max s.kind) ≢ greater))
