-- ===== src/Protocol/Names.antt =====
-- protocol.go: the names that pass isValidName, against the regular expression read as a language.
use go_nsq.Base.{
  ℕ, ◌≤◌, ◌≡◌, refl, ap, ◌⊎◌, ◌↔◌, inl, inr, Bool, true, false, ◌&&◌, List, [], ◌∷◌, ◌++◌, arith,
  length, Bool-cases,
}
use go_nsq.Base.Bytes.{All, bytes_eq, bytes_eq_iff}
use go_nsq.Protocol.{
  is_name_char, match_tail, match_name, is_valid_name, is_valid_topic_name, ephemeral,
}

-- A character of the class: a dot, a letter, a digit, an underscore or a dash.
abbrev pub IsNameChar : ℕ → Type 0
IsNameChar c =
    (c ≡ 46)
    ⊎ ((97 ≤ c) × (c ≤ 122))
    ⊎ ((65 ≤ c) × (c ≤ 90))
    ⊎ ((48 ≤ c) × (c ≤ 57))
    ⊎ (c ≡ 95)
    ⊎ (c ≡ 45)

-- Characters of the class, and perhaps #ephemeral behind them.
abbrev pub IsTail : List ℕ → Type 0
IsTail cs =
    (base : List ℕ) × (tail : List ℕ) × (cs ≡ base ++ tail)
    × All IsNameChar base
    × ((tail ≡ []) ⊎ (tail ≡ ephemeral))

abbrev pub IsName : List ℕ → Type 0
IsName cs = (c : ℕ) × (rest : List ℕ) × (cs ≡ c ∷ rest) × IsNameChar c × IsTail rest

is_name_char_iff : (c : ℕ) → (is_name_char c ≡ true) ↔ IsNameChar c
unfolding is_name_char
is_name_char_iff c = (λ h. ground arith, λ h. ground arith)

and_true : (a b : Bool) → (a && b) ≡ true → (a ≡ true) × (b ≡ true)
and_true a b h = ground arith

match_tail_step :
    (c : ℕ) (cs : List ℕ)
    → match_tail (c ∷ cs) ≡ true
    → bytes_eq (c ∷ cs) ephemeral ≡ false
    → (is_name_char c ≡ true) × (match_tail cs ≡ true)
unfolding match_tail
match_tail_step c cs h e = ground arith

match_tail-IsTail : (cs : List ℕ) → match_tail cs ≡ true → IsTail cs
match_tail-IsTail [] h = ([], [], refl, tt, inl refl)
match_tail-IsTail (c ∷ cs) h = elim (Bool-cases (bytes_eq (c ∷ cs) ephemeral)) [
  | inl e ↦ ([], c ∷ cs, refl, tt, inr ((bytes_eq_iff _ _).0 e))
  | inr e ↦
      let (good, rest) = match_tail_step c cs h e in
      let (base, tail, split, chars, end) = match_tail-IsTail cs rest in
      (c ∷ base, tail, ap (◌∷◌ c) split, ((is_name_char_iff c).0 good, chars), end)
]

IsTail-match_tail :
    (base tail : List ℕ)
    → All IsNameChar base
    → (tail ≡ []) ⊎ (tail ≡ ephemeral)
    → match_tail (base ++ tail) ≡ true
unfolding match_tail
IsTail-match_tail [] tail h (inl e) = rw e refl
IsTail-match_tail [] tail h (inr e) = rw e (unfold is_name_char bytes_eq in refl)
IsTail-match_tail (c ∷ base) tail h t =
    rw ((is_name_char_iff c).1 h.0, IsTail-match_tail base tail h.1 t) refl

match_name-IsName : (cs : List ℕ) → match_name cs ≡ true → IsName cs
unfolding match_name
match_name-IsName [] h = cc
match_name-IsName (c ∷ cs) h =
    let (good, tail) = and_true (is_name_char c) (match_tail cs) h in
    (c, cs, refl, (is_name_char_iff c).0 good, match_tail-IsTail cs tail)

IsName-match_name : (cs : List ℕ) → IsName cs → match_name cs ≡ true
IsName-match_name cs (c, rest, e, good, (base, tail, split, chars, end)) =
    rw (e, split)
      (unfold match_name in
        rw ((is_name_char_iff c).1 good, IsTail-match_tail base tail chars end) refl)

name_tests :
    (name : List ℕ)
    → (is_valid_name name ≡ true)
      ↔ ((1 ≤ length name) × (length name ≤ 64) × (match_name name ≡ true))
unfolding is_valid_name
name_tests name = (λ h. ground arith, λ h. ground arith)

-- A topic name passes exactly when it has 1 to 64 bytes and the form of the expression: characters
-- of the class, at least one, and perhaps #ephemeral behind them.
pub is_valid_topic_name_iff :
    (name : List ℕ)
    → (is_valid_topic_name name ≡ true) ↔ ((1 ≤ length name) × (length name ≤ 64) × IsName name)
unfolding is_valid_topic_name
is_valid_topic_name_iff name = (
  λ h.
      let (least, most, form) = (name_tests name).0 h in (least, most, match_name-IsName name form),
  λ (least, most, form). (name_tests name).1 (least, most, IsName-match_name name form),
)
