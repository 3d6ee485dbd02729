-- ===== src/Lookup/Rounds.antt =====
-- consumer.go: nextLookupdEndpoint goes round the nsqlookupds, and queryLookupd with it.
use go_nsq.Base.{
  ℕ, zero, suc, ◌+◌, ◌-◌, ◌%◌, ◌≤◌, ◌<◌, ◌≡◌, refl, ap, ◌∙◌, false, List, [], ◌∷◌, ◌++◌, Option,
  none, some, arith, leb, length, get_elem?, get_or, take, drop,
}
use native.Mathlib.Nat.{mod-lt, mod-eq_of_lt, mod_self}
use go_nsq.Lookup.{Addr, Lookup}
use go_nsq.Lookup.Endpoints.{wrapped_index, next_lookupd_endpoint}
use go_nsq.Lookup.Steps.{advanced}

-- The answers of nextLookupdEndpoint to calls that follow each other.
unfoldable pub successive : ℕ → Lookup → Option (List Addr × Lookup)
unfolding next_lookupd_endpoint
successive zero l = some ([], l)
successive (suc n) l = elim (next_lookupd_endpoint l) [
  | none ↦ none
  | some (a, l') ↦ elim (successive n l') [ none ↦ none | some (rest, l'') ↦ some (a ∷ rest, l'') ]
]

-- The addresses from an index on, and round again from the first.
unfoldable pub turns : ℕ → ℕ → List Addr → List Addr
turns zero i addrs = []
turns (suc n) i addrs = get_or addrs i [] ∷ turns n (suc i % length addrs) addrs

get_elem?-some : (xs : List Addr) (i : ℕ) → i < length xs → get_elem? xs i ≡ some (get_or xs i [])
get_elem?-some [] i h = absurd (omega arith)
get_elem?-some (x ∷ xs) zero h = refl
get_elem?-some (x ∷ xs) (suc i) h = get_elem?-some xs i (omega arith)

drop_step : (xs : List Addr) (i : ℕ) → i < length xs → drop i xs ≡ get_or xs i [] ∷ drop (suc i) xs
drop_step [] i h = absurd (omega arith)
drop_step (x ∷ xs) zero h = refl
drop_step (x ∷ xs) (suc i) h = drop_step xs i (omega arith)

drop_all : (xs : List Addr) → drop (length xs) xs ≡ []
drop_all [] = refl
drop_all (x ∷ xs) = drop_all xs

turns_straight :
    (addrs : List Addr) (n i : ℕ) → i + n ≤ length addrs → turns n i addrs ≡ take n (drop i addrs)
unfolding turns
turns_straight addrs zero i h = refl
turns_straight addrs (suc zero) i h = rw (drop_step addrs i (omega arith)) refl
turns_straight addrs (suc (suc n)) i h =
    let below : suc i < length addrs = omega arith in
    rw (drop_step addrs i (omega arith), mod-eq_of_lt below)
      (ap (◌∷◌ (get_or addrs i [])) (turns_straight addrs (suc n) (suc i) (omega arith)))

-- `k` addresses follow the one at the index.
turns_over :
    (addrs : List Addr) (k i m : ℕ)
    → i + suc k ≡ length addrs
    → turns (suc (k + m)) i addrs ≡ drop i addrs ++ turns m 0 addrs
unfolding turns
turns_over addrs zero i m h =
    let last : suc i ≡ length addrs = omega arith in
    let none_left : 0 + m ≡ m = omega arith in
    let ends : drop (suc i) addrs ≡ [] = ap (λ (k : ℕ). drop k addrs) last ∙ drop_all addrs in
    let wraps : suc i % length addrs ≡ 0 =
      ap (λ (k : ℕ). k % length addrs) last ∙ mod_self (length addrs) in
    rw (drop_step addrs i (omega arith), ends, wraps, none_left) refl
turns_over addrs (suc k) i m h =
    let below : suc i < length addrs = omega arith in
    let one_more : suc k + m ≡ suc (k + m) = omega arith in
    rw (drop_step addrs i (omega arith), mod-eq_of_lt below, one_more)
      (ap (◌∷◌ (get_or addrs i [])) (turns_over addrs k (suc i) m (omega arith)))

-- From any index, as many turns as there are addresses give each of them.
turns-round :
    (addrs : List Addr) (i : ℕ)
    → i < length addrs
    → turns (length addrs) i addrs ≡ drop i addrs ++ take i addrs
turns-round addrs i h =
    let k = length addrs - suc i in
    let split : length addrs ≡ suc (k + i) = omega arith in
    ap (λ (n : ℕ). turns n i addrs) split
    ∙ turns_over addrs k i i (omega arith)
    ∙ ap (◌++◌ (drop i addrs)) (turns_straight addrs i 0 (omega arith))

wrapped_lt :
    (l : Lookup) → 0 < length l.lookupd_http_addrs → wrapped_index l < length l.lookupd_http_addrs
wrapped_lt l h = ground arith

pub next_some :
    (l : Lookup)
    → 0 < length l.lookupd_http_addrs
    → next_lookupd_endpoint l ≡ some (get_or l.lookupd_http_addrs (wrapped_index l) [], advanced l)
unfolding next_lookupd_endpoint
next_some l h =
    rw
      (
        get_elem?-some l.lookupd_http_addrs (wrapped_index l) (wrapped_lt l h),
        next_lookupd_endpoint,
      )
      refl

pub wrapped_advanced :
    (l : Lookup)
    → 0 < length l.lookupd_http_addrs
    → wrapped_index (advanced l) ≡ suc (wrapped_index l) % length l.lookupd_http_addrs
wrapped_advanced l h =
    let i = wrapped_index l in
    let one_on : i + 1 ≡ suc i = omega arith in
    let below : (i + 1) % length l.lookupd_http_addrs < length l.lookupd_http_addrs =
      mod-lt (i + 1) h in
    let inside : leb (length l.lookupd_http_addrs) ((i + 1) % length l.lookupd_http_addrs) ≡ false =
      ground arith in
    rw inside (ap (λ (k : ℕ). k % length l.lookupd_http_addrs) one_on)

successive-turns :
    (n : ℕ) (l : Lookup)
    → 0 < length l.lookupd_http_addrs
    → (l' : Lookup) × (successive n l ≡ some (turns n (wrapped_index l) l.lookupd_http_addrs, l'))
unfolding turns successive
successive-turns zero l h = (l, refl)
successive-turns (suc n) l h =
    let (l', e) = successive-turns n (advanced l) h in
    (l', rw (next_some l h, successive) (rw e (rw (wrapped_advanced l h) refl)))

-- As many calls of nextLookupdEndpoint in a row as there are nsqlookupds return each of them once, in
-- the order of the list, from wherever the index stands.
pub successive_round :
    (l : Lookup)
    → 0 < length l.lookupd_http_addrs
    → (l' : Lookup) × (successive (length l.lookupd_http_addrs) l
        ≡ some (
          drop (wrapped_index l) l.lookupd_http_addrs
              ++ take (wrapped_index l) l.lookupd_http_addrs,
          l',
        ))
successive_round l h =
    let (l', e) = successive-turns (length l.lookupd_http_addrs) l h in
    (
      l',
      e
          ∙ ap (λ (xs : List Addr). some (xs, l'))
              (turns-round l.lookupd_http_addrs (wrapped_index l) (wrapped_lt l h)),
    )
