-- ===== src/Base/Bytes.antt =====
-- Bytes and big-endian numbers, as Go's encoding/binary reads and writes them.
use go_nsq.Base.{
  ℕ, zero, suc, ◌+◌, ◌*◌, ◌/◌, ◌%◌, ◌^◌, ◌<◌, ◌≡◌, refl, ap, ◌∙◌, Bool, true, false, ◌&&◌, ◌↔◌,
  List, [], ◌∷◌, ◌++◌, arith, length, take, drop, ◌==◌,
}
use mathlib.Core.Path.{ap₂}
use native.Mathlib.Nat.{
  div-add-mod, pow-suc, mul_comm, div-div-eq-div-mul, div-eq_of_lt, mul-add-div_right,
}

abbrev pub IsByte : ℕ → Type 0
IsByte b = b < 256

abbrev pub All {ℓ κ} : {A : Type ℓ} → (A → Type κ) → List A → Type κ
All P [] = Unit
All P (x ∷ xs) = P x × All P xs

-- The `k` bytes of `n`, the highest first; what does not fit is cut off.
unfoldable pub put_be : ℕ → ℕ → List ℕ
put_be zero n = []
put_be (suc k) n = (n / 256 ^ k % 256) ∷ put_be k n

unfoldable pub get_be_from : ℕ → List ℕ → ℕ
get_be_from acc [] = acc
get_be_from acc (b ∷ bs) = get_be_from (acc * 256 + b) bs

unfoldable pub get_be : List ℕ → ℕ
unfolding get_be_from
get_be bs = get_be_from 0 bs

split_digit : (n m : ℕ) → n % (256 * m) ≡ n / m % 256 * m + n % m
split_digit n m = grind (
  arith,
  div-div-eq-div-mul n m 256,
  mul_comm m 256,
  div-add-mod n m,
  div-add-mod n (256 * m),
  ap (λ (t : ℕ). m * t) (div-add-mod (n / m) 256),
)

get_be_from-put_be : (k acc n : ℕ) → get_be_from acc (put_be k n) ≡ acc * 256 ^ k + n % 256 ^ k
unfolding get_be_from put_be
get_be_from-put_be zero acc n = omega arith
get_be_from-put_be (suc k) acc n =
    get_be_from-put_be k (acc * 256 + n / 256 ^ k % 256) n
    ∙ rw (pow-suc 256 k) (omega (arith, rw (mul_comm 256 (256 ^ k)) at (split_digit n (256 ^ k))))

-- Reading what was written gives the number back, cut to `k` bytes.
pub get_be-put_be : (k n : ℕ) → get_be (put_be k n) ≡ n % 256 ^ k
unfolding get_be
get_be-put_be k n = omega (arith, get_be_from-put_be k 0 n)

pub length-put_be : (k n : ℕ) → length (put_be k n) ≡ k
unfolding put_be
length-put_be zero n = refl
length-put_be (suc k) n = ap suc (length-put_be k n)

-- The leading digits add up on top of the rest.
get_be_from_split :
    (bs : List ℕ) (acc : ℕ) → get_be_from acc bs ≡ acc * 256 ^ length bs + get_be_from 0 bs
unfolding get_be_from
get_be_from_split [] acc = omega arith
get_be_from_split (b ∷ bs) acc =
    get_be_from_split bs (acc * 256 + b)
    ∙ rw (pow-suc 256 (length bs)) (omega (arith, get_be_from_split bs (0 * 256 + b)))

pub get_be-lt : (bs : List ℕ) → All IsByte bs → get_be bs < 256 ^ length bs
unfolding get_be get_be_from
get_be-lt [] h = omega arith
get_be-lt (b ∷ bs) (hb, hs) =
    let below : get_be_from 0 bs < 256 ^ length bs = get_be-lt bs hs in
    rw (get_be_from_split bs (0 * 256 + b), pow-suc 256 (length bs)) (grind (arith, below))

top_digit : (a b m r : ℕ) → b < 256 → r < m → ((a * 256 + b) * m + r) / m % 256 ≡ b
top_digit a b m r hb hr =
    rw (mul-add-div_right {m = m} (omega arith) (a * 256 + b) r, div-eq_of_lt hr) (omega arith)

put_be-get_be_from :
    (bs : List ℕ) (acc : ℕ) → All IsByte bs → put_be (length bs) (get_be_from acc bs) ≡ bs
unfolding put_be get_be_from
put_be-get_be_from [] acc h = refl
put_be-get_be_from (b ∷ bs) acc (hb, hs) =
    ap₂ ◌∷◌
      (rw (get_be_from_split bs (acc * 256 + b)) (
        top_digit acc b (256 ^ length bs) (get_be_from 0 bs) hb (unfold get_be in get_be-lt bs hs)))
      (put_be-get_be_from bs (acc * 256 + b) hs)

-- Writing what was read from `k` bytes gives the bytes back.
pub put_be-get_be : (bs : List ℕ) → All IsByte bs → put_be (length bs) (get_be bs) ≡ bs
unfolding get_be
put_be-get_be bs h = put_be-get_be_from bs 0 h

-- The same where the length is known, and the value fits.
pub field_back :
    (k : ℕ) (bs : List ℕ)
    → All IsByte bs
    → length bs ≡ k
    → (put_be k (get_be bs) ≡ bs) × (get_be bs < 256 ^ k)
field_back k bs h e = (rw e at (put_be-get_be bs h), rw e at (get_be-lt bs h))

pub put_be-IsByte : (k n : ℕ) → All IsByte (put_be k n)
unfolding put_be
put_be-IsByte zero n = tt
put_be-IsByte (suc k) n = (omega arith, put_be-IsByte k n)

unfoldable pub bytes_eq : List ℕ → List ℕ → Bool
bytes_eq [] [] = true
bytes_eq (x ∷ xs) (y ∷ ys) = x == y && bytes_eq xs ys
bytes_eq _ _ = false

pub bytes_eq_iff : (xs ys : List ℕ) → (bytes_eq xs ys ≡ true) ↔ (xs ≡ ys)
unfolding bytes_eq
bytes_eq_iff [] [] = ground arith
bytes_eq_iff [] (y ∷ ys) = ground arith
bytes_eq_iff (x ∷ xs) [] = ground arith
bytes_eq_iff (x ∷ xs) (y ∷ ys) = ground (arith, bytes_eq_iff xs ys)

pub All-append {ℓ κ} :
    {A : Type ℓ} (P : A → Type κ) (xs ys : List A) → All P xs → All P ys → All P (xs ++ ys)
All-append P [] ys h k = k
All-append P (x ∷ xs) ys h k = (h.0, All-append P xs ys h.1 k)

pub All-take {κ} : (P : ℕ → Type κ) (n : ℕ) (xs : List ℕ) → All P xs → All P (take n xs)
All-take P zero xs h = tt
All-take P (suc n) [] h = tt
All-take P (suc n) (x ∷ xs) h = (h.0, All-take P n xs h.1)

pub All-drop {κ} : (P : ℕ → Type κ) (n : ℕ) (xs : List ℕ) → All P xs → All P (drop n xs)
All-drop P zero xs h = h
All-drop P (suc n) [] h = tt
All-drop P (suc n) (x ∷ xs) h = All-drop P n xs h.1
