-- ===== src/Base/Decimal.antt =====
-- strconv.Itoa: the decimal digits of an int.
use go_nsq.Base.{
  ℕ, zero, suc, ◌+◌, ◌-◌, ◌*◌, ◌/◌, ◌%◌, ◌≤◌, ◌<◌, ◌≡◌, refl, ◌∙◌, ap, inl, inr, Bool-cases, List,
  [], ◌∷◌, arith, ltb, ◌==◌, if◌then◌else◌,
}
use go_nsq.Base.Int.{ℤ, pos, negsuc, sub_ℕ}
use go_nsq.Base.Bytes.{All}

-- The digits of `n` in front of `acc`; a number has no more digits than the number itself, and one.
unfoldable pub digits_from : ℕ → ℕ → List ℕ → List ℕ
digits_from zero n acc = acc
digits_from (suc f) n acc =
    let more = digits_from f (n / 10) ((48 + n % 10) ∷ acc) in
    if ltb n 10 then (48 + n) ∷ acc else more

unfoldable pub itoa : ℤ → List ℕ
itoa (pos n) = digits_from (suc n) n []
itoa (negsuc n) = 45 ∷ digits_from (suc (suc n)) (suc n) []

-- What a reader makes of digits.
unfoldable pub value_from : ℕ → List ℕ → ℕ
value_from acc [] = acc
value_from acc (c ∷ cs) = value_from (acc * 10 + (c - 48)) cs

value-digits_from :
    (f n : ℕ) (acc : List ℕ) → n < f → value_from 0 (digits_from f n acc) ≡ value_from n acc
unfolding digits_from value_from
value-digits_from zero n acc h = absurd (omega arith)
value-digits_from (suc f) n acc h = elim (Bool-cases (ltb n 10)) [
  | inl one ↦
      let e : 0 * 10 + (48 + n - 48) ≡ n = omega arith in
      rw one (ap (λ (k : ℕ). value_from k acc) e)
  | inr more ↦
      let e : n / 10 * 10 + (48 + n % 10 - 48) ≡ n = omega arith in
      rw more (
        value-digits_from f (n / 10) ((48 + n % 10) ∷ acc) (ground arith)
        ∙ ap (λ (k : ℕ). value_from k acc) e)
]

-- A digit is no space and no newline.
abbrev pub IsDigit : ℕ → Type 0
IsDigit c = (48 ≤ c) × (c ≤ 57)

digits_from-IsDigit : (f n : ℕ) (acc : List ℕ) → All IsDigit acc → All IsDigit (digits_from f n acc)
unfolding digits_from
digits_from-IsDigit zero n acc h = h
digits_from-IsDigit (suc f) n acc h = elim (Bool-cases (ltb n 10)) [
  | inl one ↦ rw one (((omega arith), ground arith), h)
  | inr more ↦ rw more (digits_from-IsDigit f (n / 10) ((48 + n % 10) ∷ acc) (omega arith, h))
]

-- How a reader takes the sign.
unfoldable pub atoi : List ℕ → ℤ
atoi [] = pos 0
atoi (c ∷ cs) = if c == 45 then sub_ℕ 0 (value_from 0 cs) else pos (value_from 0 (c ∷ cs))

atoi_digits : (cs : List ℕ) → All IsDigit cs → atoi cs ≡ pos (value_from 0 cs)
unfolding atoi value_from
atoi_digits [] h = refl
atoi_digits (c ∷ cs) h = ground arith

pub atoi-itoa : (z : ℤ) → atoi (itoa z) ≡ z
unfolding itoa
atoi-itoa (pos n) =
    atoi_digits _ (digits_from-IsDigit (suc n) n [] tt)
    ∙ ap pos (value-digits_from (suc n) n [] (omega arith) ∙ unfold value_from in refl)
atoi-itoa (negsuc n) =
    unfold atoi in
    rw (value-digits_from (suc (suc n)) (suc n) [] (omega arith))
      (unfold value_from in ground arith)

-- A character of a number is a digit or the sign: no space and no newline.
abbrev pub IsNumberChar : ℕ → Type 0
IsNumberChar c = (45 ≤ c) × (c ≤ 57)

digits_numbers : (cs : List ℕ) → All IsDigit cs → All IsNumberChar cs
digits_numbers [] h = tt
digits_numbers (c ∷ cs) h = (omega arith, digits_numbers cs h.1)

pub itoa-IsNumberChar : (z : ℤ) → All IsNumberChar (itoa z)
unfolding itoa
itoa-IsNumberChar (pos n) = digits_numbers _ (digits_from-IsDigit (suc n) n [] tt)
itoa-IsNumberChar (negsuc n) =
    (omega arith, digits_numbers _ (digits_from-IsDigit (suc (suc n)) (suc n) [] tt))
