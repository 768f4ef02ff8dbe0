-- ===== src/Elog/Formatting/Numbers.antt =====
-- The numbers of elog/timestamp.cpp: how long they are, and that they can be read back.
use koro.Prelude.{
  ℕ, zero, suc, ◌+◌, ◌-◌, ◌*◌, ◌/◌, ◌%◌, ◌^◌, ◌≤◌, ◌<◌, ◌≡◌, refl, sym, ap, ◌∙◌, List, [], ◌∷◌,
  ◌++◌, All, All-append, ltb, length, take, drop, replicate, length-append, length-replicate,
  append-nil, Bool-cases, inl, inr, arith,
}
use koro.Elog.Context.{Text}
use koro.Elog.Formatting.{digits, decimal, padded}

abbrev pub IsDigit : ℕ → Type 0
IsDigit c = (b'0' ≤ c) × (c < b'0' + 10)

-- The number that digits stand for, behind `n`.
abbrev pub value : ℕ → Text → ℕ
value n [] = n
value n (c ∷ s) = value (n * 10 + (c - b'0')) s

value-append : (n : ℕ) (s t : Text) → value n (s ++ t) ≡ value (value n s) t
value-append n [] t = refl
value-append n (c ∷ s) t = value-append (n * 10 + (c - b'0')) s t

pub digits-IsDigit : (fuel n : ℕ) → All IsDigit (digits fuel n)
unfolding digits
digits-IsDigit zero n = tt
digits-IsDigit (suc fuel) n = elim (Bool-cases (ltb n 10)) [
  | inl last ↦ rw last ((omega arith, ground arith), tt)
  | inr more ↦ rw more (
      All-append IsDigit (digits fuel (n / 10)) _ (digits-IsDigit fuel (n / 10))
        ((omega arith, omega arith), tt))
]

value-digits : (fuel n : ℕ) → n < fuel → value 0 (digits fuel n) ≡ n
unfolding digits
value-digits zero n h = absurd (omega arith)
value-digits (suc fuel) n h = elim (Bool-cases (ltb n 10)) [
  | inl last ↦ rw last (omega arith)
  | inr more ↦
      let big : 10 ≤ n = ground arith in
      rw more (
        value-append 0 (digits fuel (n / 10)) ((b'0' + n % 10) ∷ [])
        ∙ ap (λ v. v * 10 + (b'0' + n % 10 - b'0')) (value-digits fuel (n / 10) (omega arith))
        ∙ omega arith)
]

tenth_below : (n w : ℕ) → n < 10 ^ suc (suc w) → n / 10 < 10 ^ suc w
tenth_below n w h = omega arith

length-digits_more :
    (fuel n w : ℕ)
    → ((v : ℕ) → n / 10 < 10 ^ suc v → length (digits fuel (n / 10)) ≤ suc v)
    → n < 10 ^ suc w
    → 10 ≤ n
    → length (digits fuel (n / 10) ++ (b'0' + n % 10) ∷ []) ≤ suc w
length-digits_more fuel n zero ih h big = absurd (omega arith)
length-digits_more fuel n (suc w) ih h big =
    omega
      (arith, length-append (digits fuel (n / 10)) ((b'0' + n % 10) ∷ []), ih w (tenth_below n w h))

length-digits : (fuel n w : ℕ) → n < 10 ^ suc w → length (digits fuel n) ≤ suc w
unfolding digits
length-digits zero n w h = omega arith
length-digits (suc fuel) n w h = elim (Bool-cases (ltb n 10)) [
  | inl last ↦ rw last (omega arith)
  | inr more ↦
      rw more (length-digits_more fuel n w (λ v. length-digits fuel (n / 10) v) h (ground arith))
]

zeros : (k : ℕ) → value 0 (replicate k b'0') ≡ 0
zeros zero = refl
zeros (suc k) = zeros k

pub length-padded : (w n : ℕ) → n < 10 ^ suc w → length (padded (suc w) n) ≡ suc w
unfolding padded
length-padded w n h =
    let short = length-digits (suc n) n w h in
    length-append (replicate (suc w - length (decimal n)) b'0') (decimal n)
    ∙ ap (λ k. k + length (decimal n)) (length-replicate (suc w - length (decimal n)) b'0')
    ∙ omega (arith, short)

pub value-padded : (w n : ℕ) → value 0 (padded w n) ≡ n
unfolding padded
value-padded w n =
    value-append 0 (replicate (w - length (decimal n)) b'0') (decimal n)
    ∙ ap (λ v. value v (decimal n)) (zeros (w - length (decimal n)))
    ∙ value-digits (suc n) n (omega arith)

-- Reading numbers of fixed widths, with one byte between two of them.
abbrev pub read_fields : List ℕ → Text → List ℕ
read_fields [] s = []
read_fields (w ∷ ws) s = value 0 (take w s) ∷ read_fields ws (drop (suc w) s)

pub take-exact : (xs ys : Text) (w : ℕ) → length xs ≡ w → take w (xs ++ ys) ≡ xs
take-exact [] [] zero h = refl
take-exact [] (y ∷ ys) zero h = refl
take-exact [] ys (suc w) h = absurd (omega arith)
take-exact (x ∷ xs) ys zero h = absurd (omega arith)
take-exact (x ∷ xs) ys (suc w) h = ap (◌∷◌ x) (take-exact xs ys w (omega arith))

drop-exact : (xs ys : Text) (c w : ℕ) → length xs ≡ w → drop (suc w) (xs ++ (c ∷ ys)) ≡ ys
drop-exact [] ys c zero h = refl
drop-exact [] ys c (suc w) h = absurd (omega arith)
drop-exact (x ∷ xs) ys c zero h = absurd (omega arith)
drop-exact (x ∷ xs) ys c (suc w) h = drop-exact xs ys c w (omega arith)

pub read-padded :
    (w n c : ℕ) (ws : List ℕ) (rest : Text)
    → n < 10 ^ suc w
    → read_fields (suc w ∷ ws) (padded (suc w) n ++ (c ∷ rest)) ≡ n ∷ read_fields ws rest
read-padded w n c ws rest h =
    let len = length-padded w n h in
    ap (λ s. value 0 s ∷ read_fields ws (drop (suc (suc w)) (padded (suc w) n ++ (c ∷ rest))))
      (take-exact (padded (suc w) n) (c ∷ rest) (suc w) len)
    ∙ ap (λ s. value 0 (padded (suc w) n) ∷ read_fields ws s)
        (drop-exact (padded (suc w) n) rest c (suc w) len)
    ∙ ap (λ v. v ∷ read_fields ws rest) (value-padded (suc w) n)

pub read-padded_last :
    (w n : ℕ) → n < 10 ^ suc w → read_fields (suc w ∷ []) (padded (suc w) n) ≡ n ∷ []
read-padded_last w n h =
    ap (λ s. value 0 s ∷ [])
      (ap (take (suc w)) (sym (append-nil (padded (suc w) n)))
        ∙ take-exact (padded (suc w) n) [] (suc w) (length-padded w n h))
    ∙ ap (λ v. v ∷ []) (value-padded (suc w) n)
