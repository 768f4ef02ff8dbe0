-- ===== src/Pool/Workers/Sums.antt =====
-- How often a task stands in a list.
use koro.Prelude.{ℕ, ◌+◌, ◌≡◌, List, [], ◌∷◌, ◌++◌, if◌then◌else◌, ◌==◌, arith}

abbrev pub occurrences : ℕ → List ℕ → ℕ
occurrences t [] = 0
occurrences t (x ∷ xs) = (if t == x then 1 else 0) + occurrences t xs

pub occurrences-append :
    (t : ℕ) (xs ys : List ℕ) → occurrences t (xs ++ ys) ≡ occurrences t xs + occurrences t ys
occurrences-append t [] ys = omega arith
occurrences-append t (x ∷ xs) ys = omega (arith, occurrences-append t xs ys)
