-- ===== src/Fibers/Coroutine.antt =====
-- What koro/fiber.cpp promises of a fiber, with no contexts: a resumed fiber does what its function does
-- up to the next `yield`, the next `hold` or its end.
use koro.Prelude.{ℕ, suc, ◌<◌, List, [], ◌∷◌, ◌++◌, ◌≡◌, ◌⊎◌, inl, inr, refl, ap, length, arith}
use koro.Scheduling.Task.{State, ready, hold, term}
use koro.Fibers.{Action, work, yields, holds}

-- What is done, how it stops, and what is left of the function.
pub record Segment : Type 0 where
  pub done : List ℕ
  pub stops : State
  pub left : List Action

abbrev pub before : ℕ → Segment → Segment
before n s = record s { done = n ∷ s.done }

abbrev pub segment : List Action → Segment
segment [] = record { done = []; stops = term; left = [] }
segment (work n ∷ rest) = before n (segment rest)
segment (yields ∷ rest) = record { done = []; stops = ready; left = rest }
segment (holds ∷ rest) = record { done = []; stops = hold; left = rest }

-- All that the function does, and how often it stops on the way.
abbrev pub works : List Action → List ℕ
works [] = []
works (work n ∷ rest) = n ∷ works rest
works (yields ∷ rest) = works rest
works (holds ∷ rest) = works rest

abbrev pub stops_on_way : List Action → ℕ
stops_on_way [] = 0
stops_on_way (work n ∷ rest) = stops_on_way rest
stops_on_way (yields ∷ rest) = suc (stops_on_way rest)
stops_on_way (holds ∷ rest) = suc (stops_on_way rest)

-- A segment ends the function, or leaves a shorter rest of it.
abbrev pub Splits : List Action → Segment → Type 0
Splits rest s =
    (s.stops ≡ term) × (works rest ≡ s.done) × (stops_on_way rest ≡ 0)
    ⊎ ((s.stops ≡ ready) ⊎ (s.stops ≡ hold))
      × (works rest ≡ s.done ++ works s.left)
      × (stops_on_way rest ≡ suc (stops_on_way s.left))
      × (length s.left < length rest)

Splits-before :
    (n : ℕ) (rest : List Action) (s : Segment) → Splits rest s → Splits (work n ∷ rest) (before n s)
Splits-before n rest s (inl (t, w, k)) = inl (t, ap (◌∷◌ n) w, k)
Splits-before n rest s (inr (t, w, k, shorter)) = inr (t, ap (◌∷◌ n) w, k, omega arith)

pub segment-Splits : (rest : List Action) → Splits rest (segment rest)
segment-Splits [] = inl (refl, refl, refl)
segment-Splits (work n ∷ rest) = Splits-before n rest (segment rest) (segment-Splits rest)
segment-Splits (yields ∷ rest) = inr (inl refl, refl, refl, omega arith)
segment-Splits (holds ∷ rest) = inr (inr refl, refl, refl, omega arith)
