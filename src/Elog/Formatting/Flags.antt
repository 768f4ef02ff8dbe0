-- ===== src/Elog/Formatting/Flags.antt =====
-- elog/flags.h: the operators of `Flags`, on bytes. `operator|=` and its like give what `operator|` does.
use Prim.Native.Nat.{bit_and, bit_or, bit_xor}
use koro.Prelude.{
  ℕ, ◌-◌, ◌^◌, ◌<◌, ◌≡◌, sym, ap, ◌∙◌, Bool, not, ◌&&◌, ◌||◌, ◌==◌, arith, digit, xor, digit-and,
  digit-or, digit-xor, digit-complement, bit_and-lt, bit_or-lt, bit_xor-lt, mask-digit,
}
use koro.Elog.Formatting.{has_flag}

unfoldable pub flags_or : ℕ → ℕ → ℕ
flags_or value other = bit_or value other

unfoldable pub flags_and : ℕ → ℕ → ℕ
flags_and value other = bit_and value other

unfoldable pub flags_xor : ℕ → ℕ → ℕ
flags_xor value other = bit_xor value other

-- The complement, cut to a byte.
unfoldable pub flags_not : ℕ → ℕ
flags_not value = 2 ^ 8 - 1 - value

unfoldable pub to_bool : ℕ → Bool
to_bool value = not (value == 0)

has_flag-digit : (k flags : ℕ) → has_flag (2 ^ k) flags ≡ digit k flags
unfolding has_flag
has_flag-digit k flags = mask-digit k flags

-- Flags are sets of the eight bits of a byte: a flag is in `a | b`, `a & b`, `a ^ b` and `~a` as in the union,
-- the intersection, the symmetric difference and the complement, and these are bytes again.
pub flags_are_sets :
    (k a b : ℕ)
    → k < 8
    → a < 2 ^ 8
    → b < 2 ^ 8
    → (has_flag (2 ^ k) (flags_or a b) ≡ (has_flag (2 ^ k) a || has_flag (2 ^ k) b))
      × (has_flag (2 ^ k) (flags_and a b) ≡ (has_flag (2 ^ k) a && has_flag (2 ^ k) b))
      × (has_flag (2 ^ k) (flags_xor a b) ≡ xor (has_flag (2 ^ k) a) (has_flag (2 ^ k) b))
      × (has_flag (2 ^ k) (flags_not a) ≡ not (has_flag (2 ^ k) a))
      × (flags_or a b < 2 ^ 8)
      × (flags_and a b < 2 ^ 8)
      × (flags_xor a b < 2 ^ 8)
      × (flags_not a < 2 ^ 8)
unfolding flags_or flags_and flags_xor flags_not
flags_are_sets k a b h p q =
    let of_a = has_flag-digit k a in
    let of_b = has_flag-digit k b in
    (
      has_flag-digit k (bit_or a b) ∙ digit-or k a b ∙ both ◌||◌ (sym of_a) (sym of_b),
      has_flag-digit k (bit_and a b) ∙ digit-and k a b ∙ both ◌&&◌ (sym of_a) (sym of_b),
      has_flag-digit k (bit_xor a b) ∙ digit-xor k a b ∙ both xor (sym of_a) (sym of_b),
      has_flag-digit k (2 ^ 8 - 1 - a) ∙ digit-complement 8 k a h p ∙ ap not (sym of_a),
      bit_or-lt 8 a b p q,
      bit_and-lt 8 a b p q,
      bit_xor-lt 8 a b p q,
      omega arith,
    )
  where
    both : (op : Bool → Bool → Bool) {x x' y y' : Bool} → x ≡ x' → y ≡ y' → op x y ≡ op x' y'
    both op e f = λ i. op (e i) (f i)
