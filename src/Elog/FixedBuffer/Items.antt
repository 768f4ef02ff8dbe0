-- ===== src/Elog/FixedBuffer/Items.antt =====
-- elog/fixed_buffer.hpp: a buffer seen as the list of the records pushed since its last reset.
use koro.Prelude.{
  ℕ, suc, ◌+◌, ◌≤◌, ◌≡◌, refl, true, some, List, [], true, ◌∷◌, ◌++◌, if◌then◌else◌, arith, length,
  length-set, length-replicate, take, take-set, set, Bool-cases, inl, inr, ◌∙◌,
}
use native.Mathlib.Numerals.{add-one}
use koro.Elog.Context.{Context, blank}
use koro.Elog.FixedBuffer.{Buffer, new_buffer, check, full, push, reset, items}

-- The array is there, has N slots, and the index lies in it.
abbrev pub IsBuffer : ℕ → Buffer → Type 0
IsBuffer n b = (a : List Context) × (b.ctxs ≡ some a) × (length a ≡ n) × (b.index ≤ n)

pub new_buffer-IsBuffer : (n now : ℕ) → IsBuffer n (new_buffer n now)
unfolding new_buffer
new_buffer-IsBuffer n now = (_, refl, length-replicate n (blank now), omega arith)

pub reset-IsBuffer : (n : ℕ) (b : Buffer) → IsBuffer n b → IsBuffer n (reset b)
unfolding reset
reset-IsBuffer n b (a, e, l, h) = (a, e, l, omega arith)

pub IsBuffer-check : {n : ℕ} {b : Buffer} → IsBuffer n b → check b ≡ true
unfolding check
IsBuffer-check (a, e, l, h) = rw (e, check)

pub length-take_of_le {ℓ} :
    {A : Type ℓ} (i : ℕ) (xs : List A) → i ≤ length xs → length (take i xs) ≡ i
length-take_of_le ℕ.zero xs h = refl
length-take_of_le (suc i) [] h = absurd (omega arith)
length-take_of_le (suc i) (x ∷ xs) h = omega (arith, length-take_of_le {ℓ} i xs (omega arith))

-- `size()` counts the records.
pub index-items : (n : ℕ) (b : Buffer) → IsBuffer n b → length (items b) ≡ b.index
unfolding items
index-items n b (a, e, l, h) = ground (arith, length-take_of_le b.index a)

-- The outcome of a push on a buffer that is there: never a failed assertion, the record at the
-- end, or nothing changed if the buffer is full.
pub record Pushed (n : ℕ) (b : Buffer) (ctx : Context) (r : Buffer) : Type 0 where
  pub done : push n b ctx ≡ some r
  pub good : IsBuffer n r
  pub contents : items r ≡ (if full n b then items b else items b ++ ctx ∷ [])

after_push : ℕ → Buffer → List Context → Context → Buffer
after_push n b a ctx =
    if full n b then b else record { ctxs = some (set a b.index ctx); index = b.index + 1 }

after_push-IsBuffer :
    (n : ℕ) (b : Buffer) (a : List Context) (ctx : Context)
    → b.ctxs ≡ some a
    → length a ≡ n
    → b.index ≤ n
    → IsBuffer n (after_push n b a ctx)
unfolding after_push
after_push-IsBuffer n b a ctx e l h = elim (Bool-cases (full n b)) [
  | inl f ↦ rw f (a, e, l, h)
  | inr f ↦ rw f (set a b.index ctx, refl, length-set a b.index ctx ∙ l, ground arith)
]

items-after_push :
    (n : ℕ) (b : Buffer) (a : List Context) (ctx : Context)
    → b.ctxs ≡ some a
    → length a ≡ n
    → b.index ≤ n
    → items (after_push n b a ctx) ≡ (if full n b then items b else items b ++ ctx ∷ [])
unfolding after_push items
items-after_push n b a ctx e l h = elim (Bool-cases (full n b)) [
  | inl f ↦ rw f refl
  | inr f ↦ rw (f, e, add-one) (take-set a b.index ctx (ground arith))
]

-- A push on a buffer that is there never fails an assertion and keeps the index in range. It appends
-- the record to the records of the buffer, or, if the buffer is full, changes nothing.
pub push-Pushed :
    (n : ℕ) (b : Buffer) (ctx : Context) → IsBuffer n b → (r : Buffer) × Pushed n b ctx r
unfolding push after_push
push-Pushed n b ctx (a, e, l, h) = (
  after_push n b a ctx,
  record {
    done = simp (e, push);
    good = after_push-IsBuffer n b a ctx e l h;
    contents = items-after_push n b a ctx e l h;
  },
)

-- A buffer with no slot in use.
pub items-unused : (b : Buffer) → b.index ≡ 0 → items b ≡ []
unfolding items
items-unused b e = ground arith
