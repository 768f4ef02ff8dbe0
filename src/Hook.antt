-- ===== src/Hook.antt =====
-- koro/hook.cpp: the wrapper `write`, over what one call of `do_io` does.
pub mod Writing
pub mod Descriptor
pub mod Blocking
pub mod Wrapping
mod Examples
use koro.Prelude.{
  ℕ, zero, suc, ◌+◌, ◌≤◌, ◌<◌, ◌≡◌, Bool, Option, none, some, List, [], ◌∷◌, ◌++◌, if◌then◌else◌,
  ltb, length, take, drop,
}

-- A system call's return value: -1, or a count.
pub data Ret : Type 0 where
  failed : Ret
  count : ℕ → Ret

-- `write(2)` on a descriptor whose state is `S`: `content` is all that was written to it. A call writes a
-- first part of the bytes, or fails and writes nothing.
pub record Writer (S : Type 0) : Type 0 where
  pub call : S → List ℕ → S × Ret
  pub content : S → List ℕ
  pub partial :
      (s : S) (bytes : List ℕ) (n : ℕ)
      → (call s bytes).1 ≡ count n
      → (n ≤ length bytes) × (content (call s bytes).0 ≡ content s ++ take n bytes)
  pub nothing :
      (s : S) (bytes : List ℕ) → (call s bytes).1 ≡ failed → content (call s bytes).0 ≡ content s

-- What the loop does when it has `total` bytes written and a call has failed.
unfoldable pub after_failure : ℕ → Ret
after_failure total = if ltb 0 total then count total else failed

-- The loop, with the bytes that remain; `none` is the end of the fuel.
unfoldable pub write_loop : {S : Type 0} → Writer S → ℕ → ℕ → S → List ℕ → Option (S × Ret)
write_loop w fuel total s [] = some (s, count total)
write_loop w zero total s (b ∷ bytes) = none
write_loop w (suc fuel) total s (b ∷ bytes) =
    let (s', ret) = w.call s (b ∷ bytes) in
    elim ret [
      | failed ↦ some (s', after_failure total)
      | count zero ↦ some (s', count total)
      | count (suc n) ↦ write_loop w fuel (total + suc n) s' (drop (suc n) (b ∷ bytes))
    ]

unfoldable pub write : {S : Type 0} → Writer S → S → List ℕ → Option (S × Ret)
write w s bytes = write_loop w (length bytes) 0 s bytes
