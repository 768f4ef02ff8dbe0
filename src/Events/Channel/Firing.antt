-- ===== src/Events/Channel/Firing.antt =====
-- koro/channel.cpp, `Channel::handleEvent`: which callbacks an event makes tasks of.
use koro.Prelude.{
  ℕ, ◌≡◌, ◌≢◌, refl, sym, ◌∙◌, ap, Bool, true, false, ◌||◌, Option, none, some, List, [], ◌∷◌, ◌++◌,
  append_assoc, append-nil, Bool-cases, ◌⊎◌, inl, inr, subst, update, update_ne, update_self,
}
use koro.Scheduling.Task.{Task, callback}
use koro.Events.Bits.{
  bit, has, epollin, epollout, epollerr, has_in, has_out, has_err, has_err_or_hup, bit_in_widened,
  bit_out_widened, bit_err_widened,
}
use koro.Events.Channel.{
  Channel, callback_for, push_callback, trigger_event, trigger_if, widen, handle_event,
}

-- The task of a callback that is set, if its event has come.
abbrev pub fired : Bool → Option ℕ → List Task
fired false cb = []
fired true none = []
fired true (some c) = callback c ∷ []

-- The step pushes `xs` to queue `q`, and to no other.
abbrev pub Pushes : ℕ → List Task → (ℕ → List Task) → Option (ℕ → List Task) → Type 0
Pushes q xs tasks o =
    (after : ℕ → List Task) × (o ≡ some after)
    × (after q ≡ tasks q ++ xs)
    × ((j : ℕ) → j ≢ q → after j ≡ tasks j)

Pushes-nothing : (q : ℕ) (tasks : ℕ → List Task) → Pushes q [] tasks (some tasks)
Pushes-nothing q tasks = (tasks, refl, sym (append-nil (tasks q)), λ j h. refl)

push_callback-Pushes :
    (cb : Option ℕ) (ch : Channel) (tasks : ℕ → List Task) (q : ℕ)
    → ch.task_queue ≡ some q
    → Pushes q (fired true cb) tasks (push_callback cb ch tasks)
unfolding push_callback
push_callback-Pushes none ch tasks q h = Pushes-nothing q tasks
push_callback-Pushes (some c) ch tasks q h = (
  update tasks q (tasks q ++ callback c ∷ []),
  rw h refl,
  update_self tasks q _,
  λ j ne. update_ne tasks _ ne,
)

trigger_if-Pushes :
    (e : ℕ) (ch : Channel) (tasks : ℕ → List Task) (q : ℕ) (cb : Option ℕ)
    → ch.task_queue ≡ some q
    → callback_for e ch ≡ some cb
    → Pushes q (fired (has e ch.revents) cb) tasks (trigger_if e ch tasks)
unfolding trigger_if trigger_event
trigger_if-Pushes e ch tasks q cb h c = elim (Bool-cases (has e ch.revents)) [
  | inl on ↦ rw (on, trigger_event, c) (push_callback-Pushes cb ch tasks q h)
  | inr off ↦ rw off (Pushes-nothing q tasks)
]

widened :
    (ch : Channel)
    → (widen ch ≡ ch) × ((bit 3 ch.revents || bit 4 ch.revents) ≡ false)
      ⊎ (widen ch ≡ record ch { revents = Prim.Native.Nat.bit_or 5 ch.revents })
        × ((bit 3 ch.revents || bit 4 ch.revents) ≡ true)
unfolding widen
widened ch = elim (Bool-cases (has 24 ch.revents)) [
  | inl on ↦ inr (rw on refl, sym (has_err_or_hup ch.revents) ∙ on)
  | inr off ↦ inl (rw off refl, sym (has_err_or_hup ch.revents) ∙ off)
]

-- What an event has to trigger: an error or a hang-up wakes readers and writers.
pub record Wanted : Type 0 where
  pub err : Bool
  pub read : Bool
  pub write : Bool

abbrev pub wanted : ℕ → Wanted
wanted revents =
    let broken = bit 3 revents || bit 4 revents in
    record { err = bit 3 revents; read = bit 0 revents || broken; write = bit 2 revents || broken }

or_calm : (a b : Bool) → b ≡ false → a ≡ (a || b)
or_calm true b h = refl
or_calm false b h = sym h

or_broken : (a b : Bool) → b ≡ true → true ≡ (a || b)
or_broken true b h = refl
or_broken false b h = sym h

err_widen : (ch : Channel) → has epollerr (widen ch).revents ≡ (wanted ch.revents).err
err_widen ch = elim (widened ch) [
  | inl (same, calm) ↦ rw same (has_err ch.revents)
  | inr (wide, broken) ↦ rw wide (has_err _ ∙ bit_err_widened ch.revents)
]

read_widen : (ch : Channel) → has epollin (widen ch).revents ≡ (wanted ch.revents).read
read_widen ch = elim (widened ch) [
  | inl (same, calm) ↦ rw same (has_in ch.revents ∙ or_calm (bit 0 ch.revents) _ calm)
  | inr (wide, broken) ↦
      rw wide (has_in _ ∙ bit_in_widened ch.revents ∙ or_broken (bit 0 ch.revents) _ broken)
]

write_widen : (ch : Channel) → has epollout (widen ch).revents ≡ (wanted ch.revents).write
write_widen ch = elim (widened ch) [
  | inl (same, calm) ↦ rw same (has_out ch.revents ∙ or_calm (bit 2 ch.revents) _ calm)
  | inr (wide, broken) ↦
      rw wide (has_out _ ∙ bit_out_widened ch.revents ∙ or_broken (bit 2 ch.revents) _ broken)
]

-- Widening changes nothing but `revents`.
widen_keeps :
    (ch : Channel)
    → ((widen ch).task_queue ≡ ch.task_queue)
      × (callback_for epollerr (widen ch) ≡ some ch.error_callback)
      × (callback_for epollin (widen ch) ≡ some ch.read_callback)
      × (callback_for epollout (widen ch) ≡ some ch.write_callback)
unfolding callback_for
widen_keeps ch = elim (widened ch) [
  | inl (same, calm) ↦ rw same (refl, refl, refl, refl)
  | inr (wide, broken) ↦ rw wide (refl, refl, refl, refl)
]

widened-Pushes :
    (e : ℕ) (ch : Channel) (tasks : ℕ → List Task) (q : ℕ) (cb : Option ℕ) (on : Bool)
    → (widen ch).task_queue ≡ some q
    → callback_for e (widen ch) ≡ some cb
    → has e (widen ch).revents ≡ on
    → Pushes q (fired on cb) tasks (trigger_if e (widen ch) tasks)
widened-Pushes e ch tasks q cb on h c w =
    subst (λ b. Pushes q (fired b cb) tasks (trigger_if e (widen ch) tasks)) w
      (trigger_if-Pushes e (widen ch) tasks q cb h c)

append_three :
    (old xs ys zs a b : List Task) {c : List Task}
    → a ≡ old ++ xs
    → b ≡ a ++ ys
    → c ≡ b ++ zs
    → c ≡ old ++ (xs ++ (ys ++ zs))
append_three old xs ys zs a b p q r =
    r
    ∙ ap (λ l. l ++ zs) (q ∙ ap (λ l. l ++ ys) p ∙ append_assoc old xs ys)
    ∙ append_assoc old (xs ++ ys) zs
    ∙ ap (λ l. old ++ l) (append_assoc xs ys zs)

-- What `handleEvent` pushes, in its order.
abbrev pub tasks_of : Channel → List Task
tasks_of ch =
    let w = wanted ch.revents in
    fired w.err ch.error_callback
    ++ (fired w.read ch.read_callback ++ fired w.write ch.write_callback)

-- `handleEvent` succeeds on a channel that has a task queue, and pushes to that queue, and to no other,
-- the error callback if the event has the error bit, then the read and the write callback if the event
-- has their bit or the error or hang-up bit; callbacks that are not set are skipped.
pub handle_event_lem :
    (ch : Channel) (tasks : ℕ → List Task) (q : ℕ)
    → ch.task_queue ≡ some q
    → (after : ℕ → List Task) × (handle_event ch tasks ≡ some (widen ch, after))
      × (after q ≡ tasks q ++ tasks_of ch)
      × ((j : ℕ) → j ≢ q → after j ≡ tasks j)
unfolding handle_event
handle_event_lem ch tasks q h =
    let (kept, err, read, write) = widen_keeps ch in
    let at_queue : (widen ch).task_queue ≡ some q = kept ∙ h in
    let (t1, e1, here1, others1) =
      widened-Pushes epollerr ch tasks q _ _ at_queue err (err_widen ch) in
    let (t2, e2, here2, others2) =
      widened-Pushes epollin ch t1 q _ _ at_queue read (read_widen ch) in
    let (t3, e3, here3, others3) =
      widened-Pushes epollout ch t2 q _ _ at_queue write (write_widen ch) in
    (
      t3,
      rw (e1, e2, e3) refl,
      append_three (tasks q) _ _ _ _ _ here1 here2 here3,
      λ j ne. others3 j ne ∙ others2 j ne ∙ others1 j ne,
    )
