-- ===== src/Events/Strict.antt =====
-- An epoll instance that only refuses what epoll_ctl(2) says it refuses; its state is the interest list.
use koro.Prelude.{ℕ, ◌≡◌, ◌≢◌, refl, Bool, true, false, Option, none, some, update, ◌>>=◌}
use koro.Events.Poller.{Epoll}
use koro.Events.Table.{find}
use koro.Events.Manager.{Io}

-- The state of the instance is its interest list.
abbrev pub Interest : Type 0
Interest = ℕ → Option ℕ

-- A change of an entry where one is there, or where none is; elsewhere the call fails.
abbrev change_old : Option ℕ → ℕ → Option ℕ → Interest → Interest × Bool
change_old none fd v k = (k, false)
change_old (some old) fd v k = (update k fd v, true)

abbrev pub change_new : Option ℕ → ℕ → Option ℕ → Interest → Interest × Bool
change_new none fd v k = (update k fd v, true)
change_new (some old) fd v k = (k, false)

pub change_old_ok :
    (o : Option ℕ) (fd : ℕ) (v : Option ℕ) (k : Interest)
    → (change_old o fd v k).1 ≡ true
    → (change_old o fd v k).0 ≡ update k fd v
change_old_ok none fd v k h = absurd (cc)
change_old_ok (some old) fd v k h = refl

pub change_old_failed :
    (o : Option ℕ) (fd : ℕ) (v : Option ℕ) (k : Interest)
    → (change_old o fd v k).1 ≡ false
    → (change_old o fd v k).0 ≡ k
change_old_failed none fd v k h = refl
change_old_failed (some old) fd v k h = absurd (cc)

pub change_old_some :
    (o : Option ℕ) (fd : ℕ) (v : Option ℕ) (k : Interest)
    → o ≢ none
    → (change_old o fd v k).1 ≡ true
change_old_some none fd v k h = absurd (h refl)
change_old_some (some old) fd v k h = refl

pub change_new_ok :
    (o : Option ℕ) (fd : ℕ) (v : Option ℕ) (k : Interest)
    → (change_new o fd v k).1 ≡ true
    → (change_new o fd v k).0 ≡ update k fd v
change_new_ok none fd v k h = refl
change_new_ok (some old) fd v k h = absurd (cc)

pub change_new_failed :
    (o : Option ℕ) (fd : ℕ) (v : Option ℕ) (k : Interest)
    → (change_new o fd v k).1 ≡ false
    → (change_new o fd v k).0 ≡ k
change_new_failed none fd v k h = absurd (cc)
change_new_failed (some old) fd v k h = refl

abbrev pub strict_epoll : Epoll Interest
strict_epoll = record {
  add = λ k fd ev. change_new (k fd) fd (some ev) k;
  modify = λ k fd ev. change_old (k fd) fd (some ev) k;
  delete = λ k fd. change_old (k fd) fd none k;
  watched = λ k. k;
  add_ok = λ k fd ev. change_new_ok (k fd) fd (some ev) k;
  add_failed = λ k fd ev. change_new_failed (k fd) fd (some ev) k;
  modify_ok = λ k fd ev. change_old_ok (k fd) fd (some ev) k;
  modify_failed = λ k fd ev. change_old_failed (k fd) fd (some ev) k;
  delete_ok = λ k fd. change_old_ok (k fd) fd none k;
  delete_failed = λ k fd. change_old_failed (k fd) fd none k;
}

-- Whether the epoll instance of the channel for the descriptor watches it.
abbrev is_some : Option ℕ → Bool
is_some none = false
is_some (some ev) = true

unfoldable pub is_watched : ℕ → Io Interest → Bool
is_watched fd io = is_some (do c ← find io.chs fd; q ← (io.channels c).task_queue; io.epoll q fd)

pub is_watched_lem :
    (fd c q ev : ℕ) (io : Io Interest)
    → find io.chs fd ≡ some c
    → (io.channels c).task_queue ≡ some q
    → io.epoll q fd ≡ some ev
    → is_watched fd io ≡ true
unfolding is_watched
is_watched_lem fd c q ev io entry queue w = rw (entry, ◌>>=◌, queue, w) refl
