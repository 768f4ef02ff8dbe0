-- ===== src/Elog/Frontend/Phases.antt =====
-- elog/logger.cpp: the flags of the logger in its three phases.
use koro.Prelude.{
  ℕ, ◌≡◌, refl, sym, ap, ◌∙◌, true, false, List, [], ◌∷◌, ◌++◌, append_assoc, append-nil,
}
use koro.Elog.Context.{Text, Context, describe}
use koro.Elog.Frontend.{Front, init_async_logging, shutdown_async_logging, put, put_all}

-- Asynchronous logging has not been started, is on, or has been ended.
pub data Phase : Type 0 where
  fresh on ended : Phase

-- The records that were given to asynchronous logging, and the lines on the console.
pub record Journal : Type 0 where
  pub phase : Phase
  pub pushed : List Context
  pub out : List Text

abbrev pub started : Phase → Phase
started fresh = on
started on = on
started ended = ended

abbrev pub stopped : Phase → Phase
stopped fresh = fresh
stopped on = ended
stopped ended = ended

abbrev pub joined : List Text → Text
joined [] = []
joined (val ∷ vals) = val ++ joined vals

-- The flags of a phase.
abbrev pub Flags : Phase → Front → Type 0
Flags fresh f =
    (f.alive ≡ false)
    × (f.async_enabled ≡ false)
    × (f.init_flag ≡ false)
    × (f.shutdown_flag ≡ false)
Flags on f =
    (f.alive ≡ true) × (f.async_enabled ≡ true) × (f.init_flag ≡ true) × (f.shutdown_flag ≡ false)
Flags ended f =
    (f.alive ≡ false) × (f.async_enabled ≡ false) × (f.init_flag ≡ true) × (f.shutdown_flag ≡ true)

pub describe_tid :
    (c d : Context) (now level : ℕ) (message file func : Text) (line : ℕ)
    → c.tid ≡ d.tid
    → describe c now level message file func line ≡ describe d now level message file func line
unfolding describe koro.Elog.Context.with_text koro.Elog.Context.with_data
    koro.Elog.Context.with_level koro.Elog.Context.with_timestamp
describe_tid c d now level message file func line h =
    ap (λ t. record (describe d now level message file func line) { tid = t }) h

pub tid-describe :
    (c : Context) (now level : ℕ) (message file func : Text) (line : ℕ)
    → (describe c now level message file func line).tid ≡ c.tid
unfolding describe koro.Elog.Context.with_text koro.Elog.Context.with_data
    koro.Elog.Context.with_level koro.Elog.Context.with_timestamp
tid-describe c now level message file func line = refl

pub init_lem :
    (ph : Phase) (f : Front)
    → Flags ph f
    → Flags (started ph) (init_async_logging f)
      × ((init_async_logging f).pushed ≡ f.pushed)
      × ((init_async_logging f).out ≡ f.out)
      × ((init_async_logging f).str ≡ f.str)
      × ((init_async_logging f).ctx ≡ f.ctx)
unfolding init_async_logging
init_lem fresh f (a, e, i, s) = rw (e, i) ((refl, refl, refl, s), refl, refl, refl, refl)
init_lem on f (a, e, i, s) = rw e ((a, refl, i, s), refl, refl, refl, refl)
init_lem ended f (a, e, i, s) = rw (e, i) ((a, refl, refl, s), refl, refl, refl, refl)

pub shutdown_lem :
    (ph : Phase) (f : Front)
    → Flags ph f
    → Flags (stopped ph) (shutdown_async_logging f)
      × ((shutdown_async_logging f).pushed ≡ f.pushed)
      × ((shutdown_async_logging f).out ≡ f.out)
      × ((shutdown_async_logging f).str ≡ f.str)
      × ((shutdown_async_logging f).ctx ≡ f.ctx)
unfolding shutdown_async_logging
shutdown_lem fresh f (a, e, i, s) = rw e ((a, refl, i, s), refl, refl, refl, refl)
shutdown_lem on f (a, e, i, s) = rw (e, s) ((refl, refl, i, refl), refl, refl, refl, refl)
shutdown_lem ended f (a, e, i, s) = rw e ((a, refl, i, s), refl, refl, refl, refl)

pub put_all_lem :
    (vals : List Text) (f : Front) → put_all vals f ≡ record f { str = f.str ++ joined vals }
unfolding put_all put
put_all_lem [] f = ap (λ s. record f { str = s }) (sym (append-nil f.str))
put_all_lem (val ∷ vals) f =
    put_all_lem vals (put val f)
    ∙ ap (λ s. record f { str = s }) (append_assoc f.str val (joined vals))

pub Flags-emit :
    (ph : Phase) (f : Front) (ps : List Context) (os : List Text) (c : Context)
    → Flags ph f
    → Flags ph (record f { pushed = ps; out = os; str = []; ctx = c })
Flags-emit fresh f ps os c v = v
Flags-emit on f ps os c v = v
Flags-emit ended f ps os c v = v

pub Flags-put : (ph : Phase) (f : Front) (s : Text) → Flags ph f → Flags ph (record f { str = s })
Flags-put fresh f s v = v
Flags-put on f s v = v
Flags-put ended f s v = v
