-- ===== src/Elog/Frontend/Records.antt =====
-- elog/logger.h and logger.cpp: what becomes of the records, by three phases.
use koro.Prelude.{
  ℕ, ◌≡◌, refl, ap, ◌∙◌, some, List, [], ◌∷◌, ◌++◌, if◌then◌else◌, leb, is_empty, ◌>>=◌, Bool-cases,
  inl, inr,
}
use koro.Elog.Context.{Context}
use koro.Elog.Formatting.{Tm}
use koro.Elog.Frontend.{
  LogLevel, level_number, Front, init_async_logging, shutdown_async_logging, finish, Use, init,
  shutdown, log, use_logger, use_all, new_front,
}
use koro.Elog.Frontend.Phases.{
  fresh, Journal, started, stopped, joined, init_lem, shutdown_lem, put_all_lem, Flags-put,
}
use koro.Elog.Frontend.Statements.{journal, noted, Represents, finish_lem}

module _ (localtime_r : ℕ → Tm) (least : LogLevel) (ctx : Context) where
  -- What each use of the logger is for.
  abbrev pub meant : Use → Journal → Journal
  meant init j = record j { phase = started j.phase }
  meant shutdown j = record j { phase = stopped j.phase }
  meant (log level p vals) j =
      if leb (level_number least) (level_number level)
      then (if is_empty (joined vals)
          then j
          else noted localtime_r ctx j.phase level p (joined vals) j)
      else j

  abbrev pub meant_all : List Use → Journal → Journal
  meant_all [] j = j
  meant_all (u ∷ us) j = meant_all us (meant u j)

  use_logger-Represents :
      (u : Use) (j : Journal) (f : Front)
      → Represents ctx j f
      → (g : Front) × (use_logger localtime_r least u f ≡ some g) × Represents ctx (meant u j) g
  unfolding use_logger
  use_logger-Represents init j f v =
      let (flags, ps, os, s, c) = init_lem j.phase f v.flags in
      (
        init_async_logging f,
        refl,
        record {
          flags = flags;
          pushed = ps ∙ v.pushed;
          out = os ∙ v.out;
          str = s ∙ v.str;
          tid = ap (λ (x : Context). x.tid) c ∙ v.tid;
        },
      )
  use_logger-Represents shutdown j f v =
      let (flags, ps, os, s, c) = shutdown_lem j.phase f v.flags in
      (
        shutdown_async_logging f,
        refl,
        record {
          flags = flags;
          pushed = ps ∙ v.pushed;
          out = os ∙ v.out;
          str = s ∙ v.str;
          tid = ap (λ (x : Context). x.tid) c ∙ v.tid;
        },
      )
  use_logger-Represents (log level p vals) j f v =
      elim (Bool-cases (leb (level_number least) (level_number level))) [
        | inl loud ↦
            let put_there : Front = record f { str = f.str ++ joined vals } in
            let (g, e, w) =
              finish_lem localtime_r ctx j.phase j.pushed j.out level p (joined vals) put_there
                (record {
                  flags = Flags-put j.phase f (f.str ++ joined vals) v.flags;
                  pushed' = v.pushed;
                  out' = v.out;
                  str = ap (λ s. s ++ joined vals) v.str;
                  tid = v.tid;
                }) in
            (g, rw loud (ap (finish localtime_r level p) (put_all_lem vals f) ∙ e), rw loud w)
        | inr quiet ↦ (f, rw quiet refl, rw quiet v)
      ]

  from :
      (us : List Use) (j : Journal) (f : Front)
      → Represents ctx j f
      → (g : Front) × (use_all localtime_r least us f ≡ some g) × Represents ctx (meant_all us j) g
  unfolding use_all
  from [] j f v = (f, refl, v)
  from (u ∷ us) j f v =
      let (g, e, w) = use_logger-Represents u j f v in
      let (h, e', x) = from us (meant u j) g w in (h, rw (e, ◌>>=◌) e', x)

  -- On one thread, for statements that come one behind the other and whose values are texts already, so
  -- that none logs while another computes its values, and however often asynchronous logging is started
  -- and ended between them, no null pointer is used. A statement whose level is not below the least one,
  -- and that prints something, makes one record or one line, and any other makes none: before asynchronous
  -- logging is first started and after it is first ended a line on the console, in between a record for
  -- it, both with the values of the statement joined and nothing of the other statements. Once ended, it
  -- stays ended.
  pub use_all-Represents :
      (us : List Use)
      → (g : Front) × (use_all localtime_r least us (new_front ctx) ≡ some g)
        × Represents ctx (meant_all us (journal fresh [] [])) g
  unfolding new_front
  use_all-Represents us = from us (journal fresh [] []) (new_front ctx) (record {
    flags = (refl, refl, refl, refl);
    pushed = refl;
    out = refl;
    str = refl;
    tid = refl;
  })
