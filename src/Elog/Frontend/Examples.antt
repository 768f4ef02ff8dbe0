-- ===== src/Elog/Frontend/Examples.antt =====
-- A line on the console, a record, and a line again.
use koro.Prelude.{ℕ, ◌≡◌, some, List, [], ◌∷◌}
use koro.Elog.Context.{blank}
use koro.Elog.Formatting.{bytes, Tm}
use koro.Elog.Frontend.{
  info, warn, debug, Place, Front, Use, init, shutdown, log, use_all, new_front,
}
use koro.Elog.Frontend.Phases.{fresh}
use koro.Elog.Frontend.Statements.{Represents}
use koro.Elog.Frontend.Records.{meant_all, use_all-Represents}

abbrev some_day : ℕ → Tm
some_day secs = record { year = 2025; mon = 3; mday = 9; hour = 8; min = 30; sec = 1 }

abbrev here : Place
here = record { file = bytes "src/main.cpp"; func = bytes "main"; line = 7; now = 1_000_005 }

abbrev uses : List Use
uses =
    log warn here (bytes "a" ∷ bytes "b" ∷ [])
    ∷ init
    ∷ log debug here (bytes "c" ∷ [])
    ∷ log info here (bytes "d" ∷ [])
    ∷ shutdown
    ∷ init
    ∷ log info here (bytes "e" ∷ [])
    ∷ []

use_all-Represents_example :
    (g : Front) × (use_all some_day info uses (new_front (blank 0)) ≡ some g)
    × Represents
        (blank 0)
        (meant_all some_day info (blank 0) uses (record { phase = fresh; pushed = []; out = [] }))
        g
use_all-Represents_example = use_all-Represents some_day info (blank 0) uses
