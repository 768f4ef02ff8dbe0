-- ===== src/Elog/LogFile/Naming.antt =====
-- elog/log_file.cpp, `getFilename`: files that are started at different local times have different names.
use koro.Prelude.{
  ℕ, zero, suc, ◌^◌, ◌<◌, ◌≡◌, refl, sym, ap, ◌∙◌, [], ◌∷◌, ◌++◌, length, take, drop, arith,
}
use koro.Elog.Context.{Text}
use koro.Elog.Formatting.{bytes, padded, Tm}
use koro.Elog.Formatting.Numbers.{value, length-padded, value-padded, take-exact}
use koro.Elog.Formatting.Stamp.{IsShort}

-- The part of a name that tells the time.
unfoldable pub time_of_name : Tm → Text
time_of_name tm =
    padded 4 tm.year
    ++ (padded 2 tm.mon
        ++ (padded 2 tm.mday
            ++ (b'-' ∷ padded 2 tm.hour ++ (padded 2 tm.min ++ (padded 2 tm.sec ++ bytes ".log")))))

unfoldable pub get_filename : (ℕ → Tm) → Text → Text → ℕ → Text
get_filename localtime_r basename prefix now =
    basename ++ (b'/' ∷ prefix ++ (b'.' ∷ time_of_name (localtime_r now)))

drop-all : (xs ys : Text) (w : ℕ) → length xs ≡ w → drop w (xs ++ ys) ≡ ys
drop-all [] ys zero h = refl
drop-all [] ys (suc w) h = absurd (omega arith)
drop-all (x ∷ xs) ys zero h = absurd (omega arith)
drop-all (x ∷ xs) ys (suc w) h = drop-all xs ys w (omega arith)

-- What follows a number of fixed width is the same, and so is the number.
padded-cancel :
    (w a b : ℕ) (s t : Text)
    → a < 10 ^ suc w
    → b < 10 ^ suc w
    → padded (suc w) a ++ s ≡ padded (suc w) b ++ t
    → (a ≡ b) × (s ≡ t)
padded-cancel w a b s t h k e =
    let la = length-padded w a h in
    let lb = length-padded w b k in
    (
      sym (value-padded (suc w) a)
          ∙ ap (value 0) (
              sym (take-exact (padded (suc w) a) s (suc w) la)
              ∙ ap (take (suc w)) e
              ∙ take-exact (padded (suc w) b) t (suc w) lb)
          ∙ value-padded (suc w) b,
      sym (drop-all (padded (suc w) a) s (suc w) la)
          ∙ ap (drop (suc w)) e
          ∙ drop-all (padded (suc w) b) t (suc w) lb,
    )

append-cancel : (xs s t : Text) → xs ++ s ≡ xs ++ t → s ≡ t
append-cancel xs s t e =
    sym (drop-all xs s (length xs) refl) ∙ ap (drop (length xs)) e ∙ drop-all xs t (length xs) refl

time_of_name-injective :
    (a b : Tm) → IsShort a → IsShort b → time_of_name a ≡ time_of_name b → a ≡ b
unfolding time_of_name
time_of_name-injective a b v w e =
    let (year, e1) = padded-cancel 3 a.year b.year _ _ v.year w.year e in
    let (mon, e2) = padded-cancel 1 a.mon b.mon _ _ v.mon w.mon e1 in
    let (mday, e3) = padded-cancel 1 a.mday b.mday _ _ v.mday w.mday e2 in
    let (hour, e4) = padded-cancel 1 a.hour b.hour _ _ v.hour w.hour (ap (drop 1) e3) in
    let (min, e5) = padded-cancel 1 a.min b.min _ _ v.min w.min e4 in
    let (sec, e6) = padded-cancel 1 a.sec b.sec _ _ v.sec w.sec e5 in
    λ i. record {
      year = year i;
      mon = mon i;
      mday = mday i;
      hour = hour i;
      min = min i;
      sec = sec i;
    }

-- While years have four digits, two log files of one logger have the same name only if the local date and
-- time at which they were started are the same, to the second.
get_filename-injective :
    (localtime_r : ℕ → Tm) (basename prefix : Text) (now later : ℕ)
    → IsShort (localtime_r now)
    → IsShort (localtime_r later)
    → get_filename localtime_r basename prefix now ≡ get_filename localtime_r basename prefix later
    → localtime_r now ≡ localtime_r later
unfolding get_filename
get_filename-injective localtime_r basename prefix now later v w e =
    let e1 = append-cancel basename _ _ e in
    let e2 = append-cancel (b'/' ∷ prefix) _ _ e1 in
    time_of_name-injective (localtime_r now) (localtime_r later) v w (ap (drop 1) e2)
