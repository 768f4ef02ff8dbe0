-- ===== src/Elog/Frontend/Statements.antt =====
-- elog/logger.h, ~Logger: the end of one logging statement, in each of three phases.
use koro.Prelude.{
  ℕ, ◌≡◌, refl, ap, ◌∙◌, true, false, some, List, [], ◌∷◌, ◌++◌, if◌then◌else◌, is_empty, ◌>>=◌,
  Bool-cases, inl, inr,
}
use koro.Elog.Context.{Text, Context, describe}
use koro.Elog.Formatting.{Tm}
use koro.Elog.Frontend.{
  LogLevel, level_number, Place, Front, append_async_log, console_line, emit, finish,
}
use koro.Elog.Frontend.Phases.{
  Phase, fresh, on, ended, Journal, Flags, describe_tid, tid-describe, Flags-emit,
}

abbrev pub journal : Phase → List Context → List Text → Journal
journal ph pushed out = record { phase = ph; pushed = pushed; out = out }

module _ (ctx : Context) where
  -- The logger between two uses. The thread's own record differs from `ctx` only in what is overwritten.
  pub record Represents (j : Journal) (f : Front) : Type 0 where
    pub flags : Flags j.phase f
    pub pushed : f.pushed ≡ j.pushed
    pub out : f.out ≡ j.out
    pub str : f.str ≡ []
    pub tid : f.ctx.tid ≡ ctx.tid

  -- Before the end of a statement whose values are `message`.
  pub record Pending (ph : Phase) (pushed : List Context) (out : List Text) (message : Text)
      (f : Front) : Type 0 where
    pub flags : Flags ph f
    pub pushed' : f.pushed ≡ pushed
    pub out' : f.out ≡ out
    pub str : f.str ≡ message
    pub tid : f.ctx.tid ≡ ctx.tid

module _ (localtime_r : ℕ → Tm) (ctx : Context) where
  -- One record or one line.
  abbrev pub noted : Phase → LogLevel → Place → Text → Journal → Journal
  noted fresh level p message j = record j {
    out = j.out ++ console_line localtime_r ctx.tid level message p ∷ [];
  }
  noted on level p message j = record j {
    pushed = j.pushed ++ describe ctx p.now (level_number level) message p.file p.func p.line ∷ [];
  }
  noted ended level p message j = record j {
    out = j.out ++ console_line localtime_r ctx.tid level message p ∷ [];
  }

  -- The end of a statement with a message, by what is enabled.
  pushes :
      (level : LogLevel) (p : Place) (f : Front)
      → is_empty f.str ≡ false
      → f.async_enabled ≡ true
      → f.alive ≡ true
      → finish localtime_r level p f ≡ (
          let c = describe f.ctx p.now (level_number level) f.str p.file p.func p.line in
          some (record f { ctx = c; pushed = f.pushed ++ c ∷ []; str = [] }))
  unfolding finish emit append_async_log
  pushes level p f some_text e a = rw (some_text, e, a, ◌>>=◌) refl

  prints :
      (level : LogLevel) (p : Place) (f : Front)
      → is_empty f.str ≡ false
      → f.async_enabled ≡ false
      → finish localtime_r level p f
        ≡ some (record f {
          out = f.out ++ console_line localtime_r f.ctx.tid level f.str p ∷ [];
          str = [];
        })
  unfolding finish emit
  prints level p f some_text e = rw (some_text, e, ◌>>=◌) refl

  skips :
      (level : LogLevel) (p : Place) (f : Front)
      → is_empty f.str ≡ true
      → finish localtime_r level p f ≡ some (record f { str = [] })
  unfolding finish emit
  skips level p f no_text = rw (no_text, ◌>>=◌) refl

  -- A message that goes to the console.
  printed :
      (ph : Phase) (ps : List Context) (os : List Text) (level : LogLevel) (p : Place) (m : Text)
      (f : Front)
      → Pending ctx ph ps os m f
      → is_empty m ≡ false
      → f.async_enabled ≡ false
      → (g : Front) × (finish localtime_r level p f ≡ some g)
        × Represents ctx (journal ph ps (os ++ console_line localtime_r ctx.tid level m p ∷ [])) g
  printed ph ps os level p m f v some_text e =
      let out : List Text = f.out ++ console_line localtime_r f.ctx.tid level f.str p ∷ [] in
      (
        record f { out = out; str = [] },
        prints level p f (ap is_empty v.str ∙ some_text) e,
        record {
          flags = Flags-emit ph f f.pushed out f.ctx v.flags;
          pushed = v.pushed';
          out = rw (v.out', v.tid, v.str) refl;
          str = refl;
          tid = v.tid;
        },
      )

  noted_lem :
      (ph : Phase) (ps : List Context) (os : List Text) (level : LogLevel) (p : Place) (m : Text)
      (f : Front)
      → Pending ctx ph ps os m f
      → is_empty m ≡ false
      → (g : Front) × (finish localtime_r level p f ≡ some g)
        × Represents ctx (noted ph level p m (journal ph ps os)) g
  noted_lem fresh ps os level p m f v some_text =
      printed fresh ps os level p m f v some_text v.flags.1
  noted_lem on ps os level p m f v some_text =
      let c = describe f.ctx p.now (level_number level) f.str p.file p.func p.line in
      let same : c ≡ describe ctx p.now (level_number level) m p.file p.func p.line =
        describe_tid f.ctx ctx p.now (level_number level) f.str p.file p.func p.line v.tid
        ∙ ap (λ s. describe ctx p.now (level_number level) s p.file p.func p.line) v.str in
      (
        record f { ctx = c; pushed = f.pushed ++ c ∷ []; str = [] },
        pushes level p f (ap is_empty v.str ∙ some_text) v.flags.1 v.flags.0,
        record {
          flags = Flags-emit on f (f.pushed ++ c ∷ []) f.out c v.flags;
          pushed = ap (λ l. l ++ c ∷ []) v.pushed' ∙ ap (λ d. ps ++ d ∷ []) same;
          out = v.out';
          str = refl;
          tid = tid-describe f.ctx p.now (level_number level) f.str p.file p.func p.line ∙ v.tid;
        },
      )
  noted_lem ended ps os level p m f v some_text =
      printed ended ps os level p m f v some_text v.flags.1

  -- One statement whose values are `m`.
  pub finish_lem :
      (ph : Phase) (ps : List Context) (os : List Text) (level : LogLevel) (p : Place) (m : Text)
      (f : Front)
      → Pending ctx ph ps os m f
      → (g : Front) × (finish localtime_r level p f ≡ some g)
        × Represents ctx
            (if is_empty m then journal ph ps os else noted ph level p m (journal ph ps os))
            g
  finish_lem ph ps os level p m f v = elim (Bool-cases (is_empty m)) [
    | inl no_text ↦ (
      record f { str = [] },
      skips level p f (ap is_empty v.str ∙ no_text),
      rw no_text (record {
        flags = Flags-emit ph f f.pushed f.out f.ctx v.flags;
        pushed = v.pushed';
        out = v.out';
        str = refl;
        tid = v.tid;
      }),
    )
    | inr some_text ↦ rw some_text (noted_lem ph ps os level p m f v some_text)
  ]
