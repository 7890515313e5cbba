-- ===== src/Processors/Pipeline.antt =====
-- app/processors/pipeline.py, `ProcessorPipeline.run`, for any list of processors. The details and
-- the times of the logs are left out.
use mathlib.Core.Path.{subst}
use tg_forwarder.Prelude.{
  if-intro, String, ◌≡◌, refl, sym, ◌∙◌, ap, Bool, true, false, Option, none, some, List, [], ◌∷◌,
  ◌++◌, map, arith, if◌then◌else◌, ++_nil, ++_assoc, inl, inr, Result, ok, err, Result-cases,
}
use tg_forwarder.Message.{ProcessAction, NormalizedMessage}
use tg_forwarder.Processors.Base.{ProcessingContext, ProcessResult, MessageProcessor, Raised, cont}

pub record ProcessorLog : Type 0 where
  pub processor : String
  pub status : ProcessAction
  pub reason : Option String

pub record PipelineState : Type 0 where
  pub current : NormalizedMessage
  pub context : ProcessingContext
  pub final : ProcessResult
  pub logs : List ProcessorLog

abbrev pub continues : ProcessAction → Bool
continues ProcessAction.continue = true
continues _ = false

-- `if result.message is not None: current = result.message`.
abbrev pub or_current : Option NormalizedMessage → NormalizedMessage → NormalizedMessage
or_current none current = current
or_current (some m) current = m

-- The state after the call of a processor that returned.
abbrev pub logged :
    MessageProcessor → PipelineState → ProcessResult × ProcessingContext → PipelineState
logged p s (result, context) = record {
  current = or_current result.message s.current;
  context = context;
  final = result;
  logs =
      s.logs ++ record { processor = p.name; status = result.action; reason = result.reason } ∷ [];
}

-- One turn of the loop: a processor that raises ends the run.
unfoldable pub step : MessageProcessor → PipelineState → Result Raised PipelineState
step p s = elim (p.process s.current s.context) [ err exc ↦ err exc | ok got ↦ ok (logged p s got) ]

unfoldable pub run_processors : List MessageProcessor → PipelineState → Result Raised PipelineState
unfolding step
run_processors [] s = ok s
run_processors (p ∷ ps) s = elim (step p s) [
  | err exc ↦ err exc
  | ok s' ↦ (if continues s'.final.action then run_processors ps s' else ok s')
]

unfoldable pub start : NormalizedMessage → ProcessingContext → PipelineState
start message context = record {
  current = message;
  context = context;
  final = cont message;
  logs = [];
}

-- What `run` returns: the result with its message, and the logs.
abbrev pub returned : PipelineState → ProcessResult × List ProcessorLog
returned s = (record s.final { message = some (or_current s.final.message s.current) }, s.logs)

unfoldable pub run_pipeline :
    List MessageProcessor
    → NormalizedMessage
    → ProcessingContext
    → Result Raised (ProcessResult × List ProcessorLog)
run_pipeline ps message context = elim (run_processors ps (start message context)) [
  | err exc ↦ err exc
  | ok s ↦ ok (returned s)
]

-- A run of statuses from one to another: each turn is made after a `CONTINUE`.
abbrev pub Steps : ProcessAction → List ProcessorLog → ProcessAction → Type 0
Steps a [] b = a ≡ b
Steps a (l ∷ ls) b = (a ≡ ProcessAction.continue) × Steps l.status ls b

-- An exception comes from one of the processors.
abbrev pub RaisedBy : List MessageProcessor → Raised → Type 0
RaisedBy ps exc =
    (ran : List MessageProcessor) × (p : MessageProcessor) × (rest : List MessageProcessor) × (ps
      ≡ ran ++ p ∷ rest)
    × (m : NormalizedMessage) × (c : ProcessingContext) × (p.process m c ≡ err exc)

-- The logs that a run adds to those of `s`: the processors that ran are the first ones of the
-- list, and all of them if the last one continues.
abbrev pub Ran : List MessageProcessor → PipelineState → Result Raised PipelineState → Type 0
Ran ps s (err exc) = RaisedBy ps exc
Ran ps s (ok s') =
    (new : List ProcessorLog) × (ran : List MessageProcessor) × (rest : List MessageProcessor)
    × (s'.logs ≡ s.logs ++ new)
    × (ps ≡ ran ++ rest)
    × (map (λ (l : ProcessorLog). l.processor) new ≡ map (λ (p : MessageProcessor). p.name) ran)
    × Steps s.final.action new s'.final.action
    × (continues s'.final.action ≡ true → rest ≡ [])

continues→ : (a : ProcessAction) → continues a ≡ true → a ≡ ProcessAction.continue
continues→ a h = ground arith

abbrev log_of : MessageProcessor → ProcessResult → ProcessorLog
log_of p result = record { processor = p.name; status = result.action; reason = result.reason }

-- A turn that continues comes before what the rest of the run gives.
Ran-next :
    (p : MessageProcessor) (ps : List MessageProcessor) (s : PipelineState)
    (got : ProcessResult × ProcessingContext) (r : Result Raised PipelineState)
    → s.final.action ≡ ProcessAction.continue
    → Ran ps (logged p s got) r
    → Ran (p ∷ ps) s r
Ran-next p ps s got (err exc) h (ran, q, rest, parts, m, c, e) =
    (p ∷ ran, q, rest, ap (◌∷◌ p) parts, m, c, e)
Ran-next p ps s got (ok s') h (new, ran, rest, logs, parts, names, steps, all) = (
  log_of p got.0 ∷ new,
  p ∷ ran,
  rest,
  logs ∙ ++_assoc s.logs (log_of p got.0 ∷ []) new,
  ap (◌∷◌ p) parts,
  ap (◌∷◌ p.name) names,
  (h, steps),
  all,
)

run_processors-raised :
    (p : MessageProcessor) (ps : List MessageProcessor) (s : PipelineState) (exc : Raised)
    → p.process s.current s.context ≡ err exc
    → run_processors (p ∷ ps) s ≡ err exc
unfolding run_processors step
run_processors-raised p ps s exc e = rw (e, run_processors, step) refl

run_processors-got :
    (p : MessageProcessor) (ps : List MessageProcessor) (s : PipelineState)
    (got : ProcessResult × ProcessingContext)
    → p.process s.current s.context ≡ ok got
    → run_processors (p ∷ ps) s
      ≡ (if continues got.0.action then run_processors ps (logged p s got) else ok (logged p s got))
unfolding run_processors step
run_processors-got p ps s got e = rw (e, run_processors, step) refl

run_processors-Ran :
    (ps : List MessageProcessor) (s : PipelineState)
    → s.final.action ≡ ProcessAction.continue
    → Ran ps s (run_processors ps s)
unfolding run_processors
run_processors-Ran [] s h = ([], [], [], sym (++_nil s.logs), refl, refl, refl, λ _. refl)
run_processors-Ran (p ∷ ps) s h = elim (Result-cases (p.process s.current s.context)) [
  | inl (exc, e) ↦
      subst (Ran (p ∷ ps) s) (sym (run_processors-raised p ps s exc e))
        ([], p, ps, refl, s.current, s.context, e)
  | inr (got, e) ↦
      let s' = logged p s got in
      subst (Ran (p ∷ ps) s) (sym (run_processors-got p ps s got e)) (
        if-intro (Ran (p ∷ ps) s) (continues got.0.action) (run_processors ps s') (ok s')
          (λ go.
            Ran-next p ps s got (run_processors ps s') h
              (run_processors-Ran ps s' (continues→ got.0.action go)))
          (λ stop. (
            log_of p got.0 ∷ [],
            p ∷ [],
            ps,
            refl,
            refl,
            refl,
            (h, refl),
            λ e. absurd (ground arith),
          )))
]

-- What a run of the pipeline gives: a result with its logs, or an exception.
abbrev pub Gave : List MessageProcessor → Result Raised (ProcessResult × List ProcessorLog) → Type 0
Gave ps (err exc) = RaisedBy ps exc
Gave ps (ok (result, logs)) =
    (ran : List MessageProcessor) × (rest : List MessageProcessor) × (ps ≡ ran ++ rest)
    × (map (λ (l : ProcessorLog). l.processor) logs ≡ map (λ (p : MessageProcessor). p.name) ran)
    × Steps ProcessAction.continue logs result.action
    × (continues result.action ≡ true → rest ≡ [])

-- A run of the pipeline logs a first part of the processors in their order, each turn is made after
-- a `CONTINUE` and the result has the action of the last turn: nothing runs after a drop, a review
-- or a failure, and a result that continues has passed every processor. A run that raises has the
-- exception of one of the processors.
pub run_pipeline-Ran :
    (ps : List MessageProcessor) (message : NormalizedMessage) (context : ProcessingContext)
    → Gave ps (run_pipeline ps message context)
unfolding run_pipeline start
run_pipeline-Ran ps message context =
    let ran = run_processors-Ran ps (start message context) refl in
    elim (Result-cases (run_processors ps (start message context))) [
      | inl (exc, e) ↦ rw (e, run_pipeline) (rw e at ran)
      | inr (s, e) ↦
          let (new, done, rest, logs, parts, names, steps, all) = rw e at ran in
          rw (e, run_pipeline) (done, rest, parts, rw logs names, rw logs steps, all)
    ]
