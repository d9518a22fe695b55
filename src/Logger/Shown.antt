-- ===== src/Logger/Shown.antt =====
-- What stands on stderr after the calls of src/logger.cpp.
use mathlib.Core.List.{flatten}
use cdr_processor.Base.{
  subst, false, true, Bool, ◌≢◌, All-append, ◌≡◌, ◌∙◌, sym, ap, inl, inr, Bool-cases, List, [], ◌∷◌,
  ◌++◌, append_assoc, append-nil, Bytes, codes, arith, Lacks, All, if◌then◌else◌,
}
use cdr_processor.Config.{Config}
use cdr_processor.Config.Validity.{IsValid}
use cdr_processor.Source.File.Lines.{lines, lines-append, lines-nil}
use cdr_processor.Logger.{
  pieces, LogLevel, Logger, LogCall, set, say, level_name, level_color, line_text, is_dropped, log,
  set_level, run_calls, level_from_name, escape,
}

-- The levels whose lines are seen while a level is active.
abbrev pub seen : LogLevel → LogLevel → Bool
seen LogLevel.debug LogLevel.none = false
seen LogLevel.debug _ = true
seen LogLevel.info LogLevel.info = true
seen LogLevel.info LogLevel.warning = true
seen LogLevel.info LogLevel.error = true
seen LogLevel.warning LogLevel.warning = true
seen LogLevel.warning LogLevel.error = true
seen LogLevel.error LogLevel.error = true
seen _ _ = false

-- The level in its colour, and the end of the colour.
abbrev pub label : LogLevel → Bytes
label LogLevel.debug = 27 ∷ codes "[90m[DEBUG]" ++ 27 ∷ codes "[0m "
label LogLevel.info = 27 ∷ codes "[32m[INFO]" ++ 27 ∷ codes "[0m "
label LogLevel.warning = 27 ∷ codes "[33m[WARN]" ++ 27 ∷ codes "[0m "
label LogLevel.error = 27 ∷ codes "[31m[ERROR]" ++ 27 ∷ codes "[0m "
label LogLevel.none = []

-- A line: the time in gray, the level in its colour, the component and the message.
abbrev pub line : Bytes → LogLevel → Bytes → Bytes → Bytes
line now level component message =
    (27 ∷ codes "[90m")
    ++ (now
        ++ ((27 ∷ codes "[0m ")
            ++ (label level ++ (codes "[" ++ (component ++ (codes "] -> " ++ message))))))

-- The lines that calls show, from an active level on.
unfoldable pub shown : LogLevel → List LogCall → List Bytes
shown active [] = []
shown active (set level ∷ calls) = shown level calls
shown active (say now level component message ∷ calls) =
    let rest = shown active calls in
    if seen active level then line now level component message ∷ rest else rest

is_dropped-seen :
    (active level : LogLevel)
    → is_dropped active level ≡ (if seen active level then false else true)
is_dropped-seen active level = ground arith

line_text_lem :
    (now : Bytes) (level : LogLevel) (component message : Bytes)
    → seen level level ≡ true
    → line_text now level component message ≡ line now level component message
unfolding line_text flatten
line_text_lem now LogLevel.debug component message h =
    ap (λ (m : Bytes). line now LogLevel.debug component m) (append-nil message)
line_text_lem now LogLevel.info component message h =
    ap (λ (m : Bytes). line now LogLevel.info component m) (append-nil message)
line_text_lem now LogLevel.warning component message h =
    ap (λ (m : Bytes). line now LogLevel.warning component m) (append-nil message)
line_text_lem now LogLevel.error component message h =
    ap (λ (m : Bytes). line now LogLevel.error component m) (append-nil message)
line_text_lem now LogLevel.none component message h = ground (arith, h)

seen_self : (active level : LogLevel) → seen active level ≡ true → seen level level ≡ true
seen_self active level h = ground (arith, h)

-- A call whose texts are of one line.
abbrev pub IsPlain : LogCall → Type 0
IsPlain (set level) = Unit
IsPlain (say now level component message) = Lacks 10 now × Lacks 10 component × Lacks 10 message

flatten-Lacks : (texts : List Bytes) → All (Lacks 10) texts → Lacks 10 (flatten texts)
unfolding flatten
flatten-Lacks [] h = tt
flatten-Lacks (t ∷ texts) (h, hs) =
    All-append (λ c. c ≢ 10) t (flatten texts) h (flatten-Lacks texts hs)

level_name-Lacks : (level : LogLevel) → Lacks 10 (level_name level)
level_name-Lacks level = ground arith

level_color-Lacks : (level : LogLevel) → Lacks 10 (level_color level)
level_color-Lacks level = ground arith

line_text-Lacks :
    (now : Bytes) (level : LogLevel) (component message : Bytes)
    → Lacks 10 now
    → Lacks 10 component
    → Lacks 10 message
    → Lacks 10 (line_text now level component message)
unfolding line_text
line_text-Lacks now level component message n c m =
    let gray : Lacks 10 (escape (codes "90m")) = ground arith in
    let plain : Lacks 10 (escape (codes "0m ")) = ground arith in
    let opens : Lacks 10 (codes "[") = ground arith in
    let closes : Lacks 10 (codes "]") = ground arith in
    let arrow : Lacks 10 (codes "] -> ") = ground arith in
    flatten-Lacks (pieces now level component message) (
      gray,
      (
        n,
        (
          plain,
          (
            level_color-Lacks level,
            (opens, (level_name-Lacks level, (closes, (plain, (opens, (c, (arrow, (m, tt)))))))),
          ),
        ),
      ),
    )

-- Lines ended by newlines, one after another.
abbrev ended : List Bytes → Bytes
ended [] = []
ended (l ∷ ls) = l ++ 10 ∷ ended ls

run_calls-ended :
    (calls : List LogCall) (logger : Logger)
    → (run_calls calls logger).err ≡ logger.err ++ ended (shown logger.level calls)
unfolding run_calls log shown
run_calls-ended [] logger = sym (append-nil logger.err)
run_calls-ended (set level ∷ calls) logger = run_calls-ended calls (set_level level logger)
run_calls-ended (say now level component message ∷ calls) logger =
    elim (Bool-cases (seen logger.level level)) [
      | inr q ↦
          rw (run_calls, log, is_dropped-seen logger.level level, q) (run_calls-ended calls logger)
      | inl q ↦
          let text = line_text now level component message in
          let rest = ended (shown logger.level calls) in
          let same = line_text_lem now level component message (seen_self logger.level level q) in
          rw (run_calls, log, is_dropped-seen logger.level level, q)
            (run_calls-ended calls (record logger { err = logger.err ++ (text ++ 10 ∷ []) })
              ∙ append_assoc logger.err (text ++ 10 ∷ []) rest
              ∙ ap (◌++◌ logger.err) (append_assoc text (10 ∷ []) rest)
              ∙ ap (λ (t : Bytes). logger.err ++ (t ++ 10 ∷ rest)) same)
    ]

lines-ended : (ls : List Bytes) → All (Lacks 10) ls → lines (ended ls) ≡ ls
lines-ended [] h = lines-nil
lines-ended (l ∷ ls) (h, hs) = lines-append l (ended ls) h ∙ ap (◌∷◌ l) (lines-ended ls hs)

shown-Lacks :
    (active : LogLevel) (calls : List LogCall)
    → All IsPlain calls
    → All (Lacks 10) (shown active calls)
unfolding shown
shown-Lacks active [] h = tt
shown-Lacks active (set level ∷ calls) (h, hs) = shown-Lacks level calls hs
shown-Lacks active (say now level component message ∷ calls) ((n, c, m), hs) =
    let rest = shown-Lacks active calls hs in
    elim (Bool-cases (seen active level)) [
      | inr q ↦ rw (shown, q) rest
      | inl q ↦
          rw (shown, q)
            (
              subst (Lacks 10)
                  (line_text_lem now level component message (seen_self active level q))
                  (line_text-Lacks now level component message n c m),
              rest,
            )
    ]

-- Whatever the calls, of texts without a newline, and however the level is set between them: the
-- lines that stand on stderr are those of the calls at or above the level that is active at their
-- time, in order, one for each, and none for a call at the level `none`.
pub run_calls-lines :
    (calls : List LogCall) (level : LogLevel)
    → All IsPlain calls
    → lines (run_calls calls (record { level = level; err = [] })).err ≡ shown level calls
run_calls-lines calls level plain =
    ap lines (run_calls-ended calls (record { level = level; err = [] }))
    ∙ lines-ended (shown level calls) (shown-Lacks level calls plain)

-- The level of a validated configuration is never the silent one.
pub level-IsValid : (c : Config) → IsValid c → ¬ (level_from_name c.level ≡ LogLevel.none)
unfolding level_from_name
level-IsValid c v e = ground (arith, v.level, e)
