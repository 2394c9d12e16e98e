-- ===== src/Boundary/Grammar.antt =====
-- The streams that the parser takes without an error, as sequences of transactions.
use mathlib.Core.Path.{subst}
use kingbus.Common.{
  ℕ, zero, suc, ◌≡◌, ◌≢◌, ◌↔◌, refl, sym, ap, ◌∙◌, false, Option, none, some, Error, List, [], ◌∷◌,
  ◌++◌, append_assoc, arith, replicate,
}
use kingbus.Boundary.{
  EventBoundaryType, gtid, begin_trx, end_trx, end_xa_trx, pre_statement, statement, incident,
  ignore, boundary_error, EventParserState, parser_none, parser_gtid, parser_ddl, parser_dml,
  parser_error, TransactionBoundaryParser, reset, is_error, update_state,
}
use kingbus.Boundary.Stream.{
  InBody, done, a_statement, a_pre_statement, an_ignored, IsEnd, plain_end, xa_end, Shape, dml,
  dml_gtid, ddl, ddl_gtid,
}

-- The parser behind a stream; nothing at the first error.
abbrev unless_error :
    Option Error → Option TransactionBoundaryParser → Option TransactionBoundaryParser
unless_error none rest = rest
unless_error (some e) rest = none

unfoldable pub run :
    TransactionBoundaryParser → List EventBoundaryType → Option TransactionBoundaryParser
run p [] = some p
run p (b ∷ bs) = unless_error (update_state p b).1 (run (update_state p b).0 bs)

-- One transaction behind the other. The last form is of no documented format, but the parser has it:
-- an XA ROLLBACK right behind a GTID.
pub data Sentence : List EventBoundaryType → Type 0 where
  nothing : Sentence []
  a_transaction : {t bs : List EventBoundaryType} → Shape t → Sentence bs → Sentence (t ++ bs)
  a_lone_end : {bs : List EventBoundaryType} → Sentence bs → Sentence (gtid ∷ end_xa_trx ∷ bs)

abbrev pub without_ignored : List EventBoundaryType → List EventBoundaryType
without_ignored [] = []
without_ignored (ignore ∷ bs) = without_ignored bs
without_ignored (b ∷ bs) = b ∷ without_ignored bs

abbrev pub NoIncident : List EventBoundaryType → Type 0
NoIncident [] = Unit
NoIncident (incident ∷ bs) = ⊥
NoIncident (b ∷ bs) = NoIncident bs

-- Neither an incident nor an ignored event.
abbrev Plain : List EventBoundaryType → Type 0
Plain [] = Unit
Plain (incident ∷ bs) = ⊥
Plain (ignore ∷ bs) = ⊥
Plain (b ∷ bs) = Plain bs

without_ignored-Plain : (bs : List EventBoundaryType) → NoIncident bs → Plain (without_ignored bs)
without_ignored-Plain [] h = tt
without_ignored-Plain (incident ∷ bs) h = elim h [ ]
without_ignored-Plain (b ∷ bs) h = without_ignored-Plain bs h

run-without_ignored :
    (p : TransactionBoundaryParser) (bs : List EventBoundaryType)
    → run p bs ≡ run p (without_ignored bs)
unfolding run update_state
run-without_ignored p [] = refl
run-without_ignored p (ignore ∷ bs) = run-without_ignored p bs
run-without_ignored p (b ∷ bs) =
    ap (unless_error (update_state p b).1) (run-without_ignored (update_state p b).0 bs)

-- What is left of a stream that ends at rest, by the state that it is in.
abbrev InDdl : List EventBoundaryType → Type 0
InDdl bs =
    (n : ℕ) × ((rest : List EventBoundaryType) × ((bs
          ≡ replicate n pre_statement ++ statement ∷ rest)
        × Sentence rest))

abbrev InDml : List EventBoundaryType → Type 0
InDml bs =
    (body : List EventBoundaryType) × ((e : EventBoundaryType) × ((rest : List EventBoundaryType)
        × ((bs ≡ body ++ e ∷ rest) × (InBody body × (IsEnd e × Sentence rest)))))

abbrev Rest : EventParserState → List EventBoundaryType → Type 0
Rest parser_none bs = Sentence bs
Rest parser_gtid bs = Sentence (gtid ∷ bs)
Rest parser_ddl bs = InDdl bs
Rest parser_dml bs = InDml bs
Rest parser_error bs = ⊥

ddl-Sentence : (bs : List EventBoundaryType) → InDdl bs → Sentence (pre_statement ∷ bs)
ddl-Sentence bs (n, (rest, (e, s))) =
    subst (λ l. Sentence (pre_statement ∷ l))
      (append_assoc (replicate n pre_statement) (statement ∷ []) rest ∙ sym e)
      (a_transaction (ddl (suc n)) s)

ddl_gtid-Sentence : (bs : List EventBoundaryType) → InDdl bs → Sentence (gtid ∷ pre_statement ∷ bs)
ddl_gtid-Sentence bs (n, (rest, (e, s))) =
    subst (λ l. Sentence (gtid ∷ pre_statement ∷ l))
      (append_assoc (replicate n pre_statement) (statement ∷ []) rest ∙ sym e)
      (a_transaction (ddl_gtid (suc n)) s)

dml-Sentence : (bs : List EventBoundaryType) → InDml bs → Sentence (begin_trx ∷ bs)
dml-Sentence bs (body, (x, (rest, (e, (b, (is_end, s)))))) =
    subst (λ l. Sentence (begin_trx ∷ l)) (append_assoc body (x ∷ []) rest ∙ sym e)
      (a_transaction (dml b is_end) s)

dml_gtid-Sentence : (bs : List EventBoundaryType) → InDml bs → Sentence (gtid ∷ begin_trx ∷ bs)
dml_gtid-Sentence bs (body, (x, (rest, (e, (b, (is_end, s)))))) =
    subst (λ l. Sentence (gtid ∷ begin_trx ∷ l)) (append_assoc body (x ∷ []) rest ∙ sym e)
      (a_transaction (dml_gtid b is_end) s)

complete :
    (s : EventParserState) (bs : List EventBoundaryType)
    → Plain bs
    → run (record { current_state = s }) bs ≡ some reset
    → Rest s bs
unfolding run update_state
complete parser_none [] p h = nothing
complete parser_gtid [] p h = cc
complete parser_ddl [] p h = cc
complete parser_dml [] p h = cc
complete parser_error [] p h = cc
complete s (incident ∷ bs) p h = elim p [ ]
complete s (ignore ∷ bs) p h = elim p [ ]
complete parser_none (gtid ∷ bs) p h = complete parser_gtid bs p h
complete parser_none (begin_trx ∷ bs) p h = dml-Sentence bs (complete parser_dml bs p h)
complete parser_none (statement ∷ bs) p h = a_transaction (ddl 0) (complete parser_none bs p h)
complete parser_none (pre_statement ∷ bs) p h = ddl-Sentence bs (complete parser_ddl bs p h)
complete parser_gtid (begin_trx ∷ bs) p h = dml_gtid-Sentence bs (complete parser_dml bs p h)
complete parser_gtid (end_xa_trx ∷ bs) p h = a_lone_end (complete parser_none bs p h)
complete parser_gtid (statement ∷ bs) p h = a_transaction (ddl_gtid 0) (complete parser_none bs p h)
complete parser_gtid (pre_statement ∷ bs) p h = ddl_gtid-Sentence bs (complete parser_ddl bs p h)
complete parser_ddl (statement ∷ bs) p h = (0, (bs, (refl, complete parser_none bs p h)))
complete parser_ddl (pre_statement ∷ bs) p h =
    let (n, (rest, (e, s))) = complete parser_ddl bs p h in
    (suc n, (rest, (ap (λ l. pre_statement ∷ l) e, s)))
complete parser_dml (end_trx ∷ bs) p h =
    ([], (end_trx, (bs, (refl, (done, (plain_end, complete parser_none bs p h))))))
complete parser_dml (end_xa_trx ∷ bs) p h =
    ([], (end_xa_trx, (bs, (refl, (done, (xa_end, complete parser_none bs p h))))))
complete parser_dml (statement ∷ bs) p h =
    let (body, (x, (rest, (e, (b, s))))) = complete parser_dml bs p h in
    (statement ∷ body, (x, (rest, (ap (λ l. statement ∷ l) e, (a_statement b, s)))))
complete parser_dml (pre_statement ∷ bs) p h =
    let (body, (x, (rest, (e, (b, s))))) = complete parser_dml bs p h in
    (pre_statement ∷ body, (x, (rest, (ap (λ l. pre_statement ∷ l) e, (a_pre_statement b, s)))))
complete s (b ∷ bs) p h = cc

-- The other way, transaction by transaction.
body_run :
    {body : List EventBoundaryType} {e : EventBoundaryType} (bs : List EventBoundaryType)
    → InBody body
    → IsEnd e
    → run (record { current_state = parser_dml }) ((body ++ e ∷ []) ++ bs) ≡ run reset bs
unfolding run update_state
body_run bs done plain_end = refl
body_run bs done xa_end = refl
body_run bs (a_statement b) e = body_run bs b e
body_run bs (a_pre_statement b) e = body_run bs b e
body_run bs (an_ignored b) e = body_run bs b e

ddl_run :
    (n : ℕ) (bs : List EventBoundaryType)
    → run
        (record { current_state = parser_ddl })
        ((replicate n pre_statement ++ statement ∷ []) ++ bs)
      ≡ run reset bs
unfolding run update_state
ddl_run zero bs = refl
ddl_run (suc n) bs = ddl_run n bs

shape_run :
    {t : List EventBoundaryType} (bs : List EventBoundaryType)
    → Shape t
    → run reset (t ++ bs) ≡ run reset bs
unfolding run update_state
shape_run bs (dml b e) = body_run bs b e
shape_run bs (dml_gtid b e) = body_run bs b e
shape_run bs (ddl zero) = refl
shape_run bs (ddl (suc n)) = ddl_run n bs
shape_run bs (ddl_gtid zero) = refl
shape_run bs (ddl_gtid (suc n)) = ddl_run n bs

sound : {bs : List EventBoundaryType} → Sentence bs → run reset bs ≡ some reset
unfolding run update_state
sound nothing = refl
sound (a_transaction {t} {bs} shape s) = shape_run bs shape ∙ sound s
sound (a_lone_end s) = sound s

-- A stream of boundary types without incidents takes the parser from rest to rest without an error
-- exactly where it is, its ignored events left out, a sequence of DDL and DML transactions, each with
-- or without a GTID, and of pairs of a GTID and an XA ROLLBACK.
pub run-Sentence :
    (bs : List EventBoundaryType)
    → NoIncident bs
    → (run reset bs ≡ some reset) ↔ Sentence (without_ignored bs)
run-Sentence bs h = (
  λ e.
      complete parser_none (without_ignored bs) (without_ignored-Plain bs h)
        (sym (run-without_ignored reset bs) ∙ e),
  λ s. run-without_ignored reset bs ∙ sound s,
)

-- A violation of the format is reported, yet it does not put the parser into the error state: only
-- an event that is itself an error does.
pub violation_leaves_no_error_state :
    (p : TransactionBoundaryParser) (b : EventBoundaryType) {e : Error}
    → b ≢ boundary_error
    → (update_state p b).1 ≡ some e
    → is_error (update_state p b).0 ≡ false
unfolding update_state is_error
violation_leaves_no_error_state p b n h = ground arith
