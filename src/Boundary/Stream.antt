-- ===== src/Boundary/Stream.antt =====
-- Whole transactions through the parser, as boundary types.
use kingbus.Common.{
  ℕ, zero, suc, ◌≡◌, refl, ap, Bool, true, false, Option, none, some, Error, List, [], ◌∷◌, ◌++◌,
  arith, length, replicate, length-append, length-replicate,
}
use kingbus.Boundary.{
  EventBoundaryType, gtid, begin_trx, end_trx, end_xa_trx, pre_statement, statement, ignore,
  TransactionBoundaryParser, parser_ddl, parser_dml, reset, is_not_inside_transaction, update_state,
}

abbrev push_flag : Bool → Option (List Bool) → Option (List Bool)
push_flag b none = none
push_flag b (some bs) = some (b ∷ bs)

-- What is added for an event: nothing is left of the list at an error.
abbrev pub after : Option Error → Bool → Option (List Bool) → Option (List Bool)
after none b rest = push_flag b rest
after (some e) b rest = none

-- After each event, whether the parser is outside a transaction; nothing at the first error.
unfoldable pub boundaries : TransactionBoundaryParser → List EventBoundaryType → Option (List Bool)
boundaries p [] = some []
boundaries p (b ∷ bs) =
    let (q, e) = update_state p b in after e (is_not_inside_transaction q) (boundaries q bs)

-- What may stand between BEGIN and the end of a DML transaction.
pub data InBody : List EventBoundaryType → Type 0 where
  done : InBody []
  a_statement : {bs : List EventBoundaryType} → InBody bs → InBody (statement ∷ bs)
  a_pre_statement : {bs : List EventBoundaryType} → InBody bs → InBody (pre_statement ∷ bs)
  an_ignored : {bs : List EventBoundaryType} → InBody bs → InBody (ignore ∷ bs)

pub data IsEnd : EventBoundaryType → Type 0 where
  plain_end : IsEnd end_trx
  xa_end : IsEnd end_xa_trx

-- The shapes of transactions: DML and DDL, each with or without a GTID before it.
pub data Shape : List EventBoundaryType → Type 0 where
  dml :
      {bs : List EventBoundaryType} {e : EventBoundaryType}
      → InBody bs
      → IsEnd e
      → Shape (begin_trx ∷ bs ++ e ∷ [])
  dml_gtid :
      {bs : List EventBoundaryType} {e : EventBoundaryType}
      → InBody bs
      → IsEnd e
      → Shape (gtid ∷ begin_trx ∷ bs ++ e ∷ [])
  ddl : (n : ℕ) → Shape (replicate n pre_statement ++ statement ∷ [])
  ddl_gtid : (n : ℕ) → Shape (gtid ∷ replicate n pre_statement ++ statement ∷ [])

abbrev only_last : ℕ → List Bool
only_last n = replicate n false ++ true ∷ []

in_dml :
    {bs : List EventBoundaryType} {e : EventBoundaryType}
    → InBody bs
    → IsEnd e
    → boundaries (record { current_state = parser_dml }) (bs ++ e ∷ [])
      ≡ some (only_last (length bs))
unfolding boundaries update_state is_not_inside_transaction
in_dml done plain_end = refl
in_dml done xa_end = refl
in_dml (a_statement t) e = ap (push_flag false) (in_dml t e)
in_dml (a_pre_statement t) e = ap (push_flag false) (in_dml t e)
in_dml (an_ignored t) e = ap (push_flag false) (in_dml t e)

in_ddl :
    (n : ℕ)
    → boundaries
        (record { current_state = parser_ddl })
        (replicate n pre_statement ++ statement ∷ [])
      ≡ some (only_last n)
unfolding boundaries update_state is_not_inside_transaction
in_ddl zero = refl
in_ddl (suc n) = ap (push_flag false) (in_ddl n)

-- A transaction goes through without an error from a parser at rest, and the parser is outside a
-- transaction after its last event and after no event before that.
pub Shape-boundary :
    {bs : List EventBoundaryType}
    → Shape bs
    → (n : ℕ) × (length bs ≡ suc n) × (boundaries reset bs ≡ some (replicate n false ++ true ∷ []))
unfolding boundaries update_state is_not_inside_transaction
Shape-boundary (dml {bs} {e} t end) =
    (suc (length bs), omega (arith, length-append bs (e ∷ [])), ap (push_flag false) (in_dml t end))
Shape-boundary (dml_gtid {bs} {e} t end) = (
  suc (suc (length bs)),
  omega (arith, length-append bs (e ∷ [])),
  ap (λ o. push_flag false (push_flag false o)) (in_dml t end),
)
Shape-boundary (ddl zero) = (0, refl, refl)
Shape-boundary (ddl (suc n)) = (
  suc n,
  omega (
    arith,
    length-append (replicate n pre_statement) (statement ∷ []),
    length-replicate n pre_statement,
  ),
  ap (push_flag false) (in_ddl n),
)
Shape-boundary (ddl_gtid zero) = (1, refl, refl)
Shape-boundary (ddl_gtid (suc n)) = (
  suc (suc n),
  omega (
    arith,
    length-append (replicate n pre_statement) (statement ∷ []),
    length-replicate n pre_statement,
  ),
  ap (λ o. push_flag false (push_flag false o)) (in_ddl n),
)

pub InBody-append : {bs cs : List EventBoundaryType} → InBody bs → InBody cs → InBody (bs ++ cs)
InBody-append done u = u
InBody-append (a_statement t) u = a_statement (InBody-append t u)
InBody-append (a_pre_statement t) u = a_pre_statement (InBody-append t u)
InBody-append (an_ignored t) u = an_ignored (InBody-append t u)

in_body :
    {bs : List EventBoundaryType}
    → InBody bs
    → boundaries (record { current_state = parser_dml }) bs ≡ some (replicate (length bs) false)
unfolding boundaries update_state is_not_inside_transaction
in_body done = refl
in_body (a_statement t) = ap (push_flag false) (in_body t)
in_body (a_pre_statement t) = ap (push_flag false) (in_body t)
in_body (an_ignored t) = ap (push_flag false) (in_body t)

-- The parser stays inside where a body that has begun goes on.
pub open_body :
    {bs : List EventBoundaryType}
    → InBody bs
    → boundaries reset (begin_trx ∷ bs) ≡ some (replicate (suc (length bs)) false)
unfolding boundaries update_state is_not_inside_transaction
open_body t = ap (push_flag false) (in_body t)

pub open_body_gtid :
    {bs : List EventBoundaryType}
    → InBody bs
    → boundaries reset (gtid ∷ begin_trx ∷ bs) ≡ some (replicate (suc (suc (length bs))) false)
unfolding boundaries update_state is_not_inside_transaction
open_body_gtid t = ap (λ o. push_flag false (push_flag false o)) (in_body t)
