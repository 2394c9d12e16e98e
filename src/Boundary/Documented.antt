-- ===== src/Boundary/Documented.antt =====
-- The transactions of the format that the comment above the states documents, through the parser.
use kingbus.Common.{ℕ, ◌≡◌, Bool, true, false, Option, List, [], ◌∷◌, ◌++◌, ok}
use kingbus.Boundary.{query_event, bytes, EventBoundaryType, statement}
use kingbus.Boundary.Stream.{InBody}
use kingbus.Boundary.Events.{Event, classify, Types, IsQuery, IsGtidEvent, Begins, IsVariable, Ends}

module _ (decode_query : List ℕ → Option (List ℕ)) where
  -- [GTID]
  pub data MaybeGtid : List Event → Type 0 where
    absent : MaybeGtid []
    present : {e : Event} → IsGtidEvent decode_query e → MaybeGtid (e ∷ [])

  -- [User] [Intvar] [Rand], as often as they come
  pub data Variables : List Event → Type 0 where
    no_variable : Variables []
    a_variable :
        {e : Event} {es : List Event}
        → IsVariable decode_query e
        → Variables es
        → Variables (e ∷ es)

  -- The statements of a DML transaction, with the variables and the ignored events among them, by
  -- what the parser takes them for.
  pub record Body (es : List Event) : Type 0 where
    pub types : List EventBoundaryType
    pub typed : Types decode_query es types
    pub in_body : InBody types

  -- A query that is an ordinary statement.
  pub record IsDdl (e : Event) : Type 0 where
    pub is_query : e.header.event_type ≡ query_event
    pub ordinary : classify decode_query e ≡ ok statement

  -- The documented transactions, and whether their end is one for the parser: Query(COMMIT) is none.
  pub data Transaction : Bool → List Event → Type 0 where
    dml_events :
        {gs bs : List Event} {b e : Event}
        → MaybeGtid gs
        → Begins decode_query b
        → Body bs
        → Ends decode_query e
        → Transaction true (gs ++ (b ∷ (bs ++ e ∷ [])))
    ddl_events :
        {gs vs : List Event} {q : Event}
        → MaybeGtid gs
        → Variables vs
        → IsDdl q
        → Transaction true (gs ++ (vs ++ q ∷ []))
    committed_events :
        {gs bs : List Event} {b e : Event}
        → MaybeGtid gs
        → Begins decode_query b
        → Body bs
        → IsQuery decode_query e (bytes "COMMIT")
        → Transaction false (gs ++ (b ∷ (bs ++ e ∷ [])))
