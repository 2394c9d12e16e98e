-- ===== src/Boundary/Query.antt =====
-- How the texts of QUERY_EVENTs move the parser.
use kingbus.Common.{ℕ, ◌≡◌, refl, ap, ◌∙◌, Option, some, List, ◌++◌, true, arith, ok}
use kingbus.Boundary.{
  EventHeader, query_event, bytes, to_upper, query_boundary, get_event_boundary_type, statement,
  end_trx, parser_dml, update_state, is_inside_transaction, is_not_inside_transaction,
}

module _ (decode_query : List ℕ → Option (List ℕ)) (h : EventHeader) (body text rest : List ℕ) where
  pub classified :
      h.event_type ≡ query_event
      → decode_query body ≡ some text
      → get_event_boundary_type decode_query h body ≡ ok (query_boundary (to_upper text))
  unfolding get_event_boundary_type
  classified t d = ground arith

  -- A query whose upper-case text begins with COMMIT is an ordinary statement to the parser, so a
  -- DML transaction that it ends stays open: the parser is still inside a transaction after it.
  pub commit_leaves_open :
      h.event_type ≡ query_event
      → decode_query body ≡ some text
      → to_upper text ≡ bytes "COMMIT" ++ rest
      → (get_event_boundary_type decode_query h body ≡ ok statement)
        × (is_inside_transaction (update_state (record { current_state = parser_dml }) statement).0
            ≡ true)
  unfolding query_boundary update_state is_inside_transaction
  commit_leaves_open t d u = (classified t d ∙ ap (λ q. ok (query_boundary q)) u, refl)

  -- A query whose upper-case text begins with ROLLBACK TO ends the transaction for the parser,
  -- although it only goes back to a savepoint inside it.
  pub rollback_to_closes :
      h.event_type ≡ query_event
      → decode_query body ≡ some text
      → to_upper text ≡ bytes "ROLLBACK TO " ++ rest
      → (get_event_boundary_type decode_query h body ≡ ok end_trx)
        × (is_not_inside_transaction
              (update_state (record { current_state = parser_dml }) end_trx).0
            ≡ true)
  unfolding query_boundary update_state is_not_inside_transaction
  rollback_to_closes t d u = (classified t d ∙ ap (λ q. ok (query_boundary q)) u, refl)
