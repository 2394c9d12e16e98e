-- ===== src/Boundary/Tests.antt =====
-- The boundary parser on concrete events, with a decoder that takes the body itself as the text.
use kingbus.Common.{ℕ, ◌≡◌, ◌↔◌, ◌++◌, refl, false, Option, some, List, [], ◌∷◌}
use kingbus.Boundary.{
  EventType, gtid_event, query_event, rows_query_event, rotate_event, bytes, statement, begin_trx,
  ignore, end_trx, query_boundary, is_not_inside_transaction, update_state, reset,
  get_event_boundary_type,
}
use kingbus.Boundary.Grammar.{run, Sentence, without_ignored, run-Sentence}
use kingbus.Boundary.Events.{Event, flags}

abbrev whole_body : List ℕ → Option (List ℕ)
whole_body b = some b

abbrev event_of : EventType → List ℕ → Event
event_of k v = record {
  header = record { event_type = k; event_size = 25; log_pos = 125; flags = 0 };
  body = v;
}

abbrev middle : List Event
middle = event_of rows_query_event [] ∷ event_of rotate_event [] ∷ []

abbrev query_of : List ℕ → Event
query_of v = event_of query_event v

-- Between the gtid and XA ROLLBACK of the transaction x.
abbrev rolled_back : List Event
rolled_back =
    event_of gtid_event []
    ∷ query_of (bytes "begin")
    ∷ (middle ++ query_of (bytes "xa rollback x") ∷ [])

abbrev committed : List Event
committed = query_of (bytes "BEGIN") ∷ (middle ++ query_of (bytes "commit") ∷ [])

-- Its COMMIT is no end for the parser.
committed_flags : flags whole_body reset committed ≡ some (false ∷ false ∷ false ∷ false ∷ [])
unfolding flags update_state get_event_boundary_type query_boundary is_not_inside_transaction
committed_flags = refl

run-Sentence_example :
    (run reset (begin_trx ∷ statement ∷ ignore ∷ end_trx ∷ []) ≡ some reset)
    ↔ Sentence (without_ignored (begin_trx ∷ statement ∷ ignore ∷ end_trx ∷ []))
run-Sentence_example = run-Sentence (begin_trx ∷ statement ∷ ignore ∷ end_trx ∷ []) tt
