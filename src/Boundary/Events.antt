-- ===== src/Boundary/Events.antt =====
-- Whole transactions through the parser, as the events of the documented format.
use kingbus.Common.{
  ℕ, ◌≡◌, refl, ap, ◌∙◌, Bool, Option, none, some, List, [], ◌∷◌, ◌++◌, arith, length, Result, ok,
  err, panic,
}
use kingbus.Boundary.{
  EventHeader, gtid_event, anonymous_gtid_event, query_event, xid_event, xa_prepare_log_event,
  intvar_event, rand_event, user_var_event, bytes, to_upper, query_boundary,
  get_event_boundary_type, EventBoundaryType, gtid, begin_trx, end_trx, end_xa_trx, pre_statement,
  TransactionBoundaryParser, is_not_inside_transaction, update_state,
}
use kingbus.Boundary.Query.{classified}
use kingbus.Boundary.Stream.{boundaries, after, IsEnd, plain_end, xa_end}

pub record Event : Type 0 where
  pub header : EventHeader
  pub body : List ℕ

module _ (decode_query : List ℕ → Option (List ℕ)) where
  abbrev pub classify : Event → Result EventBoundaryType
  classify e = get_event_boundary_type decode_query e.header e.body

  -- What is added for an event whose type is found.
  abbrev found :
      Result EventBoundaryType → (EventBoundaryType → Option (List Bool)) → Option (List Bool)
  found (ok b) next = next b
  found (err e) next = none
  found panic next = none

  -- Each event is classified and moves the parser: after each, whether the parser is outside a
  -- transaction; nothing at the first error.
  unfoldable pub flags : TransactionBoundaryParser → List Event → Option (List Bool)
  flags p [] = some []
  flags p (e ∷ es) = found (classify e) (λ b.
      after (update_state p b).1 (is_not_inside_transaction (update_state p b).0)
        (flags (update_state p b).0 es))

  -- The types of a stream.
  pub data Types : List Event → List EventBoundaryType → Type 0 where
    no_more : Types [] []
    one_more :
        {e : Event} {es : List Event} {b : EventBoundaryType} {bs : List EventBoundaryType}
        → classify e ≡ ok b
        → Types es bs
        → Types (e ∷ es) (b ∷ bs)

  pub flags-Types :
      {es : List Event} {bs : List EventBoundaryType} (p : TransactionBoundaryParser)
      → Types es bs
      → flags p es ≡ boundaries p bs
  unfolding flags boundaries
  flags-Types p no_more = refl
  flags-Types p (one_more {e} {es} {b} {bs} h t) =
      ap
        (λ r. found r (λ b.
          after (update_state p b).1 (is_not_inside_transaction (update_state p b).0)
            (flags (update_state p b).0 es)))
        h
      ∙ ap (after (update_state p b).1 (is_not_inside_transaction (update_state p b).0))
          (flags-Types (update_state p b).0 t)

  pub Types-append :
      {es fs : List Event} {bs cs : List EventBoundaryType}
      → Types es bs
      → Types fs cs
      → Types (es ++ fs) (bs ++ cs)
  Types-append no_more u = u
  Types-append (one_more h t) u = one_more h (Types-append t u)

  pub length-Types :
      {es : List Event} {bs : List EventBoundaryType} → Types es bs → length es ≡ length bs
  length-Types no_more = refl
  length-Types (one_more h t) = omega (arith, length-Types t)

  -- A QUERY_EVENT of a text, in upper case.
  pub record IsQuery (e : Event) (upper : List ℕ) : Type 0 where
    pub text : List ℕ
    pub is_query : e.header.event_type ≡ query_event
    pub decoded : decode_query e.body ≡ some text
    pub upper_text : to_upper text ≡ upper

  -- The events of the format: of a gtid, of BEGIN or XA START, of a variable, and the ends.
  pub data IsGtidEvent (e : Event) : Type 0 where
    known : e.header.event_type ≡ gtid_event → IsGtidEvent e
    anonymous : e.header.event_type ≡ anonymous_gtid_event → IsGtidEvent e

  pub data Begins (e : Event) : Type 0 where
    begin_query : IsQuery e (bytes "BEGIN") → Begins e
    xa_start : IsQuery e (bytes "XA START") → Begins e

  pub data IsVariable (e : Event) : Type 0 where
    user : e.header.event_type ≡ user_var_event → IsVariable e
    intvar : e.header.event_type ≡ intvar_event → IsVariable e
    rand : e.header.event_type ≡ rand_event → IsVariable e

  pub data Ends (e : Event) : Type 0 where
    rollback : IsQuery e (bytes "ROLLBACK") → Ends e
    xa_rollback : (xid : List ℕ) → IsQuery e (bytes "XA ROLLBACK" ++ xid) → Ends e
    xid : e.header.event_type ≡ xid_event → Ends e
    xa_prepare : e.header.event_type ≡ xa_prepare_log_event → Ends e

  pub classify-IsQuery :
      (e : Event) (upper : List ℕ) → IsQuery e upper → classify e ≡ ok (query_boundary upper)
  classify-IsQuery e upper q =
      classified decode_query e.header e.body q.text [] q.is_query q.decoded
      ∙ ap (λ u. ok (query_boundary u)) q.upper_text

  pub classify-IsGtidEvent : (e : Event) → IsGtidEvent e → classify e ≡ ok gtid
  unfolding get_event_boundary_type
  classify-IsGtidEvent e (known h) = ground (arith, h)
  classify-IsGtidEvent e (anonymous h) = ground (arith, h)

  pub classify-Begins : (e : Event) → Begins e → classify e ≡ ok begin_trx
  unfolding query_boundary
  classify-Begins e (begin_query q) = classify-IsQuery e (bytes "BEGIN") q
  classify-Begins e (xa_start q) = classify-IsQuery e (bytes "XA START") q

  pub classify-IsVariable : (e : Event) → IsVariable e → classify e ≡ ok pre_statement
  unfolding get_event_boundary_type
  classify-IsVariable e (user h) = ground (arith, h)
  classify-IsVariable e (intvar h) = ground (arith, h)
  classify-IsVariable e (rand h) = ground (arith, h)

  pub classify-Ends :
      (e : Event) → Ends e → (b : EventBoundaryType) × ((classify e ≡ ok b) × IsEnd b)
  unfolding get_event_boundary_type query_boundary
  classify-Ends e (rollback q) = (end_trx, (classify-IsQuery e (bytes "ROLLBACK") q, plain_end))
  classify-Ends e (xa_rollback x q) =
      (end_xa_trx, (classify-IsQuery e (bytes "XA ROLLBACK" ++ x) q, xa_end))
  classify-Ends e (xid h) = (end_trx, (ground (arith, h), plain_end))
  classify-Ends e (xa_prepare h) = (end_trx, (ground (arith, h), plain_end))
