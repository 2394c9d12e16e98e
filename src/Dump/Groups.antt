-- ===== src/Dump/Groups.antt =====
-- The group of a gtid: its events are sent together, or the slave has them all.
use mathlib.Core.Path.{ap₂}
use kingbus.Common.{
  ℕ, ◌+◌, ◌≡◌, refl, sym, ap, ◌∙◌, Bool, true, false, some, List, [], ◌∷◌, ◌++◌, append_assoc,
  append-nil, drop, Bool-cases, inl, inr, arith, if◌then◌else◌, Result, ok, ◌>>=◌, length,
}
use kingbus.Storage.Env.{Entry}
use kingbus.Gtids.{Gtids}
use kingbus.Divide.{BinlogEvent}
use kingbus.Apply.Binlog.{BinlogCodec}
use kingbus.Apply.Entries.{is_binlog_event}
use kingbus.Dump.{
  DumpState, begins, inner, kind_of, announced, has_announced, skip_kind, skip_event, send_entry,
}

module _ {G U : Type 0} (g : Gtids G U) (codec : BinlogCodec G) where
  -- The entry carries the event.
  pub record Carries (e : Entry) (event : BinlogEvent) : Type 0 where
    pub is_binlog : is_binlog_event e ≡ true
    pub decodes : codec.unmarshal_event (drop 1 e.payload) ≡ some event

  -- The entries of inner events, one by one.
  pub data Inner : List Entry → List BinlogEvent → Type 0 where
    inner_nil : Inner [] []
    inner_cons :
        {e : Entry} {event : BinlogEvent} {es : List Entry} {events : List BinlogEvent}
        → Carries e event
        → kind_of (codec.event_type_of event.event_type) ≡ inner
        → Inner es events
        → Inner (e ∷ es) (event ∷ events)

  -- The entries are read one after another.
  unfoldable pub send_all : G → List Entry → DumpState → Result DumpState
  unfolding send_entry
  send_all slave [] s = ok s
  send_all slave (e ∷ es) s =
      send_entry g codec slave e (record s { next_raft_index = s.next_raft_index + 1 }) >>= λ t.
      send_all slave es t

  abbrev state : ℕ → Bool → List BinlogEvent → DumpState
  state n skip out = record { next_raft_index = n; in_exclude_group = skip; sent = out }

  send_one :
      (slave : G) (e : Entry) (event : BinlogEvent) (n : ℕ) (skip now : Bool)
      (out : List BinlogEvent)
      → Carries e event
      → skip_event g codec event slave skip ≡ ok now
      → send_entry g codec slave e (state n skip out)
        ≡ ok (state n now (if now then out else out ++ event ∷ []))
  unfolding send_entry
  send_one slave e event n skip now out c h = rw (c.is_binlog, c.decodes, h) refl

  skip_inner :
      (slave : G) (event : BinlogEvent) (skip : Bool)
      → kind_of (codec.event_type_of event.event_type) ≡ inner
      → skip_event g codec event slave skip ≡ ok skip
  unfolding skip_event skip_kind
  skip_inner slave event skip k = rw k refl

  skip_begins :
      (slave x : G) (event : BinlogEvent) (skip : Bool)
      → kind_of (codec.event_type_of event.event_type) ≡ begins
      → announced g codec event.payload ≡ ok x
      → skip_event g codec event slave skip ≡ ok (g.contain slave x)
  unfolding skip_event skip_kind has_announced
  skip_begins slave x event skip k a = rw (k, a) refl

  send-excluded :
      (slave : G) {es : List Entry} {events : List BinlogEvent} (n : ℕ) (out : List BinlogEvent)
      → Inner es events
      → send_all slave es (state n true out) ≡ ok (state (n + length es) true out)
  unfolding send_all
  send-excluded slave n out inner_nil = ap (λ k. ok (state k true out)) (omega arith)
  send-excluded slave n out (inner_cons {e = e} {event = event} {es = es} c k rest) =
      rw (send_one slave e event (n + 1) true true out c (skip_inner slave event true k))
        (send-excluded slave (n + 1) out rest ∙ ap (λ k. ok (state k true out)) (omega arith))

  send-included :
      (slave : G) {es : List Entry} {events : List BinlogEvent} (n : ℕ) (out : List BinlogEvent)
      → Inner es events
      → send_all slave es (state n false out) ≡ ok (state (n + length es) false (out ++ events))
  unfolding send_all
  send-included slave n out inner_nil =
      ap₂ (λ k l. ok (state k false l)) (omega arith) (sym (append-nil out))
  send-included slave n out
        (inner_cons {e = e} {event = event} {es = es} {events = events} c k rest) =
      rw (send_one slave e event (n + 1) false false out c (skip_inner slave event false k)) (
        send-included slave (n + 1) (out ++ event ∷ []) rest
        ∙ ap₂ (λ k l. ok (state k false l)) (omega arith) (append_assoc out (event ∷ []) events))

  -- The events of a gtid: its GTID_EVENT, and the inner events behind it.
  pub send_all-group :
      (slave x : G) (e : Entry) (event : BinlogEvent) (es : List Entry) (events : List BinlogEvent)
      (n : ℕ) (skip : Bool) (out : List BinlogEvent)
      → Carries e event
      → kind_of (codec.event_type_of event.event_type) ≡ begins
      → announced g codec event.payload ≡ ok x
      → Inner es events
      → send_all slave (e ∷ es) (state n skip out)
        ≡ ok (
            state
              (n + length (e ∷ es))
              (g.contain slave x)
              (if g.contain slave x then out else out ++ event ∷ events))
  unfolding send_all
  send_all-group slave x e event es events n skip out c k a rest =
      elim (Bool-cases (g.contain slave x)) [
        | inl has ↦
            rw
              (
                send_one slave e event (n + 1) skip (g.contain slave x) out c
                    (skip_begins slave x event skip k a),
                has,
              )
              (send-excluded slave (n + 1) out rest ∙ ap (λ k. ok (state k true out)) (omega arith))
        | inr lacks ↦
            rw
              (
                send_one slave e event (n + 1) skip (g.contain slave x) out c
                    (skip_begins slave x event skip k a),
                lacks,
              )
              (send-included slave (n + 1) (out ++ event ∷ []) rest
                ∙ ap₂ (λ k l. ok (state k false l)) (omega arith)
                    (append_assoc out (event ∷ []) events))
      ]
