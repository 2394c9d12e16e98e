-- ===== src/Concrete/Codec.antt =====
-- Encodings of events and of the arguments that entries carry, which write a field as one number.
use kingbus.Common.{ℕ, zero, suc, ◌≡◌, refl, ap, true, Option, none, some, List, [], ◌∷◌}
use kingbus.Boundary.{EventHeader, other_event}
use kingbus.Divide.{BinlogEvent, FlavorType, mysql, maria}
use kingbus.Apply.Binlog.{BinlogCodec}
use kingbus.Apply.Entries.{ArgsJson}

abbrev pub flavor_of : ℕ → FlavorType
flavor_of n = elim n [ zero ↦ mysql | suc k ↦ maria ]

abbrev pub flavor_number : FlavorType → ℕ
flavor_number f = elim f [ mysql ↦ 0 | maria ↦ 1 ]

abbrev pub event_bytes : BinlogEvent → List ℕ
event_bytes e =
    e.event_type ∷ flavor_number e.flavor ∷ e.divided_count ∷ e.divided_seq_num ∷ e.payload

abbrev pub event_from : List ℕ → Option BinlogEvent
event_from (t ∷ f ∷ c ∷ n ∷ v) = some (record {
  event_type = t;
  flavor = flavor_of f;
  divided_count = c;
  divided_seq_num = n;
  payload = v;
})
event_from _ = none

flavor_round_trip : (f : FlavorType) → flavor_of (flavor_number f) ≡ f
flavor_round_trip mysql = refl
flavor_round_trip maria = refl

pub event_from-event_bytes : (e : BinlogEvent) → event_from (event_bytes e) ≡ some e
event_from-event_bytes e = ap (λ f. some (record e { flavor = f })) (flavor_round_trip e.flavor)

-- Every event has the header of a large one.
abbrev pub large_header : EventHeader
large_header = record { event_type = other_event 30; event_size = 16777216; log_pos = 0; flags = 0 }

abbrev pub plain_codec : BinlogCodec (List ℕ)
plain_codec = record {
  events = record { decode_header = λ v. some large_header; decode_query = λ v. none };
  unmarshal_event = event_from;
  event_type_of = λ n. other_event n;
  decode_gtid = λ v. some (v, 1);
  uuid_from_bytes = λ v. some v;
  format_int = λ n. n ∷ [];
  decode_rotate = λ v. some v;
  decode_previous_gtids = λ v. some v;
}

abbrev pub plain_args : ArgsJson
plain_args = record {
  decode_attributes = λ v. none;
  is_syncer_args = λ v. true;
  is_master_info = λ v. true;
  decode_master_gtid_purged = λ v. some v;
}
