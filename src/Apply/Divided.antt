-- ===== src/Apply/Divided.antt =====
-- The first piece of a divided event, as applyMySQLBinlogEvent meets it: its header has the size of
-- the whole event, which updateProcess compares with the piece.
use kingbus.Common.{
  ℕ, zero, suc, ◌+◌, ◌%◌, ◌^◌, ◌≤◌, ◌<◌, ◌≡◌, ◌≢◌, refl, sym, ap, ◌∙◌, true, some, List, [], ◌∷◌,
  length, take, length-take, length-drop, returned, arith, invalid_length, ok, err, panic,
}
use kingbus.Bolt.{Bolt}
use kingbus.Gtids.{Gtids}
use kingbus.Boundary.{EventHeader}
use kingbus.Divide.{
  BinlogEvent, SourceEvent, max_payload_len, divided_count_of, divide_from, divide_binlog_event,
  max_event_data_size, piece_data,
}
use kingbus.Divide.Rejoin.{join, divide_rejoins}
use kingbus.Progress.{body_of, update_process, event_header_size}
use kingbus.MetaStore.Gtid.{fatal}
use kingbus.Apply.{KingbusServer}
use kingbus.Apply.Binlog.{BinlogCodec, is_first_piece, apply_my_sql_binlog_event}

body_of-size :
    (h : EventHeader) (raw : List ℕ)
    → event_header_size ≤ length raw
    → length raw < h.event_size
    → body_of h raw ≡ err invalid_length
unfolding body_of
body_of-size h raw has_header short =
    ground (arith, has_header, short, length-drop event_header_size raw)

module _ {D G U R : Type 0} (b : Bolt D) (g : Gtids G U) (codec : BinlogCodec G) where
  -- An event whose header announces more than there is stops the server.
  apply-short :
      (index now later : ℕ) (content : List ℕ) (e : BinlogEvent) (h : EventHeader)
      (s : KingbusServer D G R)
      → codec.unmarshal_event content ≡ some e
      → is_first_piece e ≡ true
      → codec.events.decode_header e.payload ≡ some h
      → event_header_size ≤ length e.payload
      → length e.payload < h.event_size
      → (apply_my_sql_binlog_event b g codec index now later content s).0 ≡ panic
  unfolding apply_my_sql_binlog_event update_process fatal
  apply-short index now later content e h s u first d has_header short =
      rw (u, first, d, body_of-size h e.payload has_header short) refl

first_data :
    (raw : List ℕ) (size : ℕ) → size < length raw → piece_data raw 0 size ≡ ok (take size raw)
unfolding piece_data
first_data raw size long = ground (arith, long)

pieces_head : (e p : BinlogEvent) (r ps : List BinlogEvent) → ok (e ∷ r) ≡ ok (p ∷ ps) → e ≡ p
pieces_head e p r ps h = cc

ok_inj : (x y : List ℕ) → ok x ≡ ok y → x ≡ y
ok_inj x y h = cc

starts : (e : BinlogEvent) → e.divided_seq_num ≡ 0 → is_first_piece e ≡ true
unfolding is_first_piece
starts e h = ground (arith, h)

-- The first piece is all that fits a packet behind the OK byte.
first_piece_from :
    (src : SourceEvent) (count n : ℕ) (p : BinlogEvent) (ps : List BinlogEvent)
    → max_event_data_size 0 < length src.raw_data
    → divide_from src count n 0 0 ≡ ok (p ∷ ps)
    → (is_first_piece p ≡ true) × (p.payload ≡ take (max_event_data_size 0) src.raw_data)
unfolding divide_from
first_piece_from src count zero p ps long h = cc
first_piece_from src count (suc n) p ps long h =
    let (piece, (read, rest)) =
      returned (piece_data src.raw_data 0 (max_event_data_size 0)) _ (p ∷ ps) h in
    let (more, (_, made)) =
      returned (divide_from src count n (0 + 1) (0 + max_event_data_size 0)) _ (p ∷ ps) rest in
    let same = pieces_head _ p more ps made in
    (
      starts p (ap (λ e. e.divided_seq_num) (sym same)),
      ap (λ e. e.payload) (sym same)
          ∙ ok_inj piece (take (max_event_data_size 0) src.raw_data)
              (sym read ∙ first_data src.raw_data (max_event_data_size 0) long),
    )

nonempty :
    (src : SourceEvent) (pieces : List BinlogEvent)
    → 0 < length src.raw_data
    → join pieces ≡ src.raw_data
    → (p : BinlogEvent) × ((ps : List BinlogEvent) × (pieces ≡ p ∷ ps))
unfolding join
nonempty src [] some_bytes h = absurd (omega (arith, ap length h, some_bytes))
nonempty src (p ∷ ps) some_bytes h = (p, (ps, refl))

module _ {D G U R : Type 0} (b : Bolt D) (g : Gtids G U) (codec : BinlogCodec G) where
  apply-head :
      (index now later : ℕ) (content : List ℕ) (src : SourceEvent) (p : BinlogEvent)
      (ps : List BinlogEvent) (h : EventHeader) (s : KingbusServer D G R)
      → max_event_data_size 0 < length src.raw_data
      → divide_binlog_event src ≡ ok (p ∷ ps)
      → codec.unmarshal_event content ≡ some p
      → codec.events.decode_header p.payload ≡ some h
      → h.event_size ≡ length src.raw_data
      → (apply_my_sql_binlog_event b g codec index now later content s).0 ≡ panic
  unfolding divide_binlog_event
  apply-head index now later content src p ps h s long divided u d size =
      let count = divided_count_of (length src.raw_data) in
      let (first, piece) = first_piece_from src count count p ps long divided in
      let len = ap length piece ∙ length-take (max_event_data_size 0) src.raw_data in
      apply-short b g codec index now later content p h s u first d (omega (arith, len, long))
        (omega (arith, len, long, size))

  -- The syncer divides the event, and the server that applies the first piece ends.
  pub apply-divided :
      (marshal : BinlogEvent → List ℕ) (index now later : ℕ) (src : SourceEvent) (h : EventHeader)
      (s : KingbusServer D G R)
      → ((e : BinlogEvent) → codec.unmarshal_event (marshal e) ≡ some e)
      → max_event_data_size 0 < length src.raw_data
      → length src.raw_data < 2 ^ 32
      → length src.raw_data % max_payload_len ≢ 0
      → codec.events.decode_header (take (max_event_data_size 0) src.raw_data) ≡ some h
      → h.event_size ≡ length src.raw_data
      → (p : BinlogEvent) × ((ps : List BinlogEvent) × ((divide_binlog_event src ≡ ok (p ∷ ps))
            × ((apply_my_sql_binlog_event b g codec index now later (marshal p) s).0 ≡ panic)))
  unfolding divide_binlog_event
  apply-divided marshal index now later src h s round_trip long bound rest d size =
      let (pieces, divided, joined, _, _) = divide_rejoins src (omega (arith, long)) bound rest in
      let (p, (ps, shape)) = nonempty src pieces (omega (arith, long)) joined in
      let whole = divided ∙ ap ok shape in
      let count = divided_count_of (length src.raw_data) in
      let (_, piece) = first_piece_from src count count p ps long whole in
      (
        p,
        (
          ps,
          (
            whole,
            apply-head index now later (marshal p) src p ps h s long whole (round_trip p)
                (ap codec.events.decode_header piece ∙ d) size,
          ),
        ),
      )
