-- ===== src/Raft/Stored.antt =====
-- appendRaftEntries: where it returns without an error, the last index of the log is that of the
-- last new entry.
use kingbus.Common.{
  ℕ, ◌+◌, ◌-◌, ◌%◌, ◌^◌, ◌<◌, ◌≤◌, ◌≡◌, refl, sym, ap, ◌∙◌, not, ◌&&◌, Option, none, some, List, [],
  ◌∷◌, ◌++◌, arith, length, map, length-map, ltb, leb, ◌==◌, if◌then◌else◌, Bool-cases, inl, inr,
  Result, ok, err, panic, not_writable, not_continuous,
}
use kingbus.Exec.{
  Exec, continue, ◌>>=◌, ◌>>◌, pure, lift, get, put, first_returned, Leaves, Leaves-bind,
}
use kingbus.Storage.Env.{Env, Entry, Record, record_of}
use kingbus.Storage.Bytes.{le32}
use kingbus.Storage.MmapFile
use kingbus.Storage.Segment.{
  Segment, on_log, append_record, append_each, append_records, extend_range, is_rdwr,
}
use kingbus.Storage.Disk.{
  DiskStorage, MetaStorage, on_last_of, last_segment, last_index, save_into, save_raft_entries,
  append_raft_entries, get_write_segment, records_size, truncate_suffix,
}

module _ (v : Env) where
  append_record-last :
      (r : Record) (i : ℕ) → Leaves (λ (s : Segment). s.last_index) (append_record v r i)
  unfolding append_record
  append_record-last r i =
      Leaves-bind (λ (s : Segment). s.last_index)
        (on_log (MmapFile.append (le32 (length (v.marshal_record r) % 2 ^ 32)))) _ (λ s. refl)
        (λ p.
          Leaves-bind (λ (s : Segment). s.last_index)
            (on_log (MmapFile.append (v.marshal_record r))) _ (λ s. refl) (λ q s. refl))

  append_each-last :
      (rs : List Record) (i : ℕ) → Leaves (λ (s : Segment). s.last_index) (append_each v rs i)
  unfolding append_each
  append_each-last [] i = λ s. refl
  append_each-last (r ∷ rs) i =
      Leaves-bind (λ (s : Segment). s.last_index) (append_record v r i)
        (λ _. append_each v rs ((i + 1) % 2 ^ 64)) (append_record-last r i)
        (λ _. append_each-last rs ((i + 1) % 2 ^ 64))

  -- What append_records does once its checks have passed.
  abbrev appending : List Record → ℕ → Exec Segment (Unit {0})
  appending records start =
      append_each v records start
      >> (on_log (MmapFile.sync v) >> (get >>= λ t. put (extend_range (length records) start t)))

  appending-last :
      (records : List Record) (start : ℕ) (s t : Segment)
      → appending records start s ≡ (ok tt, t)
      → t.last_index ≡ (extend_range (length records) start s).last_index
  unfolding extend_range
  appending-last records start s t h =
      let put_range : Exec Segment (Unit {0}) =
        get >>= λ t. put (extend_range (length records) start t) in
      let (_, (u, (each, rest))) =
        first_returned (append_each v records start s) (λ _. on_log (MmapFile.sync v) >> put_range)
          tt t h in
      let (_, (w, (synced, last))) =
        first_returned (on_log (MmapFile.sync v) u) (λ _. put_range) tt t rest in
      let at : u.last_index ≡ s.last_index =
        sym (ap (λ (x : Result (Unit {0}) × Segment). x.1.last_index) each)
        ∙ append_each-last records start s in
      let same : w.last_index ≡ u.last_index =
        sym (ap (λ (x : Result (Unit {0}) × Segment). x.1.last_index) synced) in
      sym (ap (λ (x : Result (Unit {0}) × Segment). x.1.last_index) last)
      ∙ ap
          (λ i.
            if ltb i ((start + (length records + 2 ^ 64 - 1) % 2 ^ 64) % 2 ^ 64)
            then (start + (length records + 2 ^ 64 - 1) % 2 ^ 64) % 2 ^ 64
            else i)
          (same ∙ at)

  append_records-last :
      (records : List Record) (start : ℕ) (s t : Segment)
      → 0 < length records
      → start + length records < 2 ^ 64
      → append_records v records start s ≡ (ok tt, t)
      → start + length records ≤ t.last_index + 1
  unfolding append_records extend_range
  append_records-last records start s t more bound h = elim (Bool-cases (is_rdwr s.status)) [
    | inr closed ↦
        let runs : append_records v records start s ≡ (err not_writable, s) = rw closed in cc
    | inl writable ↦
        elim (Bool-cases (not (s.last_index == 0) && not ((s.last_index + 1) % 2 ^ 64 == start))) [
          | inl gap ↦
              let runs : append_records v records start s ≡ (err not_continuous, s) =
                rw (writable, gap) in
              cc
          | inr fits ↦
              let runs : append_records v records start s ≡ appending records start s =
                rw (writable, fits) in
              let at = appending-last records start s t (sym runs ∙ h) in
              let last : (start + (length records + 2 ^ 64 - 1) % 2 ^ 64) % 2 ^ 64 + 1
                  ≡ start + length records =
                omega arith in
              ground (arith, at, last)
        ]
  ]

last_segment-append : (ss : List Segment) (s : Segment) → last_segment (ss ++ s ∷ []) ≡ some s
unfolding last_segment
last_segment-append [] s = refl
last_segment-append (x ∷ []) s = refl
last_segment-append (x ∷ y ∷ ss) s = last_segment-append (y ∷ ss) s

-- Behind an operation on the last segment, the last segment is what it left.
on_last_of-nonempty :
    (m : Exec Segment (Unit {0})) (t : Segment) (ss : List Segment) (s : Segment)
    → last_segment (s ∷ (on_last_of m (t ∷ ss)).1) ≡ last_segment (on_last_of m (t ∷ ss)).1
unfolding on_last_of last_segment
on_last_of-nonempty m t [] s = refl
on_last_of-nonempty m t (u ∷ ss) s = refl

on_last_of-last :
    (m : Exec Segment (Unit {0})) (ss : List Segment)
    → (on_last_of m ss).0 ≡ ok tt
    → (s : Segment) × ((t : Segment) × ((m s ≡ (ok tt, t))
          × (last_segment (on_last_of m ss).1 ≡ some t)))
unfolding on_last_of last_segment
on_last_of-last m [] h = cc
on_last_of-last m (s ∷ []) h =
    (s, ((m s).1, (ap (λ (r : Result (Unit {0})). (r, (m s).1)) h, refl)))
on_last_of-last m (s ∷ t ∷ ss) h =
    let (a, (b, (run, at))) = on_last_of-last m (t ∷ ss) h in
    (a, (b, (run, on_last_of-nonempty m t ss s ∙ at)))

module _ {M : Type 0} (v : Env) where
  last_index-some :
      (d : DiskStorage M) (s : Segment)
      → last_segment d.segments ≡ some s
      → last_index d ≡ s.last_index
  unfolding last_index
  last_index-some d s h = rw (h, last_index)

  save_into-last :
      (records : List Record) (start : ℕ) (w : Option Segment) (d u : DiskStorage M)
      → 0 < length records
      → start + length records < 2 ^ 64
      → save_into v records start w d ≡ (ok tt, u)
      → start + length records ≤ last_index u + 1
  unfolding save_into
  save_into-last records start none d u more bound h =
      let (s, (t, (run, at))) =
        on_last_of-last (append_records v records start) d.segments
          (ap (λ (x : Result (Unit {0}) × DiskStorage M). x.0) h) in
      let same = ap (λ (x : Result (Unit {0}) × DiskStorage M). last_segment x.1.segments) h in
      rw (last_index-some u t (sym same ∙ at))
        (append_records-last v records start s t more bound run)
  save_into-last records start (some new) d u more bound h =
      let joined : Exec (DiskStorage M) (Unit {0}) =
        put (record d { segments = d.segments ++ (append_records v records start new).1 ∷ [] }) in
      let (_, (w, (first, rest))) =
        first_returned (lift (append_records v records start new).0 d) (λ _. joined) tt u h in
      let run : append_records v records start new
          ≡ (ok tt, (append_records v records start new).1) =
        ap
          (λ (x : Result (Unit {0}) × DiskStorage M). (x.0, (append_records v records start new).1))
          first in
      let same = ap (λ (x : Result (Unit {0}) × DiskStorage M). last_segment x.1.segments) rest in
      rw
        (last_index-some u (append_records v records start new).1
          (sym same ∙ last_segment-append d.segments (append_records v records start new).1))
        (append_records-last v records start new (append_records v records start new).1 more bound
          run)

  save_raft_entries-last :
      (segment_size : ℕ) (e : Entry) (es : List Entry) (d u : DiskStorage M)
      → e.index + length (e ∷ es) < 2 ^ 64
      → save_raft_entries v segment_size (e ∷ es) d ≡ (ok tt, u)
      → e.index + length (e ∷ es) ≤ last_index u + 1
  unfolding save_raft_entries
  save_raft_entries-last segment_size e es d u bound h =
      let records = map (record_of v) (e ∷ es) in
      elim (Bool-cases (ltb segment_size (records_size v records))) [
        | inl large ↦
            let runs : save_raft_entries v segment_size (e ∷ es) d ≡ (panic, d) = rw large in cc
        | inr fits ↦
            let runs : save_raft_entries v segment_size (e ∷ es) d
                ≡ continue (get_write_segment v segment_size e.index (records_size v records) d)
                    (λ w. save_into v records e.index w) =
              rw fits in
            let (w, (x, (_, last))) =
              first_returned (get_write_segment v segment_size e.index (records_size v records) d)
                (λ w. save_into v records e.index w) tt u (sym runs ∙ h) in
            let count : length records ≡ length (e ∷ es) = length-map (record_of v) (e ∷ es) in
            let at =
              save_into-last records e.index w x u (omega (arith, count))
                (omega (arith, count, bound)) last in
            omega (arith, count, at)
      ]

  pub append_raft_entries-last :
      (meta : MetaStorage M) (segment_size : ℕ) (e : Entry) (es : List Entry) (d u : DiskStorage M)
      → e.index + length (e ∷ es) < 2 ^ 64
      → append_raft_entries v meta segment_size (e ∷ es) d ≡ (ok tt, u)
      → e.index + length (e ∷ es) ≤ last_index u + 1
  unfolding append_raft_entries
  append_raft_entries-last meta segment_size e es d u bound h =
      let (_, (w, (_, last))) =
        first_returned
          ((if leb e.index (last_index d) then truncate_suffix v meta e.index else pure tt) d)
          (λ _. save_raft_entries v segment_size (e ∷ es)) tt u h in
      save_raft_entries-last segment_size e es w u bound last
