-- ===== src/Storage/Disk.antt =====
-- storage/disk_storage.go: the raft log as a list of segments, of which the last is written; and
-- appendRaftEntries of raft/raft.go, which replaces its end.
pub mod Replace
pub mod Limit
pub mod Read
use kingbus.Common.{
  ℕ, zero, suc, ◌+◌, ◌-◌, ◌%◌, ◌^◌, Bool, true, false, not, ◌&&◌, ◌||◌, Option, none, some, List,
  [], ◌∷◌, ◌++◌, map, length, ltb, leb, ◌==◌, if◌then◌else◌, Error, args_illegal, out_of_bound,
  compacted, unavailable, Result, ok, err, panic, slice, take, drop, get_elem?,
}
use kingbus.Common
use kingbus.Storage.Env.{
  Env, Entry, Record, record_of, in_progress, Exec, ◌>>=◌, ◌>>◌, pure, raise, lift, get, put,
}
use kingbus.Storage.MmapFile.{record_length_size}
use kingbus.Storage.Segment
use kingbus.Storage.Segment.{Segment}

-- What the disk storage calls of its metadata store, whose state is `M`.
pub record MetaStorage (M : Type 0) : Type 0 where
  pub update_puged_gtidset : ℕ → Exec M (Unit {0})

pub record DiskStorage (M : Type 0) : Type 0 where
  pub segments : List Segment
  pub reserve_segment_count : ℕ
  pub metadata : M

-- The sum over the records of their sizes and length fields.
unfoldable pub records_size : Env → List Record → ℕ
records_size v [] = 0
records_size v (r ∷ rs) = length (v.marshal_record r) + record_length_size + records_size v rs

unfoldable pub covers : Segment → ℕ → Bool
covers s i = leb s.first_index i && leb i s.last_index

-- An operation on the last segment of a list.
unfoldable pub on_last_of : {A : Type 0} → Exec Segment A → List Segment → Result A × List Segment
on_last_of m [] = (panic, [])
on_last_of m (s ∷ []) = let (r, t) = m s in (r, t ∷ [])
on_last_of m (s ∷ t ∷ ss) = let (r, rest) = on_last_of m (t ∷ ss) in (r, s ∷ rest)

unfoldable pub last_segment : List Segment → Option Segment
last_segment [] = none
last_segment (s ∷ []) = some s
last_segment (s ∷ t ∷ ss) = last_segment (t ∷ ss)

-- The position of the last segment that covers a raft index, looked for from the end among the
-- first `n`.
unfoldable pub find_segment : List Segment → ℕ → ℕ → Option ℕ
unfolding covers
find_segment ss i zero = none
find_segment ss i (suc n) =
    let rest = find_segment ss i n in
    elim (get_elem? ss n) [ none ↦ rest | some s ↦ if covers s i then some n else rest ]

module _ {M : Type 0} where
  abbrev pub on_last : {A : Type 0} → Exec Segment A → Exec (DiskStorage M) A
  on_last m d = let (r, ss) = on_last_of m d.segments in (r, record d { segments = ss })

  unfoldable pub first_index : DiskStorage M → ℕ
  first_index d = elim d.segments [ [] ↦ 1 | s ∷ _ ↦ s.first_index ]

  unfoldable pub last_index : DiskStorage M → ℕ
  unfolding last_segment
  last_index d = elim (last_segment d.segments) [ none ↦ 0 | some s ↦ s.last_index ]

  unfoldable pub check_raft_index : DiskStorage M → ℕ → Result (Unit {0})
  unfolding first_index last_index
  check_raft_index d i =
      if ltb i (first_index d)
      then err compacted
      else if ltb (last_index d) i
      then err out_of_bound
      else ok tt

-- The loop of getReadSegments from the end, with the two positions found so far.
unfoldable pub find_ends : List Segment → ℕ → ℕ → ℕ → Option ℕ → Option ℕ → Option ℕ × Option ℕ
unfolding covers
find_ends ss first last zero a b = (a, b)
find_ends ss first last (suc n) a b = elim (get_elem? ss n) [
  | none ↦ (a, b)
  | some s ↦
      let a' = if covers s first then some n else a in
      let b' = if covers s last then some n else b in
      let rest = find_ends ss first last n a' b' in
      elim a' [ none ↦ rest | some i ↦ elim b' [ none ↦ rest | some j ↦ (some i, some j) ] ]
]

between : List Segment → Option ℕ × Option ℕ → Result (List Segment)
between ss (none, b) = err compacted
between ss (some i, none) = err out_of_bound
between ss (some i, some j) = if ltb j i then err out_of_bound else slice ss i (suc j)

unfoldable pub get_read_segments : List Segment → ℕ → ℕ → Result (List Segment)
unfolding find_ends between
get_read_segments ss first last = between ss (find_ends ss first last (length ss) none none)

-- len(Data), summed by cutRaftEntries until it passes the limit; the first entry always stays.
unfoldable pub cut_after : ℕ → ℕ → List Entry → List Entry
cut_after limit size [] = []
cut_after limit size (e ∷ es) =
    let more = cut_after limit (size + length e.payload) es in
    if ltb limit (size + length e.payload) then [] else e ∷ more

unfoldable pub continuous : List Entry → Bool
continuous [] = true
continuous (e ∷ []) = true
continuous (e ∷ f ∷ es) = (e.index + 1) % 2 ^ 64 == f.index && continuous (f ∷ es)

unfoldable pub cut_raft_entries : List Entry → ℕ → Result (List Entry)
unfolding cut_after continuous
cut_raft_entries [] limit = ok []
cut_raft_entries (e ∷ es) limit =
    if continuous (e ∷ es) then ok (e ∷ cut_after limit (length e.payload) es) else panic

module _ (v : Env) where
  -- Every segment is read with the whole limit: the `remainingSize` that the loop sets is its own.
  unfoldable pub read_segments : List Segment → ℕ → ℕ → ℕ → Result (List Entry)
  read_segments [] first last limit = ok []
  read_segments (s ∷ ss) first last limit =
      let begin = if ltb s.first_index first then first else s.first_index in
      let end = if ltb s.last_index last then s.last_index else last in
      let rest = read_segments ss first last limit in
      Common.◌>>=◌ (Segment.read_raft_entries v s begin end limit) λ r.
        let (entries, remaining) = r in
        if remaining == 0 then ok entries else Common.◌>>=◌ rest λ more. ok (entries ++ more)

  unfoldable pub remove_all : List Segment → Result (Unit {0})
  unfolding Segment.remove
  remove_all [] = ok tt
  remove_all (s ∷ ss) = Common.◌>>=◌ (Segment.remove v s).0 λ _. remove_all ss

module _ {M : Type 0} (v : Env) where
  -- Entries, in [lo, hi)
  unfoldable pub entries : DiskStorage M → ℕ → ℕ → ℕ → Result (List Entry)
  unfolding check_raft_index get_read_segments read_segments cut_raft_entries
  entries d lo hi limit =
      let last = (hi + 2 ^ 64 - 1) % 2 ^ 64 in
      if ltb last lo
      then err args_illegal
      else Common.◌>>=◌ (check_raft_index d lo) λ _. Common.◌>>=◌ (check_raft_index d last) λ _.
        Common.◌>>=◌ (get_read_segments d.segments lo last)
          λ ss. Common.◌>>=◌ (read_segments v ss lo last limit) λ es. cut_raft_entries es limit

  unfoldable pub term : DiskStorage M → ℕ → Result ℕ
  unfolding check_raft_index entries
  term d i =
      if i == 0
      then ok 0
      else Common.◌>>=◌ (check_raft_index d i) λ _.
        Common.◌>>=◌ (entries d i ((i + 1) % 2 ^ 64) (2 ^ 64 - 1))
          λ es. elim es [ [] ↦ err unavailable | e ∷ _ ↦ ok e.term ]

  -- getWriteSegment and rollingSegment: a new segment where there is none, or where the last has
  -- no room and has become read-only; nothing where the last is written.
  roll : ℕ → ℕ → ℕ → Option Segment → Exec (DiskStorage M) (Option Segment)
  unfolding on_last_of Segment.need_rolling Segment.new_segment Segment.change_to_readonly
  roll segment_size first size none =
      pure (some (Segment.new_segment (in_progress first) segment_size))
  roll segment_size first size (some w) =
      if not (Segment.need_rolling w size) then pure none else do
        on_last (Segment.change_to_readonly v)
        pure (some (Segment.new_segment (in_progress first) segment_size))

  unfoldable pub get_write_segment : ℕ → ℕ → ℕ → Exec (DiskStorage M) (Option Segment)
  unfolding last_segment roll
  get_write_segment segment_size first size = do
    d ← get
    roll segment_size first size (last_segment d.segments)

  -- A new segment joins the others once the records are in it.
  unfoldable pub save_into : List Record → ℕ → Option Segment → Exec (DiskStorage M) (Unit {0})
  unfolding on_last_of Segment.append_records
  save_into records start none = on_last (Segment.append_records v records start)
  save_into records start (some new) = do
    d ← get
    let (r, t) = Segment.append_records v records start new
    lift r
    put (record d { segments = d.segments ++ t ∷ [] })

  unfoldable pub save_raft_entries : ℕ → List Entry → Exec (DiskStorage M) (Unit {0})
  unfolding records_size get_write_segment save_into
  save_raft_entries segment_size [] = pure tt
  save_raft_entries segment_size (e ∷ es) =
      let records = map (record_of v) (e ∷ es) in
      let size = records_size v records in
      if ltb segment_size size
      then lift panic
      else get_write_segment segment_size e.index size >>= λ w. save_into records e.index w

  module _ (meta : MetaStorage M) where
    -- purgeSegments, over segments that are in the list no more
    unfoldable pub purge_segments : List Segment → Exec (DiskStorage M) (Unit {0})
    unfolding first_index remove_all
    purge_segments ss = do
      d ← get
      let (r, m) = meta.update_puged_gtidset (first_index d) d.metadata
      put (record d { metadata = m })
      lift r
      lift (remove_all v ss)

    -- The segments behind the found one are purged, and it is cut.
    cut_at : ℕ → Option ℕ → Exec (DiskStorage M) (Unit {0})
    unfolding purge_segments on_last_of Segment.truncate_suffix
    cut_at i none = raise out_of_bound
    cut_at i (some k) = do
      d ← get
      put (record d { segments = take (suc k) d.segments })
      if length (drop (suc k) d.segments) == 0
          then pure tt
          else purge_segments (drop (suc k) d.segments)
      on_last (Segment.truncate_suffix v i)

    unfoldable pub truncate_suffix : ℕ → Exec (DiskStorage M) (Unit {0})
    unfolding find_segment cut_at
    truncate_suffix i = do d ← get; cut_at i (find_segment d.segments i (length d.segments))

    -- What the timer of StartPurgeLog does.
    unfoldable pub purge_log : Exec (DiskStorage M) (Unit {0})
    unfolding purge_segments
    purge_log = do
      d ← get
      if not (ltb d.reserve_segment_count (length d.segments)) then pure tt else do
        let count = length d.segments - d.reserve_segment_count
        put (record d { segments = drop count d.segments })
        Segment.fatal (purge_segments (take count d.segments))

    -- appendRaftEntries of raft/raft.go
    unfoldable pub append_raft_entries : ℕ → List Entry → Exec (DiskStorage M) (Unit {0})
    unfolding last_index truncate_suffix save_raft_entries
    append_raft_entries segment_size [] = pure tt
    append_raft_entries segment_size (e ∷ es) = do
      d ← get
      if leb e.index (last_index d) then truncate_suffix e.index else pure tt
      save_raft_entries segment_size (e ∷ es)
