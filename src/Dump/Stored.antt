-- ===== src/Dump/Stored.antt =====
-- The dump reads the log itself: what it sends is made of the entries that the log holds.
use mathlib.Core.Path.{subst}
use kingbus.Common.{
  ℕ, suc, ◌+◌, ◌^◌, ◌≤◌, ◌<◌, ◌≡◌, refl, sym, ap, List, [], ◌∷◌, ◌++◌, append_assoc, arith, length,
  ok, ◌>>=◌,
}
use kingbus.Storage.Env.{Env, Entry, IsCodec}
use kingbus.Storage.IndexFile.{RwFile}
use kingbus.Storage.Segment.{Segment}
use kingbus.Storage.Segment.Represents.{Consecutive}
use kingbus.Storage.Disk.{DiskStorage, first_index}
use kingbus.Storage.Disk.Limit.{total}
use kingbus.Storage.Disk.Replace.{Ends}
use kingbus.Storage.Disk.Read.{encoded_size}
use kingbus.Storage.Reader.{entry_at_index}
use kingbus.Storage.Reader.Held.{get_next-Ends}
use kingbus.Gtids.{Gtids}
use kingbus.Apply.Binlog.{BinlogCodec}
use kingbus.Dump.{DumpState, dump_rounds}
use kingbus.Dump.Groups.{send_all}
use kingbus.Dump.Catch.{Reads, dump_rounds-send_all}

module _ {M : Type 0} (v : Env) (d : DiskStorage M) (full : List Segment) (s : Segment)
    (ix : RwFile) (free : List ℕ) (codec : IsCodec v) where
  -- The first of some entries is not behind the first index of the log, and their sizes are uint64.
  Reads-Ends :
      (pre w post : List Entry) (i : ℕ)
      → Ends v d full s ix free (pre ++ (w ++ post))
      → Consecutive i w
      → first_index d ≤ i
      → encoded_size v w < 2 ^ 64
      → total w < 2 ^ 64
      → Reads (entry_at_index v d) i w
  unfolding entry_at_index encoded_size total
  Reads-Ends pre [] post i h run fst size data_size = tt
  Reads-Ends pre (e ∷ w) post i h (at, run) fst size data_size =
      let one =
        get_next-Ends v d full s ix free codec pre (w ++ post) e h (omega (arith, at, fst))
          (omega (arith, size)) (omega (arith, data_size)) in
      (
        subst (λ n. entry_at_index v d n ≡ ok e) at (ap (λ r. r >>= λ x. ok x.0) one),
        subst (λ n. Reads (entry_at_index v d) n w) {x = suc i} {y = i + 1} (omega arith)
            (Reads-Ends (pre ++ e ∷ []) w post (suc i)
              (subst (λ l. Ends v d full s ix free l) (sym (append_assoc pre (e ∷ []) (w ++ post)))
                h)
              run (omega (arith, fst)) (omega (arith, size)) (omega (arith, data_size))),
      )

  module _ {G U : Type 0} (g : Gtids G U) (events : BinlogCodec G) where
    -- DumpBinlogAt over the log: with one round for each of some consecutive entries that the last
    -- segment holds, from the dump's next raft index on, it sends what sending those entries one
    -- after another does. They are applied, not before the log's first index, and their encodings
    -- and data have sizes of a uint64.
    pub dump_rounds-stored :
        (slave : G) (applied : ℕ) (pre w post : List Entry) (state : DumpState)
        → Ends v d full s ix free (pre ++ (w ++ post))
        → Consecutive state.next_raft_index w
        → first_index d ≤ state.next_raft_index
        → state.next_raft_index + length w ≤ applied + 1
        → encoded_size v w < 2 ^ 64
        → total w < 2 ^ 64
        → dump_rounds g events (length w) slave (entry_at_index v d) applied state
          ≡ send_all g events slave w state
    dump_rounds-stored slave applied pre w post state h run fst reach size data_size =
        dump_rounds-send_all g events slave (entry_at_index v d) applied state.next_raft_index w
          state refl (Reads-Ends pre w post state.next_raft_index h run fst size data_size) reach
