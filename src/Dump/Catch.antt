-- ===== src/Dump/Catch.antt =====
-- The loop of DumpBinlogAt reads each applied entry once and in order, and none before it is applied.
use kingbus.Common.{
  ℕ, ◌+◌, ◌≤◌, ◌<◌, ◌≡◌, refl, sym, ap, Bool, true, false, List, [], ◌∷◌, length, leb, arith,
  returned, drop, Result, ok, err, panic, ◌>>=◌,
}
use kingbus.Exec.{must}
use kingbus.Storage.Env.{Entry}
use kingbus.Gtids.{Gtids}
use kingbus.Apply.Binlog.{BinlogCodec}
use kingbus.Apply.Entries.{is_binlog_event}
use kingbus.Dump.{DumpState, skip_event, pushed, send_if, send_entry, dump_round, dump_rounds}
use kingbus.Dump.Groups.{send_all}

-- The reader gives these entries from an index on.
abbrev pub Reads : (ℕ → Result Entry) → ℕ → List Entry → Type 0
Reads log i [] = Unit
Reads log i (e ∷ es) = (log i ≡ ok e) × Reads log (i + 1) es

abbrev next_of : Result DumpState → ℕ
next_of (ok t) = t.next_raft_index
next_of _ = 0

module _ {G U : Type 0} (g : Gtids G U) (codec : BinlogCodec G) where
  send_if-next :
      (binlog : Bool) (slave : G) (e : Entry) (s t : DumpState)
      → send_if g codec binlog slave e s ≡ ok t
      → t.next_raft_index ≡ s.next_raft_index
  unfolding send_if pushed
  send_if-next false slave e s t h = ap next_of (sym h)
  send_if-next true slave e s t h =
      let (event, (_, rest)) = returned (must (codec.unmarshal_event (drop 1 e.payload))) _ t h in
      let (skip, (_, done)) =
        returned (skip_event g codec event slave s.in_exclude_group) _ t rest in
      ap next_of (sym done)

  send_entry-next :
      (slave : G) (e : Entry) (s t : DumpState)
      → send_entry g codec slave e s ≡ ok t
      → t.next_raft_index ≡ s.next_raft_index
  unfolding send_entry
  send_entry-next slave e s t h = send_if-next (is_binlog_event e) slave e s t h

  step_on :
      (r : Result DumpState) (f h : DumpState → Result DumpState)
      → ((t : DumpState) → r ≡ ok t → f t ≡ h t)
      → (r >>= f) ≡ (r >>= h)
  step_on (ok t) f h same = same t refl
  step_on (err e) f h same = refl
  step_on panic f h same = refl

  -- As many rounds as there are applied entries to read.
  pub dump_rounds-send_all :
      (slave : G) (log : ℕ → Result Entry) (applied i : ℕ) (es : List Entry) (s : DumpState)
      → s.next_raft_index ≡ i
      → Reads log i es
      → i + length es ≤ applied + 1
      → dump_rounds g codec (length es) slave log applied s ≡ send_all g codec slave es s
  unfolding dump_rounds send_all dump_round
  dump_rounds-send_all slave log applied i [] s at reads le = refl
  dump_rounds-send_all slave log applied i (e ∷ es) s at (read, reads) le =
      let inside : leb s.next_raft_index applied ≡ true = ground (arith, at, le) in
      rw (inside, at, read)
        (step_on (send_entry g codec slave e (record s { next_raft_index = i + 1 })) _ _ (λ t h.
          dump_rounds-send_all slave log applied (i + 1) es t
            (send_entry-next slave e (record s { next_raft_index = i + 1 }) t h) reads
            (omega (arith, le))))

  pub dump_round-waits :
      (slave : G) (log : ℕ → Result Entry) (applied : ℕ) (s : DumpState)
      → applied < s.next_raft_index
      → dump_round g codec slave log applied s ≡ ok s
  unfolding dump_round
  dump_round-waits slave log applied s lt = ground (arith, lt)
