-- ===== src/Raft/Applied.antt =====
-- What applying a batch of entries makes of the applied index.
use kingbus.Common.{
  ℕ, ◌+◌, ◌%◌, ◌^◌, ◌<◌, ◌≤◌, ◌≡◌, sym, ap, ◌∙◌, List, [], ◌∷◌, arith, length, ltb, Bool-cases, inl,
  inr, Result, ok,
}
use kingbus.Exec.{first_returned}
use kingbus.Storage.Env.{Entry}
use kingbus.Bolt.{Bolt}
use kingbus.Gtids.{Gtids}
use kingbus.Membership.{Json}
use kingbus.Apply.{KingbusServer, RaftNode, emit, notify}
use kingbus.Apply.Binlog.{BinlogCodec}
use kingbus.Apply.Entries.{ArgsJson, apply_entries, apply_all}
use kingbus.Apply.Range.{IsRun, last_index_of, newer, last_run, last-bounded}
use kingbus.Apply.Once.{apply_rest-index, let_in, refused}
use kingbus.Raft.{raise_committed, update_committed_index}
use kingbus.Raft.System.{CountsUp}

-- Those behind an index reach no further than all of them.
newer-le :
    (i j k n : ℕ) (es : List Entry)
    → IsRun i es
    → j ≤ n
    → i + length es ≤ n + 1
    → last_index_of j (newer k es) ≤ n
newer-le i j k n [] run a b = a
newer-le i j k n (e ∷ es) (at, (bound, run)) a b = elim (Bool-cases (ltb k e.index)) [
  | inl behind ↦
      rw behind (newer-le (i + 1) e.index k n es run (omega (arith, at, b)) (omega (arith, b)))
  | inr done ↦ rw done (newer-le (i + 1) j k n es run a (omega (arith, b)))
]

module _ {D G U R : Type 0} (b : Bolt D) (g : Gtids G U) (codec : BinlogCodec G) (js : Json)
    (args : ArgsJson) (node : RaftNode R) (clock : ℕ → ℕ × ℕ) where
  entries-index :
      (es : List Entry) (s t : KingbusServer D G R)
      → CountsUp es
      → s.applied_index + 1 < 2 ^ 64
      → apply_entries b g codec js args node clock es s ≡ (ok tt, t)
      → (t.applied_index ≤ update_committed_index es s.applied_index)
        × (t.applied_index + 1 < 2 ^ 64)
  unfolding apply_entries update_committed_index raise_committed
  entries-index [] s t run bound h =
      let same = ap (λ (x : Result (Unit {0}) × KingbusServer D G R). x.1.applied_index) h in
      (omega (arith, same), omega (arith, same, bound))
  entries-index (e ∷ es) s t (pos, run) bound h =
      elim (Bool-cases (ltb ((s.applied_index + 1) % 2 ^ 64) e.index)) [
        | inl over ↦ let panics = refused b g codec js args node clock e es s over in cc
        | inr inside ↦
            let k = s.applied_index in
            let le : e.index ≤ s.applied_index + 1 = ground (arith, inside, bound) in
            let at =
              apply_rest-index b g codec js args node clock (newer k (e ∷ es)) s t
                (sym (let_in b g codec js args node clock e es s le bound run) ∙ h) in
            let end : last_index_of 0 (e ∷ es) + 1 ≡ e.index + length (e ∷ es) =
              omega (arith, last_run e.index es run.1.1) in
            let n = update_committed_index (e ∷ es) k in
            let reach : (k ≤ n) × (e.index + length (e ∷ es) ≤ n + 1) = ground (arith, end, pos) in
            (
              rw at (newer-le e.index k k n (e ∷ es) run reach.0 reach.1),
              rw at (last-bounded k k e.index (e ∷ es) bound run),
            )
      ]

  pub apply_all-index :
      (es : List Entry) (s t : KingbusServer D G R)
      → CountsUp es
      → s.applied_index + 1 < 2 ^ 64
      → apply_all b g codec js args node clock es s ≡ (ok tt, t)
      → (t.applied_index ≤ update_committed_index es s.applied_index)
        × (t.applied_index + 1 < 2 ^ 64)
  unfolding apply_all
  apply_all-index es s t run bound h =
      let (_, (u, (first, rest))) =
        first_returned (apply_entries b g codec js args node clock es s) (λ _. emit notify) tt t
          h in
      let same = ap (λ (x : Result (Unit {0}) × KingbusServer D G R). x.1.applied_index) rest in
      let at = entries-index es s u run bound first in
      (omega (arith, same, at), omega (arith, same, at))
