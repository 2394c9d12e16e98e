-- ===== src/Apply/Once.antt =====
-- applyEntries: a committed entry is applied once, however often raft hands it over.
use kingbus.Common.{
  ℕ, ◌+◌, ◌%◌, ◌^◌, ◌≤◌, ◌<◌, ◌≡◌, refl, sym, ap, ◌∙◌, Bool, true, false, ◌||◌, Option, none, some,
  List, [], ◌∷◌, ltb, if◌then◌else◌, arith, Bool-cases, inl, inr, Error, ok, panic,
}
use kingbus.Exec.{◌>>=◌, pure, bind_returned}
use kingbus.Storage.Env.{Entry}
use kingbus.Apply.{KingbusServer, RaftNode, emit, stop, set_applied}
use kingbus.Membership.{Json}
use kingbus.Bolt.{Bolt}
use kingbus.Gtids.{Gtids}
use kingbus.Apply.Binlog.{BinlogCodec}
use kingbus.Apply.Entries.{ArgsJson, apply, handle, settle, apply_entry, apply_rest, apply_entries}
use kingbus.Apply.Range.{
  IsRun, newer, last_index_of, ltb-ge, last-reaches, last-bounded, newer_none, to_apply_lem,
}

stopped :
    {D G R : Type 0} (stops : Bool) (u t : KingbusServer D G R)
    → (if stops then emit stop else pure tt) u ≡ (ok tt, t)
    → u.applied_index ≡ t.applied_index
stopped true u t h = ap (λ p. p.1.applied_index) h
stopped false u t h = ap (λ p. p.1.applied_index) h

module _ {D G U R : Type 0} (b : Bolt D) (g : Gtids G U) (codec : BinlogCodec G) (js : Json)
    (args : ArgsJson) (node : RaftNode R) (clock : ℕ → ℕ × ℕ) where
  settle-index :
      (e : Entry) (r : Option (ℕ × (Bool × Option Error))) (s t : KingbusServer D G R) (v : Bool)
      → settle b g codec js args node clock e r s ≡ (ok v, t)
      → t.applied_index ≡ e.index
  unfolding settle set_applied
  settle-index e none s t v h = ap (λ p. p.1.applied_index) (sym h)
  settle-index e (some (i, (removed_self, error))) s t v h = ap (λ p. p.1.applied_index) (sym h)

  apply_entry-index :
      (e : Entry) (s t : KingbusServer D G R) (v : Bool)
      → apply_entry b g codec js args node clock e s ≡ (ok v, t)
      → t.applied_index ≡ e.index
  unfolding apply_entry
  apply_entry-index e s t v h =
      let (r, u) = handle b g codec js args node clock e s in
      let (a, (_, last)) = bind_returned r u (settle b g codec js args node clock e) v t h in
      settle-index e a u t v last

  apply-index :
      (es : List Entry) (s t : KingbusServer D G R) (v : Bool)
      → apply b g codec js args node clock es s ≡ (ok v, t)
      → t.applied_index ≡ last_index_of s.applied_index es
  unfolding apply
  apply-index [] s t v h = ap (λ p. p.1.applied_index) (sym h)
  apply-index (e ∷ es) s t v h =
      let (r, u) = apply_entry b g codec js args node clock e s in
      let (a, (first, rest)) =
        bind_returned r u (λ a. apply b g codec js args node clock es >>= λ c. pure (a || c)) v t
          h in
      let (r2, u2) = apply b g codec js args node clock es u in
      let (c, (second, done)) = bind_returned r2 u2 (λ c. pure (a || c)) v t rest in
      let at = apply_entry-index e s u a (ap (λ q. (q, u)) first) in
      ap (λ p. p.1.applied_index) (sym done)
      ∙ (apply-index es u u2 c (ap (λ q. (q, u2)) second) ∙ ap (λ k. last_index_of k es) at)

  pub apply_rest-index :
      (es : List Entry) (s t : KingbusServer D G R)
      → apply_rest b g codec js args node clock es s ≡ (ok tt, t)
      → t.applied_index ≡ last_index_of s.applied_index es
  unfolding apply_rest
  apply_rest-index [] s t h = ap (λ p. p.1.applied_index) (sym h)
  apply_rest-index (e ∷ es) s t h =
      let (r, u) = apply b g codec js args node clock (e ∷ es) s in
      let (a, (run, rest)) =
        bind_returned r u (λ stops. if stops then emit stop else pure tt) tt t h in
      sym (stopped a u t rest) ∙ apply-index (e ∷ es) s u a (ap (λ q. (q, u)) run)

  pub let_in :
      (e : Entry) (es : List Entry) (s : KingbusServer D G R)
      → e.index ≤ s.applied_index + 1
      → s.applied_index + 1 < 2 ^ 64
      → IsRun e.index (e ∷ es)
      → apply_entries b g codec js args node clock (e ∷ es) s
        ≡ apply_rest b g codec js args node clock (newer s.applied_index (e ∷ es)) s
  unfolding apply_entries
  let_in e es s le bound run =
      let inside = ltb-ge ((s.applied_index + 1) % 2 ^ 64) e.index (omega (arith, le, bound)) in
      rw (inside, to_apply_lem e.index s.applied_index (e ∷ es) le bound run) refl

  pub refused :
      (e : Entry) (es : List Entry) (s : KingbusServer D G R)
      → ltb ((s.applied_index + 1) % 2 ^ 64) e.index ≡ true
      → apply_entries b g codec js args node clock (e ∷ es) s ≡ (panic, s)
  unfolding apply_entries
  refused e es s over = rw over refl

  -- Entries that were applied are not applied again when raft hands them over again.
  pub apply_entries-again :
      (first : ℕ) (es : List Entry) (s t : KingbusServer D G R)
      → IsRun first es
      → s.applied_index + 1 < 2 ^ 64
      → apply_entries b g codec js args node clock es s ≡ (ok tt, t)
      → apply_entries b g codec js args node clock es t ≡ (ok tt, t)
  unfolding apply_rest apply_entries
  apply_entries-again first [] s t run bound h = refl
  apply_entries-again first (e ∷ es) s t run bound h =
      elim (Bool-cases (ltb ((s.applied_index + 1) % 2 ^ 64) e.index)) [
        | inl over ↦ let panics = refused e es s over in cc
        | inr inside ↦
            let k = s.applied_index in
            let le : e.index ≤ s.applied_index + 1 = ground (arith, inside, bound) in
            let from : IsRun e.index (e ∷ es) = (refl, rw run.0 run.1) in
            let at =
              apply_rest-index (newer k (e ∷ es)) s t (sym (let_in e es s le bound from) ∙ h) in
            let reach = last-reaches k e.index (e ∷ es) le from in
            let none_left = newer_none k e.index (e ∷ es) le from in
            let_in e es t (omega (arith, at, reach))
              (rw at (last-bounded k k e.index (e ∷ es) bound from)) from
            ∙ ap (λ l. apply_rest b g codec js args node clock l t)
                (ap (λ n. newer n (e ∷ es)) at ∙ none_left)
      ]

  -- The reference: the entries behind the applied index, in order.
  pub apply_entries_lem :
      (e : Entry) (es : List Entry) (s : KingbusServer D G R)
      → s.applied_index + 1 < 2 ^ 64
      → IsRun e.index (e ∷ es)
      → apply_entries b g codec js args node clock (e ∷ es) s ≡ (
          if ltb (s.applied_index + 1) e.index
          then (panic, s)
          else apply_rest b g codec js args node clock (newer s.applied_index (e ∷ es)) s)
  apply_entries_lem e es s bound run = elim (Bool-cases (ltb (s.applied_index + 1) e.index)) [
    | inl over ↦ rw over (refused e es s (ground (arith, over, bound)))
    | inr inside ↦
        let le : e.index ≤ s.applied_index + 1 = ground (arith, inside) in
        rw inside (let_in e es s le bound run)
  ]
