-- ===== src/Progress/Reset.antt =====
-- reset of the progress, with the gtids that the master has purged.
use mathlib.Core.Path.{subst}
use kingbus.Common.{
  ℕ, ◌≡◌, refl, sym, ap, ◌∙◌, Option, none, some, List, [], length, ◌==◌, if◌then◌else◌, Bool-cases,
  inl, inr, Result, ok,
}
use kingbus.Exec.{◌>>◌, pure, put, bind_returned, first_returned}
use kingbus.Store.{executed_gtids}
use kingbus.Bolt.{Bolt}
use kingbus.Gtids.{Gtids}
use kingbus.MetaStore.Gtid.{set_gtid_set}
use kingbus.Boundary
use kingbus.Progress.{BinlogProgress, Progress, or_decode_error, on_store, save_gtids, reset}

or_decode_error-ok : {A : Type 0} (o : Option A) (a : A) → or_decode_error o ≡ ok a → o ≡ some a
or_decode_error-ok none a h = cc
or_decode_error-ok (some b) a h = cc

module _ {D G U : Type 0} (b : Bolt D) (g : Gtids G U) where
  -- The progress q is p reset by the gtids: nothing is left of a transaction or of a binlog file, the
  -- executed set is updated by the gtids and saved, where there are any, and its text is current.
  pub record IsReset (gtids : List ℕ) (p q : Progress D G) : Type 0 where
    pub no_gtid : q.progress.current_gtid ≡ []
    pub no_file : q.progress.last_binlog_file ≡ []
    pub no_position : q.progress.last_file_position ≡ 0
    pub parser_reset : q.progress.trx_boundary_parser ≡ Boundary.reset
    pub no_time : q.progress.persistent_time ≡ 0
    pub no_index : q.progress.persistent_applied_index ≡ 0
    pub updated :
        (if length gtids == 0
          then some p.progress.executed_gtid_set
          else g.update gtids p.progress.executed_gtid_set)
        ≡ some q.progress.executed_gtid_set
    pub saved :
        (if length gtids == 0
          then (ok tt, p.store)
          else set_gtid_set b g executed_gtids q.progress.executed_gtid_set p.store)
        ≡ (ok tt, q.store)
    pub text_current : q.progress.executed_gtid_set_str ≡ g.to_string q.progress.executed_gtid_set

  -- The reset of the fields in front of the update, and the text behind it.
  abbrev cleared : Progress D G → Progress D G
  cleared p = record p {
    progress = record p.progress {
      current_gtid = [];
      last_binlog_file = [];
      last_file_position = 0;
      trx_boundary_parser = Boundary.reset;
      persistent_time = 0;
      persistent_applied_index = 0;
    };
  }

  abbrev with_set : G → Progress D G → Progress D G
  with_set x p = record p { progress = record p.progress { executed_gtid_set = x } }

  abbrev with_text : Progress D G → Progress D G
  with_text p = record p {
    progress = record p.progress {
      executed_gtid_set_str = g.to_string p.progress.executed_gtid_set;
    };
  }

  save_gtids-returned :
      (gtids : List ℕ) (p q : Progress D G)
      → save_gtids b g gtids p ≡ (ok tt, q)
      → (x : G) × ((g.update gtids p.progress.executed_gtid_set ≡ some x)
          × ((set_gtid_set b g executed_gtids x p.store ≡ (ok tt, q.store))
              × (q.progress ≡ (with_set x p).progress)))
  unfolding save_gtids
  save_gtids-returned gtids p q h =
      let (x, (read, h1)) =
        bind_returned (or_decode_error (g.update gtids p.progress.executed_gtid_set)) p
          (λ x. put (with_set x p) >> on_store b g (set_gtid_set b g executed_gtids x)) tt q h in
      (
        x,
        (
          or_decode_error-ok (g.update gtids p.progress.executed_gtid_set) x read,
          (
            ap (λ (y : Result (Unit {0}) × Progress D G). (y.0, y.1.store)) h1,
            ap (λ (y : Result (Unit {0}) × Progress D G). y.1.progress) (sym h1),
          ),
        ),
      )

  -- The end of a reset: the progress before it is cleared, with the executed set x.
  written :
      (gtids : List ℕ) (p r q : Progress D G) (x : G)
      → (if length gtids == 0
          then some p.progress.executed_gtid_set
          else g.update gtids p.progress.executed_gtid_set)
        ≡ some x
      → (if length gtids == 0 then (ok tt, p.store) else set_gtid_set b g executed_gtids x p.store)
        ≡ (ok tt, r.store)
      → r.progress ≡ (with_set x (cleared p)).progress
      → q ≡ with_text r
      → IsReset gtids p q
  written gtids p r q x up save same done =
      let field = ap (λ (y : Progress D G). y.progress) done in
      let set : q.progress.executed_gtid_set ≡ x =
        ap (λ (y : BinlogProgress G). y.executed_gtid_set)
          (field
            ∙ ap
                (λ (y : BinlogProgress G). record y {
                  executed_gtid_set_str = g.to_string y.executed_gtid_set;
                })
                same) in
      let all : q.progress ≡ (with_text (with_set x (cleared p))).progress =
        field
        ∙ ap
            (λ (y : BinlogProgress G). record y {
              executed_gtid_set_str = g.to_string y.executed_gtid_set;
            })
            same in
      record {
        no_gtid = ap (λ (y : BinlogProgress G). y.current_gtid) all;
        no_file = ap (λ (y : BinlogProgress G). y.last_binlog_file) all;
        no_position = ap (λ (y : BinlogProgress G). y.last_file_position) all;
        parser_reset = ap (λ (y : BinlogProgress G). y.trx_boundary_parser) all;
        no_time = ap (λ (y : BinlogProgress G). y.persistent_time) all;
        no_index = ap (λ (y : BinlogProgress G). y.persistent_applied_index) all;
        updated = up ∙ ap some (sym set);
        saved =
            subst
              (λ y.
                (if length gtids == 0
                  then (ok tt, p.store)
                  else set_gtid_set b g executed_gtids y p.store)
                ≡ (ok tt, q.store))
              (sym set) (save ∙ ap (λ (y : Progress D G). (ok tt, y.store)) (sym done));
        text_current =
            ap (λ (y : BinlogProgress G). y.executed_gtid_set_str) all ∙ ap g.to_string (sym set);
      }

  pub reset-IsReset :
      (gtids : List ℕ) (p q : Progress D G) → reset b g gtids p ≡ (ok tt, q) → IsReset gtids p q
  unfolding reset
  reset-IsReset gtids p q h =
      let step = if length gtids == 0 then pure tt else save_gtids b g gtids in
      let (x, (r, (saved, rest))) =
        first_returned (step (cleared p)) (λ x t. (ok tt, with_text t)) tt q h in
      let done = ap (λ (y : Result (Unit {0}) × Progress D G). y.1) (sym rest) in
      elim (Bool-cases (length gtids == 0)) [
        | inl none_given ↦
            let same : cleared p ≡ r =
              ap (λ (y : Result (Unit {0}) × Progress D G). y.1)
                (ap (λ c. (if c then pure tt else save_gtids b g gtids) (cleared p))
                    (sym none_given)
                  ∙ saved) in
            written gtids p r q p.progress.executed_gtid_set (rw none_given refl)
              (rw none_given (ap (λ (y : Progress D G). (ok tt, y.store)) same))
              (ap (λ (y : Progress D G). y.progress) (sym same)) done
        | inr given ↦
            let runs : save_gtids b g gtids (cleared p) ≡ (ok tt, r) =
              ap (λ c. (if c then pure tt else save_gtids b g gtids) (cleared p)) (sym given)
              ∙ saved in
            let (y, (up, (kept, same))) = save_gtids-returned gtids (cleared p) r runs in
            written gtids p r q y (rw given up) (rw given kept) same done
      ]
