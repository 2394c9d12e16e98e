-- ===== src/Syncer/Server.antt =====
-- startSyncerServer of server/server.go, behind its wait for the committed entries: a new syncer, and
-- the progress of the server.
use kingbus.Common.{ℕ, ◌≡◌, sym, ap, ◌∙◌, Bool, false, List, [], ◌∷◌, ◌++◌, Result, ok}
use kingbus.Exec.{Exec, ◌>>=◌, ◌>>◌, lift, bind_returned, first_returned}
use kingbus.Bolt.{Bolt}
use kingbus.Gtids.{Gtids}
use kingbus.Apply.Entries.{master_info_type, master_gtid_purged_type}
use kingbus.Progress
use kingbus.Progress.{Progress}
use kingbus.Progress.Reset.{IsReset, reset-IsReset}
use kingbus.Syncer.{
  Client, Encodings, Syncer, gtid_purged, new_syncer, send_data, execute, get_master_gtid_purged,
  propose_master_gtid_purged, start,
}
use kingbus.Syncer.Ask.{kept}
use kingbus.Syncer.Told.{execute-kept, sent}
use kingbus.Syncer.Started.{Runs, start-Runs}

pub record Starting (D G W : Type 0) : Type 0 where
  pub syncer : Syncer W
  pub progress : Progress D G

module _ {D G U W A : Type 0} (b : Bolt D) (g : Gtids G U) (client : Client W A G)
    (code : Encodings) where
  abbrev pub on_syncer : {B : Type 0} → Exec (Syncer W) B → Exec (Starting D G W) B
  on_syncer m s = let (r, t) = m s.syncer in (r, record s { syncer = t })

  abbrev pub on_progress : {B : Type 0} → Exec (Progress D G) B → Exec (Starting D G W) B
  on_progress m s = let (r, t) = m s.progress in (r, record s { progress = t })

  -- The syncer follows the master from the executed set on.
  abbrev pub start_executed : Exec (Starting D G W) (Unit {0})
  start_executed s = on_syncer (start client code s.progress.progress.executed_gtid_set) s

  unfoldable pub start_new : Exec (Starting D G W) (Unit {0})
  unfolding get_master_gtid_purged Progress.reset propose_master_gtid_purged start
  start_new = do
    gtids ← on_syncer (get_master_gtid_purged client)
    on_progress (Progress.reset b g gtids)
    on_syncer (propose_master_gtid_purged code gtids)
    start_executed

  unfoldable pub start_syncer_server : W → Progress D G → Result (Unit {0}) × Starting D G W
  unfolding start_new new_syncer
  start_syncer_server w p = start_new (record { syncer = new_syncer w; progress = p })

  -- An operation on the syncer that has returned.
  on_syncer-returned :
      {B : Type 0} (m : Exec (Syncer W) B) (s t : Starting D G W) (v : B)
      → on_syncer m s ≡ (ok v, t)
      → (m s.syncer ≡ (ok v, t.syncer)) × (t.progress ≡ s.progress)
  on_syncer-returned {B} m s t v h = (
    ap (λ (x : Result B × Starting D G W). (x.0, x.1.syncer)) h,
    ap (λ (x : Result B × Starting D G W). x.1.progress) (sym h),
  )

  on_progress-returned :
      {B : Type 0} (m : Exec (Progress D G) B) (s t : Starting D G W) (v : B)
      → on_progress m s ≡ (ok v, t)
      → (m s.progress ≡ (ok v, t.progress)) × (t.syncer ≡ s.syncer)
  on_progress-returned {B} m s t v h = (
    ap (λ (x : Result B × Starting D G W). (x.0, x.1.progress)) h,
    ap (λ (x : Result B × Starting D G W). x.1.syncer) (sym h),
  )

  purged-asked :
      (w : W) (t : Syncer W) (gtids : List ℕ)
      → get_master_gtid_purged client (new_syncer w) ≡ (ok gtids, t)
      → (a : A) × ((execute client gtid_purged (new_syncer w) ≡ (ok a, t))
          × (client.get_string a ≡ ok gtids))
  unfolding get_master_gtid_purged
  purged-asked w t gtids h =
      let (a, (u, (asked, read))) =
        first_returned (execute client gtid_purged (new_syncer w)) (λ a. lift (client.get_string a))
          gtids t h in
      (
        a,
        (
          asked ∙ ap (λ (x : Result (List ℕ) × Syncer W). (ok a, x.1)) read,
          ap (λ (x : Result (List ℕ) × Syncer W). x.0) read,
        ),
      )

  -- The state of the syncer when the purged gtids are proposed.
  abbrev proposed_from : Syncer W → List ℕ → Syncer W
  proposed_from s v = record s { data_c = (master_gtid_purged_type ∷ v) ∷ [] }

  purged-sent :
      (gtids : List ℕ) (s t : Syncer W)
      → kept client s ≡ (false, [])
      → propose_master_gtid_purged code gtids s ≡ (ok tt, t)
      → (v : List ℕ) × ((code.encode_purged gtids ≡ ok v) × (t ≡ proposed_from s v))
  unfolding propose_master_gtid_purged
  purged-sent gtids s t quiet h =
      let (v, (encoded, put)) =
        bind_returned (code.encode_purged gtids) s (λ v. send_data (master_gtid_purged_type ∷ v)) tt
          t h in
      let done =
        sent client (master_gtid_purged_type ∷ v) s t (ap (λ (x : Bool × List (List ℕ)). x.0) quiet)
          put in
      (
        v,
        (
          encoded,
          done
              ∙ ap
                  (λ (x : Bool × List (List ℕ)). record s {
                    data_c = x.1 ++ (master_gtid_purged_type ∷ v) ∷ [];
                  })
                  quiet,
        ),
      )

  -- What has happened where a syncer server was started: the master has said which gtids it has
  -- purged, by which the progress was reset; they were proposed, and nothing before them; and from
  -- there the syncer was started from the executed set, as Runs says.
  pub record IsStarted (w : W) (p : Progress D G) (t : Starting D G W) : Type 0 where
    pub answer : A
    pub gtids : List ℕ
    pub purged : List ℕ
    pub first : Syncer W
    pub asked : execute client gtid_purged (new_syncer w) ≡ (ok answer, first)
    pub read : client.get_string answer ≡ ok gtids
    pub progressed : IsReset b g gtids p t.progress
    pub purged_encoded : code.encode_purged gtids ≡ ok purged
    pub runs :
        Runs client code t.progress.progress.executed_gtid_set
          (record first { data_c = (master_gtid_purged_type ∷ purged) ∷ [] })
          t.syncer
    pub sent_both :
        t.syncer.data_c
        ≡ (master_gtid_purged_type ∷ purged) ∷ (master_info_type ∷ runs.told.info) ∷ []

  -- The start, where the states are known by equations.
  started :
      (s t u : Syncer W) (p q : Progress D G)
      → s ≡ u
      → p ≡ q
      → u.cancelled ≡ false
      → start client code p.progress.executed_gtid_set s ≡ (ok tt, t)
      → Runs client code q.progress.executed_gtid_set u t
  started s t u p q same still free h =
      start-Runs client code q.progress.executed_gtid_set u t free (
        ap (λ (x : Progress D G). start client code x.progress.executed_gtid_set u) (sym still)
        ∙ (ap (start client code p.progress.executed_gtid_set) (sym same) ∙ h))

  -- The four calls, one behind the other.
  called :
      (w : W) (p : Progress D G) (gtids : List ℕ) (s1 s2 s3 t : Starting D G W)
      → on_syncer (get_master_gtid_purged client) (record { syncer = new_syncer w; progress = p })
        ≡ (ok gtids, s1)
      → on_progress (Progress.reset b g gtids) s1 ≡ (ok tt, s2)
      → on_syncer (propose_master_gtid_purged code gtids) s2 ≡ (ok tt, s3)
      → start_executed s3 ≡ (ok tt, t)
      → IsStarted w p t
  unfolding new_syncer
  called w p gtids s1 s2 s3 t e1 e2 e3 h3 =
      let s : Starting D G W = record { syncer = new_syncer w; progress = p } in
      let (got, still) = on_syncer-returned (get_master_gtid_purged client) s s1 gtids e1 in
      let (reset, same) = on_progress-returned (Progress.reset b g gtids) s1 s2 tt e2 in
      let (proposed, kept_progress) =
        on_syncer-returned (propose_master_gtid_purged code gtids) s2 s3 tt e3 in
      let (run, last) =
        on_syncer-returned (start client code s3.progress.progress.executed_gtid_set) s3 t tt h3 in
      let (answer, (asked, read)) = purged-asked w s1.syncer gtids got in
      let quiet : kept client s1.syncer ≡ (false, []) =
        execute-kept client gtid_purged (new_syncer w) s1.syncer answer asked in
      let (purged, (encoded, queue)) =
        purged-sent gtids s1.syncer s3.syncer quiet
          (ap (propose_master_gtid_purged code gtids) (sym same) ∙ proposed) in
      let runs : Runs client code t.progress.progress.executed_gtid_set
          (proposed_from s1.syncer purged) t.syncer =
        started s3.syncer t.syncer (proposed_from s1.syncer purged) s3.progress t.progress queue
          (sym last) (ap (λ (k : Bool × List (List ℕ)). k.0) quiet) run in
      record {
        answer = answer;
        gtids = gtids;
        purged = purged;
        first = s1.syncer;
        asked = asked;
        read = read;
        progressed = reset-IsReset b g gtids p t.progress (
            ap (Progress.reset b g gtids) (sym still)
            ∙ (reset ∙ ap (λ q. (ok tt, q)) (sym (last ∙ kept_progress))));
        purged_encoded = encoded;
        runs = runs;
        sent_both =
            ap (λ (x : Syncer W). x.data_c) runs.left
            ∙ (ap (λ (x : Syncer W). x.data_c) runs.told.queued
                ∙ ap (λ d. d ++ (master_info_type ∷ runs.told.info) ∷ []) runs.unsent);
      }

  -- A start of a syncer server that returns without an error has done what IsStarted says.
  pub start_syncer_server-IsStarted :
      (w : W) (p : Progress D G) (t : Starting D G W)
      → start_syncer_server w p ≡ (ok tt, t)
      → IsStarted w p t
  unfolding start_syncer_server start_new
  start_syncer_server-IsStarted w p t h =
      let s : Starting D G W = record { syncer = new_syncer w; progress = p } in
      let (gtids, (s1, (e1, h1))) =
        first_returned (on_syncer (get_master_gtid_purged client) s)
          (λ gtids.
            on_progress (Progress.reset b g gtids)
            >> (on_syncer (propose_master_gtid_purged code gtids) >> start_executed))
          tt t h in
      let (x, (s2, (e2, h2))) =
        first_returned (on_progress (Progress.reset b g gtids) s1)
          (λ x. on_syncer (propose_master_gtid_purged code gtids) >> start_executed) tt t h1 in
      let (y, (s3, (e3, h3))) =
        first_returned (on_syncer (propose_master_gtid_purged code gtids) s2) (λ x. start_executed)
          tt t h2 in
      called w p gtids s1 s2 s3 t e1 e2 e3 h3
