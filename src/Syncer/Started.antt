-- ===== src/Syncer/Started.antt =====
-- Start: what has happened where a syncer was started.
use kingbus.Common.{
  ℕ, ◌≡◌, refl, sym, ap, ◌∙◌, Bool, true, false, List, bytes_eq, if◌then◌else◌, unsupport, Result,
  ok, err,
}
use kingbus.Exec.{Exec, ◌>>=◌, first_returned}
use kingbus.Syncer.{
  version, Client, Encodings, Syncer, Query, gtid_mode, binlog_format, on_world, execute,
  text_or_empty, wants, on_text, row_text, pre_check, get_master_info, start, stop_as, stop,
}
use kingbus.Syncer.Ask.{kept, execute-conn}
use kingbus.Syncer.Told.{execute-kept, Told, get_master_info-Told}

module _ {W A G : Type 0} (client : Client W A G) where
  -- A query that was answered with the text.
  abbrev pub Says : Query → List ℕ → Syncer W → Syncer W → Type 0
  Says q v s t =
      (a : A) × ((execute client q s ≡ (ok a, t))
        × (bytes_eq (text_or_empty (client.get_string a)) v ≡ true))

  said :
      (b : Bool) (s t : Syncer W)
      → ◌≡◌ {A = Result (Unit {0}) × Syncer W} (if b then ok tt else err unsupport, s) (ok tt, t)
      → (b ≡ true) × (s ≡ t)
  said true s t h = (refl, ap (λ (x : Result (Unit {0}) × Syncer W). x.1) h)
  said false s t h = cc

  pre_check-Says :
      (s t : Syncer W)
      → pre_check client s ≡ (ok tt, t)
      → (u : Syncer W) × (Says gtid_mode on_text s u × Says binlog_format row_text u t)
  unfolding pre_check wants
  pre_check-Says s t h =
      let (a, (u, (mode, h1))) =
        first_returned (execute client gtid_mode s)
          (λ a.
            wants client on_text a >>= λ x. execute client binlog_format >>= wants client row_text)
          tt t h in
      let (x, (v, (on, h2))) =
        first_returned (wants client on_text a u)
          (λ x. execute client binlog_format >>= wants client row_text) tt t h1 in
      let (b, (w, (format, h3))) =
        first_returned (execute client binlog_format v) (wants client row_text) tt t h2 in
      let (is_on, same) = said (bytes_eq (text_or_empty (client.get_string a)) on_text) u v on in
      let (is_row, last) = said (bytes_eq (text_or_empty (client.get_string b)) row_text) w t h3 in
      (
        u,
        (
          (a, (mode, is_on)),
          (
            b,
            (ap (execute client binlog_format) same ∙ (format ∙ ap (λ y. (ok b, y)) last), is_row),
          ),
        ),
      )

  pre_check-kept :
      (s t : Syncer W) → pre_check client s ≡ (ok tt, t) → kept client t ≡ kept client s
  pre_check-kept s t h =
      let (u, ((a, (mode, on)), (b, (format, row)))) = pre_check-Says s t h in
      execute-kept client binlog_format u t b format ∙ execute-kept client gtid_mode s u a mode

  -- The end of Start.
  abbrev mark : Exec (Syncer W) (Unit {0})
  mark s = (ok tt, record s { started = true })

  stopped : (t : Syncer W) → t.started ≡ true → t.conn ≡ true → (stop client t).0 ≡ ok tt
  unfolding stop stop_as
  stopped t running conn =
      ap (λ b. (stop_as client b t.conn t).0) running ∙ ap (λ c. (stop_as client true c t).0) conn

  module _ (code : Encodings) where
    -- What a Start that follows the master from a set on has done, step by step: the master has
    -- answered that its gtid mode is ON and its binlog format ROW, it has told about itself, and the
    -- replication was started from that set. Stop does not panic.
    pub record Runs (gtids : G) (s t : Syncer W) : Type 0 where
      pub asked : Syncer W
      pub checked : Syncer W
      pub informed : Syncer W
      pub world : W
      pub mode_on : Says gtid_mode on_text s asked
      pub format_row : Says binlog_format row_text asked checked
      pub told : Told client code checked informed
      pub synced : client.start_sync gtids informed.world ≡ (ok tt, world)
      pub left : t ≡ record informed { world = world; started = true }
      pub unsent : checked.data_c ≡ s.data_c
      pub stops : (stop client t).0 ≡ ok tt

    -- A Start of a syncer that is not cancelled has done what Runs says, where it returns without an
    -- error.
    pub start-Runs :
        (gtids : G) (s t : Syncer W)
        → s.cancelled ≡ false
        → start client code gtids s ≡ (ok tt, t)
        → Runs gtids s t
    unfolding start
    start-Runs gtids s t free h =
        let (x, (u, (checked, h1))) =
          first_returned (pre_check client s)
            (λ x. get_master_info client code >>= λ y.
              on_world client (client.start_sync gtids) >>= λ z. mark)
            tt t h in
        let (y, (w, (told, h2))) =
          first_returned (get_master_info client code u)
            (λ y. on_world client (client.start_sync gtids) >>= λ z. mark) tt t h1 in
        let (z, (v, (synced, h3))) =
          first_returned (on_world client (client.start_sync gtids) w) (λ z. mark) tt t h2 in
        let same = pre_check-kept s u checked in
        let (asked, (mode, format)) = pre_check-Says s u checked in
        let tells =
          get_master_info-Told client code u w (ap (λ (x : Bool × List (List ℕ)). x.0) same ∙ free)
            told in
        let last = sym (ap (λ (x : Result (Unit {0}) × Syncer W). x.1) h3) in
        let next = sym (ap (λ (x : Result (Unit {0}) × Syncer W). x.1) synced) in
        let left : t ≡ record w { world = v.world; started = true } =
          last ∙ ap (λ (r : Syncer W). record r { world = v.world; started = true }) next in
        let conn : t.conn ≡ true =
          ap (λ (r : Syncer W). r.conn) left
          ∙ (ap (λ (r : Syncer W). r.conn) tells.queued
              ∙ execute-conn client version tells.second tells.third tells.version_answer
                  tells.version_asked) in
        record {
          asked = asked;
          checked = u;
          informed = w;
          world = v.world;
          mode_on = mode;
          format_row = format;
          told = tells;
          synced = ap (λ (x : Result (Unit {0}) × Syncer W). (x.0, x.1.world)) synced;
          left = left;
          unsent = ap (λ (x : Bool × List (List ℕ)). x.1) same;
          stops = stopped t (ap (λ (r : Syncer W). r.started) left) conn;
        }
