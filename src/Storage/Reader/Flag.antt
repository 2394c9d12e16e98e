-- ===== src/Storage/Reader/Flag.antt =====
-- The flag over the life of the storage.
use mathlib.Core.Path.{subst}
use kingbus.Common.{
  ◌≡◌, refl, sym, ap, ◌∙◌, Bool, true, false, not, ◌&&◌, some, if◌then◌else◌, Option-cases, inl,
  inr, Result, ok, panic,
}
use kingbus.Exec.{◌>>◌, pure, first_returned}
use kingbus.Store.{Store, IsStore, need_recover}
use kingbus.Storage.Reader.{
  true_text, false_text, flag_of, get_recover, set_recover, start_flag, close_flag,
}

ok-injective : (a b : Bool) → ◌≡◌ {A = Result Bool} (ok a) (ok b) → a ≡ b
ok-injective a b h = cc

module _ {S : Type 0} (st : Store S) (laws : IsStore st) where
  recovered :
      (flag : Bool) (t : S)
      → st.get t need_recover ≡ ok (some (if flag then true_text else false_text))
      → get_recover st t ≡ ok flag
  unfolding get_recover flag_of
  recovered true t h = ap flag_of h
  recovered false t h = ap flag_of h

  -- A flag that was set is read back.
  set_recover-read :
      (flag : Bool) (s t : S) → set_recover st flag s ≡ (ok tt, t) → get_recover st t ≡ ok flag
  unfolding set_recover
  set_recover-read flag s t h =
      elim (Option-cases (st.set need_recover (if flag then true_text else false_text) s)) [
        | inl failed ↦
            let runs : set_recover st flag s ≡ (panic, s) = rw (failed, set_recover) refl in cc
        | inr (u, set) ↦
            let runs : set_recover st flag s ≡ (ok tt, u) = rw (set, set_recover) refl in
            let same : u ≡ t = ap (λ (x : Result (Unit {0}) × S). x.1) (sym runs ∙ h) in
            recovered flag t (
              subst
                (λ w. st.get w need_recover ≡ ok (some (if flag then true_text else false_text)))
                same (laws.get-set need_recover (if flag then true_text else false_text) s u set))
      ]

  -- What a start returns is the flag that it found, and it sets the flag.
  start_flag-found :
      (exist_log : Bool) (s t : S) (recover : Bool)
      → start_flag st exist_log s ≡ (ok recover, t)
      → ((if exist_log then get_recover st s else ok false) ≡ ok recover)
        × (get_recover st t ≡ ok true)
  unfolding start_flag
  start_flag-found exist_log s t recover h =
      let (a, (u, (read, rest))) =
        first_returned (if exist_log then get_recover st s else ok false, s)
          (λ r. set_recover st true >> pure r) recover t h in
      let (_, (w, (set, done))) =
        first_returned (set_recover st true u) (λ _. pure a) recover t rest in
      let found : ok a ≡ ok recover = ap (λ (x : Result Bool × S). x.0) done in
      (
        ap (λ (x : Result Bool × S). x.0) read ∙ found,
        subst (λ x. get_recover st x ≡ ok true) (ap (λ (x : Result Bool × S). x.1) done)
            (set_recover-read true u w set),
      )

  -- The flag in between is as it was left.
  abbrev pub Same : S → S → Type 0
  Same s t = st.get t need_recover ≡ st.get s need_recover

  Same-read :
      (s t : S) (flag : Bool) → Same s t → get_recover st s ≡ ok flag → get_recover st t ≡ ok flag
  unfolding get_recover
  Same-read s t flag e h = ap flag_of e ∙ h

  -- The flag as the next start finds it.
  start_flag-after :
      (flag exist_log : Bool) (u w x : S) (recover : Bool)
      → get_recover st u ≡ ok flag
      → Same u w
      → start_flag st exist_log w ≡ (ok recover, x)
      → recover ≡ (exist_log && flag)
  start_flag-after flag true u w x recover left same k =
      ok-injective recover flag
        (sym (start_flag-found true w x recover k).0 ∙ Same-read u w flag same left)
  start_flag-after flag false u w x recover left same k =
      ok-injective recover false (sym (start_flag-found false w x recover k).0)

  -- A start, with a log or without one, its end with a Close or without one, and the next start: the
  -- next one recovers exactly where it finds a log and there was no Close. The calls on the store
  -- succeed, and nothing else touches the flag in between.
  pub start_flag-tells :
      (had_log has_log closed : Bool) (s t u w x : S) (before recover : Bool)
      → start_flag st had_log s ≡ (ok before, t)
      → (if closed then close_flag st t else (ok tt, t)) ≡ (ok tt, u)
      → Same u w
      → start_flag st has_log w ≡ (ok recover, x)
      → recover ≡ (has_log && not closed)
  unfolding close_flag
  start_flag-tells had_log has_log true s t u w x before recover h end same k =
      start_flag-after false has_log u w x recover (set_recover-read false t u end) same k
  start_flag-tells had_log has_log false s t u w x before recover h end same k =
      start_flag-after true has_log t w x recover (start_flag-found had_log s t before h).1
        (same ∙ ap (λ (y : Result (Unit {0}) × S). st.get y.1 need_recover) (sym end)) k
