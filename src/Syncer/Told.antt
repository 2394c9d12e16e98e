-- ===== src/Syncer/Told.antt =====
-- GetMasterInfo: the queries, and what it sends to the channel of data.
use kingbus.Common.{
  ℕ, ◌%◌, ◌^◌, ◌≡◌, refl, sym, ap, ◌∙◌, Bool, true, false, List, [], ◌∷◌, ◌++◌, if◌then◌else◌,
  Result, ok,
}
use kingbus.Exec.{Exec, ◌>>=◌, lift, bind_returned, first_returned}
use kingbus.Apply.Entries.{master_info_type}
use kingbus.Syncer.{
  Client, MasterInfo, Encodings, Syncer, Query, global_server_id, global_server_uuid, version,
  send_data, execute, get_master_info,
}
use kingbus.Syncer.Ask.{kept, execute-Leaves}

module _ {W A G : Type 0} (client : Client W A G) where
  pub execute-kept :
      (q : Query) (s t : Syncer W) (a : A)
      → execute client q s ≡ (ok a, t)
      → kept client t ≡ kept client s
  execute-kept q s t a h =
      ap (λ (x : Result A × Syncer W). kept client x.1) (sym h) ∙ execute-Leaves client q s

  sends : (c : Bool) (s r : Syncer W) → c ≡ false → (if c then s else r) ≡ r
  sends true s r h = cc
  sends false s r h = refl

  -- A send where the syncer is not cancelled.
  pub sent :
      (v : List ℕ) (s t : Syncer W)
      → s.cancelled ≡ false
      → send_data v s ≡ (ok tt, t)
      → t ≡ record s { data_c = s.data_c ++ v ∷ [] }
  unfolding send_data
  sent v s t h e =
      ap (λ (x : Result (Unit {0}) × Syncer W). x.1) (sym e)
      ∙ sends s.cancelled s (record s { data_c = s.data_c ++ v ∷ [] }) h

  module _ (code : Encodings) where
    -- The master was asked for its id, its uuid and its version, one after the other; what it
    -- answered is encoded and sent to the channel of data, and nothing else has changed since.
    pub record Told (s t : Syncer W) : Type 0 where
      pub id_answer : A
      pub uuid_answer : A
      pub version_answer : A
      pub id : ℕ
      pub uuid : List ℕ
      pub text : List ℕ
      pub info : List ℕ
      pub first : Syncer W
      pub second : Syncer W
      pub third : Syncer W
      pub id_asked : execute client global_server_id s ≡ (ok id_answer, first)
      pub id_read : client.get_int id_answer ≡ ok id
      pub uuid_asked : execute client global_server_uuid first ≡ (ok uuid_answer, second)
      pub uuid_read : client.get_string uuid_answer ≡ ok uuid
      pub version_asked : execute client version second ≡ (ok version_answer, third)
      pub version_read : client.get_string version_answer ≡ ok text
      pub encoded :
          code.encode_info
            (record { server_id = id % 2 ^ 32; server_uuid = uuid; master_version = text })
          ≡ ok info
      pub queued : t ≡ record third { data_c = s.data_c ++ (master_info_type ∷ info) ∷ [] }

    -- The end of GetMasterInfo, when the three answers are read.
    abbrev tell : ℕ → List ℕ → List ℕ → Exec (Syncer W) (Unit {0})
    tell id uuid v =
        lift (
          code.encode_info
            (record { server_id = id % 2 ^ 32; server_uuid = uuid; master_version = v }))
        >>= λ info. send_data (master_info_type ∷ info)

    -- A tell where the channel is as it was.
    told :
        (id : ℕ) (uuid v : List ℕ) (s r t : Syncer W)
        → s.cancelled ≡ false
        → kept client r ≡ kept client s
        → tell id uuid v r ≡ (ok tt, t)
        → (info : List ℕ) × ((code.encode_info
                (record { server_id = id % 2 ^ 32; server_uuid = uuid; master_version = v })
              ≡ ok info)
            × (t ≡ record r { data_c = s.data_c ++ (master_info_type ∷ info) ∷ [] }))
    told id uuid v s r t free same h =
        let m : MasterInfo = record {
          server_id = id % 2 ^ 32;
          server_uuid = uuid;
          master_version = v;
        } in
        let (info, (encoded, put)) =
          bind_returned (code.encode_info m) r (λ info. send_data (master_info_type ∷ info)) tt t
            h in
        let done =
          sent (master_info_type ∷ info) r t (ap (λ (x : Bool × List (List ℕ)). x.0) same ∙ free)
            put in
        (
          info,
          (
            encoded,
            done
                ∙ ap
                    (λ (x : Bool × List (List ℕ)). record r {
                      data_c = x.1 ++ (master_info_type ∷ info) ∷ [];
                    })
                    same,
          ),
        )

    -- The three queries leave the channel.
    asked-kept :
        (s u w x : Syncer W) (a b c : A)
        → execute client global_server_id s ≡ (ok a, u)
        → execute client global_server_uuid u ≡ (ok b, w)
        → execute client version w ≡ (ok c, x)
        → kept client x ≡ kept client s
    asked-kept s u w x a b c e1 e2 e3 =
        execute-kept version w x c e3
        ∙ (execute-kept global_server_uuid u w b e2 ∙ execute-kept global_server_id s u a e1)

    pub get_master_info-Told :
        (s t : Syncer W)
        → s.cancelled ≡ false
        → get_master_info client code s ≡ (ok tt, t)
        → Told s t
    unfolding get_master_info
    get_master_info-Told s t free h =
        let then_version =
          λ (id : ℕ) (uuid : List ℕ) (c : A). lift (client.get_string c) >>= λ v. tell id uuid v in
        let then_uuid = λ (id : ℕ) (b : A).
          lift (client.get_string b) >>= λ uuid. execute client version >>= then_version id uuid in
        let then_id = λ (a : A).
          lift (client.get_int a) >>= λ id. execute client global_server_uuid >>= then_uuid id in
        let (a, (u, (e1, h1))) =
          first_returned (execute client global_server_id s) then_id tt t h in
        let (id, (r1, h2)) =
          bind_returned (client.get_int a) u
            (λ id. execute client global_server_uuid >>= then_uuid id) tt t h1 in
        let (b, (w, (e2, h3))) =
          first_returned (execute client global_server_uuid u) (then_uuid id) tt t h2 in
        let (uuid, (r2, h4)) =
          bind_returned (client.get_string b) w
            (λ uuid. execute client version >>= then_version id uuid) tt t h3 in
        let (c, (x, (e3, h5))) =
          first_returned (execute client version w) (then_version id uuid) tt t h4 in
        let (v, (r3, h6)) = bind_returned (client.get_string c) x (λ v. tell id uuid v) tt t h5 in
        let (info, (encoded, queued)) =
          told id uuid v s x t free (asked-kept s u w x a b c e1 e2 e3) h6 in
        record {
          id_answer = a;
          uuid_answer = b;
          version_answer = c;
          id = id;
          uuid = uuid;
          text = v;
          info = info;
          first = u;
          second = w;
          third = x;
          id_asked = e1;
          id_read = r1;
          uuid_asked = e2;
          uuid_read = r2;
          version_asked = e3;
          version_read = r3;
          encoded = encoded;
          queued = queued;
        }
