-- ===== src/Raft/Messages.antt =====
-- processMessages: which of the messages keep their receiver.
use kingbus.Common.{ℕ, ◌≡◌, refl, Bool, false, ◌||◌, ◌&&◌, List, [], ◌∷◌, arith, if◌then◌else◌}
use kingbus.Raft.{Message, is_app_resp, is_snap, dropped, process_message, process_messages}

-- A response to an append stands among the messages.
has_app_resp : List Message → Bool
has_app_resp [] = false
has_app_resp (m ∷ ms) = is_app_resp m.kind || has_app_resp ms

-- The messages that go out, read from the front: one keeps its receiver unless this is removed, or
-- it is a snapshot, or a response to an append with another such response behind it.
pub outgoing : (ℕ → Bool) → List Message → List Message
unfolding has_app_resp
outgoing is_id_removed [] = []
outgoing is_id_removed (m ∷ ms) =
    (if is_id_removed m.to || (is_snap m.kind || (is_app_resp m.kind && has_app_resp ms))
      then dropped m
      else m)
    ∷ outgoing is_id_removed ms

process-has :
    (f : ℕ → Bool) (ms c : List Message) → (process_messages f ms c).sent_app_resp ≡ has_app_resp ms
unfolding process_messages process_message has_app_resp
process-has f [] c = refl
process-has f (m ∷ ms) c = ground (arith, process-has f ms c)

kept :
    (m : Message) (removed sent : Bool)
    → (if is_snap m.kind
        then dropped (
            if is_app_resp m.kind && sent
            then dropped (if removed then dropped m else m)
            else (if removed then dropped m else m))
        else (if is_app_resp m.kind && sent
            then dropped (if removed then dropped m else m)
            else (if removed then dropped m else m)))
      ≡ (if removed || (is_snap m.kind || (is_app_resp m.kind && sent)) then dropped m else m)
kept m removed sent = ground arith

-- The messages that processMessages hands to the transport are those of `outgoing`, whichever ids
-- are removed and however full the channel of snapshot messages is.
pub process_messages_lem :
    (f : ℕ → Bool) (ms c : List Message) → (process_messages f ms c).messages ≡ outgoing f ms
unfolding process_messages process_message outgoing
process_messages_lem f [] c = refl
process_messages_lem f (m ∷ ms) c =
    rw (process_messages_lem f ms c, process-has f ms c, kept m (f m.to) (has_app_resp ms)) refl
