-- ===== src/Artificial.antt =====
-- mysql/command.go: the events that a slave gets and no master wrote, and the packet of its request.
-- crc32 and the decoder of gtid sets are parameters.
pub mod Sizes
mod Tests
use kingbus.Common.{
  ℕ, ◌+◌, ◌-◌, ◌/◌, ◌%◌, ◌^◌, Bool, true, false, Option, List, [], ◌∷◌, ◌++◌, length, take, drop,
  slice, slice_from, copy_at, ltb, if◌then◌else◌, Result, ok, err, panic, ◌>>=◌,
}
use kingbus.Storage.Bytes.{le32, of_le32, le64}
use kingbus.Progress.{event_header_size, binlog_checksum_length, without_checksum, or_decode_error}

-- replication.EventHeader, as far as it is written; the type is its number.
pub record RawHeader : Type 0 where
  pub timestamp : ℕ  -- uint32
  pub kind : ℕ
  pub server_id : ℕ  -- uint32
  pub event_size : ℕ  -- uint32
  pub log_pos : ℕ  -- uint32
  pub flags : ℕ  -- uint16

-- LOG_ARTIFICIAL_F
abbrev pub artificial : ℕ
artificial = 0x20

unfoldable pub le16 : ℕ → List ℕ
le16 n = n % 256 ∷ n / 256 % 256 ∷ []

unfoldable pub encode_event_header : RawHeader → List ℕ
unfolding le32 le16
encode_event_header h =
    le32 h.timestamp
    ++ (h.kind % 256
        ∷ (le32 h.server_id ++ (le32 h.event_size ++ (le32 h.log_pos ++ le16 h.flags))))

module _ (checksum : List ℕ → ℕ) where
  unfoldable pub with_checksum : List ℕ → List ℕ
  unfolding le32
  with_checksum v = v ++ le32 (checksum v)

  unfoldable pub build_heartbeat_event : List ℕ → ℕ → ℕ → List ℕ
  unfolding encode_event_header with_checksum
  build_heartbeat_event file_name server_id log_pos = with_checksum (
      encode_event_header (record {
        timestamp = 0;
        kind = 27;
        server_id = server_id;
        event_size = (event_header_size + length file_name + binlog_checksum_length) % 2 ^ 32;
        log_pos = log_pos;
        flags = artificial;
      })
      ++ file_name)

  -- The position in the new file is 4, as a uint64.
  unfoldable pub build_fake_rotate_event : ℕ → List ℕ → Bool → List ℕ
  unfolding encode_event_header with_checksum le64
  build_fake_rotate_event server_id file_name need_crc32 =
      let event =
        encode_event_header (record {
          timestamp = 0;
          kind = 4;
          server_id = server_id;
          event_size =
              (event_header_size + (8 + length file_name) + binlog_checksum_length) % 2 ^ 32;
          log_pos = 0;
          flags = artificial;
        })
        ++ (le64 4 ++ file_name) in
      if need_crc32 then with_checksum event else event

  -- What sendFormatDescriptionEvent sends: the position is 0, and the checksum is made anew.
  unfoldable pub format_description_data : List ℕ → Result (List ℕ)
  unfolding without_checksum with_checksum le32
  format_description_data v =
      copy_at v 13 (le32 0) >>= λ w. without_checksum w >>= λ body. ok (with_checksum body)

-- The gtid set and the server id of a COM_BINLOG_DUMP_GTID packet; the name of the file, its
-- position and the length of the set are passed over. `pos` is a uint32.
unfoldable pub parse_mysql_gtid_dump_packet :
    {G : Type 0} → (List ℕ → Option G) → List ℕ → Result (G × ℕ)
unfolding of_le32
parse_mysql_gtid_dump_packet decode v = slice v 0 2 >>= λ flags. slice v 2 6 >>= λ server.
    slice v 6 10 >>= λ size. slice v 10 ((10 + of_le32 size) % 2 ^ 32) >>= λ name.
    let pos = (10 + of_le32 size) % 2 ^ 32 in
    slice v pos (pos + 8) >>= λ file_pos. slice v (pos + 8) (pos + 12) >>= λ data_size.
    slice_from v (pos + 12) >>= λ gtids.
    or_decode_error (decode gtids) >>= λ x. ok (x, of_le32 server)
