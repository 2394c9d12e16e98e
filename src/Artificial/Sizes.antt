-- ===== src/Artificial/Sizes.antt =====
-- The size in the header of an artificial event, against the bytes that are sent.
use kingbus.Common.{
  ℕ, ◌+◌, ◌%◌, ◌^◌, ◌<◌, ◌≡◌, refl, ap, ◌∙◌, Bool, true, false, List, ◌++◌, length, length-append,
  append_assoc, take, drop, arith, if◌then◌else◌,
}
use kingbus.Storage.Bytes.{le32, of_le32, le64, length-le32, of_le32-le32}
use kingbus.Progress.{event_header_size, binlog_checksum_length}
use kingbus.Artificial.{
  RawHeader, encode_event_header, with_checksum, build_heartbeat_event, build_fake_rotate_event,
  le16,
}

-- The field EventSize of the header in front.
abbrev pub announced_size : List ℕ → ℕ
announced_size v = of_le32 (take 4 (drop 9 v))

size_of-encode :
    (h : RawHeader) (rest : List ℕ)
    → h.event_size < 2 ^ 32
    → announced_size (encode_event_header h ++ rest) ≡ h.event_size
unfolding encode_event_header le32
size_of-encode h rest bound = of_le32-le32 h.event_size bound

length-behind :
    (file_name crc : List ℕ) → length crc ≡ 4 → length (file_name ++ crc) ≡ length file_name + 4
length-behind file_name crc h = length-append file_name crc ∙ ap (λ n. length file_name + n) h

-- The header of such an event, with the length behind it.
abbrev header : ℕ → ℕ → ℕ → ℕ → RawHeader
header kind server_id log_pos len = record {
  timestamp = 0;
  kind = kind;
  server_id = server_id;
  event_size = (event_header_size + len + binlog_checksum_length) % 2 ^ 32;
  log_pos = log_pos;
  flags = 0x20;
}

length-encode : (h : RawHeader) → length (encode_event_header h) ≡ 19
unfolding encode_event_header le32 le16
length-encode h = refl

length-le64 : length (le64 4) ≡ 8
unfolding le64
length-le64 = refl

module _ (checksum : List ℕ → ℕ) where
  pub build_heartbeat_event-size :
      (file_name : List ℕ) (server_id log_pos : ℕ)
      → length file_name + 23 < 2 ^ 32
      → announced_size (build_heartbeat_event checksum file_name server_id log_pos)
        ≡ length (build_heartbeat_event checksum file_name server_id log_pos)
  unfolding build_heartbeat_event with_checksum
  build_heartbeat_event-size file_name server_id log_pos bound =
      let h = header 27 server_id log_pos (length file_name) in
      let event = encode_event_header h ++ file_name in
      let crc = le32 (checksum event) in
      ap announced_size (append_assoc (encode_event_header h) file_name crc)
      ∙ (size_of-encode h (file_name ++ crc) (omega arith)
          ∙ omega (
            arith,
            bound,
            length-append event crc,
            length-append (encode_event_header h) file_name,
            length-encode h,
            length-le32 (checksum event),
          ))

  pub build_fake_rotate_event-size :
      (server_id : ℕ) (file_name : List ℕ) (need_crc32 : Bool)
      → length file_name + 31 < 2 ^ 32
      → announced_size (build_fake_rotate_event checksum server_id file_name need_crc32)
        ≡ length (build_fake_rotate_event checksum server_id file_name need_crc32)
          + (if need_crc32 then 0 else 4)
  unfolding build_fake_rotate_event with_checksum
  build_fake_rotate_event-size server_id file_name true bound =
      let h = header 4 server_id 0 (8 + length file_name) in
      let body = le64 4 ++ file_name in
      let event = encode_event_header h ++ body in
      let crc = le32 (checksum event) in
      ap announced_size (append_assoc (encode_event_header h) body crc)
      ∙ (size_of-encode h (body ++ crc) (omega arith)
          ∙ omega (
            arith,
            bound,
            length-append event crc,
            length-append (encode_event_header h) body,
            length-append (le64 4) file_name,
            length-le64,
            length-encode h,
            length-le32 (checksum event),
          ))
  build_fake_rotate_event-size server_id file_name false bound =
      let h = header 4 server_id 0 (8 + length file_name) in
      let body = le64 4 ++ file_name in
      size_of-encode h body (omega arith)
      ∙ omega (
        arith,
        bound,
        length-append (encode_event_header h) body,
        length-append (le64 4) file_name,
        length-le64,
        length-encode h,
      )
