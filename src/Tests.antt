-- ===== src/Tests.antt =====
-- Runs at concrete inputs, and each theorem of the results applied at one.
mod Isc
mod Systems
mod World
mod Saving
mod Wire
mod Players
use os_irose_new.Common.{
  ℕ, ◌+◌, ◌*◌, ◌%◌, ◌^◌, ◌≡◌, refl, arith, List, [], ◌∷◌, get_or, true, false,
}
use os_irose_new.Common.Memory.{Memory, IsBytes, load16, store, load40}
use os_irose_new.Common.{some}
use os_irose_new.Messages.Replies.{SrvSrvSelectReply, pack_srv_srv_select_reply}
use os_irose_new.Node.{NodeClient, handle_server_packet, srv_select_reply}
use os_irose_new.Node.Relay.{handle_server_packet-from_server}
use os_irose_new.Crypt.Codec.{
  Table, encode_server_packet, decode_server_header, decode_server_body, encode_client_packet,
  decode_client_header, decode_client_body,
}
use os_irose_new.Common.Xor.{xor_byte, field}
use os_irose_new.Crypt.Codec.{
  body_key, decode_body, sum_head, head_byte, server_buflen, client_buflen,
}
use os_irose_new.Crypt.Codec.RoundTrip.{decode_server-encode_server, decode_client-encode_client}
use os_irose_new.Crypt.Codec.Tamper.{decode_server_body-rejects, decode_client_body-rejects}
use os_irose_new.Crypt.Codec.Bounds.{
  codec_in_buffer, decode_client_body_in_buffer, decode_client_body_overrun,
}
use os_irose_new.Crypt.Head.{word_head, head_word}
use os_irose_new.Crypt.Crc.{crc, crc_step}
use os_irose_new.Crypt.Crc.Laws.{crc8_bits, crc-eq-crc8_bits}
use os_irose_new.Packet.{Field, num8, num16, text, raw, make_packet, get_packed}
use os_irose_new.Packet.Bytes.{Holds}
use os_irose_new.Packet.Invariant.{encode_all}
use os_irose_new.Packet.Transfer.{Received, get_packed-Carries, receive-get_packed}
use os_irose_new.Packet.Resend.{copies, packed_nth, packed_nth_grows}
use os_irose_new.Crypt.Rng.{RoseRandomNumber, rose_random_number, bc, get}
use os_irose_new.Crypt.Rng.Laws.{IsSeeded, unget_as, unget-get}
use os_irose_new.Common.{◌++◌, some, zero, suc}
use os_irose_new.Messages.Account.{pack_cli_login_req}
use os_irose_new.Messages.Fields.{c_str}
use os_irose_new.Messages.Reply.{Reply, srv_whisper_chat, reply_type, pack_reply}
use os_irose_new.Messages.Talk.{pack_srv_whisper_chat}
use os_irose_new.Messages.Request.{
  Request, cli_login_req, type_of, pack, fetch_packet, fetch_packet-Received,
}
use os_irose_new.Packet.{write_fields}
use os_irose_new.Packet.Invariant.{Contains, make_packet-Contains, write_fields-Contains}
use os_irose_new.Delivery.{
  from_client, from_server, packed, fetch_packet-from_client, receive-from_server,
  reply-from_server,
}

abbrev table : Table
table i j = (37 * i + 4099 * j + 11) % 2 ^ 32

abbrev memory : List ℕ → Memory
memory bs j = get_or bs j 0 % 256

memory-IsBytes : (bs : List ℕ) → IsBytes (memory bs)
memory-IsBytes bs j = omega arith

-- A packet of nine bytes with the command 0x708.
abbrev plain_bytes : List ℕ
plain_bytes = 9 ∷ 0 ∷ 8 ∷ 7 ∷ 0 ∷ 0 ∷ 1 ∷ 250 ∷ 77 ∷ []

abbrev plain : Memory
plain = memory plain_bytes

decode_server-encode_server_example :
    ((decode_server_header table (encode_server_packet table plain)).0 ≡ 9)
    × ((decode_server_body table
          (decode_server_header table (encode_server_packet table plain)).1).0
        ≡ true)
    × ((decode_server_body table
            (decode_server_header table (encode_server_packet table plain)).1).1
          7
        ≡ 250)
decode_server-encode_server_example =
    decode_server-encode_server table plain 7 (memory-IsBytes plain_bytes) (omega arith)
      (omega arith) (omega arith) (omega arith)

decode_client-encode_client_example :
    ((decode_client_header table (encode_client_packet table plain)).0 ≡ 9)
    × ((decode_client_body table
          (decode_client_header table (encode_client_packet table plain)).1).0
        ≡ true)
    × ((decode_client_body table
            (decode_client_header table (encode_client_packet table plain)).1).1
          8
        ≡ 77)
decode_client-encode_client_example =
    decode_client-encode_client table plain 8 (memory-IsBytes plain_bytes) (omega arith)
      (omega arith) (omega arith) (omega arith)

-- The same packet, as each header decoder leaves it.
abbrev opened_server_bytes : List ℕ
opened_server_bytes = 9 ∷ 64 ∷ 56 ∷ 64 ∷ 136 ∷ 160 ∷ 142 ∷ 77 ∷ 146 ∷ []

abbrev opened_server : Memory
opened_server = memory opened_server_bytes

abbrev opened_client_bytes : List ℕ
opened_client_bytes = 9 ∷ 64 ∷ 56 ∷ 64 ∷ 8 ∷ 121 ∷ 142 ∷ 77 ∷ 146 ∷ []

abbrev opened_client : Memory
opened_client = memory opened_client_bytes

-- A header with the length 1 and the EncryptValue 7.
abbrev short : Memory
short = memory (1 ∷ 0 ∷ 0 ∷ 0 ∷ 0xe0 ∷ [])

decode_client_body-rejects_example : (decode_client_body table (store opened_client 7 3)).0 ≡ false
unfolding decode_client_body client_buflen word_head field load40 decode_body crc_step xor_byte
    body_key sum_head head_byte head_word
decode_client_body-rejects_example =
    decode_client_body-rejects table opened_client 7 3 (memory-IsBytes opened_client_bytes)
      (omega arith) (omega arith) (omega arith) (omega arith) refl

codec_in_buffer_example :
    (encode_server_packet table plain 0x7FF ≡ plain 0x7FF)
    × (encode_client_packet table plain 0x7FF ≡ plain 0x7FF)
    × ((decode_server_body table plain).1 0x7FF ≡ plain 0x7FF)
codec_in_buffer_example = codec_in_buffer table plain 0x7FF (omega arith)

decode_client_body_overrun_example :
    (decode_client_body table short).1 60000
    ≡ xor_byte (short 60000) (body_key table (word_head (load40 short)) 60000)
unfolding word_head field load40
decode_client_body_overrun_example =
    decode_client_body_overrun table short 60000 (omega arith) (omega arith) (omega arith)

crc-eq-crc8_bits_example : crc 200 ≡ crc8_bits 8 200
crc-eq-crc8_bits_example = crc-eq-crc8_bits 200 (omega arith)

-- cli_loginreq, say: two texts behind a number.
abbrev fields : List Field
fields = num16 258 ∷ text (65 ∷ 66 ∷ []) ∷ raw (1 ∷ 0 ∷ 3 ∷ []) ∷ num8 7 ∷ []

packed_nth_grows_example :
    (load16 (packed_nth fields 2 (make_packet plain 0x708 0)) 0 ≡ 33)
    × Holds (packed_nth fields 2 (make_packet plain 0x708 0)) 6 (copies 3 (encode_all fields))
packed_nth_grows_example =
    packed_nth_grows 2 plain 0x708 0 fields (omega arith) (omega arith) (omega arith)

abbrev seeded : RoseRandomNumber
seeded = rose_random_number 20160801

-- The password is 32 times the letter p, the user name is "ab".
abbrev letters : ℕ → List ℕ
letters zero = []
letters (suc n) = 112 ∷ letters n

abbrev login : Request
login = cli_login_req (record { password = letters 32; username = 97 ∷ 98 ∷ [] })

abbrev login_fields : List Field
login_fields = raw (letters 32) ∷ text (97 ∷ 98 ∷ []) ∷ []

fetch_packet-from_client_example :
    let got = from_client table (packed plain 0x708 login_fields) in
    (got.0 ≡ 41) × (got.1.0 ≡ true) × (fetch_packet plain got.1.1 ≡ some login)
unfolding type_of pack pack_cli_login_req c_str
fetch_packet-from_client_example =
    fetch_packet-from_client table plain plain login (memory-IsBytes plain_bytes) (ground arith)
      (ground arith) (ground arith) (omega arith)

receive-from_server_example :
    let got = from_server table (packed plain 0x708 fields) in
    (got.0 ≡ 15) × (got.1.0 ≡ true) × Received got.1.1 plain 0x708 15 fields
receive-from_server_example =
    receive-from_server table plain plain 0x708 fields (memory-IsBytes plain_bytes) (omega arith)
      (ground arith) (ground arith) (omega arith)

write_fields-Contains_example :
    Contains (write_fields fields (make_packet plain 0x708 0)) ([] ++ encode_all fields)
write_fields-Contains_example =
    write_fields-Contains (make_packet plain 0x708 0) [] fields
      (make_packet-Contains plain 0x708 0 (omega arith) (omega arith)) (omega arith)

abbrev chosen : SrvSrvSelectReply
chosen = record { result = 0; session_id = 7; crypt_val = 5; ip = 49 ∷ 48 ∷ []; port = 29100 }

handle_server_packet-from_server_example :
    handle_server_packet
      (50 ∷ [])
      29000
      plain
      (from_server table (packed plain 0x70a (pack_srv_srv_select_reply chosen))).1.1
      (record { to_client = []; to_server = [] })
    ≡ some (
      true,
      record {
        to_client = srv_select_reply (record chosen { ip = 50 ∷ []; port = 29000 }) ∷ [];
        to_server = [];
      },
    )
unfolding pack_srv_srv_select_reply
handle_server_packet-from_server_example =
    handle_server_packet-from_server table plain plain (50 ∷ []) 29000 chosen
      (record { to_client = []; to_server = [] }) (memory-IsBytes plain_bytes) (ground arith)
      (ground arith) (omega arith)
