-- ===== src/Command/Write.antt =====
-- The writers of sofabolt/command.go. A buffer from the allocator is a list with its old contents;
-- every field is written at its offset. The writes at fixed offsets do not panic, since the buffer
-- has at least the length of the fixed part.
pub mod Layout
use sofa_bolt_go.Base.{
  ℕ, ◌+◌, ◌-◌, ◌||◌, Option, none, some, [], ◌++◌, Bytes, codes, be8, be16, be32, ltb, ◌==◌,
  if◌then◌else◌, length, take, drop, overwrite,
}
use sofa_bolt_go.Buffer.{Buffer}
use sofa_bolt_go.SimpleMap.{FastSimpleMap, get_encode_size, encode}
use sofa_bolt_go.Checksum.{checksum}
use sofa_bolt_go.ReadHelper.{ReadHelper}
use sofa_bolt_go.Command.{
  Command, proto_bolt_v1, proto_bolt_v2, proto_tb_remoting, type_bolt_response, is_bolt_request,
}

-- The results of the writers: the buffer, ErrMalformedProto or ErrMalformedType; or a panic.
pub data Written : Type 0 where
  written : Bytes → Written
  malformed_proto malformed_type panicked : Written

-- `b[i] = byte(v)`, PutUint16(b[i:], uint16(v)) and PutUint32(b[i:], uint32(v)).
abbrev pub put_uint8 : ℕ → ℕ → Bytes → Bytes
put_uint8 i v b = overwrite b i (be8 v)

abbrev pub put_uint16 : ℕ → ℕ → Bytes → Bytes
put_uint16 i v b = overwrite b i (be16 v)

abbrev pub put_uint32 : ℕ → ℕ → Bytes → Bytes
put_uint32 i v b = overwrite b i (be32 v)

encoded : Bytes → ℕ → Option (ℕ × Buffer) → Option Bytes
encoded b off none = none
encoded b off (some (n, r)) = some (take off b ++ r.bytes)

-- `cmd.headers.Encode(b[off:])`, on a slice that ends with its backing array.
unfoldable pub encode_headers : FastSimpleMap → ℕ → Bytes → Option Bytes
unfolding encoded
encode_headers m off b = encoded b off (encode m (drop off b) [])

-- `copy(b[off:], cmd.content)`, unless encoding panicked.
unfoldable pub put_content : ℕ → Bytes → Option Bytes → Option Bytes
put_content off content none = none
put_content off content (some b) = some (overwrite b off content)

-- The class, the headers and the content behind the fixed part of `fixed` bytes.
unfoldable pub put_body : ℕ → Command → Bytes → Option Bytes
put_body fixed cmd b =
    let class_len = length cmd.class in
    let header_len = get_encode_size cmd.headers in
    let b = overwrite b fixed cmd.class in
    let encoded_b = encode_headers cmd.headers (fixed + class_len) b in
    put_content (fixed + class_len + header_len) cmd.content encoded_b

-- `if cmd.switc > 0`: four bytes are appended, and the checksum is written over them.
unfoldable pub append_crc : Command → Bytes → Bytes
append_crc cmd b =
    let c32 = checksum b in
    let b' = b ++ codes "0123" in if ltb 0 cmd.switc then put_uint32 (length b' - 4) c32 b' else b

unfoldable pub finish : Option Bytes → Written
finish none = panicked
finish (some b) = written b

unfoldable pub finish_crc : Command → Option Bytes → Written
finish_crc cmd none = panicked
finish_crc cmd (some b) = written (append_crc cmd b)

module _ (rh : ReadHelper) where
  unfoldable pub write_command_tb_remoting : Bytes → Command → Written
  write_command_tb_remoting b cmd =
      let conn_len = length cmd.connection in
      let class_len = length cmd.class in
      let content_len = length cmd.content in
      let b = rh.alloc_to_at_least b (14 + conn_len + class_len + content_len) in
      let b = put_uint8 0 cmd.proto b in
      let b = put_uint8 1 cmd.cmdcode b in
      let b = put_uint8 2 cmd.codec b in
      let b = put_uint8 3 cmd.typ b in
      let b = put_uint8 4 0 b in
      let b = put_uint32 5 conn_len b in
      let b = put_uint8 9 class_len b in
      let b = put_uint32 10 content_len b in
      let b = overwrite b 14 cmd.connection in
      let b = overwrite b (14 + conn_len) cmd.class in
      written (overwrite b (14 + conn_len + class_len) cmd.content)

  unfoldable pub write_response_command_bolt_v2 : Bytes → Command → Written
  write_response_command_bolt_v2 b cmd =
      let class_len = length cmd.class in
      let header_len = get_encode_size cmd.headers in
      let content_len = length cmd.content in
      let b = rh.alloc_to_at_least b (22 + class_len + header_len + content_len) in
      let b = put_uint8 0 cmd.proto b in
      let b = put_uint8 1 cmd.ver1 b in
      let b = put_uint8 2 cmd.typ b in
      let b = put_uint16 3 cmd.cmdcode b in
      let b = put_uint8 5 cmd.ver2 b in
      let b = put_uint32 6 cmd.rid b in
      let b = put_uint8 10 cmd.codec b in
      let b = put_uint8 11 cmd.switc b in
      let b = put_uint16 12 cmd.status b in
      let b = put_uint16 14 class_len b in
      let b = put_uint16 16 header_len b in
      let b = put_uint32 18 content_len b in finish_crc cmd (put_body 22 cmd b)

  unfoldable pub write_request_command_bolt_v2 : Bytes → Command → Written
  write_request_command_bolt_v2 b cmd =
      let class_len = length cmd.class in
      let header_len = get_encode_size cmd.headers in
      let content_len = length cmd.content in
      let b = rh.alloc_to_at_least b (24 + class_len + header_len + content_len) in
      let b = put_uint8 0 cmd.proto b in
      let b = put_uint8 1 cmd.ver1 b in
      let b = put_uint8 2 cmd.typ b in
      let b = put_uint16 3 cmd.cmdcode b in
      let b = put_uint8 5 cmd.ver2 b in
      let b = put_uint32 6 cmd.rid b in
      let b = put_uint8 10 cmd.codec b in
      let b = put_uint8 11 cmd.switc b in
      let b = put_uint32 12 cmd.timeout b in
      let b = put_uint16 16 class_len b in
      let b = put_uint16 18 header_len b in
      let b = put_uint32 20 content_len b in finish_crc cmd (put_body 24 cmd b)

  unfoldable pub write_command_bolt_v2 : Bytes → Command → Written
  write_command_bolt_v2 b cmd =
      if is_bolt_request cmd.typ
      then write_request_command_bolt_v2 b cmd
      else if cmd.typ == type_bolt_response
      then write_response_command_bolt_v2 b cmd
      else malformed_type

  unfoldable pub write_response_command_bolt_v1 : Bytes → Command → Written
  write_response_command_bolt_v1 b cmd =
      let class_len = length cmd.class in
      let header_len = get_encode_size cmd.headers in
      let content_len = length cmd.content in
      let b = rh.alloc_to_at_least b (20 + class_len + header_len + content_len) in
      let b = put_uint8 0 cmd.proto b in
      let b = put_uint8 1 cmd.typ b in
      let b = put_uint16 2 cmd.cmdcode b in
      let b = put_uint8 4 cmd.ver2 b in
      let b = put_uint32 5 cmd.rid b in
      let b = put_uint8 9 cmd.codec b in
      let b = put_uint16 10 cmd.status b in
      let b = put_uint16 12 class_len b in
      let b = put_uint16 14 header_len b in
      let b = put_uint32 16 content_len b in finish (put_body 20 cmd b)

  unfoldable pub write_request_command_bolt_v1 : Bytes → Command → Written
  write_request_command_bolt_v1 b cmd =
      let class_len = length cmd.class in
      let header_len = get_encode_size cmd.headers in
      let content_len = length cmd.content in
      let b = rh.alloc_to_at_least b (22 + class_len + header_len + content_len) in
      let b = put_uint8 0 cmd.proto b in
      let b = put_uint8 1 cmd.typ b in
      let b = put_uint16 2 cmd.cmdcode b in
      let b = put_uint8 4 cmd.ver2 b in
      let b = put_uint32 5 cmd.rid b in
      let b = put_uint8 9 cmd.codec b in
      let b = put_uint32 10 cmd.timeout b in
      let b = put_uint16 14 class_len b in
      let b = put_uint16 16 header_len b in
      let b = put_uint32 18 content_len b in finish (put_body 22 cmd b)

  unfoldable pub write_command_bolt_v1 : Bytes → Command → Written
  write_command_bolt_v1 b cmd =
      if is_bolt_request cmd.typ
      then write_request_command_bolt_v1 b cmd
      else if cmd.typ == type_bolt_response
      then write_response_command_bolt_v1 b cmd
      else malformed_type

  unfoldable pub write_command : Bytes → Command → Written
  write_command b cmd =
      if cmd.proto == 0 || cmd.proto == proto_bolt_v1
      then write_command_bolt_v1 b cmd
      else if cmd.proto == proto_bolt_v2
      then write_command_bolt_v2 b cmd
      else if cmd.proto == proto_tb_remoting
      then write_command_tb_remoting b cmd
      else malformed_proto
