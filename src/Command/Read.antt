-- ===== src/Command/Read.antt =====
-- The readers of sofabolt/command.go: a command that is filled in, and the reader. The 32-byte
-- scratch array from the pool is an argument, with whatever an earlier call left in it.
pub mod Monad
pub mod Steps
use sofa_bolt_go.Base.{
  ℕ, ◌+◌, ◌%◌, ◌||◌, Option, none, some, [], ◌∷◌, Bytes, uint16_at, uint32_at, get_or, ltb, ◌==◌,
  if◌then◌else◌, take,
}
use sofa_bolt_go.SimpleMap.{FastSimpleMap, DecodeError, decode}
use sofa_bolt_go.ReadHelper.{ReadHelper}
use sofa_bolt_go.Command.{
  Command, proto_bolt_v1, proto_bolt_v2, proto_tb_remoting, type_bolt_response, is_bolt_request,
}
use sofa_bolt_go.Command.Read.Monad.{
  Failure, io, bad_headers, malformed_proto, malformed_type, panicked, Result, ok, err, ReadState,
  M, ◌>>=◌, ◌>>◌, pure, fail, get_cmd, modify,
}

-- The result of a step: the error of the reader, if any, after the state was changed.
unfoldable pub or_io {ℓ} : {E A : Type 0} {S : Type ℓ} → Option E → A → S → Result E A × S
or_io none a s = (ok a, s)
or_io (some e) a s = (err (io e), s)

module _ (rh : ReadHelper) where
  abbrev pub Reads : Type 0 → Type 0
  Reads A = M rh.IoError rh.Reader A

  -- `ReadUint8WithBytes`.
  unfoldable pub read_uint8 : Reads ℕ
  read_uint8 s = let (u8, e, r) = rh.read_uint8 s.br in or_io e u8 (record s { br = r })

  -- `ReadToBytes(br, n, (*b32)[:])`: the array afterwards.
  unfoldable pub read_block : ℕ → Bytes → Reads Bytes
  read_block n b32 s =
      let (e, b, r) = rh.read_to_bytes s.br n b32 in or_io e b (record s { br = r })

  -- `cmd.class = AllocToAtLeast(old, n)`, and `ReadToBytes` into it; so for the other slices.
  unfoldable pub read_class : Bytes → ℕ → Reads (Unit {0})
  read_class old n s =
      let (e, b, r) = rh.read_to_bytes s.br n (rh.alloc_to_at_least old n) in
      or_io e tt (record s { cmd = record (s.cmd) { class = b }; br = r })

  unfoldable pub read_header : Bytes → ℕ → Reads (Unit {0})
  read_header old n s =
      let (e, b, r) = rh.read_to_bytes s.br n (rh.alloc_to_at_least old n) in
      or_io e tt (record s { cmd = record (s.cmd) { header = b }; br = r })

  unfoldable pub read_content : Bytes → ℕ → Reads (Unit {0})
  read_content old n s =
      let (e, b, r) = rh.read_to_bytes s.br n (rh.alloc_to_at_least old n) in
      or_io e tt (record s { cmd = record (s.cmd) { content = b }; br = r })

  unfoldable pub read_connection : Bytes → ℕ → Reads (Unit {0})
  read_connection old n s =
      let (e, b, r) = rh.read_to_bytes s.br n (rh.alloc_to_at_least old n) in
      or_io e tt (record s { cmd = record (s.cmd) { connection = b }; br = r })

  unfoldable pub headers_decoded :
      ReadState rh.Reader
      → Option (Option DecodeError × FastSimpleMap)
      → Result rh.IoError (Unit {0}) × ReadState rh.Reader
  headers_decoded s none = (err panicked, s)
  headers_decoded s (some (none, m)) = (ok tt, record s { cmd = record (s.cmd) { headers = m } })
  headers_decoded s (some (some e, m)) =
      (err (bad_headers e), record s { cmd = record (s.cmd) { headers = m } })

  -- `cmd.headers.Decode(cmd.header)`, into the map as it is.
  unfoldable pub decode_headers : Reads (Unit {0})
  decode_headers s = headers_decoded s (decode s.cmd.headers s.cmd.header [])

  -- `if cmd.switc > 0`: the checksum is read, and compared with nothing.
  unfoldable pub read_crc : Reads (Unit {0})
  read_crc s =
      let (v, e, r) = rh.read_big_endian_uint32 s.br in
      if ltb 0 s.cmd.switc
      then or_io e tt (record s { cmd = record (s.cmd) { crc32 = v }; br = r })
      else (ok tt, s)

  -- The class, the headers and the content: `old` is what `AllocToAtLeast` is given of a slice.
  unfoldable pub read_body : (Bytes → Bytes) → ℕ → ℕ → ℕ → Reads (Unit {0})
  read_body old class_len header_len content_len = do
    c ← get_cmd
    read_class (old c.class) class_len
    read_header (old c.header) header_len
    decode_headers
    read_content (old c.content) content_len

  unfoldable pub read_command_tb_remoting : Bytes → Reads ℕ
  read_command_tb_remoting b32 = do
    b ← read_block 13 (take 13 b32)
    modify (λ c. record c {
      proto = proto_tb_remoting;
      cmdcode = get_or b 0 0;
      codec = get_or b 1 0;
      typ = get_or b 2 0;
      reserved = get_or b 3 0;
    })
    let conn_len = uint32_at b 4
    let class_len = get_or b 8 0
    let content_len = uint32_at b 9
    c ← get_cmd
    read_connection c.connection conn_len
    read_class c.class class_len
    read_content c.content content_len
    pure (14 + conn_len + class_len + content_len)

  unfoldable pub read_response_command_bolt_v1 : Bytes → Reads ℕ
  read_response_command_bolt_v1 b32 = do
    b ← read_block 18 (take 18 b32)
    modify (λ c. record c {
      cmdcode = uint16_at b 0;
      ver2 = get_or b 3 0;
      rid = uint32_at b 3;
      codec = get_or b 7 0;
      status = uint16_at b 8;
    })
    let class_len = uint16_at b 10
    let header_len = uint16_at b 12
    let content_len = uint32_at b 14
    read_body (λ old. old) class_len header_len content_len
    pure (14 + 2 + 4 + (class_len + header_len) % 65536 + content_len)

  unfoldable pub read_request_command_bolt_v1 : Bytes → Reads ℕ
  read_request_command_bolt_v1 b32 = do
    b ← read_block 20 b32
    modify (λ c. record c {
      cmdcode = uint16_at b 0;
      ver2 = get_or b 3 0;
      rid = uint32_at b 3;
      codec = get_or b 7 0;
      timeout = uint32_at b 8;
    })
    let class_len = uint16_at b 12
    let header_len = uint16_at b 14
    let content_len = uint32_at b 16
    read_body (λ old. []) class_len header_len content_len
    pure (16 + 2 + 4 + (class_len + header_len) % 65536 + content_len)

  unfoldable pub read_command_bolt_v1 : Bytes → Reads ℕ
  read_command_bolt_v1 b32 = do
    u8 ← read_uint8
    modify (λ c. record c { typ = u8 })
    if u8 == type_bolt_response
        then read_response_command_bolt_v1 b32
        else if is_bolt_request u8
        then read_request_command_bolt_v1 b32
        else fail malformed_type

  unfoldable pub read_request_command_bolt_v2 : Bytes → Reads ℕ
  read_request_command_bolt_v2 b32 = do
    b ← read_block 21 b32
    modify (λ c. record c {
      cmdcode = uint16_at b 0;
      ver2 = get_or b 2 0;
      rid = uint32_at b 3;
      codec = get_or b 7 0;
      switc = get_or b 8 0;
      timeout = uint32_at b 9;
    })
    let class_len = uint16_at b 13
    let header_len = uint16_at b 15
    let content_len = uint32_at b 17
    read_body (λ old. old) class_len header_len content_len
    read_crc
    pure (24 + (class_len + header_len) % 65536 + content_len)

  unfoldable pub read_response_command_bolt_v2 : Bytes → Reads ℕ
  read_response_command_bolt_v2 b32 = do
    b ← read_block 19 b32
    modify (λ c. record c {
      cmdcode = uint16_at b 0;
      ver2 = get_or b 2 0;
      rid = uint32_at b 3;
      codec = get_or b 7 0;
      switc = get_or b 8 0;
      status = uint16_at b 9;
    })
    let class_len = uint16_at b 11
    let header_len = uint16_at b 13
    let content_len = uint32_at b 15
    read_body (λ old. old) class_len header_len content_len
    read_crc
    pure (22 + (class_len + header_len) % 65536 + content_len)

  -- The two bytes are read into an array of its own, which starts as zeros.
  unfoldable pub read_command_bolt_v2 : Bytes → Reads ℕ
  read_command_bolt_v2 b32 = do
    b2 ← read_block 2 (0 ∷ 0 ∷ [])
    modify (λ c. record c { ver1 = get_or b2 0 0; typ = get_or b2 1 0 })
    if get_or b2 1 0 == type_bolt_response
        then read_response_command_bolt_v2 b32
        else if is_bolt_request (get_or b2 1 0)
        then read_request_command_bolt_v2 b32
        else fail malformed_type

  -- `cmd.reserved[0] = 0` also after a failed read.
  unfoldable pub read_proto : Reads ℕ
  read_proto s =
      let (u8, e, r) = rh.read_uint8 s.br in
      or_io e u8 (record s { cmd = record (s.cmd) { reserved = 0 }; br = r })

  unfoldable pub read_command : Bytes → Reads ℕ
  read_command b32 = do
    u8 ← read_proto
    modify (λ c. record c { proto = u8 })
    if u8 == 0 || u8 == proto_bolt_v1
        then read_command_bolt_v1 b32
        else if u8 == proto_bolt_v2
        then read_command_bolt_v2 b32
        else if u8 == proto_tb_remoting
        then read_command_tb_remoting b32
        else fail malformed_proto
