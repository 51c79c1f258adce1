-- ===== src/Command/Wire.antt =====
-- The layouts that the comments of sofabolt/command.go draw, as lists of fields in wire order.
use sofa_bolt_go.Base.{List, [], ◌∷◌, ◌++◌, Bytes, be8, be16, be32, ltb, if◌then◌else◌, length}
use sofa_bolt_go.SimpleMap.{get_encode_size, range}
use sofa_bolt_go.SimpleMap.Entries.{flat}
use sofa_bolt_go.Checksum.{checksum}
use sofa_bolt_go.Command.{Command}

abbrev pub concat : List Bytes → Bytes
concat [] = []
concat (w ∷ ws) = w ++ concat ws

-- className + header + content bytes
abbrev pub body : Command → Bytes
body c = c.class ++ (flat (range c.headers) ++ c.content)

-- CRC32(optional)
unfoldable pub with_crc : Command → Bytes → Bytes
with_crc c bs = if ltb 0 c.switc then bs ++ be32 (checksum bs) else bs

-- |proto| type| cmdcode |ver2 | requestId |codec| timeout | classLen |headerLen | contentLen |
abbrev pub request_v1 : Command → List Bytes
request_v1 c =
    be8 c.proto
    ∷ be8 c.typ
    ∷ be16 c.cmdcode
    ∷ be8 c.ver2
    ∷ be32 c.rid
    ∷ be8 c.codec
    ∷ be32 c.timeout
    ∷ be16 (length c.class)
    ∷ be16 (get_encode_size c.headers)
    ∷ be32 (length c.content)
    ∷ []

-- |proto| type| cmdcode |ver2 | requestId |codec|respstatus | classLen |headerLen | contentLen |
abbrev pub response_v1 : Command → List Bytes
response_v1 c =
    be8 c.proto
    ∷ be8 c.typ
    ∷ be16 c.cmdcode
    ∷ be8 c.ver2
    ∷ be32 c.rid
    ∷ be8 c.codec
    ∷ be16 c.status
    ∷ be16 (length c.class)
    ∷ be16 (get_encode_size c.headers)
    ∷ be32 (length c.content)
    ∷ []

-- |proto| ver1|type | cmdcode |ver2 | requestId |codec|switch| timeout |classLen |headerLen
-- |contentLen |
abbrev pub request_v2 : Command → List Bytes
request_v2 c =
    be8 c.proto
    ∷ be8 c.ver1
    ∷ be8 c.typ
    ∷ be16 c.cmdcode
    ∷ be8 c.ver2
    ∷ be32 c.rid
    ∷ be8 c.codec
    ∷ be8 c.switc
    ∷ be32 c.timeout
    ∷ be16 (length c.class)
    ∷ be16 (get_encode_size c.headers)
    ∷ be32 (length c.content)
    ∷ []

-- |proto| ver1| type| cmdcode |ver2 | requestId |codec|switch|respstatus | classLen |headerLen
-- | contentLen |
abbrev pub response_v2 : Command → List Bytes
response_v2 c =
    be8 c.proto
    ∷ be8 c.ver1
    ∷ be8 c.typ
    ∷ be16 c.cmdcode
    ∷ be8 c.ver2
    ∷ be32 c.rid
    ∷ be8 c.codec
    ∷ be8 c.switc
    ∷ be16 c.status
    ∷ be16 (length c.class)
    ∷ be16 (get_encode_size c.headers)
    ∷ be32 (length c.content)
    ∷ []

-- Version, request or response, serialization, one or two way, reserved, and the three lengths.
abbrev pub tb_remoting : Command → List Bytes
tb_remoting c =
    be8 c.proto
    ∷ be8 c.cmdcode
    ∷ be8 c.codec
    ∷ be8 c.typ
    ∷ be8 0
    ∷ be32 (length c.connection)
    ∷ be8 (length c.class)
    ∷ be32 (length c.content)
    ∷ []
