-- ===== src/Command.antt =====
-- sofabolt/command.go: the command, its copies and `Size`. The codec is in Write and Read.
pub mod Wire
pub mod Write
pub mod Read
pub mod RoundTrip
pub mod Size
pub mod Total
use sofa_bolt_go.Base.{ℕ, ◌+◌, Bool, ◌||◌, [], Bytes, ◌==◌, if◌then◌else◌, length}
use sofa_bolt_go.SimpleMap
use sofa_bolt_go.SimpleMap.{FastSimpleMap, get_encode_size}

-- `Proto`.
abbrev pub proto_bolt_v1 : ℕ
proto_bolt_v1 = 1

abbrev pub proto_bolt_v2 : ℕ
proto_bolt_v2 = 2

abbrev pub proto_tb_remoting : ℕ
proto_tb_remoting = 13

-- `Type`.
abbrev pub type_bolt_response : ℕ
type_bolt_response = 0

abbrev pub type_bolt_request : ℕ
type_bolt_request = 1

abbrev pub type_bolt_request_one_way : ℕ
type_bolt_request_one_way = 2

abbrev pub type_tb_remoting_one_way : ℕ
type_tb_remoting_one_way = 1

-- The field `type` of the source is called `typ` there, and `switch` is `switc`.
pub record Command : Type 0 where
  pub proto : ℕ  -- uint8
  pub ver1 : ℕ  -- uint8
  pub typ : ℕ  -- uint8
  pub cmdcode : ℕ  -- uint16
  pub ver2 : ℕ  -- uint8
  pub rid : ℕ  -- uint32
  pub codec : ℕ  -- uint8
  pub switc : ℕ  -- uint8
  pub timeout : ℕ  -- uint32
  pub status : ℕ  -- uint16
  pub reserved : ℕ  -- [1]byte
  pub connection : Bytes
  pub class : Bytes
  pub header : Bytes
  pub content : Bytes
  pub crc32 : ℕ  -- uint32
  pub headers : FastSimpleMap

-- `var cmd Command`.
unfoldable pub zero_command : Command
zero_command = record {
  proto = 0;
  ver1 = 0;
  typ = 0;
  cmdcode = 0;
  ver2 = 0;
  rid = 0;
  codec = 0;
  switc = 0;
  timeout = 0;
  status = 0;
  reserved = 0;
  connection = [];
  class = [];
  header = [];
  content = [];
  crc32 = 0;
  headers = SimpleMap.empty;
}

unfoldable pub reset : Command → Command
reset c = record c {
  proto = 0;
  ver1 = 0;
  typ = 0;
  cmdcode = 0;
  ver2 = 0;
  rid = 0;
  codec = 0;
  switc = 0;
  timeout = 0;
  status = 0;
  reserved = 0;
  connection = [];
  class = [];
  header = [];
  content = [];
  crc32 = 0;
  headers = SimpleMap.reset c.headers;
}

unfoldable pub is_request : Command → Bool
is_request c =
    c.typ == type_bolt_request
    || c.typ == type_bolt_request_one_way
    || c.typ == type_tb_remoting_one_way

-- `ShallowCopyTo`: not `connection`, and `d.headers = d.headers` keeps the destination's headers.
unfoldable pub shallow_copy_to : Command → Command → Command
shallow_copy_to c d = record d {
  proto = c.proto;
  ver1 = c.ver1;
  typ = c.typ;
  cmdcode = c.cmdcode;
  ver2 = c.ver2;
  rid = c.rid;
  codec = c.codec;
  switc = c.switc;
  timeout = c.timeout;
  status = c.status;
  class = c.class;
  header = c.header;
  content = c.content;
  crc32 = c.crc32;
}

-- `CopyTo`: the headers too, and not `connection`.
unfoldable pub copy_to : Command → Command → Command
copy_to c d = record d {
  proto = c.proto;
  ver1 = c.ver1;
  typ = c.typ;
  cmdcode = c.cmdcode;
  ver2 = c.ver2;
  rid = c.rid;
  codec = c.codec;
  switc = c.switc;
  timeout = c.timeout;
  status = c.status;
  class = c.class;
  header = c.header;
  content = c.content;
  crc32 = c.crc32;
  headers = SimpleMap.copy_to c.headers d.headers;
}

-- `c.typ == TypeBOLTRequest || c.typ == TypeBOLTRequestOneWay`.
abbrev pub is_bolt_request : ℕ → Bool
is_bolt_request typ = typ == type_bolt_request || typ == type_bolt_request_one_way

unfoldable pub size : Command → ℕ
size c =
    let class_len = length c.class in
    let header_len = get_encode_size c.headers in
    let content_len = length c.content in
    if c.proto == 0 || c.proto == proto_bolt_v1
    then (if is_bolt_request c.typ
        then 20 + class_len + header_len + content_len
        else 24 + class_len + header_len + content_len)
    else if c.proto == proto_bolt_v2
    then (if is_bolt_request c.typ
        then 24 + class_len + header_len + content_len
        else 22 + class_len + header_len + content_len)
    else if c.proto == proto_tb_remoting
    then 14 + class_len + header_len + content_len
    else 0
