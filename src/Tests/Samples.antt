-- ===== src/Tests/Samples.antt =====
-- A header map with a field and a pair, commands of each kind that carry it, and scratch bytes.
use sofa_bolt_go.Base.{ℕ, ◌<◌, [], arith, Bytes, codes, equal, replicate}
use sofa_bolt_go.SimpleMap
use sofa_bolt_go.SimpleMap.{FastSimpleMap, set, empty, get_encode_size}
use sofa_bolt_go.SimpleMap.Invariant.{IsWellFormed, set-IsWellFormed, empty-IsWellFormed}
use sofa_bolt_go.Command.{Command}
use sofa_bolt_go.Command.RoundTrip.{InRange}
use sofa_bolt_go.Command.RoundTrip.TbRemoting.{FitsTbRemoting}

abbrev pub with_host : FastSimpleMap
with_host = set (codes "service") (codes "svc") (record (SimpleMap.empty) { raw = [] })

abbrev pub headers : FastSimpleMap
headers = set (codes "app") (codes "demo") with_host

pub headers-IsWellFormed : IsWellFormed headers
headers-IsWellFormed =
    set-IsWellFormed (codes "app") (codes "demo") with_host (omega arith) (omega arith) (
      set-IsWellFormed (codes "service") (codes "svc") (record (SimpleMap.empty) { raw = [] })
        (omega arith) (omega arith) (empty-IsWellFormed []))

abbrev pub sample : ℕ → ℕ → Command
sample proto typ = record {
  proto = proto;
  ver1 = 1;
  typ = typ;
  cmdcode = 1;
  ver2 = 1;
  rid = 66051;
  codec = 1;
  switc = 1;
  timeout = 3000;
  status = 0;
  reserved = 0;
  connection = codes "conn";
  class = codes "com.Req";
  header = [];
  content = codes "body";
  crc32 = 0;
  headers = headers;
}

pub sample-InRange : (proto typ : ℕ) → proto < 256 → typ < 256 → InRange (sample proto typ)
unfolding get_encode_size SimpleMap.set SimpleMap.set_kv SimpleMap.empty equal SimpleMap.field_size
    SimpleMap.kvs_size
sample-InRange proto typ p t = record {
  proto = p;
  ver1 = omega arith;
  typ = t;
  cmdcode = omega arith;
  ver2 = omega arith;
  rid = omega arith;
  codec = omega arith;
  switc = omega arith;
  timeout = omega arith;
  status = omega arith;
  class_len = omega arith;
  header_len = omega arith;
  content_len = omega arith;
}

pub sample-FitsTbRemoting : FitsTbRemoting (sample 13 1)
sample-FitsTbRemoting = record {
  cmdcode = omega arith;
  codec = omega arith;
  typ = omega arith;
  connection_len = omega arith;
  class_len = omega arith;
  content_len = omega arith;
}

-- The scratch bytes of the readers.
abbrev pub scratch : Bytes
scratch = replicate 32 0
