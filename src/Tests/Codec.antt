-- ===== src/Tests/Codec.antt =====
-- The theorems on the codec at concrete commands and a concrete reader.
use sofa_bolt_go.Base.{
  ◌+◌, not, ◌&&◌, ◌%◌, ◌/◌, ◌≡◌, refl, [], ◌∷◌, ◌++◌, arith, Bytes, ltb, length, if◌then◌else◌,
}
use sofa_bolt_go.SimpleMap
use sofa_bolt_go.SimpleMap.{range, get_encode_size}
use sofa_bolt_go.SimpleMap.Entries.{flat}
use sofa_bolt_go.Checksum.{checksum}
use sofa_bolt_go.Command.{Command, zero_command, size, is_bolt_request}
use sofa_bolt_go.Command.Wire.{
  concat, body, with_crc, request_v1, response_v1, request_v2, response_v2, tb_remoting,
}
use sofa_bolt_go.Command.Write.{written, write_command}
use sofa_bolt_go.Command.Write.Layout.{layout, write_command-layout}
use sofa_bolt_go.Command.Read.Monad.{ok}
use sofa_bolt_go.Command.Read.{read_command}
use sofa_bolt_go.Command.Read.Steps.{at}
use sofa_bolt_go.Command.RoundTrip.RequestV2.{read-write_request_v2}
use sofa_bolt_go.Command.RoundTrip.ResponseV2.{read-write_response_v2}
use sofa_bolt_go.Command.RoundTrip.RequestV1.{read-write_request_v1}
use sofa_bolt_go.Command.RoundTrip.ResponseV1.{read-write_response_v1}
use sofa_bolt_go.Command.RoundTrip.TbRemoting.{read-write_tb_remoting}
use sofa_bolt_go.Command.Total.{IsClean, read_command-IsClean}
use sofa_bolt_go.Command.Size.{is_v1, length-layout}
use sofa_bolt_go.Tests.Reader.{bytes_reader, bytes_reader-IsDocumented}
use sofa_bolt_go.Tests.Samples.{
  headers-IsWellFormed, sample, sample-InRange, sample-FitsTbRemoting, scratch,
}

abbrev sample_request_v2 : Command
sample_request_v2 = sample 2 1

abbrev trailing : Bytes
trailing = 1 ∷ 2 ∷ []

read-write_request_v2_example :
    let sent = concat (request_v2 sample_request_v2) ++ body sample_request_v2 in
    (write_command bytes_reader [] sample_request_v2 ≡ written (with_crc sample_request_v2 sent))
    × (read_command bytes_reader scratch (
          at bytes_reader bytes_reader-IsDocumented
            (record zero_command { headers = SimpleMap.empty })
            (with_crc sample_request_v2 sent ++ trailing))
        ≡ (
          ok (
              24
              + (length sample_request_v2.class + get_encode_size sample_request_v2.headers) % 65536
              + length sample_request_v2.content),
          at bytes_reader bytes_reader-IsDocumented
              (record zero_command {
                proto = 2;
                ver1 = sample_request_v2.ver1;
                typ = sample_request_v2.typ;
                reserved = 0;
                cmdcode = sample_request_v2.cmdcode;
                ver2 = sample_request_v2.ver2;
                rid = sample_request_v2.rid;
                codec = sample_request_v2.codec;
                switc = sample_request_v2.switc;
                timeout = sample_request_v2.timeout;
                class = sample_request_v2.class;
                header = flat (range sample_request_v2.headers);
                headers = record (sample_request_v2.headers) {
                  raw = flat (range sample_request_v2.headers);
                };
                content = sample_request_v2.content;
                crc32 =
                    if ltb 0 sample_request_v2.switc
                    then checksum sent % 4294967296
                    else zero_command.crc32;
              })
              trailing,
        ))
read-write_request_v2_example =
    read-write_request_v2 bytes_reader bytes_reader-IsDocumented scratch refl sample_request_v2
      (sample-InRange 2 1 (omega arith) (omega arith)) headers-IsWellFormed [] zero_command trailing
      refl refl

abbrev sample_response_v2 : Command
sample_response_v2 = sample 2 0

read-write_response_v2_example :
    let sent = concat (response_v2 sample_response_v2) ++ body sample_response_v2 in
    (write_command bytes_reader [] sample_response_v2 ≡ written (with_crc sample_response_v2 sent))
    × (read_command bytes_reader scratch (
          at bytes_reader bytes_reader-IsDocumented
            (record zero_command { headers = SimpleMap.empty })
            (with_crc sample_response_v2 sent ++ trailing))
        ≡ (
          ok (
              22
              + (length sample_response_v2.class + get_encode_size sample_response_v2.headers)
                % 65536
              + length sample_response_v2.content),
          at bytes_reader bytes_reader-IsDocumented
              (record zero_command {
                proto = 2;
                ver1 = sample_response_v2.ver1;
                typ = sample_response_v2.typ;
                reserved = 0;
                cmdcode = sample_response_v2.cmdcode;
                ver2 = sample_response_v2.ver2;
                rid = sample_response_v2.rid;
                codec = sample_response_v2.codec;
                switc = sample_response_v2.switc;
                status = sample_response_v2.status;
                class = sample_response_v2.class;
                header = flat (range sample_response_v2.headers);
                headers = record (sample_response_v2.headers) {
                  raw = flat (range sample_response_v2.headers);
                };
                content = sample_response_v2.content;
                crc32 =
                    if ltb 0 sample_response_v2.switc
                    then checksum sent % 4294967296
                    else zero_command.crc32;
              })
              trailing,
        ))
read-write_response_v2_example =
    read-write_response_v2 bytes_reader bytes_reader-IsDocumented scratch refl sample_response_v2
      (sample-InRange 2 0 (omega arith) (omega arith)) headers-IsWellFormed [] zero_command trailing
      refl refl

abbrev sample_request_v1 : Command
sample_request_v1 = sample 1 1

read-write_request_v1_example :
    let sent = concat (request_v1 sample_request_v1) ++ body sample_request_v1 in
    (write_command bytes_reader [] sample_request_v1 ≡ written sent)
    × (read_command bytes_reader scratch (
          at bytes_reader bytes_reader-IsDocumented
            (record zero_command { headers = SimpleMap.empty })
            (sent ++ trailing))
        ≡ (
          ok (
              22
              + (length sample_request_v1.class + get_encode_size sample_request_v1.headers) % 65536
              + length sample_request_v1.content),
          at bytes_reader bytes_reader-IsDocumented
              (record zero_command {
                proto = sample_request_v1.proto;
                typ = sample_request_v1.typ;
                reserved = 0;
                cmdcode = sample_request_v1.cmdcode;
                ver2 = sample_request_v1.rid / 16777216 % 256;
                rid = sample_request_v1.rid;
                codec = sample_request_v1.codec;
                timeout = sample_request_v1.timeout;
                class = sample_request_v1.class;
                header = flat (range sample_request_v1.headers);
                headers = record (sample_request_v1.headers) {
                  raw = flat (range sample_request_v1.headers);
                };
                content = sample_request_v1.content;
              })
              trailing,
        ))
read-write_request_v1_example =
    read-write_request_v1 bytes_reader bytes_reader-IsDocumented scratch refl sample_request_v1
      (sample-InRange 1 1 (omega arith) (omega arith)) headers-IsWellFormed [] zero_command trailing
      refl refl

abbrev sample_response_v1 : Command
sample_response_v1 = sample 1 0

read-write_response_v1_example :
    let sent = concat (response_v1 sample_response_v1) ++ body sample_response_v1 in
    (write_command bytes_reader [] sample_response_v1 ≡ written sent)
    × (read_command bytes_reader scratch (
          at bytes_reader bytes_reader-IsDocumented
            (record zero_command { headers = SimpleMap.empty })
            (sent ++ trailing))
        ≡ (
          ok (
              20
              + (length sample_response_v1.class + get_encode_size sample_response_v1.headers)
                % 65536
              + length sample_response_v1.content),
          at bytes_reader bytes_reader-IsDocumented
              (record zero_command {
                proto = sample_response_v1.proto;
                typ = sample_response_v1.typ;
                reserved = 0;
                cmdcode = sample_response_v1.cmdcode;
                ver2 = sample_response_v1.rid / 16777216 % 256;
                rid = sample_response_v1.rid;
                codec = sample_response_v1.codec;
                status = sample_response_v1.status;
                class = sample_response_v1.class;
                header = flat (range sample_response_v1.headers);
                headers = record (sample_response_v1.headers) {
                  raw = flat (range sample_response_v1.headers);
                };
                content = sample_response_v1.content;
              })
              trailing,
        ))
read-write_response_v1_example =
    read-write_response_v1 bytes_reader bytes_reader-IsDocumented scratch refl sample_response_v1
      (sample-InRange 1 0 (omega arith) (omega arith)) headers-IsWellFormed [] zero_command trailing
      refl refl

abbrev sample_tb_remoting : Command
sample_tb_remoting = sample 13 1

read-write_tb_remoting_example :
    let sent =
      concat (tb_remoting sample_tb_remoting)
      ++ (sample_tb_remoting.connection
          ++ (sample_tb_remoting.class ++ sample_tb_remoting.content)) in
    (write_command bytes_reader [] sample_tb_remoting ≡ written sent)
    × (length sent
        ≡ 14
          + length sample_tb_remoting.connection
          + length sample_tb_remoting.class
          + length sample_tb_remoting.content)
    × (read_command bytes_reader scratch
          (at bytes_reader bytes_reader-IsDocumented zero_command (sent ++ trailing))
        ≡ (
          ok (length sent),
          at bytes_reader bytes_reader-IsDocumented
              (record zero_command {
                proto = 13;
                cmdcode = sample_tb_remoting.cmdcode;
                codec = sample_tb_remoting.codec;
                typ = sample_tb_remoting.typ;
                reserved = 0;
                connection = sample_tb_remoting.connection;
                class = sample_tb_remoting.class;
                content = sample_tb_remoting.content;
              })
              trailing,
        ))
read-write_tb_remoting_example =
    read-write_tb_remoting bytes_reader bytes_reader-IsDocumented scratch refl sample_tb_remoting
      sample-FitsTbRemoting [] zero_command trailing refl

write_command-layout_example : write_command bytes_reader [] (sample 2 7) ≡ layout (sample 2 7)
write_command-layout_example =
    write_command-layout bytes_reader bytes_reader-IsDocumented [] (sample 2 7)

length-layout_example :
    length (concat (request_v1 sample_request_v1) ++ body sample_request_v1)
      + (if is_v1 sample_request_v1 && not (is_bolt_request sample_request_v1.typ) then 4 else 0)
    ≡ size sample_request_v1
      + (if is_v1 sample_request_v1
          then (if is_bolt_request sample_request_v1.typ then 2 else 0)
          else if ltb 0 sample_request_v1.switc
          then 4
          else 0)
length-layout_example =
    length-layout sample_request_v1
      (concat (request_v1 sample_request_v1) ++ body sample_request_v1) refl refl

-- Bytes that stop within the header of a V2 request.
abbrev cut_off : Bytes
cut_off = 2 ∷ 1 ∷ 1 ∷ 0 ∷ []

read_command-IsClean_example :
    IsClean
      (read_command bytes_reader scratch
        (at bytes_reader bytes_reader-IsDocumented zero_command cut_off)).0
read_command-IsClean_example =
    read_command-IsClean bytes_reader scratch
      (at bytes_reader bytes_reader-IsDocumented zero_command cut_off)
