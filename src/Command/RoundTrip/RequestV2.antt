-- ===== src/Command/RoundTrip/RequestV2.antt =====
-- BOLT V2 requests: what is written is read back.
use sofa_bolt_go.Base.{
  ℕ, ◌+◌, ◌%◌, ◌≡◌, refl, ◌∙◌, [], ◌∷◌, ◌++◌, append_assoc, arith, Bytes, ltb, length, drop,
  from_be8, from_be16, from_be32, true, if◌then◌else◌,
}
use sofa_bolt_go.SimpleMap
use sofa_bolt_go.SimpleMap.{range, get_encode_size}
use sofa_bolt_go.SimpleMap.Entries.{flat}
use sofa_bolt_go.SimpleMap.Invariant.{IsWellFormed}
use sofa_bolt_go.Checksum.{checksum}
use sofa_bolt_go.ReadHelper.{ReadHelper, IsDocumented}
use sofa_bolt_go.Command.{Command, is_bolt_request}
use sofa_bolt_go.Command.Wire.{concat, body, with_crc, request_v2}
use sofa_bolt_go.Command.Write.{written, write_command}
use sofa_bolt_go.Command.Write.Layout.{write_command-layout}
use sofa_bolt_go.Command.Read.Monad.{ok}
use sofa_bolt_go.Command.Read.{read_command, read_command_bolt_v2, read_request_command_bolt_v2}
use sofa_bolt_go.Command.Read.Steps.{at, read_block_full, read_proto_full, read_body_full}
use sofa_bolt_go.Command.RoundTrip.{
  InRange, crc_tail, with_crc-crc_tail, read_crc-crc_tail, not_response, not_v1, is_v2,
}

-- The request layout behind protocol, version and type.
abbrev request_block : Command → Bytes
request_block c = drop 3 (concat (request_v2 c))

-- Protocol 2, the version and the type of a request lead to its reader.
dispatch_request :
    (rh : ReadHelper) (doc : IsDocumented rh) (b32 : Bytes) (x y z ver1 typ : ℕ) (tail : Bytes)
    (c : Command)
    → x ≡ 2
    → y ≡ ver1
    → z ≡ typ
    → is_bolt_request typ ≡ true
    → read_command rh b32 (at rh doc c (x ∷ y ∷ z ∷ tail))
      ≡ read_request_command_bolt_v2 rh b32
          (at rh doc (record c { proto = 2; ver1 = ver1; typ = typ; reserved = 0 }) tail)
unfolding read_command read_command_bolt_v2
dispatch_request rh doc b32 x y z ver1 typ tail c p q o t =
    rw
      (
        p,
        q,
        o,
        read_proto_full rh doc 2 (ver1 ∷ typ ∷ tail) c,
        read_block_full rh doc (ver1 ∷ typ ∷ []) tail (0 ∷ 0 ∷ []) 2
            (record c { proto = 2; reserved = 0 }) refl (omega arith),
        not_response typ t,
        t,
      )
      refl

module _ (rh : ReadHelper) (doc : IsDocumented rh) (b32 : Bytes) (size : length b32 ≡ 32)
    (cmd : Command) (r : InRange cmd) (w : IsWellFormed cmd.headers) where
  read_request_full :
      (c : Command) (v : ℕ) (rest : Bytes)
      → read_request_command_bolt_v2 rh b32 (
          at rh doc
            (record c { headers = SimpleMap.empty })
            (request_block cmd ++ (body cmd ++ (crc_tail cmd.switc v ++ rest))))
        ≡ (
          ok (24 + (length cmd.class + get_encode_size cmd.headers) % 65536 + length cmd.content),
          at rh doc
              (record c {
                cmdcode = cmd.cmdcode;
                ver2 = cmd.ver2;
                rid = cmd.rid;
                codec = cmd.codec;
                switc = cmd.switc;
                timeout = cmd.timeout;
                class = cmd.class;
                header = flat (range cmd.headers);
                headers = record (cmd.headers) { raw = flat (range cmd.headers) };
                content = cmd.content;
                crc32 = if ltb 0 cmd.switc then v % 4294967296 else c.crc32;
              })
              rest,
        )
  unfolding read_request_command_bolt_v2
  read_request_full c v rest =
      let c1 = record c {
        cmdcode = cmd.cmdcode;
        ver2 = cmd.ver2;
        rid = cmd.rid;
        codec = cmd.codec;
        switc = cmd.switc;
        timeout = cmd.timeout;
      } in
      let c2 = record c1 {
        class = cmd.class;
        header = flat (range cmd.headers);
        headers = record (cmd.headers) { raw = flat (range cmd.headers) };
        content = cmd.content;
      } in
      rw
        (
          read_block_full rh doc (request_block cmd) (body cmd ++ (crc_tail cmd.switc v ++ rest))
              b32 21 (record c { headers = SimpleMap.empty }) refl (omega (arith, size)),
          from_be16 cmd.cmdcode r.cmdcode,
          from_be8 cmd.ver2 r.ver2,
          from_be32 cmd.rid r.rid,
          from_be8 cmd.codec r.codec,
          from_be8 cmd.switc r.switc,
          from_be32 cmd.timeout r.timeout,
          from_be16 (length cmd.class) r.class_len,
          from_be16 (get_encode_size cmd.headers) r.header_len,
          from_be32 (length cmd.content) r.content_len,
          read_body_full rh doc (λ old. old) cmd c1 (crc_tail cmd.switc v ++ rest) w,
          read_crc-crc_tail rh doc v rest c2,
        )
        refl

  -- A V2 request is written without a panic, and what is written, followed by anything, is read back
  -- into a command without headers: every field that is on the wire, the checksum too, and no byte
  -- behind it. The count returned leaves the checksum out.
  -- This holds for a helper that behaves as documented, a scratch array of 32 bytes, fields and
  -- lengths that fit their widths, and well-formed headers.
  pub read-write_request_v2 :
      (b : Bytes) (c : Command) (rest : Bytes)
      → cmd.proto ≡ 2
      → is_bolt_request cmd.typ ≡ true
      → let sent = concat (request_v2 cmd) ++ body cmd in
        (write_command rh b cmd ≡ written (with_crc cmd sent))
        × (read_command rh b32
              (at rh doc (record c { headers = SimpleMap.empty }) (with_crc cmd sent ++ rest))
            ≡ (
              ok (
                  24
                  + (length cmd.class + get_encode_size cmd.headers) % 65536
                  + length cmd.content),
              at rh doc
                  (record c {
                    proto = 2;
                    ver1 = cmd.ver1;
                    typ = cmd.typ;
                    reserved = 0;
                    cmdcode = cmd.cmdcode;
                    ver2 = cmd.ver2;
                    rid = cmd.rid;
                    codec = cmd.codec;
                    switc = cmd.switc;
                    timeout = cmd.timeout;
                    class = cmd.class;
                    header = flat (range cmd.headers);
                    headers = record (cmd.headers) { raw = flat (range cmd.headers) };
                    content = cmd.content;
                    crc32 = if ltb 0 cmd.switc then checksum sent % 4294967296 else c.crc32;
                  })
                  rest,
            ))
  read-write_request_v2 b c rest p t =
      let v = checksum (concat (request_v2 cmd) ++ body cmd) in
      let c0 = record c { headers = SimpleMap.empty } in
      (
        write_command-layout rh doc b cmd ∙ rw (not_v1 cmd.proto p, is_v2 cmd.proto p, t),
        rw
            (
              with_crc-crc_tail cmd (concat (request_v2 cmd) ++ body cmd),
              append_assoc (concat (request_v2 cmd) ++ body cmd) (crc_tail cmd.switc v) rest,
              append_assoc (concat (request_v2 cmd)) (body cmd) (crc_tail cmd.switc v ++ rest),
            )
            (dispatch_request rh doc b32 (cmd.proto % 256) (cmd.ver1 % 256) (cmd.typ % 256) cmd.ver1
                cmd.typ (request_block cmd ++ (body cmd ++ (crc_tail cmd.switc v ++ rest))) c0
                (omega (arith, p)) (from_be8 cmd.ver1 r.ver1) (from_be8 cmd.typ r.typ) t
              ∙ read_request_full
                  (record c { proto = 2; ver1 = cmd.ver1; typ = cmd.typ; reserved = 0 }) v rest),
      )
