-- ===== src/Command/RoundTrip/ResponseV1.antt =====
-- BOLT V1 responses: what is written is read back.
use sofa_bolt_go.Base.{
  ℕ, ◌+◌, ◌/◌, ◌%◌, ◌≡◌, refl, ◌∙◌, ◌∷◌, ◌++◌, append_assoc, arith, Bytes, length, length-take,
  take, drop, from_be8, from_be16, from_be32, true, ◌==◌, ◌||◌,
}
use sofa_bolt_go.SimpleMap
use sofa_bolt_go.SimpleMap.{range, get_encode_size}
use sofa_bolt_go.SimpleMap.Entries.{flat}
use sofa_bolt_go.SimpleMap.Invariant.{IsWellFormed}
use sofa_bolt_go.ReadHelper.{ReadHelper, IsDocumented}
use sofa_bolt_go.Command.{Command}
use sofa_bolt_go.Command.Wire.{concat, body, response_v1}
use sofa_bolt_go.Command.Write.{written, write_command}
use sofa_bolt_go.Command.Write.Layout.{write_command-layout}
use sofa_bolt_go.Command.Read.Monad.{ok}
use sofa_bolt_go.Command.Read.{read_command, read_command_bolt_v1, read_response_command_bolt_v1}
use sofa_bolt_go.Command.Read.Steps.{
  at, read_block_full, read_uint8_full, read_proto_full, read_body_full,
}
use sofa_bolt_go.Command.RoundTrip.{InRange, is_response, not_request}

-- The response layout behind protocol and type.
abbrev response_block : Command → Bytes
response_block c = drop 2 (concat (response_v1 c))

-- Protocol 0 or 1, and the type of a response lead to its reader.
dispatch_response :
    (rh : ReadHelper) (doc : IsDocumented rh) (b32 : Bytes) (x y proto typ : ℕ) (tail : Bytes)
    (c : Command)
    → x ≡ proto
    → y ≡ typ
    → (proto == 0 || proto == 1) ≡ true
    → typ ≡ 0
    → read_command rh b32 (at rh doc c (x ∷ y ∷ tail))
      ≡ read_response_command_bolt_v1 rh b32
          (at rh doc (record c { proto = proto; typ = typ; reserved = 0 }) tail)
unfolding read_command read_command_bolt_v1
dispatch_response rh doc b32 x y proto typ tail c q o p t =
    rw
      (
        q,
        o,
        read_proto_full rh doc proto (typ ∷ tail) c,
        p,
        read_uint8_full rh doc typ tail (record c { proto = proto; reserved = 0 }),
        is_response typ t,
      )
      refl

module _ (rh : ReadHelper) (doc : IsDocumented rh) (b32 : Bytes) (size : length b32 ≡ 32)
    (cmd : Command) (r : InRange cmd) (w : IsWellFormed cmd.headers) where
  read_response_full :
      (c : Command) (rest : Bytes)
      → read_response_command_bolt_v1 rh b32 (
          at rh doc
            (record c { headers = SimpleMap.empty })
            (response_block cmd ++ (body cmd ++ rest)))
        ≡ (
          ok (20 + (length cmd.class + get_encode_size cmd.headers) % 65536 + length cmd.content),
          at rh doc
              (record c {
                cmdcode = cmd.cmdcode;
                ver2 = cmd.rid / 16777216 % 256;
                rid = cmd.rid;
                codec = cmd.codec;
                status = cmd.status;
                class = cmd.class;
                header = flat (range cmd.headers);
                headers = record (cmd.headers) { raw = flat (range cmd.headers) };
                content = cmd.content;
              })
              rest,
        )
  unfolding read_response_command_bolt_v1
  read_response_full c rest =
      let c1 = record c {
        cmdcode = cmd.cmdcode;
        ver2 = cmd.rid / 16777216 % 256;
        rid = cmd.rid;
        codec = cmd.codec;
        status = cmd.status;
      } in
      rw
        (
          read_block_full rh doc (response_block cmd) (body cmd ++ rest) (take 18 b32) 18
              (record c { headers = SimpleMap.empty }) refl
              (omega (arith, length-take 18 b32 (omega (arith, size)))),
          from_be16 cmd.cmdcode r.cmdcode,
          from_be32 cmd.rid r.rid,
          from_be8 cmd.codec r.codec,
          from_be16 cmd.status r.status,
          from_be16 (length cmd.class) r.class_len,
          from_be16 (get_encode_size cmd.headers) r.header_len,
          from_be32 (length cmd.content) r.content_len,
          read_body_full rh doc (λ old. old) cmd c1 rest w,
        )
        refl

  -- A V1 response (protocol 0 or 1) is written without a panic, and what is written, followed by
  -- anything, is read back into a command without headers: every field that is on the wire but
  -- `ver2`, and no byte behind it. The reader takes `ver2` from the first byte of the request id.
  -- This holds for a helper that behaves as documented, a scratch array of 32 bytes, fields and
  -- lengths that fit their widths, and well-formed headers.
  pub read-write_response_v1 :
      (b : Bytes) (c : Command) (rest : Bytes)
      → (cmd.proto == 0 || cmd.proto == 1) ≡ true
      → cmd.typ ≡ 0
      → let sent = concat (response_v1 cmd) ++ body cmd in
        (write_command rh b cmd ≡ written sent)
        × (read_command rh b32 (at rh doc (record c { headers = SimpleMap.empty }) (sent ++ rest))
            ≡ (
              ok (
                  20
                  + (length cmd.class + get_encode_size cmd.headers) % 65536
                  + length cmd.content),
              at rh doc
                  (record c {
                    proto = cmd.proto;
                    typ = cmd.typ;
                    reserved = 0;
                    cmdcode = cmd.cmdcode;
                    ver2 = cmd.rid / 16777216 % 256;
                    rid = cmd.rid;
                    codec = cmd.codec;
                    status = cmd.status;
                    class = cmd.class;
                    header = flat (range cmd.headers);
                    headers = record (cmd.headers) { raw = flat (range cmd.headers) };
                    content = cmd.content;
                  })
                  rest,
            ))
  read-write_response_v1 b c rest p t =
      let c0 = record c { headers = SimpleMap.empty } in
      (
        write_command-layout rh doc b cmd ∙ rw (p, not_request cmd.typ t, is_response cmd.typ t),
        rw (append_assoc (concat (response_v1 cmd)) (body cmd) rest) (
            dispatch_response rh doc b32 (cmd.proto % 256) (cmd.typ % 256) cmd.proto cmd.typ
              (response_block cmd ++ (body cmd ++ rest)) c0 (from_be8 cmd.proto r.proto)
              (from_be8 cmd.typ r.typ) p t
            ∙ read_response_full (record c { proto = cmd.proto; typ = cmd.typ; reserved = 0 })
                rest),
      )
