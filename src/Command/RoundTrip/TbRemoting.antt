-- ===== src/Command/RoundTrip/TbRemoting.antt =====
-- TBRemoting: what is written is read back.
use sofa_bolt_go.Base.{
  ℕ, ◌+◌, ◌%◌, ◌<◌, ◌≡◌, refl, ◌∙◌, ◌∷◌, ◌++◌, append_assoc, arith, Bytes, length, length-append,
  length-take, take, drop, from_be8, from_be32, true, false, ◌==◌, ◌||◌,
}
use sofa_bolt_go.ReadHelper.{ReadHelper, IsDocumented}
use sofa_bolt_go.Command.{Command}
use sofa_bolt_go.Command.Wire.{concat, tb_remoting}
use sofa_bolt_go.Command.Write.{written, write_command}
use sofa_bolt_go.Command.Write.Layout.{write_command-layout}
use sofa_bolt_go.Command.Read.Monad.{ok}
use sofa_bolt_go.Command.Read.{read_command, read_command_tb_remoting}
use sofa_bolt_go.Command.Read.Steps.{
  at, read_block_full, read_proto_full, read_connection_full, read_class_full, read_content_full,
}

-- What fits the wire: command code, class length and type in one byte each.
pub record FitsTbRemoting (c : Command) : Type 0 where
  pub cmdcode : c.cmdcode < 256
  pub codec : c.codec < 256
  pub typ : c.typ < 256
  pub connection_len : length c.connection < 4294967296
  pub class_len : length c.class < 256
  pub content_len : length c.content < 4294967296

-- The layout behind the protocol.
abbrev block : Command → Bytes
block c = drop 1 (concat (tb_remoting c))

abbrev blobs : Command → Bytes
blobs c = c.connection ++ (c.class ++ c.content)

not_v1 : (proto : ℕ) → proto ≡ 13 → (proto == 0 || proto == 1) ≡ false
not_v1 proto p = ground arith

not_v2 : (proto : ℕ) → proto ≡ 13 → (proto == 2) ≡ false
not_v2 proto p = ground arith

is_tb : (proto : ℕ) → proto ≡ 13 → (proto == 13) ≡ true
is_tb proto p = ground arith

dispatch_tb_remoting :
    (rh : ReadHelper) (doc : IsDocumented rh) (b32 : Bytes) (x : ℕ) (tail : Bytes) (c : Command)
    → x ≡ 13
    → read_command rh b32 (at rh doc c (x ∷ tail))
      ≡ read_command_tb_remoting rh b32 (at rh doc (record c { proto = 13; reserved = 0 }) tail)
unfolding read_command
dispatch_tb_remoting rh doc b32 x tail c p = rw (p, read_proto_full rh doc 13 tail c) refl

module _ (rh : ReadHelper) (doc : IsDocumented rh) (b32 : Bytes) (size : length b32 ≡ 32)
    (cmd : Command) (r : FitsTbRemoting cmd) where
  read_full :
      (c : Command) (rest : Bytes)
      → read_command_tb_remoting rh b32
          (at rh doc c (block cmd ++ (cmd.connection ++ (cmd.class ++ (cmd.content ++ rest)))))
        ≡ (
          ok (14 + length cmd.connection + length cmd.class + length cmd.content),
          at rh doc
              (record c {
                proto = 13;
                cmdcode = cmd.cmdcode;
                codec = cmd.codec;
                typ = cmd.typ;
                reserved = 0;
                connection = cmd.connection;
                class = cmd.class;
                content = cmd.content;
              })
              rest,
        )
  unfolding read_command_tb_remoting
  read_full c rest =
      let c1 = record c {
        proto = 13;
        cmdcode = cmd.cmdcode;
        codec = cmd.codec;
        typ = cmd.typ;
        reserved = 0;
      } in
      let c2 = record c1 { connection = cmd.connection } in
      let c3 = record c2 { class = cmd.class } in
      rw
        (
          read_block_full rh doc (block cmd)
              (cmd.connection ++ (cmd.class ++ (cmd.content ++ rest))) (take 13 b32) 13 c refl
              (omega (arith, length-take 13 b32 (omega (arith, size)))),
          from_be8 cmd.cmdcode r.cmdcode,
          from_be8 cmd.codec r.codec,
          from_be8 cmd.typ r.typ,
          from_be32 (length cmd.connection) r.connection_len,
          from_be8 (length cmd.class) r.class_len,
          from_be32 (length cmd.content) r.content_len,
          read_connection_full rh doc cmd.connection (cmd.class ++ (cmd.content ++ rest))
              c.connection (length cmd.connection) c1 refl,
          read_class_full rh doc cmd.class (cmd.content ++ rest) c.class (length cmd.class) c2 refl,
          read_content_full rh doc cmd.content rest c.content (length cmd.content) c3 refl,
        )
        refl

  -- A TBRemoting command that fits the wire is written without a panic, and what is written,
  -- followed by anything, is read back: every field on the wire, and no byte behind it. The count
  -- returned is the number of bytes written. The headers are not written, and those of the command
  -- read into stay. This holds for a helper that behaves as documented and a scratch array of 32
  -- bytes.
  pub read-write_tb_remoting :
      (b : Bytes) (c : Command) (rest : Bytes)
      → cmd.proto ≡ 13
      → let sent = concat (tb_remoting cmd) ++ blobs cmd in
        (write_command rh b cmd ≡ written sent)
        × (length sent ≡ 14 + length cmd.connection + length cmd.class + length cmd.content)
        × (read_command rh b32 (at rh doc c (sent ++ rest)) ≡ (
          ok (length sent),
          at rh doc
              (record c {
                proto = 13;
                cmdcode = cmd.cmdcode;
                codec = cmd.codec;
                typ = cmd.typ;
                reserved = 0;
                connection = cmd.connection;
                class = cmd.class;
                content = cmd.content;
              })
              rest,
        ))
  read-write_tb_remoting b c rest p =
      let count : length (concat (tb_remoting cmd) ++ blobs cmd)
          ≡ 14 + length cmd.connection + length cmd.class + length cmd.content =
        omega (
          arith,
          length-append cmd.connection (cmd.class ++ cmd.content),
          length-append cmd.class cmd.content,
        ) in
      (
        write_command-layout rh doc b cmd
            ∙ rw (not_v1 cmd.proto p, not_v2 cmd.proto p, is_tb cmd.proto p),
        count,
        rw
            (
              count,
              append_assoc (concat (tb_remoting cmd)) (blobs cmd) rest,
              append_assoc cmd.connection (cmd.class ++ cmd.content) rest,
              append_assoc cmd.class cmd.content rest,
            )
            (dispatch_tb_remoting rh doc b32 (cmd.proto % 256)
                (block cmd ++ (cmd.connection ++ (cmd.class ++ (cmd.content ++ rest)))) c
                (omega (arith, p))
              ∙ read_full (record c { proto = 13; reserved = 0 }) rest),
      )
