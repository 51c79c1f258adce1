-- ===== src/Request/Carried.antt =====
-- A TBRemoting request keeps its object on the way through `Write` and `Read`.
use sofa_bolt_go.Base.{
  ℕ, ◌≡◌, refl, sym, ap, ◌∙◌, true, Option, none, some, Bytes, ◌++◌, ◌==◌, length, arith,
}
use sofa_bolt_go.ReadHelper.{ReadHelper, IsDocumented}
use sofa_bolt_go.Command.Wire.{concat, tb_remoting}
use sofa_bolt_go.Command.Write.{written, write_command}
use sofa_bolt_go.Command.Read.Monad.{ok}
use sofa_bolt_go.Command.RoundTrip.TbRemoting.{FitsTbRemoting, read-write_tb_remoting}
use sofa_bolt_go.Request.{Request, command_written, write, get_request_id}
use sofa_bolt_go.Request.Reading.{read_request, object_read}

is_tb : (proto : ℕ) → proto ≡ 13 → (proto == 13) ≡ true
is_tb proto p = ground arith

same_id :
    (c q : Request) (id : ℕ)
    → c.command.proto ≡ 13
    → c.tbconn ≡ some id
    → q.command.proto ≡ 13
    → q.tbconn ≡ some id
    → get_request_id c ≡ get_request_id q
unfolding get_request_id
same_id c q id p o p' o' = simp (o, o', is_tb c.command.proto p, is_tb q.command.proto p')

module _ (rh : ReadHelper) (doc : IsDocumented rh) (b32 : Bytes) (size : length b32 ≡ 32)
    (encode : Option ℕ → Option rh.IoError × Bytes)
    (decode : Bytes → Option ℕ → Option (Option ℕ)) where
  write-encoded :
      (q : Request) (b buf : Bytes)
      → q.command.proto ≡ 13
      → encode q.tbconn ≡ (none, buf)
      → write rh encode b q
        ≡ command_written (write_command rh b (record (q.command) { connection = buf }))
  unfolding write
  write-encoded q b buf p e = simp (is_tb q.command.proto p, e)

  -- A TBRemoting request whose object has a context, and is encoded without an error, where what fits the wire fits, and
  -- where the decoder gives the object of these bytes back: `Write` does not fail, and `Read` of what
  -- it wrote, followed by anything, into any request returns the number of bytes and gives a request
  -- with the same object, the same id, and the same command code, class and content. It reads no byte
  -- behind. This holds for a helper that behaves as documented and a scratch array of 32 bytes.
  pub read_request-write :
      (q c : Request) (b buf rest : Bytes) (id : ℕ)
      → q.command.proto ≡ 13
      → q.tbconn ≡ some id
      → encode q.tbconn ≡ (none, buf)
      → ((t : Option ℕ) → decode buf t ≡ some (some id))
      → FitsTbRemoting (record (q.command) { connection = buf })
      → (bs : Bytes) × (c' : Request) × (write rh encode b q ≡ command_written (written bs))
        × (read_request rh decode b32 c (doc.stream (bs ++ rest))
            ≡ (ok (length bs), c', doc.stream rest))
        × (c'.tbconn ≡ q.tbconn)
        × (get_request_id c' ≡ get_request_id q)
        × (c'.command.cmdcode ≡ q.command.cmdcode)
        × (c'.command.class ≡ q.command.class)
        × (c'.command.content ≡ q.command.content)
  unfolding read_request object_read
  read_request-write q c b buf rest id p o e d fits =
      let cmd = record (q.command) { connection = buf } in
      let (sent, count, back) =
        read-write_tb_remoting rh doc b32 size cmd fits b c.command rest p in
      (
        concat (tb_remoting cmd) ++ (buf ++ (q.command.class ++ q.command.content)),
        record {
          command = record (c.command) {
            proto = 13;
            cmdcode = q.command.cmdcode;
            codec = q.command.codec;
            typ = q.command.typ;
            reserved = 0;
            connection = buf;
            class = q.command.class;
            content = q.command.content;
          };
          tbconn = some id;
        },
        write-encoded q b buf p e ∙ ap command_written sent,
        rw (back, d c.tbconn) refl,
        sym o,
        same_id _ q id refl refl p o,
        refl,
        refl,
        refl,
      )
