-- ===== src/Tests/Objects.antt =====
-- A TBRemoting request with an object, through `Write` and `Read`.
use sofa_bolt_go.Base.{
  ℕ, ◌<◌, ◌≡◌, refl, arith, List, Option, none, some, Bytes, [], ◌∷◌, ◌++◌, length,
}
use sofa_bolt_go.Command.{zero_command}
use sofa_bolt_go.Command.Write.{written, write_command, write_command_tb_remoting}
use sofa_bolt_go.Command.Read.Monad.{ok}
use sofa_bolt_go.Response
use sofa_bolt_go.Request
use sofa_bolt_go.Command
use sofa_bolt_go.ResponseWriter.{duplicated, derived_cmdcode}
use sofa_bolt_go.ClientResponseWriter
use sofa_bolt_go.ClientResponseWriter.Answers.{write-derive}
use sofa_bolt_go.ClientResponseWriter.{ClientResponseWriter, derive, reset, derive_response}
use sofa_bolt_go.Request.{Request, RequestWritten, write, command_written, get_request_id}
use sofa_bolt_go.Request.Reading.{read_request}
use sofa_bolt_go.Request.Carried.{read_request-write}
use sofa_bolt_go.Tests.Reader.{bytes_reader, bytes_reader-IsDocumented}
use sofa_bolt_go.Tests.Samples.{sample, sample-FitsTbRemoting, scratch}

-- The object is on the wire as what the sample has there.
abbrev encode : Option ℕ → Option (bytes_reader.IoError) × Bytes
encode t = (none, (sample 13 1).connection)

abbrev decode : Bytes → Option ℕ → Option (Option ℕ)
decode bs t = some (some 5)

abbrev request : Request
request = record { command = (sample 13 1); tbconn = some 5 }

abbrev empty_request : Request
empty_request = record { command = zero_command; tbconn = none }

read_request-write_example :
    (bs : Bytes) × (c : Request) × (write bytes_reader encode [] request
      ≡ command_written (written bs))
    × (read_request bytes_reader decode scratch empty_request
          (bytes_reader-IsDocumented.stream (bs ++ (1 ∷ 2 ∷ [])))
        ≡ (ok (length bs), c, bytes_reader-IsDocumented.stream (1 ∷ 2 ∷ [])))
    × (c.tbconn ≡ some 5)
    × (get_request_id c ≡ get_request_id request)
    × (c.command.cmdcode ≡ request.command.cmdcode)
    × (c.command.class ≡ request.command.class)
    × (c.command.content ≡ request.command.content)
read_request-write_example =
    read_request-write bytes_reader bytes_reader-IsDocumented scratch refl encode decode request
      empty_request [] (sample 13 1).connection (1 ∷ 2 ∷ []) 5 refl refl refl (λ t. refl)
      sample-FitsTbRemoting

abbrev no_object : Option ℕ → Option (bytes_reader.IoError) × Bytes
no_object t = (none, [])

-- A request of the server, with the id 5, in the protocol that the sample has.
abbrev asked : Request
asked = record {
  command = record (zero_command) { proto = 13; typ = 1; cmdcode = 13; rid = 5 };
  tbconn = none;
}

abbrev used_writer : ClientResponseWriter (bytes_reader.IoError)
used_writer = record {
  numwrite = 7;
  err = none;
  res = record { command = record (zero_command) { rid = 9 }; tbconn = none };
  out = [];
}

abbrev accept : List Bytes → Bytes → ℕ × Option (bytes_reader.IoError)
accept out bs = (14, none)

abbrev on_the_wire : RequestWritten (bytes_reader.IoError)
on_the_wire = Response.write bytes_reader no_object [] (derive asked (reset used_writer)).res

abbrev answer : Bytes
answer = 13 ∷ 14 ∷ 0 ∷ 0 ∷ 0 ∷ 0 ∷ 0 ∷ 0 ∷ 0 ∷ 0 ∷ 0 ∷ 0 ∷ 0 ∷ 0 ∷ []

answer_written : on_the_wire ≡ command_written (written answer)
unfolding derive derive_response reset Response.reset Response.set_request_id Response.write
    Command.reset Request.get_request_id zero_command write_command write_command_tb_remoting
answer_written = refl

small : get_request_id asked < 4294967296
unfolding Request.get_request_id zero_command
small = omega arith

write-derive_example :
    (Response.get_request_id (derive asked (reset used_writer)).res ≡ get_request_id asked)
    × ((derive asked (reset used_writer)).res.command.proto ≡ 13)
    × ((derive asked (reset used_writer)).res.command.cmdcode ≡ derived_cmdcode 13)
    × ((derive asked (reset used_writer)).res.command.typ ≡ used_writer.res.command.typ)
    × ((ClientResponseWriter.write bytes_reader no_object accept
          (derive asked (reset used_writer))).2.out
        ≡ answer ∷ [])
    × (ClientResponseWriter.write bytes_reader no_object accept
          (ClientResponseWriter.write bytes_reader no_object accept
            (derive asked (reset used_writer))).2
        ≡ (
          0,
          some duplicated,
          (ClientResponseWriter.write bytes_reader no_object accept
              (derive asked (reset used_writer))).2,
        ))
write-derive_example =
    write-derive bytes_reader no_object accept asked used_writer answer 14 none small answer_written
      refl (omega arith)
