-- ===== src/ClientResponseWriter/Answers.antt =====
-- What a handler of the client finds in its writer, and what its first `Write` does.
use sofa_bolt_go.Base.{
  ℕ, ◌<◌, ◌≡◌, refl, ap, Option, none, some, List, Bytes, [], ◌∷◌, lt→ltb, ◌==◌, arith, Bool-cases,
  inl, inr,
}
use sofa_bolt_go.ReadHelper.{ReadHelper}
use sofa_bolt_go.Command.Write.{written}
use sofa_bolt_go.Request
use sofa_bolt_go.Request.{Request, command_written}
use sofa_bolt_go.Response
use sofa_bolt_go.Response.{Response}
use sofa_bolt_go.ResponseWriter.{duplicated, derived_cmdcode, io_error, latest}
use sofa_bolt_go.ClientResponseWriter.{
  ClientResponseWriter, derive_response, derive, reset, send, write,
}

-- The response is for the request, in its protocol, whatever the writer was used for before.
derived :
    (req : Request) (res : Response) (t : Option ℕ)
    → res.tbconn ≡ t
    → Request.get_request_id req < 4294967296
    → Response.get_request_id (derive_response req res) ≡ Request.get_request_id req
unfolding derive_response Response.set_request_id Response.get_request_id
derived req res none e l = simp e refl
derived req res (some old) e l = elim (Bool-cases (req.command.proto == 13)) [
  | inl tb ↦ simp (e, tb) (omega (arith, l))
  | inr bolt ↦ simp (e, bolt) refl
]

module _ (rh : ReadHelper) {E : Type 0} (encode : Option ℕ → Option E × Bytes)
    (accept : List Bytes → Bytes → ℕ × Option E) where
  first :
      (d : ClientResponseWriter E) (bs : Bytes) (n : ℕ) (e : Option E)
      → d.numwrite ≡ 0
      → Response.write rh encode [] d.res ≡ command_written (written bs)
      → accept d.out bs ≡ (n, e)
      → write rh encode accept d
        ≡ (n, io_error e, record d { out = bs ∷ d.out; numwrite = n; err = latest e d.err })
  unfolding write send
  first d bs n e z w a = simp (z, w, a)

  second :
      (d : ClientResponseWriter E)
      → 0 < d.numwrite
      → write rh encode accept d ≡ (0, some duplicated, d)
  unfolding write
  second d p = simp (lt→ltb 0 d.numwrite p)

  -- For a request with a 32-bit id, where what the read loop prepares can be laid out and the connection
  -- takes at least a byte of it: the response has this id, the protocol of the request, and the code that
  -- belongs to its code, whatever the writer was used for before, and the type that the writer's response
  -- had before; the first `Write` gives it to the connection, and a second one is refused and gives it
  -- nothing.
  pub write-derive :
      (req : Request) (c : ClientResponseWriter E) (bs : Bytes) (n : ℕ) (e : Option E)
      → Request.get_request_id req < 4294967296
      → Response.write rh encode [] (derive req (reset c)).res ≡ command_written (written bs)
      → accept c.out bs ≡ (n, e)
      → 0 < n
      → (Response.get_request_id (derive req (reset c)).res ≡ Request.get_request_id req)
        × ((derive req (reset c)).res.command.proto ≡ req.command.proto)
        × ((derive req (reset c)).res.command.cmdcode ≡ derived_cmdcode req.command.cmdcode)
        × ((derive req (reset c)).res.command.typ ≡ c.res.command.typ)
        × ((write rh encode accept (derive req (reset c))).2.out ≡ bs ∷ c.out)
        × (write rh encode accept (write rh encode accept (derive req (reset c))).2
            ≡ (0, some duplicated, (write rh encode accept (derive req (reset c))).2))
  unfolding derive reset Response.reset derive_response Response.set_request_id
  write-derive req c bs n e l w a p =
      let once = first (derive req (reset c)) bs n e refl w a in
      (
        derived req (Response.reset c.res) c.res.tbconn refl l,
        refl,
        refl,
        refl,
        ap (λ r. r.2.out) once,
        rw once (second _ p),
      )
