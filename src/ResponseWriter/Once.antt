-- ===== src/ResponseWriter/Once.antt =====
-- The guard of `Write` against a second response.
use sofa_bolt_go.Base.{
  ℕ, ◌≡◌, ◌<◌, refl, Option, some, List, [], Bytes, ltb, lt→ltb, true, arith, Bool-cases, inl, inr,
}
use sofa_bolt_go.ReadHelper.{ReadHelper}
use sofa_bolt_go.Command.Write.{written, malformed_proto, malformed_type, panicked}
use sofa_bolt_go.Request.{RequestWritten, encode_error, command_written}
use sofa_bolt_go.Response
use sofa_bolt_go.Response.{Response}
use sofa_bolt_go.ResponseWriter.{SofaResponseWriter, send, write, duplicated}

module _ (rh : ReadHelper) {E : Type 0} (encode : Option ℕ → Option E × Bytes)
    (accept : List Bytes → Bytes → ℕ × Option E) where
  send-numwrite :
      (w : SofaResponseWriter E) (v : RequestWritten E)
      → 0 < (send rh encode accept w v).0
      → (send rh encode accept w v).2.numwrite ≡ (send rh encode accept w v).0
  unfolding send
  send-numwrite w (encode_error e) h = absurd (omega arith)
  send-numwrite w (command_written (written bs)) h = refl
  send-numwrite w (command_written malformed_proto) h = absurd (omega arith)
  send-numwrite w (command_written malformed_type) h = absurd (omega arith)
  send-numwrite w (command_written panicked) h = absurd (omega arith)

  write-numwrite :
      (w : SofaResponseWriter E)
      → 0 < (write rh encode accept w).0
      → (write rh encode accept w).2.numwrite ≡ (write rh encode accept w).0
  unfolding write
  write-numwrite w = elim (Bool-cases (ltb 0 w.numwrite)) [
    | inl before ↦ rw before (λ h. absurd (omega arith))
    | inr first ↦ rw first (send-numwrite w (Response.write rh encode [] w.res))
  ]

  refused :
      (v : SofaResponseWriter E)
      → ltb 0 v.numwrite ≡ true
      → write rh encode accept v ≡ (0, some duplicated, v)
  unfolding write
  refused v e = rw e refl

  -- Once a `Write` has written something, a further one is refused as a duplicate and writes
  -- nothing, whatever the handler does to the response in between.
  pub write-write :
      (w : SofaResponseWriter E) (res : Response)
      → 0 < (write rh encode accept w).0
      → write rh encode accept (record ((write rh encode accept w).2) { res = res })
        ≡ (0, some duplicated, record ((write rh encode accept w).2) { res = res })
  write-write w res h =
      refused (record ((write rh encode accept w).2) { res = res })
        (lt→ltb 0 _ (omega (arith, h, write-numwrite w h)))
