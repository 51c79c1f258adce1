-- ===== src/Server/TakenOver.antt =====
-- Who takes a connection over.
use sofa_bolt_go.Base.{
  ℕ, ◌≡◌, refl, ◌∙◌, sym, ap, Bool, true, false, ◌||◌, Option, List, [], ◌∷◌, Bytes, ltb,
  Bool-cases, inl, inr,
}
use sofa_bolt_go.ReadHelper.{ReadHelper, IsDocumented}
use sofa_bolt_go.Command.Write.{written, malformed_proto, malformed_type, panicked}
use sofa_bolt_go.Request.{Request, RequestWritten, encode_error, command_written}
use sofa_bolt_go.Response
use sofa_bolt_go.ResponseWriter
use sofa_bolt_go.ResponseWriter.{SofaResponseWriter, send}
use sofa_bolt_go.Server.{
  Action, edit, write_response, take_over, Handler, ServerMetrics, act_all, handle_command_sync,
  is_served,
}
use sofa_bolt_go.Server.Responses.{takes, IsReliable}
use sofa_bolt_go.Server.Answers.{handled}

or_true : (b : Bool) → (b || true) ≡ true
or_true true = refl
or_true false = refl

or_false : (b : Bool) → (b || false) ≡ b
or_false true = refl
or_false false = refl

hijack-hijacked :
    {E : Type 0} (w : SofaResponseWriter E) → (ResponseWriter.hijack w).1.hijacked ≡ true
unfolding ResponseWriter.hijack
hijack-hijacked w = elim (Bool-cases w.hijacked) [ inl on ↦ simp on | inr off ↦ rw off refl ]

derive-hijacked :
    {E : Type 0} (req : Request) (w : SofaResponseWriter E)
    → (ResponseWriter.derive req (ResponseWriter.reset w)).hijacked ≡ false
unfolding ResponseWriter.derive ResponseWriter.reset
derive-hijacked req w = refl

module _ (rh : ReadHelper) {E : Type 0} (encode : Option ℕ → Option E × Bytes)
    (accept : List Bytes → Bytes → ℕ × Option E) where
  send-hijacked :
      (w : SofaResponseWriter E) (v : RequestWritten E)
      → (send rh encode accept w v).2.hijacked ≡ w.hijacked
  unfolding send
  send-hijacked w (encode_error e) = refl
  send-hijacked w (command_written (written bs)) = refl
  send-hijacked w (command_written malformed_proto) = refl
  send-hijacked w (command_written malformed_type) = refl
  send-hijacked w (command_written panicked) = refl

  write-hijacked :
      (w : SofaResponseWriter E) → (ResponseWriter.write rh encode accept w).2.hijacked ≡ w.hijacked
  unfolding ResponseWriter.write
  write-hijacked w = elim (Bool-cases (ltb 0 w.numwrite)) [
    | inl before ↦ rw before refl
    | inr first ↦ rw first (send-hijacked w (Response.write rh encode [] w.res))
  ]

  act_all-hijacked :
      (acts : List Action) (w : SofaResponseWriter E)
      → (act_all rh encode accept acts w).hijacked ≡ (w.hijacked || takes acts)
  unfolding act_all
  act_all-hijacked [] w = sym (or_false w.hijacked)
  act_all-hijacked (edit f ∷ acts) w = act_all-hijacked acts (record w { res = f w.res })
  act_all-hijacked (write_response ∷ acts) w =
      act_all-hijacked acts (ResponseWriter.write rh encode accept w).2
      ∙ ap (λ b. b || takes acts) (write-hijacked w)
  act_all-hijacked (take_over ∷ acts) w =
      act_all-hijacked acts (ResponseWriter.hijack w).1
      ∙ ap (λ b. b || takes acts) (hijack-hijacked w)
      ∙ sym (or_true w.hijacked)

module _ (rh : ReadHelper) (doc : IsDocumented rh) {E : Type 0}
    (encode : Option ℕ → Option E × Bytes) (accept : List Bytes → Bytes → ℕ × Option E)
    (reliable : IsReliable accept) where
  pub handle_command_sync-hijacked :
      (handler : Handler) (req : Request) (w : SofaResponseWriter E) (m : ServerMetrics)
      → is_served req.command.typ ≡ true
      → (handle_command_sync rh encode accept handler req (w, m)).0.hijacked ≡ takes (handler req)
  handle_command_sync-hijacked handler req w m h =
      ap (λ (v : SofaResponseWriter E). v.hijacked)
        (handled rh doc encode accept reliable handler req w m h)
      ∙ act_all-hijacked rh encode accept (handler req)
          (ResponseWriter.derive req (ResponseWriter.reset w))
      ∙ ap (λ b. b || takes (handler req)) (derive-hijacked req w)
