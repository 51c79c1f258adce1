-- ===== src/Server/Answers.antt =====
-- The responses of a connection in synchronous mode.
use sofa_bolt_go.Base.{
  ℕ, ◌<◌, ◌≡◌, refl, ◌∙◌, sym, ap, subst, true, Option, List, [], ◌∷◌, Bytes, ltb, ◌==◌, length,
  Bool-cases, inl, inr, lt→ltb,
}
use sofa_bolt_go.ReadHelper.{ReadHelper, IsDocumented}
use sofa_bolt_go.Command.Write.{written}
use sofa_bolt_go.Command.Write.Layout.{layout, write_command-layout}
use sofa_bolt_go.Request
use sofa_bolt_go.Request.{Request, RequestWritten, command_written}
use sofa_bolt_go.Response
use sofa_bolt_go.Response.{Response}
use sofa_bolt_go.ResponseWriter
use sofa_bolt_go.ResponseWriter.{SofaResponseWriter, WriteError, send, derive_response}
use sofa_bolt_go.Server.{
  Action, edit, write_response, take_over, Handler, ServerMetrics, is_served, act_all, finish,
  serve_command, handle_command_sync, count_command,
}
use sofa_bolt_go.Server.Responses.{
  is_bolt, KeepsKind, writes, Answer, IsReliable, edited, hijack_keeps, derived-IsKind,
  derived_keeps, served_expects_none, layout_some, not_tb, IsKind,
}

module _ (rh : ReadHelper) (doc : IsDocumented rh) {E : Type 0}
    (encode : Option ℕ → Option E × Bytes) (accept : List Bytes → Bytes → ℕ × Option E)
    (reliable : IsReliable accept) where
  response_written :
      (r : Response) (bs : Bytes)
      → is_bolt r.command.proto ≡ true
      → layout r.command ≡ written bs
      → Response.write rh encode [] r ≡ command_written (written bs)
  unfolding Response.write
  response_written r bs p drawn =
      rw (not_tb r.command.proto p)
        (ap command_written (write_command-layout rh doc [] r.command ∙ drawn))

  sent :
      (w : SofaResponseWriter E) (bs : Bytes)
      → (send rh encode accept w (command_written (written bs))).2
        ≡ (record w { out = bs ∷ w.out; numwrite = length bs })
  unfolding send
  sent w bs = simp reliable

  write_unwritten :
      (w : SofaResponseWriter E)
      → w.numwrite ≡ 0
      → ResponseWriter.write rh encode accept w
        ≡ send rh encode accept w (Response.write rh encode [] w.res)
  unfolding ResponseWriter.write
  write_unwritten w z = rw (ap (ltb 0) z) refl

  -- The first `Write` of a response of a BOLT protocol.
  write_first :
      (w : SofaResponseWriter E)
      → w.numwrite ≡ 0
      → is_bolt w.res.command.proto ≡ true
      → w.res.command.typ ≡ 0
      → (bs : Bytes) × (layout w.res.command ≡ written bs)
        × (0 < length bs)
        × ((ResponseWriter.write rh encode accept w).2
            ≡ (record w { out = bs ∷ w.out; numwrite = length bs }))
  write_first w z p t =
      let (bs, drawn, full) = layout_some w.res.command p t in
      (
        bs,
        drawn,
        full,
        ap (λ (x : ℕ × Option (WriteError E) × SofaResponseWriter E). x.2)
              (write_unwritten w z
                ∙ ap (send rh encode accept w) (response_written w.res bs p drawn))
            ∙ sent w bs,
      )

  write_again :
      (w : SofaResponseWriter E) → 0 < w.numwrite → (ResponseWriter.write rh encode accept w).2 ≡ w
  unfolding ResponseWriter.write
  write_again w h = rw (lt→ltb 0 w.numwrite h) refl

  module _ (p r : ℕ) (bolt : is_bolt p ≡ true) where
    -- Behind a write, a handler writes nothing more.
    act_all-written :
        (acts : List Action) (w : SofaResponseWriter E)
        → KeepsKind acts
        → IsKind p r w.res.command
        → 0 < w.numwrite
        → IsKind p r (act_all rh encode accept acts w).res.command
          × ((act_all rh encode accept acts w).out ≡ w.out)
    unfolding act_all ResponseWriter.hijack
    act_all-written [] w keeps kind h = (kind, refl)
    act_all-written (edit f ∷ acts) w (same, keeps) kind h =
        act_all-written acts (record w { res = f w.res }) keeps (edited p r f w.res same kind) h
    act_all-written (write_response ∷ acts) w keeps kind h =
        subst
          (λ v.
            IsKind p r (act_all rh encode accept acts v).res.command
            × ((act_all rh encode accept acts v).out ≡ w.out))
          (sym (write_again w h)) (act_all-written acts w keeps kind h)
    act_all-written (take_over ∷ acts) w keeps kind h =
        let (res, n, out) = hijack_keeps w in
        let (kind', out') =
          act_all-written acts (ResponseWriter.hijack w).1 keeps (rw res kind) (rw n h) in
        (kind', out' ∙ out)

    act_all-unwritten :
        (acts : List Action) (w : SofaResponseWriter E)
        → KeepsKind acts
        → IsKind p r w.res.command
        → w.numwrite ≡ 0
        → IsKind p r (act_all rh encode accept acts w).res.command
          × Answer (writes acts) p r w.out (act_all rh encode accept acts w).out
    unfolding act_all
    act_all-unwritten [] w keeps kind z = (kind, refl)
    act_all-unwritten (edit f ∷ acts) w (same, keeps) kind z =
        act_all-unwritten acts (record w { res = f w.res }) keeps (edited p r f w.res same kind) z
    act_all-unwritten (write_response ∷ acts) w keeps kind z =
        let (bs, drawn, full, e) = write_first w z (rw kind.proto bolt) kind.typ in
        let (kind', out) =
          act_all-written acts (record w { out = bs ∷ w.out; numwrite = length bs }) keeps kind
            full in
        subst
          (λ v.
            IsKind p r (act_all rh encode accept acts v).res.command
            × Answer true p r w.out (act_all rh encode accept acts v).out)
          (sym e) (kind', (w.res.command, bs, drawn, kind.proto, kind.typ, kind.rid, out))
    act_all-unwritten (take_over ∷ acts) w keeps kind z =
        let (res, n, out) = hijack_keeps w in
        subst
          (λ o.
            IsKind p r (act_all rh encode accept acts (ResponseWriter.hijack w).1).res.command
            × Answer (writes acts) p r o
                (act_all rh encode accept acts (ResponseWriter.hijack w).1).out)
          out (act_all-unwritten acts (ResponseWriter.hijack w).1 keeps (rw res kind) (n ∙ z))

  -- The response that would be written in place of none is written to no served request.
  finish_none :
      (req : Request) (w : SofaResponseWriter E) (m : ServerMetrics)
      → is_served req.command.typ ≡ true
      → (finish rh encode accept req (w, m)).0 ≡ w
  unfolding finish
  finish_none req w m h = elim (Bool-cases (w.numwrite == 0)) [
    | inl unwritten ↦ rw (unwritten, served_expects_none req.command.typ h) refl
    | inr full ↦ rw full refl
  ]

  pub handled :
      (handler : Handler) (req : Request) (w : SofaResponseWriter E) (m : ServerMetrics)
      → is_served req.command.typ ≡ true
      → (handle_command_sync rh encode accept handler req (w, m)).0
        ≡ act_all rh encode accept
            (handler req)
            (ResponseWriter.derive req (ResponseWriter.reset w))
  unfolding handle_command_sync serve_command
  handled handler req w m h =
      finish_none req
        (act_all rh encode accept (handler req)
          (ResponseWriter.derive req (ResponseWriter.reset w)))
        (count_command m) h

  -- With a helper that behaves as documented, an io.Writer that takes all that it is given, a writer
  -- for responses, and a handler that changes no protocol, type or id of a response: in synchronous
  -- mode, a request of a BOLT protocol and a served type is answered by exactly one response if its
  -- handler calls `Write`, and by none otherwise. The response is in the layout of the request's
  -- protocol and has the request's id, however often the handler calls `Write`. The writer is still one for
  -- responses.
  pub handle_command_sync-Answer :
      (handler : Handler) (req : Request) (w : SofaResponseWriter E) (m : ServerMetrics)
      → is_bolt req.command.proto ≡ true
      → is_served req.command.typ ≡ true
      → w.res.command.typ ≡ 0
      → KeepsKind (handler req)
      → ((handle_command_sync rh encode accept handler req (w, m)).0.res.command.typ ≡ 0)
        × Answer
            (writes (handler req))
            req.command.proto
            (Request.get_request_id req)
            w.out
            (handle_command_sync rh encode accept handler req (w, m)).0.out
  handle_command_sync-Answer handler req w m bolt h typ keeps =
      let derived = ResponseWriter.derive req (ResponseWriter.reset w) in
      let (numwrite, out) = derived_keeps req w in
      let (kind, answer) =
        act_all-unwritten req.command.proto (Request.get_request_id req) bolt (handler req) derived
          keeps (derived-IsKind req w typ) numwrite in
      let done = sym (handled handler req w m h) in
      (
        ap (λ (v : SofaResponseWriter E). v.res.command.typ) (sym done) ∙ kind.typ,
        subst
            (λ o.
              Answer (writes (handler req)) req.command.proto (Request.get_request_id req) o
                (handle_command_sync rh encode accept handler req (w, m)).0.out)
            out
            (subst
              (λ (v : SofaResponseWriter E).
                Answer (writes (handler req)) req.command.proto (Request.get_request_id req)
                  derived.out v.out)
              done answer),
      )
