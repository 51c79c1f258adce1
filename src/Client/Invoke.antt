-- ===== src/Client/Invoke.antt =====
-- sofabolt/client.go: `invoke`, as the steps of its caller, and the runs of a client.
use sofa_bolt_go.Base.{
  ℕ, ◌+◌, ◌%◌, ◌≡◌, Bool, true, ◌&&◌, Option, none, some, List, [], ◌∷◌, Bytes, ◌==◌, if◌then◌else◌,
}
use sofa_bolt_go.ReadHelper.{ReadHelper}
use sofa_bolt_go.Command.{is_bolt_request, type_bolt_request_one_way}
use sofa_bolt_go.Command.Write.{written, malformed_proto, malformed_type, panicked}
use sofa_bolt_go.Request
use sofa_bolt_go.Request.{Request, RequestWritten, encode_error, command_written}
use sofa_bolt_go.Response
use sofa_bolt_go.Response.{Response}
use sofa_bolt_go.Client.Table.{remove, insert}
use sofa_bolt_go.Client.{
  Client, InvokeContext, Phase, starting, checking, numbering, adding, writing, removing, waiting,
  returned, sent, answered, failed, was_closed, not_a_request, timed_out, malformed, io, Choice,
  Input, put, goto, doread,
}

module _ {E : Type 0} where
  -- Behind `write`.
  unfoldable pub after_write : ℕ → Option E → InvokeContext E → Phase E
  after_write rid (some e) c = removing rid (failed (io e))
  after_write rid none c =
      if c.req.command.typ == type_bolt_request_one_way
      then removing rid sent
      else if c.callback
      then returned sent
      else waiting rid

  -- The `select`: the timer, or what `errCh` holds, and nothing while neither is there.
  unfoldable pub select : ℕ → Bool → InvokeContext E → InvokeContext E
  select rid fired c =
      if c.has_timeout && fired then goto (removing rid (failed timed_out)) c else receive c.err_ch
    where
      receive : List (Option E) → InvokeContext E
      receive [] = c
      receive (some e ∷ vs) = record c { err_ch = vs; phase = returned (failed (io e)) }
      receive (none ∷ vs) = record c {
        err_ch = vs;
        res = Response.copy_to c.ires c.res;
        phase = returned answered;
      }

  -- Where the writing of the request leads.
  unfoldable pub encoded : ℕ → RequestWritten E → Phase E
  encoded rid (encode_error e) = returned (failed (io e))
  encoded rid (command_written (written dst)) = adding rid dst
  encoded rid (command_written malformed_proto) = returned (failed (malformed malformed_proto))
  encoded rid (command_written malformed_type) = returned (failed (malformed malformed_type))
  encoded rid (command_written panicked) = returned (failed (malformed panicked))

  -- The number of the request, the client's counter, and the request with its number.
  unfoldable pub number : Client E → Request → ℕ × ℕ × Request
  number w req =
      if w.disable_auto_increment_request_id
      then (Request.get_request_id req, w.rid, req)
      else (let rid = (w.rid + 1) % 4294967296 in (rid, rid, Request.set_request_id rid req))

module _ (rh : ReadHelper) {E : Type 0} (encode : Option ℕ → Option E × Bytes) where
  unfoldable pub start_numbering : ℕ → Client E → Client E
  start_numbering i w = go (number w (w.contexts i).req)
    where
      go : ℕ × ℕ × Request → Client E
      go (rid, next, req) =
          put i
            (record (w.contexts i) {
              req = req;
              phase = encoded rid (Request.write rh encode [] req);
            })
            (record w { rid = next })

  -- A step of the caller whose context is at `i`.
  unfoldable pub invoke : Choice E → ℕ → Client E → Client E
  invoke choice i w = at (w.contexts i).phase
    where
      c : InvokeContext E
      c = w.contexts i

      at : Phase E → Client E
      at starting = put i (goto (if w.closed then returned (failed was_closed) else checking) c) w
      at checking = check w.rerr
        where
          check : Option E → Client E
          check (some e) = put i (goto (returned (failed (io e))) c) w
          check none =
              put i
                (goto
                  (if is_bolt_request c.req.command.typ
                    then numbering
                    else returned (failed not_a_request))
                  c)
                w
      at numbering = start_numbering i w
      at (adding rid dst) =
          put i (goto (writing rid dst) c) (record w { requests = insert rid i w.requests })
      at (writing rid dst) = put i (goto (after_write rid choice.write_error c) c) w
      at (removing rid result) =
          put i (goto (returned result) c) (record w { requests = remove rid w.requests })
      at (waiting rid) = put i (select rid choice.timer_fired c) w
      at (returned result) = w

  -- A caller moves, the read loop moves, or a user closes the client.
  pub data Step (w : Client E) : Client E → Type 0 where
    caller : (choice : Choice E) (i : ℕ) → Step w (invoke choice i w)
    loop : (input : Input E) (w' : Client E) → doread input w ≡ some w' → Step w w'
    close : Step w (record w { closed = true })

  -- Any number of steps, the last one outermost.
  pub data Run (w : Client E) : Client E → Type 0 where
    done : Run w w
    later : (w' w'' : Client E) → Run w w' → Step w' w'' → Run w w''
