-- ===== src/Server/Loop.antt =====
-- The loop of a connection against its session.
use sofa_bolt_go.Base.{ℕ, ◌≡◌, sym, false, Option, List, [], ◌∷◌, Bytes, Option-cases, inl, inr}
use sofa_bolt_go.ReadHelper.{ReadHelper, IsDocumented}
use sofa_bolt_go.Request.{Request}
use sofa_bolt_go.Server.{Handler, Conn, Options, Input, got, broken, round, serve_loop}
use sofa_bolt_go.Server.Responses.{KeepsKind, IsReliable}
use sofa_bolt_go.Server.Session.{Session, idle, last, next, AreBolt}
use sofa_bolt_go.Server.Turns.{round_turn}

first_AreBolt :
    {E : Type 0} (i : Input E) (is : List (Input E))
    → AreBolt (i ∷ is)
    → AreBolt (i ∷ []) × AreBolt is
first_AreBolt (got hs nr req now e) is (bolt, more) = ((bolt, tt), more)
first_AreBolt (broken hs e) is more = (tt, more)

module _ (rh : ReadHelper) (doc : IsDocumented rh) {E : Type 0}
    (encode : Option ℕ → Option E × Bytes) (accept : List Bytes → Bytes → ℕ × Option E)
    (reliable : IsReliable accept) (o : Options) (sync : o.async ≡ false) (handler : Handler)
    (keeps : (req : Request) → KeepsKind (handler req)) where
  -- In synchronous mode, with a helper that behaves as documented, a handler that changes no
  -- protocol, type or id of a response, an io.Writer that takes all that it is given, requests of BOLT protocols and a writer for
  -- responses, the loop of `serveConn` goes as a session: the requests are answered one after the
  -- other in the order in which they arrive, each by one response with its protocol and id if its
  -- handler writes and by none otherwise, and before the next is read. It ends at a failed read, an
  -- error of a hook or a flush that may give one, a request of a type that is not served, or a
  -- handler that takes the connection over, and at nothing else.
  pub serve_loop-Session :
      (is : List (Input E)) (k : Conn E)
      → AreBolt is
      → k.rw.res.command.typ ≡ 0
      → Session handler is k.rw.out
          (serve_loop rh encode accept o handler is k).0
          (serve_loop rh encode accept o handler is k).1.rw.out
  unfolding serve_loop
  serve_loop-Session [] k bolt typ = idle k.rw.out
  serve_loop-Session (i ∷ is) k bolt typ =
      let (bolt_i, bolt_is) = first_AreBolt i is bolt in
      let (typ', turn) =
        round_turn rh doc encode accept reliable o sync handler keeps i k bolt_i typ in
      elim (Option-cases (round rh encode accept o handler i k).0) [
        | inr (x, end) ↦ rw (serve_loop, end) (last i is k.rw.out _ x (rw (sym end) turn))
        | inl on ↦
            rw (serve_loop, on)
              (next i is k.rw.out _ _ _ (rw (sym on) turn)
                (serve_loop-Session is (round rh encode accept o handler i k).1 bolt_is typ'))
      ]
