-- ===== src/Server/Session.antt =====
-- A connection in synchronous mode as the session that it is meant to be.
use sofa_bolt_go.Base.{ℕ, ◌≡◌, true, false, Option, none, some, List, [], ◌∷◌, Bytes}
use sofa_bolt_go.Request
use sofa_bolt_go.Request.{Request}
use sofa_bolt_go.Server.{
  Handler, Input, got, broken, Ended, waiting, taken_over, failed, not_a_request, io, is_served,
  Hook,
}
use sofa_bolt_go.Server.Responses.{is_bolt, writes, takes, Answer}
use sofa_bolt_go.Server.Hooks.{may_fail}

-- The response to a request, if its handler writes one.
abbrev pub Answered : Handler → Request → List Bytes → List Bytes → Type 0
Answered handler req = Answer (writes (handler req)) req.command.proto (Request.get_request_id req)

-- What one read comes to: with the responses written before and behind it, and whether it ends the
-- session.
pub data Turn {E : Type 0} (handler : Handler)
    : Input E → List Bytes → Option (Ended E) → List Bytes → Type 0 where
  read_failed :
      (hs : List (Hook E)) (e x : E) (out : List Bytes)
      → Turn handler (broken hs e) out (some (failed (io x))) out
  hook_failed :
      (hs : List (Hook E)) (nr : ℕ) (req : Request) (now : ℕ) (e : Option E) (x : E)
      (out : List Bytes)
      → may_fail hs ≡ true
      → Turn handler (got hs nr req now e) out (some (failed (io x))) out
  refused :
      (hs : List (Hook E)) (nr : ℕ) (req : Request) (now : ℕ) (e : Option E) (out : List Bytes)
      → is_served req.command.typ ≡ false
      → Turn handler (got hs nr req now e) out (some (failed not_a_request)) out
  cut_off :
      (hs : List (Hook E)) (nr : ℕ) (req : Request) (now : ℕ) (e : Option E) (x : E)
      (out out' : List Bytes)
      → is_served req.command.typ ≡ true
      → e ≡ some x
      → Answered handler req out out'
      → Turn handler (got hs nr req now e) out (some (failed (io x))) out'
  hijacked :
      (hs : List (Hook E)) (nr : ℕ) (req : Request) (now : ℕ) (e : Option E) (out out' : List Bytes)
      → is_served req.command.typ ≡ true
      → takes (handler req) ≡ true
      → Answered handler req out out'
      → Turn handler (got hs nr req now e) out (some taken_over) out'
  answered :
      (hs : List (Hook E)) (nr : ℕ) (req : Request) (now : ℕ) (e : Option E) (out out' : List Bytes)
      → is_served req.command.typ ≡ true
      → takes (handler req) ≡ false
      → Answered handler req out out'
      → Turn handler (got hs nr req now e) out none out'

-- The turns one after the other, up to one that ends the session.
pub data Session {E : Type 0} (handler : Handler)
    : List (Input E) → List Bytes → Ended E → List Bytes → Type 0 where
  idle : (out : List Bytes) → Session handler [] out waiting out
  last :
      (i : Input E) (is : List (Input E)) (out out' : List Bytes) (x : Ended E)
      → Turn handler i out (some x) out'
      → Session handler (i ∷ is) out x out'
  next :
      (i : Input E) (is : List (Input E)) (out out' out'' : List Bytes) (x : Ended E)
      → Turn handler i out none out'
      → Session handler is out' x out''
      → Session handler (i ∷ is) out x out''

-- The requests are of a BOLT protocol.
abbrev pub AreBolt : {E : Type 0} → List (Input E) → Type 0
AreBolt [] = Unit
AreBolt (got hs nr req now e ∷ is) = (is_bolt req.command.proto ≡ true) × AreBolt is
AreBolt (broken hs e ∷ is) = AreBolt is
