-- ===== src/Recycling.antt =====
-- sofabolt/syncpool.go: the pools of requests and of responses. The garbage collector may empty them
-- at any time. An object is here the values that it holds: the slots that its header map keeps behind, and
-- the arrays that these may share, are in SimpleMap.Store. Contexts are in Client.Pooled, and StateConns in Server.Serving.
pub mod Anew
use sofa_bolt_go.Base.{ℕ, ◌≡◌, refl, sym, ap, ◌∙◌, Option, none, some, List, [], ◌∷◌, Bytes}
use sofa_bolt_go.SimpleMap
use sofa_bolt_go.Command.{
  Command, zero_command, proto_bolt_v1, type_bolt_request, type_bolt_response,
}
use sofa_bolt_go.Request
use sofa_bolt_go.Request.{Request}
use sofa_bolt_go.Response
use sofa_bolt_go.Response.{Response, cmdcode_bolt_response}

abbrev cmdcode_bolt_request : ℕ
cmdcode_bolt_request = 1

abbrev codec_hessian2 : ℕ
codec_hessian2 = 1

-- `&Request{}`.
abbrev pub new_request : Request
new_request = record { command = zero_command; tbconn = none }

abbrev pub new_response : Response
new_response = record { command = zero_command; tbconn = none }

-- `AcquireRequest`, behind `Get`.
unfoldable pub acquire_request : Request → Request
acquire_request req = record req {
  command = record (req.command) {
    proto = proto_bolt_v1;
    cmdcode = cmdcode_bolt_request;
    typ = type_bolt_request;
    codec = codec_hessian2;
  };
}

unfoldable pub acquire_response : Response → Response
acquire_response res = record res {
  command = record (res.command) {
    proto = proto_bolt_v1;
    cmdcode = cmdcode_bolt_response;
    typ = type_bolt_response;
    codec = codec_hessian2;
  };
}

module _ {A : Type 0} where
  -- `ReleaseRequest` and `ReleaseResponse`, by their `Reset`.
  abbrev pub release : (A → A) → A → List A → List A
  release reset di pool = reset di ∷ pool

  -- `Get` of a pool takes any of its objects, or is given a new one.
  pub data Taken (new x : A) : List A → List A → Type 0 where
    made : (pool : List A) → x ≡ new → Taken new x pool pool
    here : (pool : List A) → Taken new x (x ∷ pool) pool
    there : (y : A) (pool rest : List A) → Taken new x pool rest → Taken new x (y ∷ pool) (y ∷ rest)

  -- What a pool comes to, by any objects released and any taken out.
  pub data Recycled (new : A) (reset : A → A) : List A → Type 0 where
    start : Recycled new reset []
    put :
        (di : A) (pool : List A)
        → Recycled new reset pool
        → Recycled new reset (release reset di pool)
    get :
        (x : A) (pool rest : List A)
        → Recycled new reset pool
        → Taken new x pool rest
        → Recycled new reset rest

abbrev pub release_request : (Option ℕ → Option ℕ) → Request → List Request → List Request
release_request reset_object = release (Request.reset reset_object)

abbrev pub release_response : Response → List Response → List Response
release_response = release Response.reset
