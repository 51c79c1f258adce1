-- ===== src/Recycling/Anew.antt =====
-- Requests and responses that the pools give out, against new ones.
use sofa_bolt_go.Base.{ℕ, ◌≡◌, refl, sym, subst, Option, none, List, [], ◌∷◌, Bytes, ◌⊎◌, inl, inr}
use sofa_bolt_go.SimpleMap
use sofa_bolt_go.Command
use sofa_bolt_go.Command.{zero_command, proto_bolt_v1, type_bolt_request, type_bolt_response}
use sofa_bolt_go.Request
use sofa_bolt_go.Request.{Request}
use sofa_bolt_go.Response
use sofa_bolt_go.Response.{Response}
use sofa_bolt_go.Recycling.{
  new_request, new_response, acquire_request, acquire_response, Taken, made, here, there, Recycled,
  start, put, get,
}

module _ {A : Type 0} (new : A) (reset : A → A) where
  abbrev WasReset : A → Type 0
  WasReset x = (x ≡ new) ⊎ ((y : A) × (x ≡ reset y))

  abbrev AreReset : List A → Type 0
  AreReset [] = Unit
  AreReset (x ∷ xs) = WasReset x × AreReset xs

  Taken-WasReset :
      (x : A) (pool rest : List A)
      → Taken new x pool rest
      → AreReset pool
      → WasReset x × AreReset rest
  Taken-WasReset x pool _ (made _ e) h = (inl e, h)
  Taken-WasReset x _ rest (here _) (w, h) = (w, h)
  Taken-WasReset x _ _ (there y pool rest t) (w, h) =
      let (v, k) = Taken-WasReset x pool rest t h in (v, (w, k))

  Recycled-AreReset : (pool : List A) → Recycled new reset pool → AreReset pool
  Recycled-AreReset _ start = tt
  Recycled-AreReset _ (put di pool r) = (inr (di, refl), Recycled-AreReset pool r)
  Recycled-AreReset _ (get x pool rest r t) =
      (Taken-WasReset x pool rest t (Recycled-AreReset pool r)).1

  -- What is so of a new object and of any that was reset is so of what a pool gives out.
  taken-holds :
      (P : A → Type 0)
      → P new
      → ((y : A) → P (reset y))
      → (x : A) (pool rest : List A) → Recycled new reset pool
      → Taken new x pool rest
      → P x
  taken-holds P n p x pool rest r t =
      elim (Taken-WasReset x pool rest t (Recycled-AreReset pool r)).0 [
        | inl e ↦ subst P (sym e) n
        | inr w ↦ subst P (sym w.1) (p w.0)
      ]

-- A request without content, its headers empty but for a flat copy of old ones.
abbrev pub as_new_request : Bytes → Request
as_new_request raw = record {
  command = record (zero_command) {
    proto = proto_bolt_v1;
    typ = type_bolt_request;
    cmdcode = 1;
    codec = 1;
    headers = record (SimpleMap.empty) { raw = raw };
  };
  tbconn = none;
}

abbrev pub as_new_response : Bytes → Option ℕ → Response
as_new_response raw tbconn = record {
  command = record (zero_command) {
    proto = proto_bolt_v1;
    typ = type_bolt_response;
    cmdcode = 2;
    codec = 1;
    headers = record (SimpleMap.empty) { raw = raw };
  };
  tbconn = tbconn;
}

abbrev IsAsNew : Request → Type 0
IsAsNew req = acquire_request req ≡ as_new_request req.command.headers.raw

new-IsAsNew : IsAsNew new_request
unfolding acquire_request zero_command SimpleMap.empty
new-IsAsNew = refl

module _ (reset_object : Option ℕ → Option ℕ)
    (resets : (t : Option ℕ) → reset_object t ≡ none) where
  reset-IsAsNew : (y : Request) → IsAsNew (Request.reset reset_object y)
  unfolding acquire_request Request.reset Command.reset SimpleMap.reset zero_command SimpleMap.empty
  reset-IsAsNew y = rw (resets y.tbconn) refl

  -- Where the object's `Reset` leaves it without a context: what a request holds that the pool gives out,
  -- whatever requests were released to it and taken out before, is what a new one holds, but for the flat
  -- copy of the headers. The slots behind those of its header map are no part of this.
  pub acquire_request-values :
      (req : Request) (pool rest : List Request)
      → Recycled new_request (Request.reset reset_object) pool
      → Taken new_request req pool rest
      → acquire_request req ≡ as_new_request req.command.headers.raw
  acquire_request-values =
      taken-holds new_request (Request.reset reset_object) IsAsNew new-IsAsNew reset-IsAsNew

abbrev IsAsNewResponse : Response → Type 0
IsAsNewResponse res = acquire_response res ≡ as_new_response res.command.headers.raw res.tbconn

new-IsAsNewResponse : IsAsNewResponse new_response
unfolding acquire_response zero_command SimpleMap.empty
new-IsAsNewResponse = refl

reset-IsAsNewResponse : (y : Response) → IsAsNewResponse (Response.reset y)
unfolding acquire_response Response.reset Command.reset SimpleMap.reset zero_command SimpleMap.empty
reset-IsAsNewResponse y = refl

-- What a response holds that the pool gives out is what a new one holds, but for the flat copy of its headers and for
-- its object, which may be that of an earlier response.
pub acquire_response-values :
    (res : Response) (pool rest : List Response)
    → Recycled new_response Response.reset pool
    → Taken new_response res pool rest
    → acquire_response res ≡ as_new_response res.command.headers.raw res.tbconn
acquire_response-values =
    taken-holds new_response Response.reset IsAsNewResponse new-IsAsNewResponse
      reset-IsAsNewResponse
