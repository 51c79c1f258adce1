-- ===== src/Server/Responses.antt =====
-- What a handler may leave in the response that it is given, and the layouts of such responses.
use sofa_bolt_go.Base.{
  ℕ, ◌<◌, ◌≡◌, refl, ◌∙◌, ap, Bool, true, false, ◌||◌, Option, none, List, [], ◌∷◌, ◌++◌, Bytes,
  ◌==◌, length, arith, Bool-cases, inl, inr,
}
use sofa_bolt_go.Command.{Command, is_bolt_request}
use sofa_bolt_go.Command.Wire.{concat, body, with_crc, response_v1, response_v2}
use sofa_bolt_go.Command.Size.{length-with_crc}
use sofa_bolt_go.Command.Write.{written}
use sofa_bolt_go.Command.Write.Layout.{layout}
use sofa_bolt_go.Request
use sofa_bolt_go.Request.{Request, RequestWritten, command_written}
use sofa_bolt_go.Response
use sofa_bolt_go.Response.{Response}
use sofa_bolt_go.ResponseWriter
use sofa_bolt_go.ResponseWriter.{SofaResponseWriter, WriteError, send, derive_response}
use sofa_bolt_go.Server.{Action, edit, write_response, take_over, is_served, expects_response}

abbrev pub is_bolt : ℕ → Bool
is_bolt p = p == 0 || p == 1 || p == 2

-- The handler changes no protocol, type or id of a response.
abbrev pub KeepsKind : List Action → Type 0
KeepsKind [] = Unit
KeepsKind (edit f ∷ more) =
    ((r : Response)
      → ((f r).command.proto ≡ r.command.proto)
        × ((f r).command.typ ≡ r.command.typ)
        × ((f r).command.rid ≡ r.command.rid))
    × KeepsKind more
KeepsKind (write_response ∷ more) = KeepsKind more
KeepsKind (take_over ∷ more) = KeepsKind more

-- The handler calls `Write`.
abbrev pub writes : List Action → Bool
writes [] = false
writes (edit f ∷ more) = writes more
writes (write_response ∷ more) = true
writes (take_over ∷ more) = writes more

-- The handler calls `Hijack`.
abbrev pub takes : List Action → Bool
takes [] = false
takes (edit f ∷ more) = takes more
takes (write_response ∷ more) = takes more
takes (take_over ∷ more) = true

-- One response in the layout of the protocol `p`, with the id `r`, behind what was given to the
-- io.Writer before, or nothing.
abbrev pub Answer : Bool → ℕ → ℕ → List Bytes → List Bytes → Type 0
Answer true p r out out' =
    (res : Command) × (bs : Bytes) × (layout res ≡ written bs)
    × (res.proto ≡ p)
    × (res.typ ≡ 0)
    × (res.rid ≡ r)
    × (out' ≡ bs ∷ out)
Answer false p r out out' = out' ≡ out

-- The io.Writer takes all that it is given.
abbrev pub IsReliable : {E : Type 0} → (List Bytes → Bytes → ℕ × Option E) → Type 0
IsReliable accept = (out : List Bytes) (bs : Bytes) → accept out bs ≡ (length bs, none)

pub record IsKind (p r : ℕ) (c : Command) : Type 0 where
  pub proto : c.proto ≡ p
  pub typ : c.typ ≡ 0
  pub rid : c.rid ≡ r

pub with_crc-nonempty : (c : Command) (bs : Bytes) → 0 < length bs → 0 < length (with_crc c bs)
with_crc-nonempty c bs h = omega (arith, length-with_crc c bs)

pub edited :
    (p r : ℕ) (f : Response → Response) (res : Response)
    → ((x : Response)
        → ((f x).command.proto ≡ x.command.proto)
          × ((f x).command.typ ≡ x.command.typ)
          × ((f x).command.rid ≡ x.command.rid))
    → IsKind p r res.command
    → IsKind p r (f res).command
edited p r f res same kind = record {
  proto = (same res).0 ∙ kind.proto;
  typ = (same res).1 ∙ kind.typ;
  rid = (same res).2 ∙ kind.rid;
}

pub hijack_keeps :
    {E : Type 0} (w : SofaResponseWriter E)
    → ((ResponseWriter.hijack w).1.res ≡ w.res)
      × ((ResponseWriter.hijack w).1.numwrite ≡ w.numwrite)
      × ((ResponseWriter.hijack w).1.out ≡ w.out)
unfolding ResponseWriter.hijack
hijack_keeps w = elim (Bool-cases w.hijacked) [
  | inl on ↦ rw on (refl, refl, refl)
  | inr off ↦ rw off (refl, refl, refl)
]

pub derived-IsKind :
    {E : Type 0} (req : Request) (w : SofaResponseWriter E)
    → w.res.command.typ ≡ 0
    → IsKind req.command.proto
        (Request.get_request_id req)
        (ResponseWriter.derive req (ResponseWriter.reset w)).res.command
unfolding ResponseWriter.derive ResponseWriter.reset derive_response Response.reset
    Response.set_request_id
derived-IsKind req w typ = record { proto = refl; typ = typ; rid = refl }

pub derived_keeps :
    {E : Type 0} (req : Request) (w : SofaResponseWriter E)
    → ((ResponseWriter.derive req (ResponseWriter.reset w)).numwrite ≡ 0)
      × ((ResponseWriter.derive req (ResponseWriter.reset w)).out ≡ w.out)
unfolding ResponseWriter.derive ResponseWriter.reset
derived_keeps req w = (refl, refl)

pub served_expects_none : (typ : ℕ) → is_served typ ≡ true → expects_response typ ≡ false
served_expects_none typ h = ground arith

-- A response of a BOLT protocol has a layout, and it is not empty.
pub layout_some :
    (c : Command)
    → is_bolt c.proto ≡ true
    → c.typ ≡ 0
    → (bs : Bytes) × (layout c ≡ written bs) × (0 < length bs)
layout_some c p t = elim (Bool-cases (c.proto == 0 || c.proto == 1)) [
  | inl v1 ↦ (concat (response_v1 c) ++ body c, rw (v1, request, response) refl, omega arith)
  | inr other ↦ (
    with_crc c (concat (response_v2 c) ++ body c),
    rw (other, v2 other, request, response) refl,
    with_crc-nonempty c (concat (response_v2 c) ++ body c) (omega arith),
  )
]
  where
    request : is_bolt_request c.typ ≡ false
    request = ap is_bolt_request t

    response : (c.typ == 0) ≡ true
    response = ap (λ n. n == 0) t

    v2 : (c.proto == 0 || c.proto == 1) ≡ false → (c.proto == 2) ≡ true
    v2 other = ground (arith, p, other)

pub not_tb : (p : ℕ) → is_bolt p ≡ true → (p == 13) ≡ false
not_tb p h = ground arith
