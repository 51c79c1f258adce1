-- ===== src/Client/Invariant.antt =====
-- What holds of the client between two steps: of each context, of the table, and of the context
-- that the read loop is about to tell.
use sofa_bolt_go.Base.{ℕ, ◌≡◌, Bool, true, false, Option, none, some, List, [], ◌∷◌, ◌==◌}
use sofa_bolt_go.Request
use sofa_bolt_go.Request.{Request}
use sofa_bolt_go.Response.{Response}
use sofa_bolt_go.Client.{
  Client, InvokeContext, Phase, starting, checking, numbering, adding, writing, removing, waiting,
  returned, sent, answered, failed, Reader, reading, delivering, closing, storing, stopped,
}

-- No entry has the key `r`.
abbrev pub Absent : ℕ → List (ℕ × ℕ) → Type 0
Absent r [] = Unit
Absent r ((k, i) ∷ xs) = ((k == r) ≡ false) × Absent r xs

-- No entry leads to the context at `j`.
abbrev pub NotTarget : ℕ → List (ℕ × ℕ) → Type 0
NotTarget j [] = Unit
NotTarget j ((k, i) ∷ xs) = ((j == i) ≡ false) × NotTarget j xs

module _ {E : Type 0} where
  abbrev pub request_id : InvokeContext E → ℕ
  request_id c = Request.get_request_id c.req

  -- Behind `addRequestContext`, if the request has come so far.
  abbrev pub is_registered : Phase E → Bool
  is_registered starting = false
  is_registered checking = false
  is_registered numbering = false
  is_registered (adding rid dst) = false
  is_registered (writing rid dst) = true
  is_registered (removing rid result) = true
  is_registered (waiting rid) = true
  is_registered (returned result) = true

  -- A context that waits to be told: nothing was reported, and the key is the id of its request.
  pub record IsPending (c : InvokeContext E) (r : ℕ) : Type 0 where
    pub registered : is_registered c.phase ≡ true
    pub untold : c.calls ≡ []
    pub silent : c.err_ch ≡ []
    pub key : request_id c ≡ r

  -- A report is an error, or a response with the id of the request.
  abbrev pub CallMatches : ℕ → Option E × Option Response → Type 0
  CallMatches rid (err, none) = Unit
  CallMatches rid (err, some res) = res.command.rid ≡ rid

  -- Nil on the channel says that `ires` has the id of the request.
  abbrev pub NewsMatches : ℕ → Response → Option E → Type 0
  NewsMatches rid ires none = ires.command.rid ≡ rid
  NewsMatches rid ires (some e) = Unit

  -- At most one report, and at most one of it on the channel.
  abbrev pub History : ℕ → Response → List (Option E × Option Response) → List (Option E) → Type 0
  History rid ires [] [] = Unit
  History rid ires [] (v ∷ vs) = ⊥
  History rid ires (call ∷ []) [] = CallMatches rid call
  History rid ires (call ∷ []) (v ∷ []) = CallMatches rid call × NewsMatches rid ires v
  History rid ires (call ∷ []) (v ∷ u ∷ vs) = ⊥
  History rid ires (call ∷ call' ∷ calls) vs = ⊥

  -- The id kept before `addRequestContext`, and the response behind an answer.
  abbrev pub PhaseMatches : ℕ → Response → Phase E → Type 0
  PhaseMatches id res starting = Unit
  PhaseMatches id res checking = Unit
  PhaseMatches id res numbering = Unit
  PhaseMatches id res (adding rid dst) = id ≡ rid
  PhaseMatches id res (writing rid dst) = Unit
  PhaseMatches id res (removing rid sent) = Unit
  PhaseMatches id res (removing rid answered) = ⊥
  PhaseMatches id res (removing rid (failed e)) = Unit
  PhaseMatches id res (waiting rid) = Unit
  PhaseMatches id res (returned sent) = Unit
  PhaseMatches id res (returned answered) = res.command.rid ≡ id
  PhaseMatches id res (returned (failed e)) = Unit

  pub record IsSane (c : InvokeContext E) : Type 0 where
    pub early : is_registered c.phase ≡ false → (c.calls ≡ []) × (c.err_ch ≡ [])
    pub history : History (request_id c) c.ires c.calls c.err_ch
    pub phase : PhaseMatches (request_id c) c.res c.phase

  -- Every entry leads to a context that waits to be told under its key, and the keys are distinct.
  abbrev pub Entries : (ℕ → InvokeContext E) → List (ℕ × ℕ) → Type 0
  Entries f [] = Unit
  Entries f ((r, i) ∷ xs) = IsPending (f i) r × Absent r xs × Entries f xs

  -- The context that the loop is about to tell is out of the table, and waits for this response.
  abbrev pub Held : (ℕ → InvokeContext E) → List (ℕ × ℕ) → Reader E → Type 0
  Held f xs reading = Unit
  Held f xs (delivering i res) = NotTarget i xs × IsPending (f i) res.command.rid
  Held f xs (closing e) = Unit
  Held f xs (storing e) = Unit
  Held f xs stopped = Unit

  pub record Consistent (f : ℕ → InvokeContext E) (xs : List (ℕ × ℕ)) (reader : Reader E)
      : Type 0 where
    pub contexts : (i : ℕ) → IsSane (f i)
    pub requests : Entries f xs
    pub held : Held f xs reader

  abbrev pub IsConsistent : Client E → Type 0
  IsConsistent w = Consistent w.contexts w.requests w.reader
