-- ===== src/Server/Turns.antt =====
-- One round of the loop is one turn of a session.
use sofa_bolt_go.Base.{
  ℕ, ◌+◌, ◌≡◌, refl, ◌∙◌, sym, ap, subst, Bool, true, false, Option, none, some, List, [], ◌∷◌,
  Bytes, Option-cases, Bool-cases, inl, inr, if◌then◌else◌,
}
use sofa_bolt_go.ReadHelper.{ReadHelper, IsDocumented}
use sofa_bolt_go.Request.{Request}
use sofa_bolt_go.ResponseWriter.{SofaResponseWriter}
use sofa_bolt_go.Server.{
  Handler, Conn, Options, Input, got, broken, Ended, taken_over, failed, not_a_request, io,
  is_served, handle_command_sync, handle_command, served, round, flush_conn, run_hooks, Hook,
}
use sofa_bolt_go.Server.Responses.{is_bolt, KeepsKind, takes, IsReliable}
use sofa_bolt_go.Server.Answers.{handle_command_sync-Answer}
use sofa_bolt_go.Server.TakenOver.{handle_command_sync-hijacked}
use sofa_bolt_go.Server.Hooks.{flush_conn-rw, flush_conn-error, run_hooks-rw, run_hooks-error}
use sofa_bolt_go.Server.Session.{
  Answered, Turn, read_failed, hook_failed, refused, cut_off, hijacked, answered, AreBolt,
}

module _ (rh : ReadHelper) (doc : IsDocumented rh) {E : Type 0}
    (encode : Option ℕ → Option E × Bytes) (accept : List Bytes → Bytes → ℕ × Option E)
    (reliable : IsReliable accept) (o : Options) (sync : o.async ≡ false) (handler : Handler)
    (keeps : (req : Request) → KeepsKind (handler req)) where
  command : Request → Conn E → Bool × Conn E
  command req k = handle_command rh encode accept o handler req k

  flushed : ℕ → Option E → Request → Conn E → Option E × Conn E
  flushed now e req k = flush_conn o now e (command req k).1

  command-rw :
      (req : Request) (k : Conn E)
      → (command req k).1.rw
        ≡ (handle_command_sync rh encode accept handler req (k.rw, k.metrics)).0
  unfolding command handle_command
  command-rw req k = rw sync refl

  command-takes :
      (req : Request) (k : Conn E)
      → is_served req.command.typ ≡ true
      → (command req k).0 ≡ takes (handler req)
  unfolding command handle_command
  command-takes req k h =
      rw sync
        (handle_command_sync-hijacked rh doc encode accept reliable handler req k.rw k.metrics h)

  counted : ℕ → Conn E → Conn E
  counted nr k = record k {
    metrics = record (k.metrics) { bytes_read = k.metrics.bytes_read + nr };
  }

  -- The answer to a served request, behind the flush.
  flushed-Answered :
      (now : ℕ) (e : Option E) (req : Request) (k : Conn E)
      → is_bolt req.command.proto ≡ true
      → is_served req.command.typ ≡ true
      → k.rw.res.command.typ ≡ 0
      → ((flushed now e req k).1.rw.res.command.typ ≡ 0)
        × Answered handler req k.rw.out (flushed now e req k).1.rw.out
  unfolding flushed
  flushed-Answered now e req k bolt h typ =
      subst
        (λ (w : SofaResponseWriter E).
          (w.res.command.typ ≡ 0) × Answered handler req k.rw.out w.out)
        (sym (flush_conn-rw o now e (command req k).1 ∙ command-rw req k))
        (handle_command_sync-Answer rh doc encode accept reliable handler req k.rw k.metrics bolt h
          typ (keeps req))

  served_refused :
      (nr : ℕ) (req : Request) (now : ℕ) (e : Option E) (k : Conn E)
      → is_served req.command.typ ≡ false
      → served rh encode accept o handler nr req now e k
        ≡ (some (failed not_a_request), counted nr k)
  unfolding served counted
  served_refused nr req now e k h = rw h refl

  served_cut_off :
      (nr : ℕ) (req : Request) (now : ℕ) (e : Option E) (k : Conn E) (x : E)
      → is_served req.command.typ ≡ true
      → (flushed now e req (counted nr k)).0 ≡ some x
      → served rh encode accept o handler nr req now e k
        ≡ (some (failed (io x)), (flushed now e req (counted nr k)).1)
  unfolding served flushed command counted
  served_cut_off nr req now e k x h bad = rw (h, bad) refl

  served_on :
      (nr : ℕ) (req : Request) (now : ℕ) (e : Option E) (k : Conn E)
      → is_served req.command.typ ≡ true
      → (flushed now e req (counted nr k)).0 ≡ none
      → served rh encode accept o handler nr req now e k ≡ (
        if takes (handler req) then some taken_over else none,
        (flushed now e req (counted nr k)).1,
      )
  unfolding served flushed command counted
  served_on nr req now e k h fine = rw (h, fine, sym (command-takes req (counted nr k) h)) refl

  -- What is kept behind a turn.
  abbrev pub TakesTurn : Input E → List Bytes → Option (Ended E) × Conn E → Type 0
  TakesTurn i out (end, k') = (k'.rw.res.command.typ ≡ 0) × Turn handler i out end k'.rw.out

  served_turn :
      (hs : List (Hook E)) (nr : ℕ) (req : Request) (now : ℕ) (e : Option E) (k : Conn E)
      → is_bolt req.command.proto ≡ true
      → k.rw.res.command.typ ≡ 0
      → TakesTurn (got hs nr req now e) k.rw.out (served rh encode accept o handler nr req now e k)
  unfolding counted flushed
  served_turn hs nr req now e k bolt typ = elim (Bool-cases (is_served req.command.typ)) [
    | inr h ↦
        subst (TakesTurn (got hs nr req now e) k.rw.out) (sym (served_refused nr req now e k h))
          (typ, refused hs nr req now e k.rw.out h)
    | inl h ↦ elim (Option-cases (flushed now e req (counted nr k)).0) [
      | inr (x, bad) ↦
          let (typ', answer) = flushed-Answered now e req (counted nr k) bolt h typ in
          subst (TakesTurn (got hs nr req now e) k.rw.out)
            (sym (served_cut_off nr req now e k x h bad))
            (
              typ',
              cut_off hs nr req now e x k.rw.out _ h
                  (flush_conn-error o now e (command req (counted nr k)).1 x bad) answer,
            )
      | inl fine ↦
          let (typ', answer) = flushed-Answered now e req (counted nr k) bolt h typ in
          subst (TakesTurn (got hs nr req now e) k.rw.out) (sym (served_on nr req now e k h fine)) (
            typ',
            elim (Bool-cases (takes (handler req))) [
              | inl on ↦ rw on (hijacked hs nr req now e k.rw.out _ h on answer)
              | inr off ↦ rw off (answered hs nr req now e k.rw.out _ h off answer)
            ],
          )
    ]
  ]

  hooked : List (Hook E) → Conn E → Conn E
  hooked hs k = (run_hooks o hs k).1

  -- A turn that ends before the request is handled.
  early :
      (hs : List (Hook E)) (i : Input E) (k : Conn E) (x : E)
      → k.rw.res.command.typ ≡ 0
      → Turn handler i k.rw.out (some (failed (io x))) k.rw.out
      → TakesTurn i k.rw.out (some (failed (io x)), hooked hs k)
  unfolding hooked
  early hs i k x typ turn =
      subst
        (λ (w : SofaResponseWriter E).
          (w.res.command.typ ≡ 0) × Turn handler i k.rw.out (some (failed (io x))) w.out)
        (sym (run_hooks-rw o hs k)) (typ, turn)

  round_got :
      (hs : List (Hook E)) (nr : ℕ) (req : Request) (now : ℕ) (e : Option E) (k : Conn E)
      → (run_hooks o hs k).0 ≡ none
      → round rh encode accept o handler (got hs nr req now e) k
        ≡ served rh encode accept o handler nr req now e (hooked hs k)
  unfolding round hooked
  round_got hs nr req now e k fine = rw fine refl

  round_got_error :
      (hs : List (Hook E)) (nr : ℕ) (req : Request) (now : ℕ) (e : Option E) (k : Conn E) (x : E)
      → (run_hooks o hs k).0 ≡ some x
      → round rh encode accept o handler (got hs nr req now e) k
        ≡ (some (failed (io x)), hooked hs k)
  unfolding round hooked
  round_got_error hs nr req now e k x bad = rw bad refl

  round_broken :
      (hs : List (Hook E)) (e : E) (k : Conn E)
      → (x : E) × (round rh encode accept o handler (broken hs e) k
          ≡ (some (failed (io x)), hooked hs k))
  unfolding round hooked
  round_broken hs e k = elim (Option-cases (run_hooks o hs k).0) [
    | inr (x, bad) ↦ (x, rw bad refl)
    | inl fine ↦ (e, rw fine refl)
  ]

  pub round_turn :
      (i : Input E) (k : Conn E)
      → AreBolt (i ∷ [])
      → k.rw.res.command.typ ≡ 0
      → TakesTurn i k.rw.out (round rh encode accept o handler i k)
  unfolding hooked
  round_turn (got hs nr req now e) k (bolt, _) typ = elim (Option-cases (run_hooks o hs k).0) [
    | inr (x, bad) ↦
        subst (TakesTurn (got hs nr req now e) k.rw.out)
          (sym (round_got_error hs nr req now e k x bad))
          (early hs (got hs nr req now e) k x typ
            (hook_failed hs nr req now e x k.rw.out (run_hooks-error o hs k x bad)))
    | inl fine ↦
        subst
          (λ (w : SofaResponseWriter E).
            TakesTurn (got hs nr req now e) w.out
              (round rh encode accept o handler (got hs nr req now e) k))
          (run_hooks-rw o hs k)
          (subst (TakesTurn (got hs nr req now e) (hooked hs k).rw.out)
            (sym (round_got hs nr req now e k fine))
            (served_turn hs nr req now e (hooked hs k) bolt
              (ap (λ (w : SofaResponseWriter E). w.res.command.typ) (run_hooks-rw o hs k) ∙ typ)))
  ]
  round_turn (broken hs e) k _ typ =
      let (x, broke) = round_broken hs e k in
      subst (TakesTurn (broken hs e) k.rw.out) (sym broke)
        (early hs (broken hs e) k x typ (read_failed hs e x k.rw.out))
