-- ===== src/ClientConnBolt/Preserve.antt =====
-- The changes of one caller keep what holds of a client.
use sofa_bolt_go.Base.{
  ℕ, ◌+◌, ◌≤◌, ◌≡◌, refl, sym, ◌∙◌, subst, Bool, ◌&&◌, Option, none, some, List, [], ◌∷◌, ◌==◌,
  Bool-cases, inl, inr, ◌⊎◌, arith, u32_max,
}
use sofa_bolt_go.Client.Table.{update}
use sofa_bolt_go.Request.{Request}
use sofa_bolt_go.Response
use sofa_bolt_go.Response.{Response}
use sofa_bolt_go.Command
use sofa_bolt_go.ClientConnBolt.{
  ClientConnBolt, Call, Stage, adding, removing, returned, answered, failed, Dispatching, goto,
  after_send, select, receive, io, timed_out,
}
use sofa_bolt_go.ClientConnBolt.Invariant.{
  Tells, Staged, IsSound, Entries, Delivers, IsDistinct, numbers, IsConsistent, Extends,
  Entries-Extends, Delivers-Extends, update_all, same_numbers,
}

module _ {E : Type 0} where
  -- A change of a caller that keeps its number, with changes of the table and of the dispatch.
  pub changed-IsConsistent :
      (w : ClientConnBolt E) (i : ℕ) (c : Call E) (xs : List (ℕ × ℕ)) (d : Dispatching)
      → IsConsistent w
      → c.number ≡ (w.calls i).number
      → IsSound w.increments c
      → Entries (numbers w.calls) xs
      → Delivers (numbers w.calls) d
      → IsConsistent (record w { calls = update w.calls i c; requests = xs; dispatching = d })
  changed-IsConsistent w i c xs d h e s entries delivers =
      let same = sym (same_numbers w.calls i c e) in
      record {
        sound = update_all (λ _ c'. IsSound w.increments c') w.calls i c h.sound s;
        distinct = subst IsDistinct same h.distinct;
        entries = subst (λ n. Entries n xs) same entries;
        delivers = subst (λ n. Delivers n d) same delivers;
      }

  pub goto-IsSound :
      (total : ℕ) (s : Stage E) (c : Call E)
      → IsSound total c
      → Staged s c.number c.ctx.res.command.rid
      → IsSound total (goto s c)
  goto-IsSound total s c h at = record { bounded = h.bounded; staged = at; told = h.told }

  pub later-IsSound : (total : ℕ) (c : Call E) → IsSound total c → IsSound (total + 1) c
  later-IsSound total c h = record {
    bounded = λ r e. (omega (arith, (h.bounded r e).0), (h.bounded r e).1);
    staged = h.staged;
    told = h.told;
  }

  tells_any : {A B : Type 0} (vs : List (Option E)) → Tells vs A → (A → B) → Tells vs B
  tells_any [] t f = tt
  tells_any (none ∷ vs) (a, t) f = (f a, tells_any vs t f)
  tells_any (some e ∷ vs) t f = tells_any vs t f

  pub after_send-Staged :
      (r : ℕ) (e : Option E) (c : Call E) → Staged (after_send r e c) c.number c.ctx.res.command.rid
  unfolding after_send
  after_send-Staged r (some e) c = tt
  after_send-Staged r none c = elim (Bool-cases (c.ctx.req.command.typ == 2)) [
    | inl one_way ↦ rw one_way tt
    | inr two_way ↦ elim (Bool-cases c.ctx.callback) [
      | inl calls_back ↦ rw (two_way, calls_back) tt
      | inr blocks ↦ rw (two_way, blocks) tt
    ]
  ]

  received-IsSound :
      (total : ℕ) (c : Call E) (vs : List (Option E))
      → IsSound total c
      → Tells (none ∷ vs) (c.number ≡ some c.ctx.ires.command.rid)
      → IsSound total (record c {
        stage = returned answered;
        ctx = record (c.ctx) { err_ch = vs; res = Response.copy_to c.ctx.ires c.ctx.res };
      })
  unfolding Response.copy_to Command.copy_to
  received-IsSound total c vs h (told, more) = record {
    bounded = h.bounded;
    staged = told;
    told = more;
  }

  failed-IsSound :
      (total : ℕ) (c : Call E) (e : E) (vs : List (Option E))
      → IsSound total c
      → Tells vs (c.number ≡ some c.ctx.ires.command.rid)
      → IsSound total
          (record c { stage = returned (failed (io e)); ctx = record (c.ctx) { err_ch = vs } })
  failed-IsSound total c e vs h more = record { bounded = h.bounded; staged = tt; told = more }

  receive-IsSound :
      (total : ℕ) (vs : List (Option E)) (c : Call E)
      → IsSound total c
      → Tells vs (c.number ≡ some c.ctx.ires.command.rid)
      → ((receive vs c).number ≡ c.number) × IsSound total (receive vs c)
  unfolding receive
  receive-IsSound total [] c h t = (refl, h)
  receive-IsSound total (some e ∷ vs) c h t = (refl, failed-IsSound total c e vs h t)
  receive-IsSound total (none ∷ vs) c h t = (refl, received-IsSound total c vs h t)

  pub select-IsSound :
      (total r : ℕ) (fired : Bool) (c : Call E)
      → IsSound total c
      → ((select r fired c).number ≡ c.number) × IsSound total (select r fired c)
  unfolding select
  select-IsSound total r fired c h = elim (Bool-cases (c.ctx.has_timeout && fired)) [
    | inl late ↦ simp late (refl, goto-IsSound total (removing r (failed timed_out)) c h tt)
    | inr waits ↦ simp waits (receive-IsSound total c.ctx.err_ch c h h.told)
  ]

  extended :
      (w : ClientConnBolt E) (i : ℕ) (c : Call E)
      → (w.calls i).number ≡ none
      → Extends (numbers w.calls) (numbers (update w.calls i c))
  extended w i c fresh =
      update_all (λ k d. (r : ℕ) → (w.calls k).number ≡ some r → d.number ≡ some r) w.calls i c
        (λ k r e. e) (λ r e. absurd (cc (sym fresh ∙ e)))

  -- A number is the new one or an old one.
  number_of :
      (w : ClientConnBolt E) (i : ℕ) (c : Call E) (j r : ℕ)
      → c.number ≡ some (w.increments + 1)
      → (update w.calls i c j).number ≡ some r
      → ((i ≡ j) × (w.increments + 1 ≡ r)) ⊎ ((w.calls j).number ≡ some r)
  number_of w i c j r new =
      update_all
        (λ k d.
          d.number ≡ some r → ((i ≡ k) × (w.increments + 1 ≡ r)) ⊎ ((w.calls k).number ≡ some r))
        w.calls i c (λ k e. inr e) (λ e. inl (refl, cc (sym new ∙ e))) j

  one_of :
      (w : ClientConnBolt E) (i j k r : ℕ)
      → IsConsistent w
      → ((i ≡ j) × (w.increments + 1 ≡ r)) ⊎ ((w.calls j).number ≡ some r)
      → ((i ≡ k) × (w.increments + 1 ≡ r)) ⊎ ((w.calls k).number ≡ some r)
      → j ≡ k
  one_of w i j k r h (inl (p, _)) (inl (q, _)) = sym p ∙ q
  one_of w i j k r h (inl (_, new)) (inr old) =
      absurd (omega (arith, new, ((h.sound k).bounded r old).0))
  one_of w i j k r h (inr old) (inl (_, new)) =
      absurd (omega (arith, new, ((h.sound j).bounded r old).0))
  one_of w i j k r h (inr old) (inr old') = h.distinct j k r old old'

  -- A new number.
  pub numbered-IsConsistent :
      (w : ClientConnBolt E) (i : ℕ) (req : Request)
      → IsConsistent w
      → (w.calls i).number ≡ none
      → w.increments + 1 ≤ u32_max
      → IsConsistent (record w {
        calls = update w.calls i (record (w.calls i) {
          stage = adding (w.increments + 1);
          ctx = record ((w.calls i).ctx) { req = req };
          number = some (w.increments + 1);
        });
        increments = w.increments + 1;
      })
  numbered-IsConsistent w i req h fresh bound =
      let c : Call E = record (w.calls i) {
        stage = adding (w.increments + 1);
        ctx = record ((w.calls i).ctx) { req = req };
        number = some (w.increments + 1);
      } in
      let new : IsSound (w.increments + 1) c = record {
        bounded = λ r e. (let same : w.increments + 1 ≡ r = cc e in (omega arith, omega arith));
        staged = refl;
        told = tells_any (w.calls i).ctx.err_ch (h.sound i).told (λ a. absurd (cc (sym fresh ∙ a)));
      } in
      record {
        sound =
            update_all (λ _ c'. IsSound (w.increments + 1) c') w.calls i c
              (λ j. later-IsSound w.increments (w.calls j) (h.sound j)) new;
        distinct = λ j k r at_j at_k.
            one_of w i j k r h (number_of w i c j r refl at_j) (number_of w i c k r refl at_k);
        entries = Entries-Extends (numbers w.calls) _ w.requests (extended w i c fresh) h.entries;
        delivers =
            Delivers-Extends (numbers w.calls) _ w.dispatching (extended w i c fresh) h.delivers;
      }
