-- ===== src/ClientConnBolt/Steps.antt =====
-- Every step keeps what holds of a client.
use sofa_bolt_go.Base.{
  ℕ, ◌+◌, ◌^◌, ◌≤◌, ◌<◌, ◌≡◌, refl, sym, subst, Bool, true, false, Option, none, some,
  if◌then◌else◌, Bool-cases, inl, inr, arith, u32_max, ltb,
}
use sofa_bolt_go.Client.Table.{remove, insert, update}
use sofa_bolt_go.Request
use sofa_bolt_go.Request.{Request}
use sofa_bolt_go.ClientConnBolt.{
  ClientConnBolt, Call, Stage, starting, numbering, adding, sending, removing, waiting, returned,
  failed, goto, number_call, after_send, select, id_overflow, was_closed, Choice, invoke_at,
  incremented, put,
}
use sofa_bolt_go.ClientConnBolt.Invariant.{Staged, IsSound, numbers, IsConsistent, Entries-remove}
use sofa_bolt_go.ClientConnBolt.Preserve.{
  changed-IsConsistent, goto-IsSound, after_send-Staged, select-IsSound, numbered-IsConsistent,
  later-IsSound,
}

ltb→ge : (a b : ℕ) → ltb a b ≡ false → b ≤ a
ltb→ge a b h = ground arith

first_Staged :
    (E : Type 0) (b : Bool) (n : Option ℕ) (r : ℕ)
    → n ≡ none
    → Staged {E = E} (if b then returned (failed was_closed) else numbering) n r
first_Staged E true n r e = tt
first_Staged E false n r e = e

module _ {E : Type 0} where
  -- The counter has not wrapped.
  incremented_eq :
      (w : ClientConnBolt E) → w.increments + 1 < 2 ^ 64 → incremented w ≡ w.increments + 1
  incremented_eq w h = omega arith

  moved-IsConsistent :
      (w : ClientConnBolt E) (i : ℕ) (s : Stage E)
      → IsConsistent w
      → Staged s (w.calls i).number (w.calls i).ctx.res.command.rid
      → IsConsistent (put i (goto s (w.calls i)) w)
  moved-IsConsistent w i s h at =
      changed-IsConsistent w i (goto s (w.calls i)) w.requests w.dispatching h refl
        (goto-IsSound w.increments s (w.calls i) (h.sound i) at) h.entries h.delivers

  -- The counter is past the ids of 32 bits.
  overflowed-IsConsistent :
      (w : ClientConnBolt E) (i : ℕ) (c : Call E)
      → IsConsistent w
      → c.number ≡ (w.calls i).number
      → IsSound w.increments c
      → IsConsistent (record w { calls = update w.calls i c; increments = w.increments + 1 })
  overflowed-IsConsistent w i c h e s =
      let k = changed-IsConsistent w i c w.requests w.dispatching h e s h.entries h.delivers in
      record {
        sound = λ j. later-IsSound w.increments (update w.calls i c j) (k.sound j);
        distinct = k.distinct;
        entries = k.entries;
        delivers = k.delivers;
      }

  number_call_past :
      (id : ℕ) (c : Call E)
      → ltb u32_max id ≡ true
      → number_call id c ≡ goto (returned (failed id_overflow)) c
  unfolding number_call
  number_call_past id c past = simp past

  number_call_fits :
      (id : ℕ) (c : Call E)
      → ltb u32_max id ≡ false
      → number_call id c ≡ (record c {
        stage = adding id;
        ctx = record (c.ctx) { req = Request.set_request_id id c.ctx.req };
        number = some id;
      })
  unfolding number_call
  number_call_fits id c fits = simp fits

  number_call-IsConsistent :
      (w : ClientConnBolt E) (i : ℕ)
      → IsConsistent w
      → (w.calls i).number ≡ none
      → IsConsistent (record w {
        calls = update w.calls i (number_call (w.increments + 1) (w.calls i));
        increments = w.increments + 1;
      })
  number_call-IsConsistent w i h fresh = elim (Bool-cases (ltb u32_max (w.increments + 1))) [
    | inl past ↦
        subst
          (λ c.
            IsConsistent (record w { calls = update w.calls i c; increments = w.increments + 1 }))
          (sym (number_call_past (w.increments + 1) (w.calls i) past))
          (overflowed-IsConsistent w i (goto (returned (failed id_overflow)) (w.calls i)) h refl
            (goto-IsSound w.increments (returned (failed id_overflow)) (w.calls i) (h.sound i) tt))
    | inr fits ↦
        subst
          (λ c.
            IsConsistent (record w { calls = update w.calls i c; increments = w.increments + 1 }))
          (sym (number_call_fits (w.increments + 1) (w.calls i) fits))
          (numbered-IsConsistent w i _ h fresh (ltb→ge u32_max (w.increments + 1) fits))
  ]

  pub invoke_at-IsConsistent :
      (choice : Choice E) (i : ℕ) (s : Stage E) (w : ClientConnBolt E)
      → IsConsistent w
      → Staged s (w.calls i).number (w.calls i).ctx.res.command.rid
      → (invoke_at choice i s w).increments < 2 ^ 64
      → IsConsistent (invoke_at choice i s w)
  unfolding invoke_at
  invoke_at-IsConsistent choice i starting w h at bound =
      moved-IsConsistent w i (if w.closed then returned (failed was_closed) else numbering) h
        (first_Staged E w.closed (w.calls i).number (w.calls i).ctx.res.command.rid at)
  invoke_at-IsConsistent choice i numbering w h at bound =
      subst
        (λ id. IsConsistent (record w {
          calls = update w.calls i (number_call id (w.calls i));
          increments = w.increments + 1;
        }))
        (sym (incremented_eq w bound)) (number_call-IsConsistent w i h at)
  invoke_at-IsConsistent choice i (adding r) w h at bound =
      changed-IsConsistent w i (goto (sending r) (w.calls i)) (insert r i w.requests) w.dispatching
        h refl (goto-IsSound w.increments (sending r) (w.calls i) (h.sound i) tt)
        (at, Entries-remove (numbers w.calls) r w.requests h.entries) h.delivers
  invoke_at-IsConsistent choice i (sending r) w h at bound =
      moved-IsConsistent w i (after_send r choice.send_error (w.calls i)) h
        (after_send-Staged r choice.send_error (w.calls i))
  invoke_at-IsConsistent choice i (removing r result) w h at bound =
      changed-IsConsistent w i (goto (returned result) (w.calls i)) (remove r w.requests)
        w.dispatching h refl
        (goto-IsSound w.increments (returned result) (w.calls i) (h.sound i) at)
        (Entries-remove (numbers w.calls) r w.requests h.entries) h.delivers
  invoke_at-IsConsistent choice i (waiting r) w h at bound =
      let (same, sound) =
        select-IsSound w.increments r choice.timer_fired (w.calls i) (h.sound i) in
      changed-IsConsistent w i (select r choice.timer_fired (w.calls i)) w.requests w.dispatching h
        same sound h.entries h.delivers
  invoke_at-IsConsistent choice i (returned result) w h at bound = h
