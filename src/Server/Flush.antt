-- ===== src/Server/Flush.antt =====
-- When `flushWrite` flushes: it sets the time of the last flush at every call.
use sofa_bolt_go.Base.{ℕ, ◌-◌, ◌<◌, ◌≡◌, refl, sym, subst, Option, List, [], ◌∷◌, lt→ltb, lt→leb}
use sofa_bolt_go.Server.{Options, Conn, flush_write, flush_conn}

module _ {E : Type 0} (o : Options) where
  -- Calls of `flushWrite` one after the other, at their times and with the error of each flush.
  abbrev pub flush_each : List (ℕ × Option E) → Conn E → Conn E
  flush_each [] k = k
  flush_each ((now, e) ∷ calls) k = flush_each calls (flush_conn o now e k).1

  -- Each call is less than the flush interval behind the one before it.
  abbrev pub AreClose : ℕ → List (ℕ × Option E) → Type 0
  AreClose last [] = Unit
  AreClose last ((now, e) ∷ calls) = (now - last < o.flush_interval) × AreClose now calls

  flush_conn_close :
      (now : ℕ) (e : Option E) (k : Conn E)
      → 0 < o.flush_interval
      → now - k.last_flush_time < o.flush_interval
      → (flush_conn o now e k).1 ≡ (record k { last_flush_time = now })
  unfolding flush_conn flush_write
  flush_conn_close now e k positive close = rw (lt→ltb _ _ positive, lt→leb _ _ close) refl

  -- With a flush interval above zero, calls of `flushWrite` that come faster than the interval, the
  -- first one counted from the last flush time, never flush, for however long they last: the number
  -- of flushes stays as it is.
  pub flush_each-flushes :
      (calls : List (ℕ × Option E)) (k : Conn E)
      → 0 < o.flush_interval
      → AreClose k.last_flush_time calls
      → (flush_each calls k).flushes ≡ k.flushes
  flush_each-flushes [] k positive close = refl
  flush_each-flushes ((now, e) ∷ calls) k positive (close, more) =
      subst (λ k'. (flush_each calls k').flushes ≡ k.flushes)
        (sym (flush_conn_close now e k positive close))
        (flush_each-flushes calls (record k { last_flush_time = now }) positive more)
