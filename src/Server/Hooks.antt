-- ===== src/Server/Hooks.antt =====
-- The hooks and flushes of a connection: they leave the response writer as it is, and an error
-- comes from one of them.
use sofa_bolt_go.Base.{
  ℕ, ◌≡◌, refl, ◌∙◌, ap, Bool, true, false, ◌||◌, Option, none, some, List, [], ◌∷◌, Option-cases,
  Bool-cases, inl, inr,
}
use sofa_bolt_go.Server.{Conn, Options, flush_write, flush_conn, before_read, run_hooks, Hook}

abbrev pub is_some : {A : Type 0} → Option A → Bool
is_some none = false
is_some (some a) = true

-- A hook has an error to give.
abbrev pub may_fail : {E : Type 0} → List (Hook E) → Bool
may_fail [] = false
may_fail (h ∷ hs) = is_some h.deadline_error || is_some h.flush_error || may_fail hs

or_right : (a b : Bool) → b ≡ true → (a || b) ≡ true
or_right true b h = refl
or_right false b h = h

or_left : (a b : Bool) → a ≡ true → (a || b) ≡ true
or_left a b h = rw h refl

module _ {E : Type 0} (o : Options) where
  pub flush_conn-rw : (now : ℕ) (e : Option E) (k : Conn E) → (flush_conn o now e k).1.rw ≡ k.rw
  unfolding flush_conn
  flush_conn-rw now e k = elim (Bool-cases (flush_write o now k.last_flush_time).1) [
    | inl on ↦ rw on refl
    | inr off ↦ rw off refl
  ]

  pub flush_conn-error :
      (now : ℕ) (e : Option E) (k : Conn E) (x : E) → (flush_conn o now e k).0 ≡ some x → e ≡ some x
  unfolding flush_conn
  flush_conn-error now e k x = elim (Bool-cases (flush_write o now k.last_flush_time).1) [
    | inl on ↦ rw on (λ h. h)
    | inr off ↦ rw off (λ h. cc)
  ]

  before_read-rw : (h : Hook E) (k : Conn E) → (before_read o h k).1.rw ≡ k.rw
  unfolding before_read
  before_read-rw h k = elim (Option-cases h.deadline_error) [
    | inl fine ↦ elim (Bool-cases h.buffered) [
      | inl on ↦ rw (fine, on) (flush_conn-rw h.now h.flush_error k)
      | inr off ↦ rw (fine, off) refl
    ]
    | inr (e, bad) ↦ rw bad refl
  ]

  before_read-error :
      (h : Hook E) (k : Conn E) (x : E)
      → (before_read o h k).0 ≡ some x
      → (is_some h.deadline_error || is_some h.flush_error) ≡ true
  unfolding before_read
  before_read-error h k x = elim (Option-cases h.deadline_error) [
    | inl fine ↦ elim (Bool-cases h.buffered) [
      | inl on ↦ rw (fine, on) (λ e. ap is_some (flush_conn-error h.now h.flush_error k x e))
      | inr off ↦ rw (fine, off) (λ e. cc)
    ]
    | inr (e, bad) ↦ rw bad (λ _. refl)
  ]

  pub run_hooks-rw : (hs : List (Hook E)) (k : Conn E) → (run_hooks o hs k).1.rw ≡ k.rw
  unfolding run_hooks
  run_hooks-rw [] k = refl
  run_hooks-rw (h ∷ hs) k = elim (Option-cases (before_read o h k).0) [
    | inl fine ↦ rw (run_hooks, fine) (run_hooks-rw hs (before_read o h k).1 ∙ before_read-rw h k)
    | inr (e, bad) ↦ rw (run_hooks, bad) (before_read-rw h k)
  ]

  pub run_hooks-error :
      (hs : List (Hook E)) (k : Conn E) (x : E) → (run_hooks o hs k).0 ≡ some x → may_fail hs ≡ true
  unfolding run_hooks
  run_hooks-error [] k x = λ e. cc
  run_hooks-error (h ∷ hs) k x = elim (Option-cases (before_read o h k).0) [
    | inl fine ↦
        rw (run_hooks, fine) (λ e. or_right _ _ (run_hooks-error hs (before_read o h k).1 x e))
    | inr (e, bad) ↦ rw (run_hooks, bad) (λ _. or_left _ _ (before_read-error h k e bad))
  ]
