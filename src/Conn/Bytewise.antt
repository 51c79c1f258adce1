-- ===== src/Conn/Bytewise.antt =====
-- A connection that writes byte by byte, over one that takes each byte.
use native.Mathlib.Nat.{mul-suc}
use sofa_bolt_go.Base.{
  ℕ, suc, ◌+◌, ◌*◌, ◌<◌, ◌≡◌, refl, sym, ap, ◌∙◌, Option, none, [], ◌∷◌, ◌++◌, append-nil,
  append_assoc, arith, Bytes, length, lt→ltb,
}
use sofa_bolt_go.Conn.{Conn}
use sofa_bolt_go.Conn.Delay.{write_each, go_on, per_write_delay_conn}

same_result :
    {S E : Type 0} (n n' t t' : ℕ) (s : S)
    → n ≡ n'
    → t ≡ t'
    → ◌≡◌ {A = ℕ × Option E × (ℕ × S)} (n, none, (t, s)) (n', none, (t', s))
same_result n n' t t' s e f = rw (e, f) refl

plus_suc : (n m : ℕ) → n + 1 + m ≡ n + suc m
plus_suc n m = omega arith

times_zero : (slept delay : ℕ) → slept ≡ slept + delay * 0
times_zero slept delay = omega arith

times_suc : (slept delay n : ℕ) → slept + delay + delay * n ≡ slept + delay * suc n
times_suc slept delay n = omega (arith, mul-suc delay n)

-- `sent` is what the connection below has sent, and `next` its state behind a byte.
module _ {S E A : Type 0} (delay : ℕ) (c : Conn S E A) (sent : S → Bytes) (next : ℕ → S → S)
    (takes : (b : ℕ) (s : S) → c.write (b ∷ []) s ≡ (1, none, next b s))
    (sends : (b : ℕ) (s : S) → sent (next b s) ≡ sent s ++ (b ∷ [])) where
  write_each-sends :
      (bs : Bytes) (n slept : ℕ) (s : S)
      → (s' : S) × (write_each delay c bs n (slept, s)
          ≡ (n + length bs, none, (slept + delay * length bs, s')))
        × (sent s' ≡ sent s ++ bs)
  unfolding write_each
  write_each-sends [] n slept s = (
    s,
    same_result n (n + 0) slept (slept + delay * 0) s (omega arith) (times_zero slept delay),
    sym (append-nil (sent s)),
  )
  write_each-sends (b ∷ bs) n slept s =
      let (s', done, out) = write_each-sends bs (n + 1) (slept + delay) (next b s) in
      (
        s',
        ap (go_on delay c (write_each delay c bs) n (slept + delay)) (takes b s)
            ∙ (done
                ∙ same_result _ _ _ _ s' (plus_suc n (length bs))
                    (times_suc slept delay (length bs))),
        out ∙ (ap (λ (x : Bytes). x ++ bs) (sends b s) ∙ append_assoc (sent s) (b ∷ []) bs),
      )

  -- With a delay, over a connection that takes each byte on its own, `PerWriteDelayConn` sends all the
  -- bytes in their order, returns their number, and sleeps once for each of them.
  pub per_write_delay_conn-sends :
      (bs : Bytes) (slept : ℕ) (s : S)
      → 0 < delay
      → (s' : S) × ((per_write_delay_conn delay c).write bs (slept, s)
          ≡ (0 + length bs, none, (slept + delay * length bs, s')))
        × (sent s' ≡ sent s ++ bs)
  unfolding per_write_delay_conn
  per_write_delay_conn-sends bs slept s p = rw (lt→ltb 0 delay p) (write_each-sends bs 0 slept s)
