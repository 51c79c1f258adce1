-- ===== src/Tests/Pools.antt =====
-- The theorems on pools at a pool of two clients, one of them worn out.
use sofa_bolt_go.Base.{
  ◌≡◌, refl, arith, true, not, ◌&&◌, ◌||◌, some, [], ◌∷◌, codes, ◌==◌, if◌then◌else◌,
}
use sofa_bolt_go.Pool.{Pool, mem}
use sofa_bolt_go.KeepAliver.Cleanup.{ticks}
use sofa_bolt_go.KeepAliver.Cleanup.Ends.{ticks-closed}
use sofa_bolt_go.Pool
use sofa_bolt_go.KeepAliver.Heartbeat.{Beat, is_due, check_clients, check_clients-leaves}
use sofa_bolt_go.KeepAliver.Schemes.{tick, check_pools}
use sofa_bolt_go.KeepAliver.{KeepAliver, get_from, is_worn, gracefully_close}

abbrev two : Pool
two = record { clients = 7 ∷ 8 ∷ []; next = 0 }

abbrev keeper : KeepAliver
keeper = record {
  min_client_in_pool = 2;
  ma_client_conn_used = 100;
  used = λ c. if c == 8 then 100 else 1;
  references = λ c. 0;
  dying = [];
  closed = [];
}

-- The turn of 8 comes first; it is worn out, and closed.
takes_7 :
    get_from 3 keeper two
    ≡ some (some 7, record { clients = 7 ∷ []; next = 0 }, record keeper { closed = 8 ∷ [] })
unfolding get_from Pool.get Pool.delete is_worn gracefully_close Pool.size
takes_7 = refl

-- 7 waits with one check, and is in use at both ticks.
abbrev busy : KeepAliver
busy = record keeper { dying = (7, 1) ∷ [] }

ticks-closed_example : mem 7 (ticks 2 ((λ c. 1) ∷ (λ c. 1) ∷ []) busy).closed ≡ true
ticks-closed_example =
    ticks-closed 2 7 ((λ c. 1) ∷ (λ c. 1) ∷ []) 1 busy refl (omega arith) (omega arith)

-- 8 does not answer its heartbeat.
abbrev quiet : Beat
quiet = record { interval = 5; lasted = λ c. 10; now = 20; fails = λ n. n == 1 }

check_clients-leaves_example :
    (mem 8 (check_clients quiet 20 two keeper).0.clients ≡ not (is_due quiet 20 8 && quiet.fails 1))
    × (mem 8 (check_clients quiet 20 two keeper).1.closed
        ≡ (is_due quiet 20 8 && quiet.fails 1 || mem 8 keeper.closed))
check_clients-leaves_example =
    check_clients-leaves quiet 20 keeper two (7 ∷ []) [] 8 refl (refl, (refl, tt))

-- The pools of the other scheme are not checked, though none of their clients answers.
unchecked :
    (tick
      (λ n. record quiet { fails = λ m. true })
      (λ n. quiet)
      20
      (record { raw = []; tls = (codes "a", two) ∷ [] })
      keeper).0
    ≡ record { raw = []; tls = (codes "a", two) ∷ [] }
unfolding tick check_pools
unchecked = refl
