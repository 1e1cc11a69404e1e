-- ===== src/Tests/Stores.antt =====
-- The source of truth and its outbox at fixed inputs.
use simple_cache.Prelude.{
  ℕ, ◌*◌, ◌≡◌, refl, ◌⊎◌, Bool, true, false, Option, none, some, List, [], ◌∷◌, Bytes,
  Bytes-discrete, arith,
}
use simple_cache.Prelude.Int.{pos}
use simple_cache.Prelude.Maps
use simple_cache.Errors.{Error, validate_key, other}
use simple_cache.Outbox.{second, minute}
use simple_cache.Outbox.Worker.{purge_loop}
use simple_cache.Outbox.Worker.System.{Act, begins, ends, acts, AnyEvent}
use simple_cache.Outbox.Worker.Delivery.{Carries, Waits, acts-Delivered}
use simple_cache.Outbox.Worker.Maintenance.{purge_loop-returns}
use simple_cache.Store.{
  Tables, commit, live, answered, lost_after, put_if_version, put_checked, delete_if_version,
  delete_checked, validate_value, update_live, upsert, advance, next_version, send, mutation_result,
}
use simple_cache.Store.Generations.{Matches}
use simple_cache.Store.Commits.{Conditional, put_if_version-Conditional}
use simple_cache.Store.Writes.{Write, write_all, puts_if}
use simple_cache.Store.Spent.{conditional, spent_version}
use simple_cache.Store.Queue.{
  Event, claim, claim_statement, finish, purge_delivered, purge_statement,
}
use simple_cache.Store.Queue.Rows.{AllRows}
use simple_cache.Store.Queue.Leases.{Turn, turns}
use simple_cache.Store.Queue.Leases
use simple_cache.Store.Queue.Fencing.{IsRefused, IsNumbered, lost_lease}

abbrev apple : Bytes
apple = 97 ∷ []

abbrev red : Bytes
red = 114 ∷ []

abbrev no_tables : Tables
no_tables = record { products = []; outbox = []; next_id = 1 }

abbrev one_apple : Tables
one_apple = commit 10 apple (live red 1) no_tables

apple_stored : put_if_version answered none 10 apple red (pos 0) no_tables ≡ (one_apple, 1, none)
unfolding put_if_version put_checked validate_value validate_key upsert send mutation_result commit
    Maps.get Maps.put
apple_stored = refl

apple_fits : validate_value apple red ≡ none
unfolding validate_value validate_key
apple_fits = refl

apple_fits_key : validate_key apple ≡ none
unfolding validate_key
apple_fits_key = refl

put_if_version-Conditional_example :
    Conditional 20 apple
      (live red)
      (Matches 1 apple one_apple)
      lost_after
      one_apple
      (put_if_version lost_after none 20 apple red (pos 1) one_apple)
put_if_version-Conditional_example =
    put_if_version-Conditional lost_after none 20 apple red 1 one_apple (λ e. cc) apple_fits

apple_deleted : (conditional none answered none 20 apple 0 one_apple).2 ≡ none
unfolding conditional delete_if_version delete_checked validate_key update_live advance next_version
    send mutation_result commit Maps.get Maps.put Bytes-discrete
apple_deleted = refl

abbrev recreated : List Write
recreated = puts_if answered none 30 apple red (pos 0) ∷ []

spent_version_example :
    let later = write_all recreated (conditional none answered none 20 apple 0 one_apple).0 in
    (conditional (some red) answered none 40 apple 0 later).0 ≡ later
spent_version_example =
    spent_version none (some red) answered answered none none 20 40 apple 0 recreated one_apple
      (λ e. cc) (λ e. cc) apple_fits_key apple_fits apple_deleted

abbrev unlocked : ℕ → Bool
unlocked i = false

abbrev event : ℕ → Event
event n = record { id = 1; key = apple; version = 1; attempt = n }

one_apple-IsNumbered : IsNumbered one_apple
unfolding AllRows commit
one_apple-IsNumbered = (omega arith, tt)

first_claim : (claim answered unlocked 20 20 second one_apple).1 ≡ some (event 1)
unfolding claim commit send claim_statement
first_claim = refl

abbrev half_delivered : List Turn
half_delivered = Leases.purges answered unlocked 25 (60 * minute) 100 ∷ []

second_claim :
    (claim answered unlocked
      (2 * second)
      (2 * second)
      second
      (turns half_delivered (claim answered unlocked 20 20 second one_apple).0)).1
    ≡ some (event 2)
unfolding turns claim commit send claim_statement Leases.turn purge_delivered purge_statement
second_claim = refl

lost_lease_example :
    let t' = turns half_delivered (claim answered unlocked 20 20 second one_apple).0 in
    let t'' = turns [] (claim answered unlocked (2 * second) (2 * second) second t').0 in
    IsRefused t'' (finish answered (event 1) true (2 * second) (2 * second) 0 t'')
lost_lease_example =
    lost_lease answered answered answered unlocked unlocked 20 (2 * second) (2 * second) 20
      (2 * second) (2 * second) second second 0 true half_delivered [] one_apple (event 1) (event 2)
      one_apple-IsNumbered first_claim second_claim refl

purge_loop-returns_example :
    (r : Tables × Option Error) × (purge_loop 2
        (λ i. false)
        (λ i. answered)
        (λ i. unlocked)
        (λ i. 20)
        one_apple
      ≡ some r)
unfolding commit
purge_loop-returns_example =
    purge_loop-returns (λ i. false) (λ i. answered) (λ i. unlocked) (λ i. 20) 2 one_apple
      (omega arith)

no_tables-IsNumbered : IsNumbered no_tables
unfolding AllRows
no_tables-IsNumbered = tt

abbrev a_failed_delivery : List Act
a_failed_delivery =
    begins answered unlocked 20 20
    ∷ ends 0 answered (some other) 30 30
    ∷ begins lost_after unlocked (3 * second) (3 * second)
    ∷ []

acts-Delivered_example :
    let s =
      acts a_failed_delivery
        (record { tables = commit 10 apple (live red 1) no_tables; held = []; sent = [] }) in
    AnyEvent (Carries 1 apple 1) s.sent ⊎ Waits 1 apple 1 s.tables
acts-Delivered_example =
    acts-Delivered 10 apple (live red 1) no_tables a_failed_delivery no_tables-IsNumbered
