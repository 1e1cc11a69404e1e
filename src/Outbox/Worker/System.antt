-- ===== src/Outbox/Worker/System.antt =====
-- worker.go: workers over one outbox. An event stands in `held` from its claim to the end of its step;
-- `sent` lists the events whose delivery did not fail.
use simple_cache.Prelude.{ℕ, zero, suc, ◌⊎◌, Bool, Option, none, some, List, [], ◌∷◌}
use simple_cache.Errors.{Error}
use simple_cache.Outbox.Worker.{lease_duration, retention, end_step}
use simple_cache.Store.{Tables, Trip}
use simple_cache.Store.Writes.{Write, write}
use simple_cache.Store.Queue.{Event, claim, purge_delivered}

pub record System : Type 0 where
  pub tables : Tables
  pub held : List Event
  pub sent : List Event

-- A write to the source; a round of the maintenance; the claim that begins a step; the delivery and the
-- Finish of the n-th event held; and a worker that stops before them.
pub data Act : Type 0 where
  writes : Write → Act
  purges : Trip → (ℕ → Bool) → ℕ → Act
  begins : Trip → (ℕ → Bool) → ℕ → ℕ → Act
  ends : ℕ → Trip → Option Error → ℕ → ℕ → Act
  stops : ℕ → Act

abbrev pub held_at : ℕ → List Event → Option Event
held_at n [] = none
held_at zero (e ∷ l) = some e
held_at (suc n) (e ∷ l) = held_at n l

abbrev pub without : ℕ → List Event → List Event
without n [] = []
without zero (e ∷ l) = l
without (suc n) (e ∷ l) = e ∷ without n l

abbrev pub hold : Option Event → List Event → List Event
hold none l = l
hold (some e) l = e ∷ l

abbrev pub log_sent : Event → Option Error → List Event → List Event
log_sent e none l = e ∷ l
log_sent e (some x) l = l

abbrev pub end_held : ℕ → Option Event → Trip → Option Error → ℕ → ℕ → System → System
end_held n none trip outcome now later s = s
end_held n (some e) trip outcome now later s = record {
  tables = (end_step trip outcome now later e s.tables).0;
  held = without n s.held;
  sent = log_sent e outcome s.sent;
}

unfoldable pub act : Act → System → System
unfolding end_step
act (writes w) s = record s { tables = write w s.tables }
act (purges trip locked now) s = record s {
  tables = (purge_delivered trip locked now retention 1000 s.tables).0;
}
act (begins trip locked now later) s =
    let (t, found, err) = claim trip locked now later lease_duration s.tables in
    record s { tables = t; held = hold found s.held }
act (ends n trip outcome now later) s = end_held n (held_at n s.held) trip outcome now later s
act (stops n) s = record s { held = without n s.held }

unfoldable pub acts : List Act → System → System
acts [] s = s
acts (a ∷ l) s = acts l (act a s)

unfoldable pub AllEvents : (Event → Type 0) → List Event → Type 0
AllEvents P [] = Unit
AllEvents P (e ∷ l) = P e × AllEvents P l

unfoldable pub AnyEvent : (Event → Type 0) → List Event → Type 0
AnyEvent P [] = ⊥
AnyEvent P (e ∷ l) = P e ⊎ AnyEvent P l
