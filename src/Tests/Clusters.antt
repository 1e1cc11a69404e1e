-- ===== src/Tests/Clusters.antt =====
-- The cluster and the mutations of the API at fixed inputs.
use simple_cache.Prelude.{
  ℕ, zero, suc, ◌<◌, ◌≡◌, refl, ◌⊎◌, true, none, some, List, [], ◌∷◌, Bytes, Bytes-discrete, length,
  arith,
}
use simple_cache.Prelude.Int.{pos}
use simple_cache.Prelude.Maps
use simple_cache.Errors.{validate_key}
use simple_cache.Group.{Group, Options, empty_group, new_group, normalize_options, apply_version}
use simple_cache.Group.Invariant.{IsSound}
use simple_cache.Group.Start.{new_group-IsSound}
use simple_cache.Cluster.{
  Request, Handler, Client, Exchange, responded, timed_out, serve, client_request,
  client_invalidate,
}
use simple_cache.Cluster.Escapes.{AreBytes}
use simple_cache.Cluster.Exchanges.{Served, serve-client_request}
use simple_cache.Cluster.Directory.{
  Member, Directory, client_of, new_directory, valid_address, lt_bytes,
}
use simple_cache.Cluster.Directory.Order.{AllMembers, IsRising}
use simple_cache.Cluster.Directory.Updates.{IsConsistent, updates, updates-IsConsistent}
use simple_cache.Cluster.Broadcast.{InvalidationReport, others_of, notify}
use simple_cache.Cluster.Broadcast.Schedules.{has_index}
use simple_cache.Cluster.Groups.{
  new_handler_with_token, named, NamesDistinct, new_handler_with_token-named,
}
use simple_cache.Cluster.Broadcast.Answers.{IsReport, notify-IsReport}
use simple_cache.Store.{Tables, lost_after, live, validate_value}
use simple_cache.Store.Generations.{Matches}
use simple_cache.App.Mutations.{MutationOutcome, execute_mutation}
use simple_cache.App.Outcomes.{postgres, put_command, Settled}
use simple_cache.App.Writes.{router, execute_mutation-Settled}

-- "a/b"
abbrev slashed : Bytes
slashed = 97 ∷ 47 ∷ 98 ∷ []

-- "b:80"
abbrev host_b : Bytes
host_b = 98 ∷ 58 ∷ 56 ∷ 48 ∷ []

-- "c:80"
abbrev host_c : Bytes
host_c = 99 ∷ 58 ∷ 56 ∷ 48 ∷ []

abbrev token : Bytes
token = 116 ∷ []

abbrev no_options : Options
no_options = record {
  ttl = 0;
  source_timeout = 0;
  epoch_buckets = 0;
  max_miss_waiters = 0;
  cleanup_interval = 0;
  cleanup_batch = 0;
}

abbrev fresh : Group
fresh =
    empty_group 4096
      (record {
        ttl = 60000000000;
        source_timeout = 800000000;
        epoch_buckets = 256;
        max_miss_waiters = 128;
        cleanup_interval = 1000000000;
        cleanup_batch = 128;
      })
      none

fresh-IsSound : IsSound fresh
unfolding new_group normalize_options
fresh-IsSound = (new_group-IsSound (103 ∷ []) 4096 no_options none fresh (omega arith) refl).0

abbrev handler : Handler
handler = record { groups = (slashed, fresh) ∷ []; token = token }

slashed_known : Maps.get slashed handler.groups ≡ some fresh
unfolding Maps.get Bytes-discrete
slashed_known = refl

slashed_valid : validate_key slashed ≡ none
unfolding validate_key
slashed_valid = refl

slashed-AreBytes : AreBytes slashed
unfolding AreBytes
slashed-AreBytes = (omega arith, (omega arith, (omega arith, tt)))

abbrev client : Client
client = record { address = host_b; token = token }

serve-client_request_example :
    Served 5 6 slashed slashed 7 handler fresh slashed_known slashed_valid
      (omega arith)
      (serve 5 6 (client_request client slashed slashed 7) handler)
    × (client_invalidate (λ q. responded (serve 5 6 q handler).1) client slashed slashed (pos 7)
        ≡ none)
serve-client_request_example =
    serve-client_request 5 6 slashed slashed 7 handler fresh slashed_known slashed_valid
      (omega arith) client slashed-AreBytes refl refl

abbrev node_b : Member
node_b = record { id = 98 ∷ []; address = host_b }

abbrev node_c : Member
node_c = record { id = 99 ∷ []; address = host_c }

-- Unsorted, with a repeated identity; and an invalid address.
abbrev inputs : List (List Member)
inputs =
    (node_c ∷ node_b ∷ record { id = 99 ∷ []; address = host_b } ∷ [])
    ∷ (record { id = 97 ∷ []; address = slashed } ∷ [])
    ∷ []

abbrev no_members : Directory
no_members = record {
  self_id = 97 ∷ [];
  token = token;
  state = record { clients = []; members = [] };
}

started : new_directory (97 ∷ []) token ≡ some no_members
unfolding new_directory
started = refl

updates-IsConsistent_example : IsConsistent (updates inputs no_members)
updates-IsConsistent_example = updates-IsConsistent (97 ∷ []) token inputs no_members started

abbrev two_nodes : Directory
two_nodes = record {
  self_id = 98 ∷ [];
  token = token;
  state = record {
    clients = (98 ∷ [], client_of token node_b) ∷ (99 ∷ [], client_of token node_c) ∷ [];
    members = node_b ∷ node_c ∷ [];
  };
}

two_nodes-IsConsistent : IsConsistent two_nodes
unfolding AllMembers IsRising Maps.get Bytes-discrete valid_address lt_bytes
two_nodes-IsConsistent = record {
  rising = (tt, (refl, tt));
  valid = (refl, (refl, tt));
  reachable = (refl, (refl, tt));
}

one_job :
    (i : ℕ)
    → i < length (others_of two_nodes.self_id two_nodes.state.members)
    → has_index i (0 ∷ []) ≡ true
unfolding others_of has_index Bytes-discrete
one_job zero h = refl
one_job (suc i) h = absurd (omega (arith, h))

abbrev silent : Request → Exchange
silent q = timed_out

notify-IsReport_example :
    (r : InvalidationReport) × (notify silent (0 ∷ []) 5 6 slashed slashed (pos 7) two_nodes fresh
      ≡ some (apply_version 5 6 slashed 7 fresh, r, none))
    × IsReport silent slashed slashed (pos 7) two_nodes r
notify-IsReport_example =
    notify-IsReport silent (0 ∷ []) 5 6 slashed slashed 7 two_nodes fresh two_nodes-IsConsistent
      slashed_valid one_job

abbrev no_tables : Tables
no_tables = record { products = []; outbox = []; next_id = 1 }

abbrev red : Bytes
red = 114 ∷ []

red_valid : validate_value slashed red ≡ none
unfolding validate_value validate_key
red_valid = refl

execute_mutation-Settled_example :
    (x : Tables × Group × MutationOutcome) × (execute_mutation
        (postgres lost_after none 20)
        (router silent (0 ∷ []) 5 6 slashed two_nodes two_nodes-IsConsistent one_job)
        (put_command slashed red (pos 0))
        no_tables
        fresh
      ≡ some x)
    × Settled 20 slashed (live red) (Matches 0 slashed no_tables) lost_after no_tables fresh x
execute_mutation-Settled_example =
    execute_mutation-Settled silent (0 ∷ []) 5 6 slashed two_nodes two_nodes-IsConsistent one_job
      slashed red 0 lost_after none 20 no_tables fresh (λ e. cc) slashed_valid red_valid
      fresh-IsSound

-- Two names for two groups.
abbrev two_groups : List (Bytes × Group)
two_groups = (slashed, fresh) ∷ (97 ∷ [], fresh) ∷ []

new_handler_with_token-named_example :
    ((new_handler_with_token token two_groups ≡ none) × (NamesDistinct two_groups → ⊥))
    ⊎ ((h : Handler) × (new_handler_with_token token two_groups ≡ some h)
        × NamesDistinct two_groups
        × (h.token ≡ token)
        × ((k : Bytes) → Maps.get k h.groups ≡ named k two_groups))
new_handler_with_token-named_example = new_handler_with_token-named token two_groups
