-- ===== src/Cluster/Broadcast.antt =====
-- internal/cluster/invalidation.go: Directory.InvalidateVersion. The workers write the slots of the report
-- in some order, `order`; what the network gives for a request is `exchange`, a function: the deadline that
-- all jobs share is one of its answers, and two members at one address are not told apart by it.
pub mod Schedules
pub mod Reports
pub mod Answers
use simple_cache.Prelude.{
  ℕ, zero, suc, ite, Bool, true, false, not, ◌&&◌, ◌||◌, Option, none, some, List, [], ◌∷◌, map,
  Bytes, get_elem?, length, ◌==◌, if◌then◌else◌,
}
use simple_cache.Prelude.Int.{ℤ, pos, negsuc}
use simple_cache.Prelude.Maps
use simple_cache.Prelude.Maps.{StringMap}
use simple_cache.Errors.{Error}
use simple_cache.Group.{Group, invalidate_version}
use simple_cache.Cluster.{
  Client, Request, Exchange, ClientError, unversioned, expired, client_invalidate,
}
use simple_cache.Cluster.Directory.{Member, Directory, same_text}

-- The texts of a status; `unset` is the empty one.
pub data Status : Type 0 where
  ok failed unversioned_member timeout unset : Status

pub record InvalidationResult : Type 0 where
  pub node : Bytes
  pub status : Status

pub record InvalidationReport : Type 0 where
  pub known_members : ℕ
  pub version : ℤ
  pub complete : Bool
  pub results : List InvalidationResult

abbrev pub status_of : Option ClientError → Status
status_of none = ok
status_of (some unversioned) = unversioned_member
status_of (some expired) = timeout
status_of (some _) = failed

unfoldable pub others_of : Bytes → List Member → List Member
others_of self_id [] = []
others_of self_id (m ∷ l) =
    let rest = others_of self_id l in if same_text m.id self_id then rest else m ∷ rest

abbrev pub with_client : Option Client → Option (List Client) → Option (List Client)
with_client none r = none
with_client (some c) none = none
with_client (some c) (some l) = some (c ∷ l)

-- The clients of the members; `none` is a nil client among them, on which a worker would panic.
unfoldable pub clients_for : StringMap Client → List Member → Option (List Client)
clients_for clients [] = some []
clients_for clients (m ∷ l) = with_client (Maps.get m.id clients) (clients_for clients l)

-- report.Results[i].Status = status
unfoldable pub set_status : ℕ → Status → List InvalidationResult → List InvalidationResult
set_status i status [] = []
set_status zero status (r ∷ l) = record r { status = status } ∷ l
set_status (suc i) status (r ∷ l) = r ∷ set_status i status l

-- The jobs of the workers, in the order in which they end. The slot of a job is given without the first
-- slot of the report, which is that of the node itself.
unfoldable pub run_jobs : List Status → List ℕ → List InvalidationResult → List InvalidationResult
unfolding set_status
run_jobs statuses [] results = results
run_jobs statuses (i ∷ order) results = elim (get_elem? statuses i) [
  | none ↦ run_jobs statuses order results
  | some status ↦ run_jobs statuses order (set_status i status results)
]

abbrev pub is_ok : Status → Bool
is_ok ok = true
is_ok _ = false

unfoldable pub all_ok : List InvalidationResult → Bool
all_ok [] = true
all_ok (r ∷ l) = let rest = all_ok l in is_ok r.status && rest

abbrev pub unset_result : Member → InvalidationResult
unset_result m = record { node = m.id; status = unset }

abbrev pub report_of : Directory → ℤ → List InvalidationResult → InvalidationReport
report_of d version others =
    let results = record { node = d.self_id; status = ok } ∷ others in
    record {
      known_members = length d.state.members;
      version = version;
      complete = all_ok results;
      results = results;
    }

abbrev pub empty_report : InvalidationReport
empty_report = record { known_members = 0; version = pos 0; complete = false; results = [] }

-- The fan-out, past the local invalidation.
unfoldable pub broadcast :
    (Request → Exchange) → List ℕ → Bytes → Bytes → ℤ → Directory → Option InvalidationReport
unfolding others_of clients_for run_jobs all_ok
broadcast exchange order name key version d =
    let others = others_of d.self_id d.state.members in
    elim (clients_for d.state.clients others) [
      | none ↦ none
      | some clients ↦
          let statuses =
            map (λ c. status_of (client_invalidate exchange c name key version)) clients in
          some (report_of d version (run_jobs statuses order (map unset_result others)))
    ]

abbrev pub notified :
    Group × Option Error
    → Option InvalidationReport
    → Option (Group × InvalidationReport × Option Error)
notified (g, some e) r = some (g, empty_report, some e)
notified (g, none) none = none
notified (g, none) (some r) = some (g, r, none)

-- Directory.InvalidateVersion, with the group under its name; `none` is a panic.
unfoldable pub notify :
    (Request → Exchange)
    → List ℕ
    → ℕ
    → ℕ
    → Bytes
    → Bytes
    → ℤ
    → Directory
    → Group
    → Option (Group × InvalidationReport × Option Error)
unfolding broadcast
notify exchange order now later name key version d g =
    notified (invalidate_version now later key version g)
      (broadcast exchange order name key version d)
