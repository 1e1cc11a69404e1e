-- ===== src/Cluster/Broadcast/Reports.antt =====
-- invalidation.go: what the report of an invalidation says.
use simple_cache.Prelude.{
  ℕ, suc, ◌<◌, ◌≡◌, refl, ap, inl, inr, true, none, some, List, [], ◌∷◌, map, Bytes, length,
  Bool-cases, arith,
}
use simple_cache.Prelude.Int.{ℤ, pos}
use simple_cache.Prelude.Maps.{StringMap}
use simple_cache.Errors.{validate_key}
use simple_cache.Group.{Group, apply_version}
use simple_cache.Cluster.{Client, Request, Exchange, client_invalidate}
use simple_cache.Cluster.Exchanges.{invalidate_version_accepted}
use simple_cache.Cluster.Directory.{Member, Directory, same_text, client_of}
use simple_cache.Cluster.Directory.Order.{AllMembers}
use simple_cache.Cluster.Directory.Updates.{IsConsistent, HasClient}
use simple_cache.Cluster.Broadcast.{
  Status, InvalidationResult, status_of, others_of, clients_for, unset_result, report_of, broadcast,
  notify,
}
use simple_cache.Cluster.Broadcast.Schedules.{has_index, filled, run_jobs-filled}

others_of-AllMembers :
    (P : Member → Type 0) (self_id : Bytes) (l : List Member)
    → AllMembers P l
    → AllMembers P (others_of self_id l)
unfolding others_of AllMembers
others_of-AllMembers P self_id [] h = tt
others_of-AllMembers P self_id (m ∷ l) (p, h) = elim (Bool-cases (same_text m.id self_id)) [
  | inl self ↦ rw self (others_of-AllMembers P self_id l h)
  | inr other ↦ rw other (p, others_of-AllMembers P self_id l h)
]

-- No client is nil.
clients_for-AllMembers :
    (token : Bytes) (clients : StringMap Client) (l : List Member)
    → AllMembers (HasClient token clients) l
    → clients_for clients l ≡ some (map (client_of token) l)
unfolding clients_for AllMembers
clients_for-AllMembers token clients [] h = refl
clients_for-AllMembers token clients (m ∷ l) (found, h) =
    let rest = clients_for-AllMembers token clients l h in rw (found, rest) refl

module _ (exchange : Request → Exchange) (order : List ℕ) (name key : Bytes) (version : ℤ)
    (d : Directory) where
  -- What the member answers.
  abbrev pub result_of : Member → InvalidationResult
  result_of m = record {
    node = m.id;
    status = status_of (client_invalidate exchange (client_of d.token m) name key version);
  }

  abbrev status_at : Client → Status
  status_at c = status_of (client_invalidate exchange c name key version)

  filled-map :
      (l : List Member)
      → filled (map status_at (map (client_of d.token) l)) (map unset_result l) ≡ map result_of l
  unfolding filled
  filled-map [] = refl
  filled-map (m ∷ l) = ap (λ k. result_of m ∷ k) (filled-map l)

  length-statuses :
      (l : List Member) → length (map status_at (map (client_of d.token) l)) ≡ length l
  length-statuses [] = refl
  length-statuses (m ∷ l) = ap suc (length-statuses l)

  pub broadcast-report_of :
      IsConsistent d
      → ((i : ℕ) → i < length (others_of d.self_id d.state.members) → has_index i order ≡ true)
      → broadcast exchange order name key version d
        ≡ some (report_of d version (map result_of (others_of d.self_id d.state.members)))
  unfolding broadcast
  broadcast-report_of c covered =
      let others = others_of d.self_id d.state.members in
      let nonnil = clients_for-AllMembers d.token d.state.clients others (
        others_of-AllMembers (HasClient d.token d.state.clients) d.self_id d.state.members
          c.reachable) in
      let done =
        run_jobs-filled (map status_at (map (client_of d.token) others)) order
          (map unset_result others) (λ i b. covered i (omega (arith, b, length-statuses others))) in
      rw (nonnil, broadcast, done, filled-map others) refl

-- InvalidateVersion with its workers in any order is that of asking the other members in turn.
pub notify-report_of :
    (exchange : Request → Exchange) (order : List ℕ) (now later : ℕ) (name key : Bytes)
    (version : ℕ) (d : Directory) (g : Group)
    → IsConsistent d
    → validate_key key ≡ none
    → ((i : ℕ) → i < length (others_of d.self_id d.state.members) → has_index i order ≡ true)
    → notify exchange order now later name key (pos version) d g
      ≡ some (
        apply_version now later key version g,
        report_of d (pos version) (
            map
              (result_of exchange order name key (pos version) d)
              (others_of d.self_id d.state.members)),
        none,
      )
unfolding notify
notify-report_of exchange order now later name key version d g c valid covered =
    rw
      (
        invalidate_version_accepted now later key version g valid,
        notify,
        broadcast-report_of exchange order name key (pos version) d c covered,
      )
      refl
