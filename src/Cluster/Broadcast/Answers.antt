-- ===== src/Cluster/Broadcast/Answers.antt =====
-- invalidation.go: what the members answered, as the report has it.
use simple_cache.Prelude.{
  ℕ, ◌<◌, ◌≡◌, refl, ◌≢◌, true, none, some, List, [], ◌∷◌, map, Bytes, length, Bytes-discrete,
  arith, Option, if◌then◌else◌, subst, sym, false, ◌↔◌,
}
use simple_cache.Prelude.Int.{ℤ, pos}
use simple_cache.Errors.{validate_key}
use simple_cache.Group.{Group, apply_version}
use simple_cache.Cluster.{
  Request, Exchange, ClientError, bad_version, unacknowledged, unversioned, expired, lost,
  client_invalidate,
}
use simple_cache.Cluster.Directory.{Member, Directory, same_text}
use simple_cache.Cluster.Directory.Updates.{IsConsistent}
use simple_cache.Cluster.Broadcast.{
  Status, ok, failed, unversioned_member, timeout, InvalidationResult, InvalidationReport, is_ok,
  status_of, all_ok, others_of, report_of, notify,
}
use simple_cache.Cluster.Broadcast.Schedules.{has_index}
use simple_cache.Cluster.Broadcast.Reports.{result_of, notify-report_of}

-- The status of a call of the client: its success, an old member, a deadline, or any other error.
pub data Says : Option ClientError → Status → Type 0 where
  succeeded : Says none ok
  too_old : Says (some unversioned) unversioned_member
  late : Says (some expired) timeout
  otherwise : (e : ClientError) → e ≢ unversioned → e ≢ expired → Says (some e) failed

status_of-Says : (r : Option ClientError) → Says r (status_of r)
status_of-Says none = succeeded
status_of-Says (some bad_version) = otherwise bad_version (λ h. cc) (λ h. cc)
status_of-Says (some unacknowledged) = otherwise unacknowledged (λ h. cc) (λ h. cc)
status_of-Says (some unversioned) = too_old
status_of-Says (some expired) = late
status_of-Says (some lost) = otherwise lost (λ h. cc) (λ h. cc)

abbrev pub AllOk : List InvalidationResult → Type 0
AllOk [] = Unit
AllOk (r ∷ l) = (r.status ≡ ok) × AllOk l

is_ok-ok : (s : Status) → is_ok s ≡ true → s ≡ ok
is_ok-ok ok h = refl
is_ok-ok failed h = cc
is_ok-ok unversioned_member h = cc
is_ok-ok timeout h = cc
is_ok-ok Status.unset h = cc

all_ok-AllOk : (l : List InvalidationResult) → all_ok l ≡ true → AllOk l
unfolding all_ok
all_ok-AllOk [] h = tt
all_ok-AllOk (r ∷ l) h = (is_ok-ok r.status (ground arith), all_ok-AllOk l (ground arith))

AllOk-all_ok : (l : List InvalidationResult) → AllOk l → all_ok l ≡ true
unfolding all_ok
AllOk-all_ok [] h = refl
AllOk-all_ok (r ∷ l) (e, h) = rw (e, AllOk-all_ok l h) refl

module _ (exchange : Request → Exchange) (name key : Bytes) (version : ℤ) (d : Directory) where
  -- The members but the node itself, in their order, each asked at its address with the token.
  pub data Asked : List Member → List InvalidationResult → Type 0 where
    done : Asked [] []
    itself :
        {m : Member} {l : List Member} {r : List InvalidationResult}
        → m.id ≡ d.self_id
        → Asked l r
        → Asked (m ∷ l) r
    asked :
        {m : Member} {l : List Member} {r : List InvalidationResult} (s : Status)
        → m.id ≢ d.self_id
        → Says
            (client_invalidate exchange
              (record { address = m.address; token = d.token })
              name
              key
              version)
            s
        → Asked l r
        → Asked (m ∷ l) (record { node = m.id; status = s } ∷ r)

  others_of-Asked :
      (order : List ℕ) (l : List Member)
      → Asked l (map (result_of exchange order name key version d) (others_of d.self_id l))
  unfolding others_of
  others_of-Asked order [] = done
  others_of-Asked order (m ∷ l) =
      let rest = others_of-Asked order l in
      let results = map (result_of exchange order name key version d) in
      elim (Bytes-discrete m.id d.self_id) [
        | yes p ↦
            let same : same_text m.id d.self_id ≡ true = ground arith in
            subst
              (λ b.
                Asked (m ∷ l)
                  (results (if b then others_of d.self_id l else m ∷ others_of d.self_id l)))
              (sym same) (itself p rest)
        | no p ↦
            let same : same_text m.id d.self_id ≡ false = ground arith in
            subst
              (λ b.
                Asked (m ∷ l)
                  (results (if b then others_of d.self_id l else m ∷ others_of d.self_id l)))
              (sym same) (asked _ p (status_of-Says _) rest)
      ]

-- The report of an invalidation that was sent as `sent` to the members of `d`.
pub record IsReport (exchange : Request → Exchange) (name key : Bytes) (sent : ℤ) (d : Directory)
    (r : InvalidationReport) : Type 0 where
  pub known_members : r.known_members ≡ length d.state.members
  pub version : r.version ≡ sent
  pub results :
      (others : List InvalidationResult) × (r.results
        ≡ record { node = d.self_id; status = ok } ∷ others)
      × Asked exchange name key sent d d.state.members others
  pub complete : r.complete ≡ true ↔ AllOk r.results

-- InvalidateVersion of an accepted key and version, in a directory that Update keeps consistent. In whatever
-- order the workers end, once every member has been asked, it does not panic and has no error: the group of
-- the node is invalidated, and the report counts the members and has the version, the node itself as `ok`,
-- and each other member in the order of the members with the outcome of the call at its address with the
-- token: `ok` on success, an old member and a timeout told apart, `failed` on any other error. It is
-- complete exactly where all of them are `ok`.
pub notify-IsReport :
    (exchange : Request → Exchange) (order : List ℕ) (now later : ℕ) (name key : Bytes)
    (version : ℕ) (d : Directory) (g : Group)
    → IsConsistent d
    → validate_key key ≡ none
    → ((i : ℕ) → i < length (others_of d.self_id d.state.members) → has_index i order ≡ true)
    → (r : InvalidationReport) × (notify exchange order now later name key (pos version) d g
        ≡ some (apply_version now later key version g, r, none))
      × IsReport exchange name key (pos version) d r
notify-IsReport exchange order now later name key version d g c valid covered = (
  report_of d (pos version) (
      map (result_of exchange order name key (pos version) d)
        (others_of d.self_id d.state.members)),
  notify-report_of exchange order now later name key version d g c valid covered,
  record {
    known_members = refl;
    version = refl;
    results = (_, refl, others_of-Asked exchange name key (pos version) d order d.state.members);
    complete = (all_ok-AllOk _, AllOk-all_ok _);
  },
)
