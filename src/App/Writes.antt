-- ===== src/App/Writes.antt =====
-- mutations.go over the PostgreSQL source and the directory of the cluster: what a conditional write leaves
-- in the source and in the group of the node.
use simple_cache.Prelude.{
  ℕ, suc, ◌<◌, ◌≡◌, refl, ap, ◌∙◌, ◌≢◌, inl, inr, true, Option, none, some, List, map, Bytes,
  length, arith,
}
use simple_cache.Prelude.Int.{pos}
use simple_cache.Errors.{Error, precondition_failed, validate_key}
use simple_cache.Group.{Group, apply_version}
use simple_cache.Group.Forced.{apply_version_forced}
use simple_cache.Group.Invariant.{IsSound}
use simple_cache.Group.Invalidation.{apply_version-Invalidated}
use simple_cache.Store.{
  Product, Tables, Trip, live, tombstone, validate_value, put_if_version, delete_if_version,
}
use simple_cache.Store.Generations.{version_of, Matches}
use simple_cache.Store.Commits.{
  Conditional, put_if_version-Conditional, delete_if_version-Conditional,
}
use simple_cache.Cluster.{Request, Exchange}
use simple_cache.Cluster.Directory.{Directory}
use simple_cache.Cluster.Directory.Updates.{IsConsistent}
use simple_cache.Cluster.Broadcast.{InvalidationReport, others_of, report_of, notify}
use simple_cache.Cluster.Broadcast.Schedules.{has_index}
use simple_cache.Cluster.Broadcast.Reports.{result_of, notify-report_of}
use simple_cache.App.Mutations.{
  MutationInvalidator, MutationCommand, MutationOutcome, response_of, reported, refused_outcome,
  remark_of, after_write, written, execute_mutation,
}
use simple_cache.App.Outcomes.{
  error_cases, after_write_failed, postgres, put_command, delete_command, Settled,
  committed-Settled, refused-Settled,
}

not_done : (e : Error) → some e ≢ none
not_done e h = cc

module _ (exchange : Request → Exchange) (order : List ℕ) (now later : ℕ) (name : Bytes)
    (d : Directory) (c : IsConsistent d)
    (covered : (i : ℕ)
      → i < length (others_of d.self_id d.state.members)
      → has_index i order ≡ true) where
  abbrev pub router : MutationInvalidator
  router key version g = notify exchange order now later name key version d g

  abbrev pub report_at : Bytes → ℕ → InvalidationReport
  report_at key version = report_of d (pos version) (
      map (result_of exchange order name key (pos version) d) (others_of d.self_id d.state.members))

  written-Settled :
      (command : MutationCommand) (at : ℕ) (changed : ℕ → Product) (Fits : Type 0) (trip : Trip)
      (t t' : Tables) (n : ℕ) (e : Option Error) (g : Group)
      → IsSound g
      → validate_key command.key ≡ none
      → command.version ≡ pos 0
      → Conditional at command.key changed Fits trip t (t', n, e)
      → (x : Tables × Group × MutationOutcome) × (written router command (t', pos n, e) g ≡ some x)
        × Settled at command.key changed Fits trip t g x
  unfolding written after_write
  written-Settled command at changed Fits trip t t' n none g sound valid silent h =
      let (fits, stored, v) = h.success refl in
      let next = suc (version_of command.key t) in
      (
        (
          t',
          apply_version now later command.key next g,
          record {
            response = record (response_of (pos next) none) {
              invalidation = some (report_at command.key next);
            };
            write_error = none;
            broadcast_error = none;
          },
        ),
        rw v (
            ap (reported t' (response_of (pos next) none) none) (
              notify-report_of exchange order now later name command.key next d g c valid covered)),
        committed-Settled at command.key changed Fits trip t g _ (record {
          fits = fits;
          tables = stored;
          group = apply_version-Invalidated now later command.key next g sound;
          write_error = refl;
          committed = refl;
          version = refl;
          announced = (report_at command.key next, refl, refl);
          error = refl;
          broadcast_error = refl;
        }),
      )
  written-Settled command at changed Fits trip t t' n (some e) g sound valid silent h =
      elim (error_cases e) [
        | inl refused ↦
            let (same, unfit) = h.refused (ap some refused) in
            (
              (t', g, refused_outcome),
              rw refused refl,
              refused-Settled at command.key changed Fits trip t g _ (record {
                unfit = unfit;
                tables = same;
                group = refl;
                write_error = refl;
                committed = refl;
                version = refl;
                silent = refl;
                error = refl;
              }),
            )
        | inr plain ↦ (
          (
            t',
            apply_version now later command.key 0 g,
            record {
              response = record (response_of (pos n) (some e)) {
                invalidation = some (report_at command.key 0);
                error = remark_of (some e);
              };
              write_error = some e;
              broadcast_error = none;
            },
          ),
          after_write_failed router command t' (pos n) g e plain
              ∙ ap (reported t' (response_of (pos n) (some e)) (some e)) (
                  ap (λ v. router command.key v g) silent
                  ∙ notify-report_of exchange order now later name command.key 0 d g c valid
                      covered),
          record {
            ending = inr (
                inr (record {
                  tables = h.whole;
                  absent = apply_version_forced now later command.key g sound;
                  group = apply_version-Invalidated now later command.key 0 g sound;
                  write_error = (e, refl, plain);
                  committed = refl;
                  version = refl;
                  announced = (report_at command.key 0, refl, refl);
                  error = refl;
                }));
            mismatched = λ a u. absurd (plain (ground (arith, h.mismatched a u)));
            certain = λ a f b. absurd (not_done e (h.certain a f b));
          },
        )
      ]

  -- PUT of an accepted key and value, with the version that the client expects, on a node whose group is
  -- sound and whose directory is consistent, in whatever order the members answer; the context's error is
  -- not that of the condition. It returns, in one of three ways. Refused, with the error of the condition:
  -- no row fits, the tables and the group are as they were, and nothing is announced. Committed, without an
  -- error: the next version of the row is stored and in the response and the report, the group records it
  -- and keeps no older value of the key. Unknown, with another error: the source has done nothing or
  -- committed, the response claims neither, and the key is announced without a version and not resident any
  -- more. A statement that the source answers is refused where no row fits, and committed where one does
  -- below the range of bigint.
  pub execute_mutation-Settled :
      (key value : Bytes) (expected : ℕ) (trip : Trip) (ended : Option Error) (at : ℕ) (t : Tables)
      (g : Group)
      → ended ≢ some precondition_failed
      → validate_key key ≡ none
      → validate_value key value ≡ none
      → IsSound g
      → (x : Tables × Group × MutationOutcome) × (execute_mutation
            (postgres trip ended at)
            router
            (put_command key value (pos expected))
            t
            g
          ≡ some x)
        × Settled at key (live value) (Matches expected key t) trip t g x
  unfolding execute_mutation
  execute_mutation-Settled key value expected trip ended at t g plain valid fine sound =
      let r = put_if_version trip ended at key value (pos expected) t in
      written-Settled (put_command key value (pos expected)) at (live value)
        (Matches expected key t) trip t r.0 r.1 r.2 g sound valid refl
        (put_if_version-Conditional trip ended at key value expected t plain fine)

  -- DELETE, likewise, with a positive version.
  pub execute_deletion-Settled :
      (key : Bytes) (n : ℕ) (trip : Trip) (ended : Option Error) (at : ℕ) (t : Tables) (g : Group)
      → ended ≢ some precondition_failed
      → validate_key key ≡ none
      → IsSound g
      → (x : Tables × Group × MutationOutcome) × (execute_mutation
            (postgres trip ended at)
            router
            (delete_command key (pos (suc n)))
            t
            g
          ≡ some x)
        × Settled at key tombstone (Matches (suc n) key t) trip t g x
  unfolding execute_mutation
  execute_deletion-Settled key n trip ended at t g plain valid sound =
      let r = delete_if_version trip ended at key (pos (suc n)) t in
      written-Settled (delete_command key (pos (suc n))) at tombstone (Matches (suc n) key t) trip t
        r.0 r.1 r.2 g sound valid refl
        (delete_if_version-Conditional trip ended at key n t plain valid)
