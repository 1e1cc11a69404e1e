-- ===== src/App/Outcomes.antt =====
-- mutations.go over the PostgreSQL source: the commands of the API, and how a write may end.
use simple_cache.Prelude.{
  ℕ, suc, ◌≡◌, refl, ◌<◌, ◌^◌, true, false, ◌≢◌, ◌⊎◌, inl, inr, Option, none, some, [], Bytes,
}
use simple_cache.Prelude.Int.{ℤ, pos}
use simple_cache.Errors.{
  Error, not_found, invalid_key, value_too_large, precondition_failed, invalid_version,
  stale_version, overloaded, deadline_exceeded, canceled, unversioned, other,
}
use simple_cache.Area.Laws.{resident}
use simple_cache.Group.{Group}
use simple_cache.Group.Invariant.{Invalidated}
use simple_cache.Store.{Product, Tables, Trip, answered, commit, put_if_version, delete_if_version}
use simple_cache.Cluster.Broadcast.{InvalidationReport}
use simple_cache.Store.Generations.{version_of}
use simple_cache.App.Mutations.{
  MutableSource, MutationInvalidator, MutationCommand, mutation_put, mutation_delete,
  MutationOutcome, response_of, reported, after_write, refresh_and_retry, verify_the_source,
}

pub error_cases : (e : Error) → (e ≡ precondition_failed) ⊎ (e ≢ precondition_failed)
error_cases precondition_failed = inl refl
error_cases not_found = inr (λ h. cc)
error_cases invalid_key = inr (λ h. cc)
error_cases value_too_large = inr (λ h. cc)
error_cases invalid_version = inr (λ h. cc)
error_cases stale_version = inr (λ h. cc)
error_cases overloaded = inr (λ h. cc)
error_cases deadline_exceeded = inr (λ h. cc)
error_cases canceled = inr (λ h. cc)
error_cases unversioned = inr (λ h. cc)
error_cases other = inr (λ h. cc)

module _ {S : Type 0} (router : MutationInvalidator) (command : MutationCommand) (s : S) (v : ℤ)
    (g : Group) where
  pub after_write_failed :
      (e : Error)
      → e ≢ precondition_failed
      → after_write router command s v (some e) g
        ≡ reported s (response_of v (some e)) (some e) (router command.key command.version g)
  unfolding after_write
  after_write_failed precondition_failed h = absurd (h refl)
  after_write_failed not_found h = refl
  after_write_failed invalid_key h = refl
  after_write_failed value_too_large h = refl
  after_write_failed invalid_version h = refl
  after_write_failed stale_version h = refl
  after_write_failed overloaded h = refl
  after_write_failed deadline_exceeded h = refl
  after_write_failed canceled h = refl
  after_write_failed unversioned h = refl
  after_write_failed other h = refl

-- The source of postgres.go, with what the connection, the context and the clock bring.
abbrev pub as_version : Tables × ℕ × Option Error → Tables × ℤ × Option Error
as_version (t, v, e) = (t, pos v, e)

abbrev pub postgres : Trip → Option Error → ℕ → MutableSource Tables
postgres trip ended now = record {
  put_if_version =
      λ key value expected t. as_version (put_if_version trip ended now key value expected t);
  delete_if_version =
      λ key expected t. as_version (delete_if_version trip ended now key expected t);
}

abbrev pub put_command : Bytes → Bytes → ℤ → MutationCommand
put_command key value expected = record {
  kind = mutation_put;
  key = key;
  value = value;
  expected = expected;
  version = pos 0;
}

abbrev pub delete_command : Bytes → ℤ → MutationCommand
delete_command key expected = record {
  kind = mutation_delete;
  key = key;
  value = [];
  expected = expected;
  version = pos 0;
}

-- A refusal, in which nothing has changed and which announces nothing.
pub record IsRefused (Fits : Type 0) (t : Tables) (g : Group) (x : Tables × Group × MutationOutcome)
    : Type 0 where
  pub unfit : Fits → ⊥
  pub tables : x.0 ≡ t
  pub group : x.1 ≡ g
  pub write_error : x.2.write_error ≡ some precondition_failed
  pub committed : x.2.response.source_committed ≡ some false
  pub version : x.2.response.source_version ≡ none
  pub silent : x.2.response.invalidation ≡ none
  pub error : x.2.response.error ≡ some refresh_and_retry

-- The next version of the row is committed, and the report and the group are about that version.
pub record IsCommitted (now : ℕ) (key : Bytes) (changed : ℕ → Product) (Fits : Type 0) (t : Tables)
    (g : Group) (x : Tables × Group × MutationOutcome) : Type 0 where
  pub fits : Fits
  pub tables : x.0 ≡ commit now key (changed (suc (version_of key t))) t
  pub group : Invalidated key (suc (version_of key t)) g x.1
  pub write_error : x.2.write_error ≡ none
  pub committed : x.2.response.source_committed ≡ some true
  pub version : x.2.response.source_version ≡ some (pos (suc (version_of key t)))
  pub announced :
      (report : InvalidationReport) × (x.2.response.invalidation ≡ some report)
      × (report.version ≡ pos (suc (version_of key t)))
  pub error : x.2.response.error ≡ none
  pub broadcast_error : x.2.broadcast_error ≡ none

-- The source failed otherwise. It may have committed, so the key is invalidated without a version.
pub record IsUnknown (now : ℕ) (key : Bytes) (changed : ℕ → Product) (Fits : Type 0) (t : Tables)
    (g : Group) (x : Tables × Group × MutationOutcome) : Type 0 where
  pub tables : (x.0 ≡ t) ⊎ (Fits × (x.0 ≡ commit now key (changed (suc (version_of key t))) t))
  pub absent : resident key x.1.main_cache ≡ none
  pub group : Invalidated key 0 g x.1
  pub write_error : (e : Error) × (x.2.write_error ≡ some e) × (e ≢ precondition_failed)
  pub committed : x.2.response.source_committed ≡ none
  pub version : x.2.response.source_version ≡ none
  pub announced :
      (report : InvalidationReport) × (x.2.response.invalidation ≡ some report)
      × (report.version ≡ pos 0)
  pub error : x.2.response.error ≡ some verify_the_source

-- A write ends in one of three ways. An answered one that finds no row that fits is refused, and one that
-- does, below the range of the generations, is committed.
pub record Settled (now : ℕ) (key : Bytes) (changed : ℕ → Product) (Fits : Type 0) (trip : Trip)
    (t : Tables) (g : Group) (x : Tables × Group × MutationOutcome) : Type 0 where
  pub ending :
      IsRefused Fits t g x
      ⊎ (IsCommitted now key changed Fits t g x ⊎ IsUnknown now key changed Fits t g x)
  pub mismatched : trip ≡ answered → (Fits → ⊥) → IsRefused Fits t g x
  pub certain :
      trip ≡ answered
      → Fits
      → suc (version_of key t) < 2 ^ 63
      → IsCommitted now key changed Fits t g x

module _ (now : ℕ) (key : Bytes) (changed : ℕ → Product) (Fits : Type 0) (trip : Trip) (t : Tables)
    (g : Group) (x : Tables × Group × MutationOutcome) where
  pub refused-Settled : IsRefused Fits t g x → Settled now key changed Fits trip t g x
  refused-Settled h = record {
    ending = inl h;
    mismatched = λ a u. h;
    certain = λ a f b. absurd (h.unfit f);
  }

  pub committed-Settled :
      IsCommitted now key changed Fits t g x → Settled now key changed Fits trip t g x
  committed-Settled h = record {
    ending = inr (inl h);
    mismatched = λ a u. absurd (u h.fits);
    certain = λ a f b. h;
  }
