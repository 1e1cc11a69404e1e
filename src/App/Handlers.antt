-- ===== src/App/Handlers.antt =====
-- internal/app/mutations_http.go and internal/app/api.go: the handlers, one function for each stage. Metrics
-- are left out.
pub mod Guards
use Prim.Native.String.{String}
use simple_cache.Prelude.{
  ℕ, zero, suc, Bool, true, false, not, ◌&&◌, ◌||◌, Option, none, some, List, [], ◌∷◌, ◌++◌, Bytes,
  ltb, ◌==◌, if◌then◌else◌,
}
use simple_cache.Prelude.Int.{ℤ, pos, negsuc}
use simple_cache.Prelude.Decimal.{format}
use simple_cache.Errors.{Error, precondition_failed, overloaded, result, validate_key}
use simple_cache.Area.{ByteView}
use simple_cache.Group.{Group}
use simple_cache.Protocol.{authorized, status, parse_invalidation_version}
use simple_cache.Cluster.{Method, get, put, post, delete}
use simple_cache.Cluster.Broadcast.{InvalidationReport}
use simple_cache.App.Tags.{version_etag, mutation_precondition, is_put}
use simple_cache.App.Keys.{request_key}
use simple_cache.App.Mutations.{
  MutableSource, MutationInvalidator, MutationKind, mutation_notify, mutation_put, mutation_delete,
  MutationCommand, MutationResponse, MutationOutcome, execute_mutation,
}
use simple_cache.App.Responses.{
  Body, ApiRequest, Payload, ApiResponse, http_error, stored_error, Handled, failed, etag_of, etags,
  status_after, label_after, respond, respond_broadcast, respond_write, respond_outcome, unreadable,
  not_json, json, text, mutation, octets,
}

abbrev pub kind_of : Bool → Method → MutationKind
kind_of true method = mutation_notify
kind_of false method = if is_put method then mutation_put else mutation_delete

-- mutate, for the source and the router that the options bring. `slot_free` says that a write slot is free.
module _ {S : Type 0} (source : MutableSource S) (router : MutationInvalidator)
    (invalidate_only : Bool) (q : ApiRequest) where
  unfoldable pub mutate_command : Bytes → ℕ → Bytes → ℕ → S → Group → Handled S
  unfolding respond_write execute_mutation
  mutate_command key version value expected s g = respond_outcome (is_put q.method) (
      execute_mutation source router
        (record {
          kind = kind_of invalidate_only q.method;
          key = key;
          value = value;
          expected = pos expected;
          version = pos version;
        })
        s g)

  -- The expected version, unless the request only invalidates.
  abbrev pub mutate_expected : Bytes → ℕ → Bytes → ℕ × ℕ → S → Group → Handled S
  mutate_expected key version value (expected, code) s g =
      if code == 0
      then mutate_command key version value expected s g
      else failed (stored_error code) s g

  unfoldable pub mutate_live : Bytes → ℕ → Bytes → S → Group → Handled S
  unfolding mutate_command mutation_precondition
  mutate_live key version value s g =
      if q.ended
      then failed (http_error 0) s g
      else if invalidate_only
      then mutate_command key version value 0 s g
      else mutate_expected key version value
          (mutation_precondition q.method q.if_match q.if_none_match) s g

  abbrev pub mutate_read : Bytes → ℕ → Body → S → Group → Handled S
  mutate_read key version unreadable s g = failed (http_error 413) s g
  mutate_read key version not_json s g = failed (http_error 400) s g
  mutate_read key version (json value) s g = mutate_live key version value s g

  unfoldable pub mutate_slot : Bool → Bytes → ℕ → S → Group → Handled S
  unfolding mutate_live
  mutate_slot slot_free key version s g =
      if not slot_free
      then some (s, g, record (stored_error 503) { retry_after = true }, "overloaded")
      else if is_put q.method
      then mutate_read key version q.body s g
      else mutate_live key version [] s g

  abbrev pub mutate_version : Bool → Bytes → ℕ × Option Error → S → Group → Handled S
  mutate_version slot_free key (version, some e) s g = failed (http_error 400) s g
  mutate_version slot_free key (version, none) s g =
      if not invalidate_only && not (version == 0)
      then failed (http_error 400) s g
      else mutate_slot slot_free key version s g

  abbrev pub mutate_key : Bool → Bytes × Option Error → S → Group → Handled S
  mutate_key slot_free (key, some e) s g = failed (http_error 400) s g
  mutate_key slot_free (key, none) s g = elim (validate_key key) [
    | some e ↦ failed (http_error 400) s g
    | none ↦ mutate_version slot_free key (parse_invalidation_version q.versions) s g
  ]

  unfoldable pub mutate : Bytes → Bool → S → Group → Handled S
  unfolding mutate_slot request_key
  mutate token slot_free s g =
      if not (authorized q.authorization token)
      then failed (http_error 401) s g
      else mutate_key slot_free (request_key q.raw_query) s g

abbrev pub is_get : Method → Bool
is_get get = true
is_get _ = false

abbrev pub is_write : Method → Bool
is_write put = true
is_write delete = true
is_write _ = false

abbrev pub is_post : Method → Bool
is_post post = true
is_post _ = false

-- What Group.Get gives for a key, which is the parameter `get_view`.
abbrev pub GetView : Type 0
GetView = Bytes → Group → Option (Group × ByteView × Option Error)

abbrev pub is_overloaded : Error → Bool
is_overloaded overloaded = true
is_overloaded _ = false

abbrev pub viewed : {S : Type 0} → S → Option (Group × ByteView × Option Error) → Handled S
viewed s none = none
viewed s (some (g, view, some e)) =
    some (
      s,
      g,
      record (http_error (status (some e))) { retry_after = is_overloaded e },
      result (some e),
    )
viewed s (some (g, view, none)) = some (
  s,
  g,
  record {
    code = 200;
    etag = if ltb 0 view.version then version_etag view.version ∷ [] else [];
    retry_after = false;
    no_store = false;
    payload = octets view.b;
  },
  "ok",
)

abbrev pub read_key : {S : Type 0} → GetView → Bytes × Option Error → S → Group → Handled S
read_key get_view (key, some e) s g = failed (http_error 400) s g
read_key get_view (key, none) s g = viewed s (get_view key g)

module _ {S : Type 0} (source : MutableSource S) (router : MutationInvalidator)
    (get_view : GetView) where
  -- The handler of /api.
  unfoldable pub serve_api : Bool → Bool → Bytes → Bool → ApiRequest → S → Group → Handled S
  unfolding mutate request_key
  serve_api ready writable token slot_free q s g =
      if not (is_get q.method) && not (writable && is_write q.method)
      then failed (http_error 405) s g
      else if not ready
      then failed (http_error 503) s g
      else if writable && is_write q.method
      then mutate source router false q token slot_free s g
      else read_key get_view (request_key q.raw_query) s g

  -- The handler of /invalidate.
  unfoldable pub serve_invalidate : Bool → Bytes → Bool → ApiRequest → S → Group → Handled S
  unfolding mutate
  serve_invalidate ready token slot_free q s g =
      if not (is_post q.method)
      then failed (http_error 405) s g
      else if not ready
      then failed (http_error 503) s g
      else mutate source router true q token slot_free s g
