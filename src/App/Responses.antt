-- ===== src/App/Responses.antt =====
-- internal/app/mutations_http.go and internal/app/api.go: requests, responses, and the response to the outcome
-- of a mutation. A handler of the state of the source and the group gives both after it, the response and
-- the label of the result; `none` is a panic.
use Prim.Native.String.{String}
use simple_cache.Prelude.{
  ℕ, suc, Bool, true, false, Option, none, some, List, [], ◌∷◌, ◌++◌, Bytes, if◌then◌else◌,
}
use simple_cache.Prelude.Int.{ℤ, pos, negsuc}
use simple_cache.Prelude.Decimal.{format}
use simple_cache.Errors.{Error, precondition_failed, result}
use simple_cache.Group.{Group}
use simple_cache.Protocol.{status}
use simple_cache.Cluster.{Method}
use simple_cache.Cluster.Broadcast.{InvalidationReport}
use simple_cache.App.Tags.{version_etag}
use simple_cache.App.Mutations.{MutationResponse, MutationOutcome}

-- The body as it is read: too large or broken, or not JSON, or JSON.
pub data Body : Type 0 where
  unreadable not_json : Body
  json : Bytes → Body

-- `ended` says that r.Context() has an error when the body is read.
pub record ApiRequest : Type 0 where
  pub method : Method
  pub raw_query : Bytes
  pub authorization : Bytes
  pub versions : List Bytes
  pub if_match : List Bytes
  pub if_none_match : List Bytes
  pub body : Body
  pub ended : Bool

pub data Payload : Type 0 where
  text : Payload
  mutation : MutationResponse → Payload
  octets : Bytes → Payload

-- The status is 0 where nothing is written.
pub record ApiResponse : Type 0 where
  pub code : ℕ
  pub etag : List Bytes
  pub retry_after : Bool
  pub no_store : Bool
  pub payload : Payload

abbrev pub http_error : ℕ → ApiResponse
http_error code = record {
  code = code;
  etag = [];
  retry_after = false;
  no_store = false;
  payload = text;
}

-- http.Error past `Cache-Control: no-store`.
abbrev pub stored_error : ℕ → ApiResponse
stored_error code = record (http_error code) { no_store = true }

abbrev pub Handled : Type 0 → Type 0
Handled S = Option (S × Group × ApiResponse × String)

abbrev pub failed : {S : Type 0} → ApiResponse → S → Group → Handled S
failed response s g = some (s, g, response, "error")

-- versionETag
abbrev pub etag_of : ℤ → Bytes
etag_of (pos n) = version_etag n
etag_of (negsuc n) = 34 ∷ 118 ∷ 45 ∷ (format (suc n) ++ 34 ∷ [])

abbrev pub etags : Bool → Option Error → Option ℤ → List Bytes
etags true none (some version) = etag_of version ∷ []
etags _ _ _ = []

abbrev pub status_after : Option Error → InvalidationReport → ℕ
status_after none report = if report.complete then 200 else 202
status_after (some e) report = status (some e)

abbrev pub label_after : Option Error → InvalidationReport → String
label_after none report = if report.complete then "ok" else "partial"
label_after (some e) report = result (some e)

-- The response to a broadcast that gave a report.
unfoldable pub respond : {S : Type 0} → Bool → MutationOutcome → S → Group → Handled S
respond putting o s g = elim o.response.invalidation [
  | none ↦ none
  | some report ↦ some (
    s,
    g,
    record {
      code = status_after o.write_error report;
      etag = etags putting o.write_error o.response.source_version;
      retry_after = false;
      no_store = true;
      payload = mutation o.response;
    },
    label_after o.write_error report,
  )
]

unfoldable pub respond_broadcast : {S : Type 0} → Bool → MutationOutcome → S → Group → Handled S
unfolding respond
respond_broadcast putting o s g = elim o.broadcast_error [
  | some e ↦ failed (stored_error (status (some e))) s g
  | none ↦ respond putting o s g
]

unfoldable pub respond_write :
    {S : Type 0} → Bool → Option Error → MutationOutcome → S → Group → Handled S
unfolding respond_broadcast
respond_write putting (some precondition_failed) o s g = some (
  s,
  g,
  record {
    code = 412;
    etag = [];
    retry_after = false;
    no_store = true;
    payload = mutation o.response;
  },
  "precondition_failed",
)
respond_write putting e o s g = respond_broadcast putting o s g

abbrev pub respond_outcome : {S : Type 0} → Bool → Option (S × Group × MutationOutcome) → Handled S
respond_outcome putting none = none
respond_outcome putting (some (s, g, o)) = respond_write putting o.write_error o s g
