-- ===== src/Tests/Requests.antt =====
-- The API of mutations_http.go and api.go at fixed inputs.
use simple_cache.Prelude.{
  ◌≡◌, ◌↔◌, refl, ◌⊎◌, true, false, none, some, [], ◌∷◌, ◌++◌, Bytes, Bytes-discrete, arith,
}
use simple_cache.Cluster.Paths.{path_unescape}
use simple_cache.Errors.{valid_string, other, validate_key}
use simple_cache.Group.{Group, empty_group}
use simple_cache.Cluster.{put}
use simple_cache.Cluster.Broadcast.{empty_report}
use simple_cache.Store.{Tables, answered}
use simple_cache.App.Mutations.{MutationInvalidator}
use simple_cache.App.Outcomes.{postgres}
use simple_cache.App.Tags.{version_etag, trim_space, mutation_precondition}
use simple_cache.App.Tags.Preconditions.{mutation_precondition-version_etag}
use simple_cache.App.Keys.{key_prefix, wire_key, request_key}
use simple_cache.App.Keys.Forms.{request_key-canonical}
use simple_cache.App.Responses.{ApiRequest, json}
use simple_cache.App.Handlers.{mutate}
use simple_cache.App.Handlers.Guards.{Untouched, Admitted, mutate-Admitted}

mutation_precondition-version_etag_example :
    mutation_precondition put (version_etag 12 ∷ []) [] ≡ (12, 0)
mutation_precondition-version_etag_example = mutation_precondition-version_etag put 11 (omega arith)

-- " *", for a creation
spaced_star : mutation_precondition put [] ((32 ∷ 42 ∷ []) ∷ []) ≡ (0, 0)
unfolding mutation_precondition trim_space Bytes-discrete
spaced_star = refl

-- "a b"
abbrev spaced : Bytes
spaced = 97 ∷ 32 ∷ 98 ∷ []

request_key-canonical_example : (request_key (key_prefix ++ wire_key spaced) ≡ (spaced, none)) ↔ (
    (validate_key spaced ≡ none) × (key_prefix ++ wire_key spaced ≡ key_prefix ++ wire_key spaced))
request_key-canonical_example = request_key-canonical (key_prefix ++ wire_key spaced) spaced

-- "key=a%20b"
spaced_wire : wire_key spaced ≡ 97 ∷ 37 ∷ 50 ∷ 48 ∷ 98 ∷ []
unfolding wire_key
spaced_wire = refl

-- "key=a+b" is refused.
plus-refused : request_key (key_prefix ++ 97 ∷ 43 ∷ 98 ∷ []) ≡ ([], some other)
unfolding request_key Bytes-discrete path_unescape valid_string validate_key
plus-refused = refl

abbrev tables : Tables
tables = record { products = []; outbox = []; next_id = 1 }

abbrev group : Group
group =
    empty_group 4096
      (record {
        ttl = 60000000000;
        source_timeout = 800000000;
        epoch_buckets = 256;
        max_miss_waiters = 128;
        cleanup_interval = 1000000000;
        cleanup_batch = 128;
      })
      none

abbrev no_members : MutationInvalidator
no_members key version g = some (g, empty_report, none)

-- "Bearer t" writes a value under "a", in place of version 12.
abbrev write_request : ApiRequest
write_request = record {
  method = put;
  raw_query = key_prefix ++ 97 ∷ [];
  authorization = 66 ∷ 101 ∷ 97 ∷ 114 ∷ 101 ∷ 114 ∷ 32 ∷ 116 ∷ [];
  versions = [];
  if_match = version_etag 12 ∷ [];
  if_none_match = [];
  body = json (49 ∷ []);
  ended = false;
}

mutate-Admitted_example :
    Untouched (postgres answered none 20) no_members false write_request tables group (
      mutate
        (postgres answered none 20)
        no_members
        false
        write_request
        (116 ∷ [])
        true
        tables
        group)
    ⊎ Admitted
        (postgres answered none 20)
        no_members
        false
        write_request
        tables
        group
        (116 ∷ [])
        true
        (mutate
          (postgres answered none 20)
          no_members
          false
          write_request
          (116 ∷ [])
          true
          tables
          group)
mutate-Admitted_example =
    mutate-Admitted (postgres answered none 20) no_members false write_request tables group
      (116 ∷ []) true
