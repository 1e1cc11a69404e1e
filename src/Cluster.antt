-- ===== src/Cluster.antt =====
-- internal/cluster/invalidation.go and internal/cluster/server.go: the message that invalidates a key on
-- another member. A request has the escaped path and the values of the headers that the code reads.
pub mod Paths
pub mod Escapes
pub mod Exchanges
pub mod Directory
pub mod Broadcast
pub mod Groups
use simple_cache.Prelude.{
  ℕ, zero, suc, Bool, true, false, not, ◌&&◌, ◌||◌, Option, none, some, List, [], ◌∷◌, ◌++◌, Bytes,
  ◌==◌, if◌then◌else◌,
}
use simple_cache.Prelude.Int.{ℤ, pos, negsuc}
use simple_cache.Prelude.Maps
use simple_cache.Prelude.Maps.{StringMap}
use simple_cache.Prelude.Decimal.{format}
use simple_cache.Errors.{Error}
use simple_cache.Protocol.{bearer, authorized, status, parse_invalidation_version}
use simple_cache.Group.{Group, invalidate_version}
use simple_cache.Cluster.Paths.{base_path, trim_prefix, split_slash, path_escape, path_unescape}

pub data Method : Type 0 where
  get put post delete other_method : Method

pub record Request : Type 0 where
  pub host : Bytes
  pub method : Method
  pub path : Bytes
  pub authorization : Bytes
  pub versions : List Bytes

pub record Response : Type 0 where
  pub code : ℕ
  pub versions : List Bytes

abbrev pub answer : ℕ → Response
answer code = record { code = code; versions = [] }

-- The version header, which is left out for a forced invalidation.
abbrev pub version_header : ℕ → List Bytes
version_header zero = []
version_header (suc n) = format (suc n) ∷ []

-- Handler. The groups change, so each request gives the handler after it.
pub record Handler : Type 0 where
  pub groups : StringMap Group
  pub token : Bytes

abbrev pub is_delete : Method → Bool
is_delete delete = true
is_delete _ = false

abbrev pub is_empty : Bytes → Bool
is_empty [] = true
is_empty (c ∷ l) = false

-- What g.InvalidateVersion gave.
abbrev pub replied : Bytes → ℕ → Handler → Group × Option Error → Handler × Response
replied name version h (g, some e) =
    (record h { groups = Maps.put name g h.groups }, answer (status (some e)))
replied name version h (g, none) = (
  record h { groups = Maps.put name g h.groups },
  record { code = 204; versions = version_header version },
)

-- What the header gave.
unfoldable pub serve_version :
    ℕ → ℕ → Bytes → Bytes → Group → Handler → ℕ × Option Error → Handler × Response
serve_version now later name key g h (version, some e) = (h, answer (status (some e)))
serve_version now later name key g h (version, none) =
    replied name version h (invalidate_version now later key (pos version) g)

unfoldable pub serve_group :
    ℕ → ℕ → List Bytes → Bytes → Bytes → Option Group → Handler → Handler × Response
unfolding serve_version
serve_group now later versions name key none h = (h, answer 404)
serve_group now later versions name key (some g) h =
    serve_version now later name key g h (parse_invalidation_version versions)

-- The parts of the path, unescaped.
unfoldable pub serve_key :
    ℕ → ℕ → List Bytes → Option Bytes → Option Bytes → Handler → Handler × Response
unfolding serve_group
serve_key now later versions none key h = (h, answer 400)
serve_key now later versions (some name) none h = (h, answer 400)
serve_key now later versions (some name) (some key) h =
    serve_group now later versions name key (Maps.get name h.groups) h

unfoldable pub serve_parts :
    ℕ → ℕ → List Bytes → Option (Bytes × Bytes) → Handler → Handler × Response
unfolding serve_key path_unescape
serve_parts now later versions none h = (h, answer 400)
serve_parts now later versions (some (name, key)) h =
    serve_key now later versions (path_unescape name) (path_unescape key) h

-- What follows the base path.
unfoldable pub serve_path : ℕ → ℕ → List Bytes → Option Bytes → Handler → Handler × Response
unfolding serve_parts split_slash
serve_path now later versions none h = (h, answer 404)
serve_path now later versions (some rest) h = serve_parts now later versions (split_slash rest) h

-- ServeHTTP
unfoldable pub serve : ℕ → ℕ → Request → Handler → Handler × Response
unfolding serve_path trim_prefix
serve now later r h =
    if not (is_delete r.method) || is_empty h.token
    then (h, answer 405)
    else if not (authorized r.authorization h.token)
    then (h, answer 401)
    else serve_path now later r.versions (trim_prefix base_path r.path) h

-- Client, with the directory's HTTP client left to the exchange.
pub record Client : Type 0 where
  pub address : Bytes
  pub token : Bytes

unfoldable pub client_request : Client → Bytes → Bytes → ℕ → Request
unfolding path_escape
client_request c name key version = record {
  host = c.address;
  method = delete;
  path = base_path ++ (path_escape name ++ 47 ∷ path_escape key);
  authorization = bearer ++ c.token;
  versions = version_header version;
}

-- What http.Client.Do gives.
pub data Exchange : Type 0 where
  responded : Response → Exchange
  timed_out broken : Exchange

-- The errors of Client.InvalidateVersion.
pub data ClientError : Type 0 where
  bad_version unacknowledged unversioned expired lost : ClientError

abbrev pub ack_of : ℕ → ℕ × Option Error → Option ClientError
ack_of version (ack, some e) = some unversioned
ack_of version (ack, none) = if ack == version then none else some unversioned

-- The acknowledgement: another status, or another version in it, is an error.
unfoldable pub acknowledged : ℕ → Response → Option ClientError
acknowledged version r =
    if not (r.code == 204)
    then some unacknowledged
    else if version == 0
    then none
    else ack_of version (parse_invalidation_version r.versions)

abbrev pub exchanged : ℕ → Exchange → Option ClientError
exchanged version (responded r) = acknowledged version r
exchanged version timed_out = some expired
exchanged version broken = some lost

unfoldable pub client_invalidate :
    (Request → Exchange) → Client → Bytes → Bytes → ℤ → Option ClientError
unfolding client_request acknowledged
client_invalidate exchange c name key (negsuc n) = some bad_version
client_invalidate exchange c name key (pos version) =
    exchanged version (exchange (client_request c name key version))
