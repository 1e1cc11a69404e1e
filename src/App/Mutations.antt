-- ===== src/App/Mutations.antt =====
-- internal/app/mutations.go: executeMutation, over any source and any router of invalidations. Contexts and
-- metrics are left out: what they bring about is in what the source and the router answer.
use simple_cache.Prelude.{suc, Bool, true, false, Option, none, some, Bytes, if◌then◌else◌}
use simple_cache.Prelude.Int.{ℤ, pos}
use simple_cache.Errors.{Error, precondition_failed, other}
use simple_cache.Group.{Group}
use simple_cache.Cluster.Broadcast.{InvalidationReport}

-- The methods of MutableSource that write, over the state of the source.
pub record MutableSource (S : Type 0) : Type 0 where
  pub put_if_version : Bytes → Bytes → ℤ → S → S × ℤ × Option Error
  pub delete_if_version : Bytes → ℤ → S → S × ℤ × Option Error

-- mutationInvalidator, for the group that it is given; `none` is a panic.
abbrev pub MutationInvalidator : Type 0
MutationInvalidator = Bytes → ℤ → Group → Option (Group × InvalidationReport × Option Error)

pub data MutationKind : Type 0 where
  mutation_notify mutation_put mutation_delete : MutationKind

pub record MutationCommand : Type 0 where
  pub kind : MutationKind
  pub key : Bytes
  pub value : Bytes
  pub expected : ℤ
  pub version : ℤ

-- The two texts of the field Error.
pub data Remark : Type 0 where
  refresh_and_retry verify_the_source : Remark

pub record MutationResponse : Type 0 where
  pub source_committed : Option Bool
  pub source_version : Option ℤ
  pub invalidation : Option InvalidationReport
  pub error : Option Remark

pub record MutationOutcome : Type 0 where
  pub response : MutationResponse
  pub write_error : Option Error
  pub broadcast_error : Option Error

-- What the write left: the source's error, and the version where there is none.
abbrev pub is_positive : ℤ → Bool
is_positive (pos (suc n)) = true
is_positive _ = false

abbrev pub checked_write : ℤ × Option Error → Option Error
checked_write (version, some e) = some e
checked_write (version, none) = if is_positive version then none else some other

abbrev pub response_of : ℤ → Option Error → MutationResponse
response_of version none = record {
  source_committed = some true;
  source_version = some version;
  invalidation = none;
  error = none;
}
response_of version (some e) = record {
  source_committed = none;
  source_version = none;
  invalidation = none;
  error = none;
}

abbrev pub no_response : MutationResponse
no_response = record {
  source_committed = none;
  source_version = none;
  invalidation = none;
  error = none;
}

abbrev pub remark_of : Option Error → Option Remark
remark_of none = none
remark_of (some e) = some verify_the_source

-- The end of executeMutation, with what the router gave.
abbrev pub reported :
    {S : Type 0}
    → S
    → MutationResponse
    → Option Error
    → Option (Group × InvalidationReport × Option Error)
    → Option (S × Group × MutationOutcome)
reported s response write_error none = none
reported s response write_error (some (g, report, some e)) =
    some (s, g, record { response = response; write_error = write_error; broadcast_error = some e })
reported s response write_error (some (g, report, none)) = some (
  s,
  g,
  record {
    response = record response { invalidation = some report; error = remark_of write_error };
    write_error = write_error;
    broadcast_error = none;
  },
)

-- The version that is announced: the committed one, or the one of the command.
abbrev pub announced : ℤ → Option ℤ → ℤ
announced version none = version
announced version (some v) = v

abbrev pub refused_outcome : MutationOutcome
refused_outcome = record {
  response = record {
    source_committed = some false;
    source_version = none;
    invalidation = none;
    error = some refresh_and_retry;
  };
  write_error = some precondition_failed;
  broadcast_error = none;
}

-- Past the write, with its checked error.
unfoldable pub after_write :
    {S : Type 0}
    → MutationInvalidator
    → MutationCommand
    → S
    → ℤ
    → Option Error
    → Group
    → Option (S × Group × MutationOutcome)
after_write router command s version (some precondition_failed) g = some (s, g, refused_outcome)
after_write router command s version write_error g =
    let response = response_of version write_error in
    reported s response write_error
      (router command.key (announced command.version response.source_version) g)

unfoldable pub written :
    {S : Type 0}
    → MutationInvalidator
    → MutationCommand
    → S × ℤ × Option Error
    → Group
    → Option (S × Group × MutationOutcome)
unfolding after_write
written router command (s, version, e) g =
    after_write router command s version (checked_write (version, e)) g

unfoldable pub execute_mutation :
    {S : Type 0}
    → MutableSource S
    → MutationInvalidator
    → MutationCommand
    → S
    → Group
    → Option (S × Group × MutationOutcome)
unfolding written
execute_mutation source router command s g = elim command.kind [
  | mutation_notify ↦ reported s no_response none (router command.key command.version g)
  | mutation_put ↦
      written router command (source.put_if_version command.key command.value command.expected s) g
  | mutation_delete ↦
      written router command (source.delete_if_version command.key command.expected s) g
]
