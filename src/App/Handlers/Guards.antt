-- ===== src/App/Handlers/Guards.antt =====
-- mutations_http.go: what a mutation must pass before anything changes.
use simple_cache.Prelude.{
  ℕ, ◌≡◌, refl, sym, ap, subst, ◌∙◌, ◌⊎◌, inl, inr, Bool, true, false, not, ◌&&◌, Option, none,
  some, [], Bytes, ◌==◌, if◌then◌else◌, Bool-cases, Option-cases, arith,
}
use Prim.Native.String.{String}
use simple_cache.Errors.{Error, validate_key}
use simple_cache.Group.{Group}
use simple_cache.Protocol.{authorized, parse_invalidation_version}
use simple_cache.App.Tags.{mutation_precondition, is_put}
use simple_cache.App.Keys.{request_key}
use simple_cache.App.Mutations.{MutableSource, MutationInvalidator}
use simple_cache.App.Responses.{
  failed, http_error, stored_error, ApiRequest, ApiResponse, Handled, Body, unreadable, not_json,
  json,
}
use simple_cache.App.Handlers.{
  mutate_command, mutate_expected, mutate_live, mutate_read, mutate_slot, mutate_version,
  mutate_key, mutate,
}

module _ {S : Type 0} (source : MutableSource S) (router : MutationInvalidator)
    (invalidate_only : Bool) (q : ApiRequest) (s : S) (g : Group) where
  -- Neither the source nor the group has changed.
  abbrev pub Untouched : Handled S → Type 0
  Untouched h = (r : ApiResponse) × (label : String) × (h ≡ some (s, g, r, label))

  -- A version from the header only where the request invalidates; else an expected version from the tags.
  abbrev pub Conditioned : ℕ → ℕ → Type 0
  Conditioned version expected =
      (invalidate_only ≡ true)
      ⊎ ((version ≡ 0)
          × (mutation_precondition q.method q.if_match q.if_none_match ≡ (expected, 0)))

  abbrev pub Executed : Bytes → Handled S → Type 0
  Executed key h =
      (version : ℕ) × (value : Bytes) × (expected : ℕ) × (q.ended ≡ false)
      × Conditioned version expected
      × (h ≡ mutate_command source router invalidate_only q key version value expected s g)

  abbrev Stage : Bytes → Handled S → Type 0
  Stage key h = Untouched h ⊎ Executed key h

  untouched : (key : Bytes) (r : ApiResponse) (label : String) → Stage key (some (s, g, r, label))
  untouched key r label = inl (r, label, refl)

  branch :
      (key : Bytes) (b : Bool) (x y : Handled S)
      → (b ≡ true → Stage key x)
      → (b ≡ false → Stage key y)
      → Stage key (if b then x else y)
  branch key true x y f h = f refl
  branch key false x y f h = h refl

  mutate_expected-Stage :
      (key : Bytes) (version : ℕ) (value : Bytes) (p : ℕ × ℕ)
      → q.ended ≡ false
      → version ≡ 0
      → mutation_precondition q.method q.if_match q.if_none_match ≡ p
      → Stage key (mutate_expected source router invalidate_only q key version value p s g)
  mutate_expected-Stage key version value (expected, code) live silent tag =
      branch key (code == 0)
        (mutate_command source router invalidate_only q key version value expected s g)
        (failed (stored_error code) s g)
        (λ good.
          let zero_code : code ≡ 0 = ground (arith, good) in
          inr (
            version,
            value,
            expected,
            live,
            inr (silent, tag ∙ ap (λ (c : ℕ). (expected, c)) zero_code),
            refl,
          ))
        (λ bad. untouched key (stored_error code) "error")

  mutate_live-Stage :
      (key : Bytes) (version : ℕ) (value : Bytes)
      → (invalidate_only ≡ true) ⊎ (version ≡ 0)
      → Stage key (mutate_live source router invalidate_only q key version value s g)
  unfolding mutate_live
  mutate_live-Stage key version value why =
      let tag = mutation_precondition q.method q.if_match q.if_none_match in
      let now = mutate_command source router invalidate_only q key version value 0 s g in
      let checked = mutate_expected source router invalidate_only q key version value tag s g in
      branch key q.ended (failed (http_error 0) s g) (if invalidate_only then now else checked)
        (λ ended. untouched key (http_error 0) "error")
        (λ live.
          branch key invalidate_only now checked
            (λ only. inr (version, value, 0, live, inl only, refl))
            (λ writes.
              let silent : version ≡ 0 = elim why [
                | inl only ↦ absurd (ground (arith, only, writes))
                | inr z ↦ z
              ] in
              mutate_expected-Stage key version value tag live silent refl))

  mutate_read-Stage :
      (key : Bytes) (version : ℕ) (body : Body)
      → (invalidate_only ≡ true) ⊎ (version ≡ 0)
      → Stage key (mutate_read source router invalidate_only q key version body s g)
  mutate_read-Stage key version unreadable why = untouched key (http_error 413) "error"
  mutate_read-Stage key version not_json why = untouched key (http_error 400) "error"
  mutate_read-Stage key version (json value) why = mutate_live-Stage key version value why

  abbrev Allowed : Bool → Bytes → Handled S → Type 0
  Allowed slot_free key h = Untouched h ⊎ ((slot_free ≡ true) × Executed key h)

  mutate_slot-Allowed :
      (slot_free : Bool) (key : Bytes) (version : ℕ)
      → (invalidate_only ≡ true) ⊎ (version ≡ 0)
      → Allowed slot_free key
          (mutate_slot source router invalidate_only q slot_free key version s g)
  unfolding mutate_slot
  mutate_slot-Allowed false key version why =
      inl (record (stored_error 503) { retry_after = true }, "overloaded", refl)
  mutate_slot-Allowed true key version why =
      elim (branch key (is_put q.method)
        (mutate_read source router invalidate_only q key version q.body s g)
        (mutate_live source router invalidate_only q key version [] s g)
        (λ puts. mutate_read-Stage key version q.body why)
        (λ other. mutate_live-Stage key version [] why)) [
          | inl same ↦ inl same
          | inr ran ↦ inr (refl, ran)
        ]

  allow :
      (slot_free : Bool) (key : Bytes) (b : Bool) (x y : Handled S)
      → (b ≡ true → Allowed slot_free key x)
      → (b ≡ false → Allowed slot_free key y)
      → Allowed slot_free key (if b then x else y)
  allow slot_free key true x y f h = f refl
  allow slot_free key false x y f h = h refl

  mutate_version-Allowed :
      (slot_free : Bool) (key : Bytes) (v : ℕ × Option Error)
      → Allowed slot_free key (mutate_version source router invalidate_only q slot_free key v s g)
  mutate_version-Allowed slot_free key (version, some e) = inl (http_error 400, "error", refl)
  mutate_version-Allowed slot_free key (version, none) =
      allow slot_free key (not invalidate_only && not (version == 0)) (failed (http_error 400) s g)
        (mutate_slot source router invalidate_only q slot_free key version s g)
        (λ bad. inl (http_error 400, "error", refl))
        (λ good.
          mutate_slot-Allowed slot_free key version (silent_or_only invalidate_only version good))
    where
      silent_or_only : (b : Bool) (n : ℕ) → (not b && not (n == 0)) ≡ false → (b ≡ true) ⊎ (n ≡ 0)
      silent_or_only true n h = inl refl
      silent_or_only false n h = inr (ground (arith, h))

  -- A request that gets through: authorized, for one canonical valid key, with a slot.
  abbrev pub Admitted : Bytes → Bool → Handled S → Type 0
  Admitted token slot_free h =
      (key : Bytes) × (authorized q.authorization token ≡ true)
      × (request_key q.raw_query ≡ (key, none))
      × (slot_free ≡ true)
      × Executed key h

  abbrev Outcome : Bytes → Bool → Handled S → Type 0
  Outcome token slot_free h = Untouched h ⊎ Admitted token slot_free h

  mutate_key-Admitted :
      (token : Bytes) (slot_free : Bool) (r : Bytes × Option Error)
      → authorized q.authorization token ≡ true
      → request_key q.raw_query ≡ r
      → Untouched (mutate_key source router invalidate_only q slot_free r s g)
        ⊎ Admitted token slot_free (mutate_key source router invalidate_only q slot_free r s g)
  mutate_key-Admitted token slot_free (key, some e) granted named =
      inl (http_error 400, "error", refl)
  mutate_key-Admitted token slot_free (key, none) granted named =
      elim (Option-cases (validate_key key)) [
        | inr (e, bad) ↦
            subst (Outcome token slot_free) (sym (rw (bad, mutate_key) refl))
              (inl (http_error 400, "error", refl))
        | inl good ↦
            subst (Outcome token slot_free) (sym (rw (good, mutate_key) refl))
              (elim (mutate_version-Allowed slot_free key (parse_invalidation_version q.versions)) [
                | inl same ↦ inl same
                | inr (free, ran) ↦ inr (key, granted, named, free, ran)
              ])
      ]

  -- Whatever a mutation request is, either the source and the group are as before it; or it carries the
  -- token, its query is the one form of a key, a slot was free, its caller is still there, and what ran is
  -- the mutation of that key: an invalidation, or a write without a version whose tags name the expected
  -- version.
  pub mutate-Admitted :
      (token : Bytes) (slot_free : Bool)
      → Untouched (mutate source router invalidate_only q token slot_free s g)
        ⊎ Admitted token slot_free (mutate source router invalidate_only q token slot_free s g)
  unfolding mutate
  mutate-Admitted token slot_free =
      let denied = failed (http_error 401) s g in
      let heard =
        mutate_key source router invalidate_only q slot_free (request_key q.raw_query) s g in
      let chosen = λ (b : Bool). if not b then denied else heard in
      elim (Bool-cases (authorized q.authorization token)) [
        | inl granted ↦
            subst (Outcome token slot_free) (sym (ap chosen granted))
              (mutate_key-Admitted token slot_free (request_key q.raw_query) granted refl)
        | inr unknown ↦
            subst (Outcome token slot_free) (sym (ap chosen unknown))
              (inl (http_error 401, "error", refl))
      ]
