-- ===== src/Store/Commits.antt =====
-- postgres.go: what a conditional write does to the tables, on each way that it can end.
use simple_cache.Prelude.{
  ℕ, zero, suc, ◌^◌, ◌<◌, ◌≡◌, refl, sym, subst, ap, ◌≢◌, ◌⊎◌, inl, inr, true, Option, none, some,
  Bytes, arith,
}
use simple_cache.Prelude.Int.{pos}
use simple_cache.Errors.{Error, precondition_failed, validate_key}
use simple_cache.Store.{
  Product, Tables, validate_value, put_if_version, put_checked, delete_if_version, delete_checked,
  Statement, commit, live, tombstone, upsert, update_live, Trip, answered, lost_before, lost_after,
  send, write_error, mutation_result, mutated,
}
use simple_cache.Store.Generations.{version_of, Ran, Matches, upsert-Ran, update_live-Ran}

-- The result of a conditional write that passed its checks. It happens whole or not at all; without an
-- error it has committed the next generation of a row that fits; refused, it found no row that fits; an
-- answered write of a row that fits goes through, below the range of the generations; and an answered one
-- without a row that fits is refused.
pub record Conditional (now : ℕ) (key : Bytes) (changed : ℕ → Product) (Fits : Type 0) (trip : Trip)
    (t : Tables) (r : Tables × ℕ × Option Error) : Type 0 where
  pub whole : (r.0 ≡ t) ⊎ (Fits × (r.0 ≡ commit now key (changed (suc (version_of key t))) t))
  pub success :
      r.2 ≡ none
      → Fits
        × (r.0 ≡ commit now key (changed (suc (version_of key t))) t)
        × (r.1 ≡ suc (version_of key t))
  pub refused : r.2 ≡ some precondition_failed → (r.0 ≡ t) × (Fits → ⊥)
  pub certain : trip ≡ answered → Fits → suc (version_of key t) < 2 ^ 63 → r.2 ≡ none
  pub mismatched : trip ≡ answered → (Fits → ⊥) → r.2 ≡ some precondition_failed

module _ (now : ℕ) (key : Bytes) (changed : ℕ → Product) (Fits : Type 0) (t : Tables) where
  -- Nothing happened, for another reason than the condition.
  Conditional-failed :
      (trip : Trip) (e : Error)
      → e ≢ precondition_failed
      → (trip ≡ answered → Fits → suc (version_of key t) < 2 ^ 63 → ⊥)
      → (trip ≡ answered → (Fits → ⊥) → ⊥)
      → Conditional now key changed Fits trip t (t, 0, some e)
  Conditional-failed trip e plain late silent = record {
    whole = inl refl;
    success = λ h. cc;
    refused = λ h. absurd (plain (ground (arith, h)));
    certain = λ a f b. absurd (late a f b);
    mismatched = λ a u. absurd (silent a u);
  }

  Conditional-refused :
      (trip : Trip)
      → (Fits → ⊥)
      → Conditional now key changed Fits trip t (t, 0, some precondition_failed)
  Conditional-refused trip unfit = record {
    whole = inl refl;
    success = λ h. cc;
    refused = λ h. (refl, unfit);
    certain = λ a f b. absurd (unfit f);
    mismatched = λ a u. refl;
  }

  Conditional-done :
      (trip : Trip)
      → Fits
      → Conditional now key changed Fits trip t
          (commit now key (changed (suc (version_of key t))) t, suc (version_of key t), none)
  Conditional-done trip fits = record {
    whole = inr (fits, refl);
    success = λ h. (fits, refl, refl);
    refused = λ h. cc;
    certain = λ a f b. refl;
    mismatched = λ a u. absurd (u fits);
  }

  -- Committed, with the answer lost.
  Conditional-unknown :
      (e : Error)
      → e ≢ precondition_failed
      → Fits
      → Conditional now key changed Fits lost_after t
          (commit now key (changed (suc (version_of key t))) t, 0, some e)
  Conditional-unknown e plain fits = record {
    whole = inr (fits, refl);
    success = λ h. cc;
    refused = λ h. absurd (plain (ground (arith, h)));
    certain = λ a f b. cc;
    mismatched = λ a u. cc;
  }

write_error_plain :
    (ended : Option Error)
    → ended ≢ some precondition_failed
    → write_error ended ≢ precondition_failed
unfolding write_error
write_error_plain none h e = cc
write_error_plain (some x) h e = h (ap some e)

mutated-Conditional :
    (now : ℕ) (key : Bytes) (changed : ℕ → Product) (Fits : Type 0) (trip : Trip)
    (ended : Option Error) (s : Statement ℕ) (t : Tables)
    → ended ≢ some precondition_failed
    → Ran now key changed Fits t (s t)
    → Conditional now key changed Fits trip t (mutated trip ended s t)
unfolding send mutation_result
mutated-Conditional now key changed Fits answered ended s t plain (inl (raised, big, fits)) =
    subst (Conditional now key changed Fits answered t) (sym (rw raised refl)) (
      Conditional-failed now key changed Fits t answered (write_error ended)
        (write_error_plain ended plain) (λ a f b. omega (arith, big, b)) (λ a u. u fits))
mutated-Conditional now key changed Fits answered ended s t plain (inr (inl (found, unfit))) =
    subst (Conditional now key changed Fits answered t) (sym (rw found refl))
      (Conditional-refused now key changed Fits t answered unfit)
mutated-Conditional now key changed Fits answered ended s t plain (inr (inr (done, fits))) =
    subst (Conditional now key changed Fits answered t) (sym (rw done refl))
      (Conditional-done now key changed Fits t answered fits)
mutated-Conditional now key changed Fits lost_before ended s t plain r =
    Conditional-failed now key changed Fits t lost_before (write_error ended)
      (write_error_plain ended plain) (λ a f b. cc) (λ a u. cc)
mutated-Conditional now key changed Fits lost_after ended s t plain (inl (raised, big, fits)) =
    subst (Conditional now key changed Fits lost_after t) (sym (rw raised refl)) (
      Conditional-failed now key changed Fits t lost_after (write_error ended)
        (write_error_plain ended plain) (λ a f b. cc) (λ a u. cc))
mutated-Conditional now key changed Fits lost_after ended s t plain (inr (inl (found, unfit))) =
    subst (Conditional now key changed Fits lost_after t) (sym (rw found refl)) (
      Conditional-failed now key changed Fits t lost_after (write_error ended)
        (write_error_plain ended plain) (λ a f b. cc) (λ a u. cc))
mutated-Conditional now key changed Fits lost_after ended s t plain (inr (inr (done, fits))) =
    subst (Conditional now key changed Fits lost_after t) (sym (rw done refl)) (
      Conditional-unknown now key changed Fits t (write_error ended) (write_error_plain ended plain)
        fits)

-- PutIfVersion with an accepted key and value, where the error of the context is not that of the
-- condition. It happens whole or not at all: the next generation of the key with the value, and its
-- message in the outbox. Without an error it found the expected version (for zero, no row but a
-- tombstone) and returns the new generation; refused, it found another and changed nothing. An answered
-- write that finds the expected version goes through below the range of bigint, and one that finds
-- another is refused with ErrPreconditionFailed.
pub put_if_version-Conditional :
    (trip : Trip) (ended : Option Error) (now : ℕ) (key value : Bytes) (expected : ℕ) (t : Tables)
    → ended ≢ some precondition_failed
    → validate_value key value ≡ none
    → Conditional now key
        (live value)
        (Matches expected key t)
        trip
        t
        (put_if_version trip ended now key value (pos expected) t)
unfolding put_if_version put_checked
put_if_version-Conditional trip ended now key value zero t plain valid =
    subst (Conditional now key (live value) (Matches 0 key t) trip t)
      (sym (rw (valid, put_if_version) refl))
      (mutated-Conditional now key (live value) (Matches 0 key t) trip ended
        (upsert true now key value) t plain (upsert-Ran now key value t))
put_if_version-Conditional trip ended now key value (suc n) t plain valid =
    subst (Conditional now key (live value) (Matches (suc n) key t) trip t)
      (sym (rw (valid, put_if_version) refl))
      (mutated-Conditional now key (live value) (Matches (suc n) key t) trip ended
        (update_live (some (suc n)) now key (live value)) t plain
        (update_live-Ran n now key (live value) t))

pub delete_if_version-Conditional :
    (trip : Trip) (ended : Option Error) (now : ℕ) (key : Bytes) (n : ℕ) (t : Tables)
    → ended ≢ some precondition_failed
    → validate_key key ≡ none
    → Conditional now key tombstone
        (Matches (suc n) key t)
        trip
        t
        (delete_if_version trip ended now key (pos (suc n)) t)
unfolding delete_if_version delete_checked
delete_if_version-Conditional trip ended now key n t plain valid =
    subst (Conditional now key tombstone (Matches (suc n) key t) trip t)
      (sym (rw (valid, delete_if_version) refl))
      (mutated-Conditional now key tombstone (Matches (suc n) key t) trip ended
        (update_live (some (suc n)) now key tombstone) t plain
        (update_live-Ran n now key tombstone t))
