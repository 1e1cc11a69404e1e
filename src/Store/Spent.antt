-- ===== src/Store/Spent.antt =====
-- postgres.go: the version that a client holds for a conditional write is good for one write at most.
use simple_cache.Prelude.{
  ℕ, suc, ◌≤◌, ◌≡◌, refl, ap, ◌≢◌, inl, inr, Option, none, some, List, Bytes, Option-cases, arith,
}
use simple_cache.Prelude.Int.{pos}
use simple_cache.Prelude.Maps
use simple_cache.Errors.{Error, precondition_failed, validate_key}
use simple_cache.Store.{
  Product, Tables, commit, live, tombstone, Trip, put_if_version, delete_if_version, validate_value,
}
use simple_cache.Store.Generations.{version_of, Matches}
use simple_cache.Store.Commits.{
  Conditional, put_if_version-Conditional, delete_if_version-Conditional,
}
use simple_cache.Store.Writes.{Write, write_all}
use simple_cache.Store.Tokens.{write_all-Grows, version-commit}

-- A conditional write: of a value, or of a tombstone.
abbrev pub Wanted : Type 0
Wanted = Option Bytes

unfoldable pub conditional :
    Wanted → Trip → Option Error → ℕ → Bytes → ℕ → Tables → Tables × ℕ × Option Error
conditional (some value) trip ended now key n t =
    put_if_version trip ended now key value (pos (suc n)) t
conditional none trip ended now key n t = delete_if_version trip ended now key (pos (suc n)) t

abbrev pub accepted : Wanted → Bytes → Option Error
accepted (some value) key = validate_value key value
accepted none key = validate_key key

abbrev row_of : Wanted → ℕ → Product
row_of (some value) = live value
row_of none = tombstone

row_of_version : (w : Wanted) (n : ℕ) → (row_of w n).version ≡ n
row_of_version (some value) n = refl
row_of_version none n = refl

conditional-Conditional :
    (w : Wanted) (trip : Trip) (ended : Option Error) (now : ℕ) (key : Bytes) (n : ℕ) (t : Tables)
    → ended ≢ some precondition_failed
    → accepted w key ≡ none
    → Conditional now key
        (row_of w)
        (Matches (suc n) key t)
        trip
        t
        (conditional w trip ended now key n t)
unfolding conditional
conditional-Conditional (some value) trip ended now key n t plain valid =
    put_if_version-Conditional trip ended now key value (suc n) t plain valid
conditional-Conditional none trip ended now key n t plain valid =
    delete_if_version-Conditional trip ended now key n t plain valid

version_of-Matches :
    (n : ℕ) (key : Bytes) (t : Tables) → Matches (suc n) key t → version_of key t ≡ suc n
version_of-Matches n key t h = elim (Option-cases (Maps.get key t.products)) [
  | inl e ↦ absurd (ground (arith, h))
  | inr (p, e) ↦ ground (arith, h)
]

version_after :
    (w : Wanted) (now : ℕ) (key : Bytes) (t : Tables) (v : ℕ)
    → version_of key (commit now key (row_of w v) t) ≡ v
version_after w now key t v =
    ground (arith, version-commit now key key (row_of w v) t, row_of_version w v)

-- A conditional write or deletion of a key with a positive version goes through. Then, whatever writes and
-- deletions follow, of this key or others, with whatever answers lost, no conditional write or deletion of
-- the key with that version changes anything, even where the key was deleted and created again.
pub spent_version :
    (first again : Wanted) (trip trip' : Trip) (ended ended' : Option Error) (now now' : ℕ)
    (key : Bytes) (n : ℕ) (ws : List Write) (t : Tables)
    → ended ≢ some precondition_failed
    → ended' ≢ some precondition_failed
    → accepted first key ≡ none
    → accepted again key ≡ none
    → (conditional first trip ended now key n t).2 ≡ none
    → let later = write_all ws (conditional first trip ended now key n t).0 in
      (conditional again trip' ended' now' key n later).0 ≡ later
spent_version first again trip trip' ended ended' now now' key n ws t plain plain' ok ok' done =
    let c = conditional-Conditional first trip ended now key n t plain ok in
    let (fits, stored, v) = c.success done in
    let t' = (conditional first trip ended now key n t).0 in
    let later = write_all ws t' in
    let moved : suc (suc n) ≤ version_of key later = omega (
      arith,
      ap (version_of key) stored,
      version_after first now key t (suc (version_of key t)),
      version_of-Matches n key t fits,
      write_all-Grows ws t' key,
    ) in
    elim (conditional-Conditional again trip' ended' now' key n later plain' ok').whole [
      | inl same ↦ same
      | inr (fits', e) ↦ absurd (omega (arith, moved, version_of-Matches n key later fits'))
    ]
