-- ===== src/Read.antt =====
-- internal/cache/read.go: the lookups of a Group. The observer is left out.
pub mod History
pub mod Flight
pub mod Get
use simple_cache.Prelude.{
  ℕ, Bool, true, false, not, ◌&&◌, Option, none, some, Bytes, ltb, if◌then◌else◌,
}
use simple_cache.Errors.{Error, not_found, validate_key}
use simple_cache.Bloom.{BloomFilter, contains}
use simple_cache.Area
use simple_cache.Area.{ByteView}
use simple_cache.Group.{Group}
use simple_cache.Load.{no_view}

-- The value, whether it was a hit, and the error.
pub record Found : Type 0 where
  pub view : ByteView
  pub hit : Bool
  pub error : Option Error

abbrev pub failed : Error → Found
failed e = record { view = no_view; hit = false; error = some e }

abbrev pub missed : Found
missed = record { view = no_view; hit = false; error = none }

abbrev denied : Option BloomFilter → Bytes → Bool
denied none key = false
denied (some f) key = not (contains f key)

-- `ended` is ctx.Err().
unfoldable pub lookup : Option Error → ℕ → Bytes → Group → Group × Found
lookup (some e) now key g = (g, failed e)
lookup none now key g = elim (validate_key key) [
  | some e ↦ (g, failed e)
  | none ↦
      let (a, v) = Area.get now key g.main_cache in
      let g' = record g { main_cache = a } in
      elim v [
        | some w ↦ (g', record { view = w; hit = true; error = none })
        | none ↦ if denied g.bloom key then (g', failed not_found) else (g', missed)
      ]
]

unfoldable pub lookup_at_least : Option Error → ℕ → Bytes → ℕ → Group → Group × Found
lookup_at_least ended now key minimum g =
    let (g', f) = lookup ended now key g in
    (g', if f.hit && ltb f.view.version minimum then missed else f)
