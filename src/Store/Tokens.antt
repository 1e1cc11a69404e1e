-- ===== src/Store/Tokens.antt =====
-- postgres.go: a generation is used once. No write, no deletion and no recreation makes an old version
-- match again.
use simple_cache.Prelude.{ℕ, ◌≤◌, ◌≡◌, subst, ite, List, Bytes, Bytes-discrete, arith}
use simple_cache.Prelude.Maps.{get-put}
use simple_cache.Store.{Product, Tables, commit}
use simple_cache.Store.Generations.{version_of}
use simple_cache.Store.Writes.{Write, write_all, write_all_keeps}

-- No generation goes back.
abbrev pub Grows : Tables → Tables → Type 0
Grows t t' = (k : Bytes) → version_of k t ≤ version_of k t'

pub version-commit :
    (now : ℕ) (key k : Bytes) (p : Product) (t : Tables)
    → version_of k (commit now key p t) ≡ ite (Bytes-discrete key k) p.version (version_of k t)
unfolding commit
version-commit now key k p t = ground (arith, get-put key k p t.products)

-- A commit of the next generation.
commit-Grows :
    (now : ℕ) (key : Bytes) (p : Product) (t : Tables)
    → version_of key t ≤ p.version
    → Grows t (commit now key p t)
commit-Grows now key p t h k = elim (Bytes-discrete key k) [
  | yes same ↦
      ground (arith, version-commit now key k p t, subst (λ j. version_of j t ≤ p.version) same h)
  | no differ ↦ ground (arith, version-commit now key k p t)
]

-- Whatever writes and deletions are made, of whatever keys, with whatever answers lost, the generation of
-- no key goes back.
pub write_all-Grows : (ws : List Write) (t : Tables) → Grows t (write_all ws t)
write_all-Grows ws t =
    write_all_keeps Grows (λ t k. omega arith)
      (λ now key p t h. commit-Grows now key p t (omega (arith, h)))
      (λ t t' t'' f g k. omega (arith, f k, g k)) ws t
