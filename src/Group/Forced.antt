-- ===== src/Group/Forced.antt =====
-- versions.go `InvalidateVersion` at version zero: what is resident under the key goes, whatever its version.
use simple_cache.Prelude.{ℕ, ◌≡◌, sym, subst, max, true, none, Bytes}
use simple_cache.Area.Laws
use simple_cache.Area.Laws.{resident, resident-remove}
use simple_cache.Group.{
  Group, bump_epoch, remember_version, known_version, drop_older, apply_version,
}
use simple_cache.Group.Invariant.{IsSound, known_version-Knows}
use simple_cache.Group.Invalidation.{bumped-Between}

pub apply_version_forced :
    (now later : ℕ) (key : Bytes) (g : Group)
    → IsSound g
    → resident key (apply_version now later key 0 g).main_cache ≡ none
unfolding apply_version drop_older
apply_version_forced now later key g s =
    let a = (known_version now key g).0 in
    let m = max (known_version now key g).1 0 in
    let p = known_version-Knows now key g s in
    let b = bumped-Between true key m a p.sound.some_room p.sound.bounded in
    resident-remove key (bump_epoch key (remember_version key m a)).main_cache
      (subst Laws.IsSound (sym b.cache) p.sound.area)
