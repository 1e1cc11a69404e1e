-- ===== src/Area/Cleaning.antt =====
-- cache.go `cleanExpired`: what a bounded cleaning leaves to the readers.
use simple_cache.Prelude.{
  ℕ, ◌+◌, ◌≤◌, ◌<◌, ◌≡◌, subst, refl, sym, ap, ◌∙◌, inl, inr, Bool, true, false, none, some, Bytes,
  length, Option-cases, Bool-cases, arith,
}
use simple_cache.Lru
use simple_cache.Lru.{expired, cursor_element}
use simple_cache.Lru.Elements.{Element, find_key}
use simple_cache.Lru.Pruning.{Pruned, prune_expired-Rounds, prune_expired_first}
use simple_cache.Area.{
  ByteView, len_view, count_eviction, ViewCache, Area, get, clean_expired, cleanup_budget,
}
use simple_cache.Area.Laws.{IsSound, Keeps, Keeps-refl, Keeps-lru, lru-IsBounded}
use simple_cache.Area.Reads.{entries_in, entries, live_value, get-live_value, expired_later}

clean_expired_of_none :
    (clock : ℕ → ℕ) (now limit : ℕ) (a : Area)
    → a.lru ≡ none
    → clean_expired false clock now limit a ≡ (a, 0, 0, false)
unfolding clean_expired
clean_expired_of_none clock now limit a e = ground arith

clean_expired_of_some :
    (clock : ℕ → ℕ) (now limit : ℕ) (a : Area) (c : ViewCache)
    → a.lru ≡ some c
    → clean_expired false clock now limit a ≡ (
      record a {
        lru = some (Lru.prune_expired len_view count_eviction clock now limit cleanup_budget c).0;
      },
      (Lru.prune_expired len_view count_eviction clock now limit cleanup_budget c).1,
      (Lru.prune_expired len_view count_eviction clock now limit cleanup_budget c).2,
      false,
    )
unfolding clean_expired
clean_expired_of_some clock now limit a c e = ground arith

-- What a cleaning at `now` leaves for the readers, and what it reports: checked, removed and busy.
pub record Cleaned (busy : Bool) (clock : ℕ → ℕ) (now limit : ℕ) (a : Area)
    (r : Area × ℕ × ℕ × Bool) : Type 0 where
  pub keeps : Keeps a r.0
  pub reads : (k : Bytes) (at : ℕ) → now ≤ at → (get at k r.0).1 ≡ (get at k a).1
  pub within : r.1 ≤ limit
  pub each : r.2 ≤ r.1
  pub counted : length (entries r.0) + r.2 ≡ length (entries a)
  pub reported : r.3 ≡ busy
  pub skipped : busy ≡ true → r.0 ≡ a
  pub starts :
      (c : ViewCache) (e : Element ByteView)
      → busy ≡ false
      → a.lru ≡ some c
      → 0 < limit
      → clock 1 < clock 0 + cleanup_budget
      → cursor_element c ≡ some e
      → expired e.expire_at now ≡ true
      → 1 ≤ r.2

untouched-Cleaned :
    (busy : Bool) (clock : ℕ → ℕ) (now limit : ℕ) (a : Area)
    → IsSound a
    → ((c : ViewCache) → busy ≡ false → a.lru ≡ some c → ⊥)
    → Cleaned busy clock now limit a (a, 0, 0, busy)
untouched-Cleaned busy clock now limit a v idle = record {
  keeps = Keeps-refl a v;
  reads = λ k at h. refl;
  within = omega arith;
  each = omega arith;
  counted = omega arith;
  reported = refl;
  skipped = λ h. refl;
  starts = λ c e free there l t f o. absurd (idle c free there);
}

-- A pruning takes no live value from a later reader and gives it none.
live_value-Pruned :
    (now gone : ℕ) (c c' : ViewCache)
    → Pruned len_view now gone c c'
    → (k : Bytes) (at : ℕ) → now ≤ at
    → live_value at (find_key k c'.ll) ≡ live_value at (find_key k c.ll)
live_value-Pruned now gone c c' p k at h = elim (Option-cases (find_key k c.ll)) [
  | inl none_there ↦ elim (Option-cases (find_key k c'.ll)) [
    | inl e ↦ rw (none_there, e) refl
    | inr (x, e) ↦ absurd (ground (arith, p.old k x e))
  ]
  | inr (x, there) ↦ elim (Bool-cases (expired x.expire_at now)) [
    | inr live ↦ rw (there, p.live k x there live) refl
    | inl old ↦
        let late = expired_later x.expire_at now at h old in
        elim (Option-cases (find_key k c'.ll)) [
          | inl e ↦ rw (there, e, late) refl
          | inr (y, e) ↦ rw (e, p.old k y e) refl
        ]
  ]
]

get-live_value_of_some :
    (at : ℕ) (k : Bytes) (a : Area) (c : ViewCache)
    → a.lru ≡ some c
    → IsSound a
    → (get at k a).1 ≡ live_value at (find_key k c.ll)
get-live_value_of_some at k a c e v =
    get-live_value at k a v ∙ ap (λ x. live_value at (find_key k (entries_in x))) e

pruned-Cleaned :
    (clock : ℕ → ℕ) (now limit : ℕ) (a : Area) (c : ViewCache)
    → a.lru ≡ some c
    → IsSound a
    → let r = Lru.prune_expired len_view count_eviction clock now limit cleanup_budget c in
      Cleaned false clock now limit a (record a { lru = some r.0 }, r.1, r.2, false)
pruned-Cleaned clock now limit a c e v =
    let r = Lru.prune_expired len_view count_eviction clock now limit cleanup_budget c in
    let w =
      prune_expired-Rounds len_view count_eviction now clock limit cleanup_budget c
        (lru-IsBounded a c e v).coherent in
    let b = lru-IsBounded a c e v in
    let p = w.pruned in
    let keeps : Keeps a (record a { lru = some r.0 }) =
      Keeps-lru a c r.0 e v
        (record {
          coherent = p.coherent;
          total_set = p.limit ∙ b.total_set;
          fits = omega (arith, p.smaller, b.fits);
        })
        p.old in
    record {
      keeps = keeps;
      reads = λ k at h.
          get-live_value at k (record a { lru = some r.0 }) keeps.sound
          ∙ live_value-Pruned now w.gone c r.0 p k at h
          ∙ sym (get-live_value_of_some at k a c e v);
      within = omega (arith, w.within);
      each = omega (arith, w.each, w.reported);
      counted = rw e (omega (arith, p.counted, w.reported));
      reported = refl;
      skipped = λ h. cc;
      starts = λ c' x free there some_limit time found old.
          let same : c' ≡ c = ground (arith, sym there ∙ e) in
          prune_expired_first len_view count_eviction now clock limit cleanup_budget c x b.coherent
            some_limit (omega arith) time (subst (λ q. cursor_element q ≡ some x) same found) old;
    }

pub clean_expired-Cleaned :
    (busy : Bool) (clock : ℕ → ℕ) (now limit : ℕ) (a : Area)
    → IsSound a
    → Cleaned busy clock now limit a (clean_expired busy clock now limit a)
unfolding clean_expired
clean_expired-Cleaned true clock now limit a v =
    untouched-Cleaned true clock now limit a v (λ c free there. cc)
clean_expired-Cleaned false clock now limit a v = elim (Option-cases a.lru) [
  | inl e ↦
      rw (clean_expired_of_none clock now limit a e)
        (untouched-Cleaned false clock now limit a v (λ c free there. cc (e, there)))
  | inr (c, e) ↦
      rw (clean_expired_of_some clock now limit a c e) (pruned-Cleaned clock now limit a c e v)
]
