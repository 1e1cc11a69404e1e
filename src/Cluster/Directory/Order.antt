-- ===== src/Cluster/Directory/Order.antt =====
-- directory.go: the order of the identities, and the members sorted by it.
use simple_cache.Prelude.{
  ◌≡◌, refl, sym, subst, inl, inr, true, false, Option, none, some, List, [], ◌∷◌, Bytes,
  Bytes-discrete, ◌==◌, Bool-cases, arith,
}
use simple_cache.Cluster.Directory.{
  Member, lt_bytes, comes_before, insert_member, sort_members, accepted, repeats, kept_first,
  normalize,
}

pub lt_bytes_irrefl : (a : Bytes) → lt_bytes a a ≡ false
unfolding lt_bytes
lt_bytes_irrefl [] = refl
lt_bytes_irrefl (c ∷ l) = ground (arith, lt_bytes_irrefl l)

pub lt_bytes_asymm : (a b : Bytes) → lt_bytes a b ≡ true → lt_bytes b a ≡ false
unfolding lt_bytes
lt_bytes_asymm [] [] h = cc
lt_bytes_asymm [] (d ∷ k) h = refl
lt_bytes_asymm (c ∷ l) [] h = cc
lt_bytes_asymm (c ∷ l) (d ∷ k) h = elim (Bool-cases (c == d)) [
  | inl same ↦ ground (arith, same, lt_bytes_asymm l k (ground (arith, same, h)))
  | inr differ ↦ ground (arith, differ, h)
]

pub lt_bytes_trans :
    (a b c : Bytes) → lt_bytes a b ≡ true → lt_bytes b c ≡ true → lt_bytes a c ≡ true
unfolding lt_bytes
lt_bytes_trans [] [] c h g = cc
lt_bytes_trans [] (d ∷ k) [] h g = cc
lt_bytes_trans [] (d ∷ k) (e ∷ m) h g = refl
lt_bytes_trans (c ∷ l) [] e h g = cc
lt_bytes_trans (c ∷ l) (d ∷ k) [] h g = cc
lt_bytes_trans (c ∷ l) (d ∷ k) (e ∷ m) h g = elim (Bool-cases (c == d)) [
  | inl same ↦ elim (Bool-cases (d == e)) [
    | inl same' ↦
        let rest = lt_bytes_trans l k m (ground (arith, same, h)) (ground (arith, same', g)) in
        ground (arith, same, same', rest)
    | inr differ' ↦ ground (arith, same, differ', g)
  ]
  | inr differ ↦ elim (Bool-cases (d == e)) [
    | inl same' ↦ ground (arith, differ, same', h)
    | inr differ' ↦ ground (arith, differ, differ', h, g)
  ]
]

pub lt_bytes_total : (a b : Bytes) → lt_bytes a b ≡ false → lt_bytes b a ≡ false → a ≡ b
unfolding lt_bytes
lt_bytes_total [] [] h g = refl
lt_bytes_total [] (d ∷ k) h g = cc
lt_bytes_total (c ∷ l) [] h g = cc
lt_bytes_total (c ∷ l) (d ∷ k) h g = elim (Bool-cases (c == d)) [
  | inl same ↦
      let rest = lt_bytes_total l k (ground (arith, same, h)) (ground (arith, same, g)) in
      let head : c ≡ d = ground (arith, same) in cc
  | inr differ ↦ absurd (ground (arith, differ, h, g))
]

abbrev AtLeast : Option Bytes → Bytes → Type 0
AtLeast none id = Unit
AtLeast (some last) id = lt_bytes id last ≡ false

abbrev pub Above : Option Bytes → Bytes → Type 0
Above none id = Unit
Above (some last) id = lt_bytes last id ≡ true

-- Sorted by identity, from `last` on.
unfoldable pub IsOrdered : Option Bytes → List Member → Type 0
IsOrdered last [] = Unit
IsOrdered last (m ∷ l) = AtLeast last m.id × IsOrdered (some m.id) l

-- Sorted by identity, each once.
unfoldable pub IsRising : Option Bytes → List Member → Type 0
IsRising last [] = Unit
IsRising last (m ∷ l) = Above last m.id × IsRising (some m.id) l

before_lem : (n m : Member) → comes_before n m ≡ true → lt_bytes m.id n.id ≡ false
before_lem n m h = elim (Bytes-discrete n.id m.id) [
  | yes same ↦ subst (λ x. lt_bytes x n.id ≡ false) same (lt_bytes_irrefl n.id)
  | no differ ↦ lt_bytes_asymm n.id m.id (ground (arith, h))
]

after_lem : (n m : Member) → comes_before n m ≡ false → lt_bytes n.id m.id ≡ false
after_lem n m h = elim (Bytes-discrete n.id m.id) [
  | yes same ↦ subst (λ x. lt_bytes n.id x ≡ false) same (lt_bytes_irrefl n.id)
  | no differ ↦ ground (arith, h)
]

insert_member-IsOrdered :
    (m : Member) (last : Option Bytes) (l : List Member)
    → AtLeast last m.id
    → IsOrdered last l
    → IsOrdered last (insert_member m l)
unfolding IsOrdered insert_member
insert_member-IsOrdered m last [] h g = (h, tt)
insert_member-IsOrdered m last (n ∷ l) h (a, g) = elim (Bool-cases (comes_before n m)) [
  | inl before ↦ rw before (a, insert_member-IsOrdered m (some n.id) l (before_lem n m before) g)
  | inr after ↦ rw after (h, (after_lem n m after, g))
]

pub sort_members-IsOrdered : (l : List Member) → IsOrdered none (sort_members l)
unfolding sort_members IsOrdered
sort_members-IsOrdered [] = tt
sort_members-IsOrdered (m ∷ l) =
    insert_member-IsOrdered m none (sort_members l) tt (sort_members-IsOrdered l)

unfoldable pub AllMembers : (Member → Type 0) → List Member → Type 0
AllMembers P [] = Unit
AllMembers P (m ∷ l) = P m × AllMembers P l

-- What normalize makes of sorted members.
abbrev pub Normal : Option Bytes → Option (List Member) → Type 0
Normal last none = Unit
Normal last (some l) = IsRising last l × AllMembers (λ m. accepted m ≡ true) l

kept_first-Normal :
    (last : Option Bytes) (m : Member) (r : Option (List Member))
    → Above last m.id
    → accepted m ≡ true
    → Normal (some m.id) r
    → Normal last (kept_first m r)
unfolding IsRising AllMembers
kept_first-Normal last m none a ok h = tt
kept_first-Normal last m (some l) a ok (h, g) = ((a, h), (ok, g))

new_id :
    (last : Option Bytes) (id : Bytes) → repeats last id ≡ false → AtLeast last id → Above last id
new_id none id new h = tt
new_id (some last) id new h = elim (Bool-cases (lt_bytes last id)) [
  | inl above ↦ above
  | inr not_above ↦ absurd (ground (arith, new, lt_bytes_total last id not_above h))
]

old_id :
    (last : Option Bytes) (m : Member) (l : List Member)
    → repeats last m.id ≡ true
    → IsOrdered (some m.id) l
    → IsOrdered last l
old_id none m l old h = cc
old_id (some last) m l old h =
    let same : last ≡ m.id = ground (arith, old) in subst (λ x. IsOrdered (some x) l) (sym same) h

pub normalize-Normal :
    (last : Option Bytes) (l : List Member) → IsOrdered last l → Normal last (normalize last l)
unfolding normalize IsOrdered IsRising AllMembers
normalize-Normal last [] h = (tt, tt)
normalize-Normal last (m ∷ l) (a, h) = elim (Bool-cases (accepted m)) [
  | inr bad ↦ rw (bad, normalize) tt
  | inl good ↦ elim (Bool-cases (repeats last m.id)) [
    | inl old ↦ rw (good, normalize, old) (normalize-Normal last l (old_id last m l old h))
    | inr new ↦
        rw (good, normalize, new)
          (kept_first-Normal last m (normalize (some m.id) l) (new_id last m.id new a) good
            (normalize-Normal (some m.id) l h))
  ]
]
