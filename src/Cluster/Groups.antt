-- ===== src/Cluster/Groups.antt =====
-- server.go: NewHandlerWithToken, which registers the groups that a member serves under their names. A
-- group comes with its name.
use simple_cache.Prelude.{
  ◌≡◌, refl, ◌∙◌, ◌⊎◌, inl, inr, ite, Option, none, some, List, [], ◌∷◌, Bytes, Bytes-discrete,
  Option-cases, arith,
}
use simple_cache.Prelude.Maps
use simple_cache.Prelude.Maps.{StringMap, get-put}
use simple_cache.Group.{Group}
use simple_cache.Cluster.{Handler}

-- The loop over the groups; `none` is the panic on a duplicate.
unfoldable pub add_groups : List (Bytes × Group) → StringMap Group → Option (StringMap Group)
add_groups [] m = some m
add_groups ((name, g) ∷ l) m = elim (Maps.get name m) [
  | some _ ↦ none
  | none ↦ add_groups l (Maps.put name g m)
]

abbrev handler_of : Bytes → Option (StringMap Group) → Option Handler
handler_of token none = none
handler_of token (some m) = some (record { groups = m; token = token })

unfoldable pub new_handler_with_token : Bytes → List (Bytes × Group) → Option Handler
unfolding add_groups
new_handler_with_token token groups = handler_of token (add_groups groups [])

-- The group that a name stands for.
pub named : Bytes → List (Bytes × Group) → Option Group
named k [] = none
named k ((name, g) ∷ l) = ite (Bytes-discrete name k) (some g) (named k l)

-- No two groups have one name.
abbrev pub NamesDistinct : List (Bytes × Group) → Type 0
NamesDistinct [] = Unit
NamesDistinct ((name, g) ∷ l) = (named name l ≡ none) × NamesDistinct l

-- No group has a name that the table has.
abbrev Fresh : List (Bytes × Group) → StringMap Group → Type 0
Fresh l m = (k : Bytes) → (named k l ≡ none) ⊎ (Maps.get k m ≡ none)

abbrev or_named : Option Group → Option Group → Option Group
or_named none b = b
or_named (some g) b = some g

abbrev Adds : List (Bytes × Group) → StringMap Group → Option (StringMap Group) → Type 0
Adds l m r =
    ((r ≡ none) × (NamesDistinct l → Fresh l m → ⊥))
    ⊎ ((m' : StringMap Group) × (r ≡ some m')
        × NamesDistinct l
        × Fresh l m
        × ((k : Bytes) → Maps.get k m' ≡ or_named (named k l) (Maps.get k m)))

taken :
    (k : Bytes) (g x : Group) (l : List (Bytes × Group)) (m : StringMap Group)
    → Maps.get k m ≡ some x
    → Fresh ((k, g) ∷ l) m
    → ⊥
unfolding named
taken k g x l m e f = ground (arith, f k)

Fresh-put :
    (k : Bytes) (g : Group) (l : List (Bytes × Group)) (m : StringMap Group)
    → named k l ≡ none
    → Fresh ((k, g) ∷ l) m
    → Fresh l (Maps.put k g m)
unfolding named
Fresh-put k g l m n f = λ j. ground (arith, f j, get-put k j g m)

Fresh-cons :
    (k : Bytes) (g : Group) (l : List (Bytes × Group)) (m : StringMap Group)
    → Maps.get k m ≡ none
    → Fresh l (Maps.put k g m)
    → Fresh ((k, g) ∷ l) m
unfolding named
Fresh-cons k g l m n f = λ j. ground (arith, f j, get-put k j g m)

absent :
    (k : Bytes) (g : Group) (l : List (Bytes × Group)) (m : StringMap Group)
    → Fresh l (Maps.put k g m)
    → named k l ≡ none
absent k g l m f = ground (arith, f k, get-put k k g m)

found_after :
    (k j : Bytes) (g : Group) (l : List (Bytes × Group)) (m : StringMap Group)
    → named k l ≡ none
    → or_named (named j l) (Maps.get j (Maps.put k g m))
      ≡ or_named (named j ((k, g) ∷ l)) (Maps.get j m)
unfolding named
found_after k j g l m n = ground (arith, get-put k j g m)

add_groups-Adds : (l : List (Bytes × Group)) (m : StringMap Group) → Adds l m (add_groups l m)
unfolding add_groups named
add_groups-Adds [] m = inr (m, refl, tt, λ k. inl refl, λ k. refl)
add_groups-Adds ((name, g) ∷ l) m = elim (Option-cases (Maps.get name m)) [
  | inr (x, e) ↦ inl (rw (e, add_groups) refl, λ d f. taken name g x l m e f)
  | inl e ↦ elim (add_groups-Adds l (Maps.put name g m)) [
    | inl (raised, clash) ↦
        inl (rw (e, add_groups) raised, λ d f. clash d.1 (Fresh-put name g l m d.0 f))
    | inr (m', run, d, f, found) ↦
        let a = absent name g l m f in
        inr (
          m',
          rw (e, add_groups) run,
          (a, d),
          Fresh-cons name g l m e f,
          λ k. found k ∙ found_after name k g l m a,
        )
  ]
]

-- NewHandlerWithToken panics exactly on two groups of one name. Otherwise the handler has the token, and for
-- every name the group that was given under it, or none.
pub new_handler_with_token-named :
    (token : Bytes) (groups : List (Bytes × Group))
    → ((new_handler_with_token token groups ≡ none) × (NamesDistinct groups → ⊥))
      ⊎ ((h : Handler) × (new_handler_with_token token groups ≡ some h)
          × NamesDistinct groups
          × (h.token ≡ token)
          × ((k : Bytes) → Maps.get k h.groups ≡ named k groups))
unfolding new_handler_with_token
new_handler_with_token-named token groups = elim (add_groups-Adds groups []) [
  | inl (raised, clash) ↦
      inl (rw raised refl, λ d. clash d (λ k. inr (Maps.get-empty {V = Group} k)))
  | inr (m, run, d, f, found) ↦ inr (
    record { groups = m; token = token },
    rw run refl,
    d,
    refl,
    λ k. ground (arith, found k, Maps.get-empty {V = Group} k),
  )
]
