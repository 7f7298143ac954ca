-- ===== src/Routing/Manager/Lookup.antt =====
-- RoutingManager.cpp: what each change of the list does to the lookup of a profile.
use zarya.Prelude.{
  ℕ, ◌≡◌, refl, sym, subst, ◌≢◌, ◌⊎◌, inl, inr, Bool, true, false, List, [], ◌∷◌, ◌++◌, none, some,
  All, Text, text_eq_iff, arith, Option-cases,
}
use zarya.Routing.Profiles.{RoutingProfile}
use zarya.Routing.Manager.{
  find, replace, Removal, removed, refused, RemoveError, remove_from, add_missing,
}

pub find-append :
    (id : Text) (ps qs : List RoutingProfile) (p : RoutingProfile)
    → find id ps ≡ some p
    → find id (ps ++ qs) ≡ some p
unfolding find
find-append id [] qs p h = cc
find-append id (q ∷ ps) qs p h = ground (arith, find-append id ps qs p)

pub find-append_last :
    (id : Text) (ps : List RoutingProfile) (p : RoutingProfile)
    → find id ps ≡ none
    → p.id ≡ id
    → find id (ps ++ p ∷ []) ≡ some p
unfolding find
find-append_last id [] p h e = ground (arith, text_eq_iff p.id id)
find-append_last id (q ∷ ps) p h e = ground (arith, find-append_last id ps p)

pub find-id :
    (id : Text) (ps : List RoutingProfile) (p : RoutingProfile) → find id ps ≡ some p → p.id ≡ id
unfolding find
find-id id [] p h = cc
find-id id (q ∷ ps) p h = ground (arith, find-id id ps p, text_eq_iff q.id id)

-- A profile is replaced only under its own identifier, and only one that is not built in.
pub find-replace :
    (now : ℕ) (new : RoutingProfile) (ps qs : List RoutingProfile) (done : Bool) (id : Text)
    (p : RoutingProfile)
    → replace now new ps ≡ some (qs, done)
    → find id ps ≡ some p
    → ((find id qs ≡ some p) × ((id ≢ new.id) ⊎ (p.is_built_in ≡ true)))
      ⊎ ((find id qs ≡ some (record new { updated_at = now }))
          × (id ≡ new.id)
          × (p.is_built_in ≡ false)
          × (done ≡ true))
unfolding find replace
find-replace now new [] qs done id p h k = cc
find-replace now new (x ∷ ps) qs done id p h k = elim (Option-cases (replace now new ps)) [
  | inl e ↦ ground (arith, text_eq_iff x.id id, text_eq_iff x.id new.id)
  | inr ((rest, d), e) ↦
      ground
        (arith, find-replace now new ps rest d id p e, text_eq_iff x.id id, text_eq_iff x.id new.id)
]

pub find-replace-none :
    (now : ℕ) (new : RoutingProfile) (ps : List RoutingProfile)
    → replace now new ps ≡ none
    → find new.id ps ≡ none
unfolding find replace
find-replace-none now new [] h = refl
find-replace-none now new (x ∷ ps) h = ground (arith, find-replace-none now new ps)

pub Removal-cases :
    (r : Removal)
    → ((e : RemoveError) × (r ≡ refused e)) ⊎ ((ps : List RoutingProfile) × (r ≡ removed ps))
Removal-cases (refused e) = inl (e, refl)
Removal-cases (removed ps) = inr (ps, refl)

pub find-remove_from :
    (id other : Text) (ps qs : List RoutingProfile) (p : RoutingProfile)
    → remove_from id ps ≡ removed qs
    → find other ps ≡ some p
    → (find other qs ≡ some p) ⊎ ((other ≡ id) × (p.is_built_in ≡ false))
unfolding find remove_from
find-remove_from id other [] qs p h k = cc
find-remove_from id other (x ∷ ps) qs p h k = elim (Removal-cases (remove_from id ps)) [
  | inl (e, r) ↦ ground (arith, text_eq_iff x.id id, text_eq_iff x.id other)
  | inr (rest, r) ↦
      ground
        (arith, find-remove_from id other ps rest p r, text_eq_iff x.id id, text_eq_iff x.id other)
]

find-append_cases :
    (id : Text) (ps : List RoutingProfile) (b p : RoutingProfile)
    → find id (ps ++ b ∷ []) ≡ some p
    → (find id ps ≡ some p) ⊎ (p ≡ b)
unfolding find
find-append_cases id [] b p h = ground arith
find-append_cases id (q ∷ ps) b p h = ground (arith, find-append_cases id ps b p)

abbrev IsFlagged : RoutingProfile → Type 0
IsFlagged p = p.is_built_in ≡ true

-- The first profile under the identifier, if any, is flagged as built in.
abbrev pub FlaggedIn : List RoutingProfile → Text → Type 0
FlaggedIn ps id = (p : RoutingProfile) → find id ps ≡ some p → IsFlagged p

-- A profile with the identifier is there, and the first such is flagged as built in.
abbrev pub Guarded : List RoutingProfile → Text → Type 0
Guarded ps id = (p : RoutingProfile) × (find id ps ≡ some p) × IsFlagged p

abbrev pub Present : List RoutingProfile → Text → Type 0
Present ps id = (p : RoutingProfile) × (find id ps ≡ some p)

after_one : (b : RoutingProfile) (ps : List RoutingProfile) → List RoutingProfile
after_one b ps = elim (find b.id ps) [ some _ ↦ ps | none ↦ ps ++ b ∷ [] ]

add_missing_lem :
    (ps : List RoutingProfile) (b : RoutingProfile) (bs : List RoutingProfile)
    → add_missing ps (b ∷ bs) ≡ add_missing (after_one b ps) bs
unfolding add_missing after_one
add_missing_lem ps b bs = refl

find-after_one :
    (b : RoutingProfile) (ps : List RoutingProfile) (id : Text) (p : RoutingProfile)
    → find id ps ≡ some p
    → find id (after_one b ps) ≡ some p
unfolding after_one
find-after_one b ps id p h = elim (Option-cases (find b.id ps)) [
  | inl e ↦ rw (e, after_one) (find-append id ps (b ∷ []) p h)
  | inr (q, e) ↦ rw (e, after_one) h
]

after_one-Present :
    (b : RoutingProfile) (ps : List RoutingProfile)
    → (find b.id (after_one b ps) ≡ some b) ⊎ ((p : RoutingProfile) × (find b.id ps ≡ some p))
unfolding after_one
after_one-Present b ps = elim (Option-cases (find b.id ps)) [
  | inl e ↦ inl (rw (e, after_one) (find-append_last b.id ps b e refl))
  | inr (q, e) ↦ inr (q, e)
]

after_one-FlaggedIn :
    (b : RoutingProfile) (ps : List RoutingProfile) (id : Text)
    → IsFlagged b
    → FlaggedIn ps id
    → FlaggedIn (after_one b ps) id
unfolding after_one
after_one-FlaggedIn b ps id f h = elim (Option-cases (find b.id ps)) [
  | inl e ↦
      rw (e, after_one)
        (λ p q. elim (find-append_cases id ps b p q) [ inl k ↦ h p k | inr k ↦ rw k f ])
  | inr (x, e) ↦ rw (e, after_one) h
]

find-add_missing :
    (ps bs : List RoutingProfile) (id : Text) (p : RoutingProfile)
    → find id ps ≡ some p
    → find id (add_missing ps bs) ≡ some p
find-add_missing ps [] id p h = unfold add_missing in h
find-add_missing ps (b ∷ bs) id p h =
    rw (add_missing_lem ps b bs)
      (find-add_missing (after_one b ps) bs id p (find-after_one b ps id p h))

pub add_missing-Present :
    (ps bs : List RoutingProfile) → All (λ b. Present (add_missing ps bs) b.id) bs
add_missing-Present ps [] = tt
add_missing-Present ps (b ∷ bs) =
    subst (λ t. All (λ c. Present t c.id) (b ∷ bs)) (sym (add_missing_lem ps b bs))
      (
        elim (after_one-Present b ps) [
          | inl e ↦ (b, find-add_missing (after_one b ps) bs b.id b e)
          | inr (q, e) ↦
              (q, find-add_missing (after_one b ps) bs b.id q (find-after_one b ps b.id q e))
        ],
        add_missing-Present (after_one b ps) bs,
      )

All-after_one-FlaggedIn :
    (b : RoutingProfile) (ps cs : List RoutingProfile)
    → IsFlagged b
    → All (λ c. FlaggedIn ps c.id) cs
    → All (λ c. FlaggedIn (after_one b ps) c.id) cs
All-after_one-FlaggedIn b ps [] f h = tt
All-after_one-FlaggedIn b ps (c ∷ cs) f (k, h) =
    (after_one-FlaggedIn b ps c.id f k, All-after_one-FlaggedIn b ps cs f h)

pub add_missing-Guarded :
    (ps bs : List RoutingProfile)
    → All IsFlagged bs
    → All (λ b. FlaggedIn ps b.id) bs
    → All (λ b. Guarded (add_missing ps bs) b.id) bs
add_missing-Guarded ps [] f h = tt
add_missing-Guarded ps (b ∷ bs) (g, f) (k, h) =
    subst (λ t. All (λ c. Guarded t c.id) (b ∷ bs)) (sym (add_missing_lem ps b bs))
      (
        elim (after_one-Present b ps) [
          | inl e ↦ (b, find-add_missing (after_one b ps) bs b.id b e, g)
          | inr (q, e) ↦
              (q, find-add_missing (after_one b ps) bs b.id q (find-after_one b ps b.id q e), k q e)
        ],
        add_missing-Guarded (after_one b ps) bs f (All-after_one-FlaggedIn b ps bs g h),
      )
