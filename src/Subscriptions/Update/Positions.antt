-- ===== src/Subscriptions/Update/Positions.antt =====
-- SubscriptionManager.cpp: profiles keep their places; the index of source keys points at them.
use mathlib.Core.Option.{some-injective}
use zarya.Prelude.{
  if◌then◌else◌, ℕ, zero, suc, ◌≡◌, refl, sym, subst, ap, ◌∙◌, inl, inr, true, false, not, ◌&&◌,
  List, [], ◌∷◌, ◌++◌, length, get_elem?, get_elem?-append, get_elem?-append_length, All, some,
  Text, text_eq, text_eq_iff, is_empty, arith, Bool-cases, append_assoc, length-append,
}
use zarya.Profiles.Profile.{Profile, is_from_subscription}
use zarya.Subscriptions.Update.{Index, index_of, index_existing, overwrite}

-- How a profile may change in an update of the subscription `id`, at its place in the list.
pub record Follows (id : Text) (q q' : Profile) : Type 0 where
  pub foreign : is_from_subscription q id ≡ false → q' ≡ q
  pub same_id : q'.id ≡ q.id
  pub same_key : q'.source_key ≡ q.source_key
  pub same_origin : is_from_subscription q' id ≡ is_from_subscription q id

-- Every place of the first list is one of the second, and what stands there is related.
abbrev pub Pointwise : (Profile → Profile → Type 0) → List Profile → List Profile → Type 0
Pointwise R ps qs =
    (i : ℕ) (q : Profile)
    → get_elem? ps i ≡ some q
    → (q' : Profile) × (get_elem? qs i ≡ some q') × R q q'

module _ (id : Text) where
  pub Follows-refl : (q : Profile) → Follows id q q
  Follows-refl q = record {
    foreign = λ _. refl;
    same_id = refl;
    same_key = refl;
    same_origin = refl;
  }

  pub Follows-trans : (p q r : Profile) → Follows id p q → Follows id q r → Follows id p r
  Follows-trans p q r f g = record {
    foreign = λ h. g.foreign (f.same_origin ∙ h) ∙ f.foreign h;
    same_id = g.same_id ∙ f.same_id;
    same_key = g.same_key ∙ f.same_key;
    same_origin = g.same_origin ∙ f.same_origin;
  }

  pub Pointwise-refl : (ps : List Profile) → Pointwise (Follows id) ps ps
  Pointwise-refl ps i q h = (q, h, Follows-refl q)

  pub Pointwise-trans :
      (ps qs rs : List Profile)
      → Pointwise (Follows id) ps qs
      → Pointwise (Follows id) qs rs
      → Pointwise (Follows id) ps rs
  Pointwise-trans ps qs rs f g i q h =
      let (q', h', k) = f i q h in let (r, h'', l) = g i q' h' in (r, h'', Follows-trans q q' r k l)

  -- An entry of the index points at a profile of the subscription with the entry's key.
  abbrev pub PointsAt : List Profile → Text × ℕ → Type 0
  PointsAt ps e =
      (q : Profile) × (get_elem? ps e.1 ≡ some q)
      × (is_from_subscription q id ≡ true)
      × (q.source_key ≡ e.0)

  PointsAt-Pointwise :
      (ps qs : List Profile) (e : Text × ℕ)
      → Pointwise (Follows id) ps qs
      → PointsAt ps e
      → PointsAt qs e
  PointsAt-Pointwise ps qs (k, i) f (q, h, from, key) =
      let (q', h', fol) = f i q h in (q', h', fol.same_origin ∙ from, fol.same_key ∙ key)

  pub All-PointsAt-Pointwise :
      (ps qs : List Profile) (index : Index)
      → Pointwise (Follows id) ps qs
      → All (PointsAt ps) index
      → All (PointsAt qs) index
  All-PointsAt-Pointwise ps qs [] f h = tt
  All-PointsAt-Pointwise ps qs (e ∷ index) f (p, h) =
      (PointsAt-Pointwise ps qs e f p, All-PointsAt-Pointwise ps qs index f h)

  pub index_of-PointsAt :
      (ps : List Profile) (index : Index) (key : Text) (i : ℕ)
      → All (PointsAt ps) index
      → index_of key index ≡ some i
      → PointsAt ps (key, i)
  unfolding index_of
  index_of-PointsAt ps [] key i h e = cc
  index_of-PointsAt ps ((k, j) ∷ index) key i (p, h) e = elim (Bool-cases (text_eq k key)) [
    | inr n ↦ index_of-PointsAt ps index key i h (rw n at e)
    | inl y ↦
        let same : k ≡ key = (text_eq_iff k key).0 y in
        let place : j ≡ i = ground arith in
        subst (λ n. PointsAt ps (key, n)) place (subst (λ t. PointsAt ps (t, j)) same p)
  ]

  -- The index after one profile of the scan.
  abbrev indexed : Profile → ℕ → Index → Index
  indexed p i index =
      if is_from_subscription p id && not (is_empty p.source_key)
      then (p.source_key, i) ∷ index
      else index

  indexed-PointsAt :
      (ps : List Profile) (p : Profile) (i : ℕ) (index : Index)
      → get_elem? ps i ≡ some p
      → All (PointsAt ps) index
      → All (PointsAt ps) (indexed p i index)
  indexed-PointsAt ps p i index h k =
      elim (Bool-cases (is_from_subscription p id && not (is_empty p.source_key))) [
        | inr e ↦ rw e k
        | inl e ↦ rw e ((p, h, ground arith, refl), k)
      ]

  pub index_existing-PointsAt :
      (before after : List Profile) (index : Index)
      → All (PointsAt (before ++ after)) index
      → All (PointsAt (before ++ after)) (index_existing id (length before) after index)
  unfolding index_existing
  index_existing-PointsAt before [] index h = h
  index_existing-PointsAt before (p ∷ after) index h =
      let here = get_elem?-append_length before p after in
      let whole = append_assoc before (p ∷ []) after in
      let next = indexed p (length before) index in
      let count : length (before ++ p ∷ []) ≡ suc (length before) =
        omega (arith, length-append before (p ∷ [])) in
      let now = indexed-PointsAt (before ++ p ∷ after) p (length before) index here h in
      let ih =
        index_existing-PointsAt (before ++ p ∷ []) after next
          (subst (λ l. All (PointsAt l) next) (sym whole) now) in
      subst (λ n. All (PointsAt (before ++ p ∷ after)) (index_existing id n after next)) count
        (subst (λ l. All (PointsAt l) (index_existing id (length (before ++ p ∷ [])) after next))
          whole ih)

  pub renamed_origin :
      (p : Profile) (t : Text)
      → is_from_subscription (record p { id = t }) id ≡ is_from_subscription p id
  unfolding is_from_subscription
  renamed_origin p t = refl

  overwritten-Follows :
      (x p : Profile)
      → is_from_subscription x id ≡ true
      → is_from_subscription p id ≡ true
      → p.source_key ≡ x.source_key
      → Follows id x (record p { id = x.id })
  overwritten-Follows x p f g k = record {
    foreign = λ h. cc;
    same_id = refl;
    same_key = k;
    same_origin = renamed_origin p x.id ∙ g ∙ sym f;
  }

  -- Overwriting at a place with a profile of the same origin and key.
  pub overwrite-Pointwise :
      (ps : List Profile) (i : ℕ) (p q : Profile)
      → get_elem? ps i ≡ some q
      → is_from_subscription q id ≡ true
      → is_from_subscription p id ≡ true
      → p.source_key ≡ q.source_key
      → Pointwise (Follows id) ps (overwrite ps i p)
  unfolding overwrite
  overwrite-Pointwise [] i p q e f g k j r h = cc
  overwrite-Pointwise (x ∷ ps) zero p q e f g k zero r h =
      let found = some-injective _ _ e in
      let origin = subst (λ t. is_from_subscription t id ≡ true) (sym found) f in
      let key = k ∙ ap (λ (t : Profile). t.source_key) (sym found) in
      (
        record p { id = x.id },
        refl,
        subst (λ t. Follows id t (record p { id = x.id })) (some-injective _ _ h)
            (overwritten-Follows x p origin g key),
      )
  overwrite-Pointwise (x ∷ ps) zero p q e f g k (suc j) r h = (r, h, Follows-refl r)
  overwrite-Pointwise (x ∷ ps) (suc i) p q e f g k zero r h = (r, h, Follows-refl r)
  overwrite-Pointwise (x ∷ ps) (suc i) p q e f g k (suc j) r h =
      overwrite-Pointwise ps i p q e f g k j r h

  pub append-Pointwise : (ps qs : List Profile) → Pointwise (Follows id) ps (ps ++ qs)
  append-Pointwise ps qs i q h = (q, get_elem?-append ps qs i h, Follows-refl q)
