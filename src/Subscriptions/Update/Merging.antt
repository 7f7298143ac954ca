-- ===== src/Subscriptions/Update/Merging.antt =====
-- SubscriptionManager.cpp: the loop that merges the parsed profiles into the list.
use zarya.Prelude.{
  ℕ, zero, suc, ◌+◌, ◌≡◌, refl, sym, subst, ap, ◌∙◌, ◌⊎◌, inl, inr, true, false, List, [], ◌∷◌,
  ◌++◌, length, get_elem?, get_elem?-append, get_elem?-append_length, All, none, some, Text,
  text_eq_refl, arith, Option-cases, length-append, map,
}
use mathlib.Core.List.{Memᴰ}
use mathlib.Core.Option.{some-injective}
use zarya.Profiles.Profile.{Profile, is_from_subscription}
use zarya.Subscriptions.Update.{
  Subscription, index_of, incoming, overwrite, Merge, merge_at, merge_one, merge_all, start_merge,
}
use zarya.Subscriptions.Update.Positions.{
  Follows, Pointwise, Pointwise-refl, Pointwise-trans, PointsAt, All-PointsAt-Pointwise,
  index_of-PointsAt, index_existing-PointsAt, overwrite-Pointwise, append-Pointwise, renamed_origin,
}

-- The loop's invariant: every entry of the index points at a profile of the subscription.
abbrev IndexIsGood : Text → Merge → Type 0
IndexIsGood id m = All (PointsAt id m.profiles) m.index

-- A place that holds a live profile of the subscription under a key.
abbrev pub IsLiveAt : Text → Text → List Profile → ℕ → Type 0
IsLiveAt id key ps i =
    (q : Profile) × (get_elem? ps i ≡ some q)
    × (is_from_subscription q id ≡ true)
    × (q.source_key ≡ key)
    × (q.deleted_by_subscription_update ≡ false)

-- What one round of the loop does with the profile `p`.
record Round (id : Text) (m m' : Merge) (p : Profile) : Type 0 where
  follows : Pointwise (Follows id) m.profiles m'.profiles
  good : IndexIsGood id m'
  place : ℕ
  live : IsLiveAt id p.source_key m'.profiles place
  keeps_live : (key : Text) (i : ℕ) → IsLiveAt id key m.profiles i → IsLiveAt id key m'.profiles i
  seen : m'.seen ≡ p.source_key ∷ m.seen
  counts : m'.added + m'.updated ≡ suc (m.added + m.updated)
  grows : length m'.profiles + m.added ≡ length m.profiles + m'.added

length-overwrite : (ps : List Profile) (i : ℕ) (p : Profile) → length (overwrite ps i p) ≡ length ps
unfolding overwrite
length-overwrite [] i p = refl
length-overwrite (q ∷ ps) zero p = refl
length-overwrite (q ∷ ps) (suc i) p = ap suc (length-overwrite ps i p)

overwrite_self :
    (ps : List Profile) (i : ℕ) (p q : Profile)
    → get_elem? ps i ≡ some q
    → get_elem? (overwrite ps i p) i ≡ some (record p { id = q.id })
unfolding overwrite
overwrite_self [] i p q h = cc
overwrite_self (x ∷ ps) zero p q h = ap (λ r. some (record p { id = r.id })) (some-injective _ _ h)
overwrite_self (x ∷ ps) (suc i) p q h = overwrite_self ps i p q h

overwrite-other :
    (ps : List Profile) (i j : ℕ) (p q : Profile)
    → get_elem? ps j ≡ some q
    → (get_elem? (overwrite ps i p) j ≡ some q) ⊎ (i ≡ j)
unfolding overwrite
overwrite-other [] i j p q h = cc
overwrite-other (x ∷ ps) zero zero p q h = inr refl
overwrite-other (x ∷ ps) zero (suc j) p q h = inl h
overwrite-other (x ∷ ps) (suc i) zero p q h = inl h
overwrite-other (x ∷ ps) (suc i) (suc j) p q h = elim (overwrite-other ps i j p q h) [
  | inl k ↦ inl k
  | inr k ↦ inr (ap suc k)
]

module _ (id : Text) (m : Merge) (p : Profile) (good : IndexIsGood id m)
    (origin : is_from_subscription p id ≡ true)
    (alive : p.deleted_by_subscription_update ≡ false) where
  updated-Round :
      (i : ℕ) → PointsAt id m.profiles (p.source_key, i) → Round id m (merge_at m p (some i)) p
  unfolding merge_at
  updated-Round i (q, at, from, key) =
      let f = overwrite-Pointwise id m.profiles i p q at from origin (sym key) in
      let here : IsLiveAt id p.source_key (overwrite m.profiles i p) i = (
        record p { id = q.id },
        overwrite_self m.profiles i p q at,
        renamed_origin id p q.id ∙ origin,
        refl,
        alive,
      ) in
      record {
        follows = f;
        good = All-PointsAt-Pointwise id m.profiles (overwrite m.profiles i p) m.index f good;
        place = i;
        live = here;
        keeps_live = λ k j (r, h, o, e, d). elim (overwrite-other m.profiles i j p r h) [
          | inl same ↦ (r, same, o, e, d)
          | inr place ↦
              let found : q ≡ r =
                some-injective _ _ (sym at ∙ ap (get_elem? m.profiles) place ∙ h) in
              subst (IsLiveAt id k (overwrite m.profiles i p)) place (
                subst (λ t. IsLiveAt id t (overwrite m.profiles i p) i)
                  (sym key ∙ ap (λ (t : Profile). t.source_key) found ∙ e) here)
        ];
        seen = refl;
        counts = omega arith;
        grows = omega (arith, length-overwrite m.profiles i p);
      }

  added-Round : Round id m (merge_at m p none) p
  unfolding merge_at
  added-Round =
      let f = append-Pointwise id m.profiles (p ∷ []) in
      let last = get_elem?-append_length m.profiles p [] in
      record {
        follows = f;
        good = (
          (p, last, origin, refl),
          All-PointsAt-Pointwise id m.profiles (m.profiles ++ p ∷ []) m.index f good,
        );
        place = length m.profiles;
        live = (p, last, origin, refl, alive);
        keeps_live = λ k j (r, h, o, e, d). (r, get_elem?-append m.profiles (p ∷ []) j h, o, e, d);
        seen = refl;
        counts = omega arith;
        grows = omega (arith, length-append m.profiles (p ∷ []));
      }

  one-Round : Round id m (merge_one m p) p
  unfolding merge_one
  one-Round = elim (Option-cases (index_of p.source_key m.index)) [
    | inl e ↦ rw (e, merge_one) added-Round
    | inr (i, e) ↦
        rw (e, merge_one)
          (updated-Round i (index_of-PointsAt id m.profiles m.index p.source_key i good e))
  ]

incoming-origin :
    (s : Subscription) (now : ℕ) (t : Profile) → is_from_subscription (incoming s now t) s.id ≡ true
unfolding incoming is_from_subscription
incoming-origin s now t = text_eq_refl s.id

incoming-alive :
    (s : Subscription) (now : ℕ) (t : Profile)
    → (incoming s now t).deleted_by_subscription_update ≡ false
unfolding incoming
incoming-alive s now t = refl

-- The source keys of the parsed profiles.
abbrev pub keys : Subscription → ℕ → List Profile → List Text
keys s now templates = map (λ t. (incoming s now t).source_key) templates

-- What the whole loop does.
pub record Merged (s : Subscription) (now : ℕ) (m m' : Merge) (templates : List Profile)
    : Type 0 where
  pub follows : Pointwise (Follows s.id) m.profiles m'.profiles
  pub live : All (λ k. (i : ℕ) × IsLiveAt s.id k m'.profiles i) (keys s now templates)
  pub keeps_live :
      (key : Text) (i : ℕ) → IsLiveAt s.id key m.profiles i → IsLiveAt s.id key m'.profiles i
  pub seen_only : (k : Text) → Memᴰ k m'.seen → Memᴰ k m.seen ⊎ Memᴰ k (keys s now templates)
  pub seen_old : (k : Text) → Memᴰ k m.seen → Memᴰ k m'.seen
  pub seen_new : All (λ k. Memᴰ k m'.seen) (keys s now templates)
  pub counts : m'.added + m'.updated ≡ length templates + (m.added + m.updated)
  pub grows : length m'.profiles + m.added ≡ length m.profiles + m'.added

merge_all-Merged :
    (s : Subscription) (now : ℕ) (m : Merge) (templates : List Profile)
    → IndexIsGood s.id m
    → Merged s now m (merge_all s now m templates) templates
unfolding merge_all
merge_all-Merged s now m [] good = record {
  follows = Pointwise-refl s.id m.profiles;
  live = tt;
  keeps_live = λ k i h. h;
  seen_only = λ k h. inl h;
  seen_old = λ k h. h;
  seen_new = tt;
  counts = omega arith;
  grows = refl;
}
merge_all-Merged s now m (t ∷ templates) good =
    let p = incoming s now t in
    let first = one-Round s.id m p good (incoming-origin s now t) (incoming-alive s now t) in
    let next = merge_one m p in
    let rest = merge_all-Merged s now next templates first.good in
    let end = merge_all s now next templates in
    record {
      follows =
          Pointwise-trans s.id m.profiles next.profiles end.profiles first.follows rest.follows;
      live = ((first.place, rest.keeps_live p.source_key first.place first.live), rest.live);
      keeps_live = λ k i h. rest.keeps_live k i (first.keeps_live k i h);
      seen_only = λ k h. elim (rest.seen_only k h) [
        | inr l ↦ inr (Memᴰ.tail l)
        | inl l ↦ from_first k (subst (Memᴰ k) first.seen l)
      ];
      seen_old = λ k h. rest.seen_old k (subst (Memᴰ k) (sym first.seen) (Memᴰ.tail h));
      seen_new = (
        rest.seen_old p.source_key (subst (Memᴰ p.source_key) (sym first.seen) (Memᴰ.head refl)),
        rest.seen_new,
      );
      counts = omega (arith, first.counts, rest.counts);
      grows = omega (arith, first.grows, rest.grows);
    }
  where
    from_first :
        (k : Text)
        → Memᴰ k ((incoming s now t).source_key ∷ m.seen)
        → Memᴰ k m.seen ⊎ Memᴰ k (keys s now (t ∷ templates))
    from_first k (Memᴰ.head e) = inr (Memᴰ.head e)
    from_first k (Memᴰ.tail l) = inl l

-- The loop from its start.
pub start_merge-Merged :
    (s : Subscription) (now : ℕ) (profiles templates : List Profile)
    → Merged s now
        (start_merge s profiles)
        (merge_all s now (start_merge s profiles) templates)
        templates
start_merge-Merged s now profiles templates =
    merge_all-Merged s now (start_merge s profiles) templates
      (unfold start_merge in index_existing-PointsAt s.id [] profiles [] tt)
