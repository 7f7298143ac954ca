-- ===== src/Subscriptions/Update/Marking.antt =====
-- SubscriptionManager.cpp: the loop that marks the profiles which the subscription no longer has.
use mathlib.Core.List.{Memᴰ}
use mathlib.Core.Option.{some-injective}
use zarya.Prelude.{
  ℕ, zero, suc, ◌≡◌, refl, sym, subst, ap, ◌∙◌, inl, inr, true, false, List, [], ◌∷◌, length,
  get_elem?, some, Text, text_eq, text_eq_iff, arith, Bool-cases, contains, if◌then◌else◌,
}
use zarya.Profiles.Profile.{Profile, is_from_subscription}
use zarya.Subscriptions.Update.{is_missing, mark_missing}
use zarya.Subscriptions.Update.Positions.{Follows, Follows-refl, Pointwise}
use zarya.Subscriptions.Update.Merging.{IsLiveAt}

contains_of_mem : (k : Text) (ks : List Text) → Memᴰ k ks → contains ks k ≡ true
unfolding contains
contains_of_mem k [] h = elim h [ ]
contains_of_mem k (j ∷ ks) (Memᴰ.head e) = ground (arith, text_eq_iff j k)
contains_of_mem k (j ∷ ks) (Memᴰ.tail m) = ground (arith, contains_of_mem k ks m)

mem_of_contains : (k : Text) (ks : List Text) → contains ks k ≡ true → Memᴰ k ks
unfolding contains
mem_of_contains k [] h = absurd (cc)
mem_of_contains k (j ∷ ks) h = elim (Bool-cases (text_eq j k)) [
  | inl e ↦ Memᴰ.head (sym ((text_eq_iff j k).0 e))
  | inr e ↦ Memᴰ.tail (mem_of_contains k ks (rw e at h))
]

module _ (id : Text) (seen : List Text) where
  not_missing_foreign :
      (q : Profile) → is_from_subscription q id ≡ false → is_missing id seen q ≡ true → ⊥
  unfolding is_missing
  not_missing_foreign q h e = ground arith

  not_missing_seen :
      (q : Profile) → contains seen q.source_key ≡ true → is_missing id seen q ≡ false
  unfolding is_missing
  not_missing_seen q h = ground arith

  seen_of_kept :
      (q : Profile)
      → is_missing id seen q ≡ false
      → is_from_subscription q id ≡ true
      → q.deleted_by_subscription_update ≡ false
      → contains seen q.source_key ≡ true
  unfolding is_missing
  seen_of_kept q h f d = ground arith

  abbrev marked : Profile → Profile
  marked q = if is_missing id seen q then record q { deleted_by_subscription_update = true } else q

  marked-Follows : (q : Profile) → Follows id q (marked q)
  marked-Follows q = elim (Bool-cases (is_missing id seen q)) [
    | inr e ↦ rw e (Follows-refl id q)
    | inl e ↦ rw e (record {
      foreign = λ h. absurd (not_missing_foreign q h e);
      same_id = refl;
      same_key = refl;
      same_origin = unfold is_from_subscription in refl;
    })
  ]

  get_elem?-mark_missing :
      (ps : List Profile) (i : ℕ) (q : Profile)
      → get_elem? ps i ≡ some q
      → get_elem? (mark_missing id seen ps) i ≡ some (marked q)
  unfolding mark_missing
  get_elem?-mark_missing [] i q h = cc
  get_elem?-mark_missing (p ∷ ps) zero q h = ap (λ r. some (marked r)) (some-injective _ _ h)
  get_elem?-mark_missing (p ∷ ps) (suc i) q h = get_elem?-mark_missing ps i q h

  get_elem?-of_marked :
      (ps : List Profile) (i : ℕ) (r : Profile)
      → get_elem? (mark_missing id seen ps) i ≡ some r
      → (q : Profile) × (get_elem? ps i ≡ some q) × (r ≡ marked q)
  unfolding mark_missing
  get_elem?-of_marked [] i r h = absurd (cc)
  get_elem?-of_marked (p ∷ ps) zero r h = (p, refl, sym (some-injective _ _ h))
  get_elem?-of_marked (p ∷ ps) (suc i) r h = get_elem?-of_marked ps i r h

  pub mark_missing-Pointwise :
      (ps : List Profile) → Pointwise (Follows id) ps (mark_missing id seen ps)
  mark_missing-Pointwise ps i q h = (marked q, get_elem?-mark_missing ps i q h, marked-Follows q)

  pub length-mark_missing : (ps : List Profile) → length (mark_missing id seen ps) ≡ length ps
  unfolding mark_missing
  length-mark_missing [] = refl
  length-mark_missing (p ∷ ps) = ap suc (length-mark_missing ps)

  -- A live profile whose key was seen stays as it is.
  pub mark_missing-live :
      (ps : List Profile) (key : Text) (i : ℕ)
      → Memᴰ key seen
      → IsLiveAt id key ps i
      → IsLiveAt id key (mark_missing id seen ps) i
  mark_missing-live ps key i m (q, h, f, e, d) =
      let kept =
        not_missing_seen q
          (contains_of_mem q.source_key seen (subst (λ k. Memᴰ k seen) (sym e) m)) in
      (q, get_elem?-mark_missing ps i q h ∙ ap some (rw kept), f, e, d)

  pub live_seen :
      (ps : List Profile) (key : Text) (i : ℕ)
      → IsLiveAt id key (mark_missing id seen ps) i
      → Memᴰ key seen
  live_seen ps key i (r, h, f, e, d) =
      let (q, at, same) = get_elem?-of_marked ps i r h in
      elim (Bool-cases (is_missing id seen q)) [
        | inl k ↦
            let gone : r ≡ record q { deleted_by_subscription_update = true } = same ∙ rw k in
            cc (ap (λ (t : Profile). t.deleted_by_subscription_update) gone)
        | inr k ↦
            let plain : r ≡ q = same ∙ rw k in
            let kept =
              seen_of_kept q k (subst (λ t. is_from_subscription t id ≡ true) plain f)
                (subst (λ (t : Profile). t.deleted_by_subscription_update ≡ false) plain d) in
            mem_of_contains key seen (
              subst (λ t. contains seen t ≡ true)
                (ap (λ (t : Profile). t.source_key) (sym plain) ∙ e) kept)
      ]
