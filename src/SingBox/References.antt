-- ===== src/SingBox/References.antt =====
-- src/runtime/singbox/SingBoxRouteGenerator.cpp: the rule sets that one rule refers to.
use zarya.Prelude.{
  ◌≡◌, refl, sym, subst, Bool, true, false, List, [], ◌∷◌, ◌++◌, map, All, All-append, All-imply,
  Text, codes, text_eq_refl, contains, if◌then◌else◌, arith,
}
use zarya.Json.{Fields, value, to_string, to_array}
use zarya.SingBox.RuleSets.{SingBoxRuleSetContext, has_local_rule_set, insert_tag}
use zarya.SingBox.Rule.{References, append_rule_set_tag, refer, refer_all}

-- The tags under `rule_set` in a rule.
abbrev pub rule_sets_of : Fields → List Text
rule_sets_of rule = map to_string (to_array (value rule (codes "rule_set")))

abbrev pub Has : List Text → Text → Type 0
Has tags tag = contains tags tag ≡ true

-- `more` has all tags of `tags`, and each of its tags has a local rule set if those of `tags` have.
abbrev pub Grows : SingBoxRuleSetContext → List Text → List Text → Type 0
Grows context tags more =
    ((tag : Text) → Has tags tag → Has more tag)
    × (All (λ t. has_local_rule_set context t ≡ true) tags
        → All (λ t. has_local_rule_set context t ≡ true) more)

Has-append : (tags : List Text) (t tag : Text) → Has tags tag → Has (tags ++ t ∷ []) tag
unfolding contains
Has-append [] t tag h = ground arith
Has-append (s ∷ tags) t tag h = ground (arith, Has-append tags t tag)

Has-last : (tags : List Text) (t : Text) → Has (tags ++ t ∷ []) t
unfolding contains
Has-last [] t = ground (arith, text_eq_refl t)
Has-last (s ∷ tags) t = ground (arith, Has-last tags t)

pub Has-insert_tag : (tags : List Text) (t : Text) → Has (insert_tag tags t) t
unfolding insert_tag
Has-insert_tag tags t = ground (arith, Has-last tags t)

module _ (context : SingBoxRuleSetContext) where
  pub Grows-refl : (tags : List Text) → Grows context tags tags
  Grows-refl tags = ((λ t h. h), (λ h. h))

  pub Grows-trans : (a b c : List Text) → Grows context a b → Grows context b c → Grows context a c
  Grows-trans a b c (f, g) (h, k) = ((λ t x. h t (f t x)), (λ x. k (g x)))

  insert_when :
      (known : Bool) (tags : List Text) (t : Text)
      → has_local_rule_set context t ≡ true
      → Grows context tags (if known then tags else tags ++ t ∷ [])
  insert_when true tags t h = Grows-refl tags
  insert_when false tags t h = (
    (λ tag k. Has-append tags t tag k),
    (λ k. All-append (λ u. has_local_rule_set context u ≡ true) tags (t ∷ []) k (h, tt)),
  )

  pub Grows-insert_tag :
      (tags : List Text) (t : Text)
      → has_local_rule_set context t ≡ true
      → Grows context tags (insert_tag tags t)
  unfolding insert_tag
  Grows-insert_tag tags t h = insert_when (contains tags t) tags t h

  -- The tags of the rule are among the used ones, which have grown.
  abbrev pub Keeps : References → References → Type 0
  Keeps r s = (All (Has r.used) r.tags → All (Has s.used) s.tags) × Grows context r.used s.used

  append_when :
      (known : Bool) (tag : Text) (r : References)
      → has_local_rule_set context tag ≡ true
      → Keeps r (
          if known then r else record r { tags = r.tags ++ tag ∷ []; used = insert_tag r.used tag })
  append_when true tag r h = ((λ k. k), Grows-refl r.used)
  append_when false tag r h =
      let grows = Grows-insert_tag r.used tag h in
      (
        (λ k.
            All-append (Has (insert_tag r.used tag)) r.tags (tag ∷ [])
              (All-imply (Has r.used) (Has (insert_tag r.used tag)) r.tags grows.0 k)
              (Has-insert_tag r.used tag, tt)),
        grows,
      )

  refer_when :
      (local : Bool) (tag : Text) (r s : References)
      → (local ≡ true → has_local_rule_set context tag ≡ true)
      → (s.tags ≡ r.tags) × (s.used ≡ r.used)
      → Keeps r (if local then append_rule_set_tag tag r else s)
  unfolding append_rule_set_tag
  refer_when true tag r s h e = append_when (contains r.tags tag) tag r (h refl)
  refer_when false tag r s h e = (
    (λ k. subst (λ u. All (Has u) s.tags) (sym e.1) (subst (All (Has r.used)) (sym e.0) k)),
    subst (Grows context r.used) (sym e.1) (Grows-refl r.used),
  )

  module _ (name : Text) (tag_of : Text → Text) where
    refer-Keeps : (value : Text) (r : References) → Keeps r (refer context name tag_of value r)
    unfolding refer
    refer-Keeps value r =
        refer_when (has_local_rule_set context (tag_of value)) (tag_of value) r _ (λ h. h)
          (refl, refl)

    pub refer_all-Keeps :
        (values : List Text) (r : References) → Keeps r (refer_all context name tag_of values r)
    unfolding refer_all
    refer_all-Keeps [] r = ((λ k. k), Grows-refl r.used)
    refer_all-Keeps (value ∷ values) r =
        let s = refer context name tag_of value r in
        let (f, g) = refer-Keeps value r in
        let (h, k) = refer_all-Keeps values s in
        (
          (λ x. h (f x)),
          Grows-trans r.used s.used (refer_all context name tag_of values s).used g k,
        )
