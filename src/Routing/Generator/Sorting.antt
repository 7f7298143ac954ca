-- ===== src/Routing/Generator/Sorting.antt =====
-- XrayRoutingGenerator.cpp: the order of the generated rules.
use zarya.Prelude.{
  ℕ, ◌≤◌, ◌<◌, ◌≡◌, refl, sym, ap, ◌∙◌, ◌⊎◌, inl, inr, Bool, List, [], ◌∷◌, ◌++◌, select, All,
  subst, All-append, ◌==◌, arith,
}
use zarya.Json.{Json}
use zarya.Routing.Mode.{RoutingAction, proxy, direct, block}
use zarya.Routing.Profiles.{RoutingRule}
use zarya.Routing.Generator.{action_sort_order, insert_rule, stable_sort}

abbrev order : RoutingRule → ℕ
order r = action_sort_order r.action

abbrev pub has_action : RoutingAction → RoutingRule → Bool
has_action a r = action_sort_order r.action == action_sort_order a

-- The rules with one action, in the order of the profile.
abbrev pub rules_with : RoutingAction → List RoutingRule → List RoutingRule
rules_with a rules = select (has_action a) rules

rules_with-order :
    (a : RoutingAction) (rules : List RoutingRule)
    → All (λ r. order r ≡ action_sort_order a) (rules_with a rules)
unfolding select
rules_with-order a [] = tt
rules_with-order a (r ∷ rules) = ground (arith, rules_with-order a rules)

insert_rule_here :
    (r : RoutingRule) (rules : List RoutingRule)
    → All (λ s. order r ≤ order s) rules
    → insert_rule r rules ≡ r ∷ rules
unfolding insert_rule
insert_rule_here r [] h = refl
insert_rule_here r (s ∷ rules) h = ground arith

insert_rule_past :
    (r : RoutingRule) (before after : List RoutingRule)
    → All (λ s. order s < order r) before
    → insert_rule r (before ++ after) ≡ before ++ insert_rule r after
unfolding insert_rule
insert_rule_past r [] after h = refl
insert_rule_past r (s ∷ before) after h = ground (arith, insert_rule_past r before after h.1)

module _ {P : RoutingRule → Type 0} {Q : RoutingRule → Type 0} where
  All-weaken :
      (rules : List RoutingRule) → ((r : RoutingRule) → P r → Q r) → All P rules → All Q rules
  All-weaken [] f h = tt
  All-weaken (r ∷ rules) f (p, h) = (f r p, All-weaken rules f h)

-- The rules of the three actions one after the other.
abbrev pub by_action : List RoutingRule → List RoutingRule
by_action rules = rules_with block rules ++ (rules_with direct rules ++ rules_with proxy rules)

by_action-cons :
    (r : RoutingRule) (rules : List RoutingRule)
    → ((order r ≡ 0) × (by_action (r ∷ rules) ≡ r ∷ by_action rules))
      ⊎ ((order r ≡ 1)
          × (by_action (r ∷ rules)
              ≡ rules_with block rules ++ r ∷ (rules_with direct rules ++ rules_with proxy rules)))
      ⊎ ((order r ≡ 2)
          × (by_action (r ∷ rules)
              ≡ rules_with block rules ++ (rules_with direct rules ++ r ∷ rules_with proxy rules)))
unfolding select action_sort_order
by_action-cons r rules = by_case r.action refl
  where
    by_case :
        (a : RoutingAction)
        → r.action ≡ a
        → ((order r ≡ 0) × (by_action (r ∷ rules) ≡ r ∷ by_action rules))
          ⊎ ((order r ≡ 1)
              × (by_action (r ∷ rules)
                  ≡ rules_with block rules
                    ++ r ∷ (rules_with direct rules ++ rules_with proxy rules)))
          ⊎ ((order r ≡ 2)
              × (by_action (r ∷ rules)
                  ≡ rules_with block rules
                    ++ (rules_with direct rules ++ r ∷ rules_with proxy rules)))
    by_case block e = inl (ground arith, ground arith)
    by_case direct e = inr (inl (ground arith, ground arith))
    by_case proxy e = inr (inr (ground arith, ground arith))

module _ (r : RoutingRule) (rules : List RoutingRule) where
  with_order :
      (a : RoutingAction) (P : ℕ → Type 0)
      → P (action_sort_order a)
      → All (λ s. P (order s)) (rules_with a rules)
  with_order a P p =
      All-weaken (rules_with a rules) (λ s e. subst P (sym e) p) (rules_with-order a rules)

  insert_rule-by_action : insert_rule r (by_action rules) ≡ by_action (r ∷ rules)
  unfolding action_sort_order
  insert_rule-by_action = elim (by_action-cons r rules) [
    | inl (o, e) ↦
        insert_rule_here r (by_action rules) (
          All-append _ _ _ (with_order block (λ n. order r ≤ n) (omega arith)) (
            All-append _ _ _ (with_order direct (λ n. order r ≤ n) (omega arith))
              (with_order proxy (λ n. order r ≤ n) (omega arith))))
        ∙ sym e
    | inr (inl (o, e)) ↦
        insert_rule_past r _ _ (with_order block (λ n. n < order r) (omega arith))
        ∙ ap (λ l. rules_with block rules ++ l)
            (insert_rule_here r _ (
              All-append _ _ _ (with_order direct (λ n. order r ≤ n) (omega arith))
                (with_order proxy (λ n. order r ≤ n) (omega arith))))
        ∙ sym e
    | inr (inr (o, e)) ↦
        insert_rule_past r _ _ (with_order block (λ n. n < order r) (omega arith))
        ∙ ap (λ l. rules_with block rules ++ l)
            (insert_rule_past r _ _ (with_order direct (λ n. n < order r) (omega arith))
              ∙ ap (λ l. rules_with direct rules ++ l)
                  (insert_rule_here r _ (with_order proxy (λ n. order r ≤ n) (omega arith))))
        ∙ sym e
  ]

-- Sorting the rules puts those that block first, those that go direct second and those that go
-- through the proxy last, each kind in the order of the profile, and loses or adds none.
pub stable_sort-by_action : (rules : List RoutingRule) → stable_sort rules ≡ by_action rules
unfolding stable_sort select
stable_sort-by_action [] = refl
stable_sort-by_action (r ∷ rules) =
    ap (insert_rule r) (stable_sort-by_action rules) ∙ insert_rule-by_action r rules
