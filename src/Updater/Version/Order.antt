-- ===== src/Updater/Version/Order.antt =====
-- The order that AppVersion.cpp puts on version texts.
use zarya.Prelude.{
  zero, suc, ◌≡◌, refl, ◌≢◌, Text, ℤ, pos, negsuc, true, false, arith, ltb_ℤ, eq_of_parts, ◌↔◌,
  Bool-cases, inl, inr, sym, ◌∙◌,
}
use zarya.Updater.Version.{
  AppVersionPrerelease, other, prerelease_rank, by_then, compare_parsed, parse, compare,
  is_less_than, is_greater_than,
}

-- The result of comparing the other way round.
abbrev pub opposite : ℤ → ℤ
opposite (negsuc n) = pos 1
opposite (pos zero) = pos 0
opposite (pos (suc n)) = negsuc 0

by_then-opposite :
    (l r rest back : ℤ) → back ≡ opposite rest → by_then r l back ≡ opposite (by_then l r rest)
unfolding by_then
by_then-opposite l r rest back h = ground arith

by_then_trans :
    (a b c r s t : ℤ)
    → (ltb_ℤ r (pos 0) ≡ true → ltb_ℤ s (pos 0) ≡ true → ltb_ℤ t (pos 0) ≡ true)
    → ltb_ℤ (by_then a b r) (pos 0) ≡ true
    → ltb_ℤ (by_then b c s) (pos 0) ≡ true
    → ltb_ℤ (by_then a c t) (pos 0) ≡ true
unfolding by_then
by_then_trans a b c r s t h = ground arith

-- Comparing two versions the other way round gives the opposite result.
pub compare-opposite : (left right : Text) → compare right left ≡ opposite (compare left right)
unfolding compare compare_parsed
compare-opposite left right =
    let l = parse left in
    let r = parse right in
    by_then-opposite l.major r.major _ _ (
      by_then-opposite l.minor r.minor _ _ (
        by_then-opposite l.patch r.patch _ _ (
          by_then-opposite (prerelease_rank l.prerelease) (prerelease_rank r.prerelease) (pos 0)
            (pos 0) refl)))

-- "Older than" on version texts is transitive.
pub is_less_than_trans :
    (a b c : Text) → is_less_than a b ≡ true → is_less_than b c ≡ true → is_less_than a c ≡ true
unfolding is_less_than compare compare_parsed
is_less_than_trans a b c =
    let x = parse a in
    let y = parse b in
    let z = parse c in
    by_then_trans x.major y.major z.major _ _ _ (
      by_then_trans x.minor y.minor z.minor _ _ _ (
        by_then_trans x.patch y.patch z.patch _ _ _ (
          by_then_trans (prerelease_rank x.prerelease) (prerelease_rank y.prerelease)
            (prerelease_rank z.prerelease) (pos 0) (pos 0) (pos 0) (λ h k. h))))

by_then-eq-zero : (l r rest : ℤ) → by_then l r rest ≡ pos 0 → (l ≡ r) × (rest ≡ pos 0)
unfolding by_then
by_then-eq-zero l r rest h = (ground (arith, eq_of_parts l r), ground arith)

prerelease_rank-injective :
    (p q : AppVersionPrerelease) → prerelease_rank p ≡ prerelease_rank q → p ≡ q
unfolding prerelease_rank
prerelease_rank-injective p q h = ground arith

by_then_self : (a rest : ℤ) → by_then a a rest ≡ rest
unfolding by_then
by_then_self a rest = ground arith

-- Two version texts compare as equal exactly when they parse to the same version.
pub compare-eq-zero_iff :
    (left right : Text) → (compare left right ≡ pos 0) ↔ (parse left ≡ parse right)
unfolding compare compare_parsed
compare-eq-zero_iff left right = (same, λ e. rw e (simp by_then_self))
  where
    same : compare_parsed (parse left) (parse right) ≡ pos 0 → parse left ≡ parse right
    same h =
        let (major, h₁) = by_then-eq-zero _ _ _ h in
        let (minor, h₂) = by_then-eq-zero _ _ _ h₁ in
        let (patch, h₃) = by_then-eq-zero _ _ _ h₂ in
        let (rank, _) = by_then-eq-zero _ _ _ h₃ in
        let pre = prerelease_rank-injective _ _ rank in
        λ i. record { major = major i; minor = minor i; patch = patch i; prerelease = pre i }

-- A suffix that is none of "", "beta", "dev" and "alpha", such as "rc1", ranks below every other
-- one of the same numbers: the version that carries it is older than the released version, the
-- beta and the development build.
pub compare_other_suffix :
    (left right : Text)
    → (parse left).major ≡ (parse right).major
    → (parse left).minor ≡ (parse right).minor
    → (parse left).patch ≡ (parse right).patch
    → (parse left).prerelease ≡ other
    → (parse right).prerelease ≢ other
    → compare left right ≡ negsuc 0
unfolding compare compare_parsed prerelease_rank by_then
compare_other_suffix left right h₁ h₂ h₃ h₄ h₅ =
    rw (h₁, h₂, h₃, h₄) (simp by_then_self (lowest (parse right).prerelease h₅))
  where
    lowest :
        (p : AppVersionPrerelease)
        → p ≢ other
        → by_then (prerelease_rank other) (prerelease_rank p) (pos 0) ≡ negsuc 0
    lowest p h = ground arith

pub is_greater_than-is_less_than : (a b : Text) → is_greater_than a b ≡ is_less_than b a
unfolding is_greater_than is_less_than
is_greater_than-is_less_than a b = rw (compare-opposite a b) (sign (compare a b))
  where
    sign : (r : ℤ) → ltb_ℤ (pos 0) r ≡ ltb_ℤ (opposite r) (pos 0)
    sign (negsuc n) = ground arith
    sign (pos zero) = refl
    sign (pos (suc n)) = ground arith

by_then-le_trans :
    (a b c r s t : ℤ)
    → (ltb_ℤ (pos 0) r ≡ false → ltb_ℤ (pos 0) s ≡ false → ltb_ℤ (pos 0) t ≡ false)
    → ltb_ℤ (pos 0) (by_then a b r) ≡ false
    → ltb_ℤ (pos 0) (by_then b c s) ≡ false
    → ltb_ℤ (pos 0) (by_then a c t) ≡ false
unfolding by_then
by_then-le_trans a b c r s t h = ground arith

-- "Not newer than" on version texts is transitive.
pub not_greater_trans :
    (a b c : Text)
    → is_greater_than a b ≡ false
    → is_greater_than b c ≡ false
    → is_greater_than a c ≡ false
unfolding is_greater_than compare compare_parsed
not_greater_trans a b c =
    let x = parse a in
    let y = parse b in
    let z = parse c in
    by_then-le_trans x.major y.major z.major _ _ _ (
      by_then-le_trans x.minor y.minor z.minor _ _ _ (
        by_then-le_trans x.patch y.patch z.patch _ _ _ (
          by_then-le_trans (prerelease_rank x.prerelease) (prerelease_rank y.prerelease)
            (prerelease_rank z.prerelease) (pos 0) (pos 0) (pos 0) (λ h k. h))))

-- No version text is newer than itself, and what is newer is not older.
pub is_greater_than_irrefl : (a : Text) → is_greater_than a a ≡ false
unfolding is_greater_than compare compare_parsed
is_greater_than_irrefl a = simp by_then_self

pub is_greater_than-asymm : (a b : Text) → is_greater_than a b ≡ true → is_greater_than b a ≡ false
is_greater_than-asymm a b h = elim (Bool-cases (is_greater_than b a)) [
  | inr e ↦ e
  | inl e ↦
      let lt =
        is_less_than_trans b a b (sym (is_greater_than-is_less_than a b) ∙ h)
          (sym (is_greater_than-is_less_than b a) ∙ e) in
      cc (is_greater_than-is_less_than b b, is_greater_than_irrefl b)
]
