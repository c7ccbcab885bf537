-- ===== src/Packages/Newest.antt =====
-- The order of versions in src/vsl_resolver.cpp, and the version that a merge keeps.
use visuall.Base.{
  refl, sym, ap, ◌∙◌, Bool, ℕ, Bytes, if◌then◌else◌, not, some, Option, ◌≡◌, ◌==◌, ◌⊎◌, true, false,
  arith, inl, inr, none,
}
use visuall.Packages.Versions.{
  merge_version, merge_parsed, semver_greater, Semver, major_conflict, parse_semver, kept,
}

-- Greater is a strict order.
pub semver_greater_asym : (a b : Semver) → semver_greater a b ≡ true → semver_greater b a ≡ false
unfolding semver_greater
semver_greater_asym a b h = ground arith

-- A version that is greater than one that is greater than a third is greater than the third.
pub semver_greater_trans :
    (a b c : Semver)
    → semver_greater a b ≡ true
    → semver_greater b c ≡ true
    → semver_greater a c ≡ true
unfolding semver_greater
semver_greater_trans a b c h k = ground arith

pub semver_greater_irrefl : (a : Semver) → semver_greater a a ≡ false
unfolding semver_greater
semver_greater_irrefl a = ground arith

-- `w` is one of the two versions, of the same major version as both, and neither is greater.
pub record Newest (old ver w : Bytes) : Type 0 where
  pub existing : Semver
  pub incoming : Semver
  pub chosen : Semver
  pub old_is : parse_semver old ≡ some existing
  pub ver_is : parse_semver ver ≡ some incoming
  pub chosen_is : parse_semver w ≡ some chosen
  pub one_of : (w ≡ old) ⊎ (w ≡ ver)
  pub old_major : existing.major ≡ chosen.major
  pub ver_major : incoming.major ≡ chosen.major
  pub not_below_old : semver_greater existing chosen ≡ false
  pub not_below_ver : semver_greater incoming chosen ≡ false

-- Which of the branches keeps a version.
kept_inv :
    (conflict greater : Bool) (old ver : Bytes) {w : Bytes}
    → (if conflict then major_conflict old ver else if greater then kept ver else kept old) ≡ kept w
    → (conflict ≡ false) × (((greater ≡ true) × (w ≡ ver)) ⊎ ((greater ≡ false) × (w ≡ old)))
kept_inv true greater old ver h = cc
kept_inv false true old ver h = (refl, inl (refl, cc))
kept_inv false false old ver h = (refl, inr (refl, cc))

same_major : (a b : ℕ) → not (a == b) ≡ false → a ≡ b
same_major a b h = ground arith

merge_parsed-Newest :
    (old ver : Bytes) (a b : Option Semver) {w : Bytes}
    → parse_semver old ≡ a
    → parse_semver ver ≡ b
    → merge_parsed old ver a b ≡ kept w
    → Newest old ver w
unfolding merge_parsed
merge_parsed-Newest old ver none b ea eb h = cc
merge_parsed-Newest old ver (some a) none ea eb h = cc
merge_parsed-Newest old ver (some a) (some b) ea eb h =
    let (m, branch) = kept_inv (not (a.major == b.major)) (semver_greater b a) old ver h in
    let e = same_major a.major b.major m in
    elim branch [
      | inl (g, w_is) ↦ record {
        existing = a;
        incoming = b;
        chosen = b;
        old_is = ea;
        ver_is = eb;
        chosen_is = ap parse_semver w_is ∙ eb;
        one_of = inr w_is;
        old_major = e;
        ver_major = refl;
        not_below_old = semver_greater_asym b a g;
        not_below_ver = semver_greater_irrefl b;
      }
      | inr (g, w_is) ↦ record {
        existing = a;
        incoming = b;
        chosen = a;
        old_is = ea;
        ver_is = eb;
        chosen_is = ap parse_semver w_is ∙ ea;
        one_of = inl w_is;
        old_major = refl;
        ver_major = sym e;
        not_below_old = semver_greater_irrefl a;
        not_below_ver = g;
      }
    ]

-- Where a requirement is merged into a resolved version and one is kept, both are well-formed
-- versions, the one kept is one of them with the major version of both, and neither is greater.
pub merge_version-Newest :
    (old ver : Bytes) {w : Bytes} → merge_version (some old) ver ≡ kept w → Newest old ver w
unfolding merge_version
merge_version-Newest old ver h =
    merge_parsed-Newest old ver (parse_semver old) (parse_semver ver) refl refl h
