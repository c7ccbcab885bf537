-- ===== src/Packages/Resolver/Required.antt =====
-- What the dependencies of src/vsl_resolver.cpp require, and the versions that are resolved so far.
use visuall.Base.{
  true, false, List, [], ◌∷◌, Option, none, some, Bytes, ◌≡◌, ◌⊎◌, inl, inr, refl, sym, ap, subst,
  ◌∙◌, arith, Bool-cases,
}
use visuall.Lexer.Token.{bytes_eq}
use visuall.Lexer.KeywordNames.{bytes_eq_sound}
use visuall.Packages.Versions.{
  invalid_semver, major_conflict, Semver, parse_semver, semver_greater, merge_version, kept,
}
use visuall.Packages.Newest.{merge_version-Newest}
use visuall.Packages.Resolver.{
  collect_roots, unresolved, contains, PackageError, invalid_version, incompatible_major,
  fetch_failed, alias_conflict, git_dep, NamedDependency, VslManifest, WorkItem, version_of,
  set_version,
}

pub bytes_eq_refl : (xs : Bytes) → bytes_eq xs xs ≡ true
unfolding bytes_eq
bytes_eq_refl [] = refl
bytes_eq_refl (x ∷ xs) = ground (arith, bytes_eq_refl xs)

abbrev pub item : Bytes → Bytes → WorkItem
item url version = record { url = url; version = version }

-- Whether a list of dependencies has a git dependency.
pub data HasGit (i : WorkItem) : List NamedDependency → Type 0 where
  first_is :
      {alias : Bytes} {ds : List NamedDependency}
      → HasGit i (record { alias = alias; dependency = git_dep i.url i.version } ∷ ds)
  later_is : {d : NamedDependency} {ds : List NamedDependency} → HasGit i ds → HasGit i (d ∷ ds)

-- What the root needs, and what the manifests of that need.
pub data Required (fetcher : Bytes → Bytes → Option VslManifest) (root : VslManifest)
    : WorkItem → Type 0 where
  direct : {i : WorkItem} → HasGit i root.dependencies → Required fetcher root i
  transitive :
      {i j : WorkItem} {m : VslManifest}
      → Required fetcher root i
      → fetcher i.url i.version ≡ some m
      → HasGit j m.dependencies
      → Required fetcher root j

-- The aliases that the root declares.
abbrev pub root_names : VslManifest → List Bytes
root_names root = (collect_roots root.dependencies unresolved).root_aliases

-- Why resolution fails: two required versions of a URL that do not merge, a required manifest that is
-- not fetched, or a required package whose name is an alias of the root.
pub data Cause (fetcher : Bytes → Bytes → Option VslManifest) (root : VslManifest)
    : PackageError → Type 0 where
  malformed :
      {i : WorkItem} {old b : Bytes}
      → Required fetcher root i
      → Required fetcher root (item i.url old)
      → merge_version (some old) i.version ≡ invalid_semver b
      → Cause fetcher root (invalid_version b)
  incompatible :
      {i : WorkItem} {old a b : Bytes}
      → Required fetcher root i
      → Required fetcher root (item i.url old)
      → merge_version (some old) i.version ≡ major_conflict a b
      → Cause fetcher root (incompatible_major i.url a b)
  unfetched :
      {i : WorkItem}
      → Required fetcher root i
      → fetcher i.url i.version ≡ none
      → Cause fetcher root (fetch_failed i.url i.version)
  misnamed :
      {i : WorkItem} {m : VslManifest}
      → Required fetcher root i
      → fetcher i.url i.version ≡ some m
      → contains (root_names root) m.name ≡ true
      → Cause fetcher root (alias_conflict m.name)

-- A version that will do for another: the same one, or one of the same major version that is no less.
pub record Serves (w v : Bytes) : Type 0 where
  pub chosen : Semver
  pub asked : Semver
  pub chosen_is : parse_semver w ≡ some chosen
  pub asked_is : parse_semver v ≡ some asked
  pub major : asked.major ≡ chosen.major
  pub not_below : semver_greater asked chosen ≡ false

abbrev pub WillDo : Bytes → Bytes → Type 0
WillDo w v = (w ≡ v) ⊎ Serves w v

not_greater_trans :
    (a b c : Semver)
    → semver_greater a b ≡ false
    → semver_greater b c ≡ false
    → semver_greater a c ≡ false
unfolding semver_greater
not_greater_trans a b c h k = ground (arith, h, k)

same_semver : {a b : Semver} {o : Option Semver} → o ≡ some a → o ≡ some b → a ≡ b
same_semver h k = cc

pub WillDo-trans : (w v u : Bytes) → WillDo w v → WillDo v u → WillDo w u
WillDo-trans w v u (inl e) h = subst (λ x. WillDo x u) (sym e) h
WillDo-trans w v u (inr s) (inl e) = subst (WillDo w) e (inr s)
WillDo-trans w v u (inr s) (inr t) =
    let e : s.asked ≡ t.chosen = same_semver s.asked_is t.chosen_is in
    inr (record {
      chosen = s.chosen;
      asked = t.asked;
      chosen_is = s.chosen_is;
      asked_is = t.asked_is;
      major = t.major ∙ sym (ap (λ (x : Semver). x.major) e) ∙ s.major;
      not_below =
          not_greater_trans t.asked s.asked s.chosen
            (subst (λ x. semver_greater t.asked x ≡ false) (sym e) t.not_below) s.not_below;
    })

-- The version that a merge keeps will do for both.
pub merge-WillDo :
    (o : Option Bytes) (ver w : Bytes)
    → merge_version o ver ≡ kept w
    → WillDo w ver × ((old : Bytes) → o ≡ some old → WillDo w old) × ((w ≡ ver) ⊎ (o ≡ some w))
unfolding merge_version
merge-WillDo none ver w h = (inl cc, (λ old e. cc), inl cc)
merge-WillDo (some old) ver w h =
    let n = merge_version-Newest old ver h in
    let keeps : Serves w old = record {
      chosen = n.chosen;
      asked = n.existing;
      chosen_is = n.chosen_is;
      asked_is = n.old_is;
      major = n.old_major;
      not_below = n.not_below_old;
    } in
    (
      inr (record {
        chosen = n.chosen;
        asked = n.incoming;
        chosen_is = n.chosen_is;
        asked_is = n.ver_is;
        major = n.ver_major;
        not_below = n.not_below_ver;
      }),
      (λ old' e. let q : old ≡ old' = cc in subst (WillDo w) q (inr keeps)),
      elim n.one_of [ inl e ↦ inr (ap (λ x. some x) (sym e)) | inr e ↦ inl e ],
    )

pub version_of-set_version :
    (url v : Bytes) (es : List WorkItem) → version_of (set_version url v es) url ≡ some v
unfolding version_of set_version
version_of-set_version url v [] = let r = bytes_eq_refl url in rw r refl
version_of-set_version url v (e ∷ es) = elim (Bool-cases (bytes_eq e.url url)) [
  | inl h ↦ let r = bytes_eq_refl url in rw (h, version_of, r) refl
  | inr h ↦ rw (h, version_of, set_version, h) (version_of-set_version url v es)
]

pub version_of-set_other :
    (url v : Bytes) (es : List WorkItem) (u : Bytes)
    → bytes_eq url u ≡ false
    → version_of (set_version url v es) u ≡ version_of es u
unfolding version_of set_version
version_of-set_other url v [] u n = rw n refl
version_of-set_other url v (e ∷ es) u n = elim (Bool-cases (bytes_eq e.url url)) [
  | inl h ↦
      let q = bytes_eq_sound e.url url h in
      let n' : bytes_eq e.url u ≡ false = subst (λ x. bytes_eq x u ≡ false) (sym q) n in
      rw (h, version_of, n, n') refl
  | inr h ↦ elim (Bool-cases (bytes_eq e.url u)) [
    | inl k ↦ rw (h, version_of, k) refl
    | inr k ↦ rw (h, version_of, k) (version_of-set_other url v es u n)
  ]
]
