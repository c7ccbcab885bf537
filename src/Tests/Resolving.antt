-- ===== src/Tests/Resolving.antt =====
-- Runs of src/vsl_resolver.cpp, and the theorems at concrete inputs.
use visuall.Base.{
  Bool, true, false, List, [], ◌∷◌, Option, some, ◌==◌, if◌then◌else◌, Bytes, ◌≡◌, ◌⊎◌, inl, inr,
  refl, ap, subst, codes, arith, Bool-cases,
}
use mathlib.Core.List.{Memᴰ}
use mathlib.Core.List.Memᴰ
use visuall.Lexer.Token.{bytes_eq}
use visuall.Packages.Versions.{parse_semver, semver_greater, merge_version}
use visuall.Packages.Resolver.{
  git_dep, NamedDependency, VslManifest, WorkItem, version_of, set_version, contains, key_of,
}
use visuall.Packages.Resolver.Required.{
  Cause, item, HasGit, first_is, later_is, Required, direct, transitive,
}
use visuall.Packages.Resolver.{
  Resolution, success, thrown, behind, merged_as, give_alias, alias_of, enqueue, fetch, visit,
  resolve_item, resolve_queue, resolve_deps, collect_roots, unresolved,
}
use visuall.Packages.Resolver.Queue.{Lands, IsPlain}
use visuall.Packages.Resolver.{insert_entry, sort_entries, build_lock, bytes_less}
use visuall.Packages.Resolver.Selects.{Selects, enough, resolve_deps-Selects}
use visuall.Packages.Resolver.Aliases.{enqueue-conflict}
use visuall.Packages.Resolver.{alias_conflict, or_empty}
use visuall.Lexer.Cursor.{first}

abbrev named : Bytes → Bytes → Bytes → NamedDependency
named alias url version = record { alias = alias; dependency = git_dep url version }

abbrev manifest : Bytes → List NamedDependency → VslManifest
manifest name ds = record { name = name; dependencies = ds }

-- The root needs `u` and `w`, and `w` needs a newer `u`.
abbrev root : VslManifest
root = manifest (codes "root") (
    named (codes "a") (codes "u") (codes "1.0.0")
    ∷ named (codes "b") (codes "w") (codes "1.0.0")
    ∷ [])

abbrev fetch_from : Bytes → Bytes → Option VslManifest
fetch_from url version =
    if bytes_eq url (codes "w")
    then some (manifest (codes "w") (named (codes "c") (codes "u") (codes "1.2.0") ∷ []))
    else some (manifest (codes "u") [])

abbrev packages : List WorkItem
packages =
    item (codes "u") (codes "1.0.0")
    ∷ item (codes "w") (codes "1.0.0")
    ∷ item (codes "u") (codes "1.2.0")
    ∷ []

resolved-newer :
    resolve_deps fetch_from 10 root
    ≡ success (
        record { alias = codes "a"; url = codes "u"; version = codes "1.2.0" }
        ∷ record { alias = codes "b"; url = codes "w"; version = codes "1.0.0" }
        ∷ [])
unfolding resolve_deps behind resolve_queue collect_roots resolve_item merged_as merge_version
    version_of visit contains fetch bytes_eq enqueue set_version key_of give_alias alias_of
    build_lock first bytes_less insert_entry or_empty sort_entries parse_semver semver_greater
resolved-newer = refl

HasGit-one :
    {a u v : Bytes} {j : WorkItem} {ds : List NamedDependency}
    → HasGit j (named a u v ∷ ds)
    → (j ≡ item u v) ⊎ HasGit j ds
HasGit-one first_is = inl refl
HasGit-one (later_is h) = inr h

some_inj : {a b : VslManifest} → some a ≡ some b → b ≡ a
some_inj h = cc

covered : (i : WorkItem) → Required fetch_from root i → Memᴰ i packages
unfolding bytes_eq
covered i (direct h) = elim (HasGit-one h) [
  | inl e ↦ Memᴰ.head e
  | inr h' ↦ elim (HasGit-one h') [ inl e ↦ Memᴰ.tail (Memᴰ.head e) | inr h'' ↦ elim h'' [ ] ]
]
covered j (transitive {i} {m = m} q f h) = elim (Bool-cases (bytes_eq i.url (codes "w"))) [
  | inl e ↦
      let k : m ≡ manifest (codes "w") (named (codes "c") (codes "u") (codes "1.2.0") ∷ []) =
        some_inj (rw e at f) in
      elim (HasGit-one (subst (λ (x : VslManifest). HasGit j x.dependencies) k h)) [
        | inl e' ↦ Memᴰ.tail (Memᴰ.tail (Memᴰ.head e'))
        | inr h' ↦ elim h' [ ]
      ]
  | inr e ↦
      let k : m ≡ manifest (codes "u") [] = some_inj (rw e at f) in
      elim (subst (λ (x : VslManifest). HasGit j x.dependencies) k h) [ ]
]

has_separator : Bytes → Bool
has_separator [] = false
has_separator (c ∷ cs) = if c == b'@' then true else has_separator cs

plain_version : (v : Bytes) → has_separator v ≡ false → IsPlain v
unfolding has_separator
plain_version [] h i = elim i [ ]
plain_version (c ∷ cs) h i = elim (Memᴰ.cases_cons i) [
  | inl e ↦ ground (arith, h, e)
  | inr j ↦ plain_version cs (ground (arith, h)) j
]

plain_package : (i : WorkItem) → Memᴰ i packages → has_separator i.version ≡ false
unfolding has_separator
plain_package i m = elim (Memᴰ.cases_cons m) [
  | inl e ↦ ap (λ (x : WorkItem). has_separator x.version) e
  | inr n ↦ elim (Memᴰ.cases_cons n) [
    | inl e ↦ ap (λ (x : WorkItem). has_separator x.version) e
    | inr o ↦ elim (Memᴰ.cases_cons o) [
      | inl e ↦ ap (λ (x : WorkItem). has_separator x.version) e
      | inr p ↦ elim p [ ]
    ]
  ]
]

resolve_deps-Selects_example : Lands (Cause fetch_from root) (Selects fetch_from root) (
    resolve_deps fetch_from
      (enough fetch_from root
        (λ i q. plain_version i.version (plain_package i (covered i q)))
        packages
        covered)
      root)
resolve_deps-Selects_example =
    resolve_deps-Selects fetch_from root
      (λ i q. plain_version i.version (plain_package i (covered i q))) packages covered

-- The package `w` has the alias of its own name in the root, and needs a URL that the root lacks.
abbrev own_name : Resolution
own_name = record unresolved { root_aliases = codes "w" ∷ [] }

enqueue-conflict_example :
    enqueue (codes "w") (named (codes "c") (codes "v") (codes "1.2.0") ∷ []) own_name
    ≡ thrown (alias_conflict (codes "w"))
unfolding contains bytes_eq alias_of
enqueue-conflict_example =
    enqueue-conflict (codes "w") (item (codes "v") (codes "1.2.0"))
      (named (codes "c") (codes "v") (codes "1.2.0") ∷ []) own_name refl first_is refl
