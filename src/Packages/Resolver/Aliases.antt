-- ===== src/Packages/Resolver/Aliases.antt =====
-- The names that resolveDeps in src/vsl_resolver.cpp gives to transitive dependencies.
use visuall.Base.{true, List, ◌∷◌, none, Bytes, ◌≡◌, ◌≢◌, ◌⊎◌, inl, inr, refl, Option-cases}
use visuall.Packages.Resolver.{Dependency, git_dep, path_dep, NamedDependency, WorkItem, contains}
use visuall.Packages.Resolver.Required.{item, HasGit, first_is, later_is}
use visuall.Packages.Resolver.{
  Resolution, success, thrown, behind, give_alias, alias_of, enqueue, push_item,
}
use visuall.Packages.Resolver.{alias_conflict}

give_alias-taken :
    (name url alias : Bytes) (r : Resolution)
    → contains r.root_aliases name ≡ true
    → (give_alias name url alias r ≡ thrown (alias_conflict name))
      ⊎ ((give_alias name url alias r ≡ success r) × (alias_of r.aliases url ≢ none))
unfolding give_alias
give_alias-taken name url alias r h = elim (Option-cases (alias_of r.aliases url)) [
  | inl e ↦ inl (rw (e, give_alias, h) refl)
  | inr (a, e) ↦ inr (rw (e, give_alias) refl, λ n. cc)
]

conflict-step :
    (name a : Bytes) (d : Dependency) (ds : List NamedDependency) (r : Resolution)
    → contains r.root_aliases name ≡ true
    → ((i : WorkItem) → enqueue name ds (push_item i r) ≡ thrown (alias_conflict name))
    → enqueue name ds r ≡ thrown (alias_conflict name)
    → enqueue name (record { alias = a; dependency = d } ∷ ds) r ≡ thrown (alias_conflict name)
unfolding enqueue behind
conflict-step name a (path_dep p) ds r h again e = e
conflict-step name a (git_dep u v) ds r h again e = elim (give_alias-taken name u a r h) [
  | inl k ↦ rw k refl
  | inr (k, n) ↦ rw k (again (item u v))
]

conflict-first :
    (name a u v : Bytes) (ds : List NamedDependency) (r : Resolution)
    → contains r.root_aliases name ≡ true
    → alias_of r.aliases u ≡ none
    → enqueue name (record { alias = a; dependency = git_dep u v } ∷ ds) r
      ≡ thrown (alias_conflict name)
unfolding enqueue behind
conflict-first name a u v ds r h n = elim (give_alias-taken name u a r h) [
  | inl k ↦ rw k refl
  | inr (k, m) ↦ elim (m n) [ ]
]

-- Where the declared name of a package is an alias of the root, its own one too, and the package has
-- a git dependency with a URL that has no alias, its dependencies are refused as a conflict of aliases.
pub enqueue-conflict :
    (name : Bytes) (j : WorkItem) (ds : List NamedDependency) (r : Resolution)
    → contains r.root_aliases name ≡ true
    → HasGit j ds
    → alias_of r.aliases j.url ≡ none
    → enqueue name ds r ≡ thrown (alias_conflict name)
enqueue-conflict name j ds r h (first_is {alias = a} {ds = es}) n =
    conflict-first name a j.url j.version es r h n
enqueue-conflict name j ds r h (later_is {d = d} {ds = es} g) n =
    conflict-step name d.alias d.dependency es r h
      (λ i. enqueue-conflict name j es (push_item i r) h g n) (enqueue-conflict name j es r h g n)
