-- ===== src/Packages/Resolver.antt =====
-- resolveDeps of src/vsl_resolver.cpp. The fetcher is a parameter. A map is a list of its entries; the
-- order of the dependencies of a manifest is that of its list. The texts of the errors are left out,
-- and with them `requiredBy`.
pub mod Required
pub mod Queue
pub mod Closed
pub mod Weight
pub mod Loop
pub mod Selects
pub mod Aliases
use visuall.Base.{
  ℕ, zero, suc, Bool, true, false, List, [], ◌∷◌, ◌++◌, Option, none, some, ltb, if◌then◌else◌,
  Bytes, map,
}
use visuall.Lexer.Token.{bytes_eq}
use visuall.Packages.Versions.{Merged, merge_version, kept, invalid_semver, major_conflict}

-- `Dependency`, a variant.
pub data Dependency : Type 0 where
  git_dep : Bytes → Bytes → Dependency
  path_dep : Bytes → Dependency

-- An entry of `dependencies`.
pub record NamedDependency : Type 0 where
  pub alias : Bytes
  pub dependency : Dependency

pub record VslManifest : Type 0 where
  pub name : Bytes
  pub dependencies : List NamedDependency

-- A URL with a version: a work item, or an entry of `resolvedVersion`.
pub record WorkItem : Type 0 where
  pub url : Bytes
  pub version : Bytes

pub record UrlAlias : Type 0 where
  pub url : Bytes
  pub alias : Bytes

pub record LockEntry : Type 0 where
  pub alias : Bytes
  pub url : Bytes
  pub version : Bytes

pub data PackageError : Type 0 where
  invalid_version : Bytes → PackageError
  incompatible_major : Bytes → Bytes → Bytes → PackageError
  fetch_failed : Bytes → Bytes → PackageError
  alias_conflict : Bytes → PackageError

-- The variables of resolveDeps. `seen` has the keys of `seenUrlVersion`.
pub record Resolution : Type 0 where
  pub resolved : List WorkItem
  pub aliases : List UrlAlias
  pub root_aliases : List Bytes
  pub queue : List WorkItem
  pub seen : List Bytes

-- How a part of resolveDeps ends. `out_of_fuel` has no counterpart in the program.
pub data Attempt {ℓ} (A : Type ℓ) : Type ℓ where
  success : A → Attempt A
  thrown : PackageError → Attempt A
  out_of_fuel : Attempt A

unfoldable pub behind {ℓ κ} : {A : Type ℓ} {B : Type κ} → Attempt A → (A → Attempt B) → Attempt B
behind (success a) k = k a
behind (thrown e) k = thrown e
behind out_of_fuel k = out_of_fuel

unfoldable pub version_of : List WorkItem → Bytes → Option Bytes
version_of [] url = none
version_of (e ∷ es) url = if bytes_eq e.url url then some e.version else version_of es url

-- `resolvedVersion[url] = version;`.
unfoldable pub set_version : Bytes → Bytes → List WorkItem → List WorkItem
set_version url version [] = record { url = url; version = version } ∷ []
set_version url version (e ∷ es) =
    if bytes_eq e.url url
    then record { url = url; version = version } ∷ es
    else e ∷ set_version url version es

unfoldable pub alias_of : List UrlAlias → Bytes → Option Bytes
alias_of [] url = none
alias_of (a ∷ xs) url = if bytes_eq a.url url then some a.alias else alias_of xs url

-- `urlToAlias[url] = alias;`: the newest entry of a URL is the first.
abbrev pub set_alias : Bytes → Bytes → List UrlAlias → List UrlAlias
set_alias url alias xs = record { url = url; alias = alias } ∷ xs

unfoldable pub contains : List Bytes → Bytes → Bool
contains [] b = false
contains (a ∷ xs) b = if bytes_eq a b then true else contains xs b

-- `url + "@" + ver`.
unfoldable pub key_of : WorkItem → Bytes
key_of i = i.url ++ (b'@' ∷ i.version)

-- The dependencies of the root.
unfoldable pub collect_roots : List NamedDependency → Resolution → Resolution
collect_roots [] r = r
collect_roots (d ∷ ds) r = elim d.dependency [
  | path_dep p ↦ collect_roots ds r
  | git_dep url version ↦ collect_roots ds (record r {
    aliases = set_alias url d.alias r.aliases;
    root_aliases = d.alias ∷ r.root_aliases;
    queue = r.queue ++ (record { url = url; version = version } ∷ []);
  })
]

abbrev pub unresolved : Resolution
unresolved = record { resolved = []; aliases = []; root_aliases = []; queue = []; seen = [] }

-- The error of a merge, or the version that is kept.
unfoldable pub merged_as : Bytes → Merged → Attempt Bytes
merged_as url (kept v) = success v
merged_as url (invalid_semver v) = thrown (invalid_version v)
merged_as url (major_conflict old ver) = thrown (incompatible_major url old ver)

-- Gives the URL of a transitive dependency its alias.
unfoldable pub give_alias : Bytes → Bytes → Bytes → Resolution → Attempt Resolution
give_alias name url alias r = elim (alias_of r.aliases url) [
  | some a ↦ success r
  | none ↦
      if contains r.root_aliases name
      then thrown (alias_conflict name)
      else success (record r { aliases = set_alias url alias r.aliases })
]

abbrev pub push_item : WorkItem → Resolution → Resolution
push_item i r = record r { queue = r.queue ++ (i ∷ []) }

-- The dependencies of a package, with the name that its manifest declares.
unfoldable pub enqueue : Bytes → List NamedDependency → Resolution → Attempt Resolution
enqueue name [] r = success r
enqueue name (d ∷ ds) r = elim d.dependency [
  | path_dep p ↦ enqueue name ds r
  | git_dep url version ↦
      behind (give_alias name url d.alias r)
        (λ r'. enqueue name ds (push_item (record { url = url; version = version }) r'))
]

unfoldable pub insert_entry : (Bytes → Bytes → Bool) → LockEntry → List LockEntry → List LockEntry
insert_entry less e [] = e ∷ []
insert_entry less e (x ∷ xs) =
    if less e.alias x.alias then e ∷ x ∷ xs else x ∷ insert_entry less e xs

-- `std::sort` by the alias; the order of entries with one alias is one of those it may choose.
unfoldable pub sort_entries : (Bytes → Bytes → Bool) → List LockEntry → List LockEntry
sort_entries less [] = []
sort_entries less (e ∷ es) = insert_entry less e (sort_entries less es)

-- `std::string::operator<`.
unfoldable pub bytes_less : Bytes → Bytes → Bool
bytes_less [] [] = false
bytes_less [] (d ∷ ds) = true
bytes_less (c ∷ cs) [] = false
bytes_less (c ∷ cs) (d ∷ ds) =
    let rest = bytes_less cs ds in if ltb c d then true else if ltb d c then false else rest

unfoldable pub or_empty : Option Bytes → Bytes
or_empty none = []
or_empty (some a) = a

abbrev pub lock_entry : List UrlAlias → WorkItem → LockEntry
lock_entry aliases i = record {
  alias = or_empty (alias_of aliases i.url);
  url = i.url;
  version = i.version;
}

unfoldable pub build_lock : Resolution → List LockEntry
build_lock r = sort_entries bytes_less (map (lock_entry r.aliases) r.resolved)

module _ (fetcher : Bytes → Bytes → Option VslManifest) where
  -- Fetches a manifest, and queues what it needs.
  unfoldable pub fetch : WorkItem → Resolution → Attempt Resolution
  fetch i r = elim (fetcher i.url i.version) [
    | none ↦ thrown (fetch_failed i.url i.version)
    | some m ↦ enqueue m.name m.dependencies r
  ]

  -- What follows the merge.
  unfoldable pub visit : WorkItem → Resolution → Attempt Resolution
  visit i r =
      if contains r.seen (key_of i)
      then success r
      else fetch i (record r { seen = key_of i ∷ r.seen })

  -- An item that was taken from the queue.
  unfoldable pub resolve_item : WorkItem → Resolution → Attempt Resolution
  resolve_item i r =
      behind (merged_as i.url (merge_version (version_of r.resolved i.url) i.version))
        (λ v. visit i (record r { resolved = set_version i.url v r.resolved }))

  unfoldable pub resolve_queue : ℕ → Resolution → Attempt Resolution
  resolve_queue zero r = out_of_fuel
  resolve_queue (suc f) r = elim r.queue [
    | [] ↦ success r
    | i ∷ rest ↦ behind (resolve_item i (record r { queue = rest })) (resolve_queue f)
  ]

  unfoldable pub resolve_deps : ℕ → VslManifest → Attempt (List LockEntry)
  resolve_deps fuel root =
      behind (resolve_queue fuel (collect_roots root.dependencies unresolved))
        (λ r. success (build_lock r))
