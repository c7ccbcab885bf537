-- ===== src/Packages/Resolver/Weight.antt =====
-- The items that src/vsl_resolver.cpp has not seen, and what they can queue.
use visuall.Base.{
  ℕ, true, false, List, [], ◌∷◌, Option, none, some, if◌then◌else◌, Bytes, ◌≡◌, inl, inr, refl, ap,
  subst, arith, Bool-cases, ◌≤◌, ◌+◌, length,
}
use mathlib.Core.List.{Memᴰ}
use mathlib.Core.List.Memᴰ
use visuall.Lexer.Token.{bytes_eq}
use visuall.Packages.Resolver.{VslManifest, WorkItem, contains, key_of}
use visuall.Packages.Resolver.Required.{bytes_eq_refl}
use visuall.Packages.Resolver.{Resolution}
use visuall.Packages.Resolver.Queue.{git_count}

pub contains_more :
    (k : Bytes) (ks : List Bytes) (b : Bytes) → contains ks b ≡ true → contains (k ∷ ks) b ≡ true
unfolding contains
contains_more k ks b h = elim (Bool-cases (bytes_eq k b)) [ inl e ↦ rw e refl | inr e ↦ rw e h ]

pub contains-head : (k : Bytes) (ks : List Bytes) → contains (k ∷ ks) k ≡ true
unfolding contains
contains-head k ks = let e = bytes_eq_refl k in rw e refl

pub contains_other :
    (k : Bytes) (ks : List Bytes) (b : Bytes)
    → bytes_eq k b ≡ false
    → contains (k ∷ ks) b ≡ true
    → contains ks b ≡ true
unfolding contains
contains_other k ks b e h = rw (e, contains) at h

pub same_manifest :
    (fetcher : Bytes → Bytes → Option VslManifest) (i j : WorkItem) (m m' : VslManifest)
    → i ≡ j
    → fetcher i.url i.version ≡ some m
    → fetcher j.url j.version ≡ some m'
    → m' ≡ m
same_manifest fetcher i j m m' e g h =
    let k = ap (λ (x : WorkItem). fetcher x.url x.version) e in cc

module _ (fetcher : Bytes → Bytes → Option VslManifest) where
  abbrev pub gits : Option VslManifest → ℕ
  gits none = 0
  gits (some m) = git_count m.dependencies

  -- How many items the unseen items of a list can still queue.
  unfoldable pub weight : List Bytes → List WorkItem → ℕ
  weight seen [] = 0
  weight seen (i ∷ is) =
      (if contains seen (key_of i) then 0 else gits (fetcher i.url i.version)) + weight seen is

  weight_le :
      (k : Bytes) (seen : List Bytes) (is : List WorkItem) → weight (k ∷ seen) is ≤ weight seen is
  unfolding weight
  weight_le k seen [] = omega arith
  weight_le k seen (i ∷ is) =
      let r = weight_le k seen is in
      elim (Bool-cases (contains seen (key_of i))) [
        | inl e ↦ let e' = contains_more k seen (key_of i) e in ground (arith, e, e', r)
        | inr e ↦ ground (arith, e, r)
      ]

  pub weight-new :
      (i : WorkItem) (seen : List Bytes) (is : List WorkItem)
      → Memᴰ i is
      → contains seen (key_of i) ≡ false
      → weight (key_of i ∷ seen) is + gits (fetcher i.url i.version) ≤ weight seen is
  unfolding weight
  weight-new i seen [] m n = elim m [ ]
  weight-new i seen (x ∷ is) m n = elim (Memᴰ.cases_cons m) [
    | inl e ↦
        let r = weight_le (key_of i) seen is in
        let a : contains (key_of i ∷ seen) (key_of x) ≡ true =
          subst (λ y. contains (key_of i ∷ seen) (key_of y) ≡ true) e
            (contains-head (key_of i) seen) in
        let b : contains seen (key_of x) ≡ false =
          subst (λ y. contains seen (key_of y) ≡ false) e n in
        let c : gits (fetcher i.url i.version) ≡ gits (fetcher x.url x.version) =
          ap (λ y. gits (fetcher y.url y.version)) e in
        ground (arith, a, b, c, r)
    | inr j ↦
        let r = weight-new i seen is j n in
        elim (Bool-cases (contains seen (key_of x))) [
          | inl e ↦ let e' = contains_more (key_of i) seen (key_of x) e in ground (arith, e, e', r)
          | inr e ↦ ground (arith, e, r)
        ]
  ]

  -- The rounds that are left.
  abbrev pub rounds_left : List WorkItem → Resolution → ℕ
  rounds_left universe r = length r.queue + weight r.seen universe
