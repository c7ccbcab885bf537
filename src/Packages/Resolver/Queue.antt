-- ===== src/Packages/Resolver/Queue.antt =====
-- The queue of resolveDeps in src/vsl_resolver.cpp, and the keys of its items.
use visuall.Base.{
  ℕ, suc, true, List, [], ◌∷◌, ◌++◌, Bytes, ◌≡◌, ◌⊎◌, inl, inr, refl, sym, ap, subst, ◌∙◌, arith,
  Bool-cases, Option-cases, ◌+◌, length,
}
use mathlib.Core.List.{Memᴰ}
use mathlib.Core.List.Memᴰ
use visuall.Lexer.Token.{bytes_eq}
use visuall.Lexer.KeywordNames.{bytes_eq_sound}
use visuall.Packages.Resolver.{
  alias_conflict, contains, Dependency, git_dep, path_dep, NamedDependency, WorkItem, contains,
  key_of,
}
use visuall.Packages.Resolver.Required.{item, HasGit, first_is, later_is}
use visuall.Packages.Resolver.{
  Resolution, PackageError, Attempt, success, thrown, behind, give_alias, alias_of, enqueue,
  set_alias, push_item, collect_roots,
}

-- A part of the resolution that ends: with a result that has a property, or an error with a cause.
pub data Lands {ℓ} {A : Type ℓ} (Why : PackageError → Type 0) (Goal : A → Type 0)
    : Attempt A → Type ℓ where
  lands : {a : A} → Goal a → Lands Why Goal (success a)
  throws : {e : PackageError} → Why e → Lands Why Goal (thrown e)

pub behind-Lands :
    {A B : Type 0} {Why : PackageError → Type 0} {P : A → Type 0} {Q : B → Type 0} {e : Attempt A}
    (k : A → Attempt B)
    → Lands Why P e
    → ((a : A) → P a → Lands Why Q (k a))
    → Lands Why Q (behind e k)
unfolding behind
behind-Lands k (lands {a} h) f = f a h
behind-Lands k (throws c) f = throws c

-- A version without the separator of a key.
abbrev pub IsPlain : Bytes → Type 0
IsPlain v = Memᴰ b'@' v → ⊥

separator_within : (u v v' : Bytes) → v ≡ u ++ (b'@' ∷ v') → IsPlain v → ⊥
separator_within u v v' e p = p (subst (Memᴰ b'@') (sym e) (Memᴰ.append_right u (Memᴰ.head refl)))

heads : {x y : ℕ} {xs ys : Bytes} → x ∷ xs ≡ y ∷ ys → (x ≡ y) × (xs ≡ ys)
heads h = (cc, cc)

parts_of :
    (u u' v v' : Bytes)
    → IsPlain v
    → IsPlain v'
    → u ++ (b'@' ∷ v) ≡ u' ++ (b'@' ∷ v')
    → (u ≡ u') × (v ≡ v')
parts_of [] [] v v' p p' e = (refl, (heads e).1)
parts_of [] (c ∷ u') v v' p p' e = elim (separator_within u' v v' (heads e).1 p) [ ]
parts_of (c ∷ u) [] v v' p p' e = elim (separator_within u v' v (sym (heads e).1) p') [ ]
parts_of (c ∷ u) (d ∷ u') v v' p p' e =
    let (h, t) = heads e in let (a, b) = parts_of u u' v v' p p' t in (cc, b)

-- Items with plain versions have different keys.
pub key_of_inj :
    (i j : WorkItem)
    → IsPlain i.version
    → IsPlain j.version
    → bytes_eq (key_of i) (key_of j) ≡ true
    → i ≡ j
unfolding key_of
key_of_inj i j p q e =
    let (a, b) =
      parts_of i.url j.url i.version j.version p q (bytes_eq_sound (key_of i) (key_of j) e) in
    cc

pub git_count : List NamedDependency → ℕ
git_count [] = 0
git_count (d ∷ ds) = elim d.dependency [
  | git_dep u v ↦ suc (git_count ds)
  | path_dep p ↦ git_count ds
]

-- What queueing the dependencies of a package does.
pub record Queued (ds : List NamedDependency) (r r' : Resolution) : Type 0 where
  pub resolved : r'.resolved ≡ r.resolved
  pub seen : r'.seen ≡ r.seen
  pub kept : (j : WorkItem) → Memᴰ j r.queue → Memᴰ j r'.queue
  pub added : (j : WorkItem) → HasGit j ds → Memᴰ j r'.queue
  pub only : (j : WorkItem) → Memᴰ j r'.queue → Memᴰ j r.queue ⊎ HasGit j ds
  pub longer : length r'.queue ≡ length r.queue + git_count ds

HasGit-none : {j : WorkItem} → HasGit j [] → ⊥
HasGit-none h = elim h [ ]

Queued-nil : (r : Resolution) → Queued [] r r
unfolding git_count
Queued-nil r = record {
  resolved = refl;
  seen = refl;
  kept = λ j i. i;
  added = λ j h. elim h [ ];
  only = λ j i. inl i;
  longer = omega arith;
}

length-push : (xs : List WorkItem) (x : WorkItem) → length (xs ++ (x ∷ [])) ≡ suc (length xs)
length-push [] x = refl
length-push (y ∷ xs) x = ap suc (length-push xs x)

HasGit-path :
    {a p : Bytes} {j : WorkItem} {ds : List NamedDependency}
    → HasGit j (record { alias = a; dependency = path_dep p } ∷ ds)
    → HasGit j ds
HasGit-path (later_is h) = h

HasGit-git :
    {a u v : Bytes} {j : WorkItem} {ds : List NamedDependency}
    → HasGit j (record { alias = a; dependency = git_dep u v } ∷ ds)
    → (j ≡ item u v) ⊎ HasGit j ds
HasGit-git first_is = inl refl
HasGit-git (later_is h) = inr h

first_for :
    (a u v : Bytes) (ds : List NamedDependency) (j : WorkItem)
    → j ≡ item u v
    → HasGit j (record { alias = a; dependency = git_dep u v } ∷ ds)
first_for a u v ds j e =
    subst (λ x. HasGit x (record { alias = a; dependency = git_dep u v } ∷ ds)) (sym e) first_is

-- Only the aliases differ.
pub record Alike (r r' : Resolution) : Type 0 where
  pub resolved : r'.resolved ≡ r.resolved
  pub seen : r'.seen ≡ r.seen
  pub queue : r'.queue ≡ r.queue

Queued-path :
    (a p : Bytes) (ds : List NamedDependency) (r r' : Resolution)
    → Queued ds r r'
    → Queued (record { alias = a; dependency = path_dep p } ∷ ds) r r'
unfolding git_count
Queued-path a p ds r r' q = record {
  resolved = q.resolved;
  seen = q.seen;
  kept = q.kept;
  added = λ j h. q.added j (HasGit-path h);
  only = λ j i. elim (q.only j i) [ inl k ↦ inl k | inr h ↦ inr (later_is h) ];
  longer = q.longer;
}

Queued-git :
    (a u v : Bytes) (ds : List NamedDependency) (r r₁ r' : Resolution)
    → Alike r r₁
    → Queued ds (push_item (item u v) r₁) r'
    → Queued (record { alias = a; dependency = git_dep u v } ∷ ds) r r'
unfolding git_count
Queued-git a u v ds r r₁ r' s q =
    let n = length-push r₁.queue (item u v) in
    let e = ap (λ (x : List WorkItem). length x) s.queue in
    let l = q.longer in
    record {
      resolved = q.resolved ∙ s.resolved;
      seen = q.seen ∙ s.seen;
      kept = λ j i. q.kept j (Memᴰ.append_left _ (subst (Memᴰ j) (sym s.queue) i));
      added = λ j h. elim (HasGit-git h) [
        | inl e ↦
            subst (λ x. Memᴰ x r'.queue) (sym e)
              (q.kept (item u v) (Memᴰ.append_right r₁.queue (Memᴰ.head refl)))
        | inr k ↦ q.added j k
      ];
      only = λ j i. elim (q.only j i) [
        | inr h ↦ inr (later_is h)
        | inl k ↦ elim (Memᴰ.append_cases r₁.queue k) [
          | inl b ↦ inl (subst (Memᴰ j) s.queue b)
          | inr b ↦ elim (Memᴰ.cases_cons b) [
            | inl e ↦ inr (first_for a u v ds j e)
            | inr c ↦ elim c [ ]
          ]
        ]
      ];
      longer = omega (arith, n, e, l);
    }

pub Lands-map :
    {A : Type 0} {Why : PackageError → Type 0} {P Q : A → Type 0} {e : Attempt A}
    → ((a : A) → P a → Q a)
    → Lands Why P e
    → Lands Why Q e
Lands-map f (lands {a} h) = lands (f a h)
Lands-map f (throws c) = throws c

abbrev named : Bytes → Dependency → NamedDependency
named a d = record { alias = a; dependency = d }

-- The dependencies of a package, where the root has some aliases.
module _ (Why : PackageError → Type 0) (name : Bytes) (names : List Bytes)
    (blame : contains names name ≡ true → Why (alias_conflict name)) where
  abbrev Keeps : (Resolution → Type 0) → Resolution → Type 0
  Keeps P r = P r × (r.root_aliases ≡ names)

  give_alias-Lands :
      (url alias : Bytes) (r : Resolution)
      → r.root_aliases ≡ names
      → Lands Why (Keeps (Alike r)) (give_alias name url alias r)
  unfolding give_alias
  give_alias-Lands url alias r n = elim (Option-cases (alias_of r.aliases url)) [
    | inr (a, e) ↦
        rw (e, give_alias) (lands (record { resolved = refl; seen = refl; queue = refl }, n))
    | inl e ↦ elim (Bool-cases (contains r.root_aliases name)) [
      | inl k ↦ rw (e, give_alias, k) (throws (blame (subst (λ x. contains x name ≡ true) n k)))
      | inr k ↦
          rw (e, give_alias, k) (lands (record { resolved = refl; seen = refl; queue = refl }, n))
    ]
  ]

  enqueue-step :
      (a : Bytes) (d : Dependency) (ds : List NamedDependency) (r : Resolution)
      → r.root_aliases ≡ names
      → ((r' : Resolution)
          → r'.root_aliases ≡ names
          → Lands Why (Keeps (Queued ds r')) (enqueue name ds r'))
      → Lands Why (Keeps (Queued (named a d ∷ ds) r)) (enqueue name (named a d ∷ ds) r)
  unfolding enqueue
  enqueue-step a (path_dep p) ds r n f =
      Lands-map (λ r' (q, e). (Queued-path a p ds r r' q, e)) (f r n)
  enqueue-step a (git_dep u v) ds r n f = behind-Lands _ (give_alias-Lands u a r n) (λ r₁ (s, n').
      Lands-map (λ r' (q, e). (Queued-git a u v ds r r₁ r' s q, e))
        (f (push_item (item u v) r₁) n'))

  pub enqueue-Lands :
      (ds : List NamedDependency) (r : Resolution)
      → r.root_aliases ≡ names
      → Lands Why (Keeps (Queued ds r)) (enqueue name ds r)
  unfolding enqueue
  enqueue-Lands [] r n = lands (Queued-nil r, n)
  enqueue-Lands (d ∷ ds) r n =
      enqueue-step d.alias d.dependency ds r n (λ r' n'. enqueue-Lands ds r' n')

collect_roots-step :
    (a : Bytes) (d : Dependency) (ds : List NamedDependency) (r : Resolution)
    → ((r' : Resolution) → Queued ds r' (collect_roots ds r'))
    → Queued (named a d ∷ ds) r (collect_roots (named a d ∷ ds) r)
unfolding collect_roots
collect_roots-step a (path_dep p) ds r f = Queued-path a p ds r _ (f r)
collect_roots-step a (git_dep u v) ds r f =
    Queued-git a u v ds r
      (record r { aliases = set_alias u a r.aliases; root_aliases = a ∷ r.root_aliases }) _
      (record { resolved = refl; seen = refl; queue = refl }) (f _)

pub collect_roots-Queued :
    (ds : List NamedDependency) (r : Resolution) → Queued ds r (collect_roots ds r)
unfolding collect_roots
collect_roots-Queued [] r = Queued-nil r
collect_roots-Queued (d ∷ ds) r =
    collect_roots-step d.alias d.dependency ds r (λ r'. collect_roots-Queued ds r')
