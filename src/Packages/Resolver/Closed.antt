-- ===== src/Packages/Resolver/Closed.antt =====
-- What the loop of resolveDeps in src/vsl_resolver.cpp keeps.
use visuall.Base.{
  true, false, List, [], ◌∷◌, Option, none, some, Bytes, ◌≡◌, ◌⊎◌, inl, inr, refl, sym, ap, subst,
  ◌∙◌, Bool-cases,
}
use mathlib.Core.List.{Memᴰ}
use mathlib.Core.List.Memᴰ
use visuall.Lexer.Token.{bytes_eq}
use visuall.Lexer.KeywordNames.{bytes_eq_sound}
use visuall.Packages.Versions.{merge_version, kept}
use visuall.Packages.Resolver.{VslManifest, WorkItem, version_of, set_version, contains, key_of}
use visuall.Packages.Resolver.Required.{
  root_names, bytes_eq_refl, item, HasGit, Required, direct, transitive, WillDo, WillDo-trans,
  merge-WillDo, version_of-set_version, version_of-set_other,
}
use visuall.Packages.Resolver.{Resolution}

pub version_of-Mem :
    (es : List WorkItem) (u w : Bytes) → version_of es u ≡ some w → Memᴰ (item u w) es
unfolding version_of
version_of-Mem [] u w h = cc
version_of-Mem (e ∷ es) u w h = elim (Bool-cases (bytes_eq e.url u)) [
  | inl k ↦
      let h' : some e.version ≡ some w = rw (k, version_of) at h in
      let q = bytes_eq_sound e.url u k in
      let q' : e.version ≡ w = cc in Memᴰ.head (sym (ap (λ x. item x e.version) q ∙ ap (item u) q'))
  | inr k ↦ Memᴰ.tail (version_of-Mem es u w (rw (k, version_of) at h))
]

bytes_eq_sym_false : (a b : Bytes) → bytes_eq a b ≡ false → bytes_eq b a ≡ false
bytes_eq_sym_false a b h = elim (Bool-cases (bytes_eq b a)) [
  | inr k ↦ k
  | inl k ↦
      let q = bytes_eq_sound b a k in
      let r = subst (λ x. bytes_eq a x ≡ true) (sym q) (bytes_eq_refl a) in cc
]

set_here :
    (u v : Bytes) (x : WorkItem) (es : List WorkItem)
    → bytes_eq x.url u ≡ true
    → set_version u v (x ∷ es) ≡ item u v ∷ es
unfolding set_version
set_here u v x es k = rw (k, set_version) refl

set_later :
    (u v : Bytes) (x : WorkItem) (es : List WorkItem)
    → bytes_eq x.url u ≡ false
    → set_version u v (x ∷ es) ≡ x ∷ set_version u v es
unfolding set_version
set_later u v x es k = rw (k, set_version) refl

set_version-Mem :
    (u v : Bytes) (es : List WorkItem) (e : WorkItem)
    → Memᴰ e (set_version u v es)
    → (e ≡ item u v) ⊎ Memᴰ e es
unfolding set_version
set_version-Mem u v [] e i = elim (Memᴰ.cases_cons i) [ inl k ↦ inl k | inr j ↦ inr j ]
set_version-Mem u v (x ∷ es) e i = elim (Bool-cases (bytes_eq x.url u)) [
  | inl k ↦ elim (Memᴰ.cases_cons (subst (Memᴰ e) (set_here u v x es k) i)) [
    | inl q ↦ inl q
    | inr j ↦ inr (Memᴰ.tail j)
  ]
  | inr k ↦ elim (Memᴰ.cases_cons (subst (Memᴰ e) (set_later u v x es k) i)) [
    | inl q ↦ inr (Memᴰ.head q)
    | inr j ↦ elim (set_version-Mem u v es e j) [ inl q ↦ inl q | inr m ↦ inr (Memᴰ.tail m) ]
  ]
]

-- Each URL has one entry.
unfoldable pub Once : List WorkItem → Type 0
Once [] = Unit {0}
Once (e ∷ es) = (version_of es e.url ≡ none) × Once es

pub set_version-Once : (u v : Bytes) (es : List WorkItem) → Once es → Once (set_version u v es)
unfolding Once set_version version_of
set_version-Once u v [] o = (refl, tt)
set_version-Once u v (e ∷ es) (n, o) = elim (Bool-cases (bytes_eq e.url u)) [
  | inl h ↦
      rw (h, set_version) (subst (λ x. version_of es x ≡ none) (bytes_eq_sound e.url u h) n, o)
  | inr h ↦
      rw (h, set_version)
        (
          version_of-set_other u v es e.url (bytes_eq_sym_false e.url u h) ∙ n,
          set_version-Once u v es o,
        )
]

pub version_of-Once :
    (es : List WorkItem)
    → Once es
    → (e : WorkItem) → Memᴰ e es
    → version_of es e.url ≡ some e.version
unfolding Once version_of
version_of-Once [] o e i = elim i [ ]
version_of-Once (x ∷ es) (n, o) e i = elim (Memᴰ.cases_cons i) [
  | inl k ↦
      let h = bytes_eq_refl x.url in
      let r : version_of (x ∷ es) x.url ≡ some x.version = rw h refl in
      subst (λ y. version_of (x ∷ es) y.url ≡ some y.version) (sym k) r
  | inr j ↦
      let r = version_of-Once es o e j in
      elim (Bool-cases (bytes_eq x.url e.url)) [
        | inr h ↦ rw h r
        | inl h ↦
            let n' = subst (λ y. version_of es y ≡ none) (bytes_eq_sound x.url e.url h) n in
            let absurd : ⊥ = cc in elim absurd [ ]
      ]
]

module _ (fetcher : Bytes → Bytes → Option VslManifest) (root : VslManifest) where
  -- The version that is resolved will do.
  pub record Handled (r : Resolution) (i : WorkItem) : Type 0 where
    pub version : Bytes
    pub resolved : version_of r.resolved i.url ≡ some version
    pub will_do : WillDo version i.version

  pub record Processed (r : Resolution) (i : WorkItem) : Type 0 where
    pub seen : contains r.seen (key_of i) ≡ true
    pub handled : Handled r i

  abbrev pub Waits : Resolution → WorkItem → Type 0
  Waits r i = Memᴰ i r.queue ⊎ Processed r i

  pub record Invariant (r : Resolution) : Type 0 where
    pub entries : (i : WorkItem) → Memᴰ i r.resolved → Required fetcher root i
    pub once : Once r.resolved
    pub named : r.root_aliases ≡ root_names root
    pub queued : (i : WorkItem) → Memᴰ i r.queue → Required fetcher root i
    pub roots : (i : WorkItem) → HasGit i root.dependencies → Waits r i
    pub closed :
        (i j : WorkItem) (m : VslManifest)
        → Required fetcher root i
        → contains r.seen (key_of i) ≡ true
        → fetcher i.url i.version ≡ some m
        → HasGit j m.dependencies
        → Waits r j

  not_waiting : (r : Resolution) (i : WorkItem) → r.queue ≡ [] → Waits r i → Processed r i
  not_waiting r i e (inl m) = elim (subst (Memᴰ i) e m) [ ]
  not_waiting r i e (inr p) = p

  -- With an empty queue, all that is required is processed.
  pub all-Processed :
      (r : Resolution)
      → Invariant r
      → r.queue ≡ []
      → (i : WorkItem) → Required fetcher root i
      → Processed r i
  all-Processed r v e i (direct h) = not_waiting r i e (v.roots i h)
  all-Processed r v e j (transitive {i} {m = m} q f h) =
      not_waiting r j e (v.closed i j m q (all-Processed r v e i q).seen f h)

  -- An item with the version that its merge keeps.
  module _ (r : Resolution) (i : WorkItem) (rest : List WorkItem) (w : Bytes)
      (from : r.queue ≡ i ∷ rest)
      (merge : merge_version (version_of r.resolved i.url) i.version ≡ kept w) where
    abbrev pub after_merge : Resolution
    after_merge = record r { queue = rest; resolved = set_version i.url w r.resolved }

    pub merge-Handled : Handled after_merge i
    merge-Handled = record {
      version = w;
      resolved = version_of-set_version i.url w r.resolved;
      will_do = (merge-WillDo (version_of r.resolved i.url) i.version w merge).0;
    }

    pub keeps-Handled : (j : WorkItem) → Handled r j → Handled after_merge j
    keeps-Handled j h = elim (Bool-cases (bytes_eq i.url j.url)) [
      | inr n ↦ record {
        version = h.version;
        resolved = version_of-set_other i.url w r.resolved j.url n ∙ h.resolved;
        will_do = h.will_do;
      }
      | inl n ↦
          let q = bytes_eq_sound i.url j.url n in
          let o = subst (λ x. version_of r.resolved x ≡ some h.version) (sym q) h.resolved in
          record {
            version = w;
            resolved =
                subst (λ x. version_of (set_version i.url w r.resolved) x ≡ some w) q
                  (version_of-set_version i.url w r.resolved);
            will_do =
                WillDo-trans w h.version j.version
                  ((merge-WillDo (version_of r.resolved i.url) i.version w merge).1 h.version o)
                  h.will_do;
          }
    ]

    pub merge_entries :
        Invariant r → (j : WorkItem) → Memᴰ j after_merge.resolved → Required fetcher root j
    merge_entries v j m = elim (set_version-Mem i.url w r.resolved j m) [
      | inr k ↦ v.entries j k
      | inl e ↦
          subst (Required fetcher root) (sym e)
            (elim ((merge-WillDo (version_of r.resolved i.url) i.version w merge).2) [
              | inl q ↦
                  subst (λ x. Required fetcher root (item i.url x)) (sym q)
                    (v.queued i (subst (Memᴰ i) (sym from) (Memᴰ.head refl)))
              | inr q ↦ v.entries (item i.url w) (version_of-Mem r.resolved i.url w q)
            ])
    ]
