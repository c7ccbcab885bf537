-- ===== src/Packages/Resolver/Loop.antt =====
-- The loop of resolveDeps in src/vsl_resolver.cpp: its rounds, and how many there are.
use visuall.Base.{
  none, ◌≢◌, ℕ, zero, suc, true, List, [], ◌∷◌, Option, some, Bytes, ◌≡◌, inl, inr, refl, sym, ap,
  subst, ◌∙◌, arith, Bool-cases, Option-cases, ◌<◌, length,
}
use mathlib.Core.List.{Memᴰ}
use mathlib.Core.List.Memᴰ
use visuall.Lexer.Token.{bytes_eq}
use visuall.Packages.Versions.{Merged, merge_version, kept, invalid_semver, major_conflict}
use visuall.Packages.Resolver.{
  PackageError, VslManifest, WorkItem, version_of, set_version, contains, key_of,
}
use visuall.Packages.Resolver.Required.{
  root_names, Cause, malformed, incompatible, unfetched, misnamed, item, HasGit, Required,
  transitive,
}
use visuall.Packages.Resolver.{
  Resolution, success, behind, merged_as, fetch, visit, resolve_item, resolve_queue,
}
use visuall.Packages.Resolver.Queue.{
  Lands, Lands-map, lands, throws, behind-Lands, IsPlain, key_of_inj, git_count, Queued,
  enqueue-Lands,
}
use visuall.Packages.Resolver.Closed.{
  version_of-Mem, Handled, Processed, Waits, Invariant, after_merge, merge-Handled, keeps-Handled,
  merge_entries, Once, set_version-Once,
}
use visuall.Packages.Resolver.Weight.{
  contains_more, contains-head, contains_other, same_manifest, gits, weight, weight-new,
  rounds_left,
}

first_merge :
    (ver : Bytes) (x : Merged) → ((w : Bytes) → x ≢ kept w) → merge_version none ver ≡ x → ⊥
unfolding merge_version
first_merge ver x n e = n ver (sym e)

module _ (fetcher : Bytes → Bytes → Option VslManifest) (root : VslManifest)
    (plain : (i : WorkItem) → Required fetcher root i → IsPlain i.version)
    (universe : List WorkItem)
    (covers : (i : WorkItem) → Required fetcher root i → Memᴰ i universe) where
  abbrev Why : PackageError → Type 0
  Why = Cause fetcher root

  abbrev Sound : Resolution → Type 0
  Sound = Invariant fetcher root

  module _ (r : Resolution) (v : Sound r) (i : WorkItem) (rest : List WorkItem) (w : Bytes)
      (from : r.queue ≡ i ∷ rest)
      (merge : merge_version (version_of r.resolved i.url) i.version ≡ kept w) where
    abbrev merged : Resolution
    merged = after_merge fetcher root r i rest w from merge

    required : Required fetcher root i
    required = v.queued i (subst (Memᴰ i) (sym from) (Memᴰ.head refl))

    -- A state behind the merge, with more that is seen, and more in the queue.
    record Follows (r' : Resolution) : Type 0 where
      pub resolved : r'.resolved ≡ merged.resolved
      pub seen : (k : Bytes) → contains r.seen k ≡ true → contains r'.seen k ≡ true
      pub this : contains r'.seen (key_of i) ≡ true
      pub rest_kept : (j : WorkItem) → Memᴰ j rest → Memᴰ j r'.queue

    follow-Handled :
        (r' : Resolution)
        → Follows r'
        → (j : WorkItem) → Handled fetcher root merged j
        → Handled fetcher root r' j
    follow-Handled r' f j h = record {
      version = h.version;
      resolved = ap (λ x. version_of x j.url) f.resolved ∙ h.resolved;
      will_do = h.will_do;
    }

    follow-Waits :
        (r' : Resolution)
        → Follows r'
        → (j : WorkItem) → Waits fetcher root r j
        → Waits fetcher root r' j
    follow-Waits r' f j (inr p) = inr (record {
      seen = f.seen (key_of j) p.seen;
      handled =
          follow-Handled r' f j (keeps-Handled fetcher root r i rest w from merge j p.handled);
    })
    follow-Waits r' f j (inl m) = elim (Memᴰ.cases_cons (subst (Memᴰ j) from m)) [
      | inr k ↦ inl (f.rest_kept j k)
      | inl e ↦ inr (
          subst (Processed fetcher root r') (sym e) (record {
            seen = f.this;
            handled = follow-Handled r' f i (merge-Handled fetcher root r i rest w from merge);
          }))
    ]

    -- The item was seen before.
    again-Sound : contains r.seen (key_of i) ≡ true → Sound merged
    again-Sound e =
        let f : Follows merged = record {
          resolved = refl;
          seen = λ k h. h;
          this = e;
          rest_kept = λ j m. m;
        } in
        record {
          entries = merge_entries fetcher root r i rest w from merge v;
          once = set_version-Once i.url w r.resolved v.once;
          named = v.named;
          queued = λ j m. v.queued j (subst (Memᴰ j) (sym from) (Memᴰ.tail m));
          roots = λ j h. follow-Waits merged f j (v.roots j h);
          closed = λ i' j m q s g h. follow-Waits merged f j (v.closed i' j m q s g h);
        }

    abbrev marked : Resolution
    marked = record merged { seen = key_of i ∷ r.seen }

    -- The manifest of the item is fetched.
    new-Sound :
        (m : VslManifest) (r' : Resolution)
        → fetcher i.url i.version ≡ some m
        → Queued m.dependencies marked r'
        → r'.root_aliases ≡ root_names root
        → Sound r'
    new-Sound m r' g q k =
        let f : Follows r' = record {
          resolved = q.resolved;
          seen = λ k h.
              subst (λ x. contains x k ≡ true) (sym q.seen) (contains_more (key_of i) r.seen k h);
          this =
              subst (λ x. contains x (key_of i) ≡ true) (sym q.seen)
                (contains-head (key_of i) r.seen);
          rest_kept = q.kept;
        } in
        record {
          entries = λ j n.
              merge_entries fetcher root r i rest w from merge v j (subst (Memᴰ j) q.resolved n);
          once = subst Once (sym q.resolved) (set_version-Once i.url w r.resolved v.once);
          named = k;
          queued = λ j n. elim (q.only j n) [
            | inl k ↦ v.queued j (subst (Memᴰ j) (sym from) (Memᴰ.tail k))
            | inr h ↦ transitive required g h
          ];
          roots = λ j h. follow-Waits r' f j (v.roots j h);
          closed = λ i' j m' d s g' h. elim (Bool-cases (bytes_eq (key_of i) (key_of i'))) [
            | inl e ↦
                let same = key_of_inj i i' (plain i required) (plain i' d) e in
                inl (
                  q.added j (
                    subst (λ x. HasGit j x.dependencies) (same_manifest fetcher i i' m m' same g g')
                      h))
            | inr e ↦ follow-Waits r' f j (
                v.closed i' j m' d
                  (contains_other (key_of i) r.seen (key_of i') e
                    (subst (λ x. contains x (key_of i') ≡ true) q.seen s))
                  g' h)
          ];
        }

  -- The rounds that are left, and the invariant, behind a round.
  record Rounds (r r' : Resolution) : Type 0 where
    pub sound : Sound r'
    pub fewer : rounds_left fetcher universe r' < rounds_left fetcher universe r

  module _ (r : Resolution) (v : Sound r) (i : WorkItem) (rest : List WorkItem)
      (from : r.queue ≡ i ∷ rest) where
    visit-Rounds :
        (w : Bytes)
        → merge_version (version_of r.resolved i.url) i.version ≡ kept w
        → Lands Why
            (Rounds r)
            (visit fetcher i (record r { queue = rest; resolved = set_version i.url w r.resolved }))
    unfolding visit fetch
    visit-Rounds w e =
        let l : length r.queue ≡ suc (length rest) = ap (λ (x : List WorkItem). length x) from in
        elim (Bool-cases (contains r.seen (key_of i))) [
          | inl s ↦
              rw (s, visit)
                (lands
                  (record { sound = again-Sound r v i rest w from e s; fewer = omega (arith, l) }))
          | inr s ↦ elim (Option-cases (fetcher i.url i.version)) [
            | inl n ↦ rw (s, fetch, n) (throws (unfetched (required r v i rest w from e) n))
            | inr (m, g) ↦
                let d =
                  weight-new fetcher i r.seen universe (covers i (required r v i rest w from e))
                    s in
                let c : gits fetcher (fetcher i.url i.version) ≡ git_count m.dependencies =
                  ap (gits fetcher) g in
                rw (s, fetch, g)
                  (Lands-map
                    (λ r' (q, k).
                      let a = q.longer in
                      let b : weight fetcher r'.seen universe
                          ≡ weight fetcher (key_of i ∷ r.seen) universe =
                        ap (λ x. weight fetcher x universe) q.seen in
                      record {
                        sound = new-Sound r v i rest w from e m r' g q k;
                        fewer = omega (arith, a, b, c, d, l);
                      })
                    (enqueue-Lands Why m.name (root_names root)
                      (λ h. misnamed (required r v i rest w from e) g h) m.dependencies _ v.named))
          ]
        ]

    queued_first : Required fetcher root i
    queued_first = v.queued i (subst (Memᴰ i) (sym from) (Memᴰ.head refl))

    resolved_before :
        (old : Bytes)
        → version_of r.resolved i.url ≡ some old
        → Required fetcher root (item i.url old)
    resolved_before old n = v.entries (item i.url old) (version_of-Mem r.resolved i.url old n)

    merged-Rounds :
        (x : Merged)
        → merge_version (version_of r.resolved i.url) i.version ≡ x
        → Lands Why (Rounds r) (
            behind (merged_as i.url x) (λ w.
              visit fetcher i
                (record r { queue = rest; resolved = set_version i.url w r.resolved })))
    unfolding merged_as behind
    merged-Rounds (kept w) e = visit-Rounds w e
    merged-Rounds (invalid_semver b) e = elim (Option-cases (version_of r.resolved i.url)) [
      | inl n ↦ elim (first_merge i.version (invalid_semver b) (λ w. cc) (rw n at e)) [ ]
      | inr (old, n) ↦ throws (malformed queued_first (resolved_before old n) (rw n at e))
    ]
    merged-Rounds (major_conflict a b) e = elim (Option-cases (version_of r.resolved i.url)) [
      | inl n ↦ elim (first_merge i.version (major_conflict a b) (λ w. cc) (rw n at e)) [ ]
      | inr (old, n) ↦ throws (incompatible queued_first (resolved_before old n) (rw n at e))
    ]

  -- The state that the loop ends with.
  pub record Finished (r : Resolution) : Type 0 where
    pub sound : Sound r
    pub emptied : r.queue ≡ []

  round-Lands :
      (f : ℕ) (r : Resolution)
      → Sound r
      → ((r' : Resolution) → Rounds r r' → Lands Why Finished (resolve_queue fetcher f r'))
      → (q : List WorkItem) → r.queue ≡ q
      → Lands Why Finished (elim q [
        | [] ↦ success r
        | i ∷ rest ↦
            behind (resolve_item fetcher i (record r { queue = rest })) (resolve_queue fetcher f)
      ])
  unfolding resolve_item
  round-Lands f r v again [] e = lands (record { sound = v; emptied = e })
  round-Lands f r v again (i ∷ rest) e =
      behind-Lands (resolve_queue fetcher f) (merged-Rounds r v i rest e _ refl) again

  pub resolve_queue-Lands :
      (f : ℕ) (r : Resolution)
      → Sound r
      → rounds_left fetcher universe r < f
      → Lands Why Finished (resolve_queue fetcher f r)
  unfolding resolve_queue
  resolve_queue-Lands zero r v l = let absurd : ⊥ = omega (arith, l) in elim absurd [ ]
  resolve_queue-Lands (suc f) r v l =
      round-Lands f r v
        (λ r' h. resolve_queue-Lands f r' h.sound (let n = h.fewer in omega (arith, n, l))) r.queue
        refl
