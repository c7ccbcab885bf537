-- ===== src/Packages/Resolver/Selects.antt =====
-- What resolveDeps in src/vsl_resolver.cpp returns.
use visuall.Base.{
  ℕ, suc, Bool, true, false, List, [], ◌∷◌, Option, if◌then◌else◌, Bytes, map, ◌≡◌, ◌⊎◌, inl, inr,
  refl, sym, ap, subst, ◌∙◌, arith, ◌+◌,
}
use mathlib.Core.List.{Memᴰ}
use mathlib.Core.List.Memᴰ
use visuall.Packages.Resolver.{VslManifest, WorkItem, contains, key_of}
use visuall.Packages.Resolver.Required.{Cause, item, Required, direct, WillDo}
use visuall.Packages.Resolver.{Resolution, resolve_deps, collect_roots, unresolved, LockEntry}
use visuall.Packages.Resolver.Queue.{
  Lands, lands, behind-Lands, IsPlain, git_count, collect_roots-Queued,
}
use visuall.Packages.Resolver.Closed.{Invariant, all-Processed}
use visuall.Packages.Resolver.Closed.{Once, version_of-Once, version_of-Mem}
use visuall.Packages.Resolver.Weight.{weight}
use visuall.Packages.Resolver.Loop.{resolve_queue-Lands}
use visuall.Packages.Resolver.{insert_entry, sort_entries, build_lock, lock_entry, bytes_less}

module _ (less : Bytes → Bytes → Bool) where
  insert_entry-Mem :
      (e x : LockEntry) (xs : List LockEntry)
      → Memᴰ e (insert_entry less x xs)
      → (e ≡ x) ⊎ Memᴰ e xs
  unfolding insert_entry
  insert_entry-Mem e x [] i = elim (Memᴰ.cases_cons i) [ inl k ↦ inl k | inr j ↦ inr j ]
  insert_entry-Mem e x (y ∷ ys) i = split (less x.alias y.alias) (λ j. insert_entry-Mem e x ys j) i
    where
      split :
          (b : Bool)
          → (Memᴰ e (insert_entry less x ys) → (e ≡ x) ⊎ Memᴰ e ys)
          → Memᴰ e (if b then x ∷ y ∷ ys else y ∷ insert_entry less x ys)
          → (e ≡ x) ⊎ Memᴰ e (y ∷ ys)
      split true again j = elim (Memᴰ.cases_cons j) [ inl k ↦ inl k | inr m ↦ inr m ]
      split false again j = elim (Memᴰ.cases_cons j) [
        | inl k ↦ inr (Memᴰ.head k)
        | inr m ↦ elim (again m) [ inl k ↦ inl k | inr n ↦ inr (Memᴰ.tail n) ]
      ]

  Mem-insert_entry :
      (e x : LockEntry) (xs : List LockEntry)
      → (e ≡ x) ⊎ Memᴰ e xs
      → Memᴰ e (insert_entry less x xs)
  unfolding insert_entry
  Mem-insert_entry e x [] h = elim h [ inl k ↦ Memᴰ.head k | inr m ↦ elim m [ ] ]
  Mem-insert_entry e x (y ∷ ys) h = place (less x.alias y.alias) (λ k. Mem-insert_entry e x ys k) h
    where
      place :
          (b : Bool)
          → ((e ≡ x) ⊎ Memᴰ e ys → Memᴰ e (insert_entry less x ys))
          → (e ≡ x) ⊎ Memᴰ e (y ∷ ys)
          → Memᴰ e (if b then x ∷ y ∷ ys else y ∷ insert_entry less x ys)
      place true again (inl k) = Memᴰ.head k
      place true again (inr m) = Memᴰ.tail m
      place false again (inl k) = Memᴰ.tail (again (inl k))
      place false again (inr m) = elim (Memᴰ.cases_cons m) [
        | inl k ↦ Memᴰ.head k
        | inr n ↦ Memᴰ.tail (again (inr n))
      ]

  sort_entries-Mem :
      (e : LockEntry) (xs : List LockEntry) → Memᴰ e (sort_entries less xs) → Memᴰ e xs
  unfolding sort_entries
  sort_entries-Mem e [] i = i
  sort_entries-Mem e (x ∷ xs) i = elim (insert_entry-Mem e x (sort_entries less xs) i) [
    | inl k ↦ Memᴰ.head k
    | inr j ↦ Memᴰ.tail (sort_entries-Mem e xs j)
  ]

  Mem-sort_entries :
      (e : LockEntry) (xs : List LockEntry) → Memᴰ e xs → Memᴰ e (sort_entries less xs)
  unfolding sort_entries
  Mem-sort_entries e [] i = i
  Mem-sort_entries e (x ∷ xs) i =
      Mem-insert_entry e x (sort_entries less xs)
        (elim (Memᴰ.cases_cons i) [ inl k ↦ inl k | inr j ↦ inr (Mem-sort_entries e xs j) ])

module _ (fetcher : Bytes → Bytes → Option VslManifest) (root : VslManifest) where
  -- Of each URL that is required there is one entry, with a version that is required, and that will
  -- do for each version that is required of the URL.
  pub record Selects (lock : List LockEntry) : Type 0 where
    pub complete :
        (i : WorkItem)
        → Required fetcher root i
        → (e : LockEntry) × Memᴰ e lock × (e.url ≡ i.url) × WillDo e.version i.version
    pub required : (e : LockEntry) → Memᴰ e lock → Required fetcher root (item e.url e.version)
    pub single : (e e' : LockEntry) → Memᴰ e lock → Memᴰ e' lock → e.url ≡ e'.url → e ≡ e'

  start-Invariant : Invariant fetcher root (collect_roots root.dependencies unresolved)
  unfolding Once contains
  start-Invariant =
      let q = collect_roots-Queued root.dependencies unresolved in
      record {
        entries = λ i m. elim (subst (Memᴰ i) q.resolved m) [ ];
        once = subst Once (sym q.resolved) tt;
        named = refl;
        queued = λ i m. elim (q.only i m) [ inl k ↦ elim k [ ] | inr h ↦ direct h ];
        roots = λ i h. inl (q.added i h);
        closed = λ i j m d s g h.
            let s' : contains [] (key_of i) ≡ true =
              subst (λ x. contains x (key_of i) ≡ true) q.seen s in
            cc;
      }

  module _ (r : Resolution) (v : Invariant fetcher root r) (e : r.queue ≡ []) where
    abbrev entry_of : WorkItem → LockEntry
    entry_of = lock_entry r.aliases

    entry_for :
        (x : LockEntry)
        → Memᴰ x (build_lock r)
        → (i : WorkItem) × Memᴰ i r.resolved × (entry_of i ≡ x)
    unfolding build_lock
    entry_for x m =
        Memᴰ.of_map entry_of r.resolved (sort_entries-Mem bytes_less x (map entry_of r.resolved) m)

    in_lock : (i : WorkItem) → Memᴰ i r.resolved → Memᴰ (entry_of i) (build_lock r)
    unfolding build_lock
    in_lock i m =
        Mem-sort_entries bytes_less (entry_of i) (map entry_of r.resolved) (Memᴰ.map entry_of m)

    same_entry : (i j : WorkItem) → Memᴰ i r.resolved → Memᴰ j r.resolved → i.url ≡ j.url → i ≡ j
    same_entry i j a b u =
        let p = version_of-Once r.resolved v.once i a in
        let q = version_of-Once r.resolved v.once j b in
        let w : i.version ≡ j.version = cc in ap (λ x. item x i.version) u ∙ ap (item j.url) w

    lock-Selects : Selects (build_lock r)
    lock-Selects = record {
      complete = λ i q.
          let h = (all-Processed fetcher root r v e i q).handled in
          (
            entry_of (item i.url h.version),
            in_lock (item i.url h.version) (version_of-Mem r.resolved i.url h.version h.resolved),
            refl,
            h.will_do,
          );
      required = λ x m.
          let (i, a, k) = entry_for x m in
          subst (λ (y : LockEntry). Required fetcher root (item y.url y.version)) k (v.entries i a);
      single = λ x y m n s.
          let (i, a, k) = entry_for x m in
          let (j, b, l) = entry_for y n in
          let u : i.url ≡ j.url =
            ap (λ (z : LockEntry). z.url) k ∙ s ∙ sym (ap (λ (z : LockEntry). z.url) l) in
          sym k ∙ ap entry_of (same_entry i j a b u) ∙ l;
    }

module _ (fetcher : Bytes → Bytes → Option VslManifest) (root : VslManifest)
    (plain : (i : WorkItem) → Required fetcher root i → IsPlain i.version)
    (universe : List WorkItem)
    (covers : (i : WorkItem) → Required fetcher root i → Memᴰ i universe) where
  -- The rounds of the loop: one for each dependency of the root, and of each required package.
  abbrev pub enough : ℕ
  enough = suc (git_count root.dependencies + weight fetcher [] universe)

  -- Where all that is required, through the manifests that are fetched, is among finitely many
  -- packages, and no required version has an `@`, resolution ends. It ends with an error that has a
  -- cause: two required versions of a URL that do not merge, a required manifest that is not fetched,
  -- or a required package whose name is an alias of the root. Or it ends with a lock file: of each
  -- URL that is required it has one entry, of a required version, and the version is the required
  -- one, or no less and of the same major version, for each version that is required of the URL.
  pub resolve_deps-Selects :
      Lands (Cause fetcher root) (Selects fetcher root) (resolve_deps fetcher enough root)
  unfolding resolve_deps
  resolve_deps-Selects =
      let q = collect_roots-Queued root.dependencies unresolved in
      let l = q.longer in
      let s = ap (λ x. weight fetcher x universe) q.seen in
      behind-Lands _
        (resolve_queue-Lands fetcher root plain universe covers enough _
          (start-Invariant fetcher root) (omega (arith, l, s)))
        (λ r h. lands (lock-Selects fetcher root r h.sound h.emptied))
