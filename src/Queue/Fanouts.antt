-- ===== src/Queue/Fanouts.antt =====
-- The fan-out of a pass in src/blockchecks/engine/adaptive_queue.py: which domains it reaches.
use mathlib.Core.List.{append_assoc, append-nil}
use blockcheck_s.Prelude.{
  ◌&&◌, ◌||◌, not, String, none, some, List, [], ◌∷◌, ◌++◌, string_eq, pair_eq, ◌==◌, if◌then◌else◌,
  ==_iff, ◌≡◌, refl, sym, ◌∙◌, ap, arith, Bool-cases, inl, inr,
}
use blockcheck_s.Prelude.Dict.{insert, has_key, contains, lookup-insert, lookup-nil}
use blockcheck_s.Job.{StrategyItem, AdaptiveJob, key}
use blockcheck_s.Queue.{Genetics, Key, AdaptiveJobQueue, enqueue, push_entry}
use blockcheck_s.Queue.Results.{
  members, index_from, cluster_domain_index, others, others_in, sibling_domains, from_item,
  fan_out_to, fan_out,
}

module _ (g : Genetics) where
  -- The domains of a cluster, in order.
  in_cluster : String → List String → List String
  in_cluster c [] = []
  in_cluster c (d ∷ ds) = let rest = in_cluster c ds in if g.cluster d == c then d ∷ rest else rest

  members-insert :
      (idx : List (String × List String)) (c k : String) (ds : List String)
      → members (insert k ds idx) c ≡ (if k == c then ds else members idx c)
  members-insert idx c k ds = grind (arith, lookup-insert, ==_iff k c)

  members-index_from :
      (idx : List (String × List String)) (ds : List String) (c : String)
      → members (index_from g idx ds) c ≡ members idx c ++ in_cluster c ds
  unfolding index_from in_cluster
  members-index_from idx [] c = sym (append-nil (members idx c))
  members-index_from idx (d ∷ ds) c = elim (Bool-cases (g.cluster d == c)) [
    | inl e ↦
        let same : g.cluster d ≡ c = (==_iff (g.cluster d) c).0 e in
        ground (
          arith,
          members-index_from (insert (g.cluster d) (members idx (g.cluster d) ++ d ∷ []) idx) ds c,
          members-insert idx c (g.cluster d) (members idx (g.cluster d) ++ d ∷ []),
          e,
          same,
          append_assoc (members idx c) (d ∷ []) (in_cluster c ds),
          ap (members idx) same,
        )
    | inr e ↦ ground (
      arith,
      members-index_from (insert (g.cluster d) (members idx (g.cluster d) ++ d ∷ []) idx) ds c,
      members-insert idx c (g.cluster d) (members idx (g.cluster d) ++ d ∷ []),
      e,
    )
  ]

  others-in_cluster :
      (c domain : String) (ds : List String)
      → others g domain (in_cluster c ds) ≡ others_in g c domain ds
  unfolding others others_in in_cluster
  others-in_cluster c domain [] = refl
  others-in_cluster c domain (d ∷ ds) = ground (arith, others-in_cluster c domain ds)

  -- The index of the domains gives the same siblings, in the same order, as a scan of the domains.
  pub sibling_domains-index :
      (domain : String) (ds : List String)
      → sibling_domains g domain ds (some (cluster_domain_index g ds))
        ≡ sibling_domains g domain ds none
  unfolding sibling_domains cluster_domain_index
  sibling_domains-index domain ds =
      let c = g.cluster domain in
      let empty : members [] c ≡ [] = ground (arith, lookup-nil {V = List String} c) in
      ap (others g domain) (members-index_from [] ds c)
      ∙ ap (λ (m : List String). others g domain (m ++ in_cluster c ds)) empty
      ∙ others-in_cluster c domain ds

module _ {S : Type 0} (g : Genetics) where
  -- What `enqueue` answers, and whether it leaves `k` pending.
  abbrev pub IsEnqueued : AdaptiveJobQueue S → AdaptiveJob → Key → Type 0
  IsEnqueued q job k =
      ((enqueue g q job).1 ≡ not (has_key (key job) q.pending || contains q.finished (key job)))
      × (has_key k (enqueue g q job).0.pending
          ≡ (has_key k q.pending || (key job == k && not (contains q.finished k))))

  -- `enqueue` answers whether the key of the job is neither pending nor done; after it the keys
  -- pending are those that were, and that key, if it is not done.
  pub enqueue_lem : (q : AdaptiveJobQueue S) (job : AdaptiveJob) (k : Key) → IsEnqueued q job k
  unfolding enqueue push_entry
  enqueue_lem q job k = (ground arith, grind (arith, lookup-insert, ==_iff (key job) k))

  fan_out_to_lem :
      (q : AdaptiveJobQueue S) (item : StrategyItem) (d l e : String)
      → (has_key (l, e) (fan_out_to g q item d).0.pending ≡ (
          has_key (l, e) q.pending
          || (item.label == l
              && (d == e
                  && (not (contains q.excluded_domains e) && not (contains q.finished (l, e)))))))
        × ((fan_out_to g q item d).0.excluded_domains ≡ q.excluded_domains)
        × ((fan_out_to g q item d).0.finished ≡ q.finished)
  unfolding fan_out_to enqueue push_entry from_item
  fan_out_to_lem q item d l e = (
    grind (
      arith,
      lookup-insert,
      ==_iff {A = Key} (item.label, d) (l, e),
      ==_iff d e,
      ==_iff item.label l,
    ),
    ground arith,
    ground arith,
  )

  -- Whether the fan-out of `item` to `ds` leaves the label `l` pending on the domain `e`.
  abbrev pub IsFannedOut :
      AdaptiveJobQueue S → StrategyItem → List String → String → String → Type 0
  IsFannedOut q item ds l e = has_key (l, e) (fan_out g q item ds).0.pending ≡ (
      has_key (l, e) q.pending
      || (item.label == l
          && (contains ds e
              && (not (contains q.excluded_domains e) && not (contains q.finished (l, e))))))

  -- After the fan-out of a strategy, the keys pending are those that were, and those of the strategy
  -- on the domains given that are neither excluded nor done.
  pub fan_out_lem :
      (q : AdaptiveJobQueue S) (item : StrategyItem) (ds : List String) (l e : String)
      → IsFannedOut q item ds l e
  unfolding fan_out contains
  fan_out_lem q item [] l e = ground arith
  fan_out_lem q item (d ∷ ds) l e =
      let (p, x, f) = fan_out_to_lem q item d l e in
      ground (arith, p, x, f, fan_out_lem (fan_out_to g q item d).0 item ds l e)
