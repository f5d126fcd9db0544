-- ===== src/Batch/Groups.antt =====
-- The batches that src/blockchecks/service/batch_scheduler.py makes: nothing is lost, the order is
-- kept, and every batch can be sent to the bridge.
use mathlib.Core.List.{append_assoc, append-nil, map-append}
use blockcheck_s.Prelude.{
  ℕ, ◌≤◌, ◌<◌, Bool, true, false, ◌&&◌, ◌||◌, not, String, List, [], ◌∷◌, ◌++◌, map, string_eq,
  triple_eq, leb, ◌==◌, ◌≡◌, refl, sym, arith, ==_iff, Bool-cases, inl, inr, ◌∙◌, ap,
}
use blockcheck_s.Prelude.Int.{ℤ}
use blockcheck_s.Prelude.Lists.{
  length, flatten, All, All-append, length-append, flatten-snoc, flatten-chunks, All-chunks,
}
use blockcheck_s.Prelude.Dict.{
  contains, add, Distinct, contains-append, contains-add, Distinct-snoc,
}
use blockcheck_s.Job.{StrategyItem, AdaptiveJob}
use blockcheck_s.Batch.{
  Grouping, flushed, change_domain, place, group_step, group_loop, finish, group_jobs_by_domain,
  scheduler_size, iter_batches, is_empty,
}

abbrev pub label : AdaptiveJob → String
label job = job.item.label

-- All jobs are of one domain.
abbrev pub HasDomain : String → List AdaptiveJob → Type 0
HasDomain d = All (λ job. job.domain ≡ d)

pub record IsBatch (n : ℕ) (b : List AdaptiveJob) : Type 0 where
  pub some_job : 1 ≤ length b
  pub fits : length b ≤ n
  pub domain : String
  pub one_domain : HasDomain domain b
  pub labels_differ : Distinct (map label b)

-- Between two rounds of the loop, with `done` the jobs seen so far.
record IsGrouped (n : ℕ) (done : List AdaptiveJob) (g : Grouping) : Type 0 where
  order : flatten g.out ++ g.cur ≡ done
  known : (l : String) → contains g.labels l ≡ contains (map label g.cur) l
  batches : All (IsBatch n) g.out
  fits : length g.cur ≤ n
  one_domain : HasDomain g.cur_domain g.cur
  labels_differ : Distinct (map label g.cur)

flatten-flushed :
    (out : List (List AdaptiveJob)) (cur : List AdaptiveJob)
    → flatten (flushed out cur) ≡ flatten out ++ cur
flatten-flushed out [] = sym (append-nil (flatten out))
flatten-flushed out (job ∷ jobs) = flatten-snoc out (job ∷ jobs)

All-flushed :
    (n : ℕ) (out : List (List AdaptiveJob)) (d : String) (cur : List AdaptiveJob)
    → All (IsBatch n) out
    → length cur ≤ n
    → HasDomain d cur
    → Distinct (map label cur)
    → All (IsBatch n) (flushed out cur)
All-flushed n out d [] h f o l = h
All-flushed n out d (job ∷ jobs) h f o l =
    All-append (IsBatch n) out ((job ∷ jobs) ∷ []) h (
      record { some_job = omega arith; fits = f; domain = d; one_domain = o; labels_differ = l },
      tt,
    )

flushed_full :
    (n : ℕ) (out : List (List AdaptiveJob)) (cur : List AdaptiveJob)
    → 1 ≤ n
    → leb n (length cur) ≡ true
    → flushed out cur ≡ out ++ cur ∷ []
flushed_full n out [] p full = ground arith
flushed_full n out (job ∷ jobs) p full = refl

module _ (n : ℕ) (done : List AdaptiveJob) (g : Grouping) (job : AdaptiveJob)
    (h : IsGrouped n done g) where
  change_domain-IsGrouped :
      IsGrouped n done (change_domain g job) × ((change_domain g job).cur_domain ≡ job.domain)
  unfolding change_domain contains
  change_domain-IsGrouped = elim (Bool-cases (g.cur_domain == job.domain)) [
    | inl e ↦ rw e (h, (==_iff g.cur_domain job.domain).0 e)
    | inr e ↦ rw e (
      record {
        order = append-nil (flatten (flushed g.out g.cur)) ∙ flatten-flushed g.out g.cur ∙ h.order;
        known = λ l. refl;
        batches =
            All-flushed n g.out g.cur_domain g.cur h.batches h.fits h.one_domain h.labels_differ;
        fits = omega arith;
        one_domain = tt;
        labels_differ = tt;
      },
      refl,
    )
  ]

module _ (n : ℕ) (done : List AdaptiveJob) (g : Grouping) (job : AdaptiveJob)
    (h : IsGrouped n done g) (p : 1 ≤ n) (e : g.cur_domain ≡ job.domain) where
  start_batch :
      (labels : List String)
      → ((l : String) → contains labels l ≡ contains (map label (job ∷ [])) l)
      → IsGrouped n
          (done ++ job ∷ [])
          (record g { out = flushed g.out g.cur; cur = job ∷ []; labels = labels })
  unfolding contains
  start_batch labels known = record {
    order = rw (flatten-flushed g.out g.cur) (ap (λ t. t ++ job ∷ []) h.order);
    known = known;
    batches = All-flushed n g.out g.cur_domain g.cur h.batches h.fits h.one_domain h.labels_differ;
    fits = p;
    one_domain = (sym e, tt);
    labels_differ = (refl, tt);
  }

  extend_batch :
      contains g.labels (label job) ≡ false
      → leb n (length g.cur) ≡ false
      → IsGrouped n
          (done ++ job ∷ [])
          (record g { cur = g.cur ++ job ∷ []; labels = add (label job) g.labels })
  unfolding contains
  extend_batch new room = record {
    order = sym (append_assoc (flatten g.out) g.cur (job ∷ [])) ∙ ap (λ t. t ++ job ∷ []) h.order;
    known = λ l. rw (map-append label g.cur (job ∷ [])) (
        ground (
          arith,
          contains-add (label job) l g.labels,
          h.known l,
          contains-append (map label g.cur) (label job ∷ []) l,
        ));
    batches = h.batches;
    fits = ground (arith, length-append g.cur (job ∷ []));
    one_domain =
        All-append (λ j. j.domain ≡ g.cur_domain) g.cur (job ∷ []) h.one_domain (sym e, tt);
    labels_differ = rw (map-append label g.cur (job ∷ [])) (
        Distinct-snoc (map label g.cur) (label job) (sym (h.known (label job)) ∙ new)
          h.labels_differ);
  }

  place-IsGrouped : IsGrouped n (done ++ job ∷ []) (place n g job)
  unfolding place contains
  place-IsGrouped = elim (Bool-cases (contains g.labels (label job))) [
    | inl old ↦ rw old (start_batch (label job ∷ []) (λ l. refl))
    | inr new ↦ rw new (elim (Bool-cases (leb n (length g.cur))) [
      | inl full ↦ rw full (
          rw (flushed_full n g.out g.cur p full) at
            (start_batch (add (label job) []) (λ l. contains-add (label job) l [])))
      | inr room ↦ rw room (extend_batch new room)
    ])
  ]

group_step-IsGrouped :
    (n : ℕ) (done : List AdaptiveJob) (g : Grouping) (job : AdaptiveJob)
    → 1 ≤ n
    → IsGrouped n done g
    → IsGrouped n (done ++ job ∷ []) (group_step n g job)
unfolding group_step
group_step-IsGrouped n done g job p h =
    let (h', e) = change_domain-IsGrouped n done g job h in
    place-IsGrouped n done (change_domain g job) job h' p e

group_loop-IsGrouped :
    (n : ℕ) (done : List AdaptiveJob) (g : Grouping) (jobs : List AdaptiveJob)
    → 1 ≤ n
    → IsGrouped n done g
    → IsGrouped n (done ++ jobs) (group_loop n g jobs)
unfolding group_loop
group_loop-IsGrouped n done g [] p h = rw (append-nil done) h
group_loop-IsGrouped n done g (job ∷ jobs) p h = rw (append_assoc done (job ∷ []) jobs) at (
    group_loop-IsGrouped n (done ++ job ∷ []) (group_step n g job) jobs p
      (group_step-IsGrouped n done g job p h))

kept_nonempty :
    (cur : List AdaptiveJob) (b : Bool) → (not (is_empty cur) && b) ≡ true → 1 ≤ length cur
kept_nonempty [] b h = cc
kept_nonempty (job ∷ jobs) b h = omega arith

left_nil : (cur : List AdaptiveJob) → (not (is_empty cur) && true) ≡ false → cur ≡ []
left_nil [] h = refl
left_nil (job ∷ jobs) h = cc

left_small :
    (n : ℕ) (b : Bool) (cur : List AdaptiveJob)
    → 1 ≤ n
    → (not (is_empty cur) && (b || leb n (length cur))) ≡ false
    → length cur < n
left_small n b [] p h = p
left_small n b (job ∷ jobs) p h = ground arith

scheduler_size_bounds :
    (m : ℕ) (asked : ℤ) → 1 ≤ m → (1 ≤ scheduler_size m asked) × (scheduler_size m asked ≤ m)
unfolding scheduler_size
scheduler_size_bounds m asked p = ground arith

flatten-iter_batches :
    (n : ℕ) (items : List StrategyItem) → 1 ≤ n → flatten (iter_batches n items) ≡ items
unfolding iter_batches flatten
flatten-iter_batches n [] p = refl
flatten-iter_batches n (i ∷ items) p = flatten-chunks n (i ∷ items) p

All-iter_batches :
    (n : ℕ) (items : List StrategyItem)
    → 1 ≤ n
    → All (λ b. (1 ≤ length b) × (length b ≤ n)) (iter_batches n items)
unfolding iter_batches
All-iter_batches n [] p = tt
All-iter_batches n (i ∷ items) p = All-chunks n (i ∷ items) p

-- What `finish` makes of a loop that has seen `done`: the batches, and the jobs that it leaves out.
finish_lem :
    (n : ℕ) (flush_partial : Bool) (done : List AdaptiveJob) (g : Grouping)
    → IsGrouped n done g
    → (left : List AdaptiveJob) × (flatten (finish n flush_partial g) ++ left ≡ done)
      × All (IsBatch n) (finish n flush_partial g)
      × (flush_partial ≡ true → left ≡ [])
      × (1 ≤ n → length left < n)
unfolding finish
finish_lem n flush_partial done g h =
    elim (Bool-cases (not (is_empty g.cur) && (flush_partial || leb n (length g.cur)))) [
      | inl keep ↦ rw keep (
        [],
        append-nil (flatten (g.out ++ g.cur ∷ [])) ∙ flatten-snoc g.out g.cur ∙ h.order,
        All-append (IsBatch n) g.out (g.cur ∷ []) h.batches (
          record {
            some_job = kept_nonempty g.cur _ keep;
            fits = h.fits;
            domain = g.cur_domain;
            one_domain = h.one_domain;
            labels_differ = h.labels_differ;
          },
          tt,
        ),
        λ f. refl,
        λ p. p,
      )
      | inr skip ↦ rw skip (
        g.cur,
        h.order,
        h.batches,
        λ f. left_nil g.cur (rw f at skip),
        λ p. left_small n flush_partial g.cur p skip,
      )
    ]

start-IsGrouped :
    (n : ℕ) (d : String)
    → IsGrouped n [] (record { out = []; cur_domain = d; cur = []; labels = [] })
unfolding contains flatten
start-IsGrouped n d = record {
  order = refl;
  known = λ l. refl;
  batches = tt;
  fits = omega arith;
  one_domain = tt;
  labels_differ = tt;
}

-- `left` are the jobs that stand in no batch.
abbrev pub IsGrouping : ℕ → Bool → List AdaptiveJob → Type 0
IsGrouping n flush_partial jobs =
    (left : List AdaptiveJob) × (flatten (group_jobs_by_domain n flush_partial jobs) ++ left ≡ jobs)
    × All (IsBatch n) (group_jobs_by_domain n flush_partial jobs)
    × (flush_partial ≡ true → left ≡ [])
    × (length left < n)

-- For a size of at least 1, the batches, one after the other, are the jobs in their order, but for
-- fewer than a batch of jobs at the end, and for none with `flush_partial`. Every batch has between 1
-- and `n` jobs, of one domain, with different labels.
pub group_jobs_by_domain_lem :
    (n : ℕ) (flush_partial : Bool) (jobs : List AdaptiveJob)
    → 1 ≤ n
    → IsGrouping n flush_partial jobs
unfolding group_jobs_by_domain flatten
group_jobs_by_domain_lem n flush_partial [] p = ([], refl, tt, λ f. refl, p)
group_jobs_by_domain_lem n flush_partial (first ∷ jobs) p =
    let start : Grouping = record { out = []; cur_domain = first.domain; cur = []; labels = [] } in
    let h = group_loop-IsGrouped n [] start (first ∷ jobs) p (start-IsGrouped n first.domain) in
    let (left, order, good, none_left, small) =
      finish_lem n flush_partial (first ∷ jobs) (group_loop n start (first ∷ jobs)) h in
    (left, order, good, none_left, small p)

-- The batches of the items, at the size that the scheduler takes where `asked` is asked for.
abbrev pub IsCut : ℕ → ℤ → List StrategyItem → Type 0
IsCut bridge_batch_max asked items =
    let n = scheduler_size bridge_batch_max asked in
    (1 ≤ n)
    × (n ≤ bridge_batch_max)
    × (flatten (iter_batches n items) ≡ items)
    × All (λ b. (1 ≤ length b) × (length b ≤ n)) (iter_batches n items)

-- For a limit of at least 1, the size of a batch lies between 1 and the limit, and `iter_batches`
-- keeps the items in their order and cuts them into pieces of 1 to that size.
pub iter_batches_lem :
    (bridge_batch_max : ℕ) (asked : ℤ) (items : List StrategyItem)
    → 1 ≤ bridge_batch_max
    → IsCut bridge_batch_max asked items
iter_batches_lem m asked items p =
    let (lo, hi) = scheduler_size_bounds m asked p in
    (
      lo,
      hi,
      flatten-iter_batches (scheduler_size m asked) items lo,
      All-iter_batches (scheduler_size m asked) items lo,
    )
