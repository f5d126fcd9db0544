-- ===== src/Netns/Leases.antt =====
-- The queue of src/blockchecks/service/netns_pool.py: `seed`, `acquire` and `release` in any order.
use mathlib.Core.List.{append_assoc, append-nil}
use mathlib.Core.Option.{some-injective}
use blockcheck_s.Prelude.{
  ℕ, ◌+◌, Option, none, some, List, [], ◌∷◌, ◌++◌, ◌≡◌, refl, sym, ◌∙◌, ap, arith, ◌≤◌, ◌<◌, Bool,
  not, ◌&&◌, eqb, leb, if◌then◌else◌, if_both, if_split,
}
use blockcheck_s.Prelude.Lists.{length, length-append, All, weigh, weigh-append, list_split}
use blockcheck_s.Netns.Shared.{NetNsPool}
use blockcheck_s.Netns.{put, put_all, seed, drain, acquire, Cleaning, cleanup_ns, release}

-- The pool, and the namespaces that its workers hold.
abbrev pub Lease : Type 0
Lease = NetNsPool × List ℕ

pub data Step : Lease → Lease → Type 0 where
  acquires :
      (pool : NetNsPool) (held : List ℕ) (idx : ℕ) (left : NetNsPool)
      → acquire pool ≡ some (idx, left)
      → Step (pool, held) (left, idx ∷ held)
  releases :
      (cleaning : Cleaning) (pool : NetNsPool) (before after : List ℕ) (idx : ℕ) (left : NetNsPool)
      (returned : Bool)
      → release cleaning idx pool ≡ some (left, returned)
      → Step (pool, before ++ idx ∷ after) (left, before ++ after)

pub data Run : Lease → Lease → Type 0 where
  here : (a : Lease) → Run a a
  next : (a b c : Lease) → Step a b → Run b c → Run a c

-- The weight of what is free and what is held.
abbrev total : (ℕ → ℕ) → Lease → ℕ
total w (pool, held) = weigh w pool.queue + weigh w held

acquire-queue :
    (pool : NetNsPool) (idx : ℕ) (left : NetNsPool)
    → acquire pool ≡ some (idx, left)
    → (pool.queue ≡ idx ∷ left.queue) × (left.names ≡ pool.names) × (left.size ≡ pool.size)
unfolding acquire
acquire-queue pool idx left e =
    let P : Option (ℕ × NetNsPool) → Type 0 = λ o.
      o ≡ some (idx, left)
      → (pool.queue ≡ idx ∷ left.queue) × (left.names ≡ pool.names) × (left.size ≡ pool.size) in
    list_split P pool.queue none (λ i rest. some (i, record pool { queue = rest }))
      (λ q z. absurd (cc z))
      (λ i rest q z.
        let p = some-injective (i, record pool { queue = rest }) (idx, left) z in
        (
          q ∙ ap (λ (x : ℕ × NetNsPool). x.0 ∷ x.1.queue) p,
          sym (ap (λ (x : ℕ × NetNsPool). x.1.names) p),
          sym (ap (λ (x : ℕ × NetNsPool). x.1.size) p),
        ))
      e

release-queue :
    (cleaning : Cleaning) (pool : NetNsPool) (idx : ℕ) (left : NetNsPool) (returned : Bool)
    → release cleaning idx pool ≡ some (left, returned)
    → left ≡ record pool { queue = pool.queue ++ idx ∷ [] }
unfolding release put
release-queue cleaning pool idx left returned =
    let added : NetNsPool = record pool { queue = pool.queue ++ idx ∷ [] } in
    let ends : Option NetNsPool → Option (NetNsPool × Bool) =
      λ o. elim o [ none ↦ none | some p ↦ some (p, cleanup_ns cleaning idx) ] in
    let P : Option NetNsPool → Type 0 = λ o. ends o ≡ some (left, returned) → left ≡ added in
    if_both P (not (eqb pool.size 0) && leb pool.size (length pool.queue)) none (some added)
      (λ e. absurd (cc e))
      (λ e. sym (
        ap (λ (x : NetNsPool × Bool). x.0)
          (some-injective (added, cleanup_ns cleaning idx) (left, returned) e)))

abbrev Kept : Lease → Lease → (ℕ → ℕ) → Type 0
Kept a b w = (total w b ≡ total w a) × (b.0.names ≡ a.0.names) × (b.0.size ≡ a.0.size)

Step-Kept : (w : ℕ → ℕ) (a b : Lease) → Step a b → Kept a b w
Step-Kept w _ _ (acquires pool held idx left e) =
    let (q, n, s) = acquire-queue pool idx left e in (omega (arith, ap (weigh w) q), n, s)
Step-Kept w _ _ (releases cleaning pool before after idx left returned e) =
    let q = release-queue cleaning pool idx left returned e in
    (
      omega (
        arith,
        weigh-append w before (idx ∷ after),
        weigh-append w before after,
        weigh-append w pool.queue (idx ∷ []),
        ap (λ p. weigh w p.queue) q,
      ),
      ap (λ p. p.names) q,
      ap (λ p. p.size) q,
    )

Run-Kept : (w : ℕ → ℕ) (a b : Lease) → Run a b → Kept a b w
Run-Kept w _ _ (here a) = (refl, refl, refl)
Run-Kept w _ _ (next a b c s run) =
    let (t, n, z) = Step-Kept w a b s in
    let (t', n', z') = Run-Kept w b c run in (t' ∙ t, n' ∙ n, z' ∙ z)

-- How often an index stands in a list.
abbrev pub times : ℕ → List ℕ → ℕ
times idx xs = weigh (λ n. if eqb n idx then 1 else 0) xs

-- Each namespace of the pool is free or held, and never twice; a worker waits for one only while all of
-- them are held; and a worker that gives one back neither waits nor keeps it, however its cleanup ends.
pub record IsShared (pool now : NetNsPool) (held : List ℕ) : Type 0 where
  pub all : (idx : ℕ) → times idx now.queue + times idx held ≡ times idx pool.names
  pub once : (idx : ℕ) → times idx now.queue + times idx held ≤ 1
  pub waits : acquire now ≡ none → length held ≡ length pool.names
  pub gives_back :
      All
        (λ idx.
          (cleaning : Cleaning)
          → release cleaning idx now
            ≡ some (record now { queue = now.queue ++ idx ∷ [] }, cleanup_ns cleaning idx))
        held

-- The pool with all its namespaces in the queue.
abbrev pub filled : NetNsPool → NetNsPool
filled pool = record pool { queue = pool.names }

put_all_lem :
    (xs ys : List ℕ) (pool : NetNsPool)
    → length ys + length xs ≤ pool.size
    → put_all xs (record pool { queue = ys }) ≡ some (record pool { queue = ys ++ xs })
unfolding put_all put
put_all_lem [] ys pool h = ap (λ q. some (record pool { queue = q })) (sym (append-nil ys))
put_all_lem (x ∷ xs) ys pool h =
    let last = put_all_lem xs (ys ++ x ∷ []) pool (omega (arith, h, length-append ys (x ∷ []))) in
    let seeds : Option NetNsPool → Option NetNsPool =
      λ o. elim o [ none ↦ none | some p ↦ put_all xs p ] in
    if_split {A = Option NetNsPool} (λ o. seeds o ≡ some (record pool { queue = ys ++ x ∷ xs }))
      (not (eqb pool.size 0) && leb pool.size (length ys)) none
      (some (record pool { queue = ys ++ x ∷ [] })) (λ full. ground (arith, h, full))
      (λ room. last ∙ ap (λ q. some (record pool { queue = q })) (append_assoc ys (x ∷ []) xs))

length-weigh : (xs : List ℕ) → weigh (λ x. 1) xs ≡ length xs
length-weigh [] = refl
length-weigh (x ∷ xs) = omega (arith, length-weigh xs)

waits : (pool : NetNsPool) → acquire pool ≡ none → pool.queue ≡ []
unfolding acquire
waits pool e =
    list_split {B = Option (ℕ × NetNsPool)} (λ o. o ≡ none → pool.queue ≡ []) pool.queue none
      (λ i rest. some (i, record pool { queue = rest })) (λ q z. q) (λ i rest q z. absurd (cc z)) e

release_lem :
    (cleaning : Cleaning) (idx : ℕ) (pool : NetNsPool)
    → length pool.queue < pool.size
    → release cleaning idx pool
      ≡ some (record pool { queue = pool.queue ++ idx ∷ [] }, cleanup_ns cleaning idx)
unfolding release put
release_lem cleaning idx pool room = ground (arith, room)

All-lem : (P : ℕ → Type 0) (xs : List ℕ) → (0 < length xs → (x : ℕ) → P x) → All P xs
All-lem P [] h = tt
All-lem P (x ∷ xs) h = (h (omega arith) x, All-lem P xs (λ n. h (omega arith)))

-- A pool that is drained and seeded, whose names are distinct and at most its size: the seeding does not
-- wait, and however the workers acquire and release after it, and however their cleanups end, each
-- namespace of the pool is free or held by one worker, and never both; `acquire` waits only while all
-- are held; and `release` of one that is held never waits and puts it back, and raises only if its
-- cleanup does.
pub Run-IsShared :
    (pool now : NetNsPool) (held : List ℕ)
    → length pool.names ≤ pool.size
    → ((idx : ℕ) → times idx pool.names ≤ 1)
    → Run (filled pool, []) (now, held)
    → (seed (drain pool) ≡ some (filled pool)) × IsShared pool now held
unfolding seed drain
Run-IsShared pool now held fits distinct run =
    let kept = λ (w : ℕ → ℕ). Run-Kept w (filled pool, []) (now, held) run in
    let same_length : length now.queue + length held ≡ length pool.names = omega (
      arith,
      (kept (λ x. 1)).0,
      length-weigh now.queue,
      length-weigh held,
      length-weigh pool.names,
    ) in
    (
      put_all_lem pool.names [] pool (omega (arith, fits)),
      record {
        all = λ idx. omega (arith, (kept (λ n. if eqb n idx then 1 else 0)).0);
        once = λ idx. omega (arith, (kept (λ n. if eqb n idx then 1 else 0)).0, distinct idx);
        waits = λ e. omega (arith, same_length, ap length (waits now e));
        gives_back = All-lem _ held (λ some_held idx cleaning.
            release_lem cleaning idx now
              (omega (arith, some_held, same_length, fits, (kept (λ x. 1)).2)));
      },
    )
