-- ===== src/Fanout/Partition.antt =====
-- The batches of src/blockchecks/engine/tcp_fanout.py: a partition of the domains, in order, into
-- batches that need one set of curl options.
use mathlib.Core.Path.{subst}
use mathlib.Core.List.{append_assoc, append-nil}
use blockcheck_s.Prelude.{
  ℕ, ◌≤◌, Bool, true, false, String, Option, none, some, List, [], ◌∷◌, ◌++◌, map, string_eq, eqb,
  ◌≡◌, ◌⊎◌, ◌↔◌, inl, inr, refl, sym, ◌∙◌, ap, arith, ==_iff, Bool-cases, if_both, if_split,
}
use blockcheck_s.Prelude.Int.{ℤ, at_least, at_least_lem}
use blockcheck_s.Prelude.Lists.{
  length, chunks, flatten, All, All-append, All-map, All-both, All-chunks, All-in_chunks,
  flatten-append, flatten-snoc, flatten-chunks,
}
use blockcheck_s.Fanout.{
  CurlProfile, curl_profile, profiles_compatible, Buckets, flush, put, fanout_step, fanout_loop,
  fanout_batches,
}

profiles_compatible-eq : (a b : CurlProfile) → profiles_compatible a b ≡ true → a ≡ b
unfolding profiles_compatible
profiles_compatible-eq a b h = ground (arith, ==_iff a.headers_extra b.headers_extra)

-- Two profiles are compatible exactly when they are equal: the test compares every field.
pub profiles_compatible_iff : (a b : CurlProfile) → (profiles_compatible a b ≡ true) ↔ (a ≡ b)
unfolding profiles_compatible
profiles_compatible_iff a b =
    (profiles_compatible-eq a b, λ e. ground (arith, ==_iff a.headers_extra b.headers_extra, e))

module _ (n : ℕ) (protocol : String) (disable_ech : Bool) where
  -- A domain that may share a batch whose curl options are `p`.
  abbrev pub Shares : CurlProfile → String → Type 0
  Shares p d = (curl_profile d protocol disable_ech ≡ p) × (p.special ≡ false)

  -- One special domain, or domains with one set of curl options.
  abbrev pub IsUniform : List String → Type 0
  IsUniform b =
      ((d : String) × (b ≡ d ∷ []) × ((curl_profile d protocol disable_ech).special ≡ true))
      ⊎ ((p : CurlProfile) × All (Shares p) b)

  pub record IsBatch (b : List String) : Type 0 where
    pub some_domain : 1 ≤ length b
    pub fits : length b ≤ n
    pub uniform : IsUniform b

  abbrev Held : Option CurlProfile → List String → Type 0
  Held none b = b ≡ []
  Held (some p) b = All (Shares p) b

  held_empty : (op : Option CurlProfile) (b : List String) → b ≡ [] → Held op b
  held_empty none b e = e
  held_empty (some p) b e = subst (λ t. All (Shares p) t) (sym e) tt

  -- Between two rounds of the loop, with `done` the domains seen so far.
  record IsPartial (done : List String) (s : Buckets) : Type 0 where
    order : flatten s.batches ++ s.bucket ≡ done
    good : All IsBatch s.batches
    held : Held s.bucket_profile s.bucket

  record IsFlushed (done : List String) (s : Buckets) : Type 0 where
    order : flatten s.batches ≡ done
    good : All IsBatch s.batches
    emptied : s.bucket ≡ []

  chunks-IsBatch :
      (p : CurlProfile) (b : List String) → 1 ≤ n → All (Shares p) b → All IsBatch (chunks n b)
  chunks-IsBatch p b pos h =
      All-map (λ c. ((1 ≤ length c) × (length c ≤ n)) × All (Shares p) c) IsBatch
        (λ c x. record { some_domain = x.0.0; fits = x.0.1; uniform = inr (p, x.1) }) (chunks n b)
        (All-both (λ c. (1 ≤ length c) × (length c ≤ n)) (All (Shares p)) (chunks n b)
          (All-chunks n b pos) (All-in_chunks (Shares p) n b h))

  flush_parts :
      (done : List String) (batches : List (List String)) (bucket : List String)
      (op : Option CurlProfile)
      → 1 ≤ n
      → IsPartial done (record { batches = batches; bucket = bucket; bucket_profile = op })
      → IsFlushed done
          (flush n (record { batches = batches; bucket = bucket; bucket_profile = op }))
  unfolding flush
  flush_parts done batches [] op pos h = record {
    order = sym (append-nil (flatten batches)) ∙ h.order;
    good = h.good;
    emptied = refl;
  }
  flush_parts done batches (d ∷ ds) none pos h = cc (h.held)
  flush_parts done batches (d ∷ ds) (some p) pos h = record {
    order =
        flatten-append batches (chunks n (d ∷ ds))
        ∙ ap (λ t. flatten batches ++ t) (flatten-chunks n (d ∷ ds) pos)
        ∙ h.order;
    good =
        All-append IsBatch batches (chunks n (d ∷ ds)) h.good
          (chunks-IsBatch p (d ∷ ds) pos h.held);
    emptied = refl;
  }

  flush-IsFlushed :
      (done : List String) (s : Buckets) → 1 ≤ n → IsPartial done s → IsFlushed done (flush n s)
  flush-IsFlushed done s pos h = flush_parts done s.batches s.bucket s.bucket_profile pos h

  -- A new bucket after a flush.
  open_bucket :
      (done : List String) (s : Buckets) (d : String)
      → (curl_profile d protocol disable_ech).special ≡ false
      → IsFlushed done s
      → IsPartial (done ++ d ∷ []) (record s {
        bucket = d ∷ [];
        bucket_profile = some (curl_profile d protocol disable_ech);
      })
  open_bucket done s d plain h = record {
    order = ap (λ t. t ++ d ∷ []) h.order;
    good = h.good;
    held = ((refl, plain), tt);
  }

  single-IsBatch : (d : String) → 1 ≤ n → IsBatch (d ∷ [])
  single-IsBatch d pos = record {
    some_domain = omega arith;
    fits = pos;
    uniform = elim (Bool-cases (curl_profile d protocol disable_ech).special) [
      | inl special ↦ inl (d, refl, special)
      | inr plain ↦ inr (curl_profile d protocol disable_ech, ((refl, plain), tt))
    ];
  }

  -- A special domain after a flush.
  solo_batch :
      (done : List String) (s : Buckets) (d : String)
      → 1 ≤ n
      → (curl_profile d protocol disable_ech).special ≡ true
      → IsFlushed done s
      → IsPartial (done ++ d ∷ []) (record s { batches = s.batches ++ (d ∷ []) ∷ [] })
  solo_batch done s d pos special h = record {
    order =
        ap (λ t. flatten (s.batches ++ (d ∷ []) ∷ []) ++ t) h.emptied
        ∙ append-nil (flatten (s.batches ++ (d ∷ []) ∷ []))
        ∙ flatten-snoc s.batches (d ∷ [])
        ∙ ap (λ t. t ++ d ∷ []) h.order;
    good = All-append IsBatch s.batches ((d ∷ []) ∷ []) h.good (single-IsBatch d pos, tt);
    held = held_empty s.bucket_profile s.bucket h.emptied;
  }

  start-IsPartial : IsPartial [] (record { batches = []; bucket = []; bucket_profile = none })
  unfolding flatten
  start-IsPartial = record { order = refl; good = tt; held = refl }

  put-IsPartial :
      (done : List String) (s : Buckets) (d : String) (op : Option CurlProfile)
      → 1 ≤ n
      → (curl_profile d protocol disable_ech).special ≡ false
      → s.bucket_profile ≡ op
      → IsPartial done s
      → IsPartial (done ++ d ∷ []) (put n d (curl_profile d protocol disable_ech) s op)
  unfolding put
  put-IsPartial done s d none pos plain e h =
      let empty : s.bucket ≡ [] = subst (λ o. Held o s.bucket) e h.held in
      record {
        order =
            ap (λ t. t ++ d ∷ [])
              (sym (append-nil (flatten s.batches))
                ∙ ap (λ t. flatten s.batches ++ t) (sym empty)
                ∙ h.order);
        good = h.good;
        held = ((refl, plain), tt);
      }
  put-IsPartial done s d (some held) pos plain e h =
      elim (Bool-cases (profiles_compatible held (curl_profile d protocol disable_ech))) [
        | inr other ↦ rw other (open_bucket done (flush n s) d plain (flush-IsFlushed done s pos h))
        | inl same ↦
            let eq = profiles_compatible-eq held (curl_profile d protocol disable_ech) same in
            rw same (record {
              order =
                  sym (append_assoc (flatten s.batches) s.bucket (d ∷ []))
                  ∙ ap (λ t. t ++ d ∷ []) h.order;
              good = h.good;
              held =
                  subst (λ o. Held o (s.bucket ++ d ∷ [])) (sym e)
                    (All-append (Shares held) s.bucket (d ∷ [])
                      (subst (λ o. Held o s.bucket) e h.held)
                      ((sym eq, ap (λ (c : CurlProfile). c.special) eq ∙ plain), tt));
            })
      ]

  fanout_step-IsPartial :
      (done : List String) (s : Buckets) (d : String)
      → 1 ≤ n
      → IsPartial done s
      → IsPartial (done ++ d ∷ []) (fanout_step n protocol disable_ech s d)
  unfolding fanout_step
  fanout_step-IsPartial done s d pos h =
      if_split (IsPartial (done ++ d ∷ [])) (curl_profile d protocol disable_ech).special _ _
        (λ special. solo_batch done (flush n s) d pos special (flush-IsFlushed done s pos h))
        (λ plain. put-IsPartial done s d s.bucket_profile pos plain refl h)

  fanout_loop-IsPartial :
      (done : List String) (s : Buckets) (ds : List String)
      → 1 ≤ n
      → IsPartial done s
      → IsPartial (done ++ ds) (fanout_loop n protocol disable_ech s ds)
  unfolding fanout_loop
  fanout_loop-IsPartial done s [] pos h = rw (append-nil done) h
  fanout_loop-IsPartial done s (d ∷ ds) pos h = rw (append_assoc done (d ∷ []) ds) at (
      fanout_loop-IsPartial (done ++ d ∷ []) (fanout_step n protocol disable_ech s d) ds pos
        (fanout_step-IsPartial done s d pos h))

  singles :
      (ds : List String)
      → 1 ≤ n
      → (flatten (map (λ d. d ∷ []) ds) ≡ ds) × All IsBatch (map (λ d. d ∷ []) ds)
  unfolding flatten
  singles [] pos = (refl, tt)
  singles (d ∷ ds) pos =
      let (order, good) = singles ds pos in (ap (λ t. d ∷ t) order, (single-IsBatch d pos, good))

-- The batches in their order give the domains; each has its size and one profile.
abbrev pub IsPartition : List String → String → Bool → ℤ → Type 0
IsPartition domains protocol disable_ech curl_parallel =
    (flatten (fanout_batches domains protocol disable_ech curl_parallel) ≡ domains)
    × All (IsBatch (at_least 1 curl_parallel) protocol disable_ech)
        (fanout_batches domains protocol disable_ech curl_parallel)

-- For any number of parallel transfers, the batches are the domains in their order, cut into pieces
-- of at most that number, or of one where it is below 1; each piece is one special domain, or domains
-- that all have one curl profile, which is not special.
pub fanout_batches_lem :
    (domains : List String) (protocol : String) (disable_ech : Bool) (curl_parallel : ℤ)
    → IsPartition domains protocol disable_ech curl_parallel
unfolding fanout_batches
fanout_batches_lem domains protocol disable_ech curl_parallel =
    let n = at_least 1 curl_parallel in
    let pos : 1 ≤ n = at_least_lem 1 curl_parallel in
    let start : Buckets = record { batches = []; bucket = []; bucket_profile = none } in
    let h =
      flush-IsFlushed n protocol disable_ech domains
        (fanout_loop n protocol disable_ech start domains) pos
        (fanout_loop-IsPartial n protocol disable_ech [] start domains pos
          (start-IsPartial n protocol disable_ech)) in
    if_both {A = List (List String)}
      (λ bs. (flatten bs ≡ domains) × All (IsBatch n protocol disable_ech) bs) (eqb n 1)
      (map (λ d. d ∷ []) domains)
      (flush n (fanout_loop n protocol disable_ech start domains)).batches
      (singles n protocol disable_ech domains pos) (h.order, h.good)
