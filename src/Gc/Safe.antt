-- ===== src/Gc/Safe.antt =====
-- What `collect_gc` of src/blockchecks/engine/gc.py plans to delete.
use blockcheck_s.Prelude.{
  ℕ, ◌+◌, ◌≤◌, Bool, true, false, ◌&&◌, ◌||◌, not, String, none, some, List, [], ◌∷◌, ◌++◌,
  string_eq, ==_iff, ◌==◌, if◌then◌else◌, ◌≡◌, arith, if_split, option_split,
}
use blockcheck_s.Prelude.Lists.{All, All-append, weigh, weigh-append}
use blockcheck_s.Prelude.Dict.{contains}
use blockcheck_s.Gc.Files.{
  Root, Disk, Places, GcItem, GcPlan, is_protected, Found, Collecting, add_found, add_all_found,
  all_found, collect_gc,
}
use blockcheck_s.Gc.Reasons.{may_go, MayGo, All-all_found}

-- Whether the item resolves to `asked`.
unfoldable pub is_at : String → GcItem → Bool
is_at asked item = elim item.path.resolved [ none ↦ false | some q ↦ q == asked ]

unfoldable pub one_if : Bool → ℕ
one_if b = if b then 1 else 0

unfoldable pub times : String → GcPlan → ℕ
times asked plan = weigh (λ item. one_if (is_at asked item)) (plan.deletes ++ plan.skipped)

abbrev pub IsThere : Bool → Disk → Places → ℕ → ℕ → List Root → GcItem → Type 0
IsThere kept disk places max_age keep roots item =
    (is_protected item.path ≡ kept)
    × ((item.path.is_file || item.path.is_dir) ≡ true)
    × (may_go disk places max_age keep roots item.path item.reason ≡ true)

-- What is deleted is there, is not protected and was found for a reason that fits; what is skipped is
-- there and protected; and no file stands in the plan twice.
abbrev pub IsSafe : Disk → Places → ℕ → ℕ → List Root → GcPlan → Type 0
IsSafe disk places max_age keep roots plan =
    All (IsThere false disk places max_age keep roots) plan.deletes
    × All (IsThere true disk places max_age keep roots) plan.skipped
    × ((asked : String) → times asked plan ≤ 1)

module _ (disk : Disk) (places : Places) (max_age keep : ℕ) (roots : List Root) where
  -- The plan so far, whose paths were all seen.
  abbrev IsCollected : Collecting → Type 0
  IsCollected s =
      All (IsThere false disk places max_age keep roots) s.plan.deletes
      × All (IsThere true disk places max_age keep roots) s.plan.skipped
      × ((asked : String) → times asked s.plan ≤ one_if (contains s.seen asked))

  times-append_deletes :
      (asked : String) (a b c : List GcItem)
      → times asked (record { deletes = a ++ b; skipped = c })
        ≡ weigh (λ item. one_if (is_at asked item)) b
          + times asked (record { deletes = a; skipped = c })
  unfolding times
  times-append_deletes asked a b c =
      let w = λ (item : GcItem). one_if (is_at asked item) in
      omega (arith, weigh-append w (a ++ b) c, weigh-append w a b, weigh-append w a c)

  times-append_skipped :
      (asked : String) (a b c : List GcItem)
      → times asked (record { deletes = a; skipped = b ++ c })
        ≡ weigh (λ item. one_if (is_at asked item)) c
          + times asked (record { deletes = a; skipped = b })
  unfolding times
  times-append_skipped asked a b c =
      let w = λ (item : GcItem). one_if (is_at asked item) in
      omega (arith, weigh-append w a (b ++ c), weigh-append w b c, weigh-append w a b)

  -- A path that was not seen is added, so that it is at most once in the plan.
  one_more :
      (asked q : String) (seen : List String) (item : GcItem) (n : ℕ)
      → item.path.resolved ≡ some q
      → contains seen q ≡ false
      → n ≤ one_if (contains seen asked)
      → weigh (λ i. one_if (is_at asked i)) (item ∷ []) + n ≤ one_if (contains (q ∷ seen) asked)
  unfolding one_if is_at contains
  one_more asked q seen item n e new h = ground (arith, ==_iff q asked, e, new, h)

  grown :
      (asked q : String) (seen : List String) (n : ℕ)
      → n ≤ one_if (contains seen asked)
      → n ≤ one_if (contains (q ∷ seen) asked)
  unfolding one_if contains
  grown asked q seen n h = ground arith

  add_found-IsCollected :
      (f : Found) (s : Collecting)
      → MayGo disk places max_age keep roots f
      → IsCollected s
      → IsCollected (add_found f false s)
  unfolding add_found
  add_found-IsCollected (p, reason) s ok (d, k, t) =
      option_split IsCollected p.resolved _ _ (λ e. (d, k, t))
        (λ q e.
          if_split IsCollected (contains s.seen q) _ _ (λ old. (d, k, t))
            (λ new.
              if_split IsCollected (not (p.is_file || p.is_dir)) _ _
                (λ gone. (d, k, λ asked. grown asked q s.seen _ (t asked)))
                (λ there.
                  let item : GcItem = record { path = p; bytes = p.bytes; reason = reason } in
                  if_split IsCollected (is_protected p && true) _ _
                    (λ kept. (
                      d,
                      All-append (IsThere true disk places max_age keep roots) s.plan.skipped
                          (item ∷ []) k ((ground (arith, kept), ground (arith, there), ok), tt),
                      λ asked. omega (
                        arith,
                        times-append_skipped asked s.plan.deletes s.plan.skipped (item ∷ []),
                        one_more asked q s.seen item (times asked s.plan) e new (t asked),
                      ),
                    ))
                    (λ free. (
                      All-append (IsThere false disk places max_age keep roots) s.plan.deletes
                          (item ∷ []) d ((ground (arith, free), ground (arith, there), ok), tt),
                      k,
                      λ asked. omega (
                        arith,
                        times-append_deletes asked s.plan.deletes (item ∷ []) s.plan.skipped,
                        one_more asked q s.seen item (times asked s.plan) e new (t asked),
                      ),
                    )))))

  add_all_found-IsCollected :
      (fs : List Found) (s : Collecting)
      → All (MayGo disk places max_age keep roots) fs
      → IsCollected s
      → IsCollected (add_all_found fs s)
  unfolding add_all_found
  add_all_found-IsCollected [] s h k = k
  add_all_found-IsCollected (f ∷ fs) s h k =
      add_all_found-IsCollected fs (add_found f false s) h.1 (add_found-IsCollected f s h.0 k)

-- The plan of the collection deletes only what is there and is not protected, each file at most once.
-- An item with the reason of a debug log is a log of a directory that is searched, of whose logs more
-- than `keep` are at least as new; one with that of a rotated event file is a rotated file of the
-- directory of the logs; each other is old enough, and is no staging directory while a run is live.
-- What the plan skips is there and protected, for the same reasons.
pub collect_gc-IsSafe :
    (disk : Disk) (places : Places) (max_age keep : ℕ) (roots : List Root)
    → IsSafe disk places max_age keep roots (collect_gc disk places max_age keep roots)
unfolding collect_gc one_if times
collect_gc-IsSafe disk places max_age keep roots =
    let fs = all_found disk places max_age keep roots in
    let start : Collecting = record { seen = []; plan = record { deletes = []; skipped = [] } } in
    let none_yet : (asked : String) → times asked start.plan ≤ one_if (contains [] asked) =
      λ asked. ground arith in
    let (d, k, t) =
      add_all_found-IsCollected disk places max_age keep roots fs start
        (All-all_found disk places max_age keep roots) (tt, tt, none_yet) in
    (d, k, λ asked. ground (arith, t asked))
