-- ===== src/Gc/Newest.antt =====
-- The debug logs of src/blockchecks/engine/gc.py: those over the number that is kept, and what
-- `prune_nfqws2_debug_logs` leaves.
use blockcheck_s.Prelude.{
  ℕ, zero, suc, ◌-◌, ◌≤◌, ◌<◌, Bool, true, false, ltb, string_eq, ◌==◌, ==_iff, List, [], ◌∷◌, leb,
  if◌then◌else◌, ◌≡◌, refl, arith, if_split,
}
use blockcheck_s.Prelude.Lists.{drop, length, length-drop, All, All-drop, All-map, All-both, weigh}
use blockcheck_s.Families.Sorting.{sorted, Ordered, sorted-Ordered, sorted-weigh}
use blockcheck_s.Gc.Files.{
  FilePath, is_protected, files_of, newer, newest_first, unlink_logs, prune_nfqws2_debug_logs,
}

-- 1 for a log that is at least as new as `p`.
unfoldable pub not_older : FilePath → FilePath → ℕ
not_older p q = if leb p.mtime q.mtime then 1 else 0

abbrev NotNewer : FilePath → FilePath → Type 0
NotNewer a b = b.mtime ≤ a.mtime

-- A file is at least as new as itself.
counts_itself : (ps : List FilePath) → All (λ p. 0 < weigh (not_older p) ps) ps
unfolding not_older
counts_itself [] = tt
counts_itself (p ∷ ps) = (
  ground arith,
  All-map (λ q. 0 < weigh (not_older q) ps) (λ q. 0 < weigh (not_older q) (p ∷ ps))
      (λ q h. omega (arith, h)) ps (counts_itself ps),
)

-- 1 for a file with the path of `p`.
unfoldable pub same_path : FilePath → FilePath → ℕ
same_path p q = if p.text == q.text then 1 else 0

-- Whether a listing has a file with the path of `p`.
unfoldable pub is_among : List FilePath → FilePath → Bool
is_among ps p = ltb 0 (weigh (same_path p) (files_of ps))

finds_itself : (ps : List FilePath) → All (λ p. 0 < weigh (same_path p) ps) ps
unfolding same_path
finds_itself [] = tt
finds_itself (p ∷ ps) = (
  ground (arith, ==_iff p.text p.text),
  All-map (λ q. 0 < weigh (same_path q) ps) (λ q. 0 < weigh (same_path q) (p ∷ ps))
      (λ q h. omega (arith, h)) ps (finds_itself ps),
)

pub is_among-files_of : (ps : List FilePath) → All (λ p. is_among ps p ≡ true) (files_of ps)
unfolding is_among
is_among-files_of ps =
    All-map (λ p. 0 < weigh (same_path p) (files_of ps)) (λ p. is_among ps p ≡ true)
      (λ p h. ground (arith, h)) (files_of ps) (finds_itself (files_of ps))

-- After the first `n` of a list with the newest first.
drop-Ordered :
    (n : ℕ) (ps : List FilePath)
    → Ordered NotNewer ps
    → All (λ p. n < weigh (not_older p) ps) (drop n ps)
unfolding not_older
drop-Ordered zero ps h = counts_itself ps
drop-Ordered (suc n) [] h = tt
drop-Ordered (suc n) (p ∷ ps) h =
    All-map (λ q. (q.mtime ≤ p.mtime) × (n < weigh (not_older q) ps))
      (λ q. suc n < weigh (not_older q) (p ∷ ps)) (λ q k. ground (arith, k)) (drop n ps)
      (All-both (NotNewer p) (λ q. n < weigh (not_older q) ps) (drop n ps)
        (All-drop (NotNewer p) n ps h.0) (drop-Ordered n ps h.1))

newest_first-Ordered : (ps : List FilePath) → Ordered NotNewer (newest_first ps)
newest_first-Ordered ps =
    sorted-Ordered newer NotNewer (λ a b h. ground (arith, h)) (λ a b h. ground (arith, h))
      (λ a b c h k. omega (arith, h, k)) (files_of ps)

pub is_among-newest_first :
    (n : ℕ) (ps : List FilePath) → All (λ p. is_among ps p ≡ true) (drop n (newest_first ps))
unfolding is_among
is_among-newest_first n ps =
    All-map (λ p. 0 < weigh (same_path p) (newest_first ps)) (λ p. is_among ps p ≡ true)
      (λ p h. ground (arith, h, sorted-weigh newer (same_path p) (files_of ps)))
      (drop n (newest_first ps))
      (All-drop (λ p. 0 < weigh (same_path p) (newest_first ps)) n (newest_first ps)
        (finds_itself (newest_first ps)))

-- Which logs of a listing stay after the first `keep` of the newest ones.
pub drop-newest_first :
    (keep : ℕ) (ps : List FilePath)
    → All (λ p. keep < weigh (not_older p) (files_of ps)) (drop keep (newest_first ps))
drop-newest_first keep ps =
    All-map (λ p. keep < weigh (not_older p) (newest_first ps))
      (λ p. keep < weigh (not_older p) (files_of ps))
      (λ p h. omega (arith, h, sorted-weigh newer (not_older p) (files_of ps)))
      (drop keep (newest_first ps)) (drop-Ordered keep (newest_first ps) (newest_first-Ordered ps))

weigh-one : (ps : List FilePath) → weigh (λ p. 1) ps ≡ length ps
weigh-one [] = refl
weigh-one (p ∷ ps) = omega (arith, weigh-one ps)

length-sorted : (ps : List FilePath) → length (sorted newer ps) ≡ length ps
length-sorted ps =
    omega (arith, weigh-one (sorted newer ps), weigh-one ps, sorted-weigh newer (λ p. 1) ps)

unlinked :
    (removes : FilePath → Bool) (P : FilePath → Type 0) (ps : List FilePath)
    → All P ps
    → All (λ p. (is_protected p ≡ false) × P p) (unlink_logs removes ps)
unfolding unlink_logs
unlinked removes P [] h = tt
unlinked removes P (p ∷ ps) h =
    let more = unlinked removes P ps h.1 in
    let Q : FilePath → Type 0 = λ q. (is_protected q ≡ false) × P q in
    if_split (All Q) (is_protected p) _ _ (λ e. more)
      (λ free. if_split (All Q) (removes p) _ _ (λ e. ((free, h.0), more)) (λ e. more))

unlinked_at_most :
    (removes : FilePath → Bool) (ps : List FilePath) → length (unlink_logs removes ps) ≤ length ps
unfolding unlink_logs
unlinked_at_most removes [] = omega arith
unlinked_at_most removes (p ∷ ps) = ground (arith, unlinked_at_most removes ps)

-- A debug log that is deleted is not protected and more than `keep` of the logs, itself among them,
-- are at least as new; and at most as many are deleted as there are logs over `keep`.
pub prune_nfqws2_debug_logs-keep :
    (removes : FilePath → Bool) (keep : ℕ) (listing : List FilePath)
    → All
        (λ p. (is_protected p ≡ false) × (keep < weigh (not_older p) (files_of listing)))
        (prune_nfqws2_debug_logs removes keep listing)
      × (length (prune_nfqws2_debug_logs removes keep listing) ≤ length (files_of listing) - keep)
unfolding prune_nfqws2_debug_logs
prune_nfqws2_debug_logs-keep removes keep listing =
    let files = files_of listing in
    let extra = drop keep (newest_first listing) in
    (
      unlinked removes (λ p. keep < weigh (not_older p) files) extra
          (drop-newest_first keep listing),
      omega (
        arith,
        unlinked_at_most removes extra,
        length-drop keep (newest_first listing),
        length-sorted files,
      ),
    )
