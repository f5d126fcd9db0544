-- ===== src/Gc/Reasons.antt =====
-- Why `collect_gc` of src/blockchecks/engine/gc.py finds a path.
use blockcheck_s.Prelude.{
  ℕ, ◌<◌, ltb, Bool, true, false, ◌&&◌, ◌||◌, not, String, List, [], ◌∷◌, ◌++◌, map, string_eq,
  ◌==◌, if◌then◌else◌, ◌≡◌, arith, if_both, if_split,
}
use blockcheck_s.Prelude.Lists.{drop, length, All, All-append, All-map, All-both, weigh}
use blockcheck_s.Prelude.Text.{append, ends_with}
use blockcheck_s.Gc.Files.{
  FilePath, Root, Disk, Places, age_ok, files_of, newest_first, Found, old_files, old_dirs,
  with_reason, scan_log_root, globs, tmp_nfqws2_globs, scan_tmp_nfqws2_artifacts, scan_shm_staging,
  scan_jsonl_old, wal_reason, scan_sqlite_wal_shm, scan_cache, distinct_roots, log_roots, all_found,
}
use blockcheck_s.Gc.Newest.{
  not_older, is_among, is_among-files_of, is_among-newest_first, drop-newest_first,
}

-- Whether a path is a debug log of one of the directories that are searched, of whose logs more than
-- `keep` are at least as new.
unfoldable pub is_over_keep : Disk → ℕ → List Root → FilePath → Bool
is_over_keep disk keep [] p = false
is_over_keep disk keep (root ∷ rest) p =
    let logs = disk.glob root.at "nfqws2_*.log" in
    (disk.is_dir root.at && is_among logs p && ltb keep (weigh (not_older p) (files_of logs)))
    || is_over_keep disk keep rest p

-- Whether a reason holds of a path: a debug log is over the number that is kept, a rotated event file is
-- one of the directory of the logs, and all else is old, and no staging directory while a run is live.
unfoldable pub may_go : Disk → Places → ℕ → ℕ → List Root → FilePath → String → Bool
may_go disk places max_age keep roots p reason =
    if reason == "nfqws2_log_over_keep"
    then is_over_keep disk keep roots p
    else if reason == "events_live_old"
    then is_among (disk.glob places.logs.at "*.jsonl.old") p
    else age_ok disk max_age p && not (disk.live_run && reason == "shm_staging_age")

-- Whether a reason is one for what is old.
unfoldable by_age : Disk → String → Bool
by_age disk reason = not (
    reason == "nfqws2_log_over_keep"
    || reason == "events_live_old"
    || (disk.live_run && reason == "shm_staging_age"))

module _ (disk : Disk) (places : Places) (max_age keep : ℕ) (roots : List Root) where
  abbrev pub MayGo : Found → Type 0
  MayGo f = may_go disk places max_age keep roots f.0 f.1 ≡ true

  -- The predicate on lists, which does not compute: lists are told apart by how they are made.
  unfoldable AllGo : List Found → Type 0
  AllGo fs = All MayGo fs

  AllGo-nil : AllGo []
  unfolding AllGo
  AllGo-nil = tt

  AllGo-append : (xs ys : List Found) → AllGo xs → AllGo ys → AllGo (xs ++ ys)
  unfolding AllGo
  AllGo-append xs ys h k = All-append MayGo xs ys h k

  AllGo-old_files :
      (reason : String) (ps : List FilePath)
      → by_age disk reason ≡ true
      → AllGo (old_files disk max_age reason ps)
  unfolding AllGo old_files may_go by_age
  AllGo-old_files reason [] h = tt
  AllGo-old_files reason (p ∷ ps) h =
      if_split AllGo (p.is_file && age_ok disk max_age p) _ _
        (λ e. (ground (arith, e, h), AllGo-old_files reason ps h))
        (λ e. AllGo-old_files reason ps h)

  AllGo-old_dirs :
      (reason : String) (ps : List FilePath)
      → by_age disk reason ≡ true
      → AllGo (old_dirs disk max_age reason ps)
  unfolding AllGo old_dirs may_go by_age
  AllGo-old_dirs reason [] h = tt
  AllGo-old_dirs reason (p ∷ ps) h =
      if_split AllGo (p.is_dir && age_ok disk max_age p) _ _
        (λ e. (ground (arith, e, h), AllGo-old_dirs reason ps h)) (λ e. AllGo-old_dirs reason ps h)

  AllGo-with_reason :
      (reason : String) (ps : List FilePath)
      → All (λ p. may_go disk places max_age keep roots p reason ≡ true) ps
      → AllGo (with_reason reason ps)
  unfolding AllGo
  AllGo-with_reason reason [] h = tt
  AllGo-with_reason reason (p ∷ ps) h = (h.0, AllGo-with_reason reason ps h.1)

  -- The logs over the number that is kept, of one of the directories.
  AllGo-over_keep :
      (root : Root)
      → disk.is_dir root.at ≡ true
      → ((p : FilePath)
          → is_over_keep disk keep (root ∷ []) p ≡ true
          → is_over_keep disk keep roots p ≡ true)
      → AllGo (
          with_reason "nfqws2_log_over_keep"
            (drop keep (newest_first (disk.glob root.at "nfqws2_*.log"))))
  unfolding may_go is_over_keep
  AllGo-over_keep root there up =
      let logs = disk.glob root.at "nfqws2_*.log" in
      AllGo-with_reason "nfqws2_log_over_keep" (drop keep (newest_first logs)) (
        All-map (λ p. (is_among logs p ≡ true) × (keep < weigh (not_older p) (files_of logs)))
          (λ p. may_go disk places max_age keep roots p "nfqws2_log_over_keep" ≡ true)
          (λ p h. ground (arith, up p (ground (arith, there, h)))) (drop keep (newest_first logs))
          (All-both (λ p. is_among logs p ≡ true) (λ p. keep < weigh (not_older p) (files_of logs))
            (drop keep (newest_first logs)) (is_among-newest_first keep logs)
            (drop-newest_first keep logs)))

  wal_age : (p : FilePath) → age_ok disk max_age p ≡ true → MayGo (wal_reason (p, ""))
  unfolding may_go
  wal_age p h =
      if_both (λ r. may_go disk places max_age keep roots p r ≡ true) (ends_with p.name "-wal")
        "sqlite_wal" "sqlite_shm" (ground arith) (ground arith)

  AllGo-wal_reason :
      (ps : List FilePath) → AllGo (map {B = Found} wal_reason (old_files disk max_age "" ps))
  unfolding AllGo old_files may_go by_age
  AllGo-wal_reason [] = tt
  AllGo-wal_reason (p ∷ ps) =
      if_split (λ (fs : List Found). AllGo (map {B = Found} wal_reason fs))
        (p.is_file && age_ok disk max_age p) _ _
        (λ e. (wal_age p (ground (arith, e)), AllGo-wal_reason ps)) (λ e. AllGo-wal_reason ps)

  AllGo-scan_log_root :
      (root : Root)
      → ((p : FilePath)
          → is_over_keep disk keep (root ∷ []) p ≡ true
          → is_over_keep disk keep roots p ≡ true)
      → AllGo (scan_log_root disk max_age keep root)
  unfolding scan_log_root by_age
  AllGo-scan_log_root root up =
      let harvest = if root.name == "harvest" then root.at else append root.at "/harvest" in
      let summaries =
        AllGo-old_files "run_summary_age" (disk.glob root.at "run_summary_*.json") (ground arith) in
      let dirs = AllGo-old_dirs "harvest_dir_age" (disk.glob harvest "harvest_*") (ground arith) in
      let confs =
        AllGo-old_files "export_conf_age" (disk.glob root.at "nfqws2_*_*.conf") (ground arith) in
      if_split AllGo (disk.is_dir root.at) _ []
        (λ there.
          AllGo-append _ _
            (AllGo-append _ _ (AllGo-append _ _ (AllGo-over_keep root there up) summaries)
              (if_both AllGo (disk.is_dir harvest) _ [] dirs AllGo-nil))
            confs)
        (λ gone. AllGo-nil)

  AllGo-scan_cache : (cache : Root) → AllGo (scan_cache disk max_age cache)
  unfolding scan_cache by_age
  AllGo-scan_cache cache =
      AllGo-append _ _
        (if_both AllGo (disk.is_dir _) _ _ (AllGo-old_files "zapret2_dl_old" _ (ground arith))
          AllGo-nil)
        (AllGo-old_files "voice_cache_old" _ (ground arith))

  AllGo-scan_shm_staging : AllGo (scan_shm_staging disk max_age)
  unfolding scan_shm_staging by_age
  AllGo-scan_shm_staging =
      if_split AllGo (disk.live_run || not (disk.is_dir "/dev/shm/blockchecks")) _ _
        (λ e. AllGo-nil) (λ e. AllGo-old_dirs "shm_staging_age" _ (ground (arith, e)))

  AllGo-scan_sqlite_wal_shm : (rs : List Root) → AllGo (scan_sqlite_wal_shm disk max_age rs)
  unfolding scan_sqlite_wal_shm
  AllGo-scan_sqlite_wal_shm [] = AllGo-nil
  AllGo-scan_sqlite_wal_shm (root ∷ rest) =
      if_both AllGo (disk.is_dir root.at) _ _
        (AllGo-append _ _ (AllGo-wal_reason _) (AllGo-scan_sqlite_wal_shm rest))
        (AllGo-scan_sqlite_wal_shm rest)

  AllGo-log_roots :
      (rs : List Root)
      → ((p : FilePath)
          → is_over_keep disk keep rs p ≡ true
          → is_over_keep disk keep roots p ≡ true)
      → AllGo (log_roots disk max_age keep rs)
  unfolding log_roots is_over_keep
  AllGo-log_roots [] up = AllGo-nil
  AllGo-log_roots (root ∷ rest) up =
      AllGo-append _ _ (AllGo-scan_log_root root (λ p h. up p (ground (arith, h))))
        (AllGo-log_roots rest (λ p h. up p (ground (arith, h))))

  AllGo-all_found : AllGo (all_found disk places max_age keep roots)
  unfolding all_found scan_tmp_nfqws2_artifacts scan_jsonl_old by_age may_go
  AllGo-all_found =
      let shared = globs disk "/tmp" tmp_nfqws2_globs in
      let artifacts =
        if_both AllGo (disk.is_dir "/tmp") _ []
          (AllGo-old_files "tmp_nfqws2_artifact" shared (ground arith)) AllGo-nil in
      let events = disk.glob places.logs.at "*.jsonl.old" in
      let old_events =
        if_both AllGo (disk.is_dir places.logs.at) _ []
          (AllGo-with_reason "events_live_old" (files_of events) (is_among-files_of events))
          AllGo-nil in
      let wal = places.state ∷ places.data_dir ∷ roots in
      AllGo-append _ _
        (AllGo-append _ _
          (AllGo-append _ _
            (AllGo-append _ _
              (AllGo-append _ _ (AllGo-log_roots roots (λ p h. h)) (AllGo-scan_cache places.cache))
              artifacts)
            AllGo-scan_shm_staging)
          old_events)
        (AllGo-scan_sqlite_wal_shm (distinct_roots (length wal) wal))

  pub All-all_found : All MayGo (all_found disk places max_age keep roots)
  unfolding AllGo
  All-all_found = AllGo-all_found
