-- ===== src/Gc/Files.antt =====
-- `collect_gc`, `apply_gc` and `prune_nfqws2_debug_logs` of src/blockchecks/engine/gc.py. The listings and
-- what `stat` says are arguments; a file does not vanish between its listing and its `stat`. An age of at
-- most 0 days is 0 seconds; `keep` is what `max(0, int(keep))` gives.
use blockcheck_s.Prelude.{
  ℕ, zero, suc, ◌+◌, Bool, true, false, ◌&&◌, ◌||◌, not, String, Option, none, some, List, [], ◌∷◌,
  ◌++◌, map, string_eq, ltb, leb, eqb, ◌==◌, if◌then◌else◌,
}
use blockcheck_s.Prelude.Text.{append, contains_text, ends_with}
use blockcheck_s.Prelude.Lists.{drop, length}
use blockcheck_s.Prelude.Dict.{contains}
use blockcheck_s.Families.Sorting.{sorted}

pub record FilePath : Type 0 where
  pub text : String
  pub name : String
  -- `none` where `resolve` raises
  pub resolved : Option String
  pub mtime : ℕ
  pub bytes : ℕ
  pub is_file : Bool
  pub is_dir : Bool

-- A directory that is searched: its path, and the last part of that.
pub record Root : Type 0 where
  pub at : String
  pub name : String

-- The disk. `glob` and `rglob` list the matches of a pattern in a directory.
pub record Disk : Type 0 where
  pub now : ℕ
  pub is_dir : String → Bool
  pub glob : String → String → List FilePath
  pub rglob : String → String → List FilePath
  -- whether run.lock is a file
  pub live_run : Bool

-- Where things are: `CACHE_DIR`, `RUNTIME_LOGS_DIR`, `STATE_DIR`, `DATA_DIR`.
pub record Places : Type 0 where
  pub cache : Root
  pub logs : Root
  pub state : Root
  pub data_dir : Root

pub record GcItem : Type 0 where
  pub path : FilePath
  pub bytes : ℕ
  pub reason : String

pub record GcPlan : Type 0 where
  pub deletes : List GcItem
  pub skipped : List GcItem

abbrev pub is_protected : FilePath → Bool
is_protected p = contains_text p.text "week_cov"

unfoldable pub age_ok : Disk → ℕ → FilePath → Bool
age_ok disk max_age p = if eqb max_age 0 then true else leb (p.mtime + max_age) disk.now

-- The files of a listing, the newest first.
unfoldable pub files_of : List FilePath → List FilePath
files_of [] = []
files_of (p ∷ ps) = let more = files_of ps in if p.is_file then p ∷ more else more

abbrev pub newer : FilePath → FilePath → Bool
newer a b = ltb b.mtime a.mtime

abbrev pub newest_first : List FilePath → List FilePath
newest_first ps = sorted newer (files_of ps)

-- What a scan calls `add` for: a path and the reason.
abbrev pub Found : Type 0
Found = FilePath × String

-- The loops `for p in …: if … and _age_ok(p, …): add(p, reason)`, of files and of directories.
unfoldable pub old_files : Disk → ℕ → String → List FilePath → List Found
old_files disk max_age reason [] = []
old_files disk max_age reason (p ∷ ps) =
    let more = old_files disk max_age reason ps in
    if p.is_file && age_ok disk max_age p then (p, reason) ∷ more else more

unfoldable pub old_dirs : Disk → ℕ → String → List FilePath → List Found
old_dirs disk max_age reason [] = []
old_dirs disk max_age reason (p ∷ ps) =
    let more = old_dirs disk max_age reason ps in
    if p.is_dir && age_ok disk max_age p then (p, reason) ∷ more else more

abbrev pub with_reason : String → List FilePath → List Found
with_reason reason ps = map {B = Found} (λ p. (p, reason)) ps

-- `_scan_log_root`
unfoldable pub scan_log_root : Disk → ℕ → ℕ → Root → List Found
scan_log_root disk max_age keep root =
    let harvest = if root.name == "harvest" then root.at else append root.at "/harvest" in
    let found =
      with_reason "nfqws2_log_over_keep"
        (drop keep (newest_first (disk.glob root.at "nfqws2_*.log")))
      ++ old_files disk max_age "run_summary_age" (disk.glob root.at "run_summary_*.json")
      ++ (if disk.is_dir harvest
          then old_dirs disk max_age "harvest_dir_age" (disk.glob harvest "harvest_*")
          else [])
      ++ old_files disk max_age "export_conf_age" (disk.glob root.at "nfqws2_*_*.conf") in
    if disk.is_dir root.at then found else []

abbrev pub tmp_nfqws2_globs : List String
tmp_nfqws2_globs = "bs_nfq_*.conf" ∷ "bs_hostlist_*" ∷ "bs_nfqws2_*.conf" ∷ "bs_discover_udp_*" ∷ []

-- The matches of some patterns in a directory.
unfoldable pub globs : Disk → String → List String → List FilePath
globs disk dir [] = []
globs disk dir (pattern ∷ rest) = disk.glob dir pattern ++ globs disk dir rest

-- `_scan_tmp_nfqws2_artifacts`
unfoldable pub scan_tmp_nfqws2_artifacts : Disk → ℕ → List Found
scan_tmp_nfqws2_artifacts disk max_age =
    if disk.is_dir "/tmp"
    then old_files disk max_age "tmp_nfqws2_artifact" (globs disk "/tmp" tmp_nfqws2_globs)
    else []

-- `_scan_shm_staging`
unfoldable pub scan_shm_staging : Disk → ℕ → List Found
scan_shm_staging disk max_age =
    if disk.live_run || not (disk.is_dir "/dev/shm/blockchecks")
    then []
    else old_dirs disk max_age "shm_staging_age" (disk.rglob "/dev/shm/blockchecks" ".staging.*")

-- `_scan_jsonl_old`, of files of any age
unfoldable pub scan_jsonl_old : Disk → Root → List Found
scan_jsonl_old disk logs =
    if disk.is_dir logs.at
    then with_reason "events_live_old" (files_of (disk.glob logs.at "*.jsonl.old"))
    else []

abbrev pub wal_reason : Found → Found
wal_reason (p, reason) = (p, if ends_with p.name "-wal" then "sqlite_wal" else "sqlite_shm")

-- `_scan_sqlite_wal_shm`
unfoldable pub scan_sqlite_wal_shm : Disk → ℕ → List Root → List Found
scan_sqlite_wal_shm disk max_age [] = []
scan_sqlite_wal_shm disk max_age (root ∷ rest) =
    let paths = globs disk root.at ("*.db-wal" ∷ "*.db-shm" ∷ "*-wal" ∷ "*-shm" ∷ []) in
    let found = map {B = Found} wal_reason (old_files disk max_age "" paths) in
    let more = scan_sqlite_wal_shm disk max_age rest in
    if disk.is_dir root.at then found ++ more else more

-- The old downloads, but the newest one, and the old caches.
unfoldable pub scan_cache : Disk → ℕ → Root → List Found
scan_cache disk max_age cache =
    let dl = append cache.at "/zapret2-dl" in
    (if disk.is_dir dl
      then old_files disk max_age "zapret2_dl_old" (drop 1 (newest_first (disk.glob dl "*.tar.gz")))
      else [])
    ++ old_files disk max_age "voice_cache_old" (disk.glob cache.at "bs_voice_cache_old_*")

-- `dict.fromkeys`, by the path
unfoldable pub without : String → List Root → List Root
without at [] = []
without at (root ∷ rest) = let more = without at rest in if root.at == at then more else root ∷ more

unfoldable pub distinct_roots : ℕ → List Root → List Root
distinct_roots f [] = []
distinct_roots zero (root ∷ rest) = []
distinct_roots (suc f) (root ∷ rest) = root ∷ distinct_roots f (without root.at rest)

-- The plan with the resolved paths that were seen.
pub record Collecting : Type 0 where
  pub seen : List String
  pub plan : GcPlan

-- `_add`
unfoldable pub add_found : Found → Bool → Collecting → Collecting
add_found (path, reason) force s = elim path.resolved [
  | none ↦ s
  | some resolved ↦
      let seen : Collecting = record s { seen = resolved ∷ s.seen } in
      let item : GcItem = record { path = path; bytes = path.bytes; reason = reason } in
      if contains s.seen resolved
      then s
      else if not (path.is_file || path.is_dir)
      then seen
      else if is_protected path && not force
      then record seen { plan = record s.plan { skipped = s.plan.skipped ++ item ∷ [] } }
      else record seen { plan = record s.plan { deletes = s.plan.deletes ++ item ∷ [] } }
]

unfoldable pub add_all_found : List Found → Collecting → Collecting
add_all_found [] s = s
add_all_found (f ∷ fs) s = add_all_found fs (add_found f false s)

unfoldable pub log_roots : Disk → ℕ → ℕ → List Root → List Found
log_roots disk max_age keep [] = []
log_roots disk max_age keep (root ∷ rest) =
    scan_log_root disk max_age keep root ++ log_roots disk max_age keep rest

-- All that `collect_gc` adds, in turn.
unfoldable pub all_found : Disk → Places → ℕ → ℕ → List Root → List Found
all_found disk places max_age keep search =
    let roots = places.state ∷ places.data_dir ∷ search in
    log_roots disk max_age keep search
    ++ scan_cache disk max_age places.cache
    ++ scan_tmp_nfqws2_artifacts disk max_age
    ++ scan_shm_staging disk max_age
    ++ scan_jsonl_old disk places.logs
    ++ scan_sqlite_wal_shm disk max_age (distinct_roots (length roots) roots)

-- `collect_gc`
unfoldable pub collect_gc : Disk → Places → ℕ → ℕ → List Root → GcPlan
collect_gc disk places max_age keep search =
    (add_all_found (all_found disk places max_age keep search)
      (record { seen = []; plan = record { deletes = []; skipped = [] } })).plan

-- The loop of `apply_gc`: `removes` says of a path whether its removal succeeds. What is gone.
unfoldable pub remove_items : (FilePath → Bool) → List GcItem → List GcItem
remove_items removes [] = []
remove_items removes (item ∷ rest) =
    let more = remove_items removes rest in if removes item.path then item ∷ more else more

unfoldable pub apply_gc : (FilePath → Bool) → GcPlan → Bool → List GcItem
apply_gc removes plan dry_run = if dry_run then [] else remove_items removes plan.deletes

-- The loop of `prune_nfqws2_debug_logs`.
unfoldable pub unlink_logs : (FilePath → Bool) → List FilePath → List FilePath
unlink_logs removes [] = []
unlink_logs removes (p ∷ rest) =
    let more = unlink_logs removes rest in
    if is_protected p then more else if removes p then p ∷ more else more

-- `prune_nfqws2_debug_logs` of the listing of a directory: what is deleted.
unfoldable pub prune_nfqws2_debug_logs : (FilePath → Bool) → ℕ → List FilePath → List FilePath
prune_nfqws2_debug_logs removes keep listing =
    unlink_logs removes (drop keep (newest_first listing))
