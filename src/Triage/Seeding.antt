-- ===== src/Triage/Seeding.antt =====
-- `seed_from_triage` of `ScanWeights` in src/blockchecks/engine/adaptive_queue.py. Weights are in tenths.
use blockcheck_s.Prelude.{
  ℕ, String, Option, none, some, List, [], ◌∷◌, ◌++◌, min, string_eq, ◌==◌, if◌then◌else◌,
}
use blockcheck_s.Prelude.Text.{append, before}
use blockcheck_s.Prelude.Dict.{insert}
use blockcheck_s.Weights.{Table, ScanWeights, max_weight, get_or}
use blockcheck_s.Triage.{TriageProfile}
use blockcheck_s.Triage.Tags.{families_for_profile, dead_fooling_tokens}
use blockcheck_s.Triage.Blobs.{aliases_for_class}

-- `if k not in t: t[k] = min(seed, _MAX_WEIGHT)`, `else: t[k] = min(t[k], _MAX_WEIGHT)`
unfoldable pub seed_key : ℕ → Table → String → Table
seed_key seed t k = insert k (min (get_or t k seed) max_weight) t

unfoldable pub seed_keys : ℕ → Table → List String → Table
seed_keys seed t [] = t
seed_keys seed t (k ∷ ks) = seed_keys seed (seed_key seed t k) ks

-- `self.trait[f"fool:{tok}"] = 0.1`
unfoldable pub bury : Table → List String → Table
bury t [] = t
bury t (k ∷ ks) = bury (insert k 1 t) ks

-- `f"fool:{tok}"` of each
unfoldable pub fool_keys : List String → List String
fool_keys [] = []
fool_keys (tok ∷ toks) = append "fool:" tok ∷ fool_keys toks

-- `fool.split("=", 1)[0]` of each
unfoldable pub names_of : List String → List String
names_of [] = []
names_of (fool ∷ fools) = before 61 fool ∷ names_of fools

-- Each viable class of blobs, and its aliases.
unfoldable pub blob_keys : List String → List String
blob_keys [] = []
blob_keys (blob ∷ blobs) = (blob ∷ aliases_for_class blob) ++ blob_keys blobs

-- `_SPLIT_POS_TRAITS.get(mode, f"pos:{mode}")`, if there is a mode
unfoldable pub split_keys : String → List String
split_keys mode =
    if mode == ""
    then []
    else if mode == "first_byte"
    then "pos:1" ∷ []
    else if mode == "sni_marker"
    then "pos:sniext+1" ∷ []
    else if mode == "seqovl"
    then "fool:seqovl" ∷ []
    else append "pos:" mode ∷ []

unfoldable pub seed_traits : List String → List String → List String → Table → Table
seed_traits dead viable split t = seed_keys 4 (seed_keys 8 (bury t dead) viable) split

-- `seed_from_triage`
unfoldable pub seed_from_triage :
    {Other : Type 0} → ScanWeights → Option (TriageProfile Other) → ScanWeights
seed_from_triage w none = w
seed_from_triage w (some p) = record w {
  family = seed_keys 20 w.family (families_for_profile (some p));
  blob = seed_keys 5 w.blob (blob_keys p.viable_blobs);
  trait =
      seed_traits (fool_keys (dead_fooling_tokens (some p)))
        (fool_keys (names_of p.viable_foolings)) (split_keys p.split_mode) w.trait;
}
