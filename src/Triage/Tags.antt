-- ===== src/Triage/Tags.antt =====
-- What src/blockchecks/engine/family_registry.py reads off a profile: tags, families and dead foolings.
use blockcheck_s.Prelude.{
  true, false, ◌||◌, String, Option, none, some, List, [], ◌∷◌, ◌++◌, string_eq, ◌==◌,
  if◌then◌else◌, ◌≡◌, refl, arith, if_both, ap,
}
use blockcheck_s.Prelude.Lists.{is_nil}
use blockcheck_s.Prelude.Text.{before}
use blockcheck_s.Prelude.Dict.{lookup, contains, add, Distinct, Distinct-snoc, contains-add}
use blockcheck_s.FailPhase.{tls_rst_at_sni}
use blockcheck_s.Families.{triage_to_families}
use blockcheck_s.Triage.{TriageProfile, is_phase, requires_window_clamp}

-- `dict.fromkeys`, where `seen` stands in front
unfoldable pub distinct_from : List String → List String → List String
distinct_from seen [] = seen
distinct_from seen (x ∷ xs) = distinct_from (add x seen) xs

abbrev pub default_families : List String
default_families = "fake" ∷ "hostfake" ∷ "fakedsplit" ∷ "multisplit" ∷ []

abbrev families_of_tag : String → List String
families_of_tag tag = elim (lookup tag triage_to_families) [ none ↦ [] | some fs ↦ fs ]

unfoldable pub families_of : List String → List String
families_of [] = []
families_of (tag ∷ tags) = families_of_tag tag ++ families_of tags

-- `_FOOLING_EQUIV.get(key, (key,))`
unfoldable pub same_fooling : String → List String
same_fooling key =
    if key == "tcp_seq" || key == "badsid" then "tcp_seq" ∷ "badsid" ∷ [] else key ∷ []

-- `_fooling_key`: the text before the first `=` and before the first `:`.
unfoldable pub fooling_key : String → String
fooling_key token = before 58 (before 61 token)

unfoldable pub dead_from : List String → List String
dead_from [] = []
dead_from (fool ∷ fools) = same_fooling (fooling_key fool) ++ dead_from fools

module _ {Other : Type 0} where
  -- `triage_tags`
  unfoldable pub triage_tags : TriageProfile Other → List String
  triage_tags p =
      (if requires_window_clamp p then "stall" ∷ [] else [])
      ++ (if p.silent_drop_after_sni then "silent_drop" ∷ [] else [])
      ++ (if p.rst_at_sni || is_phase p.handshake_phase tls_rst_at_sni
          then "rst_at_sni" ∷ []
          else [])
      ++ (if p.quic_drop then "quic_drop" ∷ [] else [])
      ++ (if p.udp_blocked then "udp_blocked" ∷ [] else [])

  -- `families_for_profile`
  unfoldable pub families_for_profile : Option (TriageProfile Other) → List String
  families_for_profile none = default_families
  families_for_profile (some p) =
      let families = distinct_from [] (families_of (triage_tags p)) in
      if is_nil families then default_families else families

  -- `dead_fooling_tokens`
  unfoldable pub dead_fooling_tokens : Option (TriageProfile Other) → List String
  dead_fooling_tokens none = []
  dead_fooling_tokens (some p) = distinct_from [] (dead_from p.dead_foolings)

distinct_from-Distinct : (seen xs : List String) → Distinct seen → Distinct (distinct_from seen xs)
unfolding distinct_from add
distinct_from-Distinct seen [] d = d
distinct_from-Distinct seen (x ∷ xs) d = distinct_from-Distinct (add x seen) xs (
    elim (contains seen x)
        as (λ b. contains seen x ≡ b → Distinct (if b then seen else seen ++ x ∷ [])) [
          | true ↦ λ e. d
          | false ↦ λ e. Distinct-snoc seen x e d
        ]
      refl)

pub contains-distinct_from :
    (seen xs : List String) (a : String)
    → contains (distinct_from seen xs) a ≡ (contains seen a || contains xs a)
unfolding distinct_from contains
contains-distinct_from seen [] a = ground arith
contains-distinct_from seen (x ∷ xs) a =
    ground (arith, contains-distinct_from (add x seen) xs a, contains-add x a seen)

-- The families for a profile are never none and stand once each; without a tag they are the default ones.
pub families_for_profile-Distinct :
    {Other : Type 0} (p : TriageProfile Other)
    → Distinct (families_for_profile (some p))
      × (is_nil (families_for_profile (some p)) ≡ false)
      × (triage_tags p ≡ []
          → families_for_profile (some p) ≡ families_for_profile {Other = Other} none)
unfolding families_for_profile distinct_from families_of contains
families_for_profile-Distinct p =
    let families = distinct_from [] (families_of (triage_tags p)) in
    (
      if_both Distinct (is_nil families) default_families families
          (refl, (refl, (refl, (refl, tt))))
          (distinct_from-Distinct [] (families_of (triage_tags p)) tt),
      some_left families,
      λ e.
          ap
            (λ (tags : List String).
              if is_nil (distinct_from [] (families_of tags))
              then default_families
              else distinct_from [] (families_of tags))
            e,
    )
  where
    some_left : (fs : List String) → is_nil (if is_nil fs then default_families else fs) ≡ false
    some_left [] = refl
    some_left (f ∷ fs) = refl
