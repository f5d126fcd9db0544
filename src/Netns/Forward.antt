-- ===== src/Netns/Forward.antt =====
-- The commands and the count of namespaces of src/blockchecks/service/netns_pool.py.
use blockcheck_s.Prelude.{
  ℕ, suc, ◌-◌, Bool, true, false, String, Option, none, some, List, [], ◌∷◌, string_eq, ltb, ◌==◌,
  if◌then◌else◌, ◌≡◌, refl, ◌∙◌, arith, if_both, if_split, option_split,
}
use blockcheck_s.Prelude.Lists.{length}
use blockcheck_s.Netns.Shared.{
  CompletedProcess, Outside, Host, NetNsPool, sysctl, name_of, run, run_all,
  enable_ip_forward_locked, restore_ip_forward_if_idle, track_ns_created, track_ns_destroyed,
}
use blockcheck_s.Netns.Commands.{
  nat_rule, destroy_more, add_nat, and_then, create_commands, destroy_commands,
}

-- The value to restore and the count are as they were.
pub record Same (a b : Host) : Type 0 where
  pub restore : b.restore ≡ a.restore
  pub active : b.active ≡ a.active

Same-trans : (a b c : Host) → Same a b → Same b c → Same a c
Same-trans a b c h k = record { restore = k.restore ∙ h.restore; active = k.active ∙ h.active }

run_all-Same :
    (out : Outside) (check : Bool) (args : List (List String)) (h : Host)
    → Same h (run_all out check args h).0
unfolding run_all run
run_all-Same out check [] h = record { restore = refl; active = refl }
run_all-Same out check (args ∷ rest) h =
    let h' = (run out check args h).0 in
    option_split {B = Host × Bool} (λ x. Same h x.0) (run out check args h).1 _ _
      (λ e. record { restore = refl; active = refl })
      (λ r e.
        Same-trans h h' _ (record { restore = refl; active = refl })
          (run_all-Same out check rest h'))

and_then-Same :
    (h : Host) (x : Host × Bool) (next : Host → Host × Bool)
    → Same h x.0
    → ((a : Host) → Same a (next a).0)
    → Same h (and_then x next).0
unfolding and_then
and_then-Same h (a, ok) next s k =
    if_both {A = Host × Bool} (λ x. Same h x.0) ok _ _ (Same-trans h a _ s (k a)) s

run-Same :
    (out : Outside) (check : Bool) (args : List String) (h : Host) → Same h (run out check args h).0
unfolding run
run-Same out check args h = record { restore = refl; active = refl }

add_nat-Same : (out : Outside) (idx : ℕ) (h : Host) → Same h (add_nat out idx h).0
unfolding add_nat
add_nat-Same out idx h =
    let P : Host × Bool → Type 0 = λ x. Same h x.0 in
    let (h', chk) = run out false (nat_rule ("-C" ∷ "POSTROUTING" ∷ []) out idx) h in
    let s = run-Same out false (nat_rule ("-C" ∷ "POSTROUTING" ∷ []) out idx) h in
    let rule = nat_rule ("-I" ∷ "POSTROUTING" ∷ "1" ∷ []) out idx ∷ [] in
    option_split P chk (h', false)
      (λ (r : CompletedProcess). if r.succeeded then (h', true) else run_all out true rule h')
      (λ e. s)
      (λ r e.
        if_both P r.succeeded (h', true) (run_all out true rule h') s
          (Same-trans h h' _ s (run_all-Same out true rule h')))

pub create_commands-Same :
    (out : Outside) (pool : NetNsPool) (idx : ℕ) (h : Host)
    → Same h (create_commands out pool idx h).0
unfolding create_commands
create_commands-Same out pool idx h = and_then-Same h _ _ (run_all-Same out false _ h) (λ a.
    and_then-Same a _ _ (Same-trans a _ _ (run_all-Same out false _ a) (run_all-Same out true _ _))
      (λ b. and_then-Same b _ _ (run_all-Same out false _ b) (λ c.
        and_then-Same c _ _ (run_all-Same out true _ c) (λ d.
          and_then-Same d _ _ (run_all-Same out false _ d)
            (λ e. and_then-Same e _ _ (add_nat-Same out idx e) (λ f. run_all-Same out true _ f))))))

pub destroy_commands-Same :
    (out : Outside) (pool : NetNsPool) (idx : ℕ) (h : Host)
    → Same h (destroy_commands out pool idx h).0
unfolding destroy_commands
destroy_commands-Same out pool idx h =
    let P : Host × Option Bool → Type 0 = λ x. Same h x.0 in
    let delete = "ip" ∷ "netns" ∷ "delete" ∷ name_of pool idx ∷ [] in
    let (h', netns_rc) = run out false delete h in
    let s = run-Same out false delete h in
    let more = destroy_more out pool idx in
    let (h'', ok) = run_all out false more h' in
    let s' = Same-trans h h' h'' s (run_all-Same out false more h') in
    if_both P (out.raises (length h.commands) idx) (h, none) _
      (record { restore = refl; active = refl })
      (option_split P netns_rc (h', none)
        (λ (r : CompletedProcess). (h'', if ok then some r.succeeded else none)) (λ e. s)
        (λ r e. s'))

-- Without a namespace there is no value to restore.
abbrev pub IsIdle : Host → Type 0
IsIdle h = h.active ≡ 0 → h.restore ≡ none

enable_ip_forward_locked-active :
    (out : Outside) (h : Host) → (enable_ip_forward_locked out h).0.active ≡ h.active
unfolding enable_ip_forward_locked
enable_ip_forward_locked-active out h =
    let P : Host × Bool → Type 0 = λ x. x.0.active ≡ h.active in
    option_split {B = Host × Bool} P (out.ip_forward (length h.commands)) _ _ (λ e. refl)
      (λ current e.
        let fresh : Host = record h { restore = some current; marker = some current } in
        let saved : Host = elim h.restore [ none ↦ fresh | some v ↦ h ] in
        let kept : saved.active ≡ h.active =
          option_split {B = Host} (λ a. a.active ≡ h.active) h.restore fresh (λ v. h) (λ z. refl)
            (λ v z. refl) in
        if_both P (current == "1") (h, true) (run_all out false (sysctl "1" ∷ []) saved) refl
          ((run_all-Same out false (sysctl "1" ∷ []) saved).active ∙ kept))

-- `_track_ns_created` counts one more; if it raises, there was no namespace, and none is counted.
pub track_ns_created_lem :
    (out : Outside) (h : Host)
    → let x = track_ns_created out h in
      (x.1 ≡ true → x.0.active ≡ suc h.active) × (x.1 ≡ false → (h.active ≡ 0) × (x.0.active ≡ 0))
unfolding track_ns_created
track_ns_created_lem out h = ground (arith, enable_ip_forward_locked-active out h)

-- `_track_ns_destroyed` counts one less, if there is one, and leaves no value to restore behind.
pub track_ns_destroyed_lem :
    (out : Outside) (h : Host)
    → ((track_ns_destroyed out h).0.active ≡ h.active - 1) × IsIdle (track_ns_destroyed out h).0
unfolding track_ns_destroyed restore_ip_forward_if_idle
track_ns_destroyed_lem out h =
    let P : Host × Bool → Type 0 = λ x. (x.0.active ≡ h.active - 1) × IsIdle x.0 in
    if_split P (ltb 0 (h.active - 1)) _ _
      (λ some_left. (refl, λ z. absurd (ground (arith, some_left, z))))
      (λ last.
        option_split {B = Host × Bool} P h.restore _ _ (λ e. (refl, λ z. e))
          (λ v e.
            let s = run_all-Same out false _ (record h { active = h.active - 1; restore = none }) in
            if_both {A = Host} (λ x. (x.active ≡ h.active - 1) × IsIdle x) _ _ _
              (s.active, λ z. s.restore) (s.active, λ z. s.restore)))
