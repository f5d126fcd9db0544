-- ===== src/Quarantine/Denylist.antt =====
-- `append_denylist` and `quarantine_from_args` of src/blockchecks/engine/domain_quarantine.py. The file
-- is its text, `none` if there is none; that it cannot be read or written is left out.
use Prim.Native.Char.{code}
use blockcheck_s.Prelude.{
  Bool, true, ◌||◌, String, Option, none, some, List, [], ◌∷◌, string_eq, eqb, ◌==◌, if◌then◌else◌,
}
use blockcheck_s.Prelude.Int.{ℤ}
use blockcheck_s.Prelude.Text.{append, before, strip, lower, show}
use blockcheck_s.Prelude.Dict.{contains}
use blockcheck_s.Quarantine.{
  Entry, Reason, no_pass, dns_failures, QuarantineConfig, clamp_quarantine_min,
  default_min_attempts, default_dns_resolve_min,
}

-- The lines of a text: the first one, which may lack its end, and those after it.
unfoldable pub lines_of : String → String × List String
lines_of String.[] = ("", [])
lines_of (String.◌∷◌ c s) =
    let (line, rest) = lines_of s in
    if eqb (code c) 10 then ("", line ∷ rest) else (String.◌∷◌ c line, rest)

-- `line.split("#", 1)[0].strip().lower()`
abbrev pub token_of : String → String
token_of line = lower (strip (before 35 line))

unfoldable pub tokens : List String → List String
tokens [] = []
tokens (line ∷ rest) =
    let more = tokens rest in if token_of line == "" then more else token_of line ∷ more

-- The entries of a denylist.
unfoldable pub denied : Option String → List String
denied none = []
denied (some text) = let (line, rest) = lines_of text in tokens (line ∷ rest)

abbrev pub reason_text : Reason → String
reason_text (no_pass n) = append "0 PASS in " (append (show n) " attempts")
reason_text (dns_failures n) = append (show n) " dns_resolve failures (no pin)"

abbrev pub denylist_line : String → Entry → String
denylist_line dom e = append dom (
    append "  # auto-quarantine " (append e.ts (append " (" (append (reason_text e.reason) ")\n"))))

-- The loop over the entries: the text that it writes, and the domains.
unfoldable pub write_entries : List String → List Entry → String × List String
write_entries existing [] = ("", [])
write_entries existing (e ∷ rest) =
    let dom = lower (strip e.domain) in
    let skipped = write_entries existing rest in
    let (text, written) = write_entries (dom ∷ existing) rest in
    if dom == "" || contains existing dom
    then skipped
    else (append (denylist_line dom e) text, dom ∷ written)

-- `append_denylist`: the file after it, and what was written.
unfoldable pub append_denylist : Option String → List Entry → String × List String
append_denylist file entries =
    let (text, written) = write_entries (denied file) entries in
    let old : String = elim file [ none ↦ "" | some s ↦ s ] in (append old text, written)

-- The arguments that are read, of any type that `int()` takes.
pub record CampaignArgs (V : Type 0) : Type 0 where
  pub no_quarantine : Bool
  pub quarantine_min : Option V
  pub dns_resolve_quarantine_min : Option V
  pub quarantine_auto_denylist : Bool

unfoldable pub quarantine_from_args :
    {V : Type 0} → (V → Option ℤ) → CampaignArgs V → Option QuarantineConfig
quarantine_from_args to_int args =
    if args.no_quarantine
    then none
    else some (record {
      enabled = true;
      min_attempts = clamp_quarantine_min to_int args.quarantine_min default_min_attempts;
      dns_resolve_min_attempts =
          clamp_quarantine_min to_int args.dns_resolve_quarantine_min default_dns_resolve_min;
      auto_denylist = args.quarantine_auto_denylist;
    })
