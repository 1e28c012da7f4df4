-- ===== src/Reducer/Evidence.antt =====
-- core/reducer.py: evidence references, their normal form and the ones that a state knows.
use Prim.Native.Char.{Char, code}
use Prim.Native.String.{◌++◌}
use mathlib.Core.List.{◌++◌ as append}
use codepilot_stable.Base.{
  String, Bool, ◌||◌, not, Option, none, some, List, [], ◌∷◌, map, filter, contains, from_keys,
  str_eq, ◌==◌, if◌then◌else◌,
}
use codepilot_stable.Text.{is_empty, strip, join}
use codepilot_stable.Text.Prefix.{drop_lower_prefix}
use codepilot_stable.State.{CoreState, FailureRecord}

-- `replace("\\", "/")` makes both characters the separator.
abbrev pub is_separator : Char → Bool
is_separator c = code c == 47 || code c == 92

-- the part in front of the first separator and the parts behind it, as `split("/")` cuts
unfoldable pub cut : String → String × List String
cut String.[] = ("", [])
cut (String.◌∷◌ c s) =
    let (part, parts) = cut s in
    if is_separator c then ("", part ∷ parts) else (String.◌∷◌ c part, parts)

-- The parts of a path that are neither empty nor `.`; leading separators give empty parts.
unfoldable pub path_parts : String → List String
unfolding cut
path_parts path =
    let (part, parts) = cut path in filter (λ p. not (is_empty p || str_eq p ".")) (part ∷ parts)

-- `_normalize_evidence_ref`
unfoldable pub normalize_evidence_ref : String → String
unfolding path_parts
normalize_evidence_ref ref =
    let value = strip ref in
    elim (drop_lower_prefix "workspace:" value) [
      | none ↦ value
      | some path ↦
          if contains ".." (path_parts path)
          then value
          else "workspace:///" ++ join "/" (path_parts path)
    ]

-- `_normalize_evidence_refs`
unfoldable pub normalize_evidence_refs : List String → List String
normalize_evidence_refs refs = from_keys (map normalize_evidence_ref refs)

-- `_workspace_evidence_ref`
unfoldable pub workspace_evidence_ref : String → String
workspace_evidence_ref path = normalize_evidence_ref ("workspace:///" ++ path)

abbrev pub failure_refs : Option FailureRecord → List String
failure_refs none = []
failure_refs (some failure) = failure.evidence_refs

-- `_known_evidence`: the members of the set
unfoldable pub known_evidence : CoreState → List String
known_evidence s = map normalize_evidence_ref (
    append s.facts.observation_ledger.applied_observation_ids (
      append s.facts.loop_guards.seen_tool_call_ids (
        append s.facts.workspace.evidence_refs (
          append (map workspace_evidence_ref s.facts.workspace.affected_paths)
            (append s.facts.verification.evidence_refs (failure_refs s.facts.failures.latest))))))

-- `tuple(ref for ref in refs if ref in known)`
unfoldable pub keep_known : List String → List String → List String
keep_known known refs = filter (λ ref. contains ref known) refs
