-- ===== src/Workflow/Ident.antt =====
-- internal/workflow/ids.go: identifiers, and `strings.TrimSpace` by which they are judged.
use mathlib.Core.List.{reverse}
use harness_loop_agent.Base.{
  ℕ, String, Bool, not, List, [], ◌∷◌, is_empty, if◌then◌else◌, Result, reject_if,
}
use harness_loop_agent.Base.Text.{codes, is_space}
use harness_loop_agent.Workflow.Errors.{Error, contract_error}

unfoldable pub trim_left : List ℕ → List ℕ
unfolding is_space
trim_left [] = []
trim_left (c ∷ cs) = let rest = trim_left cs in if is_space c then rest else c ∷ cs

-- `strings.TrimSpace`
unfoldable pub trim_space : List ℕ → List ℕ
unfolding trim_left
trim_space cs = reverse (trim_left (reverse (trim_left cs)))

unfoldable pub valid_identifier : String → Bool
unfolding trim_space
valid_identifier value = not (is_empty (trim_space (codes value)))

pub record SourceRef : Type 0 where
  pub kind : String
  pub id : String

unfoldable pub validate_source : SourceRef → Result Error (Unit {0})
unfolding valid_identifier
validate_source s =
    let has_type = valid_identifier s.kind in
    let has_id = valid_identifier s.id in
    reject_if (if has_type then not has_id else has_id) contract_error
