-- ===== src/Clear/Command.antt =====
-- internal/clear/clear.go and readonly.go: the commands of the survey, and what each may be.
use aicrme.Prelude.{String, str_append, List, [], ◌∷◌, member, if◌then◌else◌}

-- The errors: a refused command, with its words; any other; and one with what it is wrapped in.
pub data Failure : Type 0 where
  not_read_only : List String → Failure
  failure : String → Failure
  because : String → Failure → Failure

pub data Result {ℓ} (A : Type ℓ) : Type ℓ where
  ok : A → Result A
  failed : Failure → Result A

-- What a command prints.
abbrev pub Exec : Type 0
Exec = List String → Result String

abbrev read_only_commands : List String
read_only_commands = "helm list" ∷ "helm history" ∷ "kubectl get" ∷ []

-- `readOnly.Run`
unfoldable pub run_read_only : Exec → Exec
run_read_only exec [] = failed (not_read_only [])
run_read_only exec (a ∷ []) = failed (not_read_only (a ∷ []))
run_read_only exec (a ∷ b ∷ argv) =
    if member (str_append a (str_append " " b)) read_only_commands
    then exec (a ∷ b ∷ argv)
    else failed (not_read_only (a ∷ b ∷ []))
