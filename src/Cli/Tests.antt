-- ===== src/Cli/Tests.antt =====
-- crates/cli at concrete inputs.
use webmux.Base.{ℕ, ◌≡◌, refl, false, List, [], ◌∷◌, ◌++◌, ok, err}
use webmux.Cli.Resolve.{MachineInfo, resolve_prefix, resolve_machine, usage, ambiguous, no_id}
use webmux.Cli.Resolve.Meaning.{Means, resolve_machine-Means, resolve_machine_hides}

-- `ab`, and `abc`.
abbrev short : List ℕ
short = b'a' ∷ b'b' ∷ []

abbrev long : List ℕ
long = b'a' ∷ b'b' ∷ b'c' ∷ []

abbrev nas : MachineInfo
nas = record {
  id = long;
  name = b'N' ∷ b'A' ∷ b'S' ∷ [];
  os = [];
  home_dir = [];
  production = false;
}

abbrev odd : MachineInfo
odd = record { id = short; name = ambiguous; os = []; home_dir = []; production = false }

nas_by_name : resolve_machine (b'n' ∷ b'a' ∷ b's' ∷ []) (nas ∷ odd ∷ []) ≡ ok nas
unfolding resolve_machine resolve_prefix
nas_by_name = refl

resolve_machine-Means_example : Means (b'n' ∷ b'a' ∷ b's' ∷ []) (nas ∷ odd ∷ []) nas
resolve_machine-Means_example =
    resolve_machine-Means (b'n' ∷ b'a' ∷ b's' ∷ []) (nas ∷ odd ∷ []) nas nas_by_name

resolve_machine_hides_example :
    resolve_machine ambiguous (nas ∷ (record odd { id = long }) ∷ [])
    ≡ err (usage (no_id ++ (ambiguous ++ 0x27 ∷ [])))
resolve_machine_hides_example =
    resolve_machine_hides ambiguous (nas ∷ (record odd { id = long }) ∷ []) refl refl
