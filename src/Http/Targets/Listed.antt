-- ===== src/Http/Targets/Listed.antt =====
-- What the list of objects comes to, by the objects themselves.
use interface.Prelude.{◌≡◌, ◌⊎◌, List, In, ℕ_discrete}
use interface.Prelude.Sets.{NoRepeat}
use interface.Text.{Text}
use interface.Domain.{kind_host, kind_service}
use interface.Commands.{Target}
use interface.Http.Targets.{TargetRequest}
use interface.Http.Targets.Resolved.{asked}

pub target_dec : Discrete Target
target_dec = hlevel ℕ_discrete

-- A list of objects for a request: it holds exactly the objects asked for, each once.
pub record IsListed (raws : List TargetRequest) (out : List Target) : Type 0 where
  pub complete : (r : TargetRequest) → In r raws → In (asked r) out
  pub sound : (t : Target) → In t out → (r : TargetRequest) × In r raws × (t ≡ asked r)
  pub once : NoRepeat target_dec out
  pub kinds : (t : Target) → In t out → (t.kind ≡ kind_host) ⊎ (t.kind ≡ kind_service)
