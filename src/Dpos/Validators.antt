-- ===== src/Dpos/Validators.antt =====
-- core/types/dposcontext.go: the validators of the epoch trie, and a delegator's vote.
use uranus.Prelude.{Bool, false, not, Option, none, some, List, length, ◌==◌}
use uranus.State.Object.{Address}
use uranus.Dpos.Context.{DposContext}

-- `GetValidators` and `GetCandidateAddrs`; `none` is the error of decoding an absent value.
abbrev pub get_validators : DposContext → Option (List Address)
get_validators ctx = ctx.epoch

abbrev pub get_candidate_addrs : DposContext → Address → Option (List Address)
get_candidate_addrs ctx d = ctx.votes d

abbrev pub set_validators : List Address → DposContext → DposContext
set_validators validators ctx = record ctx { epoch = some validators }

-- `IsDpos`
unfoldable pub is_dpos : DposContext → Bool
is_dpos ctx = elim (get_validators ctx) [
  | none ↦ false
  | some validators ↦ not (length validators == 1)
]
