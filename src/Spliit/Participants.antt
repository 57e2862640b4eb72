-- ===== src/Spliit/Participants.antt =====
-- `FindParticipant`, `ParticipantNames`, `FindParticipantByName` of internal/spliit/client.go and
-- `findByName` of internal/mcp/tools.go. `fold` is the case table of strings.EqualFold.
use spliit_mcp.Prelude.{ℕ, String, Bool, List, [], ◌∷◌, Option, none, some, ◌==◌, if◌then◌else◌}
use spliit_mcp.Text.{trim_space, equal_fold}
use spliit_mcp.Spliit.Model.{Participant, Group}

-- The first participant that is there and passes a test: the loops of the three searches.
unfoldable pub first_where : (Participant → Bool) → List (Option Participant) → Option Participant
first_where test [] = none
first_where test (none ∷ ps) = first_where test ps
first_where test (some p ∷ ps) = if test p then some p else first_where test ps

-- `FindParticipant`
unfoldable pub find_participant : Group → String → Option Participant
unfolding first_where
find_participant group id = first_where (λ p. p.id == id) group.participants

unfoldable pub names_of : List (Option Participant) → List String
names_of [] = []
names_of (none ∷ ps) = names_of ps
names_of (some p ∷ ps) = p.name ∷ names_of ps

-- `ParticipantNames`
unfoldable pub participant_names : Group → List String
unfolding names_of
participant_names group = names_of group.participants

-- The participants that are there, in order.
unfoldable pub present : List (Option Participant) → List Participant
present [] = []
present (none ∷ ps) = present ps
present (some p ∷ ps) = p ∷ present ps

module _ (fold : ℕ → ℕ) where
  -- Two names are the same up to case and outer white space.
  unfoldable pub same_name : String → String → Bool
  unfolding equal_fold trim_space
  same_name a b = equal_fold fold (trim_space a) (trim_space b)

  -- `FindParticipantByName`
  unfoldable pub find_participant_by_name : Group → String → Option Participant
  unfolding first_where same_name
  find_participant_by_name group name = first_where (λ p. same_name p.name name) group.participants
