-- ===== src/Domain/StateMachine/Visits.antt =====
-- src/util/state_machine.ts: the order in which a machine passes through its states.
use toaa.Base.{List, [], ◌∷◌, ◌≡◌}

-- The second list holds the items of the first in their order, with others between them.
pub data Visits {S : Type 0} : List S → List S → Type 0 where
  done : {path : List S} → Visits [] path
  pass : {s : S} {stops path : List S} → Visits stops path → Visits stops (s ∷ path)
  stop : {s n : S} {stops path : List S} → s ≡ n → Visits stops path → Visits (s ∷ stops) (n ∷ path)

pub Visits-tail :
    {S : Type 0} {s : S} {stops path : List S} → Visits (s ∷ stops) path → Visits stops path
Visits-tail (pass v) = pass (Visits-tail v)
Visits-tail (stop e v) = pass v
