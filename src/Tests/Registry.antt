-- ===== src/Tests/Registry.antt =====
-- A registry with a Project and a Phase in it.
use toaa.Base.{
  ℕ, suc, length, false, ◌↔◌, ◌+◌, [], ◌∷◌, ◌++◌, none, some, String, Result, ok, ◌≡◌, refl,
  ℕ_discrete,
}
use toaa.Domain.Objects.{ObjectType, Digest}
use toaa.Infrastructure.ObjectRegistry.Types.{
  RegistryEntry, RegistryEventType, RegistryEvent, EventBase, Index, Registry, empty_index,
  RegistryError,
}
use toaa.Infrastructure.ObjectRegistry.Events.{
  apply_event, snapshot_of, make_event, commit, load, rebuild,
}
use toaa.Infrastructure.ObjectRegistry.Writes.{
  RegisterObjectInput, assert_project_and_parent_in, is_ancestor, make_entry, registered_entry,
  register,
}
use toaa.Infrastructure.ObjectRegistry.Replay.{applied, Leads, stay, grow}
use toaa.Infrastructure.ObjectRegistry.Recovery.{
  by_register, Reachable, initial, after, Reachable-IsSaved, rebuild-Reachable, Alike, load-IsSaved,
}
use toaa.Infrastructure.ObjectRegistry.Ancestors.{Climbs, is_ancestor-iff_Climbs}
use toaa.Infrastructure.ObjectRegistry.Forest.{IsForest}
use toaa.Infrastructure.ObjectRegistry.Parents.{Reachable-IsForest}
use toaa.Infrastructure.ObjectRegistry.History.{Extends, Operates-Extends}
use toaa.Tests.Samples.{envelope_of}

abbrev accept : String → Result RegistryError String
accept path = ok path

abbrev number_hash : EventBase → Digest
number_hash base = base.sequence + 100

abbrev empty_registry : Registry
empty_registry = record { index = empty_index; log = []; snapshot = none }

abbrev project_input : RegisterObjectInput
project_input = record {
  envelope = envelope_of 1 ObjectType.project;
  object_ref = "project.json";
  content_hash = 7;
  parent_id = none;
  state = some "created";
}

abbrev phase_input : RegisterObjectInput
phase_input = record {
  envelope = envelope_of 2 ObjectType.phase;
  object_ref = "phase.json";
  content_hash = 8;
  parent_id = some 1;
  state = some "created";
}

abbrev entry_of : RegisterObjectInput → RegistryEntry
entry_of input = record {
  envelope = input.envelope;
  parent_id = input.parent_id;
  object_ref = input.object_ref;
  content_hash = input.content_hash;
  state = input.state;
  tombstoned_at = none;
}

abbrev event_of : Index → RegisterObjectInput → RegistryEvent
event_of index input =
    make_event number_hash index RegistryEventType.registered (entry_of input) 60 "t1"

abbrev written : Registry → RegisterObjectInput → Registry
written r input = record {
  index = applied r.index (event_of r.index input);
  log = r.log ++ event_of r.index input ∷ [];
  snapshot = some (snapshot_of (applied r.index (event_of r.index input)) "t1");
}

abbrev with_project : Registry
with_project = written empty_registry project_input

abbrev with_phase : Registry
with_phase = written with_project phase_input

project_registers :
    register accept number_hash empty_registry project_input 60 "t1" ≡ ok with_project
unfolding register registered_entry make_entry assert_project_and_parent_in commit apply_event
    make_event
project_registers = refl

phase_registers : register accept number_hash with_project phase_input 60 "t1" ≡ ok with_phase
unfolding register registered_entry make_entry assert_project_and_parent_in commit apply_event
    make_event ℕ_discrete
phase_registers = refl

abbrev reached : Reachable accept number_hash with_project
reached = after initial (by_register project_input 60 "t1" project_registers)

rebuild-Reachable_example :
    rebuild number_hash with_project "t9"
    ≡ ok (record {
      index = with_project.index;
      log = with_project.log;
      snapshot = some (snapshot_of with_project.index "t9");
    })
rebuild-Reachable_example = rebuild-Reachable accept number_hash "t9" reached

abbrev phase_event : RegistryEvent
phase_event = event_of with_project.index phase_input

follows : Leads number_hash with_project.index (phase_event ∷ []) with_phase.index
unfolding make_event
follows = grow (record { numbered = refl; chained = refl; sealed = refl; own = refl }) stay

load-IsSaved_example :
    (r' : Registry) × (load number_hash (record {
      index = empty_index;
      log = with_project.log ++ phase_event ∷ [];
      snapshot = with_project.snapshot;
    })
      ≡ ok r')
    × Alike r'.index with_phase.index
load-IsSaved_example =
    load-IsSaved number_hash with_project (phase_event ∷ []) with_phase.index empty_index
      (Reachable-IsSaved accept number_hash reached) follows

Operates-Extends_example : Extends with_project.index.entries with_phase.index.entries
Operates-Extends_example =
    Operates-Extends accept number_hash reached (by_register phase_input 60 "t1" phase_registers)

is_ancestor-iff_Climbs_example :
    (is_ancestor (suc (length with_phase.index.entries)) with_phase.index.entries 3 (some 2)
      ≡ false)
    ↔ ((n : ℕ) × Climbs with_phase.index.entries 3 n (some 2) false)
is_ancestor-iff_Climbs_example = is_ancestor-iff_Climbs with_phase.index.entries 3 (some 2)

Reachable-IsForest_example : IsForest with_phase.index.entries
Reachable-IsForest_example =
    Reachable-IsForest accept number_hash
      (after reached (by_register phase_input 60 "t1" phase_registers))
