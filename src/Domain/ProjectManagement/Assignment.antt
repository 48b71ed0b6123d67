-- ===== src/Domain/ProjectManagement/Assignment.antt =====
-- src/domain/project_management/assignment.ts: who works on a Ticket.
use toaa.Base.{
  Bool, List, [], ◌∷◌, Option, none, some, String, Result, ok, ◌>>=◌, same, if◌then◌else◌,
}
use toaa.Domain.StateMachine.{StateTransitions, InvalidTransition, assert_state_transition}
use toaa.Domain.Objects.{ObjectId, ObjectEnvelope, Timestamp, revise_object_envelope}

-- `ASSIGNMENT_STATES`
pub data AssignmentState : Type 0 where
  proposed accepted declined released completed cancelled : AssignmentState

-- `ASSIGNMENT_TRANSITIONS`
unfoldable pub assignment_transitions : StateTransitions AssignmentState
assignment_transitions proposed = accepted ∷ declined ∷ cancelled ∷ []
assignment_transitions accepted = released ∷ completed ∷ cancelled ∷ []
assignment_transitions _ = []

unfoldable pub AssignmentState-discrete : Discrete AssignmentState
AssignmentState-discrete = hlevel

-- `TicketAssignmentSchema`
pub record TicketAssignment : Type 0 where
  pub envelope : ObjectEnvelope
  pub open envelope use {id, revision}
  pub ticket_id : ObjectId
  pub assignee_actor_id : ObjectId
  pub assigned_by_actor_id : ObjectId
  pub previous_assignment_id : Option ObjectId
  pub parent_assignment_id : Option ObjectId
  pub capacity_consumed : Bool
  pub state : AssignmentState
  pub required_capabilities : List String
  pub reason : String
  pub proposed_at : Timestamp
  pub accepted_at : Option Timestamp
  pub completed_at : Option Timestamp
  pub released_at : Option Timestamp
  pub declined_at : Option Timestamp
  pub cancelled_at : Option Timestamp

abbrev pub same_assignment_state : AssignmentState → AssignmentState → Bool
same_assignment_state = same AssignmentState-discrete

-- `next === state ? now : previous`
abbrev stamp : AssignmentState → AssignmentState → Timestamp → Option Timestamp → Option Timestamp
stamp next state now previous = if same_assignment_state next state then some now else previous

-- `transitionAssignment`
unfoldable pub transition_assignment :
    TicketAssignment
    → AssignmentState
    → Timestamp
    → Result (InvalidTransition AssignmentState) TicketAssignment
transition_assignment a next now = do
  changed ←
      assert_state_transition AssignmentState-discrete a.state next assignment_transitions
        (record { machine = "ticket-assignment"; entity_id = a.id; from = a.state; to = next })
  ok (
      if changed
      then record a {
        envelope = revise_object_envelope a.envelope none now;
        state = next;
        accepted_at = stamp next accepted now a.accepted_at;
        completed_at = stamp next completed now a.completed_at;
        released_at = stamp next released now a.released_at;
        declined_at = stamp next declined now a.declined_at;
        cancelled_at = stamp next cancelled now a.cancelled_at;
      }
      else a)
