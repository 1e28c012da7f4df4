-- ===== src/Driver/Types.antt =====
-- core/driver.py and core/contracts.py: a driver's state, its messages and its boundaries.
use codepilot_stable.Base.{ℕ, String, Option, List}
use codepilot_stable.Tools.{ToolResult, AssistantBlock}
use codepilot_stable.State.{CoreState}
use codepilot_stable.Events.{CoreDomainEvent}
use codepilot_stable.Observations.{CoreObservation}
use codepilot_stable.Contracts.{CoreWait}

-- A message of the tools carries the result that it shows.
pub data Message : Type 0 where
  assistant_message : List AssistantBlock → Message
  tool_message : ToolResult → Message
  user_message : String → Message

pub record MessageJournal : Type 0 where
  pub messages : List Message
  pub added : List Message
  pub pending : List Message

pub data CoreBoundaryKind : Type 0 where
  before_model after_model before_tools after_tools waiting before_terminal : CoreBoundaryKind

pub record CoreBoundary : Type 0 where
  pub kind : CoreBoundaryKind
  pub state : CoreState
  pub new_messages : List Message
  pub domain_events : List CoreDomainEvent
  pub wait : Option CoreWait

-- `events` are those that wait to be committed. `committed` are the boundaries that the port has
-- taken, the earliest first: what the run has left behind.
pub record DriverState : Type 0 where
  pub core : CoreState
  pub observation : CoreObservation
  pub messages : MessageJournal
  pub events : List CoreDomainEvent
  pub sequence : ℕ
  pub committed : List CoreBoundary
