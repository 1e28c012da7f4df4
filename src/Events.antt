-- ===== src/Events.antt =====
-- core/events.py: the domain events that a reduction gives.
use codepilot_stable.Base.{
  ℕ, String, Bool, not, List, [], ◌∷◌, any, contains, from_keys, if◌then◌else◌, value_error, Result,
  ok, err, ◌>>=◌, ◌>>◌, guard, traverse,
}
use codepilot_stable.Text.{is_empty, strip}

-- the values that the Core writes into a payload
pub data Payload : Type 0 where
  null : Payload
  text : String → Payload
  number : ℕ → Payload
  flag : Bool → Payload
  texts : List String → Payload

pub record CoreDomainEvent : Type 0 where
  pub kind : String
  pub payload : List (String × Payload)
  pub evidence_refs : List String

abbrev pub runtime_envelope_fields : List String
runtime_envelope_fields =
    "event_id" ∷ "run_id" ∷ "session_id" ∷ "sequence" ∷ "timestamp" ∷ "timestamp_ms" ∷ "type" ∷ []

-- `_required_text`
unfoldable pub required_text : String → Result String
required_text value =
    let text' = strip value in if is_empty text' then err value_error else ok text'

-- `CoreDomainEvent.__post_init__`
unfoldable pub init_event : CoreDomainEvent → Result CoreDomainEvent
init_event e = do
  kind ← required_text e.kind
  guard
      (not (any (λ (entry : String × Payload). contains entry.0 runtime_envelope_fields) e.payload))
      value_error
  refs ← traverse required_text e.evidence_refs
  ok (record { kind = kind; payload = e.payload; evidence_refs = from_keys refs })

-- `CoreDomainEvent(kind, payload, refs)`
unfoldable pub event : String → List (String × Payload) → List String → Result CoreDomainEvent
unfolding init_event
event kind payload refs =
    init_event (record { kind = kind; payload = payload; evidence_refs = refs })
