-- ===== src/Collectors.antt =====
-- The collectors of libs/health, which turn the state of the machine into events.
pub mod Memory
pub mod Pacman
pub mod Storage
pub mod Systemd
use holonightd.Prelude.{String}
use holonightd.Prelude.Text.{ℤ, pos}
use holonightd.Observation.{Severity, EventValue, ObservationEvent}

-- An event as a collector makes it, with the id that it has before it is stored.
abbrev pub new_event :
    {Double : Type 0}
    → ℤ
    → String
    → String
    → String
    → String
    → EventValue Double
    → Severity
    → String
    → ObservationEvent Double
new_event now source category subject signal value severity attributes = record {
  id = pos 0;
  timestamp = now;
  source = source;
  category = category;
  subject = subject;
  signal = signal;
  value = value;
  severity = severity;
  attributes_json = attributes;
}
