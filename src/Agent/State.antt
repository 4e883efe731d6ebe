-- ===== src/Agent/State.antt =====
-- AgentState of include/holonightd/agentd/AgentActivity.h, with its two conversions of
-- libs/agent/AgentActivity.cpp.
pub mod Spelling
use holonightd.Prelude.{String, Bool, Option, none, some, ◌||◌, ◌==◌, text_eq, if◌then◌else◌}

pub data AgentState : Type 0 where
  starting working waiting_for_approval waiting_for_input completed failed cancelled : AgentState

unfoldable pub to_string : AgentState → String
to_string starting = "Starting"
to_string working = "Working"
to_string waiting_for_approval = "WaitingForApproval"
to_string waiting_for_input = "WaitingForInput"
to_string completed = "Completed"
to_string failed = "Failed"
to_string cancelled = "Cancelled"

unfoldable pub agent_state_from_string : String → Option AgentState
agent_state_from_string str =
    if str == "Starting" || str == "starting"
    then some starting
    else if str == "Working" || str == "working"
    then some working
    else if str == "WaitingForApproval"
        || str == "waiting_for_approval"
        || str == "permission_prompt"
    then some waiting_for_approval
    else if str == "WaitingForInput" || str == "waiting_for_input" || str == "idle_prompt"
    then some waiting_for_input
    else if str == "Completed" || str == "completed" || str == "stop"
    then some completed
    else if str == "Failed" || str == "failed" || str == "error"
    then some failed
    else if str == "Cancelled" || str == "cancelled"
    then some cancelled
    else none
