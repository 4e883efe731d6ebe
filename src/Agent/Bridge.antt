-- ===== src/Agent/Bridge.antt =====
-- NotificationBridge of libs/agent/NotificationBridge.cpp and classifyCallResult of
-- libs/agent/ShellActivationClient.cpp. What the desktop answers is an argument.
pub mod Bound
use holonightd.Prelude.{
  ℕ, zero, suc, ◌+◌, ◌-◌, ◌*◌, ◌/◌, ◌%◌, ◌^◌, ◌≤◌, ◌<◌, min, String, ◌≡◌, refl, sym, ap, ◌∙◌, subst,
  ◌≢◌, ◌↔◌, ◌⊎◌, inl, inr, Bool, true, false, not, ◌&&◌, ◌||◌, Option, none, some, List, [], ◌∷◌,
  ◌++◌, map, arith, eq_iff, ltb, leb, if◌then◌else◌, Bool-cases, Option-cases, length, take,
  is_empty, length-take-le, length-append, keep_if, any, All, All-append, Eq, ◌==◌, nat_eq, text_eq,
  is_some, Some, any-Some, Some-any, is_empty-append, is_empty-keep_if, nat_eqb, nat_eqb_iff,
}
use Prim.Native.Char.{Char}
use Prim.Native.String.{◌++◌ as append}
use holonightd.Prelude.Text.{is_blank, utf8}
use holonightd.Agent.State.{to_string}
use holonightd.Agent.Event.{ActivationDescriptor, AgentSession, AgentEvent}
use holonightd.Agent.Bindings.{Entries, replace, consume, close}
use holonightd.Agent.Message.{truncate_message}

-- What the bridge reads of its environment: HOME, which paths exist, and toupper.
pub record Desktop : Type 0 where
  pub home : Option String
  pub exists : String → Bool
  pub toupper : Char → Char

capitalise : (Char → Char) → String → String
capitalise toupper String.[] = String.[]
capitalise toupper (String.◌∷◌ c s) = String.◌∷◌ (toupper c) s

format_provider_name : Desktop → String → String
unfolding capitalise
format_provider_name desktop provider =
    if provider == "kiro"
    then "Kiro CLI"
    else if provider == "claude"
    then "Claude Code"
    else if provider == "codex"
    then "Codex"
    else if provider == "antigravity"
    then "Antigravity"
    else if is_blank provider
    then "Agent"
    else capitalise desktop.toupper provider

icon_path : String → String → String → String
icon_path home provider ext =
    append home (append "/.local/share/icons/holonight/" (append provider ext))

-- The first file of the three that exists.
find_icon : Desktop → String → String → List String → Option String
unfolding icon_path
find_icon desktop home provider [] = none
find_icon desktop home provider (ext ∷ exts) =
    let rest = find_icon desktop home provider exts in
    if desktop.exists (icon_path home provider ext)
    then some (icon_path home provider ext)
    else rest

user_icon : Desktop → String → Option String
unfolding find_icon
user_icon desktop provider = elim desktop.home [
  | none ↦ none
  | some home ↦
      if is_blank provider
      then none
      else find_icon desktop home provider (".png" ∷ ".svg" ∷ ".jpg" ∷ [])
]

theme_icon : String → String
theme_icon provider =
    if provider == "claude"
    then "claude-code"
    else if provider == "kiro"
    then "kiro"
    else if provider == "codex"
    then "codex"
    else if provider == "antigravity"
    then "google-antigravity"
    else if is_blank provider
    then "utilities-terminal"
    else provider

resolve_provider_icon : Desktop → String → String
unfolding user_icon theme_icon
resolve_provider_icon desktop provider = elim (user_icon desktop provider) [
  | none ↦ theme_icon provider
  | some path ↦ path
]

-- The arguments of the call of Notify; `body` is in bytes.
pub record Notification : Type 0 where
  pub app_name : String
  pub replaces_id : ℕ
  pub app_icon : String
  pub summary : String
  pub body : List ℕ

-- What becomes of the call: there is no bus, or the message cannot be made; the call fails, or its
-- reply cannot be read; the reply is the id of the notification.
pub data NotifyOutcome : Type 0 where
  not_sent unanswered : NotifyOutcome
  answered : ℕ → NotifyOutcome

module _ {Json : Type 0} where
  unfoldable pub notification : Desktop → AgentSession → AgentEvent Json → ℕ → Notification
  unfolding format_provider_name resolve_provider_icon
  notification desktop session event replaces_id =
      let provider_display = format_provider_name desktop session.provider in
      let project_str = if is_blank session.project_name then "Global" else session.project_name in
      let title_str = if is_blank event.title then to_string event.state else event.title in
      record {
        app_name = append "HoloNight Agent (" (append provider_display ")");
        replaces_id = replaces_id;
        app_icon = resolve_provider_icon desktop session.provider;
        summary =
            append provider_display (append " · " (append project_str (append " — " title_str)));
        body =
            if is_blank event.message
            then utf8 (to_string event.state)
            else truncate_message (utf8 event.message);
      }

unfoldable pub bind_notification : ℕ → ℕ → ℕ → ℕ → ActivationDescriptor → Entries → Entries
bind_notification now later replaces_id notification_id descriptor bindings =
    replace now later replaces_id notification_id descriptor bindings

bind_if_activatable : ℕ → ℕ → ℕ → ℕ → Option ActivationDescriptor → Entries → Entries
unfolding bind_notification
bind_if_activatable now later replaces_id assigned none bindings = bindings
bind_if_activatable now later replaces_id assigned (some d) bindings =
    if assigned == 0 then bindings else bind_notification now later replaces_id assigned d bindings

-- The bindings after sendNotification, and the id that it returns. `now` and `later` are the
-- clock readings of the binding.
unfoldable pub send_notification : ℕ → ℕ → NotifyOutcome → AgentSession → ℕ → Entries → Entries × ℕ
unfolding bind_if_activatable
send_notification now later not_sent session replaces_id bindings = (bindings, replaces_id)
send_notification now later unanswered session replaces_id bindings = (bindings, replaces_id)
send_notification now later (answered assigned) session replaces_id bindings =
    (bind_if_activatable now later replaces_id assigned session.activation bindings, assigned)

-- The bindings after ActionInvoked, and the descriptor that is activated.
unfoldable pub handle_action : ℕ → ℕ → String → Entries → Entries × Option ActivationDescriptor
handle_action now notification_id action_key bindings =
    let consumed = consume now notification_id bindings in
    if action_key == "open" then consumed else (bindings, none)

unfoldable pub handle_closed : ℕ → Entries → Entries
handle_closed notification_id bindings = close notification_id bindings
