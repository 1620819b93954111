-- ===== src/Agro/Missions/Reports.antt =====
-- What the mission handler may send and keep, and how it reports a refusal.
use https_gitflic_ru_project.Base.{String, ◌≡◌, true, not, Option, none, some, List, [], ◌∷◌}
use https_gitflic_ru_project.Py.Value.{Value, text, dict, Fields, Runtime, get_or, truthy, bool}
use https_gitflic_ru_project.Py.Act.{Act, Always, at_ret, calls, Ends, Always-seq, Always-if_act}
use https_gitflic_ru_project.Sdk.Component.Calls.{IsService}
use https_gitflic_ru_project.Agro.Place.{proxied, entry}
use https_gitflic_ru_project.Agro.Missions.Wpl.{Formats}
use https_gitflic_ru_project.Agro.Missions.{
  MissionHandler, component_of, log_to_journal, invalid, mission_request, no_autopilot,
  autopilot_fields, answered, refuse,
}
use https_gitflic_ru_project.Agro.Missions.Valid.{IsMission}

-- The mission that is kept, if there is one, is valid.
abbrev pub LastIsMission : Option Fields → Type 0
LastIsMission none = Unit
LastIsMission (some mission) = IsMission mission

module _ (h : MissionHandler) where
  -- The place and the topics stay as they are, and the mission that is kept is valid.
  pub record Kept (s : MissionHandler) : Type 0 where
    pub place : s.place ≡ h.place
    pub autopilot : s.autopilot_topic ≡ h.autopilot_topic
    pub journal : s.journal_topic ≡ h.journal_topic
    pub last : LastIsMission s.last_mission

  -- A request for the autopilot, through the monitor, with a valid mission.
  pub record PassesMission (topic : Value) (body : Fields) : Type 0 where
    pub to : topic ≡ text h.place.monitor_topic
    pub mission : Fields
    pub valid : IsMission mission
    pub carries : body ≡ mission_request h mission

  -- Entries for the journal, through the monitor, and what the base class publishes itself.
  pub data Reports (message : Fields) : Value → Fields → Type 0 where
    entries :
        (s : MissionHandler) (event : String) (details : Fields)
        → Kept s
        → Reports message (text s.place.monitor_topic) (
            proxied "proxy_publish" s.place s.journal_topic "log_event"
              (entry event "mission_handler" details))
    services :
        (s : MissionHandler) (topic : Value) (body : Fields)
        → Kept s
        → IsService message (component_of s) topic
        → Reports message topic body

module _ (rt : Runtime) (formats : Formats) (message : Fields) (h : MissionHandler) where
  abbrev pub Keeps : {A : Type 0} → Act MissionHandler A → MissionHandler → Type 0
  Keeps act s = Always (PassesMission h) (Reports h message) (Ends (Kept h)) (act s)

  pub log-Keeps :
      (event : String) (details : List (String × Value)) (s : MissionHandler)
      → Kept h s
      → Keeps (log_to_journal event details) s
  unfolding log_to_journal
  log-Keeps event details s q = search (calls, entries) depth 9

  -- The same fields but the error.
  pub same_but_error :
      (s : MissionHandler) (error : Option String)
      → Kept h s
      → Kept h (record s { last_error = error })
  same_but_error s error q = record {
    place = q.place;
    autopilot = q.autopilot;
    journal = q.journal;
    last = q.last;
  }

  pub refuse-Keeps :
      (event error : String) (details : List (String × Value)) (s : MissionHandler)
      → Kept h s
      → Keeps (refuse event error details) s
  refuse-Keeps event error details s q =
      Always-seq (log_to_journal event details) _ (record s { last_error = some error })
        (log-Keeps event details _ (same_but_error s (some error) q)) (λ a t r. at_ret r)

  pub no_autopilot-Keeps :
      (mid : Value) (error : String) (s : MissionHandler)
      → Kept h s
      → Keeps (no_autopilot mid error) s
  no_autopilot-Keeps mid error s q =
      refuse-Keeps "MISSION_HANDLER_AUTOPILOT_ERROR" error
        (("error", text error) ∷ ("mission_id", mid) ∷ []) s q

  pub invalid-Keeps :
      (error : String) (details : List (String × Value)) (s : MissionHandler)
      → Kept h s
      → Keeps (invalid error details) s
  invalid-Keeps error details s q =
      refuse-Keeps "MISSION_HANDLER_VALIDATION_ERROR" error details s q

  pub ok_or_not-Keeps :
      (mid : Value) (response : Option Fields) (s : MissionHandler)
      → Kept h s
      → Keeps (answered rt formats mid response) s
  unfolding answered
  ok_or_not-Keeps mid none s q = no_autopilot-Keeps mid "autopilot_no_response" s q
  ok_or_not-Keeps mid (some response) s q =
      Always-if_act (not (truthy (dict response))) _ _ s
        (λ b. no_autopilot-Keeps mid "autopilot_no_response" s q)
        (λ b.
          Always-if_act (not (truthy (get_or (autopilot_fields response) "ok" (bool true)))) _ _ s
            (λ c. no_autopilot-Keeps mid _ s q)
            (λ c. search (calls, Always-seq, log-Keeps) depth 9))
