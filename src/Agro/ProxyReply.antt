-- ===== src/Agro/ProxyReply.antt =====
-- systems/agrodron/scripts/proxy_reply.py: what an answer through the security monitor carries.
use https_gitflic_ru_project.Base.{String, Bool, ◌&&◌, ◌||◌, Option, none, some, if◌then◌else◌}
use https_gitflic_ru_project.Py.Text.{is_some}
use https_gitflic_ru_project.Py.Value.{Value, dict, Fields, find, get}

abbrev pub dict_only : Value → Option Fields
dict_only (dict d) = some d
dict_only _ = none

-- `key in fields`
abbrev pub has_key : Fields → String → Bool
has_key d key = is_some (find d key)

abbrev pub unwrap_outer : Value → Fields → Option Fields
unwrap_outer (dict outer) response =
    if has_key outer "target_response"
    then dict_only (get outer "target_response")
    else dict_only (get response "target_response")
unwrap_outer _ response = dict_only (get response "target_response")

unfoldable pub unwrap_proxy_target_response : Option Fields → Option Fields
unfolding find get
unwrap_proxy_target_response none = none
unwrap_proxy_target_response (some response) = unwrap_outer (get response "payload") response

-- The snapshot under `payload`, if it has a position, and `nav_state` else.
abbrev pub snapshot : Value → Value → Option Fields
snapshot (dict actual) nav_state =
    if has_key actual "lat" || has_key actual "alt_m" then some actual else dict_only nav_state
snapshot _ nav_state = dict_only nav_state

abbrev pub nav_state_in : Value → Option Fields
nav_state_in (dict inner) =
    if has_key inner "lat" && has_key inner "lon"
    then some inner
    else snapshot (get inner "payload") (get inner "nav_state")
nav_state_in _ = none

unfoldable pub extract_navigation_nav_state : Option Fields → Option Fields
unfolding find get
extract_navigation_nav_state none = none
extract_navigation_nav_state (some target_response) = nav_state_in (get target_response "payload")
