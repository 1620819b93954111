-- ===== src/Gcs/Orchestrator/Prepared.antt =====
-- What the orchestrator sends on of the converter's answer.
use https_gitflic_ru_project.Base.{◌≡◌, refl, true, Option}
use https_gitflic_ru_project.Py.Value.{Value, dict, Fields, end, get, get_or, truthy}
use https_gitflic_ru_project.Py.Act.{
  ok, Always, at_ret, at_send, AnyCall, Always-lift, Always-if_act,
}
use https_gitflic_ru_project.Py.Read.{as_dict}
use https_gitflic_ru_project.Py.Asking.{AfterAsking, at_answer}
use https_gitflic_ru_project.Gcs.Station.{Station, station_topic, succeeded, payload_in}
use https_gitflic_ru_project.Gcs.Orchestrator.{upload_message, upload, handle_task_assign}

-- The upload of a mission that the converter prepared: its answer is a success with a text of
-- waypoints that is not empty, and the drone manager gets this text with the ids of the task.
pub record IsUpload (s : Station) (mission_id drone_id correlation_id : Value)
    (response : Option Fields) (topic : Value) (body : Fields) : Type 0 where
  pub success : succeeded response ≡ true
  pub payload : Fields
  pub mission : Fields
  pub answered : as_dict (payload_in response) ≡ ok payload
  pub prepared : as_dict (get_or payload "mission" (dict end)) ≡ ok mission
  pub converted : truthy (get mission "wpl") ≡ true
  pub to : topic ≡ station_topic s "drone_manager"
  pub carries : body ≡ upload_message s mission_id drone_id (get mission "wpl") correlation_id

module _ (s : Station) where
  upload-IsUpload :
      (mission_id drone_id correlation_id : Value) (response : Option Fields)
      → Always AnyCall
          (IsUpload s mission_id drone_id correlation_id response)
          (λ a. Unit {0})
          (upload mission_id drone_id correlation_id response s)
  unfolding upload
  upload-IsUpload mission_id drone_id correlation_id response =
      Always-if_act (succeeded response) _ _ s
        (λ h.
          Always-lift (as_dict (payload_in response)) _ s (λ e. tt)
            (λ payload p.
              Always-lift (as_dict (get_or payload "mission" (dict end))) _ s (λ e. tt)
                (λ mission q.
                  Always-if_act (truthy (get mission "wpl")) _ _ s
                    (λ w.
                      at_send
                        (record {
                          success = h;
                          payload = payload;
                          mission = mission;
                          answered = p;
                          prepared = q;
                          converted = w;
                          to = refl;
                          carries = refl;
                        })
                        (λ _. at_ret tt))
                    (λ w. at_ret tt))))
        (λ h. at_ret tt)

  -- The assignment of a task publishes nothing before the converter was asked, and after that only
  -- the upload to the drone manager, and that only on an answer that is a success with a text of
  -- waypoints: the text and the ids of the task are what it carries.
  pub handle_task_assign-IsUpload :
      (message payload : Fields)
      → get_or message "payload" (dict end) ≡ dict payload
      → AfterAsking
          (station_topic s "mission_converter")
          (IsUpload s
            (get payload "mission_id")
            (get payload "drone_id")
            (get message "correlation_id"))
          (handle_task_assign message s)
  unfolding handle_task_assign
  handle_task_assign-IsUpload message payload h = rw h (at_answer (λ r. upload-IsUpload _ _ _ r))
