-- ===== src/Gcs/Missions/Roundtrip.antt =====
-- A mission that is saved is read again.
use https_gitflic_ru_project.Base.{◌≡◌, none, some, [], ◌∷◌}
use https_gitflic_ru_project.Py.Value.{
  Value, text, dict, Fields, end, fields_of, Runtime, find, get, get_or, str,
}
use https_gitflic_ru_project.Py.Act.{ret, ok}
use https_gitflic_ru_project.Py.Read.{item}
use https_gitflic_ru_project.Gcs.Redis.{Library, IsLibrary}
use https_gitflic_ru_project.Gcs.Missions.{
  MissionStore, mission_key, write_mission, read_mission, read_json, handle_save_mission,
  handle_get_mission,
}

-- A message with a mission that has an id saves it, and a message with this id then gets it back as
-- it was and changes nothing.
pub save-get :
    (rt : Runtime) (lib : Library) (laws : IsLibrary lib) (s : MissionStore rt lib)
    (save get_it saved asked mission : Fields) (mission_id : Value)
    → get_or save "payload" (dict end) ≡ dict saved
    → get_or saved "mission" (dict end) ≡ dict mission
    → find mission "mission_id" ≡ some mission_id
    → get_or get_it "payload" (dict end) ≡ dict asked
    → get asked "mission_id" ≡ mission_id
    → (after : MissionStore rt lib) × (handle_save_mission rt lib save s ≡ ret (ok none, after))
      × (handle_get_mission rt lib get_it after
          ≡ ret (
            ok (
                some (
                  fields_of
                    (("from", text s.component.component_id) ∷ ("mission", dict mission) ∷ []))),
            after,
          ))
unfolding handle_save_mission handle_get_mission write_mission read_mission read_json item
save-get rt lib laws s save get_it saved asked mission mission_id p q r a b =
    let key = mission_key (str rt mission_id) in
    (
      record s { db = lib.set_key s.db key (lib.dumps (dict mission)) },
      rw (p, q, r),
      rw (a, b, laws.get-set s.db key (lib.dumps (dict mission)), laws.loads-dumps mission),
    )
