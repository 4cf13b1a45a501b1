-- ===== src/App/Manager.antt =====
-- src/app/static_manager.rs: the apps of the configuration, by key and by id.
use rushsocket.Base.{
  Str, str_eq, Option, some, none, if◌then◌else◌, List, [], ◌∷◌, ◌≡◌, refl, ◌∙◌, ap,
}
use rushsocket.Base.Assoc
use rushsocket.Base.Assoc.{Assoc, lookup-insert}
use rushsocket.App.{App, AppConfig, from_config}

pub record StaticAppManager : Type 0 where
  pub by_key : Assoc App
  pub by_id : Assoc App

-- The loop of `new`.
unfoldable pub insert_apps : List AppConfig → StaticAppManager → StaticAppManager
insert_apps [] m = m
insert_apps (cfg ∷ apps) m =
    let app = from_config cfg in
    insert_apps apps (record {
      by_key = Assoc.insert app.key app m.by_key;
      by_id = Assoc.insert app.id app m.by_id;
    })

unfoldable pub new : List AppConfig → StaticAppManager
new apps = insert_apps apps (record { by_key = []; by_id = [] })

unfoldable pub find_by_key : Str → StaticAppManager → Option App
find_by_key key m = Assoc.lookup key m.by_key

unfoldable pub find_by_id : Str → StaticAppManager → Option App
find_by_id id m = Assoc.lookup id m.by_id

-- The last entry of the configuration of which the field is the text, or `seen` if there is none.
abbrev pub last_with : (AppConfig → Str) → Str → List AppConfig → Option App → Option App
last_with field text [] seen = seen
last_with field text (cfg ∷ apps) seen =
    last_with field text apps (if str_eq (field cfg) text then some (from_config cfg) else seen)

by_key-insert_apps :
    (key : Str) (apps : List AppConfig) (m : StaticAppManager)
    → Assoc.lookup key (insert_apps apps m).by_key
      ≡ last_with (λ c. c.key) key apps (Assoc.lookup key m.by_key)
unfolding insert_apps from_config
by_key-insert_apps key [] m = refl
by_key-insert_apps key (cfg ∷ apps) m =
    by_key-insert_apps key apps _
    ∙ ap (last_with (λ c. c.key) key apps) (lookup-insert cfg.key key (from_config cfg) m.by_key)

by_id-insert_apps :
    (id : Str) (apps : List AppConfig) (m : StaticAppManager)
    → Assoc.lookup id (insert_apps apps m).by_id
      ≡ last_with (λ c. c.id) id apps (Assoc.lookup id m.by_id)
unfolding insert_apps from_config
by_id-insert_apps id [] m = refl
by_id-insert_apps id (cfg ∷ apps) m =
    by_id-insert_apps id apps _
    ∙ ap (last_with (λ c. c.id) id apps) (lookup-insert cfg.id id (from_config cfg) m.by_id)

-- A key, and likewise an id, is answered with the last app of the configuration that has it, and
-- with nothing if no app has it.
pub find_last :
    (apps : List AppConfig) (key id : Str)
    → (find_by_key key (new apps) ≡ last_with (λ c. c.key) key apps none)
      × (find_by_id id (new apps) ≡ last_with (λ c. c.id) id apps none)
unfolding new find_by_key find_by_id Assoc.lookup
find_last apps key id = (
  by_key-insert_apps key apps (record { by_key = []; by_id = [] }),
  by_id-insert_apps id apps (record { by_key = []; by_id = [] }),
)
