-- ===== src/Backups/Copies.antt =====
-- The list of the backups in internal/web/frontend/src/components/SettingsView.jsx: `loadBackups`,
-- `createBackup` and `deleteBackup`. Dates, sizes and downloads are not modelled.
pub mod Single
mod Tests
use safe_dock.Common.{
  ℕ, zero, suc, List, [], ◌∷◌, ◌++◌, Bool, true, false, Option, none, some, Text, codes,
  if◌then◌else◌,
}
use safe_dock.Http.{or_text}

pub record Copies : Type 0 where
  pub backups : List Text
  pub backup_busy : Bool
  pub status : Text
  -- The requests on their way.
  pub creating : ℕ
  pub deleting : ℕ
  pub loading : ℕ

abbrev pub unopened : Copies
unopened = record {
  backups = [];
  backup_busy = false;
  status = [];
  creating = 0;
  deleting = 0;
  loading = 0;
}

-- How a request ends: it is accepted, or rejected with a message.
pub data Result : Type 0 where
  accepted : Result
  rejected : Text → Result

pub data Event : Type 0 where
  tab_opened create_pressed status_faded : Event
  -- A deletion for which the user has said yes or no.
  delete_pressed : Text → Bool → Event
  created deleted : Result → Event
  -- /api/backups has answered with a list; a failure changes nothing.
  listed : Option (List Text) → Event

pub data Effect : Type 0 where
  get_backups post_backup : Effect
  post_delete : Text → Effect

unfoldable pub load_backups : Copies → Copies × List Effect
load_backups c = (record c { loading = suc c.loading }, get_backups ∷ [])

-- The button is disabled while a backup is created.
unfoldable pub create_backup : Copies → Copies × List Effect
create_backup c = if c.backup_busy then (c, []) else (
  record c {
    backup_busy = true;
    status = codes "Création de la sauvegarde…";
    creating = suc c.creating;
  },
  post_backup ∷ [],
)

abbrev failure_of : (message other : Text) → Text
failure_of message other = codes "Échec : " ++ or_text message other

unfoldable pub on_created : ℕ → Result → Copies → Copies × List Effect
unfolding load_backups
on_created zero r c = (c, [])
on_created (suc n) accepted c =
    load_backups
      (record c { backup_busy = false; status = codes "Sauvegarde créée."; creating = n })
on_created (suc n) (rejected m) c =
    (record c { backup_busy = false; status = failure_of m (codes "sauvegarde"); creating = n }, [])

-- The list is loaded again in any case.
unfoldable pub on_deleted : ℕ → Result → Copies → Copies × List Effect
unfolding load_backups
on_deleted zero r c = (c, [])
on_deleted (suc n) accepted c =
    load_backups (record c { status = codes "Sauvegarde supprimée."; deleting = n })
on_deleted (suc n) (rejected m) c =
    load_backups (record c { status = failure_of m (codes "suppression"); deleting = n })

unfoldable pub on_listed : ℕ → Option (List Text) → Copies → Copies
on_listed zero r c = c
on_listed (suc n) none c = record c { loading = n }
on_listed (suc n) (some names) c = record c { backups = names; loading = n }

unfoldable pub step : Copies → Event → Copies × List Effect
unfolding create_backup
step c tab_opened = load_backups c
step c create_pressed = create_backup c
step c status_faded = (record c { status = [] }, [])
step c (delete_pressed name true) = (record c { deleting = suc c.deleting }, post_delete name ∷ [])
step c (delete_pressed name false) = (c, [])
step c (created r) = on_created c.creating r c
step c (deleted r) = on_deleted c.deleting r c
step c (listed r) = (on_listed c.loading r c, [])

-- The session, with what it sends.
unfoldable pub run : Copies → List Event → Copies × List Effect
run c [] = (c, [])
run c (e ∷ es) =
    let (next, sent) = step c e in let (end, later) = run next es in (end, sent ++ later)
