-- ===== src/ContainerSettings/Prefilled.antt =====
-- What opening the form does to an override.
use safe_dock.Common.{◌≡◌, refl, false, some, [], text_eq}
use safe_dock.Cockpit.Overrides.{Override, flag_of}
use safe_dock.ContainerSettings.{
  View, save_override, overrides_changed, save_pressed, members, read, fill, saved, step,
}

-- Saving an override that has only been opened forbids both modes: whatever the override that the
-- server lists, the request that follows names no threshold, forbids the user root and forbids the
-- privileged mode.
opened-forbids :
    (v : View) (o : Override)
    → (step (step v (overrides_changed (some (members o)))).0 save_pressed).1
      ≡ save_override [] (some false) (some false)
unfolding step fill saved members read flag_of text_eq
opened-forbids v o = refl
