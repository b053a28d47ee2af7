-- ===== src/Identity/Tests.antt =====
-- A load, and then a new key; and a load whose answer comes behind that of the new key.
use safe_dock.Common.{◌≡◌, refl, List, [], ◌∷◌, ◌++◌, true, false, some, Text, codes}
use safe_dock.Identity.{
  opened, Event, load_handled, load_answered, pressed, post_handled, post_answered, loaded,
  regenerated, handle_load, handle_post, step, run,
}
use safe_dock.Identity.Current.{AreOrderly, IsCurrent, run-IsCurrent}

abbrev print : Text → Text
print k = codes "SHA256:" ++ k

abbrev renewed : List Event
renewed =
    load_handled true
    ∷ load_answered
    ∷ pressed true
    ∷ post_handled (some (codes "key-2"))
    ∷ post_answered true
    ∷ []

renewed-AreOrderly : AreOrderly print (opened (codes "key-1")) renewed
unfolding AreOrderly step loaded regenerated handle_load handle_post
renewed-AreOrderly = (refl, (refl, (refl, (refl, (refl, tt)))))

run-IsCurrent_example :
    ((run print (opened (codes "key-1")) renewed).regen ≡ false)
    × IsCurrent print (run print (opened (codes "key-1")) renewed)
unfolding run step loaded regenerated handle_load handle_post
run-IsCurrent_example = run-IsCurrent print (codes "key-1") renewed renewed-AreOrderly refl

abbrev overtaken : List Event
overtaken =
    load_handled true
    ∷ pressed true
    ∷ post_handled (some (codes "key-2"))
    ∷ post_answered true
    ∷ load_answered
    ∷ []

-- The key that the server no longer holds stays on the page.
shown_of-overtaken : (run print (opened (codes "key-1")) overtaken).ssh_pub ≡ codes "key-1"
unfolding run step loaded regenerated handle_load handle_post
shown_of-overtaken = refl
