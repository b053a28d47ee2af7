-- ===== src/Tags/Tests.antt =====
-- Two tags, the first of them on a container.
use safe_dock.Common.{◌≡◌, refl, List, [], ◌∷◌, codes, true, not, text_eq, arith, if◌then◌else◌}
use safe_dock.Common.Decimal.{decimal}
use safe_dock.PasswordPolicy.{is_space}
use safe_dock.Trim.{trim}
use safe_dock.Tags.{
  Tag, Store, empty_store, Request, new_tag, assign, is_row, insert_tag, assign_tag, is_complete,
  serve, run, names_under, tags_of, has_tag, toggle_tag,
}
use safe_dock.Tags.Shown.{IsValid, run-IsValid}
use safe_dock.Tags.Toggled.{concerns, toggled-tags_of}

abbrev web : Tag
web = record { id = 1; name = codes "web" }

abbrev prod : Tag
prod = record { id = 2; name = codes "prod" }

abbrev requests : List Request
requests = new_tag (codes " web ") ∷ new_tag (codes "prod") ∷ assign 1 7 (codes "api") ∷ []

abbrev filled : Store
filled = run trim empty_store requests

filled-IsValid : IsValid filled
filled-IsValid =
    run-IsValid trim requests empty_store
      (record { started = omega arith; fit = tt; distinct = tt })

tags_of-filled : tags_of filled 7 (codes "api") ≡ codes "web" ∷ []
unfolding run serve insert_tag assign_tag is_complete is_row tags_of names_under trim is_space
    text_eq decimal
tags_of-filled = refl

toggled-tags_of_example :
    let after =
      serve trim (toggle_tag (tags_of filled 7 (codes "api")) web 7 (codes "api")) filled in
    (after.1 ≡ true)
    × (has_tag prod.name (tags_of after.0 7 (codes "api")) ≡ (
        if concerns web 7 (codes "api") prod 7 (codes "api")
        then not (has_tag prod.name (tags_of filled 7 (codes "api")))
        else has_tag prod.name (tags_of filled 7 (codes "api"))))
unfolding run serve insert_tag assign_tag is_complete trim is_space text_eq
toggled-tags_of_example =
    toggled-tags_of trim filled web prod 7 7 (codes "api") (codes "api") filled-IsValid refl refl
      refl
