-- ===== src/Compliance/Tests.antt =====
-- Runs of the tags over a small fleet.
use safe_dock.Common.{◌≡◌, refl, none, some, codes, text_eq, length, if◌then◌else◌, ◌==◌}
use safe_dock.Fleet.Tests.{fleet}
use safe_dock.Compliance.{by_tag, is_inherited}
use safe_dock.Compliance.Groups.{lookup, carriers, group_of, lookup-by_tag}

lookup-by_tag_example : lookup (codes "web") (by_tag fleet) ≡ (
    if length (carriers (codes "web") fleet) == 0
    then none
    else some (group_of (codes "web") (carriers (codes "web") fleet)))
unfolding is_inherited text_eq
lookup-by_tag_example = lookup-by_tag (codes "web") fleet refl
