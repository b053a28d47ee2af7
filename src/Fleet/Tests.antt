-- ===== src/Fleet/Tests.antt =====
-- A small fleet, and runs over it.

use safe_dock.Common.{true, false, none, some, [], ◌∷◌, List, codes}
use safe_dock.Fleet.{RawContainer, Container, process}

-- A container that nothing is to be said against.
abbrev pub raw_proxy : RawContainer
raw_proxy = record {
  id = "c1";
  name = codes "proxy, main";
  image_name = codes "caddy";
  image_tag = codes "2.8";
  host_id = none;
  host_name = none;
  is_root = false;
  is_privileged = false;
  tag_pinned = true;
  secret_leaks = none;
  tags = some (codes "web" ∷ []);
  scanned = true;
  cve_critical = some 0;
  cve_high = some 1;
  cve_medium = none;
  cve_low = some 4;
}

-- A privileged one that runs as root, with one leaked secret, an unpinned tag and an update.
abbrev pub raw_runner : RawContainer
raw_runner = record raw_proxy {
  id = "c2";
  name = codes "<runner> \"a\"";
  image_tag = codes "latest";
  is_root = true;
  is_privileged = true;
  tag_pinned = false;
  secret_leaks = some (codes "TOKEN" ∷ []);
  cve_critical = some 2;
}

abbrev pub raw_fleet : List RawContainer
raw_fleet = raw_runner ∷ raw_proxy ∷ []

abbrev pub proxy : Container
proxy = process raw_proxy

abbrev pub runner : Container
runner = process raw_runner

abbrev pub fleet : List Container
fleet = runner ∷ proxy ∷ []
