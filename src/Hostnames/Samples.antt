-- ===== src/Hostnames/Samples.antt =====
-- Some host names, and the theorems about them.
use snap_openstack.Prelude.{◌≡◌, refl, ◌↔◌, none, some, [], ◌∷◌, string_eq}
use snap_openstack.Hostnames.{hostnames_match, match_hostname}
use snap_openstack.Hostnames.Matching.{match_hostname-some, Found}

short_and_full : match_hostname "node1" ("node2" ∷ "node1.maas" ∷ []) ≡ some "node1.maas"
unfolding match_hostname hostnames_match
short_and_full = refl

ambiguous : match_hostname "node1" ("node1.maas" ∷ "node1.lab" ∷ []) ≡ none
unfolding match_hostname hostnames_match
ambiguous = refl

match_hostname-some_example :
    (match_hostname "node1" ("node2" ∷ "node1.maas" ∷ []) ≡ some "node1.maas")
    ↔ Found "node1" ("node2" ∷ "node1.maas" ∷ []) "node1.maas"
match_hostname-some_example = match_hostname-some "node1" "node1.maas" ("node2" ∷ "node1.maas" ∷ [])
