-- ===== src/Status/Samples.antt =====
-- Two applications and the messages about them, and the theorems about the thread at them.
use snap_openstack.Prelude.{◌++◌, String, ◌≢◌, refl, false, some, List, [], ◌∷◌}
use snap_openstack.Status.{Tick, online, run}
use snap_openstack.Status.Ready.{run-repeated}

abbrev tick : String → String → Tick
tick status app = record { stopped = false; message = some (status, app) }

abbrev four : String → List Tick
four app = tick "ready" app ∷ tick "ready" app ∷ tick "ready" app ∷ tick "ready" app ∷ []

run-repeated_example :
    run ("x" ∷ "a" ∷ "y" ∷ "a" ∷ []) (four "a" ++ (four "x" ++ four "y"))
    ≢ online (("x", 4) ∷ ("a", 4) ∷ ("y", 4) ∷ [])
run-repeated_example =
    run-repeated "a" ("x" ∷ []) ("y" ∷ "a" ∷ []) (four "a" ++ (four "x" ++ four "y"))
      (("x", 4) ∷ ("a", 4) ∷ ("y", 4) ∷ []) refl
