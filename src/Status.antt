-- ===== src/Status.antt =====
-- sunbeam-python/sunbeam/core/common.py, `_UpdateStatusThread`: the thread that counts the applications
-- that are ready. What it sees is a sequence of ticks, one for each turn of its loop: whether it has been
-- stopped, and what it took from the queue before the timeout. What it shows is not modelled.
mod Ready
mod Samples
use snap_openstack.Prelude.{
  ℕ, suc, ◌+◌, String, Bool, Option, none, some, List, [], ◌∷◌, length, ltb, leb, ◌==◌, string_eq,
  if◌then◌else◌,
}
use snap_openstack.Dict
use snap_openstack.Dict.{Dict}

pub record Tick : Type 0 where
  pub stopped : Bool
  pub message : Option (String × String)

-- How the thread stands: it ended because it was stopped, or because all applications are ready, or it
-- still waits after these ticks.
pub data Progress : Type 0 where
  cancelled online waiting : Dict ℕ → Progress

-- `dict.fromkeys(applications, 0)`
unfoldable pub from_keys : List String → Dict ℕ → Dict ℕ
from_keys [] apps = apps
from_keys (app ∷ applications) apps = from_keys applications (Dict.set app 0 apps)

-- `_nb_active_apps`
unfoldable pub nb_active_apps : Dict ℕ → ℕ
nb_active_apps [] = 0
nb_active_apps ((app, count) ∷ apps) =
    let rest = nb_active_apps apps in if leb 4 count then suc rest else rest

unfoldable pub new_count : (status : String) → ℕ → ℕ
new_count status count = if status == "ready" then suc count else 0

-- One message: an application that is not waited for is passed over.
unfoldable pub receive : String → String → Dict ℕ → Dict ℕ
unfolding new_count
receive status app apps = elim (Dict.get app apps) [
  | none ↦ apps
  | some count ↦ Dict.set app (new_count status count) apps
]

-- What one turn took from the queue.
unfoldable pub take_message : Option (String × String) → Dict ℕ → Dict ℕ
unfolding receive
take_message none apps = apps
take_message (some (status, app)) apps = receive status app apps

-- The loop of `_UpdateStatusThread.run`.
unfoldable pub watch : (nb_apps : ℕ) → Dict ℕ → List Tick → Progress
unfolding take_message nb_active_apps
watch nb_apps apps [] = if ltb (nb_active_apps apps) nb_apps then waiting apps else online apps
watch nb_apps apps (tick ∷ ticks) =
    let rest = watch nb_apps (take_message tick.message apps) ticks in
    if ltb (nb_active_apps apps) nb_apps
    then (if tick.stopped then cancelled apps else rest)
    else online apps

-- `_UpdateStatusThread.run`, with a status to update.
unfoldable pub run : List String → List Tick → Progress
unfolding watch from_keys
run applications ticks = watch (length applications) (from_keys applications []) ticks
