-- ===== src/Status/Ready.antt =====
-- When the thread says that all applications are ready.
use snap_openstack.Prelude.{
  ◌++◌, sym, ◌≢◌, ◌∙◌, ℕ, suc, ◌+◌, ◌≤◌, ◌<◌, String, ◌≡◌, refl, ◌∙◌, Bool, true, Option, none,
  some, List, [], ◌∷◌, length, all, elem, ltb, leb, arith, eq_iff, ◌==◌, string_eq, if◌then◌else◌,
  Bool-cases, inl, inr, Option-cases, subst,
}
use snap_openstack.Dict
use snap_openstack.Dict.{Dict, keys, has}
use snap_openstack.Status.{
  Tick, cancelled, online, waiting, from_keys, nb_active_apps, take_message, receive, new_count,
  watch, run,
}

size : Dict ℕ → ℕ
size [] = 0
size (x ∷ apps) = suc (size apps)

nb_active_apps-le_size : (apps : Dict ℕ) → nb_active_apps apps ≤ size apps
unfolding nb_active_apps size
nb_active_apps-le_size [] = omega arith
nb_active_apps-le_size ((app, count) ∷ apps) = ground (arith, nb_active_apps-le_size apps)

size-set :
    (app : String) (n : ℕ) (apps : Dict ℕ)
    → size (Dict.set app n apps) ≡ (if has app apps then size apps else suc (size apps))
unfolding size Dict.set keys
size-set app n [] = refl
size-set app n ((k, m) ∷ apps) = ground (arith, size-set app n apps)

has-get : (k : String) (d : Dict ℕ) (n : ℕ) → Dict.get k d ≡ some n → has k d ≡ true
unfolding Dict.get keys
has-get k [] n h = cc
has-get k ((j, v) ∷ d) n h = ground (arith, has-get k d n)

size-receive : (status app : String) (apps : Dict ℕ) → size (receive status app apps) ≡ size apps
unfolding receive
size-receive status app apps = elim (Option-cases (Dict.get app apps)) [
  | inl missing ↦ rw (receive, missing) refl
  | inr (n, there) ↦
      rw (receive, there)
        (size-set app (new_count status n) apps ∙ ground (arith, has-get app apps n there))
]

size-take_message :
    (m : Option (String × String)) (apps : Dict ℕ) → size (take_message m apps) ≡ size apps
unfolding take_message
size-take_message none apps = refl
size-take_message (some (status, app)) apps = size-receive status app apps

-- Each count of the table is at least four.
abbrev pub all_ready : Dict ℕ → Bool
all_ready apps = all (λ a. leb 4 a.1) apps

full-all_ready : (apps : Dict ℕ) → size apps ≤ nb_active_apps apps → all_ready apps ≡ true
unfolding nb_active_apps size
full-all_ready [] h = refl
full-all_ready ((app, count) ∷ apps) h =
    ground (arith, full-all_ready apps, nb_active_apps-le_size apps)

-- An online result has as many ready applications as were asked for, and the table keeps its size.
watch-online :
    (n : ℕ) (apps result : Dict ℕ) (ticks : List Tick)
    → watch n apps ticks ≡ online result
    → (n ≤ nb_active_apps result) × (size result ≡ size apps)
unfolding watch
watch-online n apps result [] h = elim (Bool-cases (ltb (nb_active_apps apps) n)) [
  | inl fewer ↦ let h' : waiting apps ≡ online result = rw (watch, fewer) at h in cc
  | inr enough ↦
      let h' : online apps ≡ online result = rw (watch, enough) at h in
      let p : apps ≡ result = cc in
      subst (λ r. (n ≤ nb_active_apps r) × (size r ≡ size apps)) p (ground arith, refl)
]
watch-online n apps result (tick ∷ ticks) h = elim (Bool-cases (ltb (nb_active_apps apps) n)) [
  | inr enough ↦
      let h' : online apps ≡ online result = rw (watch, enough) at h in
      let p : apps ≡ result = cc in
      subst (λ r. (n ≤ nb_active_apps r) × (size r ≡ size apps)) p (ground arith, refl)
  | inl fewer ↦ elim (Bool-cases tick.stopped) [
    | inl stopped ↦ let h' : cancelled apps ≡ online result = rw (watch, fewer, stopped) at h in cc
    | inr on ↦
        let (many, same) =
          watch-online n (take_message tick.message apps) result ticks
            (rw (watch, fewer, on) at h) in
        (many, same ∙ size-take_message tick.message apps)
  ]
]

size-from_keys :
    (applications : List String) (apps : Dict ℕ)
    → size (from_keys applications apps) ≤ length applications + size apps
unfolding from_keys
size-from_keys [] apps = omega arith
size-from_keys (app ∷ applications) apps =
    ground (arith, size-from_keys applications (Dict.set app 0 apps), size-set app 0 apps)

size-from_keys_lt :
    (a : String) (applications : List String) (apps : Dict ℕ)
    → has a apps ≡ true
    → elem a applications ≡ true
    → size (from_keys applications apps) < length applications + size apps
unfolding from_keys
size-from_keys_lt a [] apps there h = cc
size-from_keys_lt a (app ∷ applications) apps there h = elim (Bool-cases (app == a)) [
  | inl same ↦
      let there' : has app apps ≡ true =
        subst (λ x. has x apps ≡ true) (sym ((eq_iff app a).0 same)) there in
      ground (arith, size-from_keys applications (Dict.set app 0 apps), size-set app 0 apps)
  | inr other ↦
      let later : elem a applications ≡ true = rw other at h in
      ground (
        arith,
        size-from_keys_lt a applications (Dict.set app 0 apps),
        size-set app 0 apps,
        Dict.has-set app a 0 apps,
      )
]

-- The thread says that the services are online only with a table in which the count of each application,
-- of messages of readiness in a row, is at least four.
run-online :
    (applications : List String) (ticks : List Tick) (result : Dict ℕ)
    → run applications ticks ≡ online result
    → all_ready result ≡ true
unfolding run size
run-online applications ticks result h =
    let (many, same) =
      watch-online (length applications) (from_keys applications []) result ticks h in
    full-all_ready result (omega (arith, many, same, size-from_keys applications []))

size-from_keys_repeated :
    (a : String) (before after : List String) (apps : Dict ℕ)
    → elem a after ≡ true
    → size (from_keys (before ++ (a ∷ after)) apps) < length (before ++ (a ∷ after)) + size apps
unfolding from_keys
size-from_keys_repeated a [] after apps h =
    let there : has a (Dict.set a 0 apps) ≡ true =
      ground (arith, Dict.has-set a a 0 apps, eq_iff a a) in
    ground (arith, size-from_keys_lt a after (Dict.set a 0 apps) there h, size-set a 0 apps)
size-from_keys_repeated a (b ∷ before) after apps h =
    ground (arith, size-from_keys_repeated a before after (Dict.set b 0 apps) h, size-set b 0 apps)

-- If an application is named twice, wherever in the list, the thread never says that the services are online.
pub run-repeated :
    (a : String) (before after : List String) (ticks : List Tick) (result : Dict ℕ)
    → elem a after ≡ true
    → run (before ++ (a ∷ after)) ticks ≢ online result
unfolding run size
run-repeated a before after ticks result twice h =
    let (many, same) =
      watch-online (length (before ++ (a ∷ after))) (from_keys (before ++ (a ∷ after)) []) result
        ticks h in
    omega (
      arith,
      many,
      same,
      nb_active_apps-le_size result,
      size-from_keys_repeated a before after [] twice,
    )
