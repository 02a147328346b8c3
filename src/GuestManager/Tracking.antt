-- ===== src/GuestManager/Tracking.antt =====
-- Which guests are tracked after a round of mom/GuestManager.py.
use mom.Prelude.{
  String, ◌≡◌, ◌∙◌, refl, Bool, true, false, Option, none, some, List, [], ◌∷◌, arith, contains,
  eq_iff, ◌==◌, if◌then◌else◌, Bool-cases, Option-cases, inl, inr,
}
use mom.Prelude.Dict.{
  Dict, lookup, insert, erase, has, keys, lookup-insert, lookup-erase, contains-keys,
}
use mom.Python.Value.{Value}
use mom.Monitor.Sets.{union, difference, contains-union, contains-difference}
use mom.GuestManager.{
  alive, Guest, is_running, create_monitor, register_guest, register_all, created, create_all,
  spawn_guest_monitors, check_one, check_all, unregister_guest, check_guest_monitors, follow,
}

-- the key of every entry is new
abbrev pub Distinct : {V : Type 0} → Dict V → Type 0
Distinct [] = Unit
Distinct ((k, v) ∷ d) = (has k d ≡ false) × Distinct d

-- the guest is not dropped by the check
abbrev stays : List String → String → Option Bool → Bool
stays domain_list id none = contains id domain_list
stays domain_list id (some false) = false
stays domain_list id (some true) = contains id domain_list

module _ {V : Type 0} where
  has-insert :
      (k j : String) (v : V) (d : Dict V)
      → has j (insert k v d) ≡ (if k == j then true else has j d)
  has-insert k j v d = ground (arith, lookup-insert j k v d)

  has-erase : (k j : String) (d : Dict V) → has j (erase k d) ≡ (if k == j then false else has j d)
  has-erase k j d = ground (arith, lookup-erase j k d)

  Distinct-insert : (k : String) (v : V) (d : Dict V) → Distinct d → Distinct (insert k v d)
  Distinct-insert k v [] h = (refl, tt)
  Distinct-insert k v ((j, w) ∷ d) h = elim (Bool-cases (j == k)) [
    | inl e ↦ rw e (ground (arith, eq_iff j k), h.1)
    | inr e ↦ rw e (
      rw (has-insert k j v d) (ground (arith, eq_iff j k, eq_iff k j)),
      Distinct-insert k v d h.1,
    )
  ]

  Distinct-erase : (k : String) (d : Dict V) → Distinct d → Distinct (erase k d)
  Distinct-erase k [] h = tt
  Distinct-erase k ((j, w) ∷ d) h = elim (Bool-cases (j == k)) [
    | inl e ↦ rw e (Distinct-erase k d h.1)
    | inr e ↦ rw e (rw (has-erase k j d) (ground arith), Distinct-erase k d h.1)
  ]

module _ {R : Type 0} where
  -- a guest that runs, or none
  abbrev pub if_running : Option (Guest R) → Option (Guest R)
  if_running none = none
  if_running (some g) = if is_running g then some g else none

  abbrev or_else : Option (Guest R) → Option (Guest R) → Option (Guest R)
  or_else none other = other
  or_else (some g) other = some g

  lookup-register_all :
      (id : String) (fresh guests : Dict (Guest R))
      → Distinct fresh
      → lookup id (register_all fresh guests)
        ≡ or_else (lookup id guests) (if_running (lookup id fresh))
  unfolding register_all register_guest
  lookup-register_all id [] guests d = ground arith
  lookup-register_all id ((j, g) ∷ fresh) guests d =
      lookup-register_all id fresh (if is_running g then register_guest j g guests else guests) d.1
      ∙ ground (arith, lookup-insert id j g guests, eq_iff j id)

  module _ (threaded : Bool) (get_vm_info : String → Option (Dict (Value R)))
      (lives : String → Bool) where
    abbrev pub new_guest : String → Option (Dict (Value R)) → Option (Guest R)
    new_guest id none = none
    new_guest id (some info) = some (create_monitor threaded (lives id) info)

    lookup-created :
        (id j : String) (o : Option (Dict (Value R))) (rest : Dict (Guest R))
        → lookup id (created threaded get_vm_info lives j o rest)
          ≡ or_else (if j == id then new_guest j o else none) (lookup id rest)
    lookup-created id j none rest = ground arith
    lookup-created id j (some info) rest =
        ground (arith, lookup-insert id j (create_monitor threaded (lives j) info) rest)

    lookup-create_all :
        (id : String) (ids : List String)
        → lookup id (create_all threaded get_vm_info lives ids)
          ≡ (if contains id ids then new_guest id (get_vm_info id) else none)
    unfolding create_all
    lookup-create_all id [] = refl
    lookup-create_all id (j ∷ ids) =
        lookup-created id j (get_vm_info j) (create_all threaded get_vm_info lives ids)
        ∙ ground (arith, lookup-create_all id ids, eq_iff j id)

    Distinct-created :
        (j : String) (o : Option (Dict (Value R))) (rest : Dict (Guest R))
        → Distinct rest
        → Distinct (created threaded get_vm_info lives j o rest)
    Distinct-created j none rest h = h
    Distinct-created j (some info) rest h = Distinct-insert j _ rest h

    Distinct-create_all : (ids : List String) → Distinct (create_all threaded get_vm_info lives ids)
    unfolding create_all
    Distinct-create_all [] = tt
    Distinct-create_all (j ∷ ids) = Distinct-created j (get_vm_info j) _ (Distinct-create_all ids)

  Distinct-register_all :
      (fresh guests : Dict (Guest R)) → Distinct guests → Distinct (register_all fresh guests)
  unfolding register_all register_guest
  Distinct-register_all [] guests h = h
  Distinct-register_all ((j, g) ∷ fresh) guests h =
      Distinct-register_all fresh (if is_running g then register_guest j g guests else guests)
        (elim (Bool-cases (is_running g)) [
          | inl r ↦ rw r (elim (Bool-cases (has j guests)) [
            | inl t ↦ rw t h
            | inr t ↦ rw t (Distinct-insert j g guests h)
          ])
          | inr r ↦ rw r h
        ])

  Distinct-unregister :
      (j : String) (guests : Dict (Guest R))
      → Distinct guests
      → Distinct (unregister_guest j guests).1
  unfolding unregister_guest
  Distinct-unregister j guests h = elim (Option-cases (lookup j guests)) [
    | inl e ↦ rw (e, unregister_guest) h
    | inr (g, e) ↦ rw (e, unregister_guest) (Distinct-erase j guests h)
  ]

  lookup-check_one :
      (domain_list : List String) (j id : String) (t : Option Bool) (guests : Dict (Guest R))
      → lookup id (check_one domain_list j t guests).1 ≡ (
          if j == id
          then (if stays domain_list j t then lookup id guests else none)
          else lookup id guests)
  unfolding unregister_guest
  lookup-check_one l j id none guests = ground (arith, lookup-erase id j guests, eq_iff j id)
  lookup-check_one l j id (some false) guests = ground (arith, lookup-erase id j guests)
  lookup-check_one l j id (some true) guests = ground (arith, lookup-erase id j guests, eq_iff j id)

  Distinct-check_one :
      (domain_list : List String) (j : String) (t : Option Bool) (guests : Dict (Guest R))
      → Distinct guests
      → Distinct (check_one domain_list j t guests).1
  unfolding unregister_guest
  Distinct-check_one l j none guests h = elim (Bool-cases (contains j l)) [
    | inl e ↦ rw e h
    | inr e ↦ rw e (Distinct-unregister j guests h)
  ]
  Distinct-check_one l j (some false) guests h = Distinct-erase j guests h
  Distinct-check_one l j (some true) guests h = elim (Bool-cases (contains j l)) [
    | inl e ↦ rw e h
    | inr e ↦ rw e (Distinct-unregister j guests h)
  ]

  Distinct-check_all :
      (domain_list : List String) (copy guests : Dict (Guest R))
      → Distinct guests
      → Distinct (check_all domain_list copy guests).1
  unfolding check_all
  Distinct-check_all l [] guests h = h
  Distinct-check_all l ((j, g) ∷ copy) guests h =
      Distinct-check_all l copy _ (Distinct-check_one l j g.thread guests h)

  abbrev checked : List String → String → Option (Guest R) → Option (Guest R) → Option (Guest R)
  checked domain_list id none now = now
  checked domain_list id (some g) now = if stays domain_list id g.thread then now else none

  lookup-check_all :
      (domain_list : List String) (id : String) (copy guests : Dict (Guest R))
      → Distinct copy
      → lookup id (check_all domain_list copy guests).1
        ≡ checked domain_list id (lookup id copy) (lookup id guests)
  unfolding check_all
  lookup-check_all l id [] guests d = refl
  lookup-check_all l id ((j, g) ∷ copy) guests d =
      lookup-check_all l id copy (check_one l j g.thread guests).1 d.1
      ∙ ground (arith, lookup-check_one l j id g.thread guests, eq_iff j id)

  -- a guest that stays is one that runs and is in the list
  checked_self :
      (domain_list : List String) (id : String) (o : Option (Guest R))
      → checked domain_list id o o ≡ (if contains id domain_list then if_running o else none)
  unfolding is_running
  checked_self l id none = ground arith
  checked_self l id (some g) = by_thread g.thread
    where
      by_thread :
          (t : Option Bool)
          → (if stays l id t then some g else none)
            ≡ (if contains id l then (if alive t then some g else none) else none)
      by_thread none = refl
      by_thread (some false) = ground arith
      by_thread (some true) = refl

  module _ (threaded : Bool) (get_vm_info : String → Option (Dict (Value R)))
      (lives : String → Bool) where
    -- The guest that a round should track for a running domain: the one that is tracked, if its
    -- thread is alive, or else, if none is tracked, a new one.
    abbrev pub expected : String → Option (Guest R) → Option (Guest R)
    expected id (some g) = if_running (some g)
    expected id none = if_running (new_guest threaded get_vm_info lives id (get_vm_info id))

    -- After a round with a list of domains, from entries with distinct ids: a domain of the list that
    -- was tracked has its guest if the guest's thread has not ended, and none otherwise; one that was
    -- not tracked has a new guest if getVmInfo answers with its information and the new thread has not
    -- ended, and none otherwise; a domain outside the list has none; the entries keep distinct ids.
    pub lookup-follow :
        (domain_list : List String) (id : String) (guests : Dict (Guest R))
        → Distinct guests
        → (lookup id (follow threaded get_vm_info lives (some domain_list) guests).1
            ≡ (if contains id domain_list then expected id (lookup id guests) else none))
          × Distinct (follow threaded get_vm_info lives (some domain_list) guests).1
    unfolding follow spawn_guest_monitors check_guest_monitors
    lookup-follow domain_list id guests d =
        let ids = difference (union domain_list []) (keys guests) in
        let fresh = create_all threaded get_vm_info lives ids in
        let spawned = register_all fresh guests in
        let distinct = Distinct-register_all fresh guests d in
        (
          lookup-check_all domain_list id spawned spawned distinct
              ∙ checked_self domain_list id (lookup id spawned)
              ∙ ground (
                arith,
                lookup-register_all id fresh guests
                    (Distinct-create_all threaded get_vm_info lives ids),
                lookup-create_all threaded get_vm_info lives id ids,
                contains-difference id (union domain_list []) (keys guests),
                contains-union id domain_list [],
                contains-keys id guests,
              ),
          Distinct-check_all domain_list spawned spawned distinct,
        )
