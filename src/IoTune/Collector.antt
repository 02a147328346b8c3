-- ===== src/IoTune/Collector.antt =====
-- mom/Collectors/GuestIoTune.py. The state is `info_available`.
use mom.Prelude.{
  Bool, true, false, not, ◌||◌, Option, none, some, List, [], ◌∷◌, Result, ok, err, Exec, pure,
  lift, modify, ◌>>=◌, ◌>>◌, if◌then◌else◌,
}
use mom.Python.Value.{Error}
use mom.Hypervisor.Json.{Json, null, truthy, item, get, is_null, iterate}
use mom.IoTune.{Tune}
use mom.IoTune.Equality.{equal}

abbrev pub T : Type 0 → Type 0
T A = Exec Bool Error A

-- one state of the list is the one that is looked for
unfoldable pub fits : Json → Json → Json → Result Error Bool
unfolding equal
fits name path state = elim (get state "path" null) [
  | err e ↦ err e
  | ok its_path ↦
      if equal path its_path
      then ok true
      else if is_null path || is_null its_path
      then elim (get state "name" null) [ ok its_name ↦ ok (equal name its_name) | err e ↦ err e ]
      else ok false
]

-- `findState`
unfoldable pub find_state : Json → Json → List Json → Result Error (Option Json)
unfolding fits
find_state name path [] = ok none
find_state name path (state ∷ states) = elim (fits name path state) [
  | err e ↦ err e
  | ok true ↦ ok (some state)
  | ok false ↦ find_state name path states
]

unfoldable pub tune_of : Json → Json → T Tune
tune_of limits state = do
  name ← lift (item state "name")
  path ← lift (item state "path")
  guaranteed ← lift (item limits "guaranteed")
  maximum ← lift (item limits "maximum")
  current ← lift (item state "ioTune")
  pure (record {
    name = name;
    path = path;
    guaranteed = guaranteed;
    maximum = maximum;
    current = current;
  })

-- the loop over the policies: the tunes, and the copies of the states
unfoldable pub pair_all : List Json → List Json → T (List Tune × List Json)
unfolding find_state tune_of
pair_all states [] = pure ([], [])
pair_all states (limits ∷ policies) = do
  name ← lift (get limits "name" null)
  path ← lift (get limits "path" null)
  found ← lift (find_state name path states)
  elim found [
    | none ↦ pair_all states policies
    | some state ↦ do
      tune ← tune_of limits state
      rest ← pair_all states policies
      pure (tune ∷ rest.0, state ∷ rest.1)
  ]

-- the statistics io_tune and io_tune_current; `none` is None
unfoldable pub collect : Result Error Json → Result Error Json → T (Option (List Tune × List Json))
unfolding pair_all
collect policy_answer state_answer = do
  policies ← lift policy_answer
  if not (truthy policies) then (do modify (λ b. false); pure none) else do
    states ← lift state_answer
    if not (truthy states) then (do modify (λ b. false); pure none) else do
      modify (λ b. true)
      each ← lift (iterate policies)
      all ← lift (iterate states)
      found ← pair_all all each
      pure (some found)
