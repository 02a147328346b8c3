-- ===== src/Samples/Disks.antt =====
-- A disk's limits, from the collector to the controller.
use mom.Prelude.{◌≡◌, refl, true, some, [], ◌∷◌, ok, ◌>>=◌}
use mom.Prelude.Int.{pos}
use mom.Hypervisor.Json.{Json, num, txt, arr, obj, nil, cons, stop, entry, get, item, iterate}
use mom.IoTune.{Tune}
use mom.IoTune.Equality.{equal, Distinct}
use mom.IoTune.Collector.{collect, pair_all, find_state, fits, tune_of}
use mom.IoTune.Controller.{process_guest}
use mom.IoTune.Unchanged.{AllDistinct, collect-unchanged}

abbrev limits : Json
limits = obj (entry "total_bytes_sec" (num (pos 500)) (entry "read_iops_sec" (num (pos 0)) stop))

abbrev policy : Json
policy = obj (entry "name" (txt "vda") (entry "guaranteed" limits (entry "maximum" limits stop)))

abbrev gone : Json
gone = obj (entry "name" (txt "vdb") (entry "guaranteed" limits (entry "maximum" limits stop)))

abbrev state : Json
state = obj (entry "name" (txt "vda") (entry "path" (txt "/d") (entry "ioTune" limits stop)))

abbrev tune : Tune
tune = record {
  name = txt "vda";
  path = txt "/d";
  guaranteed = limits;
  maximum = limits;
  current = limits;
}

-- the disk of the first policy is not there
collected :
    (collect (ok (arr (cons gone (cons policy nil)))) (ok (arr (cons state nil))) true).0
    ≡ ok (some (tune ∷ [], state ∷ []))
unfolding collect pair_all find_state fits tune_of equal get item iterate ◌>>=◌
collected = refl

limits-distinct : AllDistinct (tune ∷ [])
unfolding Distinct
limits-distinct = ((refl, tt, (refl, tt, tt)), tt)

collect-unchanged_example :
    process_guest (record { uuid = "u"; tunes = tune ∷ []; states = state ∷ [] }) [] ≡ (ok tt, [])
collect-unchanged_example =
    collect-unchanged (ok (arr (cons gone (cons policy nil)))) (ok (arr (cons state nil))) true "u"
      (tune ∷ []) (state ∷ []) [] collected limits-distinct
