-- ===== src/IoTune.antt =====
-- The limits of a guest's disks: mom/Collectors/GuestIoTune.py and mom/Controllers/IoTune.py. What
-- the hypervisor interface answers is a parameter.
pub mod Equality
pub mod Collector
pub mod Controller
pub mod Unchanged
use mom.Prelude.{String, List, Result, ok, err}
use mom.Prelude.Dict.{insert}
use mom.Python.Value.{Error, type_error}
use mom.Hypervisor.Json.{Json, Fields, null, num, txt, obj, stop, entry, dict_of, of_dict, int_of}

-- GuestIoTune.IoTune
pub record Tune : Type 0 where
  pub name : Json
  pub path : Json
  pub guaranteed : Json
  pub maximum : Json
  pub current : Json

-- {'name': ..., 'path': ..., 'ioTune': ...}
unfoldable pub io_tune : Tune → Json
io_tune t = obj (entry "name" t.name (entry "path" t.path (entry "ioTune" t.current stop)))

unfoldable pub int_or_none : Json → Result Error Json
int_or_none null = ok null
int_or_none val = elim (int_of val) [ ok n ↦ ok (num n) | err e ↦ err e ]

abbrev stored : String → Json → Tune → Json → Result Error Tune
stored key value t (obj fs) =
    ok (record t { current = obj (of_dict (insert key value (dict_of fs))) })
stored key value t vals = err type_error

-- self.current.vals[key] = int_or_none(val)
unfoldable pub set_current : String → Json → Tune → Result Error Tune
unfolding int_or_none
set_current key val t = elim (int_or_none val) [
  | ok value ↦ stored key value t t.current
  | err e ↦ err e
]

unfoldable pub set_total_bytes_sec : Json → Tune → Result Error Tune
unfolding set_current
set_total_bytes_sec = set_current "total_bytes_sec"

unfoldable pub set_read_bytes_sec : Json → Tune → Result Error Tune
unfolding set_current
set_read_bytes_sec = set_current "read_bytes_sec"

unfoldable pub set_write_bytes_sec : Json → Tune → Result Error Tune
unfolding set_current
set_write_bytes_sec = set_current "write_bytes_sec"

unfoldable pub set_total_iops_sec : Json → Tune → Result Error Tune
unfolding set_current
set_total_iops_sec = set_current "total_iops_sec"

unfoldable pub set_read_iops_sec : Json → Tune → Result Error Tune
unfolding set_current
set_read_iops_sec = set_current "read_iops_sec"

unfoldable pub set_write_iops_sec : Json → Tune → Result Error Tune
unfolding set_current
set_write_iops_sec = set_current "write_iops_sec"
