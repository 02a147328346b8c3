-- ===== src/Hypervisor/Vdsm/Agreement.antt =====
-- mom/HypervisorInterfaces/vdsmInterface.py and vdsmRpcBase.py answer alike for the same guest.
use mom.Prelude.{
  ◌≡◌, refl, String, Bool, true, false, some, List, [], ◌∷◌, Result, ok, err, ◌>>=◌, arith,
}
use mom.Prelude.Dict.{Dict, lookup, erase}
use mom.Python.Value.{Error, vdsm_error}
use mom.Hypervisor.Json.{Json, null, num, flag, txt, obj, arr, stop, int_of, item, get}
use mom.Hypervisor.RpcBase.{Table, trim, or_null, get_vm_stats, int_item, int_get}
use mom.Hypervisor.RpcBase as RpcBase
use mom.Hypervisor.Vdsm.{Api, Change, converted, handled, stats_of}
use mom.Hypervisor.Vdsm as Vdsm

-- An error, and a result, that is not the exception of a bad status.
abbrev pub is_other : Error → Bool
is_other vdsm_error = false
is_other _ = true

abbrev pub is_plain : {A : Type 0} → Result Error A → Bool
is_plain (err e) = is_other e
is_plain (ok a) = true

item-plain : (j : Json) (key : String) → is_plain (item j key) ≡ true
unfolding item
item-plain (obj fs) key = ground arith
item-plain null key = refl
item-plain (flag b) key = refl
item-plain (num n) key = refl
item-plain (txt s) key = refl
item-plain (arr js) key = refl

int_of-plain : (j : Json) → is_plain (int_of j) ≡ true
unfolding int_of
int_of-plain (txt s) = ground arith
int_of-plain (flag true) = refl
int_of-plain (flag false) = refl
int_of-plain (num n) = refl
int_of-plain null = refl
int_of-plain (arr js) = refl
int_of-plain (obj fs) = refl

get-plain : (j : Json) (key : String) (d : Json) → is_plain (get j key d) ≡ true
unfolding get
get-plain (obj fs) key d = refl
get-plain null key d = refl
get-plain (flag b) key d = refl
get-plain (num n) key d = refl
get-plain (txt s) key d = refl
get-plain (arr js) key d = refl

then-plain :
    {A B : Type 0} (r : Result Error A) (f : A → Result Error B)
    → is_plain r ≡ true
    → ((a : A) → is_plain (f a) ≡ true)
    → is_plain (elim r [ ok a ↦ f a | err e ↦ err e ]) ≡ true
then-plain (ok a) f plain h = h a
then-plain (err e) f plain h = plain

int_item-plain : (j : Json) (key : String) → is_plain (int_item j key) ≡ true
unfolding int_item
int_item-plain j key = then-plain (item j key) int_of (item-plain j key) int_of-plain

int_get-plain : (j : Json) (key : String) (d : Json) → is_plain (int_get j key d) ≡ true
unfolding int_get
int_get-plain j key d = then-plain (get j key d) int_of (get-plain j key d) int_of-plain

found :
    (table : Table) (uuid : String) (vm : Json)
    → lookup uuid table ≡ some vm
    → get_vm_stats uuid table ≡ (ok vm, table)
unfolding get_vm_stats ◌>>=◌
found table uuid vm there = rw there

trim-plain : (ks : List String) (d : Dict Json) → is_plain (trim ks d).0 ≡ true
unfolding trim
trim-plain [] d = refl
trim-plain (key ∷ ks) d =
    grind (arith, int_of-plain (or_null (lookup key d)), trim-plain ks (erase key d), trim-plain ks)

get-item :
    (j value default : Json) (key : String) → item j key ≡ ok value → get j key default ≡ ok value
unfolding item get
get-item (obj fs) value default key h = ground (arith, h)
get-item null value default key h = ground (arith, h)
get-item (flag b) value default key h = ground (arith, h)
get-item (num n) value default key h = ground (arith, h)
get-item (txt s) value default key h = ground (arith, h)
get-item (arr js) value default key h = ground (arith, h)

memory_stats_agree :
    (api : Api) (table : Table) (uuid : String) (vm : Json) (log : List Change)
    → stats_of api uuid log ≡ (ok vm, log)
    → lookup uuid table ≡ some vm
    → (Vdsm.get_vm_memory_stats api uuid log).0 ≡ (RpcBase.get_vm_memory_stats uuid table).0
unfolding Vdsm.get_vm_memory_stats RpcBase.get_vm_memory_stats ◌>>=◌
memory_stats_agree api table uuid vm log here there =
    grind (arith, here, found table uuid vm there, int_item-plain, int_get-plain, item-plain)

cpu_tune_info_agree :
    (api : Api) (table : Table) (uuid : String) (vm : Json) (log : List Change)
    → stats_of api uuid log ≡ (ok vm, log)
    → lookup uuid table ≡ some vm
    → (Vdsm.get_vm_cpu_tune_info api uuid log).0 ≡ (RpcBase.get_vm_cpu_tune_info uuid table).0
unfolding Vdsm.get_vm_cpu_tune_info RpcBase.get_vm_cpu_tune_info ◌>>=◌
cpu_tune_info_agree api table uuid vm log here there =
    grind (arith, here, found table uuid vm there, int_of-plain, get-plain)

-- For a guest that getStats() and the table of all guests describe alike, getVmMemoryStats of both
-- interfaces returns the same statistics or raises the same exception, whatever the description is,
-- and so does getVmCpuTuneInfo.
pub stats_agree :
    (api : Api) (table : Table) (uuid : String) (vm : Json) (log : List Change)
    → stats_of api uuid log ≡ (ok vm, log)
    → lookup uuid table ≡ some vm
    → ((Vdsm.get_vm_memory_stats api uuid log).0 ≡ (RpcBase.get_vm_memory_stats uuid table).0)
      × ((Vdsm.get_vm_cpu_tune_info api uuid log).0 ≡ (RpcBase.get_vm_cpu_tune_info uuid table).0)
stats_agree api table uuid vm log here there = (
  memory_stats_agree api table uuid vm log here there,
  cpu_tune_info_agree api table uuid vm log here there,
)

-- For a guest that getStats() and the table of all guests describe alike, balloonInfo included,
-- getVmBalloonInfo of both interfaces returns the same or raises the same exception.
pub balloon_info_agree :
    (api : Api) (table : Table) (uuid : String) (vm info : Json) (log : List Change)
    → stats_of api uuid log ≡ (ok vm, log)
    → lookup uuid table ≡ some vm
    → item vm "balloonInfo" ≡ ok info
    → (Vdsm.get_vm_balloon_info api uuid log).0 ≡ (RpcBase.get_vm_balloon_info uuid table).0
unfolding Vdsm.get_vm_balloon_info RpcBase.get_vm_balloon_info ◌>>=◌
balloon_info_agree api table uuid vm info log here there has_info = grind (
  arith,
  here,
  found table uuid vm there,
  has_info,
  get-item vm info (obj stop) "balloonInfo" has_info,
  trim-plain,
)
